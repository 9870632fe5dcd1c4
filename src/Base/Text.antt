-- ===== src/Base/Text.antt =====
-- Go strings. A string is the list of its code points (every string that the modelled code reads
-- comes from JSON, whose decoder yields valid UTF-8). Byte order and code point order agree on UTF-8,
-- so `<` on strings is the lexicographic order here; where the source counts bytes, `utf8` gives them.
use Prim.Native.Nat.{ℕ, ◌+◌, ◌/◌, ◌%◌}
use Prim.Native.Char.{code}
use Prim.Native.String.{String}
use mathlib.Core.Path.{◌≡◌, refl}
use mathlib.Core.Logic.{◌↔◌}
use mathlib.Core.Bool.{Bool, true, false, ◌&&◌, ◌||◌}
use mathlib.Core.List.{List, [], ◌∷◌, ◌++◌}
use native.Mathlib.Omega.{arith}
use watchlist_platform.Base.Tests.{ltb, leb, ◌==◌, if◌then◌else◌}

abbrev pub Text : Type 0
Text = List ℕ

-- A string literal.
abbrev pub text : String → Text
text String.[] = []
text (String.◌∷◌ c s) = code c ∷ text s

unfoldable pub eq_text : Text → Text → Bool
eq_text [] [] = true
eq_text [] (y ∷ ys) = false
eq_text (x ∷ xs) [] = false
eq_text (x ∷ xs) (y ∷ ys) = x == y && eq_text xs ys

-- `a < b` on strings
unfoldable pub lt_text : Text → Text → Bool
lt_text xs [] = false
lt_text [] (y ∷ ys) = true
lt_text (x ∷ xs) (y ∷ ys) = ltb x y || (x == y && lt_text xs ys)

pub eq_text_iff : (a b : Text) → (eq_text a b ≡ true) ↔ (a ≡ b)
unfolding eq_text
eq_text_iff [] [] = ground arith
eq_text_iff [] (y ∷ ys) = ground arith
eq_text_iff (x ∷ xs) [] = ground arith
eq_text_iff (x ∷ xs) (y ∷ ys) = ground (arith, eq_text_iff xs ys)

pub eq_text_refl : (a : Text) → eq_text a a ≡ true
eq_text_refl a = (eq_text_iff a a).1 refl

pub lt_text_irrefl : (a : Text) → lt_text a a ≡ false
unfolding lt_text
lt_text_irrefl [] = refl
lt_text_irrefl (x ∷ xs) = ground (arith, lt_text_irrefl xs)

pub lt_text_asymm : (a b : Text) → lt_text a b ≡ true → lt_text b a ≡ false
unfolding lt_text
lt_text_asymm xs [] h = cc
lt_text_asymm [] (y ∷ ys) h = refl
lt_text_asymm (x ∷ xs) (y ∷ ys) h = ground (arith, lt_text_asymm xs ys)

pub lt_text_trans : (a b c : Text) → lt_text a b ≡ true → lt_text b c ≡ true → lt_text a c ≡ true
unfolding lt_text
lt_text_trans xs [] c h k = cc
lt_text_trans xs (y ∷ ys) [] h k = cc
lt_text_trans [] (y ∷ ys) (z ∷ zs) h k = refl
lt_text_trans (x ∷ xs) (y ∷ ys) (z ∷ zs) h k = ground (arith, lt_text_trans xs ys zs)

-- Two strings of which neither is below the other are one.
pub lt_text_connex : (a b : Text) → lt_text a b ≡ false → lt_text b a ≡ false → a ≡ b
unfolding lt_text
lt_text_connex [] [] h k = refl
lt_text_connex [] (y ∷ ys) h k = cc
lt_text_connex (x ∷ xs) [] h k = cc
lt_text_connex (x ∷ xs) (y ∷ ys) h k = ground (arith, lt_text_connex xs ys)

-- unicode.IsSpace
unfoldable pub is_space : ℕ → Bool
is_space c =
    (leb 9 c && leb c 13)
    || c == 32
    || c == 0x85
    || c == 0xa0
    || c == 0x1680
    || (leb 0x2000 c && leb c 0x200a)
    || c == 0x2028
    || c == 0x2029
    || c == 0x202f
    || c == 0x205f
    || c == 0x3000

unfoldable pub trim_left : (ℕ → Bool) → Text → Text
trim_left p [] = []
trim_left p (c ∷ s) = let rest = trim_left p s in if p c then rest else c ∷ s

-- A trailing run goes: a character is kept where anything after it is, or where it is not cut.
keep_last : Bool → ℕ → Text → Text
keep_last true c [] = []
keep_last _ c s = c ∷ s

unfoldable pub trim_right : (ℕ → Bool) → Text → Text
unfolding keep_last
trim_right p [] = []
trim_right p (c ∷ s) = keep_last (p c) c (trim_right p s)

-- strings.TrimSpace
unfoldable pub trim_space : Text → Text
unfolding is_space trim_left trim_right
trim_space s = trim_right is_space (trim_left is_space s)

-- strings.ReplaceAll(s, string(c), string(d)) and strings.ReplaceAll(s, string(c), "")
unfoldable pub replace_char : ℕ → ℕ → Text → Text
replace_char c d [] = []
replace_char c d (x ∷ s) = (if x == c then d else x) ∷ replace_char c d s

unfoldable pub remove_char : ℕ → Text → Text
remove_char c [] = []
remove_char c (x ∷ s) = let rest = remove_char c s in if x == c then rest else x ∷ rest

-- strings.HasPrefix(s, p) and strings.Contains(s, p)
unfoldable pub has_prefix : Text → Text → Bool
has_prefix s [] = true
has_prefix [] (y ∷ p) = false
has_prefix (x ∷ s) (y ∷ p) = x == y && has_prefix s p

unfoldable pub contains : Text → Text → Bool
unfolding has_prefix
contains [] p = has_prefix [] p
contains (x ∷ s) p = has_prefix (x ∷ s) p || contains s p

-- strings.Fields: the maximal runs without white space, `word` the run that is being read
flush : Text → List Text → List Text
flush [] rest = rest
flush (c ∷ word) rest = (c ∷ word) ∷ rest

fields_from : Text → Text → List Text
unfolding flush is_space
fields_from word [] = flush word []
fields_from word (c ∷ s) = elim (is_space c) [
  | true ↦ flush word (fields_from [] s)
  | false ↦ fields_from (word ++ c ∷ []) s
]

unfoldable pub fields : Text → List Text
unfolding fields_from
fields s = fields_from [] s

-- The UTF-8 bytes of a code point, and of a string.
utf8_char : ℕ → List ℕ
utf8_char c =
    if ltb c 0x80
    then c ∷ []
    else if ltb c 0x800
    then (0xc0 + c / 64) ∷ (0x80 + c % 64) ∷ []
    else if ltb c 0x10000
    then (0xe0 + c / 4096) ∷ (0x80 + c / 64 % 64) ∷ (0x80 + c % 64) ∷ []
    else (0xf0 + c / 262144) ∷ (0x80 + c / 4096 % 64) ∷ (0x80 + c / 64 % 64) ∷ (0x80 + c % 64) ∷ []

unfoldable pub utf8 : Text → List ℕ
unfolding utf8_char
utf8 [] = []
utf8 (c ∷ s) = utf8_char c ++ utf8 s
