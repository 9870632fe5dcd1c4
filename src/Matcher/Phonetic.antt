-- ===== src/Matcher/Phonetic.antt =====
-- The phonetic similarity of internal/matcherbaseline/similarity.go.
use watchlist_platform.Base.{
  ℕ, zero, suc, ◌*◌, ◌/◌, Bool, true, false, ◌&&◌, ◌||◌, not, List, [], ◌∷◌, map, length, is_empty,
  Option, none, some, leb, ◌==◌, if◌then◌else◌,
}
use watchlist_platform.Base.Text.{Text, eq_text}
use watchlist_platform.Base.Unicode.{Unicode}
use watchlist_platform.Matcher.Edit.{longer}

-- The letters are ASCII, so a byte of the mapped string is a code point.
unfoldable pub soundex_digit : ℕ → ℕ
soundex_digit v =
    if v == b'B' || v == b'F' || v == b'P' || v == b'V'
    then b'1'
    else if v == b'C'
        || v == b'G'
        || v == b'J'
        || v == b'K'
        || v == b'Q'
        || v == b'S'
        || v == b'X'
        || v == b'Z'
    then b'2'
    else if v == b'D' || v == b'T'
    then b'3'
    else if v == b'L'
    then b'4'
    else if v == b'M' || v == b'N'
    then b'5'
    else if v == b'R'
    then b'6'
    else b'0'

-- the letters A to Z of a text; `strings.Map` drops the rest
unfoldable pub letters : Text → Text
letters [] = []
letters (r ∷ s) = let rest = letters s in if leb b'A' r && leb r b'Z' then r ∷ rest else rest

-- `i < len(value) && out.Len() < 4`, where `room` digits can still be written
unfoldable pub soundex_digits : ℕ → ℕ → Text → Text
unfolding soundex_digit
soundex_digits zero prev s = []
soundex_digits (suc room) prev [] = []
soundex_digits (suc room) prev (v ∷ s) =
    let d = soundex_digit v in
    let write = soundex_digits room d s in
    let skip = soundex_digits (suc room) d s in
    if not (d == b'0') && not (d == prev) then d ∷ write else skip

-- `for out.Len() < 4`
unfoldable pub pad_zeros : ℕ → Text → Text
pad_zeros zero out = out
pad_zeros (suc room) [] = b'0' ∷ pad_zeros room []
pad_zeros (suc room) (d ∷ out) = d ∷ pad_zeros room out

unfoldable pub encode_letters : Text → Text
unfolding soundex_digit soundex_digits pad_zeros
encode_letters [] = []
encode_letters (first ∷ s) = first ∷ pad_zeros 3 (soundex_digits 3 (soundex_digit first) s)

unfoldable pub soundex : Unicode → Text → Text
unfolding letters encode_letters
soundex u value = encode_letters (letters (map u.to_upper value))

-- a code of the candidate, and whether it is used
pub record Slot : Type 0 where
  pub used : Bool
  pub code : Text

-- the inner loop: the first code that is not used and equals `c` becomes used
unfoldable pub use_code : Text → List Slot → Option (List Slot)
use_code c [] = none
use_code c (s ∷ slots) =
    let later = use_code c slots in
    if not s.used && not (is_empty c) && eq_text c s.code
    then some (record { used = true; code = s.code } ∷ slots)
    else elim later [ none ↦ none | some rest ↦ some (s ∷ rest) ]

unfoldable pub count_codes : List Text → List Slot → ℕ
unfolding use_code
count_codes [] slots = 0
count_codes (c ∷ codes) slots = elim (use_code c slots) [
  | none ↦ count_codes codes slots
  | some rest ↦ suc (count_codes codes rest)
]

abbrev pub unused : Text → Slot
unused code = record { used = false; code = code }

unfoldable pub phonetic_similarity : Unicode → List Text → List Text → ℕ
unfolding soundex count_codes
phonetic_similarity u [] [] = 10000
phonetic_similarity u [] (t ∷ right) = 0
phonetic_similarity u (t ∷ left) [] = 0
phonetic_similarity u (l ∷ left) (r ∷ right) =
    count_codes (map (soundex u) (l ∷ left)) (map unused (map (soundex u) (r ∷ right)))
    * 10000
    / longer (length (l ∷ left)) (length (r ∷ right))
