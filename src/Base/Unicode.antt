-- ===== src/Base/Unicode.antt =====
-- The tables of Go's `unicode` package that the normalisers read: a parameter of the model. `ascii`
-- is their restriction to ASCII, with which definitions run.
use Prim.Native.Nat.{ℕ, ◌+◌, ◌-◌}
use mathlib.Core.Path.{◌≡◌, refl}
use mathlib.Core.Bool.{Bool, true, false, ◌&&◌, ◌||◌}
use native.Mathlib.Omega.{arith}
use watchlist_platform.Base.Tests.{leb, if◌then◌else◌}
use watchlist_platform.Base.Text.{is_space}

pub record Unicode : Type 0 where
  pub to_upper : ℕ → ℕ
  pub to_lower : ℕ → ℕ
  pub is_letter : ℕ → Bool
  pub is_digit : ℕ → Bool

-- unicode.IsLetter(r) || unicode.IsDigit(r)
abbrev pub is_word : Unicode → ℕ → Bool
is_word u r = u.is_letter r || u.is_digit r

-- What the normalisers rely on: upper case is stable, white space is neither letter nor digit, and
-- the space has no upper case of its own.
pub record UnicodeLaws (u : Unicode) : Type 0 where
  pub upper_upper : (c : ℕ) → u.to_upper (u.to_upper c) ≡ u.to_upper c
  pub word_not_space : (c : ℕ) → is_word u c ≡ true → is_space c ≡ false
  pub upper_space : u.to_upper 32 ≡ 32

abbrev ascii_upper : ℕ → ℕ
ascii_upper c = if leb b'a' c && leb c b'z' then c - 32 else c

abbrev ascii_lower : ℕ → ℕ
ascii_lower c = if leb b'A' c && leb c b'Z' then c + 32 else c

abbrev ascii_letter : ℕ → Bool
ascii_letter c = (leb b'a' c && leb c b'z') || (leb b'A' c && leb c b'Z')

abbrev ascii_digit : ℕ → Bool
ascii_digit c = leb b'0' c && leb c b'9'

abbrev pub ascii : Unicode
ascii = record {
  to_upper = ascii_upper;
  to_lower = ascii_lower;
  is_letter = ascii_letter;
  is_digit = ascii_digit;
}

ascii_word_not_space : (c : ℕ) → is_word ascii c ≡ true → is_space c ≡ false
unfolding is_space
ascii_word_not_space c h = ground arith

ascii_upper_upper : (c : ℕ) → ascii_upper (ascii_upper c) ≡ ascii_upper c
ascii_upper_upper c = ground arith

pub ascii-UnicodeLaws : UnicodeLaws ascii
ascii-UnicodeLaws = record {
  upper_upper = ascii_upper_upper;
  word_not_space = ascii_word_not_space;
  upper_space = refl;
}
