-- ===== src/Matcher/Soundex.antt =====
-- What a phonetic code looks like, and the bound of the phonetic similarity.
use native.Mathlib.Nat.{div-le_of_le-mul}
use watchlist_platform.Base.{
  ℕ, zero, suc, ◌≤◌, ◌≡◌, refl, ap, ◌&&◌, not, List, [], ◌∷◌, map, length, leb, ◌==◌, none, some,
  Bool-cases, All, inl, inr, length-map, arith,
}
use watchlist_platform.Base.Text.{Text}
use watchlist_platform.Base.Unicode.{Unicode}
use watchlist_platform.Matcher.Edit.{longer}
use watchlist_platform.Matcher.Phonetic.{
  soundex_digit, letters, soundex_digits, pad_zeros, encode_letters, soundex, Slot, use_code,
  count_codes, unused, phonetic_similarity,
}

abbrev pub Letter : ℕ → Type 0
Letter c = (b'A' ≤ c) × (c ≤ b'Z')

abbrev pub Digit : ℕ → Type 0
Digit d = (b'0' ≤ d) × (d ≤ b'6')

-- nothing, or a letter and three digits
abbrev pub IsCode : Text → Type 0
IsCode [] = Unit
IsCode (c ∷ digits) = Letter c × (length digits ≡ 3) × All Digit digits

letters-All : (s : Text) → All Letter (letters s)
unfolding letters
letters-All [] = tt
letters-All (r ∷ s) = elim (Bool-cases (leb b'A' r && leb r b'Z')) [
  | inl h ↦ rw h (ground (arith, h), letters-All s)
  | inr h ↦ rw h (letters-All s)
]

soundex_digit-Digit : (v : ℕ) → Digit (soundex_digit v)
unfolding soundex_digit
soundex_digit-Digit v = ground arith

soundex_digits-All :
    (room prev : ℕ) (s : Text)
    → All Digit (soundex_digits room prev s) × (length (soundex_digits room prev s) ≤ room)
unfolding soundex_digits
soundex_digits-All zero prev s = (tt, omega arith)
soundex_digits-All (suc room) prev [] = (tt, omega arith)
soundex_digits-All (suc room) prev (v ∷ s) =
    let d = soundex_digit v in
    let write = soundex_digits-All room d s in
    elim (Bool-cases (not (d == b'0') && not (d == prev))) [
      | inl h ↦ rw h ((soundex_digit-Digit v, write.0), omega (arith, write.1))
      | inr h ↦ rw h (soundex_digits-All (suc room) d s)
    ]

pad_zeros-All :
    (room : ℕ) (out : Text)
    → All Digit out
    → length out ≤ room
    → All Digit (pad_zeros room out) × (length (pad_zeros room out) ≡ room)
unfolding pad_zeros
pad_zeros-All zero [] h k = (tt, refl)
pad_zeros-All zero (d ∷ out) h k = absurd (omega (arith, k))
pad_zeros-All (suc room) [] h k =
    let rest = pad_zeros-All room [] tt (omega arith) in ((omega arith, rest.0), ap suc rest.1)
pad_zeros-All (suc room) (d ∷ out) h k =
    let rest = pad_zeros-All room out h.1 (omega (arith, k)) in ((h.0, rest.0), ap suc rest.1)

encode_letters-IsCode : (s : Text) → All Letter s → IsCode (encode_letters s)
unfolding encode_letters
encode_letters-IsCode [] h = tt
encode_letters-IsCode (first ∷ s) h =
    let digits = soundex_digits-All 3 (soundex_digit first) s in
    let padded = pad_zeros-All 3 (soundex_digits 3 (soundex_digit first) s) digits.0 digits.1 in
    (h.0, padded.1, padded.0)

-- The phonetic code of any token is empty, or a letter A to Z and three digits 0 to 6.
pub soundex-IsCode : (u : Unicode) (value : Text) → IsCode (soundex u value)
unfolding soundex
soundex-IsCode u value =
    encode_letters-IsCode (letters (map u.to_upper value)) (letters-All (map u.to_upper value))

count_codes_le : (codes : List Text) (slots : List Slot) → count_codes codes slots ≤ length codes
unfolding count_codes
count_codes_le [] slots = omega arith
count_codes_le (c ∷ codes) slots =
    let h = λ (rest : List Slot). count_codes_le codes rest in
    elim (use_code c slots)
      as (λ found.
        elim found [ none ↦ count_codes codes slots | some rest ↦ suc (count_codes codes rest) ]
        ≤ suc (length codes)) [ none ↦ omega (arith, h slots) | some rest ↦ omega (arith, h rest) ]

pub phonetic_similarity_le : (u : Unicode) (ls rs : List Text) → phonetic_similarity u ls rs ≤ 10000
unfolding phonetic_similarity
phonetic_similarity_le u [] [] = omega arith
phonetic_similarity_le u [] (r ∷ rs) = omega arith
phonetic_similarity_le u (l ∷ ls) [] = omega arith
phonetic_similarity_le u (l ∷ ls) (r ∷ rs) =
    let codes = map (soundex u) (l ∷ ls) in
    let slots = map unused (map (soundex u) (r ∷ rs)) in
    div-le_of_le-mul (longer (length (l ∷ ls)) (length (r ∷ rs))) {n = 10000}
      (ground (arith, count_codes_le codes slots, length-map (soundex u) (l ∷ ls)))
