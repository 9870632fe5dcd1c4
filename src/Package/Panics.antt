-- ===== src/Package/Panics.antt =====
-- When the reader of a package panics.
use watchlist_platform.Base.{
  ℕ, zero, suc, ◌+◌, ◌*◌, ◌^◌, ◌≤◌, ◌<◌, ◌≡◌, refl, subst, inl, inr, List, [], ◌∷◌, ◌++◌, length,
  take, ltb, ◌==◌, Bool, true, false, Bool-cases, All, arith,
}
use watchlist_platform.Package.Bytes.{Bytes, uint, slice, drop}
use watchlist_platform.Package.Metadata.{
  Outcome, value, invalid_package, panics, follow, sliced, add_u64, decode_values,
  decode_metadata_section,
}
use watchlist_platform.Package.RoundTrip.{add_u32_eq, add_u64_eq}
use watchlist_platform.Package.Reader.{value_at, profile_field}

abbrev pub IsByte : ℕ → Type 0
IsByte b = b < 256

abbrev pub is_panic : {A : Type 0} → Outcome A → Bool
is_panic panics = true
is_panic invalid_package = false
is_panic (value a) = false

pub All-drop : (n : ℕ) (bytes : Bytes) → All IsByte bytes → All IsByte (drop n bytes)
unfolding drop
All-drop zero bytes h = h
All-drop (suc n) [] h = tt
All-drop (suc n) (b ∷ bytes) h = All-drop n bytes h.1

uint-take_lt : (n : ℕ) (bytes : Bytes) → All IsByte bytes → uint (take n bytes) < 256 ^ n
unfolding uint
uint-take_lt zero bytes h = omega arith
uint-take_lt (suc n) [] h =
    let power : 256 ^ suc n ≡ 256 * 256 ^ n = ground arith in
    omega (arith, power, uint-take_lt n [] h)
uint-take_lt (suc n) (b ∷ bytes) h =
    let power : 256 ^ suc n ≡ 256 * 256 ^ n = ground arith in
    omega (arith, power, h.0, uint-take_lt n bytes h.1)

-- a number that is read from `w` bytes
pub uint-slice_lt :
    (low w : ℕ) (bytes : Bytes) → All IsByte bytes → uint (slice low (low + w) bytes) < 256 ^ w
unfolding slice
uint-slice_lt low w bytes h =
    subst (λ n. uint (take n (drop low bytes)) < 256 ^ w) {x = w} (omega arith)
      (uint-take_lt w (drop low bytes) (All-drop low bytes h))

pub sliced_value :
    (low high : ℕ) (bytes : Bytes)
    → low ≤ high
    → high ≤ length bytes
    → sliced low high bytes ≡ value (slice low high bytes)
unfolding sliced
sliced_value low high bytes h k = ground arith

decode_values-calm :
    (count offset : ℕ) (values : List Bytes) (bytes : Bytes)
    → length bytes < 2 ^ 32
    → All IsByte bytes
    → offset < 2 ^ 32
    → is_panic (decode_values count offset values bytes) ≡ false
unfolding decode_values follow
decode_values-calm zero offset values bytes small h k = refl
decode_values-calm (suc count) offset values bytes small h k =
    let four : add_u64 offset 4 ≡ offset + 4 = add_u64_eq offset 4 (omega (arith, k)) in
    elim (Bool-cases (ltb (length bytes) (offset + 4))) [
      | inl e ↦ rw (four, e) refl
      | inr e ↦
          let fits : offset + 4 ≤ length bytes = ground (arith, e) in
          let start = add_u32_eq offset 4 (omega (arith, fits, small)) in
          let size = uint (slice offset (offset + 4) bytes) in
          let bound : size < 2 ^ 32 = uint-slice_lt offset 4 bytes h in
          let total = add_u64_eq (offset + 4) size (omega (arith, fits, small, bound)) in
          let head = sliced_value offset (offset + 4) bytes (omega arith) fits in
          elim (Bool-cases (ltb (length bytes) (offset + 4 + size))) [
            | inl o ↦ rw (four, e, start, head, total, o) refl
            | inr o ↦
                let fits' : offset + 4 + size ≤ length bytes = ground (arith, o) in
                let next = add_u32_eq (offset + 4) size (omega (arith, fits', small)) in
                let body =
                  sliced_value (offset + 4) (offset + 4 + size) bytes (omega arith) fits' in
                let v = slice (offset + 4) (offset + 4 + size) bytes in
                rw (four, e, start, head, total, o, next, body)
                  (decode_values-calm count (offset + 4 + size) (values ++ v ∷ []) bytes small h
                    (omega (arith, fits', small)))
          ]
    ]

value_at-calm :
    (index : ℕ) (values : List Bytes)
    → index < length values
    → is_panic (value_at index values) ≡ false
unfolding value_at
value_at-calm index [] h = absurd (omega (arith, h))
value_at-calm zero (v ∷ values) h = refl
value_at-calm (suc index) (v ∷ values) h = value_at-calm index values (omega (arith, h))

profile_field-calm : (values : List Bytes) → is_panic (profile_field values) ≡ false
unfolding profile_field
profile_field-calm values = elim (Bool-cases (length values == 12)) [
  | inl e ↦ rw e (value_at-calm 10 values (ground (arith, e)))
  | inr e ↦ rw e refl
]

follow-calm :
    (o : Outcome (List Bytes)) → is_panic o ≡ false → is_panic (follow o profile_field) ≡ false
unfolding follow
follow-calm (value values) h = profile_field-calm values
follow-calm invalid_package h = refl
follow-calm panics h = cc

pub decode_metadata_section-calm :
    (bytes : Bytes)
    → length bytes < 2 ^ 32
    → All IsByte bytes
    → is_panic (follow (decode_metadata_section bytes) profile_field) ≡ false
unfolding decode_metadata_section
decode_metadata_section-calm bytes small h = elim (Bool-cases (ltb (length bytes) 4)) [
  | inl e ↦ rw e (follow-calm invalid_package refl)
  | inr e ↦ rw e (
      follow-calm (decode_values (uint (slice 0 4 bytes)) 4 [] bytes)
        (decode_values-calm (uint (slice 0 4 bytes)) 4 [] bytes small h (omega arith)))
]
