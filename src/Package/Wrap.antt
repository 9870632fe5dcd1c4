-- ===== src/Package/Wrap.antt =====
-- The metadata section whose end wraps.
use watchlist_platform.Base.{
  ℕ, zero, suc, ◌+◌, ◌-◌, ◌^◌, ◌≤◌, ◌<◌, ◌≡◌, refl, inl, inr, [], ◌∷◌, length, take, ltb, leb, ◌==◌,
  Bool, true, false, not, ◌&&◌, ◌||◌, Bool-cases, All, arith,
}
use watchlist_platform.Base.Text.{eq_text}
use watchlist_platform.Package.Bytes.{Bytes, uint, slice, drop, length-drop, length-take}
use watchlist_platform.Package.Metadata.{
  value, panics, follow, sliced, add_u64, decode_metadata_section,
}
use watchlist_platform.Package.RoundTrip.{add_u64_eq}
use watchlist_platform.Package.Panics.{
  IsByte, is_panic, All-drop, uint-slice_lt, sliced_value, decode_metadata_section-calm,
}
use watchlist_platform.Package.Reader.{
  magic, section_metadata, profile_field, read_section, read_normalization_profile,
}

-- a directory entry of a metadata section that starts in the file and whose end wraps
unfoldable pub section_wraps : Bytes → Bytes → Bool
section_wraps raw entry =
    (uint (slice 0 4 entry) == section_metadata)
    && (leb (uint (slice 8 16 entry)) (length raw)
        && leb (2 ^ 64) (uint (slice 8 16 entry) + uint (slice 16 24 entry)))

-- a header that passes the tests, with its first directory entry in the file
unfoldable pub header_passes : Bytes → Bool
header_passes raw =
    leb 64 (length raw)
    && (eq_text (slice 0 8 raw) magic
        && (not (uint (slice 12 16 raw) == 0) && leb (uint (slice 24 32 raw) + 32) (length raw)))

All-take : (n : ℕ) (bytes : Bytes) → All IsByte bytes → All IsByte (take n bytes)
All-take zero bytes h = tt
All-take (suc n) [] h = tt
All-take (suc n) (b ∷ bytes) h = (h.0, All-take n bytes h.1)

All-slice : (low high : ℕ) (bytes : Bytes) → All IsByte bytes → All IsByte (slice low high bytes)
unfolding slice
All-slice low high bytes h = All-take (high - low) (drop low bytes) (All-drop low bytes h)

length-slice_le :
    (low high : ℕ) (bytes : Bytes)
    → low ≤ high
    → high ≤ length bytes
    → length (slice low high bytes) ≡ high - low
unfolding slice
length-slice_le low high bytes h k =
    length-take (high - low) (drop low bytes) (omega (arith, length-drop low bytes, h, k))

wraps_below :
    (offset size : ℕ)
    → size < 2 ^ 64
    → offset < 2 ^ 64
    → 2 ^ 64 ≤ offset + size
    → add_u64 offset size < offset
unfolding add_u64
wraps_below offset size h k l = omega (arith, h, k, l)

sliced_panics : (low high : ℕ) (bytes : Bytes) → high < low → sliced low high bytes ≡ panics
unfolding sliced
sliced_panics low high bytes h = ground arith

follow_panics :
    is_panic (follow panics (λ bytes. follow (decode_metadata_section bytes) profile_field)) ≡ true
unfolding follow
follow_panics = refl

follow_calm :
    (section : Bytes)
    → length section < 2 ^ 32
    → All IsByte section
    → is_panic
        (follow (value section) (λ bytes. follow (decode_metadata_section bytes) profile_field))
      ≡ false
unfolding follow
follow_calm section small h = decode_metadata_section-calm section small h

read_section-panics :
    (raw entry : Bytes)
    → length raw < 2 ^ 32
    → All IsByte raw
    → All IsByte entry
    → is_panic (read_section raw entry) ≡ section_wraps raw entry
unfolding read_section section_wraps
read_section-panics raw entry small hr he =
    let offset = uint (slice 8 16 entry) in
    let size = uint (slice 16 24 entry) in
    let end = add_u64 offset size in
    let size_lt : size < 2 ^ 64 = uint-slice_lt 16 8 entry he in
    elim (Bool-cases (uint (slice 0 4 entry) == section_metadata)) [
      | inr e ↦ rw e refl
      | inl e ↦ elim (Bool-cases (leb offset (length raw))) [
        | inr o ↦
            let out : (ltb (length raw) offset || ltb (length raw) end) ≡ true =
              ground (arith, o) in
            rw (e, o, out) refl
        | inl o ↦
            let start : offset ≤ length raw = ground (arith, o) in
            elim (Bool-cases (leb (2 ^ 64) (offset + size))) [
              | inl w ↦
                  let below =
                    wraps_below offset size size_lt (omega (arith, start, small))
                      (ground (arith, w)) in
                  let tested : (ltb (length raw) offset || ltb (length raw) end) ≡ false =
                    ground (arith, start, below) in
                  rw (e, o, w, tested, sliced_panics offset end raw below) follow_panics
              | inr w ↦
                  let sum = add_u64_eq offset size (ground (arith, w)) in
                  elim (Bool-cases (ltb (length raw) offset || ltb (length raw) end)) [
                    | inl t ↦ rw (e, o, w, t) refl
                    | inr t ↦
                        let fits : end ≤ length raw = ground (arith, t) in
                        let le : offset ≤ end = omega (arith, sum) in
                        let section = slice offset end raw in
                        rw (e, o, w, t, sliced_value offset end raw le fits)
                          (follow_calm section
                            (omega (arith, length-slice_le offset end raw le fits, fits, small))
                            (All-slice offset end raw hr))
                  ]
            ]
      ]
    ]

truncated :
    (raw : Bytes) (directory : ℕ)
    → directory < 2 ^ 64
    → length raw < 2 ^ 32
    → leb (directory + 32) (length raw) ≡ false
    → (ltb (length raw) directory || ltb (length raw) (add_u64 directory 32)) ≡ true
unfolding add_u64
truncated raw directory h small d = ground arith

-- ReadNormalizationProfile of a file below 4 GiB panics exactly if the header passes its tests, the
-- first directory entry is that of a metadata section which starts in the file, and the offset and the
-- length of this section add up to 2 ^ 64 or more.
pub read_normalization_profile-panics :
    (raw : Bytes)
    → length raw < 2 ^ 32
    → All IsByte raw
    → is_panic (read_normalization_profile raw) ≡ (
        header_passes raw
        && section_wraps raw (slice (uint (slice 24 32 raw)) (uint (slice 24 32 raw) + 32) raw))
unfolding read_normalization_profile header_passes follow
read_normalization_profile-panics raw small h =
    let directory = uint (slice 24 32 raw) in
    let entry = slice directory (directory + 32) raw in
    let directory_lt : directory < 2 ^ 64 = uint-slice_lt 24 8 raw h in
    elim (Bool-cases (leb 64 (length raw))) [
      | inr e ↦ let short : ltb (length raw) 64 ≡ true = ground (arith, e) in rw (e, short) refl
      | inl e ↦
          let long : ltb (length raw) 64 ≡ false = ground (arith, e) in
          elim (Bool-cases (eq_text (slice 0 8 raw) magic)) [
            | inr m ↦ rw (e, long, m) refl
            | inl m ↦ elim (Bool-cases (uint (slice 12 16 raw) == 0)) [
              | inl c ↦ rw (e, long, m, c) refl
              | inr c ↦ elim (Bool-cases (leb (directory + 32) (length raw))) [
                | inr d ↦
                    let out = truncated raw directory directory_lt small d in
                    rw (e, long, m, c, d, out) refl
                | inl d ↦
                    let fits : directory + 32 ≤ length raw = ground (arith, d) in
                    let sum = add_u64_eq directory 32 (omega (arith, fits, small)) in
                    let tested : (ltb (length raw) directory || ltb (length raw) (directory + 32))
                        ≡ false =
                      ground (arith, fits) in
                    let read = sliced_value directory (directory + 32) raw (omega arith) fits in
                    rw (e, long, m, c, d, sum, tested, read)
                      (read_section-panics raw entry small h
                        (All-slice directory (directory + 32) raw h))
              ]
            ]
          ]
    ]
