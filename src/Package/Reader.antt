-- ===== src/Package/Reader.antt =====
-- ReadNormalizationProfile of internal/mmapcatalogcontract/decode.go, and the layout of the package
-- header that it reads.
use watchlist_platform.Base.{
  ℕ, zero, suc, List, [], ◌∷◌, length, ltb, ◌==◌, not, ◌||◌, if◌then◌else◌,
}
use watchlist_platform.Base.Text.{text, eq_text}
use watchlist_platform.Package.Bytes.{Bytes, uint, slice}
use watchlist_platform.Package.Metadata.{
  Outcome, value, invalid_package, panics, follow, sliced, add_u64, decode_metadata_section,
}

abbrev pub magic : Bytes
magic = text "OWMMAP01"

abbrev pub section_metadata : ℕ
section_metadata = 1

-- `values[index]`, which panics out of range
unfoldable pub value_at : ℕ → List Bytes → Outcome Bytes
value_at index [] = panics
value_at zero (v ∷ values) = value v
value_at (suc index) (v ∷ values) = value_at index values

unfoldable pub profile_field : List Bytes → Outcome Bytes
unfolding value_at
profile_field values =
    let field = value_at 10 values in if length values == 12 then field else invalid_package

-- the part after the directory entry is read
unfoldable pub read_section : Bytes → Bytes → Outcome Bytes
read_section raw entry =
    let kind = uint (slice 0 4 entry) in
    let section_offset = uint (slice 8 16 entry) in
    let section_length = uint (slice 16 24 entry) in
    let section_end = add_u64 section_offset section_length in
    let section = sliced section_offset section_end raw in
    if not (kind == section_metadata)
    then invalid_package
    else if ltb (length raw) section_offset || ltb (length raw) section_end
    then invalid_package
    else follow section (λ bytes. follow (decode_metadata_section bytes) profile_field)

-- The slices of the header are in range after the test of its size.
unfoldable pub read_normalization_profile : Bytes → Outcome Bytes
read_normalization_profile raw =
    let section_count = uint (slice 12 16 raw) in
    let directory_offset = uint (slice 24 32 raw) in
    let entry_end = add_u64 directory_offset 32 in
    let entry = sliced directory_offset entry_end raw in
    if ltb (length raw) 64
    then invalid_package
    else if not (eq_text (slice 0 8 raw) magic)
    then invalid_package
    else if section_count == 0
    then invalid_package
    else if ltb (length raw) directory_offset || ltb (length raw) entry_end
    then invalid_package
    else follow entry (read_section raw)
