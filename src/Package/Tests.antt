-- ===== src/Package/Tests.antt =====
-- Tests and examples of internal/mmapcatalogcontract.
use watchlist_platform.Base.{
  ℕ, zero, suc, ◌+◌, ◌-◌, ◌^◌, ◌<◌, ◌≡◌, refl, true, ◌&&◌, List, [], ◌∷◌, ◌++◌, length, all, ltb,
  All, Option, none, some, arith,
}
use watchlist_platform.Base.Text.{text, utf8, eq_text}
use watchlist_platform.Package.Bytes.{Bytes, put_uint, uint, slice, drop}
use watchlist_platform.Package.Metadata.{
  encode_metadata, value, panics, follow, sliced, add_u64, decode_metadata_section,
}
use watchlist_platform.Package.Reader.{magic, read_section, read_normalization_profile}
use watchlist_platform.Package.RoundTrip.{decode-encode}
use watchlist_platform.Package.Panics.{IsByte, is_panic}
use watchlist_platform.Package.Wrap.{
  section_wraps, header_passes, read_normalization_profile-panics,
}
use watchlist_platform.Package.Types.{Input, Hash}
use watchlist_platform.Package.Compile.{compile_records}
use watchlist_platform.Package.Artifact.{metadata_values, PackageInfo, compile}
use watchlist_platform.Package.ReadBack.{compile-profile}

abbrev names : List Bytes
names = text "acme" ∷ [] ∷ text "llc" ∷ []

length-names : length (encode_metadata names) ≡ 23
unfolding encode_metadata
length-names = refl

decode-encode_example : decode_metadata_section (encode_metadata names) ≡ value names
decode-encode_example = decode-encode names (omega (arith, length-names))

abbrev zeros : ℕ → Bytes
zeros zero = []
zeros (suc n) = 0 ∷ zeros n

-- a header with one section, whose metadata starts at 1 and claims 2 ^ 64 - 1 bytes
abbrev crafted : Bytes
unfolding put_uint
crafted =
    magic
    ++ put_uint 4 1
    ++ put_uint 4 1
    ++ put_uint 8 96
    ++ put_uint 8 64
    ++ zeros 32
    ++ put_uint 4 1
    ++ put_uint 4 0
    ++ put_uint 8 1
    ++ put_uint 8 (2 ^ 64 - 1)
    ++ put_uint 8 0

all-IsByte : (bytes : Bytes) → all (λ b. ltb b 256) bytes ≡ true → All IsByte bytes
all-IsByte [] h = tt
all-IsByte (b ∷ bytes) h = (ground (arith, h), all-IsByte bytes (ground (arith, h)))

length-crafted : length crafted ≡ 96
unfolding crafted put_uint
length-crafted = refl

crafted_bytes : all (λ b. ltb b 256) crafted ≡ true
unfolding crafted put_uint
crafted_bytes = refl

crafted_panics : read_normalization_profile crafted ≡ panics
unfolding read_normalization_profile read_section crafted put_uint slice drop uint follow sliced
    add_u64 eq_text
crafted_panics = refl

read_normalization_profile-panics_example : is_panic (read_normalization_profile crafted) ≡ (
    header_passes crafted
    && section_wraps crafted
        (slice (uint (slice 24 32 crafted)) (uint (slice 24 32 crafted) + 32) crafted))
read_normalization_profile-panics_example =
    read_normalization_profile-panics crafted (omega (arith, length-crafted))
      (all-IsByte crafted crafted_bytes)

abbrev example_hash : Hash
example_hash = record { sha256 = λ b. zeros 32; to_hex = λ b. text "00" }

abbrev example_input : Input
example_input = record {
  metadata = record {
    schema_version = text "runtime-catalog-input/v1alpha1";
    component_id = text "catalog_component_1";
    catalog_id = text "ofac";
    catalog_version = text "1";
    catalog_checksum = text "00";
    catalog_mode = text "official_list";
    source_manifest_id = text "m";
    source_schema_version = text "s";
    normalization_profile = text "ascii-v1";
  };
  records =
      record { record_id = text "r1"; entity_type = text "vessel"; primary_name = text "Sea Star" }
      ∷ [];
  names = record { record_id = text "r1"; kind = text "primary"; value = text "Sea Star" } ∷ [];
  identifiers = record { record_id = text "r1"; type = text "IMO"; value = text "imo 12" } ∷ [];
}

zeros_32 : (bytes : Bytes) → length (example_hash.sha256 bytes) ≡ 32
zeros_32 bytes = refl

abbrev nothing : Bytes × PackageInfo
nothing = (
  [],
  record {
    schema_version = [];
    compiler_version = [];
    format_version = 0;
    component_id = [];
    catalog_id = [];
    catalog_version = [];
    catalog_checksum = [];
    catalog_mode = [];
    source_manifest_id = [];
    source_schema_version = [];
    normalization_profile = [];
    input_sha256 = [];
    payload_sha256 = [];
    package_sha256 = [];
    package_length = 0;
    record_count = 0;
    name_count = 0;
    identifier_count = 0;
  },
)

abbrev get : Option (Bytes × PackageInfo) → Bytes × PackageInfo
get none = nothing
get (some pair) = pair

compiled_example :
    compile example_hash [] example_input
    ≡ some (
      (get (compile example_hash [] example_input)).0,
      (get (compile example_hash [] example_input)).1,
    )
unfolding compile compile_records
compiled_example = refl

metadata_fits :
    ltb (length (encode_metadata (metadata_values example_input.metadata (text "00")))) (2 ^ 32)
    ≡ true
unfolding encode_metadata metadata_values utf8
metadata_fits = refl

metadata_below :
    length (encode_metadata (metadata_values example_input.metadata (text "00"))) < 2 ^ 32
metadata_below = ground (arith, metadata_fits)

compile-profile_example :
    read_normalization_profile (get (compile example_hash [] example_input)).0
    ≡ value (utf8 (get (compile example_hash [] example_input)).1.normalization_profile)
compile-profile_example =
    compile-profile example_hash zeros_32 [] example_input
      (get (compile example_hash [] example_input)).0
      (get (compile example_hash [] example_input)).1 metadata_below compiled_example
