-- ===== src/Package/Artifact.antt =====
-- The sections, the directory and the header that Compile of internal/mmapcatalogcontract/format.go
-- puts together.
use watchlist_platform.Base.{ℕ, ◌+◌, ◌*◌, List, [], ◌∷◌, ◌++◌, map, length, Option, none, some}
use watchlist_platform.Base.Sort.{sort}
use watchlist_platform.Base.Text.{Text, text, utf8}
use watchlist_platform.Package.Bytes.{Bytes, put_uint}
use watchlist_platform.Package.Metadata.{encode_metadata, add_u64}
use watchlist_platform.Package.Reader.{magic}
use watchlist_platform.Package.Types.{Metadata, Input, Hash, StringPool}
use watchlist_platform.Package.Compile.{
  Indexed, compile_records, name_items, name_precedes, compile_names, identifier_items,
  identifier_precedes, compile_identifiers,
}

pub record Section : Type 0 where
  pub kind : ℕ
  pub entry_size : ℕ
  pub contents : Bytes
  pub count : ℕ

pub record PackageInfo : Type 0 where
  pub schema_version : Text
  pub compiler_version : Text
  pub format_version : ℕ
  pub component_id : Text
  pub catalog_id : Text
  pub catalog_version : Text
  pub catalog_checksum : Text
  pub catalog_mode : Text
  pub source_manifest_id : Text
  pub source_schema_version : Text
  pub normalization_profile : Text
  pub input_sha256 : Text
  pub payload_sha256 : Text
  pub package_sha256 : Text
  pub package_length : ℕ
  pub record_count : ℕ
  pub name_count : ℕ
  pub identifier_count : ℕ

abbrev pub package_schema_version : Text
package_schema_version = text "memory-mapped-catalog/v1alpha1"

abbrev pub compiler_version : Text
compiler_version = text "catalog-mmap-compiler/v0.1.0"

-- metadataValues, as bytes
unfoldable pub metadata_values : Metadata → Text → List Bytes
metadata_values m input_sha256 = map utf8 (
    package_schema_version ∷ compiler_version ∷ m.schema_version ∷ m.component_id ∷ m.catalog_id
    ∷ m.catalog_version ∷ m.catalog_checksum ∷ m.catalog_mode ∷ m.source_manifest_id
    ∷ m.source_schema_version ∷ m.normalization_profile ∷ input_sha256 ∷ [])

-- the loop that writes the directory, from the offset of the first section
unfoldable pub directory : ℕ → List Section → Bytes
directory offset [] = []
directory offset (s ∷ sections) =
    put_uint 4 s.kind
    ++ (put_uint 4 s.entry_size
        ++ (put_uint 8 offset
            ++ (put_uint 8 (length s.contents)
                ++ (put_uint 8 s.count
                    ++ directory (add_u64 offset (length s.contents)) sections))))

unfoldable pub contents_of : List Section → Bytes
contents_of [] = []
contents_of (s ∷ sections) = s.contents ++ contents_of sections

unfoldable pub payload_of : List Section → Bytes
payload_of sections = directory (64 + 32 * length sections) sections ++ contents_of sections

-- the header without the payload digest, which fills it up to 64 bytes
unfoldable pub header : ℕ → ℕ → Bytes
header section_count package_length =
    magic
    ++ (put_uint 4 1 ++ (put_uint 4 section_count ++ (put_uint 8 package_length ++ put_uint 8 64)))

unfoldable pub package_of : Hash → List Section → Bytes
package_of h sections =
    header (length sections) (64 + length (payload_of sections))
    ++ (h.sha256 (payload_of sections) ++ payload_of sections)

abbrev pub empty_pool : StringPool
empty_pool = record { bytes = []; refs = [] }

unfoldable pub sections_of : Hash → Bytes → Input → Indexed → List Section
sections_of h input_bytes input s =
    let names = sort name_precedes (name_items s.record_index input.names) in
    let identifiers =
      sort identifier_precedes (identifier_items s.record_index input.identifiers) in
    let named = compile_names names s.pool [] in
    let identified = compile_identifiers identifiers named.0 [] in
    let values = metadata_values input.metadata (h.to_hex (h.sha256 input_bytes)) in
    record { kind = 1; entry_size = 0; contents = encode_metadata values; count = length values }
    ∷ record {
      kind = 2;
      entry_size = 0;
      contents = identified.0.bytes;
      count = length identified.0.refs;
    }
    ∷ record { kind = 3; entry_size = 32; contents = s.entries; count = length input.records }
    ∷ record { kind = 4; entry_size = 32; contents = named.1; count = length names }
    ∷ record { kind = 5; entry_size = 40; contents = identified.1; count = length identifiers }
    ∷ []

unfoldable pub info_of : Hash → Bytes → Input → Indexed → PackageInfo
info_of h input_bytes input s =
    let sections = sections_of h input_bytes input s in
    record {
      schema_version = package_schema_version;
      compiler_version = compiler_version;
      format_version = 1;
      component_id = input.metadata.component_id;
      catalog_id = input.metadata.catalog_id;
      catalog_version = input.metadata.catalog_version;
      catalog_checksum = input.metadata.catalog_checksum;
      catalog_mode = input.metadata.catalog_mode;
      source_manifest_id = input.metadata.source_manifest_id;
      source_schema_version = input.metadata.source_schema_version;
      normalization_profile = input.metadata.normalization_profile;
      input_sha256 = h.to_hex (h.sha256 input_bytes);
      payload_sha256 = h.to_hex (h.sha256 (payload_of sections));
      package_sha256 = h.to_hex (h.sha256 (package_of h sections));
      package_length = length (package_of h sections);
      record_count = length input.records;
      name_count = length (name_items s.record_index input.names);
      identifier_count = length (identifier_items s.record_index input.identifiers);
    }

-- what Compile returns after the loop over the records; none is the error on an entity type
unfoldable pub returned : Hash → Bytes → Input → Option Indexed → Option (Bytes × PackageInfo)
returned h input_bytes input none = none
returned h input_bytes input (some s) =
    some (package_of h (sections_of h input_bytes input s), info_of h input_bytes input s)

-- Compile, for the parsed input
unfoldable pub compile : Hash → Bytes → Input → Option (Bytes × PackageInfo)
unfolding returned
compile h input_bytes input = returned h input_bytes input (
    compile_records 0 input.records (record { pool = empty_pool; record_index = []; entries = [] }))
