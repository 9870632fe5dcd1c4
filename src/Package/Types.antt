-- ===== src/Package/Types.antt =====
-- The parsed input of internal/runtimecataloginput that the compiler reads, and the string pool of
-- internal/mmapcatalogcontract/format.go.
use watchlist_platform.Base.{
  ℕ, ◌%◌, ◌^◌, List, [], ◌∷◌, ◌++◌, length, Option, none, some, if◌then◌else◌,
}
use watchlist_platform.Base.Text.{Text, text, eq_text, utf8}
use watchlist_platform.Package.Bytes.{Bytes}

pub record Record : Type 0 where
  pub record_id : Text
  pub entity_type : Text
  pub primary_name : Text

pub record Name : Type 0 where
  pub record_id : Text
  pub kind : Text
  pub value : Text

pub record Identifier : Type 0 where
  pub record_id : Text
  pub type : Text
  pub value : Text

-- Metadata of internal/runtimecataloginput, by the fields that Compile reads
pub record Metadata : Type 0 where
  pub schema_version : Text
  pub component_id : Text
  pub catalog_id : Text
  pub catalog_version : Text
  pub catalog_checksum : Text
  pub catalog_mode : Text
  pub source_manifest_id : Text
  pub source_schema_version : Text
  pub normalization_profile : Text

pub record Input : Type 0 where
  pub metadata : Metadata
  pub records : List Record
  pub names : List Name
  pub identifiers : List Identifier

-- sha256.Sum256, and hex.EncodeToString of its 32 bytes
pub record Hash : Type 0 where
  pub sha256 : Bytes → Bytes
  pub to_hex : Bytes → Text

pub record StringRef : Type 0 where
  pub offset : ℕ
  pub length : ℕ

pub record StringPool : Type 0 where
  pub bytes : Bytes
  pub refs : List (Text × StringRef)

unfoldable pub ref_of : Text → List (Text × StringRef) → Option StringRef
ref_of value [] = none
ref_of value (entry ∷ refs) =
    let others = ref_of value refs in if eq_text entry.0 value then some entry.1 else others

-- what intern returns, and the pool after it
unfoldable pub intern : Text → StringPool → StringRef × StringPool
unfolding ref_of eq_text utf8
intern value pool = elim (ref_of value pool.refs) [
  | some ref ↦ (ref, pool)
  | none ↦
      let ref : StringRef = record {
        offset = length pool.bytes;
        length = length (utf8 value) % 2 ^ 32;
      } in
      (ref, record { bytes = pool.bytes ++ utf8 value; refs = (value, ref) ∷ pool.refs })
]

unfoldable pub entity_type_code : Text → ℕ
unfolding eq_text
entity_type_code value =
    if eq_text value (text "individual")
    then 1
    else if eq_text value (text "organization")
    then 2
    else if eq_text value (text "government_entity")
    then 3
    else if eq_text value (text "financial_institution")
    then 4
    else if eq_text value (text "vessel")
    then 5
    else if eq_text value (text "aircraft")
    then 6
    else if eq_text value (text "jurisdiction")
    then 7
    else 0
