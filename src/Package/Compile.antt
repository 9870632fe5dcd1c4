-- ===== src/Package/Compile.antt =====
-- Compile of internal/mmapcatalogcontract/format.go, after runtimecataloginput.Parse.
use watchlist_platform.Base.{
  ℕ, ◌+◌, ◌%◌, ◌^◌, Bool, ◌||◌, not, List, [], ◌∷◌, ◌++◌, is_empty, Option, none, some, ltb, ◌==◌,
  if◌then◌else◌,
}
use watchlist_platform.Base.Text.{Text, text, eq_text, lt_text}
use watchlist_platform.Package.Types.{
  Record, Name, Identifier, StringRef, StringPool, intern, entity_type_code,
}
use watchlist_platform.Package.Bytes.{Bytes, put_uint}
use watchlist_platform.Package.Normalize.{normalize_name, normalize_identifier, normalize_type}

-- recordIndex: the index of the last record with the identifier, 0 where there is none
unfoldable pub index_of : Text → List (Text × ℕ) → ℕ
index_of id [] = 0
index_of id (entry ∷ entries) =
    let others = index_of id entries in if eq_text entry.0 id then entry.1 else others

-- PutUint64 of the offset and PutUint32 of the length
unfoldable pub put_ref : StringRef → Bytes
unfolding put_uint
put_ref ref = put_uint 8 ref.offset ++ put_uint 4 ref.length

-- the loop over the records; none is the error on an entity type that is not supported
pub record Indexed : Type 0 where
  pub pool : StringPool
  pub record_index : List (Text × ℕ)
  pub entries : Bytes

unfoldable pub compile_records : ℕ → List Record → Indexed → Option Indexed
unfolding intern entity_type_code put_ref
compile_records index [] s = some s
compile_records index (r ∷ records) s =
    let id = intern r.record_id s.pool in
    let primary = intern r.primary_name id.1 in
    let code = entity_type_code r.entity_type in
    let entry = put_ref id.0 ++ put_ref primary.0 ++ code ∷ 0 ∷ 0 ∷ 0 ∷ 0 ∷ 0 ∷ 0 ∷ 0 ∷ [] in
    let rest = compile_records (index + 1) records (record {
      pool = primary.1;
      record_index = (r.record_id, index % 2 ^ 32) ∷ s.record_index;
      entries = s.entries ++ entry;
    }) in
    if code == 0 then none else rest

pub record NameItem : Type 0 where
  pub normalized : Text
  pub value : Text
  pub record_number : ℕ
  pub kind : ℕ

unfoldable pub name_items : List (Text × ℕ) → List Name → List NameItem
unfolding normalize_name index_of eq_text
name_items index [] = []
name_items index (n ∷ names) =
    let rest = name_items index names in
    let normalized = normalize_name n.value in
    let item : NameItem = record {
      normalized = normalized;
      value = n.value;
      record_number = index_of n.record_id index;
      kind = if eq_text n.kind (text "primary") then 1 else 2;
    } in
    if is_empty normalized then rest else item ∷ rest

unfoldable pub name_precedes : NameItem → NameItem → Bool
unfolding eq_text lt_text
name_precedes a b =
    if not (eq_text a.normalized b.normalized)
    then lt_text a.normalized b.normalized
    else if not (a.record_number == b.record_number)
    then ltb a.record_number b.record_number
    else if not (a.kind == b.kind)
    then ltb a.kind b.kind
    else lt_text a.value b.value

unfoldable pub compile_names : List NameItem → StringPool → Bytes → StringPool × Bytes
unfolding intern put_ref
compile_names [] pool entries = (pool, entries)
compile_names (item ∷ items) pool entries =
    let normalized = intern item.normalized pool in
    let value = intern item.value normalized.1 in
    compile_names items value.1 (
      entries
      ++ put_ref normalized.0
      ++ put_ref value.0
      ++ put_uint 4 item.record_number
      ++ item.kind ∷ 0 ∷ 0 ∷ 0 ∷ [])

pub record IdentifierItem : Type 0 where
  pub typ : Text
  pub normalized : Text
  pub value : Text
  pub record_number : ℕ

unfoldable pub identifier_items : List (Text × ℕ) → List Identifier → List IdentifierItem
unfolding normalize_identifier normalize_type index_of
identifier_items index [] = []
identifier_items index (i ∷ identifiers) =
    let rest = identifier_items index identifiers in
    let normalized = normalize_identifier i.value in
    let typ = normalize_type i.type in
    let item : IdentifierItem = record {
      typ = typ;
      normalized = normalized;
      value = i.value;
      record_number = index_of i.record_id index;
    } in
    if is_empty normalized || is_empty typ then rest else item ∷ rest

unfoldable pub identifier_precedes : IdentifierItem → IdentifierItem → Bool
unfolding eq_text lt_text
identifier_precedes a b =
    if not (eq_text a.typ b.typ)
    then lt_text a.typ b.typ
    else if not (eq_text a.normalized b.normalized)
    then lt_text a.normalized b.normalized
    else if not (a.record_number == b.record_number)
    then ltb a.record_number b.record_number
    else lt_text a.value b.value

unfoldable pub compile_identifiers : List IdentifierItem → StringPool → Bytes → StringPool × Bytes
unfolding intern put_ref
compile_identifiers [] pool entries = (pool, entries)
compile_identifiers (item ∷ items) pool entries =
    let typ = intern item.typ pool in
    let normalized = intern item.normalized typ.1 in
    let value = intern item.value normalized.1 in
    compile_identifiers items value.1 (
      entries
      ++ put_ref typ.0
      ++ put_ref normalized.0
      ++ put_ref value.0
      ++ put_uint 4 item.record_number)
