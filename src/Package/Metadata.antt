-- ===== src/Package/Metadata.antt =====
-- encodeMetadata of internal/mmapcatalogcontract/format.go and decodeMetadataSection of decode.go. A
-- string is its bytes. `uint32` wraps at 2 ^ 32.
use watchlist_platform.Base.{
  ℕ, zero, suc, ◌+◌, ◌%◌, ◌^◌, List, [], ◌∷◌, ◌++◌, length, ltb, if◌then◌else◌,
}
use watchlist_platform.Package.Bytes.{Bytes, put_uint, uint, slice}

-- the values as they are written, each after its length
unfoldable pub encode_values : List Bytes → Bytes
unfolding put_uint
encode_values [] = []
encode_values (value ∷ values) =
    put_uint 4 (length value % 2 ^ 32) ++ (value ++ encode_values values)

unfoldable pub encode_metadata : List Bytes → Bytes
unfolding put_uint encode_values
encode_metadata values = put_uint 4 (length values % 2 ^ 32) ++ encode_values values

-- What a call ends with: a value, an error that wraps ErrInvalidPackage (the messages are left out),
-- or a panic, where a slice expression is out of range.
pub data Outcome (A : Type 0) : Type 0 where
  value : A → Outcome A
  invalid_package : Outcome A
  panics : Outcome A

unfoldable pub follow : {A B : Type 0} → Outcome A → (A → Outcome B) → Outcome B
follow (value a) rest = rest a
follow invalid_package rest = invalid_package
follow panics rest = panics

-- `data[low:high]`. Every call is behind a test that keeps the sum it takes `high` from within the length,
-- so the capacity of the slice plays no role.
unfoldable pub sliced : ℕ → ℕ → Bytes → Outcome Bytes
unfolding slice
sliced low high section =
    if ltb high low
    then panics
    else if ltb (length section) high
    then panics
    else value (slice low high section)

-- `a + b` on uint32 and on uint64
unfoldable pub add_u32 : ℕ → ℕ → ℕ
add_u32 a b = (a + b) % 2 ^ 32

unfoldable pub add_u64 : ℕ → ℕ → ℕ
add_u64 a b = (a + b) % 2 ^ 64

-- the loop over the entries: how many are left, the offset, and the values so far
unfoldable pub decode_values : ℕ → ℕ → List Bytes → Bytes → Outcome (List Bytes)
decode_values zero offset values section = value values
decode_values (suc count) offset values section =
    if ltb (length section) (add_u64 offset 4)
    then invalid_package
    else follow (sliced offset (add_u32 offset 4) section) (λ head.
      let start = add_u32 offset 4 in
      let size = uint head in
      if ltb (length section) (add_u64 start size)
      then invalid_package
      else follow (sliced start (add_u32 start size) section)
          (λ v. decode_values count (add_u32 start size) (values ++ v ∷ []) section))

-- `data[0:4]` is in range after the test.
unfoldable pub decode_metadata_section : Bytes → Outcome (List Bytes)
decode_metadata_section section =
    let values = decode_values (uint (slice 0 4 section)) 4 [] section in
    if ltb (length section) 4 then invalid_package else values
