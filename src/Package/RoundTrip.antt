-- ===== src/Package/RoundTrip.antt =====
-- The metadata section is read back as it was written.
use mathlib.Core.List.{append_assoc, append-nil}
use watchlist_platform.Base.{
  ℕ, suc, ◌+◌, ◌*◌, ◌%◌, ◌^◌, ◌≤◌, ◌<◌, ◌≡◌, refl, sym, ap, subst, ◌∙◌, List, [], ◌∷◌, ◌++◌, length,
  length-append, ltb, false, arith,
}
use watchlist_platform.Package.Bytes.{
  Bytes, put_uint, uint, slice, drop, At, At-length, At-next, length-put_uint, uint-put_uint,
}
use watchlist_platform.Package.Metadata.{
  encode_values, encode_metadata, value, follow, sliced, add_u32, add_u64, decode_values,
  decode_metadata_section,
}

-- The step of a slice that the bytes allow.
pub sliced-At :
    (offset high : ℕ) (bytes xs ys : Bytes)
    → At offset bytes (xs ++ ys)
    → high ≡ offset + length xs
    → sliced offset high bytes ≡ value xs
unfolding sliced
sliced-At offset high bytes xs ys h e =
    let total = At-length offset bytes (xs ++ ys) h in
    let ordered : ltb high offset ≡ false = ground (arith, e) in
    let inside : ltb (length bytes) high ≡ false = ground (arith, e, total, length-append xs ys) in
    rw (ordered, inside)
      (ap (λ k. value (slice offset k bytes)) e ∙ ap value (At-next offset bytes xs ys h).0)

pub At-sum :
    (offset high : ℕ) (bytes xs ys : Bytes)
    → At offset bytes (xs ++ ys)
    → high ≡ offset + length xs
    → At high bytes ys
At-sum offset high bytes xs ys h e =
    subst (λ k. At k bytes ys) (sym e) (At-next offset bytes xs ys h).1

pub add_u32_eq : (a b : ℕ) → a + b < 2 ^ 32 → add_u32 a b ≡ a + b
unfolding add_u32
add_u32_eq a b h = omega (arith, h)

pub add_u64_eq : (a b : ℕ) → a + b < 2 ^ 64 → add_u64 a b ≡ a + b
unfolding add_u64
add_u64_eq a b h = omega (arith, h)

size_field : ℕ → Bytes
unfolding put_uint
size_field n = put_uint 4 (n % 2 ^ 32)

uint-size_field : (n : ℕ) → n < 2 ^ 32 → uint (size_field n) ≡ n
unfolding size_field
uint-size_field n h = uint-put_uint 4 (n % 2 ^ 32) (omega arith) ∙ omega (arith, h)

length-size_field : (n : ℕ) → length (size_field n) ≡ 4
unfolding size_field
length-size_field n = length-put_uint 4 (n % 2 ^ 32)

-- one round of the loop, where the entry that is written next is `v`
decode_entry :
    (count offset : ℕ) (values : List Bytes) (bytes v rest : Bytes)
    → length bytes < 2 ^ 32
    → At offset bytes (size_field (length v) ++ (v ++ rest))
    → decode_values (suc count) offset values bytes
      ≡ decode_values count (offset + 4 + length v) (values ++ v ∷ []) bytes
unfolding decode_values follow
decode_entry count offset values bytes v rest small h =
    let total = At-length offset bytes (size_field (length v) ++ (v ++ rest)) h in
    let sizes : length bytes ≡ offset + (4 + (length v + length rest)) = omega (
      arith,
      total,
      length-append (size_field (length v)) (v ++ rest),
      length-append v rest,
      length-size_field (length v),
    ) in
    let start : offset + 4 ≡ offset + length (size_field (length v)) =
      omega (arith, length-size_field (length v)) in
    let after = At-sum offset (offset + 4) bytes (size_field (length v)) (v ++ rest) h start in
    let head = sliced-At offset (offset + 4) bytes (size_field (length v)) (v ++ rest) h start in
    let body = sliced-At (offset + 4) (offset + 4 + length v) bytes v rest after refl in
    let fits : ltb (length bytes) (offset + 4) ≡ false = ground (arith, sizes) in
    let fits' : ltb (length bytes) (offset + 4 + length v) ≡ false = ground (arith, sizes) in
    let size = uint-size_field (length v) (omega (arith, small, sizes)) in
    rw
      (
        add_u32_eq offset 4 (omega (arith, small, sizes)),
        add_u64_eq offset 4 (omega (arith, small, sizes)),
        fits,
        head,
        size,
        add_u32_eq (offset + 4) (length v) (omega (arith, small, sizes)),
        add_u64_eq (offset + 4) (length v) (omega (arith, small, sizes)),
        fits',
        body,
      )
      refl

decode_encoded :
    (values : List Bytes) (offset : ℕ) (before : List Bytes) (bytes : Bytes)
    → length bytes < 2 ^ 32
    → At offset bytes (encode_values values)
    → decode_values (length values) offset before bytes ≡ value (before ++ values)
unfolding encode_values decode_values size_field
decode_encoded [] offset before bytes small h = ap value (sym (append-nil before))
decode_encoded (v ∷ values) offset before bytes small h =
    let fields = size_field (length v) in
    let start : offset + 4 ≡ offset + length fields = omega (arith, length-size_field (length v)) in
    let tail =
      At-sum (offset + 4) (offset + 4 + length v) bytes v (encode_values values)
        (At-sum offset (offset + 4) bytes fields (v ++ encode_values values) h start) refl in
    decode_entry (length values) offset before bytes v (encode_values values) small h
    ∙ decode_encoded values (offset + 4 + length v) (before ++ v ∷ []) bytes small tail
    ∙ ap value (append_assoc before (v ∷ []) values)

count_le : (values : List Bytes) → 4 * length values ≤ length (encode_values values)
unfolding encode_values size_field
count_le [] = omega arith
count_le (v ∷ values) = omega (
  arith,
  count_le values,
  length-append (size_field (length v)) (v ++ encode_values values),
  length-append v (encode_values values),
  length-size_field (length v),
)

-- A metadata section that encodeMetadata has written is decoded into the values that were written,
-- in their order, if it is shorter than 4 GiB.
pub decode-encode :
    (values : List Bytes)
    → length (encode_metadata values) < 2 ^ 32
    → decode_metadata_section (encode_metadata values) ≡ value values
unfolding decode_metadata_section encode_metadata size_field At drop
decode-encode values small =
    let bytes = encode_metadata values in
    let count = size_field (length values) in
    let total = length-append count (encode_values values) in
    let four = length-size_field (length values) in
    let whole : At 0 bytes (count ++ encode_values values) = (omega arith, refl) in
    let first = (At-next 0 bytes count (encode_values values) whole).0 in
    let after = At-sum 0 4 bytes count (encode_values values) whole (omega (arith, four)) in
    let fits : ltb (length bytes) 4 ≡ false = ground (arith, total, four) in
    let read : uint (slice 0 4 bytes) ≡ length values =
      ap (λ k. uint (slice 0 k bytes)) (omega (arith, four))
      ∙ ap uint first
      ∙ uint-size_field (length values) (omega (arith, count_le values, small, total)) in
    rw (fits, read) (decode_encoded values 4 [] bytes small after)
