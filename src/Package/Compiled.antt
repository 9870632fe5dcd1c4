-- ===== src/Package/Compiled.antt =====
-- The header and the first directory entry of a package, as the reader finds them.
use watchlist_platform.Base.{
  ℕ, ◌+◌, ◌^◌, ◌≤◌, ◌<◌, ◌≡◌, refl, ap, ◌∙◌, ◌++◌, length, length-append, ltb, true, false, ◌||◌,
  arith,
}
use watchlist_platform.Base.Text.{eq_text, eq_text_refl}
use watchlist_platform.Package.Bytes.{
  Bytes, put_uint, uint, slice, drop, At, At-length, uint-put_uint,
}
use watchlist_platform.Package.Metadata.{follow, decode_metadata_section}
use watchlist_platform.Package.RoundTrip.{sliced-At, At-sum, add_u64_eq}
use watchlist_platform.Package.Reader.{
  magic, profile_field, read_section, read_normalization_profile,
}
use watchlist_platform.Package.Artifact.{header}

header-magic : (n : ℕ) (rest : Bytes) → slice 0 8 (header 5 n ++ rest) ≡ magic
unfolding header put_uint slice drop
header-magic n rest = refl

header-sections : (n : ℕ) (rest : Bytes) → uint (slice 12 16 (header 5 n ++ rest)) ≡ 5
unfolding header put_uint slice drop uint
header-sections n rest = refl

header-directory : (n : ℕ) (rest : Bytes) → uint (slice 24 32 (header 5 n ++ rest)) ≡ 64
unfolding header put_uint slice drop uint
header-directory n rest = refl

pub length-header : (n : ℕ) → length (header 5 n) ≡ 32
unfolding header put_uint
length-header n = refl

-- the first directory entry
unfoldable pub entry_of : ℕ → ℕ → Bytes
unfolding put_uint
entry_of size count =
    put_uint 4 1 ++ (put_uint 4 0 ++ (put_uint 8 224 ++ (put_uint 8 size ++ put_uint 8 count)))

pub length-entry_of : (size count : ℕ) → length (entry_of size count) ≡ 32
unfolding entry_of put_uint
length-entry_of size count = refl

kind_of : (size count : ℕ) → uint (slice 0 4 (entry_of size count)) ≡ 1
unfolding entry_of put_uint slice drop uint
kind_of size count = refl

offset_of : (size count : ℕ) → uint (slice 8 16 (entry_of size count)) ≡ 224
unfolding entry_of put_uint slice drop uint
offset_of size count = refl

size_of : (size count : ℕ) → slice 16 24 (entry_of size count) ≡ put_uint 8 size
unfolding entry_of put_uint slice drop
size_of size count = refl

pub read_section-entry_of :
    (raw contents rest : Bytes) (count : ℕ)
    → length contents < 2 ^ 32
    → At 224 raw (contents ++ rest)
    → read_section raw (entry_of (length contents) count)
      ≡ follow (decode_metadata_section contents) profile_field
unfolding read_section follow
read_section-entry_of raw contents rest count small h =
    let size = length contents in
    let kind : uint (slice 0 4 (entry_of size count)) ≡ 1 = kind_of size count in
    let offset : uint (slice 8 16 (entry_of size count)) ≡ 224 = offset_of size count in
    let read : uint (slice 16 24 (entry_of size count)) ≡ size =
      ap uint (size_of size count) ∙ uint-put_uint 8 size (omega (arith, small)) in
    let total = At-length 224 raw (contents ++ rest) h in
    let tested : (ltb (length raw) 224 || ltb (length raw) (224 + size)) ≡ false =
      ground (arith, total, length-append contents rest) in
    rw
      (
        kind,
        offset,
        read,
        add_u64_eq 224 size (omega (arith, small)),
        tested,
        sliced-At 224 (224 + size) raw contents rest h refl,
      )
      refl

-- the tests of the header, and the first entry of the directory, in a package whose digest has 32 bytes
pub read-header :
    (n size count : ℕ) (sum rest : Bytes)
    → length sum ≡ 32
    → let raw = header 5 n ++ (sum ++ (entry_of size count ++ rest)) in
      read_normalization_profile raw ≡ read_section raw (entry_of size count)
unfolding read_normalization_profile follow At drop
read-header n size count sum rest digest =
    let raw = header 5 n ++ (sum ++ (entry_of size count ++ rest)) in
    let tail = sum ++ (entry_of size count ++ rest) in
    let whole : At 0 raw (header 5 n ++ tail) = (omega arith, refl) in
    let after : At 32 raw tail =
      At-sum 0 32 raw (header 5 n) tail whole (omega (arith, length-header n)) in
    let entry : At 64 raw (entry_of size count ++ rest) =
      At-sum 32 64 raw sum (entry_of size count ++ rest) after (omega (arith, digest)) in
    let end : 96 ≡ 64 + length (entry_of size count) = omega (arith, length-entry_of size count) in
    let total = At-length 64 raw (entry_of size count ++ rest) entry in
    let long : 96 ≤ length raw =
      omega (arith, total, length-append (entry_of size count) rest, end) in
    let sized : ltb (length raw) 64 ≡ false = ground (arith, long) in
    let tested : (ltb (length raw) 64 || ltb (length raw) 96) ≡ false = ground (arith, long) in
    let same : eq_text (slice 0 8 raw) magic ≡ true =
      ap (λ m. eq_text m magic) (header-magic n tail) ∙ eq_text_refl magic in
    rw
      (
        sized,
        same,
        header-sections n tail,
        header-directory n tail,
        add_u64_eq 64 32 (omega arith),
        tested,
        sliced-At 64 96 raw (entry_of size count) rest entry end,
      )
      refl
