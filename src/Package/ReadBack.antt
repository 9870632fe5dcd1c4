-- ===== src/Package/ReadBack.antt =====
-- The reader finds the profile that the compiler wrote.
use watchlist_platform.Base.{
  ℕ, ◌+◌, ◌^◌, ◌<◌, ◌≡◌, refl, ap, subst, ◌∙◌, [], ◌∷◌, ◌++◌, length, Option, none, some, arith,
}
use watchlist_platform.Base.Text.{Text, utf8}
use watchlist_platform.Package.Bytes.{Bytes, put_uint, drop, At}
use watchlist_platform.Package.Metadata.{
  encode_metadata, value, follow, add_u64, decode_metadata_section,
}
use watchlist_platform.Package.RoundTrip.{At-sum, decode-encode}
use watchlist_platform.Package.Reader.{value_at, profile_field, read_normalization_profile}
use watchlist_platform.Package.Compiled.{
  length-header, entry_of, length-entry_of, read_section-entry_of, read-header,
}
use watchlist_platform.Package.Types.{Metadata, Input, Hash}
use watchlist_platform.Package.Compile.{Indexed, compile_records}
use watchlist_platform.Package.Artifact.{
  Section, PackageInfo, metadata_values, directory, contents_of, payload_of, header, package_of,
  empty_pool, sections_of, info_of, returned, compile,
}

module _ (h : Hash) (digest : (bytes : Bytes) → length (h.sha256 bytes) ≡ 32) where
  -- the directory after the first entry, and the contents of the sections
  payload_of-entry :
      (contents : Bytes) (count : ℕ) (b c d e : Section)
      → let sections =
          record { kind = 1; entry_size = 0; contents = contents; count = count }
          ∷ b
          ∷ c
          ∷ d
          ∷ e
          ∷ [] in
        let others = directory (add_u64 224 (length contents)) (b ∷ c ∷ d ∷ e ∷ []) in
        payload_of sections
        ≡ entry_of (length contents) count
          ++ (others ++ (contents ++ contents_of (b ∷ c ∷ d ∷ e ∷ [])))
  unfolding payload_of directory contents_of put_uint entry_of
  payload_of-entry contents count b c d e = refl

  length-directory :
      (offset : ℕ) (b c d e : Section) → length (directory offset (b ∷ c ∷ d ∷ e ∷ [])) ≡ 128
  unfolding directory put_uint
  length-directory offset b c d e = refl

  read-package :
      (contents : Bytes) (count : ℕ) (b c d e : Section)
      → length contents < 2 ^ 32
      → read_normalization_profile (
          package_of h (
            record { kind = 1; entry_size = 0; contents = contents; count = count }
            ∷ b
            ∷ c
            ∷ d
            ∷ e
            ∷ []))
        ≡ follow (decode_metadata_section contents) profile_field
  unfolding package_of At drop
  read-package contents count b c d e small =
      let first : Section = record {
        kind = 1;
        entry_size = 0;
        contents = contents;
        count = count;
      } in
      let sections = first ∷ b ∷ c ∷ d ∷ e ∷ [] in
      let payload = payload_of sections in
      let n = 64 + length payload in
      let others = directory (add_u64 224 (length contents)) (b ∷ c ∷ d ∷ e ∷ []) in
      let tail = contents ++ contents_of (b ∷ c ∷ d ∷ e ∷ []) in
      let sum = h.sha256 payload in
      let entry = entry_of (length contents) count in
      let raw = header 5 n ++ (sum ++ (entry ++ (others ++ tail))) in
      let whole : At 0 raw (header 5 n ++ (sum ++ (entry ++ (others ++ tail)))) =
        (omega arith, refl) in
      let at32 =
        At-sum 0 32 raw (header 5 n) (sum ++ (entry ++ (others ++ tail))) whole
          (omega (arith, length-header n)) in
      let at64 =
        At-sum 32 64 raw sum (entry ++ (others ++ tail)) at32 (omega (arith, digest payload)) in
      let at96 =
        At-sum 64 96 raw entry (others ++ tail) at64
          (omega (arith, length-entry_of (length contents) count)) in
      let at224 =
        At-sum 96 224 raw others tail at96
          (omega (arith, length-directory (add_u64 224 (length contents)) b c d e)) in
      ap (λ p. read_normalization_profile (header 5 n ++ (sum ++ p)))
        (payload_of-entry contents count b c d e)
      ∙ read-header n (length contents) count sum (others ++ tail) (digest payload)
      ∙ read_section-entry_of raw contents (contents_of (b ∷ c ∷ d ∷ e ∷ [])) count small at224

  profile_values :
      (m : Metadata) (input_sha256 : Text)
      → profile_field (metadata_values m input_sha256) ≡ value (utf8 m.normalization_profile)
  unfolding profile_field value_at metadata_values
  profile_values m input_sha256 = refl

  -- what a call that returns a package has read
  compiled :
      (input_bytes : Bytes) (input : Input) (found : Option Indexed) {artifact : Bytes}
      {info : PackageInfo}
      → returned h input_bytes input found ≡ some (artifact, info)
      → (s : Indexed) × ((package_of h (sections_of h input_bytes input s) ≡ artifact)
          × (info_of h input_bytes input s ≡ info))
  unfolding returned
  compiled input_bytes input none h0 = cc
  compiled input_bytes input (some s) h0 = (s, (cc, cc))

  read-sections_of :
      (input_bytes : Bytes) (input : Input) (s : Indexed)
      → length (encode_metadata (metadata_values input.metadata (h.to_hex (h.sha256 input_bytes))))
        < 2 ^ 32
      → read_normalization_profile (package_of h (sections_of h input_bytes input s))
        ≡ value (utf8 input.metadata.normalization_profile)
  unfolding sections_of follow
  read-sections_of input_bytes input s small =
      let values = metadata_values input.metadata (h.to_hex (h.sha256 input_bytes)) in
      read-package (encode_metadata values) (length values) _ _ _ _ small
      ∙ ap (λ o. follow o profile_field) (decode-encode values small)
      ∙ profile_values input.metadata (h.to_hex (h.sha256 input_bytes))

  -- A package that Compile returns holds the normalization profile of its input: reading it back from
  -- the bytes gives the profile that Compile reports, if the digest of the payload has 32 bytes and
  -- the metadata section is shorter than 4 GiB.
  pub compile-profile :
      (input_bytes : Bytes) (input : Input) (artifact : Bytes) (info : PackageInfo)
      → length (encode_metadata (metadata_values input.metadata (h.to_hex (h.sha256 input_bytes))))
        < 2 ^ 32
      → compile h input_bytes input ≡ some (artifact, info)
      → read_normalization_profile artifact ≡ value (utf8 info.normalization_profile)
  unfolding compile info_of
  compile-profile input_bytes input artifact info small h0 =
      let start : Indexed = record { pool = empty_pool; record_index = []; entries = [] } in
      let (s, (a, i)) = compiled input_bytes input (compile_records 0 input.records start) h0 in
      subst (λ z. read_normalization_profile z ≡ value (utf8 info.normalization_profile)) a
        (subst
          (λ z.
            read_normalization_profile (package_of h (sections_of h input_bytes input s))
            ≡ value (utf8 z.normalization_profile))
          i (read-sections_of input_bytes input s small))
