-- ===== src/Activation/Validate.antt =====
-- validateActivation, validateTuple and resolveActivationPaths of internal/scoringactivation/manager.go.
use watchlist_platform.Base.{
  ℕ, Bool, false, not, is_empty, if◌then◌else◌, ◌&&◌, ◌||◌, [], ◌∷◌, length, all, Option, none,
  some, leb, ◌==◌,
}
use watchlist_platform.Base.Result.{Result, err, ok, require, ◌>>◌, ◌>>=◌}
use watchlist_platform.Base.Int.{pos, eq_ℤ, le_ℤ}
use watchlist_platform.Base.Text.{Text, eq_text, trim_space}
use watchlist_platform.Activation.Types.{
  CatalogDescriptor, Manifest, Package, LoadedPolicy, ProjectionBinding, PolicyBinding, Activation,
  Snapshot, World, activation_schema, descriptor_schema,
}

-- The errors of the manager. An error that a loader returns is `load_failed`.
pub data Failure : Type 0 where
  invalid_id invalid_document load_failed tuple_mismatch projection_mismatch policy_mismatch :
      Failure
  no_file unreadable different_bytes no_previous pending_schema_unsupported path_failed : Failure
  cas_mismatch not_linked : Failure

abbrev pub alphanumeric : ℕ → Bool
alphanumeric c =
    (leb b'A' c && leb c b'Z') || (leb b'a' c && leb c b'z') || (leb b'0' c && leb c b'9')

-- `^[A-Za-z0-9][A-Za-z0-9._-]{0,127}$`
unfoldable pub valid_id : Text → Bool
valid_id [] = false
valid_id (c ∷ others) =
    alphanumeric c
    && (leb (length others) 127
        && all (λ d. alphanumeric d || d == b'.' || d == b'_' || d == b'-') others)

abbrev pub loaded : {A : Type 0} → Option A → Result Failure A
loaded none = err load_failed
loaded (some a) = ok a

-- the checks and the counts of a manifest against the descriptor, and the profile of the policy
unfoldable pub tuple_matches : CatalogDescriptor → Manifest → LoadedPolicy → Bool
unfolding eq_text
tuple_matches d m policy =
    eq_text d.provider m.provider
    && (eq_text d.catalog_id m.catalog_id
        && (eq_text d.component_id m.component_id
            && (eq_text d.component_version m.component_version
                && (eq_text d.catalog_package_sha256 m.catalog_package_sha256
                    && (eq_text d.normalization_profile m.normalization_profile
                        && (eq_ℤ m.source_record_count d.record_count
                            && (eq_ℤ m.projection_count d.retrievable_candidate_count
                                && (eq_text m.candidate_ids_sha256
                                      d.retrievable_candidate_ids_sha256
                                    && eq_text policy.normalization_profile
                                        d.normalization_profile))))))))

unfoldable pub package_matches : Package → ProjectionBinding → Bool
unfolding eq_text
package_matches pkg b =
    eq_text pkg.package_sha256 b.package_sha256
    && (eq_text pkg.manifest.projections_sha256 b.projections_sha256
        && (eq_ℤ pkg.manifest.projection_count b.projection_count
            && eq_text pkg.manifest.candidate_ids_sha256 b.candidate_ids_sha256))

unfoldable pub policy_matches : LoadedPolicy → PolicyBinding → Bool
unfolding eq_text
policy_matches policy b =
    eq_text policy.sha256 b.policy_sha256
    && (eq_text policy.policy_id b.policy_id
        && (eq_text policy.policy_version b.policy_version
            && eq_text policy.normalization_profile b.normalization_profile))

-- a descriptor whose package is at another path
abbrev pub relocated : CatalogDescriptor → Text → CatalogDescriptor
relocated d path = record {
  schema_version = d.schema_version;
  provider = d.provider;
  catalog_id = d.catalog_id;
  component_id = d.component_id;
  component_version = d.component_version;
  catalog_package_path = path;
  catalog_package_sha256 = d.catalog_package_sha256;
  record_count = d.record_count;
  normalization_profile = d.normalization_profile;
  retrievable_candidate_count = d.retrievable_candidate_count;
  retrievable_candidate_ids_sha256 = d.retrievable_candidate_ids_sha256;
}

-- isSHA256: 64 lowercase hexadecimal characters
abbrev is_hex : ℕ → Bool
is_hex r = (leb b'0' r && leb r b'9') || (leb b'a' r && leb r b'f')

unfoldable pub is_sha256 : Text → Bool
is_sha256 value = length value == 64 && all is_hex value

abbrev is_present : Text → Bool
unfolding trim_space
is_present value = not (is_empty (trim_space value))

-- validateCatalogDescriptor
unfoldable pub valid_catalog_descriptor : CatalogDescriptor → Bool
unfolding eq_text is_sha256 trim_space
valid_catalog_descriptor d =
    is_present d.catalog_package_path
    && (eq_text d.schema_version descriptor_schema
        && (is_present d.provider
            && (is_present d.catalog_id
                && (is_present d.component_id
                    && (is_present d.component_version
                        && (is_present d.normalization_profile
                            && (is_sha256 d.catalog_package_sha256
                                && (is_sha256 d.retrievable_candidate_ids_sha256
                                    && (le_ℤ (pos 0) d.record_count
                                        && (le_ℤ (pos 0) d.retrievable_candidate_count
                                            && le_ℤ d.retrievable_candidate_count
                                                d.record_count))))))))))

module _ (w : World) where
  -- ValidateCatalogPackageFile
  unfoldable pub catalog_file_valid : CatalogDescriptor → Bool
  unfolding eq_text
  catalog_file_valid d = elim (w.read_file d.catalog_package_path) [
    | none ↦ false
    | some raw ↦ eq_text (w.sha256_hex raw) d.catalog_package_sha256
  ]

  -- the catalog path of a descriptor that is read at a path
  unfoldable pub placed : Text → CatalogDescriptor → CatalogDescriptor
  placed path d =
      if not (is_empty d.catalog_package_path) && not (w.is_absolute d.catalog_package_path)
      then relocated d (w.clean (w.join (w.dir path) d.catalog_package_path))
      else d

  -- LoadCatalogDescriptor
  unfoldable pub load_catalog_descriptor : Text → Result Failure CatalogDescriptor
  unfolding placed valid_catalog_descriptor catalog_file_valid
  load_catalog_descriptor path = do
    d ← loaded (w.read_descriptor path)
    _ ← require (valid_catalog_descriptor (placed path d)) load_failed
    _ ← require (catalog_file_valid (placed path d)) load_failed
    ok (placed path d)

  -- resolvePath for the state directory
  unfoldable pub resolve_path : Text → Text
  resolve_path value =
      if is_empty value || w.is_absolute value
      then value
      else w.clean (w.join w.state_directory value)

  unfoldable pub validate_tuple :
      CatalogDescriptor → Package → LoadedPolicy → Result Failure (Unit {0})
  unfolding catalog_file_valid
  validate_tuple d pkg policy =
      require (catalog_file_valid d) load_failed
      >> require (tuple_matches d pkg.manifest policy) tuple_mismatch

  unfoldable pub resolve_activation_paths : Activation → Activation
  unfolding resolve_path
  resolve_activation_paths a = record {
    schema_version = a.schema_version;
    activation_id = a.activation_id;
    previous_activation_id = a.previous_activation_id;
    catalog = relocated a.catalog (resolve_path a.catalog.catalog_package_path);
    projection = record {
      package_path = resolve_path a.projection.package_path;
      package_sha256 = a.projection.package_sha256;
      projections_sha256 = a.projection.projections_sha256;
      projection_count = a.projection.projection_count;
      candidate_ids_sha256 = a.projection.candidate_ids_sha256;
    };
    policy = record {
      path = resolve_path a.policy.path;
      policy_id = a.policy.policy_id;
      policy_version = a.policy.policy_version;
      policy_sha256 = a.policy.policy_sha256;
      normalization_profile = a.policy.normalization_profile;
    };
  }

  -- the checks after the paths are resolved
  unfoldable pub validate_resolved : Activation → Result Failure Snapshot
  validate_resolved a = do
    pkg ← loaded (w.load_package a.projection.package_path)
    policy ← loaded (w.load_policy a.policy.path)
    _ ← validate_tuple a.catalog pkg policy
    _ ← require (package_matches pkg a.projection) projection_mismatch
    _ ← require (policy_matches policy a.policy) policy_mismatch
    ok (record { activation = a; projection_package = pkg; policy = policy })

  unfoldable pub validate_activation : Activation → Result Failure Snapshot
  validate_activation a =
      require (eq_text a.schema_version activation_schema && valid_id a.activation_id)
        invalid_document
      >> validate_resolved (resolve_activation_paths a)
