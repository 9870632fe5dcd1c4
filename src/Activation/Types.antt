-- ===== src/Activation/Types.antt =====
-- The documents of internal/scoringactivation/types.go, with the fields of internal/projectionpackage and
-- internal/candidatescoring that the manager reads, and the files of the state directory.
use watchlist_platform.Base.{
  Bool, true, false, is_empty, List, [], ◌∷◌, Option, none, some, if◌then◌else◌,
}
use mathlib.Core.Path.{◌≡◌}
use watchlist_platform.Base.Int.{ℤ}
use watchlist_platform.Base.Text.{Text, text, eq_text}
use watchlist_platform.Scoring.Types.{Candidate}

pub record CatalogDescriptor : Type 0 where
  pub schema_version : Text
  pub provider : Text
  pub catalog_id : Text
  pub component_id : Text
  pub component_version : Text
  pub catalog_package_path : Text
  pub catalog_package_sha256 : Text
  pub record_count : ℤ
  pub normalization_profile : Text
  pub retrievable_candidate_count : ℤ
  pub retrievable_candidate_ids_sha256 : Text

pub record Manifest : Type 0 where
  pub provider : Text
  pub catalog_id : Text
  pub component_id : Text
  pub component_version : Text
  pub catalog_package_sha256 : Text
  pub source_record_count : ℤ
  pub projection_count : ℤ
  pub projections_sha256 : Text
  pub candidate_ids_sha256 : Text
  pub normalization_profile : Text

pub record Package : Type 0 where
  pub manifest : Manifest
  pub package_sha256 : Text
  pub candidates : List Candidate

-- LoadedPolicy
pub record LoadedPolicy : Type 0 where
  pub policy_id : Text
  pub policy_version : Text
  pub normalization_profile : Text
  pub sha256 : Text

pub record ProjectionBinding : Type 0 where
  pub package_path : Text
  pub package_sha256 : Text
  pub projections_sha256 : Text
  pub projection_count : ℤ
  pub candidate_ids_sha256 : Text

pub record PolicyBinding : Type 0 where
  pub path : Text
  pub policy_id : Text
  pub policy_version : Text
  pub policy_sha256 : Text
  pub normalization_profile : Text

pub record Activation : Type 0 where
  pub schema_version : Text
  pub activation_id : Text
  pub previous_activation_id : Text
  pub catalog : CatalogDescriptor
  pub projection : ProjectionBinding
  pub policy : PolicyBinding

pub record PendingDocument : Type 0 where
  pub schema_version : Text
  pub target_activation_id : Text
  pub previous_activation_id : Text

pub record Snapshot : Type 0 where
  pub activation : Activation
  pub projection_package : Package
  pub policy : LoadedPolicy

pub record ActivateRequest : Type 0 where
  pub activation_id : Text
  pub catalog_descriptor_path : Text
  pub projection_package_path : Text
  pub scoring_policy_path : Text

abbrev pub descriptor_schema : Text
descriptor_schema = text "openwatchlist.catalog-package-descriptor.v1"

abbrev pub activation_schema : Text
activation_schema = text "openwatchlist.scoring-activation.v1"

abbrev pub pending_schema : Text
pending_schema = text "openwatchlist.scoring-activation-pending.v1"

-- What the manager calls: the loaders of packages and policies, of which nothing is assumed; the reading
-- of a descriptor and of the bytes of a catalog; SHA-256 in hexadecimal; the functions of path/filepath;
-- and the JSON encoding of the documents. `state_directory` is the field of the manager.
pub record World : Type 0 where
  pub state_directory : Text
  pub read_descriptor : Text → Option CatalogDescriptor
  pub load_package : Text → Option Package
  pub load_policy : Text → Option LoadedPolicy
  pub read_file : Text → Option Text
  pub sha256_hex : Text → Text
  pub absolute : Text → Option Text
  pub is_absolute : Text → Bool
  pub clean : Text → Text
  pub join : Text → Text → Text
  pub dir : Text → Text
  pub relative : Text → Text → Option Text
  pub marshal : Activation → Text
  pub decode : Text → Option Activation
  pub marshal_pending : PendingDocument → Text
  pub decode_pending : Text → Option PendingDocument

-- Documented behaviour. A document is decoded as it was encoded. filepath.Abs returns an absolute path
-- that is clean, Clean is idempotent, and an absolute path stays absolute in Dir and with a path joined
-- to it. For a state directory that is absolute, as NewManager makes it, Rel of an absolute path is a
-- relative one that is not empty, and joined to the state directory it is lexically equivalent to the
-- path: the two are the same when they are cleaned.
pub record WorldLaws (w : World) : Type 0 where
  pub decode_marshal : (a : Activation) → w.decode (w.marshal a) ≡ some a
  pub decode_marshal_pending :
      (p : PendingDocument) → w.decode_pending (w.marshal_pending p) ≡ some p
  pub absolute_is_absolute :
      (path found : Text) → w.absolute path ≡ some found → w.is_absolute found ≡ true
  pub absolute_clean : (path found : Text) → w.absolute path ≡ some found → w.clean found ≡ found
  pub clean_clean : (path : Text) → w.clean (w.clean path) ≡ w.clean path
  pub join_absolute :
      (path below : Text)
      → w.is_absolute path ≡ true
      → w.is_absolute (w.clean (w.join (w.dir path) below)) ≡ true
  pub relative_not_absolute :
      (path found : Text)
      → w.is_absolute path ≡ true
      → w.relative w.state_directory path ≡ some found
      → (w.is_absolute found ≡ false) × (is_empty found ≡ false)
  pub clean-join-relative :
      (path found : Text)
      → w.is_absolute path ≡ true
      → w.relative w.state_directory path ≡ some found
      → w.clean (w.join w.state_directory found) ≡ w.clean path

-- The files of the state directory, none where a file does not exist.
pub record Files : Type 0 where
  pub activations : Text → Option Text
  pub active : Option Text
  pub pending : Option Text

-- A change of one file. `atomicWrite` renames a file that is complete and synced, so a crash falls
-- before a change or after it.
pub data Effect : Type 0 where
  write_activation : Text → Text → Effect
  write_active write_pending : Text → Effect
  remove_active remove_pending : Effect

unfoldable pub apply : Effect → Files → Files
unfolding eq_text
apply (write_activation id raw) f = record {
  activations = λ key. if eq_text key id then some raw else f.activations key;
  active = f.active;
  pending = f.pending;
}
apply (write_active raw) f = record {
  activations = f.activations;
  active = some raw;
  pending = f.pending;
}
apply (write_pending raw) f = record {
  activations = f.activations;
  active = f.active;
  pending = some raw;
}
apply remove_active f = record { activations = f.activations; active = none; pending = f.pending }
apply remove_pending f = record { activations = f.activations; active = f.active; pending = none }

-- the changes in order
unfoldable pub run : List Effect → Files → Files
unfolding apply
run [] f = f
run (e ∷ effects) f = run effects (apply e f)
