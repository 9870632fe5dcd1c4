-- ===== src/Activation/Manager.antt =====
-- Activate, Rollback, Recover, LoadActive and LookupActiveCandidate of
-- internal/scoringactivation/manager.go. An operation returns the changes that it makes to the files, in
-- order; a crash, or an input/output error that the operation returns, leaves the first of them made.
use watchlist_platform.Base.{
  Bool, true, false, ◌&&◌, ◌||◌, not, List, [], ◌∷◌, ◌++◌, is_empty, Option, none, some,
  if◌then◌else◌,
}
use watchlist_platform.Base.Result.{Result, err, ok, require, ◌>>◌, ◌>>=◌}
use watchlist_platform.Base.Text.{Text, eq_text, trim_space}
use watchlist_platform.Scoring.Types.{Candidate}
use watchlist_platform.Activation.Types.{
  CatalogDescriptor, Package, LoadedPolicy, Activation, PendingDocument, Snapshot, ActivateRequest,
  World, Files, Effect, write_activation, write_active, write_pending, remove_active,
  remove_pending, activation_schema, pending_schema,
}
use watchlist_platform.Activation.Validate.{
  Failure, invalid_id, no_file, unreadable, different_bytes, no_previous,
  pending_schema_unsupported, path_failed, cas_mismatch, not_linked, valid_id, loaded, relocated,
  load_catalog_descriptor, validate_tuple, validate_activation,
}

pub record Plan : Type 0 where
  pub effects : List Effect
  pub snapshot : Snapshot

pub data Recovered : Type 0 where
  clean completed rolled_back : Recovered

pub record Recovery : Type 0 where
  pub effects : List Effect
  pub status : Recovered

-- what Activate loads
pub record Tuple : Type 0 where
  pub descriptor : CatalogDescriptor
  pub pkg : Package
  pub policy : LoadedPolicy

abbrev pub pending_for : Text → Text → PendingDocument
pending_for target previous = record {
  schema_version = pending_schema;
  target_activation_id = target;
  previous_activation_id = previous;
}

module _ (w : World) where
  abbrev pub decoded : Option Activation → Result Failure Activation
  decoded none = err unreadable
  decoded (some a) = ok a

  -- decodeStrictFile
  unfoldable pub load_document : Option Text → Result Failure Activation
  load_document none = err no_file
  load_document (some raw) = decoded (w.decode raw)

  -- the identifier of the active document, empty if there is no such file
  unfoldable pub previous_id : Option Text → Result Failure Text
  unfolding load_document
  previous_id none = ok []
  previous_id (some raw) = do current ← load_document (some raw); ok current.activation_id

  abbrev pub relative_path : Text → Result Failure Text
  relative_path path = elim (w.relative w.state_directory path) [
    | none ↦ err path_failed
    | some r ↦ ok r
  ]

  -- relativeToStateDirectory
  unfoldable pub relative_to_state_directory : Text → Result Failure Text
  relative_to_state_directory path = if is_empty path then ok [] else relative_path path

  abbrev pub new_activation :
      Text → Text → CatalogDescriptor → Package → LoadedPolicy → Text → Text → Text → Activation
  new_activation id previous d pkg policy catalog_path package_path policy_path = record {
    schema_version = activation_schema;
    activation_id = id;
    previous_activation_id = previous;
    catalog = relocated d catalog_path;
    projection = record {
      package_path = package_path;
      package_sha256 = pkg.package_sha256;
      projections_sha256 = pkg.manifest.projections_sha256;
      projection_count = pkg.manifest.projection_count;
      candidate_ids_sha256 = pkg.manifest.candidate_ids_sha256;
    };
    policy = record {
      path = policy_path;
      policy_id = policy.policy_id;
      policy_version = policy.policy_version;
      policy_sha256 = policy.sha256;
      normalization_profile = policy.normalization_profile;
    };
  }

  -- the write of the activation document, which is not repeated where it exists
  unfoldable pub write_document : Text → Text → Option Text → Result Failure (List Effect)
  unfolding eq_text
  write_document id raw none = ok (write_activation id raw ∷ [])
  write_document id raw (some existing) =
      if eq_text existing raw then ok [] else err different_bytes

  -- the writes of Activate and of Rollback around the active document
  abbrev pub switch : Text → Text → Activation → List Effect
  switch target previous a =
      write_pending (w.marshal_pending (pending_for target previous))
      ∷ write_active (w.marshal a)
      ∷ remove_pending
      ∷ []

  abbrev pub absolute_path : Text → Result Failure Text
  absolute_path path = elim (w.absolute path) [ none ↦ err path_failed | some r ↦ ok r ]

  -- the request with absolute paths
  unfoldable pub absolute_request : ActivateRequest → Result Failure ActivateRequest
  absolute_request request = do
    descriptor ← absolute_path request.catalog_descriptor_path
    pkg ← absolute_path request.projection_package_path
    policy ← absolute_path request.scoring_policy_path
    ok (record {
      activation_id = request.activation_id;
      catalog_descriptor_path = descriptor;
      projection_package_path = pkg;
      scoring_policy_path = policy;
    })

  -- the loading of the immutable content, up to the test of the tuple
  unfoldable pub load_tuple : ActivateRequest → Result Failure Tuple
  load_tuple request = do
    descriptor ← load_catalog_descriptor w request.catalog_descriptor_path
    pkg ← loaded (w.load_package request.projection_package_path)
    policy ← loaded (w.load_policy request.scoring_policy_path)
    _ ← validate_tuple w descriptor pkg policy
    ok (record { descriptor = descriptor; pkg = pkg; policy = policy })

  -- the activation, with paths relative to the state directory
  unfoldable pub bind_paths : ActivateRequest → Text → Tuple → Result Failure Activation
  bind_paths request previous t = do
    catalog_path ← relative_to_state_directory t.descriptor.catalog_package_path
    package_path ← relative_to_state_directory request.projection_package_path
    policy_path ← relative_to_state_directory request.scoring_policy_path
    ok (
        new_activation request.activation_id previous t.descriptor t.pkg t.policy catalog_path
          package_path policy_path)

  -- the writes, from the state of the files before them
  unfoldable pub plan_writes : Files → Text → Tuple → Activation → Result Failure Plan
  plan_writes f previous t a = do
    written ← write_document a.activation_id (w.marshal a) (f.activations a.activation_id)
    ok (record {
      effects = written ++ switch a.activation_id previous a;
      snapshot = record { activation = a; projection_package = t.pkg; policy = t.policy };
    })

  unfoldable pub activate : Files → ActivateRequest → Result Failure Plan
  activate f call = do
    _ ← require (valid_id call.activation_id) invalid_id
    request ← absolute_request call
    t ← load_tuple request
    previous ← previous_id f.active
    a ← bind_paths request previous t
    plan_writes f previous t a

  unfoldable pub load_active : Files → Result Failure Snapshot
  unfolding load_document validate_activation
  load_active f = do a ← load_document f.active; validate_activation w a

  unfoldable pub rollback : Files → Result Failure Plan
  unfolding load_document validate_activation
  rollback f = do
    active ← load_document f.active
    _ ← require (not (is_empty active.previous_activation_id)) no_previous
    previous ← load_document (f.activations active.previous_activation_id)
    snapshot ← validate_activation w previous
    ok (record {
      effects = switch previous.activation_id active.activation_id previous;
      snapshot = snapshot;
    })

  -- LoadActivation
  unfoldable pub load_activation : Files → Text → Result Failure Snapshot
  unfolding load_document validate_activation
  load_activation f id = do
    _ ← require (valid_id id) invalid_id
    a ← load_document (f.activations id)
    validate_activation w a

  -- PromoteExisting. The activation that it writes has its paths resolved.
  unfoldable pub promote_existing : Files → Text → Text → Result Failure Plan
  unfolding load_active load_activation eq_text
  promote_existing f id expected = do
    current ← load_active f
    _ ← require (eq_text current.activation.activation_id expected) cas_mismatch
    target ← load_activation f id
    _ ←
        require
          (eq_text target.activation.previous_activation_id expected
            || eq_text id current.activation.previous_activation_id)
          not_linked
    ok (record {
      effects =
          switch target.activation.activation_id current.activation.activation_id target.activation;
      snapshot = target;
    })

  -- the test whether the active document is the target and is valid
  unfoldable pub switched : Option Text → Text → Bool
  unfolding load_document eq_text validate_activation
  switched active target = elim (load_document active) [
    | err e ↦ false
    | ok a ↦
        eq_text a.activation_id target
        && elim (validate_activation w a) [ err e ↦ false | ok snapshot ↦ true ]
  ]

  -- the switch back to the activation with an identifier
  unfoldable pub restore : Files → Text → Result Failure Recovery
  restore f id = do
    previous ← load_document (f.activations id)
    _ ← validate_activation w previous
    ok (record {
      effects = write_active (w.marshal previous) ∷ remove_pending ∷ [];
      status = rolled_back;
    })

  unfoldable pub recover_pending : Files → PendingDocument → Result Failure Recovery
  recover_pending f p =
      require (eq_text p.schema_version pending_schema) pending_schema_unsupported
      >> (if switched f.active p.target_activation_id
          then ok (record { effects = remove_pending ∷ []; status = completed })
          else if not (is_empty p.previous_activation_id)
          then restore f p.previous_activation_id
          else ok (record { effects = remove_active ∷ remove_pending ∷ []; status = rolled_back }))

  abbrev pub recover_decoded : Files → Option PendingDocument → Result Failure Recovery
  recover_decoded f none = err unreadable
  recover_decoded f (some p) = recover_pending f p

  unfoldable pub recover_document : Files → Option Text → Result Failure Recovery
  recover_document f none = ok (record { effects = []; status = clean })
  recover_document f (some raw) = recover_decoded f (w.decode_pending raw)

  unfoldable pub recover : Files → Result Failure Recovery
  recover f = recover_document f f.pending

  -- the first candidate with the identifier
  unfoldable pub find_candidate : Text → List Candidate → Option Candidate
  unfolding eq_text
  find_candidate id [] = none
  find_candidate id (c ∷ candidates) =
      let others = find_candidate id candidates in
      if eq_text c.candidate_id id then some c else others

  unfoldable pub lookup_active_candidate : Files → Text → Result Failure (Option Candidate)
  unfolding load_active find_candidate trim_space
  lookup_active_candidate f candidate_id = do
    snapshot ← load_active f
    ok (find_candidate (trim_space candidate_id) snapshot.projection_package.candidates)
