-- ===== src/Activation/Tests.antt =====
-- Tests and examples of internal/scoringactivation.
use watchlist_platform.Base.{◌≡◌, refl, [], ◌∷◌, take, some}
use watchlist_platform.Base.Result.{ok}
use watchlist_platform.Base.Text.{text, eq_text}
use watchlist_platform.Activation.Types.{
  Activation, ActivateRequest, Files, write_activation, apply, run,
}
use watchlist_platform.Activation.Validate.{
  valid_id, tuple_matches, valid_catalog_descriptor, is_sha256, catalog_file_valid, resolve_path,
  load_catalog_descriptor, validate_tuple, resolve_activation_paths,
}
use watchlist_platform.Activation.Manager.{
  Plan, absolute_request, promote_existing, load_activation, new_activation, switch, activate,
  load_active, rollback, load_document, load_tuple, bind_paths, plan_writes, previous_id,
  write_document, relative_to_state_directory,
}
use watchlist_platform.Activation.Back.{rollback-crash}
use watchlist_platform.Activation.Promote.{promote_existing-crash}
use watchlist_platform.Activation.Validate.{
  validate_resolved, validate_activation, package_matches, policy_matches,
}
use watchlist_platform.Activation.Good.{IsSettled, named_document}
use watchlist_platform.Activation.Crash.{stop, Settles}
use watchlist_platform.Activation.Atomic.{activate-crash, activate-load_active}
use watchlist_platform.Activation.Example.{
  descriptor, projections, policy, world, world_laws, empty_directory, empty_directory-IsSettled,
  request, world-IsClean, parse, push, encode, put, fields_of, of_fields,
}

abbrev first_activation : Activation
first_activation =
    new_activation world (text "a1") [] descriptor projections policy (0 ∷ text "dc.mmap")
      (0 ∷ text "p") (0 ∷ text "s")

abbrev first_plan : Plan
unfolding world
first_plan = record {
  effects =
      write_activation (text "a1") (world.marshal first_activation)
      ∷ switch world (text "a1") [] first_activation;
  snapshot = record {
    activation = first_activation;
    projection_package = projections;
    policy = policy;
  };
}

first_planned : activate world empty_directory request ≡ ok first_plan
unfolding activate load_tuple bind_paths plan_writes previous_id write_document
    relative_to_state_directory validate_tuple tuple_matches valid_id absolute_request
    load_catalog_descriptor valid_catalog_descriptor is_sha256 catalog_file_valid world first_plan
    eq_text
first_planned = refl

activate-crash_example :
    Settles world world_laws empty_directory.active
      (named_document world world_laws empty_directory)
      (some (world.marshal first_plan.snapshot.activation))
      (run (take 2 first_plan.effects) empty_directory)
activate-crash_example =
    activate-crash world world_laws empty_directory request empty_directory-IsSettled
      (world-IsClean request) first_planned 2 (run (take 2 first_plan.effects) empty_directory) stop

activate-load_active_example :
    IsSettled world world_laws (run first_plan.effects empty_directory)
    × (load_active world (run first_plan.effects empty_directory)
        ≡ ok (record {
          activation = resolve_activation_paths world first_plan.snapshot.activation;
          projection_package = first_plan.snapshot.projection_package;
          policy = first_plan.snapshot.policy;
        }))
activate-load_active_example =
    activate-load_active world world_laws empty_directory request empty_directory-IsSettled
      (world-IsClean request) first_planned

abbrev second_activation : Activation
second_activation =
    new_activation world (text "a2") (text "a1") descriptor projections policy (0 ∷ text "dc.mmap")
      (0 ∷ text "p") (0 ∷ text "s")

abbrev second_plan : Plan
unfolding world
second_plan = record {
  effects =
      write_activation (text "a2") (world.marshal second_activation)
      ∷ switch world (text "a2") (text "a1") second_activation;
  snapshot = record {
    activation = second_activation;
    projection_package = projections;
    policy = policy;
  };
}

abbrev second_request : ActivateRequest
second_request = record {
  activation_id = text "a2";
  catalog_descriptor_path = text "d";
  projection_package_path = text "p";
  scoring_policy_path = text "s";
}

abbrev once : Files
unfolding run apply first_plan
once = run first_plan.effects empty_directory

once-IsSettled : IsSettled world world_laws once
unfolding once
once-IsSettled =
    (activate-load_active world world_laws empty_directory request empty_directory-IsSettled
      (world-IsClean request) first_planned).0

second_planned : activate world once second_request ≡ ok second_plan
unfolding activate load_tuple bind_paths plan_writes previous_id write_document
    relative_to_state_directory validate_tuple tuple_matches valid_id absolute_request
    load_catalog_descriptor valid_catalog_descriptor is_sha256 catalog_file_valid world first_plan
    second_plan eq_text once run apply load_document parse push encode put fields_of of_fields
second_planned = refl

abbrev twice : Files
unfolding run apply second_plan once
twice = run second_plan.effects once

twice-IsSettled : IsSettled world world_laws twice
unfolding twice
twice-IsSettled =
    (activate-load_active world world_laws once second_request once-IsSettled
      (world-IsClean second_request) second_planned).0

second_active : load_document world twice.active ≡ ok second_activation
unfolding twice second_plan run apply load_document world parse push encode put fields_of of_fields
second_active = refl

abbrev back_plan : Plan
unfolding world
back_plan = record {
  effects = switch world (text "a1") (text "a2") first_activation;
  snapshot = record {
    activation = resolve_activation_paths world first_activation;
    projection_package = projections;
    policy = policy;
  };
}

back_planned : rollback world twice ≡ ok back_plan
unfolding rollback twice second_plan once first_plan run apply load_document world parse push encode
    put fields_of of_fields validate_activation validate_resolved resolve_activation_paths
    validate_tuple tuple_matches resolve_path catalog_file_valid package_matches policy_matches
    valid_id eq_text back_plan
back_planned = refl

rollback-crash_example :
    Settles world world_laws twice.active
      (named_document world world_laws twice)
      (twice.activations second_activation.previous_activation_id)
      (run (take 1 back_plan.effects) twice)
rollback-crash_example =
    rollback-crash world world_laws twice second_activation twice-IsSettled second_active
      back_planned 1 (run (take 1 back_plan.effects) twice) stop

abbrev promote_plan : Plan
unfolding world resolve_activation_paths resolve_path
promote_plan = record {
  effects = switch world (text "a1") (text "a2") (resolve_activation_paths world first_activation);
  snapshot = record {
    activation = resolve_activation_paths world first_activation;
    projection_package = projections;
    policy = policy;
  };
}

promoted : promote_existing world twice (text "a1") (text "a2") ≡ ok promote_plan
unfolding promote_existing load_active load_activation twice second_plan once first_plan run apply
    load_document world parse push encode put fields_of of_fields validate_activation
    validate_resolved resolve_activation_paths validate_tuple tuple_matches resolve_path
    catalog_file_valid package_matches policy_matches valid_id eq_text promote_plan
promoted = refl

promote_existing-crash_example :
    Settles world world_laws twice.active
      (named_document world world_laws twice)
      (some (world.marshal promote_plan.snapshot.activation))
      (run (take 2 promote_plan.effects) twice)
promote_existing-crash_example =
    promote_existing-crash world world_laws twice (text "a1") (text "a2") twice-IsSettled promoted 2
      (run (take 2 promote_plan.effects) twice) stop
