-- ===== src/AlertCase/Operations.antt =====
-- CreateCase and ApplyCaseEvent of internal/alertcase/store.go.
use watchlist_platform.Base.{
  Bool, true, false, ◌||◌, not, List, [], ◌∷◌, ◌++◌, Option, none, some, is_empty, take, ◌==◌,
}
use watchlist_platform.Base.Result.{Result, ok, ◌>>=◌, ◌>>◌, require}
use watchlist_platform.Base.Text.{Text, text, eq_text}
use watchlist_platform.AlertCase.Types.{
  action_text, case_created, case_open, CreateCaseRequest, CaseEventRequest, CaseEvent, CaseHead,
  CaseProjection, CaseError, not_found, fields_missing, other_tenant, invalid_id, revision_conflict,
  Codec,
}
use watchlist_platform.AlertCase.Transition.{
  sorted_unique, next_uint, normalize_time, apply_transition,
}
use watchlist_platform.AlertCase.Store.{
  CaseFiles, Store, valid_case_id, valid_alert_id, or_missing, write_file, event_precedes,
  case_event_by_sequence, case_scope, check_receipt, save_receipt, build_case_event, append_audit,
  head_of, put_case,
}

pub record Created : Type 0 where
  pub projection : CaseProjection
  pub replayed : Bool

pub record Applied : Type 0 where
  pub projection : CaseProjection
  pub event : CaseEvent
  pub replayed : Bool

module _ (c : Codec) where
  -- the loop that loads the alerts of a new case
  unfoldable pub check_alerts : Store → Text → List Text → Result CaseError (Unit {0})
  unfolding eq_text
  check_alerts s tenant [] = ok tt
  check_alerts s tenant (id ∷ ids) = do
    require (valid_alert_id id) invalid_id
    alert ← or_missing (s.alerts id) not_found
    require (eq_text alert.tenant_id tenant) other_tenant
    check_alerts s tenant ids

  -- the projection of a case_created event
  unfoldable pub initial_projection : Text → Text → List Text → Text → Text → Text → CaseProjection
  initial_projection id tenant alerts grouping at digest = record {
    schema_version = text "openwatchlist.case-projection.v1";
    case_id = id;
    tenant_id = tenant;
    alert_ids = alerts;
    grouping_key = grouping;
    state = case_open;
    revision = 1;
    assigned_to = [];
    decision_proposer = [];
    proposed_decision = [];
    approved_decision = [];
    evidence_request_ids = [];
    evidence_submission_ids = [];
    rescreen_event_ids = [];
    created_at = at;
    updated_at = at;
    head_event_sha256 = digest;
  }

  abbrev pub create_scope : Text
  create_scope = text "create-case"

  abbrev pub create_hash : CreateCaseRequest → Text
  create_hash req = c.sha256_hex (c.canonical_create req)

  -- `"case_" + h[:32]`
  unfoldable pub case_id_of : Text → List Text → Text → Text
  case_id_of tenant ids grouping =
      text "case_" ++ take 32 (c.sha256_hex (c.canonical_identity tenant ids grouping))

  -- saveReceipt after CreateCase
  abbrev created_receipt : CreateCaseRequest → Text → CaseProjection → Text → Store → Store
  created_receipt req id p at s =
      save_receipt c create_scope req.idempotency_key (create_hash req)
        (c.sha256_hex (c.canonical_projection p)) (text "case") id at s

  -- the part of CreateCase that finds no head.json
  unfoldable pub start_case : Store → CreateCaseRequest → Text → List Text → Text → Created × Store
  unfolding build_case_event put_case append_audit save_receipt initial_projection
  start_case s req id ids at =
      let payload = c.created_payload req.tenant_id ids req.grouping_key in
      let event = build_case_event c id 1 1 [] case_created req.created_by req.reason at payload in
      let p = initial_projection id req.tenant_id ids req.grouping_key at event.event_sha256 in
      let files : CaseFiles = record {
        events = write_file event_precedes event (s.cases id).events;
        projection = some p;
        head = some (head_of event);
      } in
      let written = put_case id files s in
      let audited =
        append_audit c at (action_text case_created) req.created_by (text "case") id
          (c.canonical_event event) written in
      (record { projection = p; replayed = false }, created_receipt req id p at audited)

  -- the part of CreateCase that reads head.json: an existing case is returned
  unfoldable pub find_or_start :
      Store
      → CreateCaseRequest
      → Text
      → List Text
      → Text
      → Option CaseHead
      → Result CaseError (Created × Store)
  unfolding start_case
  find_or_start s req id ids at none = ok (start_case s req id ids at)
  find_or_start s req id ids at (some _) = do
    p ← or_missing (s.cases id).projection not_found
    ok (record { projection = p; replayed = true }, created_receipt req id p at s)

  -- the part of CreateCase that finds no receipt
  unfoldable pub new_case : Store → CreateCaseRequest → Result CaseError (Created × Store)
  unfolding check_alerts normalize_time sorted_unique case_id_of find_or_start
  new_case s req = do
    require
        (not (
          is_empty req.tenant_id
          || is_empty req.created_by
          || is_empty req.reason
          || is_empty req.alert_ids))
        fields_missing
    at ← normalize_time c req.occurred_at
    let ids = sorted_unique req.alert_ids
    check_alerts s req.tenant_id ids
    let id = case_id_of req.tenant_id ids req.grouping_key
    require (valid_case_id id) invalid_id
    find_or_start s req id ids at (s.cases id).head

  -- the part of CreateCase that finds a receipt
  unfoldable pub replay_case : Store → Text → Result CaseError (Created × Store)
  replay_case s id = do
    require (valid_case_id id) invalid_id
    p ← or_missing (s.cases id).projection not_found
    ok (record { projection = p; replayed = true }, s)

  -- CreateCase
  unfoldable pub create_case : Store → CreateCaseRequest → Result CaseError (Created × Store)
  unfolding check_receipt new_case replay_case
  create_case s req = do
    receipt ← check_receipt c s create_scope req.idempotency_key (create_hash req)
    elim receipt [ some found ↦ replay_case s found.object_id | none ↦ new_case s req ]

  abbrev pub request_hash : CaseEventRequest → Text
  request_hash req = c.sha256_hex (c.canonical_request req)

  -- the part of ApplyCaseEvent that finds a receipt
  unfoldable pub replay_event : Store → CaseEventRequest → Result CaseError (Applied × Store)
  unfolding case_event_by_sequence
  replay_event s req = do
    p ← or_missing (s.cases req.case_id).projection not_found
    head ← or_missing (s.cases req.case_id).head not_found
    event ← case_event_by_sequence head.sequence (s.cases req.case_id).events
    ok (record { projection = p; event = event; replayed = true }, s)

  -- the writes of ApplyCaseEvent, in order: event, projection, head, audit, receipt
  unfoldable pub commit_event :
      Store → CaseEventRequest → CaseHead → CaseProjection → Text → Applied × Store
  unfolding build_case_event put_case append_audit save_receipt write_file event_precedes
  commit_event s req head next at =
      let event =
        build_case_event c req.case_id (next_uint head.sequence) (next_uint head.revision)
          head.event_sha256 req.action req.actor req.reason at req.payload in
      let p = record next {
        revision = event.revision;
        updated_at = at;
        head_event_sha256 = event.event_sha256;
      } in
      let files : CaseFiles = record {
        events = write_file event_precedes event (s.cases req.case_id).events;
        projection = some p;
        head = some (head_of event);
      } in
      let audited =
        append_audit c at (action_text req.action) req.actor (text "case") req.case_id
          (c.canonical_event event) (put_case req.case_id files s) in
      (
        record { projection = p; event = event; replayed = false },
        save_receipt c (case_scope req) req.idempotency_key (request_hash req)
            (c.sha256_hex (c.canonical_response p event)) (text "case") req.case_id at audited,
      )

  -- the part of ApplyCaseEvent that finds no receipt
  unfoldable pub new_event : Store → CaseEventRequest → Result CaseError (Applied × Store)
  unfolding normalize_time apply_transition commit_event
  new_event s req = do
    p ← or_missing (s.cases req.case_id).projection not_found
    require (req.expected_revision == p.revision) revision_conflict
    require
        (not
          (is_empty req.actor || is_empty (action_text req.action) || is_empty req.idempotency_key))
        fields_missing
    at ← normalize_time c req.occurred_at
    head ← or_missing (s.cases req.case_id).head not_found
    next ← apply_transition c p req
    ok (commit_event s req head next at)

  -- ApplyCaseEvent
  unfoldable pub apply_case_event : Store → CaseEventRequest → Result CaseError (Applied × Store)
  unfolding check_receipt replay_event new_event
  apply_case_event s req = do
    require (valid_case_id req.case_id) invalid_id
    receipt ← check_receipt c s (case_scope req) req.idempotency_key (request_hash req)
    elim receipt [ some _ ↦ replay_event s req | none ↦ new_event s req ]
