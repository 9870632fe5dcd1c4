-- ===== src/AlertCase/Tests.antt =====
-- A run of the case model, and the theorems at concrete inputs.
use watchlist_platform.Base.{
  ℕ, zero, suc, ◌≡◌, ◌≢◌, ◌↔◌, is_empty, false, refl, true, some, none, List, [], ◌∷◌, arith,
  length, Option, ap, ◌∙◌, ◌++◌,
}
use watchlist_platform.Base.Result.{Result, ok, err}
use watchlist_platform.Base.Text.{Text, text}
use watchlist_platform.AlertCase.Types.{
  assigned, pending_approval, resolved, assign, approve_decision, reopen, CreateCaseRequest,
  CaseEventRequest, CaseProjection, CaseHead, AlertRecord, CreateAlertRequest, Codec, four_eyes,
  revision_conflict, CaseError,
}
use watchlist_platform.AlertCase.Transition.{apply_transition}
use watchlist_platform.AlertCase.Store.{check_receipt, case_scope, Store, is_id, build_case_event}
use watchlist_platform.AlertCase.Operations.{
  request_hash, Applied, create_case, apply_case_event, initial_projection,
}
use watchlist_platform.AlertCase.Verify.{verify_case}
use watchlist_platform.AlertCase.Lifecycle.{
  IsSound, approved_case, reopened_case, readable, apply_transition-resolves,
}
use watchlist_platform.AlertCase.Alerts.{record_alert, create_alert}
use watchlist_platform.AlertCase.Replay.{last_digest}
use watchlist_platform.AlertCase.Reachable.{
  no_files, IsReached, fresh, after, created, applied, IsReached-verifies,
}
use watchlist_platform.AlertCase.Audit.{IsAudited, Grows, last_audit, Step-verify_audit}
use watchlist_platform.AlertCase.Verify.{audit_loop, verify_audit}
use watchlist_platform.AlertCase.Retry.{apply_case_event-twice, apply_case_event-conflicts}

-- A codec for these runs: the digest of a text is the text behind 32 hexadecimal digits, and a payload
-- is the value of each of its fields.
abbrev digest : Text
digest = text "0123456789abcdef0123456789abcdef"

abbrev encode_text : Text → Text → Text
encode_text [] rest = 0 ∷ rest
encode_text (x ∷ t) rest = 1 ∷ x ∷ encode_text t rest

abbrev encode_all : List Text → Text
encode_all [] = []
encode_all (t ∷ ts) = encode_text t (encode_all ts)

abbrev prepend : ℕ → List Text → List Text
prepend x [] = []
prepend x (t ∷ ts) = (x ∷ t) ∷ ts

abbrev decode_all : Text → List Text
decode_all (zero ∷ rest) = [] ∷ decode_all rest
decode_all (suc zero ∷ x ∷ rest) = prepend x (decode_all rest)
decode_all _ = []

decode_all-encode_text : (t rest : Text) → decode_all (encode_text t rest) ≡ t ∷ decode_all rest
decode_all-encode_text [] rest = refl
decode_all-encode_text (x ∷ t) rest = ap (prepend x) (decode_all-encode_text t rest)

decode_all-encode_all : (ts : List Text) → decode_all (encode_all ts) ≡ ts
decode_all-encode_all [] = refl
decode_all-encode_all (t ∷ ts) =
    decode_all-encode_text t (encode_all ts) ∙ ap (λ k. t ∷ k) (decode_all-encode_all ts)

abbrev three_parts : List Text → Option (Text × List Text × Text)
three_parts (tenant ∷ grouping ∷ alerts) = some (tenant, alerts, grouping)
three_parts _ = none

abbrev codec : Codec
codec = record {
  sha256_hex = λ s. digest ++ s;
  canonical_create = λ req. req.tenant_id;
  canonical_request = λ req. req.payload;
  canonical_event = λ e. e.payload;
  canonical_projection = λ p. p.case_id;
  canonical_response = λ p e. e.payload;
  canonical_alert_request = λ req. req.subject;
  canonical_alert = λ a. a.content;
  canonical_audit = λ e. e.details;
  canonical_identity = λ tenant alerts grouping. encode_all (tenant ∷ grouping ∷ alerts);
  created_payload = λ tenant alerts grouping. encode_all (tenant ∷ grouping ∷ alerts);
  decode_created = λ raw. three_parts (decode_all raw);
  payload_object = λ raw. true;
  payload_field = λ key raw. raw;
  as_string = λ raw. raw;
  is_null = λ raw. false;
  parse_time = λ t. some t;
  format_uint = λ n. n ∷ [];
}

codec_decodes :
    (tenant : Text) (alerts : List Text) (grouping : Text)
    → codec.decode_created (codec.created_payload tenant alerts grouping)
      ≡ some (tenant, alerts, grouping)
codec_decodes tenant alerts grouping =
    ap three_parts (decode_all-encode_all (tenant ∷ grouping ∷ alerts))

abbrev case_id : Text
case_id = text "case_" ++ digest

abbrev alert_id : Text
alert_id = text "alert_" ++ digest

abbrev stored_alert : Text → AlertRecord
stored_alert id = record {
  schema_version = text "openwatchlist.alert.v1";
  alert_id = id;
  tenant_id = text "bank";
  source_type = text "external_alert";
  source_identity = text "i";
  content = text "{}";
  correlation_id_hash = digest;
  created_at = text "t0";
  record_sha256 = digest;
}

abbrev empty_store : Store
empty_store = record {
  stream_id = text "s";
  alerts = λ id. some (stored_alert id);
  cases = λ id. no_files;
  receipts = λ scope key. none;
  audit = [];
  audit_head = none;
}

abbrev create_request : CreateCaseRequest
create_request = record {
  tenant_id = text "bank";
  alert_ids = alert_id ∷ [];
  grouping_key = text "g";
  created_by = text "ann";
  reason = text "match";
  occurred_at = text "t0";
  idempotency_key = text "k0";
}

abbrev store_of {ℓ} : {A : Type ℓ} → Result CaseError (A × Store) → Store
store_of (ok x) = x.1
store_of (err e) = empty_store

abbrev open_case : CaseProjection
open_case =
    initial_projection codec case_id (text "bank") (alert_id ∷ []) (text "g") (text "t0")
      (digest ++ encode_all (text "bank" ∷ text "g" ∷ alert_id ∷ []))

unfoldable first_store : Store
unfolding create_case
first_store = store_of (create_case codec empty_store create_request)

first_created :
    create_case codec empty_store create_request
    ≡ ok (record { projection = open_case; replayed = false }, first_store)
unfolding first_store create_case initial_projection is_id
first_created = refl

abbrev assign_request : CaseEventRequest
assign_request = record {
  case_id = case_id;
  expected_revision = 1;
  action = assign;
  actor = text "ann";
  reason = text "mine";
  occurred_at = text "t1";
  idempotency_key = text "k1";
  payload = text "ann";
}

abbrev applied_of : Result CaseError (Applied × Store) → Applied
applied_of (ok x) = x.0
applied_of (err e) = record {
  projection = open_case;
  event = build_case_event codec [] 0 0 [] assign [] [] [] [];
  replayed = false;
}

abbrev assigned_case : CaseProjection
assigned_case = record open_case {
  state = assigned;
  assigned_to = text "ann";
  revision = 2;
  updated_at = text "t1";
  head_event_sha256 = digest ++ text "ann";
}

unfoldable second_store : Store
unfolding apply_case_event first_store create_case initial_projection is_id
second_store = store_of (apply_case_event codec first_store assign_request)

unfoldable second_applied : Applied
unfolding apply_case_event first_store create_case initial_projection is_id
second_applied = applied_of (apply_case_event codec first_store assign_request)

second_assigned :
    apply_case_event codec first_store assign_request ≡ ok (second_applied, second_store)
unfolding second_applied second_store apply_case_event first_store create_case initial_projection
    is_id
second_assigned = refl

second_files :
    ((second_store.cases case_id).projection ≡ some assigned_case)
    × (length (second_store.cases case_id).events ≡ 2)
    × (length (first_store.cases case_id).events ≡ 1)
unfolding second_store apply_case_event first_store create_case initial_projection is_id
second_files = (refl, refl, refl)

first_IsReached : IsReached codec first_store
first_IsReached =
    after empty_store first_store (fresh empty_store (λ id. refl))
      (created create_request _ first_store first_created)

second_IsReached : IsReached codec second_store
second_IsReached = after first_store second_store first_IsReached (
    applied assign_request second_applied second_store (ground (arith, second_files.2))
      second_assigned)

IsReached-verifies_example :
    (verify_case codec second_store case_id ≡ ok assigned_case)
    × (assigned_case.revision ≡ length (second_store.cases case_id).events)
    × IsSound assigned_case
    × ((h : CaseHead)
        → (second_store.cases case_id).head ≡ some h
        → (h.sequence ≡ assigned_case.revision)
          × (h.event_sha256 ≡ last_digest [] (second_store.cases case_id).events))
IsReached-verifies_example =
    IsReached-verifies codec codec_decodes second_IsReached case_id assigned_case second_files.0

abbrev pending_case : CaseProjection
pending_case = record open_case {
  state = pending_approval;
  decision_proposer = text "ann";
  proposed_decision = text "clear";
}

abbrev approval : CaseEventRequest
approval = record assign_request { action = approve_decision; actor = text "bob" }

abbrev resolved_case : CaseProjection
resolved_case = record pending_case { approved_decision = text "clear"; state = resolved }

approved : apply_transition codec pending_case approval ≡ ok resolved_case
unfolding apply_transition initial_projection
approved = refl

self_approval :
    apply_transition codec pending_case (record approval { actor = text "ann" }) ≡ err four_eyes
unfolding apply_transition initial_projection
self_approval = refl

apply_transition-resolves_example :
    (((apply_transition codec pending_case approval ≡ ok resolved_case)
        × (resolved_case.state ≡ resolved))
      ↔ ((readable codec approval ≡ true)
          × (approval.action ≡ approve_decision)
          × (pending_case.state ≡ pending_approval)
          × (is_empty pending_case.decision_proposer ≡ false)
          × (pending_case.decision_proposer ≢ approval.actor)
          × (resolved_case ≡ approved_case codec pending_case)))
    × (((apply_transition codec pending_case approval ≡ ok resolved_case)
          × (pending_case.state ≡ resolved))
        ↔ ((readable codec approval ≡ true)
            × (approval.action ≡ reopen)
            × (pending_case.state ≡ resolved)
            × (resolved_case ≡ reopened_case codec pending_case)))
apply_transition-resolves_example =
    apply_transition-resolves codec pending_case approval resolved_case

case_reopens :
    apply_transition codec resolved_case (record approval { action = reopen })
    ≡ ok (reopened_case codec resolved_case)
unfolding apply_transition initial_projection
case_reopens = refl

abbrev alert_request : CreateAlertRequest
alert_request = record {
  tenant_id = text "bank";
  source_type = text "external_alert";
  screening_event = [];
  external_alert = text "{}";
  subject = text "{}";
  correlation_id = text "c";
  idempotency_key = text "k9";
  occurred_at = text "t0";
}

alert_recorded :
    create_alert codec
      (record empty_store { alerts = λ id. none })
      alert_request
      (ok (stored_alert alert_id))
    ≡ ok (
      record { alert = stored_alert alert_id; replayed = false },
      record_alert codec alert_request
          (stored_alert alert_id)
          (record empty_store { alerts = λ id. none }),
    )
unfolding create_alert is_id
alert_recorded = refl

second_applied_new : second_applied.replayed ≡ false
unfolding second_applied apply_case_event first_store create_case initial_projection is_id
second_applied_new = refl

apply_case_event-twice_example :
    apply_case_event codec second_store assign_request
    ≡ ok (record second_applied { replayed = true }, second_store)
apply_case_event-twice_example =
    apply_case_event-twice codec first_store assign_request codec_decodes first_IsReached
      (ground (arith, second_files.2)) second_assigned second_applied_new

abbrev late_request : CaseEventRequest
late_request = record assign_request {
  actor = text "bob";
  idempotency_key = text "k2";
  payload = text "bob";
}

late_unseen :
    check_receipt codec second_store
      (case_scope late_request)
      late_request.idempotency_key
      (request_hash codec late_request)
    ≡ ok none
unfolding check_receipt second_store apply_case_event first_store create_case initial_projection
    is_id
late_unseen = refl

apply_case_event-conflicts_example :
    apply_case_event codec second_store late_request ≡ err revision_conflict
apply_case_event-conflicts_example =
    apply_case_event-conflicts codec first_store assign_request codec_decodes first_IsReached
      (ground (arith, second_files.2)) second_assigned second_applied_new late_request refl refl
      late_unseen

empty_IsAudited : IsAudited codec empty_store
unfolding audit_loop last_audit
empty_IsAudited = record { verified = refl; sequence = refl; digest = refl; numbered = tt }

Step-verify_audit_example :
    IsAudited codec first_store
    × (verify_audit codec first_store ≡ ok (length first_store.audit))
    × Grows codec empty_store first_store
Step-verify_audit_example =
    Step-verify_audit codec empty_IsAudited (omega arith)
      (created create_request _ first_store first_created)
