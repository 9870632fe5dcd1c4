-- ===== src/AlertCase/Verify.antt =====
-- VerifyCase and VerifyAudit of internal/alertcase/store.go.
use watchlist_platform.Base.{
  ℕ, ◌+◌, Bool, true, false, ◌&&◌, not, List, [], ◌∷◌, Option, none, some, is_empty, length, ◌==◌,
  if◌then◌else◌,
}
use watchlist_platform.Base.Result.{Result, ok, err, ◌>>=◌, ◌>>◌, require}
use watchlist_platform.Base.Text.{Text, text, eq_text}
use watchlist_platform.AlertCase.Types.{
  Action, case_created, no_state, CaseEvent, CaseProjection, AuditEvent, CaseError, not_found,
  invalid_id, payload_invalid, no_events, chain_mismatch, checksum_mismatch, projection_mismatch,
  audit_chain_mismatch, audit_checksum_mismatch, Codec,
}
use watchlist_platform.AlertCase.Transition.{next_uint, apply_transition}
use watchlist_platform.AlertCase.Store.{Store, valid_case_id, or_missing}
use watchlist_platform.AlertCase.Operations.{initial_projection}

-- `var replay CaseProjection`
abbrev pub zero_projection : CaseProjection
zero_projection = record {
  schema_version = [];
  case_id = [];
  tenant_id = [];
  alert_ids = [];
  grouping_key = [];
  state = no_state;
  revision = 0;
  assigned_to = [];
  decision_proposer = [];
  proposed_decision = [];
  approved_decision = [];
  evidence_request_ids = [];
  evidence_submission_ids = [];
  rescreen_event_ids = [];
  created_at = [];
  updated_at = [];
  head_event_sha256 = [];
}

abbrev pub is_created : Action → Bool
is_created case_created = true
is_created _ = false

abbrev pub unhashed_event : CaseEvent → CaseEvent
unhashed_event e = record e { event_sha256 = [] }

abbrev pub unhashed_audit : AuditEvent → AuditEvent
unhashed_audit e = record e { audit_sha256 = [] }

module _ (c : Codec) where
  abbrev replay_created :
      Text → CaseEvent → Option (Text × List Text × Text) → Result CaseError CaseProjection
  replay_created id e none = err payload_invalid
  replay_created id e (some (tenant, alerts, grouping)) =
      ok (initial_projection c id tenant alerts grouping e.occurred_at e.event_sha256)

  -- one event of the loop of VerifyCase
  unfoldable pub replay_step : Text → CaseProjection → CaseEvent → Result CaseError CaseProjection
  unfolding apply_transition initial_projection
  replay_step id replay e =
      if is_created e.action then replay_created id e (c.decode_created e.payload) else do
        next ← apply_transition c replay (record {
          case_id = id;
          expected_revision = replay.revision;
          action = e.action;
          actor = e.actor;
          reason = e.reason;
          occurred_at = e.occurred_at;
          idempotency_key = text "replay";
          payload = e.payload;
        })
        ok (record next {
          revision = e.revision;
          updated_at = e.occurred_at;
          head_event_sha256 = e.event_sha256;
        })

  -- the loop of VerifyCase; `i` events have been read, and `previous` is the digest of the last
  unfoldable pub verify_loop :
      Text → ℕ → Text → CaseProjection → List CaseEvent → Result CaseError CaseProjection
  unfolding replay_step eq_text
  verify_loop id i previous replay [] = ok replay
  verify_loop id i previous replay (e ∷ es) = do
    require
        (e.sequence == next_uint i
          && (e.revision == next_uint i && eq_text e.previous_event_sha256 previous))
        chain_mismatch
    require (eq_text (c.sha256_hex (c.canonical_event (unhashed_event e))) e.event_sha256)
        checksum_mismatch
    next ← replay_step id replay e
    verify_loop id (i + 1) e.event_sha256 next es

  -- VerifyCase
  unfoldable pub verify_case : Store → Text → Result CaseError CaseProjection
  unfolding verify_loop eq_text
  verify_case s id = do
    require (valid_case_id id) invalid_id
    require (not (is_empty (s.cases id).events)) no_events
    replay ← verify_loop id 0 [] zero_projection (s.cases id).events
    stored ← or_missing (s.cases id).projection not_found
    require (eq_text (c.canonical_projection replay) (c.canonical_projection stored))
        projection_mismatch
    ok replay

  -- the loop of VerifyAudit
  unfoldable pub audit_loop : ℕ → Text → List AuditEvent → Result CaseError (Unit {0})
  unfolding eq_text
  audit_loop i previous [] = ok tt
  audit_loop i previous (e ∷ es) = do
    require (e.sequence == next_uint i && eq_text e.previous_audit_sha256 previous)
        audit_chain_mismatch
    require (eq_text (c.sha256_hex (c.canonical_audit (unhashed_audit e))) e.audit_sha256)
        audit_checksum_mismatch
    audit_loop (i + 1) e.audit_sha256 es

  -- VerifyAudit
  unfoldable pub verify_audit : Store → Result CaseError ℕ
  unfolding audit_loop
  verify_audit s = do audit_loop 0 [] s.audit; ok (length s.audit)
