-- ===== src/AlertCase/Types.antt =====
-- The case records of internal/alertcase/types.go and store.go. uint64 fields are ℕ below 2 ^ 64. A raw
-- JSON message is its text in the form that CanonicalJSON writes, the empty text where it is absent;
-- so a record that is written to a file and read back is the same record.
use watchlist_platform.Base.{ℕ, Bool, List, Option}
use watchlist_platform.Base.Text.{Text, text}

abbrev pub Raw : Type 0
Raw = Text

-- the values of CaseProjection.State that the code writes; `no_state` is the empty string of a zero value
pub data CaseState : Type 0 where
  no_state : CaseState
  case_open assigned investigating pending_evidence pending_approval resolved reopened : CaseState

-- the actions that the code names; `unsupported` is any other string
pub data Action : Type 0 where
  case_created assign start_investigation request_evidence submit_evidence : Action
  propose_decision approve_decision reject_decision reopen link_rescreen : Action
  unsupported : Text → Action

abbrev pub action_text : Action → Text
action_text case_created = text "case_created"
action_text assign = text "assign"
action_text start_investigation = text "start_investigation"
action_text request_evidence = text "request_evidence"
action_text submit_evidence = text "submit_evidence"
action_text propose_decision = text "propose_decision"
action_text approve_decision = text "approve_decision"
action_text reject_decision = text "reject_decision"
action_text reopen = text "reopen"
action_text link_rescreen = text "link_rescreen"
action_text (unsupported name) = name

pub record CreateCaseRequest : Type 0 where
  pub tenant_id : Text
  pub alert_ids : List Text
  pub grouping_key : Text
  pub created_by : Text
  pub reason : Text
  pub occurred_at : Text
  pub idempotency_key : Text

-- The screening event, the external alert and the subject are in canonical JSON.
pub record CreateAlertRequest : Type 0 where
  pub tenant_id : Text
  pub source_type : Text
  pub screening_event : Raw
  pub external_alert : Raw
  pub subject : Raw
  pub correlation_id : Text
  pub idempotency_key : Text
  pub occurred_at : Text

pub record CaseEventRequest : Type 0 where
  pub case_id : Text
  pub expected_revision : ℕ
  pub action : Action
  pub actor : Text
  pub reason : Text
  pub occurred_at : Text
  pub idempotency_key : Text
  pub payload : Raw

pub record CaseEvent : Type 0 where
  pub schema_version : Text
  pub case_id : Text
  pub sequence : ℕ
  pub revision : ℕ
  pub previous_event_sha256 : Text
  pub event_sha256 : Text
  pub action : Action
  pub actor : Text
  pub reason : Text
  pub occurred_at : Text
  pub payload : Raw

pub record CaseHead : Type 0 where
  pub schema_version : Text
  pub case_id : Text
  pub sequence : ℕ
  pub revision : ℕ
  pub event_sha256 : Text

pub record CaseProjection : Type 0 where
  pub schema_version : Text
  pub case_id : Text
  pub tenant_id : Text
  pub alert_ids : List Text
  pub grouping_key : Text
  pub state : CaseState
  pub revision : ℕ
  pub assigned_to : Text
  pub decision_proposer : Text
  pub proposed_decision : Raw
  pub approved_decision : Raw
  pub evidence_request_ids : List Text
  pub evidence_submission_ids : List Text
  pub rescreen_event_ids : List Text
  pub created_at : Text
  pub updated_at : Text
  pub head_event_sha256 : Text

-- An alert record. `content` is the canonical JSON of the lineage, the external alert, the subject, the
-- candidates, the classification and the decision, which the store writes and does not read.
pub record AlertRecord : Type 0 where
  pub schema_version : Text
  pub alert_id : Text
  pub tenant_id : Text
  pub source_type : Text
  pub source_identity : Text
  pub content : Raw
  pub correlation_id_hash : Text
  pub created_at : Text
  pub record_sha256 : Text

pub record AuditEvent : Type 0 where
  pub schema_version : Text
  pub stream_id : Text
  pub sequence : ℕ
  pub previous_audit_sha256 : Text
  pub audit_sha256 : Text
  pub occurred_at : Text
  pub action : Text
  pub actor : Text
  pub object_type : Text
  pub object_id : Text
  pub details : Raw

pub record IdempotencyReceipt : Type 0 where
  pub scope : Text
  pub key_sha256 : Text
  pub request_sha256 : Text
  pub object_type : Text
  pub object_id : Text
  pub response_sha256 : Text
  pub created_at : Text

-- The errors, one constructor for each return of an error.
pub data CaseError : Type 0 where
  key_missing conflicting_request not_found fields_missing time_missing time_invalid : CaseError
  other_tenant invalid_id revision_conflict payload_invalid not_allowed assignee_missing : CaseError
  decision_missing four_eyes reopen_first screening_event_missing action_unsupported : CaseError
  no_events chain_mismatch checksum_mismatch projection_mismatch event_not_found : CaseError
  audit_chain_mismatch audit_checksum_mismatch alert_collision : CaseError

-- The packages that the store calls. `canonical_…` is CanonicalJSON at each type; `payload_object`
-- says whether a message decodes into a map of messages, `payload_field` is that map and `as_string`
-- a message decoded into a string (the empty string on an error); `decode_created` decodes the payload
-- of the first event; `parse_time` parses an RFC 3339 time and formats it in UTC.
pub record Codec : Type 0 where
  pub sha256_hex : Text → Text
  pub canonical_create : CreateCaseRequest → Text
  pub canonical_request : CaseEventRequest → Text
  pub canonical_event : CaseEvent → Text
  pub canonical_projection : CaseProjection → Text
  pub canonical_response : CaseProjection → CaseEvent → Text
  pub canonical_alert_request : CreateAlertRequest → Text
  pub canonical_alert : AlertRecord → Text
  pub canonical_audit : AuditEvent → Text
  pub canonical_identity : Text → List Text → Text → Text
  pub created_payload : Text → List Text → Text → Raw
  pub decode_created : Raw → Option (Text × List Text × Text)
  pub payload_object : Raw → Bool
  pub payload_field : Text → Raw → Raw
  pub as_string : Raw → Text
  pub is_null : Raw → Bool
  pub parse_time : Text → Option Text
  pub format_uint : ℕ → Text
