-- ===== src/AlertCase/Store.antt =====
-- The store of internal/alertcase/store.go: the files under its directory, and the operations on cases.
-- Each operation runs under the lock, so it is one step from store to store. A write is taken to
-- succeed: an operation returns an error only before its first write.
use watchlist_platform.Base.{
  ℕ, Bool, ◌||◌, ◌&&◌, List, [], ◌∷◌, ◌++◌, Option, none, some, is_empty, length, all, ltb, leb,
  ◌==◌, if◌then◌else◌,
}
use watchlist_platform.Base.Result.{Result, ok, err}
use watchlist_platform.Base.Text.{Text, text, eq_text, lt_text, trim_space, has_prefix}
use watchlist_platform.AlertCase.Types.{
  Raw, Action, action_text, CaseEventRequest, CaseEvent, CaseHead, CaseProjection, AlertRecord,
  AuditEvent, IdempotencyReceipt, CaseError, key_missing, conflicting_request, event_not_found,
  Codec,
}
use watchlist_platform.AlertCase.Transition.{next_uint}

-- the directory of a case: the files of events/ in the order of their names
pub record CaseFiles : Type 0 where
  pub events : List CaseEvent
  pub projection : Option CaseProjection
  pub head : Option CaseHead

-- audit/head.json
pub record AuditHead : Type 0 where
  pub sequence : ℕ
  pub audit_sha256 : Text

-- the alert records by their identifiers; receipts are filed by the hashes of scope and key.
pub record Store : Type 0 where
  pub stream_id : Text
  pub alerts : Text → Option AlertRecord
  pub cases : Text → CaseFiles
  pub receipts : Text → Text → Option IdempotencyReceipt
  pub audit : List AuditEvent
  pub audit_head : Option AuditHead

abbrev is_hex : ℕ → Bool
is_hex r = (leb b'0' r && leb r b'9') || (leb b'a' r && leb r b'f')

abbrev drop_prefix : Text → Text → Text
drop_prefix [] s = s
drop_prefix (p ∷ ps) [] = []
drop_prefix (p ∷ ps) (x ∷ s) = drop_prefix ps s

-- the patterns `\Acase_[0-9a-f]{32}\z` and `\Aalert_[0-9a-f]{32}\z`
unfoldable pub is_id : Text → Text → Bool
unfolding has_prefix
is_id kind id =
    let rest = drop_prefix kind id in has_prefix id kind && length rest == 32 && all is_hex rest

abbrev pub valid_case_id : Text → Bool
valid_case_id = is_id (text "case_")

abbrev pub valid_alert_id : Text → Bool
valid_alert_id = is_id (text "alert_")

abbrev pub or_missing {κ} : {A : Type κ} → Option A → CaseError → Result CaseError A
or_missing none e = err e
or_missing (some a) e = ok a

-- A directory of files in the order of their names; a file of the same name is replaced.
unfoldable pub write_file {ℓ} : {A : Type ℓ} → (A → A → Bool) → A → List A → List A
write_file precedes file [] = file ∷ []
write_file precedes file (x ∷ xs) =
    let rest = write_file precedes file xs in
    if precedes x file then x ∷ rest else if precedes file x then file ∷ x ∷ xs else file ∷ xs

-- file names are `%020d-<sha256>.json`: by sequence, then by digest
unfoldable pub event_precedes : CaseEvent → CaseEvent → Bool
unfolding lt_text
event_precedes a b =
    if a.sequence == b.sequence
    then lt_text a.event_sha256 b.event_sha256
    else ltb a.sequence b.sequence

unfoldable pub audit_precedes : AuditEvent → AuditEvent → Bool
unfolding lt_text
audit_precedes a b =
    if a.sequence == b.sequence
    then lt_text a.audit_sha256 b.audit_sha256
    else ltb a.sequence b.sequence

unfoldable pub with_sequence : ℕ → List CaseEvent → List CaseEvent
with_sequence n [] = []
with_sequence n (e ∷ es) =
    let rest = with_sequence n es in if e.sequence == n then e ∷ rest else rest

-- caseEventBySequenceUnlocked: exactly one file has the sequence
abbrev only : List CaseEvent → Result CaseError CaseEvent
only (e ∷ []) = ok e
only _ = err event_not_found

unfoldable pub case_event_by_sequence : ℕ → List CaseEvent → Result CaseError CaseEvent
unfolding with_sequence
case_event_by_sequence n es = only (with_sequence n es)

abbrev pub case_scope : CaseEventRequest → Text
case_scope req = text "case-event:" ++ req.case_id ++ b':' ∷ action_text req.action

module _ (c : Codec) where
  -- checkReceipt, for the hash of the request
  unfoldable pub check_receipt :
      Store → Text → Text → Text → Result CaseError (Option IdempotencyReceipt)
  unfolding trim_space eq_text
  check_receipt s scope key request_hash =
      if is_empty (trim_space key)
      then err key_missing
      else elim (s.receipts (c.sha256_hex scope) (c.sha256_hex key)) [
        | none ↦ ok none
        | some receipt ↦
            if eq_text receipt.request_sha256 request_hash
            then ok (some receipt)
            else err conflicting_request
      ]

  -- saveReceipt, for the hashes of the request and of the response
  unfoldable pub save_receipt : Text → Text → Text → Text → Text → Text → Text → Store → Store
  unfolding eq_text
  save_receipt scope key request_hash response_hash object_type object_id created_at s = record s {
    receipts = λ k j.
        if eq_text k (c.sha256_hex scope) && eq_text j (c.sha256_hex key)
        then some (record {
          scope = scope;
          key_sha256 = c.sha256_hex key;
          request_sha256 = request_hash;
          object_type = object_type;
          object_id = object_id;
          response_sha256 = response_hash;
          created_at = created_at;
        })
        else s.receipts k j;
  }

  -- buildCaseEvent
  unfoldable pub build_case_event :
      Text → ℕ → ℕ → Text → Action → Text → Text → Text → Raw → CaseEvent
  build_case_event id sequence revision previous action actor reason at payload =
      let base : CaseEvent = record {
        schema_version = text "openwatchlist.case-event.v1";
        case_id = id;
        sequence = sequence;
        revision = revision;
        previous_event_sha256 = previous;
        event_sha256 = [];
        action = action;
        actor = actor;
        reason = reason;
        occurred_at = at;
        payload = payload;
      } in
      record base { event_sha256 = c.sha256_hex (c.canonical_event base) }

  -- the zero values of the fields if head.json does not exist
  abbrev pub audit_sequence : Option AuditHead → ℕ
  audit_sequence none = 0
  audit_sequence (some h) = h.sequence

  abbrev pub audit_digest : Option AuditHead → Text
  audit_digest none = []
  audit_digest (some h) = h.audit_sha256

  unfoldable pub build_audit_event : Store → Text → Text → Text → Text → Text → Raw → AuditEvent
  build_audit_event s at action actor object_type object_id details =
      let base : AuditEvent = record {
        schema_version = text "openwatchlist.alert-case-audit.v1";
        stream_id = s.stream_id;
        sequence = next_uint (audit_sequence s.audit_head);
        previous_audit_sha256 = audit_digest s.audit_head;
        audit_sha256 = [];
        occurred_at = at;
        action = action;
        actor = actor;
        object_type = object_type;
        object_id = object_id;
        details = details;
      } in
      record base { audit_sha256 = c.sha256_hex (c.canonical_audit base) }

  -- appendAuditUnlocked
  unfoldable pub append_audit : Text → Text → Text → Text → Text → Raw → Store → Store
  unfolding build_audit_event write_file audit_precedes
  append_audit at action actor object_type object_id details s =
      let e = build_audit_event s at action actor object_type object_id details in
      record s {
        audit = write_file audit_precedes e s.audit;
        audit_head = some (record { sequence = e.sequence; audit_sha256 = e.audit_sha256 });
      }

abbrev pub head_of : CaseEvent → CaseHead
head_of e = record {
  schema_version = text "openwatchlist.case-head.v1";
  case_id = e.case_id;
  sequence = e.sequence;
  revision = e.revision;
  event_sha256 = e.event_sha256;
}

unfoldable pub put_case : Text → CaseFiles → Store → Store
unfolding eq_text
put_case id files s = record s { cases = λ j. if eq_text j id then files else s.cases j }
