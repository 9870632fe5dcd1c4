-- ===== src/AlertCase/Requests.antt =====
-- What a request that succeeds has passed: the branches of CreateCase and ApplyCaseEvent, inverted.
use watchlist_platform.Base.{
  ◌≡◌, refl, sym, subst, ap, ◌⊎◌, inl, inr, true, not, ◌||◌, List, Option, none, some, is_empty,
  ◌==◌,
}
use watchlist_platform.Base.Result.{ok, require, require-eq-ok, ok-injective, bind_ok}
use watchlist_platform.Base.Text.{Text}
use watchlist_platform.AlertCase.Types.{
  action_text, CaseEventRequest, CreateCaseRequest, CaseHead, CaseProjection, CaseError, invalid_id,
  fields_missing, not_found, IdempotencyReceipt, Codec,
}
use watchlist_platform.AlertCase.Transition.{apply_transition, normalize_time, sorted_unique}
use watchlist_platform.AlertCase.Store.{
  Store, valid_case_id, check_receipt, case_scope, or_missing, save_receipt, case_event_by_sequence,
}
use watchlist_platform.AlertCase.Operations.{
  Created, Applied, create_scope, create_hash, create_case, start_case, find_or_start, new_case,
  replay_case, check_alerts, case_id_of, apply_case_event, new_event, replay_event, commit_event,
  request_hash,
}

-- the cases and the audit stream are unchanged
abbrev pub Keeps : Store → Store → Type 0
Keeps s t = (t.cases ≡ s.cases) × (t.audit ≡ s.audit) × (t.audit_head ≡ s.audit_head)

module _ (c : Codec) where
  -- a request that appends an event
  pub record IsAccepted (s : Store) (req : CaseEventRequest) (r : Applied) (t : Store)
      : Type 0 where
    pub projection : CaseProjection
    pub head : CaseHead
    pub next : CaseProjection
    pub at : Text
    pub stored : (s.cases req.case_id).projection ≡ some projection
    pub headed : (s.cases req.case_id).head ≡ some head
    pub expected : (req.expected_revision == projection.revision) ≡ true
    pub complete :
        not
          (is_empty req.actor || is_empty (action_text req.action) || is_empty req.idempotency_key)
        ≡ true
    pub moves : apply_transition c projection req ≡ ok next
    pub commits : commit_event c s req head next at ≡ (r, t)

  or_missing-eq-ok :
      {A : Type 0} (o : Option A) (e : CaseError) {a : A} → or_missing o e ≡ ok a → o ≡ some a
  or_missing-eq-ok none e h = cc
  or_missing-eq-ok (some a) e h = ap some (ok-injective h)

  pub new_event-accepts :
      (s : Store) (req : CaseEventRequest) {r : Applied} {t : Store}
      → new_event c s req ≡ ok (r, t)
      → IsAccepted s req r t
  unfolding new_event
  new_event-accepts s req h =
      let (p, stored, h₁) = bind_ok _ _ h in
      let (_, expected, h₂) = bind_ok _ _ h₁ in
      let (_, complete, h₃) = bind_ok _ _ h₂ in
      let (at, _, h₄) = bind_ok (normalize_time c req.occurred_at) _ h₃ in
      let (head, headed, h₅) = bind_ok (or_missing (s.cases req.case_id).head not_found) _ h₄ in
      let (next, moves, h₆) = bind_ok (apply_transition c p req) _ h₅ in
      record {
        projection = p;
        head = head;
        next = next;
        at = at;
        stored = or_missing-eq-ok _ _ stored;
        headed = or_missing-eq-ok _ not_found headed;
        expected = require-eq-ok _ _ expected;
        complete = require-eq-ok _ _ complete;
        moves = moves;
        commits = ok-injective h₆;
      }

  replay_event-same :
      (s : Store) (req : CaseEventRequest) {r : Applied} {t : Store}
      → replay_event c s req ≡ ok (r, t)
      → t ≡ s
  unfolding replay_event
  replay_event-same s req h =
      let (_, _, h₁) = bind_ok (or_missing (s.cases req.case_id).projection not_found) _ h in
      let (head, _, h₂) = bind_ok (or_missing (s.cases req.case_id).head not_found) _ h₁ in
      let (_, _, h₃) =
        bind_ok (case_event_by_sequence head.sequence (s.cases req.case_id).events) _ h₂ in
      sym (ap (λ (x : Applied × Store). x.1) (ok-injective h₃))

  pub apply_case_event-accepts :
      (s : Store) (req : CaseEventRequest) {r : Applied} {t : Store}
      → apply_case_event c s req ≡ ok (r, t)
      → (t ≡ s) ⊎ IsAccepted s req r t
  unfolding apply_case_event
  apply_case_event-accepts s req {r} {t} h =
      let (_, _, h₁) = bind_ok (require (valid_case_id req.case_id) invalid_id) _ h in
      let (receipt, _, h₂) =
        bind_ok (check_receipt c s (case_scope req) req.idempotency_key (request_hash c req)) _
          h₁ in
      by_receipt receipt h₂
    where
      by_receipt :
          (o : Option IdempotencyReceipt)
          → elim o [ some _ ↦ replay_event c s req | none ↦ new_event c s req ] ≡ ok (r, t)
          → (t ≡ s) ⊎ IsAccepted s req r t
      by_receipt none k = inr (new_event-accepts s req k)
      by_receipt (some _) k = inl (replay_event-same s req k)

  -- a request that starts a case
  pub record IsStarted (s : Store) (req : CreateCaseRequest) (r : Created) (t : Store)
      : Type 0 where
    pub id : Text
    pub alerts : List Text
    pub at : Text
    pub valid : valid_case_id id ≡ true
    pub headless : (s.cases id).head ≡ none
    pub starts : start_case c s req id alerts at ≡ (r, t)

  find_or_start-starts :
      (s : Store) (req : CreateCaseRequest) (id : Text) (alerts : List Text) (at : Text)
      (o : Option CaseHead) {r : Created} {t : Store}
      → valid_case_id id ≡ true
      → (s.cases id).head ≡ o
      → find_or_start c s req id alerts at o ≡ ok (r, t)
      → Keeps s t ⊎ IsStarted s req r t
  unfolding find_or_start save_receipt
  find_or_start-starts s req id alerts at none v o h = inr (record {
    id = id;
    alerts = alerts;
    at = at;
    valid = v;
    headless = o;
    starts = ok-injective h;
  })
  find_or_start-starts s req id alerts at (some _) v o h =
      let (_, _, h₁) = bind_ok (or_missing (s.cases id).projection not_found) _ h in
      inl (subst (λ (x : Created × Store). Keeps s x.1) (ok-injective h₁) (refl, refl, refl))

  new_case-starts :
      (s : Store) (req : CreateCaseRequest) {r : Created} {t : Store}
      → new_case c s req ≡ ok (r, t)
      → Keeps s t ⊎ IsStarted s req r t
  unfolding new_case
  new_case-starts s req h =
      let complete = not (
        is_empty req.tenant_id
        || is_empty req.created_by
        || is_empty req.reason
        || is_empty req.alert_ids) in
      let (_, _, h₁) = bind_ok (require complete fields_missing) _ h in
      let (at, _, h₂) = bind_ok (normalize_time c req.occurred_at) _ h₁ in
      let alerts = sorted_unique req.alert_ids in
      let (_, _, h₃) = bind_ok (check_alerts c s req.tenant_id alerts) _ h₂ in
      let id = case_id_of c req.tenant_id alerts req.grouping_key in
      let (_, valid, h₄) = bind_ok (require (valid_case_id id) invalid_id) _ h₃ in
      find_or_start-starts s req id alerts at (s.cases id).head (require-eq-ok _ _ valid) refl h₄

  replay_case-same :
      (s : Store) (id : Text) {r : Created} {t : Store} → replay_case c s id ≡ ok (r, t) → t ≡ s
  unfolding replay_case
  replay_case-same s id h =
      let (_, _, h₁) = bind_ok (require (valid_case_id id) invalid_id) _ h in
      let (_, _, h₂) = bind_ok (or_missing (s.cases id).projection not_found) _ h₁ in
      sym (ap (λ (x : Created × Store). x.1) (ok-injective h₂))

  pub create_case-starts :
      (s : Store) (req : CreateCaseRequest) {r : Created} {t : Store}
      → create_case c s req ≡ ok (r, t)
      → Keeps s t ⊎ IsStarted s req r t
  unfolding create_case
  create_case-starts s req {r} {t} h =
      let (receipt, _, h₁) =
        bind_ok (check_receipt c s (create_scope c) req.idempotency_key (create_hash c req)) _ h in
      by_receipt receipt h₁
    where
      by_receipt :
          (o : Option IdempotencyReceipt)
          → elim o [ some found ↦ replay_case c s found.object_id | none ↦ new_case c s req ]
            ≡ ok (r, t)
          → Keeps s t ⊎ IsStarted s req r t
      by_receipt none k = new_case-starts s req k
      by_receipt (some found) k =
          inl (subst (Keeps s) (sym (replay_case-same s found.object_id k)) (refl, refl, refl))
