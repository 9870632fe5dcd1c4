-- ===== src/AlertCase/Retry.antt =====
-- A request after one that appended an event: the same request again, and one that expects the old revision.
use watchlist_platform.Base.{
  ℕ, ◌+◌, ◌^◌, ◌≤◌, ◌<◌, ◌≡◌, refl, sym, subst, ap, ◌∙◌, true, false, List, [], ◌∷◌, ◌++◌, Option,
  none, some, All, is_empty, length, ◌==◌, arith,
}
use watchlist_platform.Base.Result.{ok, err, require, ok-injective, bind_ok}
use watchlist_platform.Base.Text.{Text, text, eq_text_refl, trim_space}
use watchlist_platform.AlertCase.Types.{
  CaseEventRequest, CaseEvent, CaseHead, CaseProjection, IdempotencyReceipt, invalid_id, not_found,
  revision_conflict, Codec,
}
use watchlist_platform.AlertCase.Transition.{apply_transition}
use watchlist_platform.AlertCase.Store.{
  Store, valid_case_id, or_missing, with_sequence, case_event_by_sequence, case_scope,
  check_receipt, save_receipt, build_case_event, append_audit, put_case,
}
use watchlist_platform.AlertCase.Operations.{
  Applied, request_hash, replay_event, new_event, commit_event, apply_case_event,
}
use watchlist_platform.AlertCase.Invariant.{
  IsRecorded, event_after, projection_after, files_after, events_after,
}
use watchlist_platform.AlertCase.Requests.{IsAccepted, new_event-accepts}
use watchlist_platform.AlertCase.Reachable.{IsReached, IsReached-IsGood, IsGood-IsRecorded}

with_sequence-last :
    (e : CaseEvent) (n : ℕ) (es : List CaseEvent)
    → n < e.sequence
    → All (λ x. x.sequence ≤ n) es
    → with_sequence e.sequence (es ++ e ∷ []) ≡ e ∷ []
unfolding with_sequence
with_sequence-last e n [] h a = ground arith
with_sequence-last e n (x ∷ es) h a = ground (arith, a.0, with_sequence-last e n es h a.1)

module _ (c : Codec) where
  -- A request that is not a replay had no receipt under its key, and appended an event.
  record IsFirst (s : Store) (req : CaseEventRequest) (r : Applied) (t : Store) : Type 0 where
    key : is_empty (trim_space req.idempotency_key) ≡ false
    accepted : IsAccepted c s req r t

  check_receipt-key :
      (s : Store) (scope key hash : Text) {o : Option IdempotencyReceipt}
      → check_receipt c s scope key hash ≡ ok o
      → is_empty (trim_space key) ≡ false
  unfolding check_receipt
  check_receipt-key s scope key hash h = ground arith

  replay_event-replayed :
      (s : Store) (req : CaseEventRequest) {r : Applied} {t : Store}
      → replay_event c s req ≡ ok (r, t)
      → r.replayed ≡ true
  unfolding replay_event
  replay_event-replayed s req h =
      let (_, _, h₁) = bind_ok (or_missing (s.cases req.case_id).projection not_found) _ h in
      let (head, _, h₂) = bind_ok (or_missing (s.cases req.case_id).head not_found) _ h₁ in
      let (_, _, h₃) =
        bind_ok (case_event_by_sequence head.sequence (s.cases req.case_id).events) _ h₂ in
      sym (ap (λ (x : Applied × Store). x.0.replayed) (ok-injective h₃))

  apply_case_event-IsFirst :
      (s : Store) (req : CaseEventRequest) {r : Applied} {t : Store}
      → apply_case_event c s req ≡ ok (r, t)
      → r.replayed ≡ false
      → IsFirst s req r t
  unfolding apply_case_event
  apply_case_event-IsFirst s req {r} {t} h new =
      let (_, _, h₁) = bind_ok (require (valid_case_id req.case_id) invalid_id) _ h in
      let (receipt, found, h₂) =
        bind_ok (check_receipt c s (case_scope req) req.idempotency_key (request_hash c req)) _
          h₁ in
      record {
        key = check_receipt-key s (case_scope req) req.idempotency_key (request_hash c req) found;
        accepted = by_receipt receipt h₂;
      }
    where
      by_receipt :
          (o : Option IdempotencyReceipt)
          → elim o [ some _ ↦ replay_event c s req | none ↦ new_event c s req ] ≡ ok (r, t)
          → IsAccepted c s req r t
      by_receipt none k = new_event-accepts c s req k
      by_receipt (some _) k = cc (replay_event-replayed s req k, new)

  module _ (s : Store) (req : CaseEventRequest) (h : CaseHead) (next : CaseProjection)
      (at : Text) where
    abbrev e : CaseEvent
    e = event_after c req.case_id h req at

    abbrev p : CaseProjection
    p = projection_after c req.case_id e next at

    abbrev committed : Store
    committed = (commit_event c s req h next at).1

    committed_files :
        committed.cases req.case_id ≡ files_after c req.case_id (s.cases req.case_id) e p
    unfolding commit_event put_case append_audit save_receipt
    committed_files = rw (eq_text_refl req.case_id) refl

    committed_receipt :
        is_empty (trim_space req.idempotency_key) ≡ false
        → check_receipt c committed (case_scope req) req.idempotency_key (request_hash c req)
          ≡ ok (
              some (record {
                scope = case_scope req;
                key_sha256 = c.sha256_hex req.idempotency_key;
                request_sha256 = request_hash c req;
                object_type = text "case";
                object_id = req.case_id;
                response_sha256 = c.sha256_hex (c.canonical_response p e);
                created_at = at;
              }))
    unfolding commit_event check_receipt save_receipt
    committed_receipt key =
        rw
          (
            key,
            eq_text_refl (c.sha256_hex (case_scope req)),
            eq_text_refl (c.sha256_hex req.idempotency_key),
            eq_text_refl (request_hash c req),
          )
          refl

    module _ {q : CaseProjection} (g : IsRecorded c req.case_id (s.cases req.case_id) q h)
        (room : length (s.cases req.case_id).events + 1 < 2 ^ 64)
        (expected : req.expected_revision ≡ q.revision)
        (moves : apply_transition c q req ≡ ok next) where
      committed_event :
          case_event_by_sequence e.sequence
            (files_after c req.case_id (s.cases req.case_id) e p).events
          ≡ ok e
      unfolding case_event_by_sequence build_case_event
      committed_event =
          rw
            (
              events_after c req.case_id req at g room refl expected moves,
              with_sequence-last e (length (s.cases req.case_id).events)
                  (s.cases req.case_id).events (ground (arith, g.sequence)) g.numbered,
            )
            refl

      committed-replays :
          is_empty (trim_space req.idempotency_key) ≡ false
          → apply_case_event c committed req
            ≡ ok (record { projection = p; event = e; replayed = true }, committed)
      unfolding apply_case_event replay_event
      committed-replays key =
          rw (g.valid, committed_receipt key, committed_files, committed_event) refl

      outdated :
          (other : CaseEventRequest)
          → other.expected_revision ≡ req.expected_revision
          → (other.expected_revision == e.revision) ≡ false
      unfolding build_case_event
      outdated other stale = ground (arith, stale, expected, g.current, g.revision, room)

      committed-conflicts :
          (other : CaseEventRequest)
          → other.case_id ≡ req.case_id
          → other.expected_revision ≡ req.expected_revision
          → check_receipt c committed
              (case_scope other)
              other.idempotency_key
              (request_hash c other)
            ≡ ok none
          → apply_case_event c committed other ≡ err revision_conflict
      unfolding apply_case_event new_event
      committed-conflicts other same stale unseen =
          let valid : valid_case_id other.case_id ≡ true = ap valid_case_id same ∙ g.valid in
          let files : committed.cases other.case_id
              ≡ files_after c req.case_id (s.cases req.case_id) e p =
            ap committed.cases same ∙ committed_files in
          rw (valid, unseen, files, outdated other stale) refl

  module _ (s : Store) (req : CaseEventRequest) {r : Applied} {t : Store}
      (decodes : (tenant : Text) (alerts : List Text) (grouping : Text)
        → c.decode_created (c.created_payload tenant alerts grouping)
          ≡ some (tenant, alerts, grouping))
      (reached : IsReached c s) (room : length (s.cases req.case_id).events + 1 < 2 ^ 64)
      (done : apply_case_event c s req ≡ ok (r, t)) (new : r.replayed ≡ false) where
    abbrev first : IsFirst s req r t
    first = apply_case_event-IsFirst s req done new

    abbrev g : IsAccepted c s req r t
    g = first.accepted

    recorded : IsRecorded c req.case_id (s.cases req.case_id) g.projection g.head
    recorded =
        IsGood-IsRecorded c req.case_id (s.cases req.case_id)
          (IsReached-IsGood c decodes reached req.case_id) g.stored g.headed

    -- In a store that the operations reach, with a sequence number left in the case, and for a codec
    -- that decodes the payload it wrote for a new case: a request sent again right after it appended an event is recognised. It succeeds, returns
    -- the same projection and the same event, marked as replayed, and changes nothing in the store.
    pub apply_case_event-twice : apply_case_event c t req ≡ ok (record r { replayed = true }, t)
    unfolding commit_event
    apply_case_event-twice =
        subst
          (λ (x : Applied × Store).
            apply_case_event c x.1 req ≡ ok (record x.0 { replayed = true }, x.1))
          g.commits
          (committed-replays s req g.head g.next g.at recorded room (ground (arith, g.expected))
            g.moves first.key)

    -- In a store that the operations reach, with a sequence number left in the case, and for a codec
    -- that decodes the payload it wrote for a new case: of two requests that expect the same revision of a case only one appends an event. Right
    -- after the first has, the second, unless the store holds its receipt, fails with a revision
    -- conflict.
    pub apply_case_event-conflicts :
        (other : CaseEventRequest)
        → other.case_id ≡ req.case_id
        → other.expected_revision ≡ req.expected_revision
        → check_receipt c t (case_scope other) other.idempotency_key (request_hash c other)
          ≡ ok none
        → apply_case_event c t other ≡ err revision_conflict
    apply_case_event-conflicts other same stale =
        subst
          (λ (x : Applied × Store).
            check_receipt c x.1 (case_scope other) other.idempotency_key (request_hash c other)
              ≡ ok none
            → apply_case_event c x.1 other ≡ err revision_conflict)
          g.commits
          (committed-conflicts s req g.head g.next g.at recorded room (ground (arith, g.expected))
            g.moves other same stale)
