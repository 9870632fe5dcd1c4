-- ===== src/AlertCase/Invariant.antt =====
-- The invariant of one case's directory, and its preservation by the writes of CreateCase and ApplyCaseEvent.
use watchlist_platform.Base.{
  ℕ, ◌+◌, ◌^◌, ◌≤◌, ◌<◌, ◌≡◌, refl, sym, subst, ap, ◌∙◌, true, false, List, [], ◌∷◌, ◌++◌, some,
  All, All-append, is_empty, length, length-append, arith,
}
use watchlist_platform.Base.Result.{ok}
use watchlist_platform.Base.Text.{Text, text, eq_text_refl}
use watchlist_platform.AlertCase.Types.{
  case_created, CaseEventRequest, CaseEvent, CaseHead, CaseProjection, Codec,
}
use watchlist_platform.AlertCase.Transition.{next_uint, apply_transition}
use watchlist_platform.AlertCase.Store.{
  CaseFiles, valid_case_id, write_file, event_precedes, build_case_event, head_of,
}
use watchlist_platform.AlertCase.Operations.{initial_projection}
use watchlist_platform.AlertCase.Verify.{zero_projection, replay_step, verify_loop, unhashed_event}
use watchlist_platform.AlertCase.Lifecycle.{
  IsSound, apply_transition-IsSound, apply_transition-same, apply_transition-not_created,
}
use watchlist_platform.AlertCase.Replay.{
  last_digest, last_digest-append, write_file_last, IsNext, verify_loop-append,
}

module _ (c : Codec) (id : Text) where
  -- The events replay to the stored projection, the head is that of the last event, and no event
  -- comes after it.
  pub record IsRecorded (f : CaseFiles) (p : CaseProjection) (h : CaseHead) : Type 0 where
    pub stored : f.projection ≡ some p
    pub headed : f.head ≡ some h
    pub valid : valid_case_id id ≡ true
    pub replays : verify_loop c id 0 [] zero_projection f.events ≡ ok p
    pub nonempty : is_empty f.events ≡ false
    pub sequence : h.sequence ≡ length f.events
    pub revision : h.revision ≡ length f.events
    pub current : p.revision ≡ length f.events
    pub digest : h.event_sha256 ≡ last_digest [] f.events
    pub numbered : All (λ e. e.sequence ≤ length f.events) f.events
    pub sound : IsSound p

  -- an event as ApplyCaseEvent builds it after the head
  abbrev pub event_after : CaseHead → CaseEventRequest → Text → CaseEvent
  event_after h req at =
      build_case_event c id (next_uint h.sequence) (next_uint h.revision) h.event_sha256 req.action
        req.actor req.reason at req.payload

  -- the projection that ApplyCaseEvent writes
  abbrev pub projection_after : CaseEvent → CaseProjection → Text → CaseProjection
  projection_after e next at = record next {
    revision = e.revision;
    updated_at = at;
    head_event_sha256 = e.event_sha256;
  }

  abbrev pub files_after : CaseFiles → CaseEvent → CaseProjection → CaseFiles
  files_after f e p = record {
    events = write_file event_precedes e f.events;
    projection = some p;
    head = some (head_of e);
  }

  next_uint_small : (n : ℕ) → n + 1 < 2 ^ 64 → next_uint n ≡ n + 1
  next_uint_small n h = ground arith

  replay_step-event_after :
      (h : CaseHead) (req : CaseEventRequest) (at : Text) (p : CaseProjection)
      {next : CaseProjection}
      → req.case_id ≡ id
      → req.expected_revision ≡ p.revision
      → apply_transition c p req ≡ ok next
      → replay_step c id p (event_after h req at)
        ≡ ok (projection_after (event_after h req at) next at)
  unfolding replay_step build_case_event
  replay_step-event_after h req at p {next} i r a =
      let replayed : apply_transition c p (record req {
        case_id = id;
        expected_revision = p.revision;
        occurred_at = at;
        idempotency_key = text "replay";
      })
          ≡ ok next =
        subst
          (λ k.
            apply_transition c p (record req {
              case_id = k;
              expected_revision = p.revision;
              occurred_at = at;
              idempotency_key = text "replay";
            })
            ≡ ok next)
          i
          (subst
            (λ k.
              apply_transition c p (record req {
                expected_revision = k;
                occurred_at = at;
                idempotency_key = text "replay";
              })
              ≡ ok next)
            r (apply_transition-same c p req at req.reason (text "replay") ∙ a)) in
      rw (apply_transition-not_created c p req a, replayed) refl

  event_after-IsNext :
      {f : CaseFiles} {p : CaseProjection} {h : CaseHead} (req : CaseEventRequest) (at : Text)
      {next : CaseProjection}
      → IsRecorded f p h
      → length f.events + 1 < 2 ^ 64
      → req.case_id ≡ id
      → req.expected_revision ≡ p.revision
      → apply_transition c p req ≡ ok next
      → IsNext c id
          (0 + length f.events)
          (last_digest [] f.events)
          p
          (event_after h req at)
          (projection_after (event_after h req at) next at)
  unfolding build_case_event
  event_after-IsNext {h = h} req at g room i r a = record {
    links = ground (arith, g.sequence, g.revision, g.digest, eq_text_refl h.event_sha256);
    digest = eq_text_refl _;
    step = replay_step-event_after h req at _ i r a;
  }

  is_empty-append : (es : List CaseEvent) (e : CaseEvent) → is_empty (es ++ e ∷ []) ≡ false
  is_empty-append [] e = refl
  is_empty-append (x ∷ es) e = refl

  All-event_precedes :
      (e : CaseEvent) (n : ℕ) (es : List CaseEvent)
      → n < e.sequence
      → All (λ x. x.sequence ≤ n) es
      → All (λ x. event_precedes x e ≡ true) es
  unfolding event_precedes
  All-event_precedes e n [] h a = tt
  All-event_precedes e n (x ∷ es) h a = (ground (arith, a.0), All-event_precedes e n es h a.1)

  All-sequence_weaken :
      (m n : ℕ) (es : List CaseEvent)
      → m ≤ n
      → All (λ x. x.sequence ≤ m) es
      → All (λ x. x.sequence ≤ n) es
  All-sequence_weaken m n [] h a = tt
  All-sequence_weaken m n (x ∷ es) h a = (omega (arith, a.0), All-sequence_weaken m n es h a.1)

  IsSound-projection_after :
      (e : CaseEvent) (p : CaseProjection) (at : Text)
      → IsSound p
      → IsSound (projection_after e p at)
  IsSound-projection_after e p at s = record { pending = s.pending; settled = s.settled }

  module _ {f : CaseFiles} {p : CaseProjection} {h : CaseHead} (req : CaseEventRequest) (at : Text)
      {next : CaseProjection} (g : IsRecorded f p h) (room : length f.events + 1 < 2 ^ 64)
      (i : req.case_id ≡ id) (r : req.expected_revision ≡ p.revision)
      (a : apply_transition c p req ≡ ok next) where
    abbrev e : CaseEvent
    e = event_after h req at

    numbered_next : (e.sequence ≡ length f.events + 1) × (e.revision ≡ length f.events + 1)
    unfolding build_case_event
    numbered_next = ground (arith, g.sequence, g.revision)

    pub events_after : (files_after f e (projection_after e next at)).events ≡ f.events ++ e ∷ []
    events_after = write_file_last event_precedes e f.events (
        All-event_precedes e (length f.events) f.events (omega (arith, numbered_next.0)) g.numbered)

    events_count :
        length (files_after f e (projection_after e next at)).events ≡ length f.events + 1
    events_count = ap length events_after ∙ (length-append f.events (e ∷ []) ∙ omega arith)

    pub files_after-IsRecorded :
        is_empty req.actor ≡ false
        → IsRecorded
            (files_after f e (projection_after e next at))
            (projection_after e next at)
            (head_of e)
    files_after-IsRecorded actor = record {
      stored = refl;
      headed = refl;
      valid = g.valid;
      replays =
          ap (verify_loop c id 0 [] zero_projection) events_after
          ∙ verify_loop-append c id 0 [] zero_projection f.events e p g.replays
              (event_after-IsNext req at g room i r a);
      nonempty = ap is_empty events_after ∙ is_empty-append f.events e;
      sequence = numbered_next.0 ∙ sym events_count;
      revision = numbered_next.1 ∙ sym events_count;
      current = numbered_next.1 ∙ sym events_count;
      digest = sym (ap (last_digest []) events_after ∙ last_digest-append [] f.events e);
      numbered =
          subst (λ (k : List CaseEvent). All (λ x. x.sequence ≤ length k) k) (sym events_after)
            (All-append (λ x. x.sequence ≤ length (f.events ++ e ∷ [])) f.events (e ∷ [])
              (All-sequence_weaken (length f.events) (length (f.events ++ e ∷ [])) f.events
                (omega (arith, length-append f.events (e ∷ []))) g.numbered)
              (omega (arith, numbered_next.0, length-append f.events (e ∷ [])), tt));
      sound = IsSound-projection_after e next at (apply_transition-IsSound c p req actor g.sound a);
    }

  -- the first event of a case
  abbrev pub first_event : Text → List Text → Text → Text → Text → Text → CaseEvent
  first_event tenant alerts grouping actor reason at =
      build_case_event c id 1 1 [] case_created actor reason at
        (c.created_payload tenant alerts grouping)

  pub first_files-IsRecorded :
      (tenant : Text) (alerts : List Text) (grouping actor reason at : Text)
      → c.decode_created (c.created_payload tenant alerts grouping)
        ≡ some (tenant, alerts, grouping)
      → valid_case_id id ≡ true
      → (let e = first_event tenant alerts grouping actor reason at in
          let p = initial_projection c id tenant alerts grouping at e.event_sha256 in
          IsRecorded
            (record { events = e ∷ []; projection = some p; head = some (head_of e) })
            p
            (head_of e))
  unfolding build_case_event initial_projection verify_loop replay_step last_digest
  first_files-IsRecorded tenant alerts grouping actor reason at d v = record {
    stored = refl;
    headed = refl;
    valid = v;
    replays =
        let e = first_event tenant alerts grouping actor reason at in
        rw (eq_text_refl (c.sha256_hex (c.canonical_event (unhashed_event e))), d) refl;
    nonempty = refl;
    sequence = refl;
    revision = refl;
    current = refl;
    digest = refl;
    numbered = (omega arith, tt);
    sound = record { pending = λ h. cc; settled = λ h. cc };
  }
