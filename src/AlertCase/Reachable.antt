-- ===== src/AlertCase/Reachable.antt =====
-- Every store that CreateCase, ApplyCaseEvent and CreateAlert reach: each case in it replays to its
-- projection.
use watchlist_platform.Base.{
  ◌+◌, ◌^◌, ◌<◌, ◌≡◌, refl, sym, subst, ap, ◌∙◌, ◌⊎◌, inl, inr, Bool, true, false, List, [], none,
  some, length, arith, if◌then◌else◌,
}
use watchlist_platform.Base.Result.{Result, ok}
use watchlist_platform.Base.Text.{Text, eq_text, eq_text_refl, eq_text_iff}
use watchlist_platform.AlertCase.Types.{
  CaseEventRequest, CreateCaseRequest, CaseEvent, CaseHead, CaseProjection, CreateAlertRequest,
  AlertRecord, CaseError, Codec,
}
use watchlist_platform.AlertCase.Store.{
  CaseFiles, Store, put_case, write_file, event_precedes, append_audit, save_receipt, head_of,
}
use watchlist_platform.AlertCase.Operations.{
  Created, Applied, create_case, start_case, apply_case_event, commit_event, initial_projection,
}
use watchlist_platform.AlertCase.Alerts.{Alerted, create_alert, create_alert-cases}
use watchlist_platform.AlertCase.Verify.{verify_case}
use watchlist_platform.AlertCase.Lifecycle.{IsSound}
use watchlist_platform.AlertCase.Replay.{last_digest}
use watchlist_platform.AlertCase.Invariant.{
  IsRecorded, event_after, projection_after, files_after, files_after-IsRecorded, first_event,
  first_files-IsRecorded,
}
use watchlist_platform.AlertCase.Requests.{
  Keeps, IsAccepted, IsStarted, apply_case_event-accepts, create_case-starts,
}

abbrev pub no_files : CaseFiles
no_files = record { events = []; projection = none; head = none }

put_case-each {κ} :
    (P : Text → CaseFiles → Type κ) (id : Text) (files : CaseFiles) (s : Store)
    → P id files
    → ((j : Text) → P j (s.cases j))
    → (j : Text) → P j ((put_case id files s).cases j)
unfolding put_case
put_case-each P id files s new old j = at_test (eq_text j id) (λ h. (eq_text_iff j id).0 h)
  where
    at_test : (b : Bool) → (b ≡ true → j ≡ id) → P j (if b then files else s.cases j)
    at_test true same = subst (λ k. P k files) (sym (same refl)) new
    at_test false same = old j

module _ (c : Codec) where
  -- A step of the store: a case is created, an event is applied to a case with a sequence number left,
  -- or an alert is created, for what BuildAlert returns.
  pub data Step (s : Store) : Store → Type 0 where
    created :
        (req : CreateCaseRequest) (r : Created) (t : Store)
        → create_case c s req ≡ ok (r, t)
        → Step s t
    applied :
        (req : CaseEventRequest) (r : Applied) (t : Store)
        → length (s.cases req.case_id).events + 1 < 2 ^ 64
        → apply_case_event c s req ≡ ok (r, t)
        → Step s t
    alerted :
        (req : CreateAlertRequest) (built : Result CaseError AlertRecord) (r : Alerted) (t : Store)
        → create_alert c s req built ≡ ok (r, t)
        → Step s t

  -- the stores reached from one without cases
  pub data IsReached : Store → Type 0 where
    fresh : (s : Store) → ((id : Text) → s.cases id ≡ no_files) → IsReached s
    after : (s t : Store) → IsReached s → Step s t → IsReached t

  pub record IsReplayable (id : Text) (f : CaseFiles) : Type 0 where
    pub projection : CaseProjection
    pub head : CaseHead
    pub recorded : IsRecorded c id f projection head

  abbrev IsGood : Text → CaseFiles → Type 0
  IsGood id f = (f ≡ no_files) ⊎ IsReplayable id f

  IsGood-events : (id : Text) (f : CaseFiles) → IsGood id f → f.head ≡ none → f.events ≡ []
  IsGood-events id f (inl new) h = ap (λ (x : CaseFiles). x.events) new
  IsGood-events id f (inr g) h = cc (g.recorded.headed, h)

  pub IsGood-IsRecorded :
      (id : Text) (f : CaseFiles) {p : CaseProjection} {h : CaseHead}
      → IsGood id f
      → f.projection ≡ some p
      → f.head ≡ some h
      → IsRecorded c id f p h
  IsGood-IsRecorded id f {p} {h} (inl new) stored headed =
      cc (ap (λ (x : CaseFiles). x.head) new, headed)
  IsGood-IsRecorded id f {p} {h} (inr g) stored headed =
      let same_projection : g.projection ≡ p = cc (g.recorded.stored, stored) in
      let same_head : g.head ≡ h = cc (g.recorded.headed, headed) in
      subst (λ k. IsRecorded c id f p k) same_head
        (subst (λ k. IsRecorded c id f k g.head) same_projection g.recorded)

  started-IsGood :
      (s : Store) (req : CreateCaseRequest) {r : Created} {t : Store}
      → ((tenant : Text) (alerts : List Text) (grouping : Text)
          → c.decode_created (c.created_payload tenant alerts grouping)
            ≡ some (tenant, alerts, grouping))
      → ((id : Text) → IsGood id (s.cases id))
      → IsStarted c s req r t
      → (id : Text) → IsGood id (t.cases id)
  unfolding start_case append_audit save_receipt
  started-IsGood s req decodes good g j =
      let e =
        first_event c g.id req.tenant_id g.alerts req.grouping_key req.created_by req.reason g.at in
      let p =
        initial_projection c g.id req.tenant_id g.alerts req.grouping_key g.at e.event_sha256 in
      let files : List CaseEvent → CaseFiles =
        λ events. record { events = events; projection = some p; head = some (head_of e) } in
      let first : IsGood g.id (files (write_file event_precedes e (s.cases g.id).events)) =
        subst (λ k. IsGood g.id (files (write_file event_precedes e k)))
          (sym (IsGood-events g.id (s.cases g.id) (good g.id) g.headless))
          (inr (record {
            projection = p;
            head = head_of e;
            recorded =
                first_files-IsRecorded c g.id req.tenant_id g.alerts req.grouping_key req.created_by
                  req.reason g.at (decodes req.tenant_id g.alerts req.grouping_key) g.valid;
          })) in
      subst (λ (x : Created × Store). IsGood j (x.1.cases j)) g.starts
        (put_case-each IsGood g.id (files (write_file event_precedes e (s.cases g.id).events)) s
          first good j)

  accepted-IsGood :
      (s : Store) (req : CaseEventRequest) {r : Applied} {t : Store}
      → length (s.cases req.case_id).events + 1 < 2 ^ 64
      → ((id : Text) → IsGood id (s.cases id))
      → IsAccepted c s req r t
      → (id : Text) → IsGood id (t.cases id)
  unfolding commit_event append_audit save_receipt
  accepted-IsGood s req room good g j =
      let e = event_after c req.case_id g.head req g.at in
      let p = projection_after c req.case_id e g.next g.at in
      let files = files_after c req.case_id (s.cases req.case_id) e p in
      subst (λ (x : Applied × Store). IsGood j (x.1.cases j)) g.commits
        (put_case-each IsGood req.case_id files s
          (inr (record {
            projection = p;
            head = head_of e;
            recorded =
                files_after-IsRecorded c req.case_id req g.at
                  (IsGood-IsRecorded req.case_id (s.cases req.case_id) (good req.case_id) g.stored
                    g.headed)
                  room refl (ground (arith, g.expected)) g.moves (ground (arith, g.complete));
          }))
          good j)

  Step-IsGood :
      {s t : Store}
      → ((tenant : Text) (alerts : List Text) (grouping : Text)
          → c.decode_created (c.created_payload tenant alerts grouping)
            ≡ some (tenant, alerts, grouping))
      → ((id : Text) → IsGood id (s.cases id))
      → Step s t
      → (id : Text) → IsGood id (t.cases id)
  Step-IsGood {s} decodes good (created req r t h) id = by_case (create_case-starts c s req h)
    where
      by_case : Keeps s t ⊎ IsStarted c s req r t → IsGood id (t.cases id)
      by_case (inl same) = subst (λ (k : Text → CaseFiles). IsGood id (k id)) (sym same.0) (good id)
      by_case (inr g) = started-IsGood s req decodes good g id
  Step-IsGood {s} decodes good (applied req r t room h) id =
      by_case (apply_case_event-accepts c s req h)
    where
      by_case : (t ≡ s) ⊎ IsAccepted c s req r t → IsGood id (t.cases id)
      by_case (inl same) = subst (λ (k : Store). IsGood id (k.cases id)) (sym same) (good id)
      by_case (inr g) = accepted-IsGood s req room good g id
  Step-IsGood {s} decodes good (alerted req built r t h) id =
      subst (λ (k : Text → CaseFiles). IsGood id (k id)) (sym (create_alert-cases c s req built h))
        (good id)

  pub IsReached-IsGood :
      {s : Store}
      → ((tenant : Text) (alerts : List Text) (grouping : Text)
          → c.decode_created (c.created_payload tenant alerts grouping)
            ≡ some (tenant, alerts, grouping))
      → IsReached s
      → (id : Text) → IsGood id (s.cases id)
  IsReached-IsGood decodes (fresh s new) id = inl (new id)
  IsReached-IsGood decodes (after s t reached step) id =
      Step-IsGood decodes (IsReached-IsGood decodes reached) step id

  IsGood-IsReplayable :
      (id : Text) (f : CaseFiles) {p : CaseProjection}
      → IsGood id f
      → f.projection ≡ some p
      → IsReplayable id f
  IsGood-IsReplayable id f (inl new) stored = cc (ap (λ (x : CaseFiles). x.projection) new, stored)
  IsGood-IsReplayable id f (inr o) stored = o

  IsRecorded-verifies :
      (s : Store) (id : Text) {p : CaseProjection} {h : CaseHead}
      → IsRecorded c id (s.cases id) p h
      → verify_case c s id ≡ ok p
  unfolding verify_case
  IsRecorded-verifies s id {p} {h} g =
      rw (g.valid, g.nonempty, g.replays, g.stored, eq_text_refl (c.canonical_projection p)) refl

  -- In every store that the operations reach from one without cases, for a codec that decodes the
  -- payload it wrote for a new case, and with a sequence number left at each event: a case that has a
  -- projection passes VerifyCase, which replays its log of events to that very projection; the head is
  -- that of the last event; the revision of the projection is the number of events; and its decision
  -- fields are sound.
  pub IsReached-verifies :
      {s : Store}
      → ((tenant : Text) (alerts : List Text) (grouping : Text)
          → c.decode_created (c.created_payload tenant alerts grouping)
            ≡ some (tenant, alerts, grouping))
      → IsReached s
      → (id : Text) (p : CaseProjection) → (s.cases id).projection ≡ some p
      → (verify_case c s id ≡ ok p)
        × (p.revision ≡ length (s.cases id).events)
        × IsSound p
        × ((h : CaseHead)
            → (s.cases id).head ≡ some h
            → (h.sequence ≡ p.revision) × (h.event_sha256 ≡ last_digest [] (s.cases id).events))
  IsReached-verifies {s} decodes reached id p stored =
      let o = IsGood-IsReplayable id (s.cases id) (IsReached-IsGood decodes reached id) stored in
      let g = IsGood-IsRecorded id (s.cases id) (inr o) stored o.recorded.headed in
      (
        IsRecorded-verifies s id g,
        g.current,
        g.sound,
        λ h headed.
            let k = IsGood-IsRecorded id (s.cases id) (inr o) stored headed in
            (k.sequence ∙ sym k.current, k.digest),
      )
