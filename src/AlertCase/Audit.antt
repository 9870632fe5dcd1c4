-- ===== src/AlertCase/Audit.antt =====
-- The audit stream: each step appends at most one event, and VerifyAudit keeps accepting the stream.
use watchlist_platform.Base.{
  ℕ, ◌+◌, ◌^◌, ◌≤◌, ◌<◌, ◌≡◌, refl, sym, subst, ap, ◌∙◌, ◌⊎◌, inl, inr, Bool, true, List, [], ◌∷◌,
  ◌++◌, Option, All, All-append, length, length-append, ◌==◌, ◌&&◌, arith,
}
use watchlist_platform.Base.Result.{ok, require, require-eq-ok, bind_ok}
use watchlist_platform.Base.Text.{Text, text, eq_text, eq_text_refl}
use watchlist_platform.AlertCase.Types.{
  Raw, action_text, case_created, CreateAlertRequest, CreateCaseRequest, CaseEventRequest,
  AuditEvent, audit_chain_mismatch, audit_checksum_mismatch, Codec,
}
use watchlist_platform.AlertCase.Transition.{next_uint}
use watchlist_platform.AlertCase.Store.{
  Store, AuditHead, audit_precedes, audit_sequence, audit_digest, build_audit_event, append_audit,
  save_receipt, put_case,
}
use watchlist_platform.AlertCase.Operations.{Created, Applied, start_case, commit_event}
use watchlist_platform.AlertCase.Verify.{audit_loop, verify_audit, unhashed_audit}
use watchlist_platform.AlertCase.Replay.{write_file_last}
use watchlist_platform.AlertCase.Requests.{
  Keeps, IsAccepted, IsStarted, apply_case_event-accepts, create_case-starts,
}
use watchlist_platform.AlertCase.Alerts.{put_alert, record_alert, IsAlerted, create_alert-records}
use watchlist_platform.AlertCase.Reachable.{Step, created, applied, alerted}

unfoldable pub last_audit : Text → List AuditEvent → Text
last_audit previous [] = previous
last_audit previous (e ∷ es) = last_audit e.audit_sha256 es

All-audit_precedes :
    (e : AuditEvent) (n : ℕ) (es : List AuditEvent)
    → n < e.sequence
    → All (λ x. x.sequence ≤ n) es
    → All (λ x. audit_precedes x e ≡ true) es
unfolding audit_precedes
All-audit_precedes e n [] h a = tt
All-audit_precedes e n (x ∷ es) h a = (ground (arith, a.0), All-audit_precedes e n es h a.1)

All-audit_weaken :
    (m n : ℕ) (es : List AuditEvent)
    → m ≤ n
    → All (λ x. x.sequence ≤ m) es
    → All (λ x. x.sequence ≤ n) es
All-audit_weaken m n [] h a = tt
All-audit_weaken m n (x ∷ es) h a = (omega (arith, a.0), All-audit_weaken m n es h a.1)

last_audit-append :
    (previous : Text) (es : List AuditEvent) (e : AuditEvent)
    → last_audit previous (es ++ e ∷ []) ≡ e.audit_sha256
unfolding last_audit
last_audit-append previous [] e = refl
last_audit-append previous (x ∷ es) e = last_audit-append x.audit_sha256 es e

module _ (c : Codec) where
  -- The stream verifies, and the audit head is that of its last event.
  pub record IsChained (events : List AuditEvent) (head : Option AuditHead) : Type 0 where
    pub verified : audit_loop c 0 [] events ≡ ok tt
    pub sequence : audit_sequence c head ≡ length events
    pub digest : audit_digest c head ≡ last_audit [] events
    pub numbered : All (λ e. e.sequence ≤ length events) events

  abbrev pub IsAudited : Store → Type 0
  IsAudited s = IsChained s.audit s.audit_head

  abbrev linked : ℕ → Text → AuditEvent → Bool
  linked i previous e = e.sequence == next_uint i && eq_text e.previous_audit_sha256 previous

  abbrev hashed : AuditEvent → Bool
  hashed e = eq_text (c.sha256_hex (c.canonical_audit (unhashed_audit e))) e.audit_sha256

  audit_loop-append :
      (i : ℕ) (previous : Text) (es : List AuditEvent) (e : AuditEvent)
      → audit_loop c i previous es ≡ ok tt
      → linked (i + length es) (last_audit previous es) e ≡ true
      → hashed e ≡ true
      → audit_loop c i previous (es ++ e ∷ []) ≡ ok tt
  unfolding audit_loop last_audit
  audit_loop-append i previous [] e h l d =
      let l' : linked i previous e ≡ true =
        subst (λ k. linked k previous e ≡ true) (omega arith) l in
      rw (l', d) refl
  audit_loop-append i previous (x ∷ es) e h l d =
      let (_, l₁, h₁) = bind_ok (require (linked i previous x) audit_chain_mismatch) _ h in
      let (_, d₁, h₂) = bind_ok (require (hashed x) audit_checksum_mismatch) _ h₁ in
      rw
        (
          require-eq-ok (linked i previous x) audit_chain_mismatch l₁,
          require-eq-ok (hashed x) audit_checksum_mismatch d₁,
        )
        (audit_loop-append (i + 1) x.audit_sha256 es e h₂
          (subst (λ k. linked k (last_audit x.audit_sha256 es) e ≡ true) (omega arith) l) d)

  module _ (s : Store) (at : Text) (action actor object_type object_id : Text) (details : Raw)
      (g : IsAudited s) (room : length s.audit + 1 < 2 ^ 64) where
    abbrev e : AuditEvent
    e = build_audit_event c s at action actor object_type object_id details

    abbrev t : Store
    t = append_audit c at action actor object_type object_id details s

    numbered_next : e.sequence ≡ length s.audit + 1
    unfolding build_audit_event
    numbered_next = ground (arith, g.sequence)

    append_audit-last : t.audit ≡ s.audit ++ e ∷ []
    unfolding append_audit
    append_audit-last =
        write_file_last audit_precedes e s.audit
          (All-audit_precedes e (length s.audit) s.audit (omega (arith, numbered_next)) g.numbered)

    event_linked : linked (0 + length s.audit) (last_audit [] s.audit) e ≡ true
    unfolding build_audit_event
    event_linked = ground (arith, g.sequence, g.digest, eq_text_refl (last_audit [] s.audit))

    event_hashed : hashed e ≡ true
    unfolding build_audit_event
    event_hashed = eq_text_refl e.audit_sha256

    append_audit-IsAudited : IsAudited t
    unfolding append_audit
    append_audit-IsAudited = record {
      verified =
          ap (audit_loop c 0 []) append_audit-last
          ∙ audit_loop-append 0 [] s.audit e g.verified event_linked event_hashed;
      sequence =
          numbered_next
          ∙ sym (ap length append_audit-last ∙ length-append s.audit (e ∷ []) ∙ omega arith);
      digest = sym (ap (last_audit []) append_audit-last ∙ last_audit-append [] s.audit e);
      numbered =
          subst (λ (k : List AuditEvent). All (λ x. x.sequence ≤ length k) k)
            (sym append_audit-last)
            (All-append (λ x. x.sequence ≤ length (s.audit ++ e ∷ [])) s.audit (e ∷ [])
              (All-audit_weaken (length s.audit) (length (s.audit ++ e ∷ [])) s.audit
                (omega (arith, length-append s.audit (e ∷ []))) g.numbered)
              (omega (arith, numbered_next, length-append s.audit (e ∷ [])), tt));
    }

  abbrev pub Grows : Store → Store → Type 0
  Grows s t = (t.audit ≡ s.audit) ⊎ ((e : AuditEvent) × (t.audit ≡ s.audit ++ e ∷ []))

  IsAudited-kept : (s t : Store) → Keeps s t → IsAudited s → IsAudited t × Grows s t
  IsAudited-kept s t k g = (
    subst (λ (x : Option AuditHead). IsChained t.audit x) (sym k.2)
        (subst (λ (x : List AuditEvent). IsChained x s.audit_head) (sym k.1) g),
    inl k.1,
  )

  started-IsAudited :
      (s : Store) (req : CreateCaseRequest) {r : Created} {t : Store}
      → length s.audit + 1 < 2 ^ 64
      → IsAudited s
      → IsStarted c s req r t
      → IsAudited t × Grows s t
  unfolding start_case put_case append_audit build_audit_event save_receipt
  started-IsAudited s req room g a =
      subst (λ (x : Created × Store). IsAudited x.1 × Grows s x.1) a.starts
        (
          append_audit-IsAudited s a.at (action_text case_created) req.created_by (text "case") a.id
              _ g room,
          inr (
            _,
            append_audit-last s a.at (action_text case_created) req.created_by (text "case") a.id _
                g room,
          ),
        )

  accepted-IsAudited :
      (s : Store) (req : CaseEventRequest) {r : Applied} {t : Store}
      → length s.audit + 1 < 2 ^ 64
      → IsAudited s
      → IsAccepted c s req r t
      → IsAudited t × Grows s t
  unfolding commit_event put_case append_audit build_audit_event save_receipt
  accepted-IsAudited s req room g a =
      subst (λ (x : Applied × Store). IsAudited x.1 × Grows s x.1) a.commits
        (
          append_audit-IsAudited s a.at (action_text req.action) req.actor (text "case") req.case_id
              _ g room,
          inr (
            _,
            append_audit-last s a.at (action_text req.action) req.actor (text "case") req.case_id _
                g room,
          ),
        )

  alerted-IsAudited :
      (s : Store) (req : CreateAlertRequest) {t : Store}
      → length s.audit + 1 < 2 ^ 64
      → IsAudited s
      → IsAlerted c s req t
      → IsAudited t × Grows s t
  unfolding record_alert put_alert append_audit build_audit_event save_receipt
  alerted-IsAudited s req room g a =
      subst (λ x. IsAudited x × Grows s x) a.records
        (
          append_audit-IsAudited s a.alert.created_at (text "alert_created") (text "system")
              (text "alert") a.alert.alert_id _ g room,
          inr (
            _,
            append_audit-last s a.alert.created_at (text "alert_created") (text "system")
                (text "alert") a.alert.alert_id _ g room,
          ),
        )

  Step-IsAudited :
      {s t : Store}
      → IsAudited s
      → length s.audit + 1 < 2 ^ 64
      → Step c s t
      → IsAudited t × Grows s t
  Step-IsAudited {s} g room (created req r t h) = by_case (create_case-starts c s req h)
    where
      by_case : Keeps s t ⊎ IsStarted c s req r t → IsAudited t × Grows s t
      by_case (inl same) = IsAudited-kept s t same g
      by_case (inr a) = started-IsAudited s req room g a
  Step-IsAudited {s} g room (applied req r t left h) = by_case (apply_case_event-accepts c s req h)
    where
      by_case : (t ≡ s) ⊎ IsAccepted c s req r t → IsAudited t × Grows s t
      by_case (inl same) = subst (λ x. IsAudited x × Grows s x) (sym same) (g, inl refl)
      by_case (inr a) = accepted-IsAudited s req room g a
  Step-IsAudited {s} g room (alerted req built r t h) =
      by_case (create_alert-records c s req built h)
    where
      by_case : Keeps s t ⊎ IsAlerted c s req t → IsAudited t × Grows s t
      by_case (inl same) = IsAudited-kept s t same g
      by_case (inr a) = alerted-IsAudited s req room g a

  -- From a store whose audit stream verifies, with its last event in the audit head and a sequence
  -- number left, a call that returns without an error, of CreateCase, of ApplyCaseEvent with a sequence
  -- number left in the case, or of CreateAlert for any alert that BuildAlert returns, leads to such a
  -- store; VerifyAudit accepts its stream and returns the number of events; and the stream is the old
  -- one, with at most one event appended.
  pub Step-verify_audit :
      {s t : Store}
      → IsAudited s
      → length s.audit + 1 < 2 ^ 64
      → Step c s t
      → IsAudited t × (verify_audit c t ≡ ok (length t.audit)) × Grows s t
  unfolding verify_audit
  Step-verify_audit g room step =
      let (kept, grows) = Step-IsAudited g room step in (kept, rw kept.verified refl, grows)
