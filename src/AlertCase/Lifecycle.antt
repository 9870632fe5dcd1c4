-- ===== src/AlertCase/Lifecycle.antt =====
-- What one transition of a case guarantees: the four-eyes rule, and the soundness of the decision fields.
use watchlist_platform.Base.{
  ◌≡◌, ◌≢◌, ◌↔◌, refl, sym, ap, ◌∙◌, Bool, true, false, ◌||◌, [], is_empty, arith,
}
use watchlist_platform.Base.Result.{Result, ok, ◌>>=◌, require, require-eq-ok, bind_ok}
use watchlist_platform.Base.Text.{Text, eq_text_iff}
use watchlist_platform.AlertCase.Types.{
  pending_approval, resolved, reopened, Action, case_created, assign, approve_decision, reopen,
  CaseEventRequest, CaseProjection, CaseError, payload_invalid, Codec,
}
use watchlist_platform.AlertCase.Transition.{dispatch, apply_transition}
use watchlist_platform.AlertCase.Verify.{is_created}

-- A decision awaits approval or is resolved exactly with a proposer and a proposal on record, and a
-- resolved case has an approved decision.
pub record IsSound (p : CaseProjection) : Type 0 where
  pub pending :
      p.state ≡ pending_approval
      → (is_empty p.decision_proposer ≡ false) × (is_empty p.proposed_decision ≡ false)
  pub settled :
      p.state ≡ resolved
      → (is_empty p.decision_proposer ≡ false) × (is_empty p.approved_decision ≡ false)

module _ (c : Codec) where
  dispatch-IsSound :
      (a : Action) (p : CaseProjection) (req : CaseEventRequest) {q : CaseProjection}
      → is_empty req.actor ≡ false
      → IsSound p
      → dispatch c a p req ≡ ok q
      → IsSound q
  unfolding dispatch
  dispatch-IsSound case_created p req actor s h = cc
  dispatch-IsSound _ p req actor s h = ground arith

  pub dispatch-of_apply :
      (p : CaseProjection) (req : CaseEventRequest) {q : CaseProjection}
      → apply_transition c p req ≡ ok q
      → dispatch c req.action p req ≡ ok q
  unfolding apply_transition
  dispatch-of_apply p req h =
      (bind_ok (require (is_empty req.payload || c.payload_object req.payload) payload_invalid)
        (λ _. dispatch c req.action p req) h).2

  pub apply_transition-IsSound :
      (p : CaseProjection) (req : CaseEventRequest) {q : CaseProjection}
      → is_empty req.actor ≡ false
      → IsSound p
      → apply_transition c p req ≡ ok q
      → IsSound q
  apply_transition-IsSound p req actor s h =
      dispatch-IsSound req.action p req actor s (dispatch-of_apply p req h)

  -- the case after an approval, and after it is reopened
  abbrev pub approved_case : CaseProjection → CaseProjection
  approved_case p = record p { approved_decision = p.proposed_decision; state = resolved }

  abbrev pub reopened_case : CaseProjection → CaseProjection
  reopened_case p = record p { state = reopened; decision_proposer = []; proposed_decision = [] }

  dispatch-resolves :
      (a : Action) (p : CaseProjection) (req : CaseEventRequest) (q : CaseProjection)
      → dispatch c a p req ≡ ok q
      → q.state ≡ resolved
      → (a ≡ approve_decision)
        × (p.state ≡ pending_approval)
        × (is_empty p.decision_proposer ≡ false)
        × (p.decision_proposer ≢ req.actor)
        × (q ≡ approved_case p)
  unfolding dispatch
  dispatch-resolves case_created p req q h r = cc
  dispatch-resolves _ p req q h r = ground (arith, eq_text_iff p.decision_proposer req.actor)

  dispatch-approves :
      (p : CaseProjection) (req : CaseEventRequest)
      → p.state ≡ pending_approval
      → is_empty p.decision_proposer ≡ false
      → p.decision_proposer ≢ req.actor
      → dispatch c approve_decision p req ≡ ok (approved_case p)
  unfolding dispatch
  dispatch-approves p req s e n = ground (arith, eq_text_iff p.decision_proposer req.actor)

  dispatch-reopens :
      (a : Action) (p : CaseProjection) (req : CaseEventRequest) (q : CaseProjection)
      → dispatch c a p req ≡ ok q
      → p.state ≡ resolved
      → (a ≡ reopen) × (q ≡ reopened_case p)
  unfolding dispatch
  dispatch-reopens case_created p req q h r = cc
  dispatch-reopens _ p req q h r = ground arith

  dispatch-reopen :
      (p : CaseProjection) (req : CaseEventRequest)
      → p.state ≡ resolved
      → dispatch c reopen p req ≡ ok (reopened_case p)
  unfolding dispatch
  dispatch-reopen p req s = rw s refl

  abbrev pub readable : CaseEventRequest → Bool
  readable req = is_empty req.payload || c.payload_object req.payload

  apply_transition-of :
      (p : CaseProjection) (req : CaseEventRequest) (q : CaseProjection)
      → readable req ≡ true
      → dispatch c req.action p req ≡ ok q
      → apply_transition c p req ≡ ok q
  unfolding apply_transition
  apply_transition-of p req q r d = rw (r, d) refl

  readable-of_apply :
      (p : CaseProjection) (req : CaseEventRequest) (q : CaseProjection)
      → apply_transition c p req ≡ ok q
      → readable req ≡ true
  unfolding apply_transition
  readable-of_apply p req q h =
      let (_, r, _) = bind_ok (require (readable req) payload_invalid) _ h in
      require-eq-ok (readable req) payload_invalid r

  -- A transition leads to a resolved case exactly if the request approves the decision that is pending,
  -- its payload is empty or an object, and there is a proposer, who is another than the actor; the case
  -- is then the old one, resolved, with the proposed decision as the approved one. A transition of a
  -- resolved case is accepted exactly if the request reopens it and its payload is empty or an object;
  -- the case is then the old one, reopened, without a proposer and a proposed decision.
  pub apply_transition-resolves :
      (p : CaseProjection) (req : CaseEventRequest) (q : CaseProjection)
      → (((apply_transition c p req ≡ ok q) × (q.state ≡ resolved)) ↔ (
          (readable req ≡ true)
          × (req.action ≡ approve_decision)
          × (p.state ≡ pending_approval)
          × (is_empty p.decision_proposer ≡ false)
          × (p.decision_proposer ≢ req.actor)
          × (q ≡ approved_case p)))
        × (((apply_transition c p req ≡ ok q) × (p.state ≡ resolved)) ↔ (
            (readable req ≡ true)
            × (req.action ≡ reopen)
            × (p.state ≡ resolved)
            × (q ≡ reopened_case p)))
  apply_transition-resolves p req q = (
    (
      λ (h, r).
          let (a, s, e, n, same) =
            dispatch-resolves req.action p req q (dispatch-of_apply p req h) r in
          (readable-of_apply p req q h, a, s, e, n, same),
      λ (b, a, s, e, n, same). (
        apply_transition-of p req q b
            (ap (λ k. dispatch c k p req) a ∙ dispatch-approves p req s e n ∙ ap ok (sym same)),
        ap (λ (k : CaseProjection). k.state) same,
      ),
    ),
    (
      λ (h, r).
          let (a, same) = dispatch-reopens req.action p req q (dispatch-of_apply p req h) r in
          (readable-of_apply p req q h, a, r, same),
      λ (b, a, s, same). (
        apply_transition-of p req q b
            (ap (λ k. dispatch c k p req) a ∙ dispatch-reopen p req s ∙ ap ok (sym same)),
        s,
      ),
    ),
  )

  -- The time, the reason and the key of a request do not bear on the transition.
  dispatch-same :
      (a : Action) (p : CaseProjection) (req : CaseEventRequest) (at reason key : Text)
      → dispatch c a p (record req { occurred_at = at; reason = reason; idempotency_key = key })
        ≡ dispatch c a p req
  unfolding dispatch
  dispatch-same assign p req at reason key = refl
  dispatch-same _ p req at reason key = refl

  pub apply_transition-same :
      (p : CaseProjection) (req : CaseEventRequest) (at reason key : Text)
      → apply_transition c p
          (record req { occurred_at = at; reason = reason; idempotency_key = key })
        ≡ apply_transition c p req
  unfolding apply_transition
  apply_transition-same p req at reason key =
      ap
        (λ (r : Result CaseError CaseProjection).
          require (is_empty req.payload || c.payload_object req.payload) payload_invalid >>= λ _. r)
        (dispatch-same req.action p req at reason key)

  dispatch-not_created :
      (a : Action) (p : CaseProjection) (req : CaseEventRequest) {q : CaseProjection}
      → dispatch c a p req ≡ ok q
      → is_created a ≡ false
  unfolding dispatch
  dispatch-not_created case_created p req h = cc
  dispatch-not_created _ p req h = refl

  pub apply_transition-not_created :
      (p : CaseProjection) (req : CaseEventRequest) {q : CaseProjection}
      → apply_transition c p req ≡ ok q
      → is_created req.action ≡ false
  apply_transition-not_created p req h =
      dispatch-not_created req.action p req (dispatch-of_apply p req h)
