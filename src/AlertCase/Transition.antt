-- ===== src/AlertCase/Transition.antt =====
-- applyTransition of internal/alertcase/store.go, and sortedUnique and normalizeTime of canonical.go.
use watchlist_platform.Base.{
  ℕ, ◌+◌, ◌%◌, ◌^◌, Bool, true, false, ◌||◌, not, List, [], ◌∷◌, ◌++◌, none, some, is_empty, take,
  if◌then◌else◌,
}
use watchlist_platform.Base.Result.{Result, ok, err, ◌>>◌, require}
use watchlist_platform.Base.Text.{Text, text, eq_text, trim_space}
use watchlist_platform.Base.Sets.{unique_sorted}
use watchlist_platform.AlertCase.Types.{
  CaseState, case_open, assigned, investigating, pending_evidence, pending_approval, resolved,
  reopened, Action, assign, start_investigation, request_evidence, submit_evidence,
  propose_decision, approve_decision, reject_decision, reopen, link_rescreen, CaseEventRequest,
  CaseProjection, CaseError, time_missing, time_invalid, payload_invalid, not_allowed,
  assignee_missing, decision_missing, four_eyes, reopen_first, screening_event_missing,
  action_unsupported, Codec,
}

-- `n + 1` on uint64
abbrev pub next_uint : ℕ → ℕ
next_uint n = (n + 1) % 2 ^ 64

unfoldable pub sorted_unique : List Text → List Text
unfolding unique_sorted trim_space
sorted_unique values = unique_sorted trim_space values

unfoldable pub normalize_time : Codec → Text → Result CaseError Text
unfolding trim_space
normalize_time c v =
    if is_empty (trim_space v)
    then err time_missing
    else elim (c.parse_time v) [ none ↦ err time_invalid | some t ↦ ok t ]

-- the states in which each action is allowed
abbrev pub allows_assign : CaseState → Bool
allows_assign case_open = true
allows_assign assigned = true
allows_assign investigating = true
allows_assign reopened = true
allows_assign _ = false

abbrev pub allows_start : CaseState → Bool
allows_start assigned = true
allows_start reopened = true
allows_start _ = false

abbrev pub allows_request : CaseState → Bool
allows_request assigned = true
allows_request investigating = true
allows_request pending_evidence = true
allows_request _ = false

abbrev pub allows_submit : CaseState → Bool
allows_submit pending_evidence = true
allows_submit investigating = true
allows_submit _ = false

abbrev pub allows_propose : CaseState → Bool
allows_propose assigned = true
allows_propose investigating = true
allows_propose pending_evidence = true
allows_propose reopened = true
allows_propose _ = false

abbrev pub is_pending : CaseState → Bool
is_pending pending_approval = true
is_pending _ = false

abbrev pub is_resolved : CaseState → Bool
is_resolved resolved = true
is_resolved _ = false

module _ (c : Codec) where
  -- the closure getString
  unfoldable pub get_string : Text → CaseEventRequest → Text
  unfolding trim_space
  get_string key req = trim_space (c.as_string (c.payload_field key req.payload))

  -- the id of an evidence request or submission that the payload leaves out
  unfoldable pub default_id : Text → CaseEventRequest → Text
  default_id kind req =
      kind
      ++ take 24
          (c.sha256_hex (req.case_id ++ b':' ∷ c.format_uint (next_uint req.expected_revision)))

  unfoldable pub evidence_id : Text → Text → CaseEventRequest → Text
  unfolding get_string default_id
  evidence_id key kind req =
      let id = get_string key req in if is_empty id then default_id kind req else id

  -- `p.DecisionProposer == "" || p.DecisionProposer == req.Actor`
  unfoldable pub breaks_four_eyes : CaseProjection → CaseEventRequest → Bool
  unfolding eq_text
  breaks_four_eyes p req = is_empty p.decision_proposer || eq_text p.decision_proposer req.actor

  -- the `switch` on the action
  unfoldable pub dispatch :
      Action → CaseProjection → CaseEventRequest → Result CaseError CaseProjection
  unfolding get_string evidence_id breaks_four_eyes sorted_unique
  dispatch assign p req = do
    require (allows_assign p.state) not_allowed
    let assignee = get_string (text "assignee") req
    require (not (is_empty assignee)) assignee_missing
    ok (record p { assigned_to = assignee; state = assigned })
  dispatch start_investigation p req = do
    require (allows_start p.state) not_allowed
    ok (record p { state = investigating })
  dispatch request_evidence p req = do
    require (allows_request p.state) not_allowed
    let id = evidence_id (text "evidence_request_id") (text "evidence_request_") req
    ok (record p {
      evidence_request_ids = sorted_unique (p.evidence_request_ids ++ id ∷ []);
      state = pending_evidence;
    })
  dispatch submit_evidence p req = do
    require (allows_submit p.state) not_allowed
    let id = evidence_id (text "evidence_submission_id") (text "evidence_submission_") req
    ok (record p {
      evidence_submission_ids = sorted_unique (p.evidence_submission_ids ++ id ∷ []);
      state = investigating;
    })
  dispatch propose_decision p req = do
    require (allows_propose p.state) not_allowed
    let decision = c.payload_field (text "decision") req.payload
    require (not (is_empty decision || c.is_null decision)) decision_missing
    ok (record p {
      decision_proposer = req.actor;
      proposed_decision = decision;
      state = pending_approval;
    })
  dispatch approve_decision p req = do
    require (is_pending p.state) not_allowed
    require (not (breaks_four_eyes p req)) four_eyes
    ok (record p { approved_decision = p.proposed_decision; state = resolved })
  dispatch reject_decision p req = do
    require (is_pending p.state) not_allowed
    require (not (breaks_four_eyes p req)) four_eyes
    ok (record p { decision_proposer = []; proposed_decision = []; state = investigating })
  dispatch reopen p req = do
    require (is_resolved p.state) not_allowed
    ok (record p { state = reopened; decision_proposer = []; proposed_decision = [] })
  dispatch link_rescreen p req = do
    require (not (is_resolved p.state)) reopen_first
    let event = get_string (text "screening_event_id") req
    require (not (is_empty event)) screening_event_missing
    ok (record p { rescreen_event_ids = sorted_unique (p.rescreen_event_ids ++ event ∷ []) })
  dispatch _ p req = err action_unsupported

  -- applyTransition
  unfoldable pub apply_transition :
      CaseProjection → CaseEventRequest → Result CaseError CaseProjection
  unfolding dispatch
  apply_transition p req = do
    require (is_empty req.payload || c.payload_object req.payload) payload_invalid
    dispatch req.action p req
