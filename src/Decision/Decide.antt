-- ===== src/Decision/Decide.antt =====
-- internal/policyengine/evaluate.go: the gates of evaluate, and the decision it returns.
use watchlist_platform.Base.{
  Bool, ◌&&◌, not, List, [], ◌∷◌, ◌++◌, Option, none, some, is_empty, length, if◌then◌else◌,
}
use watchlist_platform.Base.Int.{ℤ, pos, lt_ℤ, le_ℤ}
use watchlist_platform.Base.Text.{Text, text}
use watchlist_platform.Decision.Types.{
  Disposition, disposition_clear, disposition_investigate, disposition_escalate, ReviewRoute,
  auto_release, standard_review, manual_review, escalation_review, Policy, PolicyReference, Overlay,
  OverlayReference, RuleTrace, Classification, Decision,
}
use watchlist_platform.Decision.Evaluate.{
  Codec, disposition_rank, disposition_text, hint_text, is_clear_eligible, is_manual_review,
  is_candidate_alert, is_supporting_evidence, canonical_strings, applied, reason_code, apply_rules,
}

-- Reference of a policy and of an overlay
abbrev pub reference : Policy → PolicyReference
reference p = record {
  policy_id = p.policy_id;
  policy_version = p.policy_version;
  policy_checksum = p.policy_checksum;
}

abbrev pub overlay_reference : Overlay → OverlayReference
overlay_reference o = record {
  overlay_id = o.overlay_id;
  overlay_version = o.overlay_version;
  overlay_checksum = o.overlay_checksum;
  tenant_id = o.tenant_id;
}

pub record Engine : Type 0 where
  pub base : Policy
  pub effective : Policy
  pub overlay : Option Overlay

unfoldable pub clamp_score : ℤ → ℤ
clamp_score score =
    let raised = if lt_ℤ score (pos 0) then pos 0 else score in
    if lt_ℤ (pos 10000) raised then pos 10000 else raised

-- what a gate adds to the local variables
pub record Verdict : Type 0 where
  pub disposition : Disposition
  pub review_route : ReviewRoute
  pub reasons : List Text
  pub blockers : List Text
  pub trace : List RuleTrace

module _ (c : Codec) (policy : Policy) where
  unfoldable pub escalation_allowed : Classification → Disposition → Bool
  escalation_allowed x maximum =
      policy.controls.allow_escalation
      && (is_candidate_alert x.trigger_policy
          && (le_ℤ policy.thresholds.minimum_countervailing_for_escalate x.countervailing_support
              && (is_empty x.escalation_blockers
                  && le_ℤ (disposition_rank disposition_escalate) (disposition_rank maximum))))

  unfoldable pub clear_allowed : Classification → ℤ → Disposition → Bool
  clear_allowed x score maximum =
      policy.controls.allow_auto_clear
      && (is_clear_eligible x.route_hint
          && (le_ℤ policy.thresholds.minimum_release_support_for_clear x.release_support
              && (le_ℤ score policy.thresholds.clear_maximum
                  && le_ℤ (disposition_rank disposition_clear) (disposition_rank maximum))))

  abbrev gate : Text → Text → Text → RuleTrace
  gate name outcome detail = record { rule = name; outcome = outcome; detail = detail }

  abbrev escalation_detail : Classification → ℤ → Disposition → Text
  escalation_detail x score maximum =
      text "score="
      ++ c.format_int score
      ++ text " threshold="
      ++ c.format_int policy.thresholds.escalate_minimum
      ++ text " countervailing="
      ++ c.format_int x.countervailing_support
      ++ text " blockers="
      ++ c.format_int (pos (length x.escalation_blockers))
      ++ text " maximum="
      ++ disposition_text maximum

  abbrev clear_detail : Classification → ℤ → Text
  clear_detail x score =
      text "score="
      ++ c.format_int score
      ++ text " threshold="
      ++ c.format_int policy.thresholds.clear_maximum
      ++ text " release_support="
      ++ c.format_int x.release_support
      ++ text " route_hint="
      ++ hint_text x.route_hint

  -- the branch that escalates
  unfoldable pub escalate : Classification → Verdict
  escalate x = record {
    disposition = disposition_escalate;
    review_route = escalation_review;
    reasons = reason_code c policy (text "escalate") ∷ [];
    blockers = [];
    trace =
        gate (text "escalation_gate") (text "pass")
          (text "score and primary-evidence requirements satisfied")
        ∷ [];
  }

  -- what a failed escalation gate adds
  abbrev pub disabled_reasons : List Text
  disabled_reasons =
      if policy.controls.allow_escalation
      then []
      else reason_code c policy (text "escalation_disabled") ∷ []

  abbrev pub disabled_blockers : List Text
  disabled_blockers =
      if policy.controls.allow_escalation then [] else text "policy_escalation_disabled" ∷ []

  -- the branches that clear and that investigate
  unfoldable pub clear_or_investigate : Classification → ℤ → Disposition → Verdict
  unfolding clear_allowed
  clear_or_investigate x score maximum =
      let failed =
        gate (text "escalation_gate") (text "fail") (escalation_detail x score maximum) in
      let held = not policy.controls.allow_auto_clear && is_clear_eligible x.route_hint in
      if clear_allowed x score maximum
      then record {
        disposition = disposition_clear;
        review_route = auto_release;
        reasons = disabled_reasons ++ reason_code c policy (text "clear") ∷ [];
        blockers = disabled_blockers;
        trace =
            failed
            ∷ gate (text "clear_gate") (text "pass")
                (text "release support and score requirements satisfied")
            ∷ [];
      }
      else record {
        disposition = disposition_investigate;
        review_route = if is_manual_review x.route_hint then manual_review else standard_review;
        reasons =
            disabled_reasons
            ++ reason_code c policy (text "investigate")
              ∷ reason_code c policy (text "threshold_score")
              ∷ (if held then reason_code c policy (text "auto_clear_disabled") ∷ [] else []);
        blockers =
            disabled_blockers ++ (if held then text "policy_auto_clear_disabled" ∷ [] else []);
        trace = failed ∷ gate (text "clear_gate") (text "fail") (clear_detail x score) ∷ [];
      }

  unfoldable pub decide : Classification → ℤ → Disposition → Verdict
  unfolding escalation_allowed escalate clear_or_investigate
  decide x score maximum =
      if le_ℤ policy.thresholds.escalate_minimum score && escalation_allowed x maximum
      then escalate x
      else clear_or_investigate x score maximum

-- Engine.evaluate
unfoldable pub evaluate : Codec → Engine → Classification → Decision
unfolding apply_rules clamp_score decide canonical_strings
evaluate c engine x =
    let policy = engine.effective in
    let e = apply_rules c policy x in
    let score = clamp_score e.score in
    let v = decide c policy x score e.maximum in
    let clamped =
      applied (text "score_clamp")
        (text "before=" ++ c.format_int e.score ++ text " after=" ++ c.format_int score) in
    let supporting =
      if is_supporting_evidence x.trigger_policy
      then reason_code c policy (text "supporting_evidence_non_escalation") ∷ []
      else [] in
    let decision : Decision = record {
      decision_id = [];
      classification = x;
      policy = reference engine.base;
      overlay = elim engine.overlay [ none ↦ none | some o ↦ some (overlay_reference o) ];
      score_components = e.components;
      score_before_clamp = e.score;
      policy_score = score;
      disposition = v.disposition;
      review_route = v.review_route;
      escalation_blockers = canonical_strings (x.escalation_blockers ++ v.blockers);
      required_evidence = canonical_strings x.requires_evidence;
      reason_codes = canonical_strings (e.reasons ++ v.reasons ++ supporting);
      thresholds = policy.thresholds;
      rule_trace = e.trace ++ clamped ∷ v.trace;
    } in
    record decision { decision_id = c.decision_id decision }
