-- ===== src/Decision/Gates.antt =====
-- When a decision escalates or clears, and the range of its score.
use watchlist_platform.Base.{◌≡◌, refl, true, List, [], ◌∷◌, none, some, All, arith}
use watchlist_platform.Base.Int.{ℤ, ◌≤ℤ◌}
use watchlist_platform.Base.Sort.{sort, All-sort}
use watchlist_platform.Base.Text.{Text}
use watchlist_platform.Decision.Types.{
  Disposition, disposition_clear, disposition_investigate, disposition_escalate, other_disposition,
  candidate_alert, route_clear_eligible, Policy, PatternEvidence, Classification, lookup,
}
use watchlist_platform.Decision.Evaluate.{
  Codec, Evaluation, disposition_rank, min_disposition, pattern_rule, route_rule, apply_pattern,
  apply_patterns, apply_blocker_rule, apply_blockers, apply_route, apply_rules, weigh,
  code_precedes,
}
use watchlist_platform.Decision.Decide.{
  Engine, clamp_score, escalation_allowed, clear_allowed, escalate, clear_or_investigate, decide,
  evaluate,
}

-- at least as severe as `d`
abbrev pub Reaches : Disposition → Disposition → Type 0
Reaches d m = disposition_rank d ≤ℤ disposition_rank m

Reaches-min : (d a b : Disposition) → Reaches d (min_disposition a b) → Reaches d a × Reaches d b
unfolding min_disposition
Reaches-min d a b h = ground arith

Reaches-escalate : (m : Disposition) → Reaches disposition_escalate m → m ≡ disposition_escalate
Reaches-escalate disposition_escalate h = refl
Reaches-escalate disposition_clear h = ground arith
Reaches-escalate disposition_investigate h = ground arith
Reaches-escalate (other_disposition name) h = ground arith

module _ (c : Codec) (policy : Policy) (d : Disposition) where
  abbrev pub Allows : PatternEvidence → Type 0
  Allows pattern =
      Reaches d (pattern_rule (lookup pattern.code policy.pattern_rules)).maximum_disposition

  apply_pattern-Reaches :
      (e : Evaluation) (pattern : PatternEvidence)
      → Reaches d (apply_pattern c policy e pattern).maximum
      → Reaches d e.maximum × Allows pattern
  unfolding apply_pattern
  apply_pattern-Reaches e pattern h =
      Reaches-min d e.maximum
        (pattern_rule (lookup pattern.code policy.pattern_rules)).maximum_disposition h

  apply_patterns-Reaches :
      (e : Evaluation) (patterns : List PatternEvidence)
      → Reaches d (apply_patterns c policy e patterns).maximum
      → Reaches d e.maximum × All Allows patterns
  unfolding apply_patterns
  apply_patterns-Reaches e [] h = (h, tt)
  apply_patterns-Reaches e (pattern ∷ patterns) h =
      let (m, rest) = apply_patterns-Reaches (apply_pattern c policy e pattern) patterns h in
      let (start, here) = apply_pattern-Reaches e pattern m in (start, (here, rest))

  apply_blockers-Reaches :
      (e : Evaluation) (blockers : List Text)
      → Reaches d (apply_blockers c policy e blockers).maximum
      → Reaches d e.maximum
  unfolding apply_blockers
  apply_blockers-Reaches e [] h = h
  apply_blockers-Reaches e (blocker ∷ blockers) h = by_rule (lookup blocker policy.blocker_rules) (
      apply_blockers-Reaches
        (apply_blocker_rule c policy e blocker (lookup blocker policy.blocker_rules)) blockers h)
    where
      by_rule :
          (o : _)
          → Reaches d (apply_blocker_rule c policy e blocker o).maximum
          → Reaches d e.maximum
      by_rule none k = k
      by_rule (some rule) k = (Reaches-min d e.maximum rule.maximum_disposition k).0

  apply_rules-Reaches :
      (x : Classification)
      → Reaches d (apply_rules c policy x).maximum
      → All Allows x.patterns × Reaches d (route_rule c policy x).maximum_disposition
  unfolding apply_rules apply_route
  apply_rules-Reaches x h =
      let patterns = sort code_precedes x.patterns in
      let before = apply_patterns c policy (weigh c policy x) patterns in
      let after = apply_blockers c policy before x.escalation_blockers in
      let (m, route) = Reaches-min d after.maximum (route_rule c policy x).maximum_disposition h in
      let n = apply_blockers-Reaches before x.escalation_blockers m in
      (
        All-sort code_precedes Allows x.patterns
            (apply_patterns-Reaches (weigh c policy x) patterns n).1,
        route,
      )

decide-escalates :
    (c : Codec) (policy : Policy) (x : Classification) (score : ℤ) (m : Disposition)
    → (decide c policy x score m).disposition ≡ disposition_escalate
    → (policy.controls.allow_escalation ≡ true)
      × (x.trigger_policy ≡ candidate_alert)
      × (x.escalation_blockers ≡ [])
      × (policy.thresholds.minimum_countervailing_for_escalate ≤ℤ x.countervailing_support)
      × (policy.thresholds.escalate_minimum ≤ℤ score)
      × Reaches disposition_escalate m
unfolding decide escalation_allowed escalate clear_or_investigate
decide-escalates c policy x score m h = ground arith

clear_or_investigate-clears :
    (c : Codec) (policy : Policy) (x : Classification) (score : ℤ) (m : Disposition)
    → (clear_or_investigate c policy x score m).disposition ≡ disposition_clear
    → clear_allowed c policy x score m ≡ true
unfolding clear_or_investigate
clear_or_investigate-clears c policy x score m h = ground arith

clear_allowed-conditions :
    (c : Codec) (policy : Policy) (x : Classification) (score : ℤ) (m : Disposition)
    → clear_allowed c policy x score m ≡ true
    → (policy.controls.allow_auto_clear ≡ true)
      × (x.route_hint ≡ route_clear_eligible)
      × (policy.thresholds.minimum_release_support_for_clear ≤ℤ x.release_support)
      × (score ≤ℤ policy.thresholds.clear_maximum)
      × Reaches disposition_clear m
unfolding clear_allowed
clear_allowed-conditions c policy x score m h = ground arith

decide-clears :
    (c : Codec) (policy : Policy) (x : Classification) (score : ℤ) (m : Disposition)
    → (decide c policy x score m).disposition ≡ disposition_clear
    → clear_allowed c policy x score m ≡ true
unfolding decide escalate
decide-clears c policy x score m h = ground (arith, clear_or_investigate-clears c policy x score m)

-- A transaction is escalated only if the effective policy allows escalation, the observation is a
-- candidate alert, no blocker stands, the countervailing support and the clamped score reach their
-- minimums, and the rules of all its patterns and of its route hint allow escalation.
pub evaluate-escalates :
    (c : Codec) (engine : Engine) (x : Classification)
    → (evaluate c engine x).disposition ≡ disposition_escalate
    → (engine.effective.controls.allow_escalation ≡ true)
      × (x.trigger_policy ≡ candidate_alert)
      × (x.escalation_blockers ≡ [])
      × (engine.effective.thresholds.minimum_countervailing_for_escalate
          ≤ℤ x.countervailing_support)
      × (engine.effective.thresholds.escalate_minimum ≤ℤ (evaluate c engine x).policy_score)
      × All (Allows c engine.effective disposition_escalate) x.patterns
      × ((route_rule c engine.effective x).maximum_disposition ≡ disposition_escalate)
unfolding evaluate
evaluate-escalates c engine x h =
    let e = apply_rules c engine.effective x in
    let (allowed, alert, unblocked, support, enough, reached) =
      decide-escalates c engine.effective x (clamp_score e.score) e.maximum h in
    let (patterns, route) = apply_rules-Reaches c engine.effective disposition_escalate x reached in
    (allowed, alert, unblocked, support, enough, patterns, Reaches-escalate _ route)

-- A transaction is cleared only if the effective policy allows clearing, its route hint is eligible,
-- the release support reaches its minimum, the clamped score is at most the clear threshold, and the
-- policy has for each of its patterns a rule whose maximum disposition is one that the code knows.
pub evaluate-clears :
    (c : Codec) (engine : Engine) (x : Classification)
    → (evaluate c engine x).disposition ≡ disposition_clear
    → (engine.effective.controls.allow_auto_clear ≡ true)
      × (x.route_hint ≡ route_clear_eligible)
      × (engine.effective.thresholds.minimum_release_support_for_clear ≤ℤ x.release_support)
      × ((evaluate c engine x).policy_score ≤ℤ engine.effective.thresholds.clear_maximum)
      × All (Allows c engine.effective disposition_clear) x.patterns
unfolding evaluate
evaluate-clears c engine x h =
    let e = apply_rules c engine.effective x in
    let (allowed, eligible, support, low, reached) =
      clear_allowed-conditions c engine.effective x (clamp_score e.score) e.maximum
        (decide-clears c engine.effective x (clamp_score e.score) e.maximum h) in
    (
      allowed,
      eligible,
      support,
      low,
      (apply_rules-Reaches c engine.effective disposition_clear x reached).0,
    )
