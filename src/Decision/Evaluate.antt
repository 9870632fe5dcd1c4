-- ===== src/Decision/Evaluate.antt =====
-- internal/policyengine/evaluate.go: one classification evaluated under the effective policy.
use Prim.Native.Nat.{◌/◌}
use watchlist_platform.Base.{
  suc, Bool, true, false, List, [], ◌∷◌, ◌++◌, Option, none, some, is_empty, if◌then◌else◌,
}
use watchlist_platform.Base.Int.{ℤ, pos, negsuc, ◌*ℤ◌, lt_ℤ, sub_ℕ, add64, wrap64}
use watchlist_platform.Base.Sort.{sort}
use watchlist_platform.Base.Text.{Text, text, eq_text, lt_text}
use watchlist_platform.Decision.Types.{
  Disposition, disposition_clear, disposition_investigate, disposition_escalate, other_disposition,
  ReviewRoute, auto_release, standard_review, manual_review, escalation_review, other_route,
  RouteHint, route_clear_eligible, route_investigate, route_manual_review,
  route_escalation_candidate, other_hint, TriggerPolicy, candidate_alert, supporting_evidence,
  PatternRule, BlockerRule, RouteHintRule, lookup, Policy, ScoreComponent, RuleTrace,
  PatternEvidence, Classification, Decision,
}

-- strconv and the digests that id.go takes of the JSON encoding
pub record Codec : Type 0 where
  pub format_int : ℤ → Text
  pub decision_id : Decision → Text

-- `a * b` on int
unfoldable pub mul64 : ℤ → ℤ → ℤ
unfolding ◌*ℤ◌ wrap64
mul64 a b = wrap64 (a *ℤ b)

-- `a / 10000` on int, which rounds towards zero
unfoldable pub basis_points : ℤ → ℤ
basis_points (pos n) = pos (n / 10000)
basis_points (negsuc n) = sub_ℕ 0 (suc n / 10000)

abbrev pub disposition_rank : Disposition → ℤ
disposition_rank disposition_clear = pos 0
disposition_rank disposition_investigate = pos 1
disposition_rank disposition_escalate = pos 2
disposition_rank (other_disposition name) = negsuc 0

unfoldable pub min_disposition : Disposition → Disposition → Disposition
min_disposition a b = if lt_ℤ (disposition_rank a) (disposition_rank b) then a else b

abbrev pub disposition_text : Disposition → Text
disposition_text disposition_clear = text "clear"
disposition_text disposition_investigate = text "investigate"
disposition_text disposition_escalate = text "escalate"
disposition_text (other_disposition name) = name

abbrev pub route_text : ReviewRoute → Text
route_text auto_release = text "auto_release"
route_text standard_review = text "standard_review"
route_text manual_review = text "manual_review"
route_text escalation_review = text "escalation_review"
route_text (other_route name) = name

abbrev pub hint_text : RouteHint → Text
hint_text route_clear_eligible = text "clear_or_auto_release_eligible"
hint_text route_investigate = text "investigate"
hint_text route_manual_review = text "manual_review"
hint_text route_escalation_candidate = text "escalation_candidate"
hint_text (other_hint name) = name

abbrev pub is_clear_eligible : RouteHint → Bool
is_clear_eligible route_clear_eligible = true
is_clear_eligible _ = false

abbrev pub is_manual_review : RouteHint → Bool
is_manual_review route_manual_review = true
is_manual_review _ = false

abbrev pub is_candidate_alert : TriggerPolicy → Bool
is_candidate_alert candidate_alert = true
is_candidate_alert _ = false

abbrev pub is_supporting_evidence : TriggerPolicy → Bool
is_supporting_evidence supporting_evidence = true
is_supporting_evidence _ = false

-- the loop of canonicalStrings, after the last string written
unfoldable pub squeeze : Option Text → List Text → List Text
unfolding eq_text
squeeze last [] = []
squeeze none (v ∷ vs) = if is_empty v then squeeze none vs else v ∷ squeeze (some v) vs
squeeze (some w) (v ∷ vs) =
    if is_empty v
    then squeeze (some w) vs
    else if eq_text w v
    then squeeze (some w) vs
    else v ∷ squeeze (some v) vs

unfoldable pub canonical_strings : List Text → List Text
unfolding squeeze sort lt_text
canonical_strings values = squeeze none (sort lt_text values)

-- the local variables of evaluate
pub record Evaluation : Type 0 where
  pub components : List ScoreComponent
  pub trace : List RuleTrace
  pub reasons : List Text
  pub score : ℤ
  pub maximum : Disposition

-- the zero values of a missing key
abbrev pub pattern_rule : Option PatternRule → PatternRule
pattern_rule (some rule) = rule
pattern_rule none = record {
  score_adjustment = pos 0;
  maximum_disposition = other_disposition [];
  reason_code = [];
}

abbrev pub hint_rule : Option RouteHintRule → RouteHintRule
hint_rule (some rule) = rule
hint_rule none = record {
  review_route = other_route [];
  maximum_disposition = other_disposition [];
  reason_code = [];
}

abbrev pub reason : Option Text → Text
reason (some code) = code
reason none = []

abbrev pub applied : Text → Text → RuleTrace
applied rule detail = record { rule = rule; outcome = text "applied"; detail = detail }

-- addWeighted
unfoldable pub weighted : Text → ℤ → ℤ → ℤ → Text → ScoreComponent
unfolding mul64 basis_points
weighted code input weight sign detail = record {
  code = code;
  input = input;
  weight_or_adjustment = mul64 weight sign;
  delta = mul64 (basis_points (mul64 input weight)) sign;
  detail = detail;
}

unfoldable pub code_precedes : PatternEvidence → PatternEvidence → Bool
unfolding lt_text
code_precedes a b = lt_text a.code b.code

module _ (c : Codec) (policy : Policy) where
  abbrev pub reason_code : Text → Text
  reason_code key = reason (lookup key policy.reason_codes)

  unfoldable pub weigh : Classification → Evaluation
  unfolding weighted add64
  weigh x =
      let screening =
        weighted (text "screening_score") x.screening_score policy.weights.screening_score (pos 1)
          (text "weighted matcher screening score") in
      let countervailing =
        weighted (text "countervailing_support") x.countervailing_support
          policy.weights.countervailing_support (pos 1)
          (text "weighted primary or secondary countervailing evidence") in
      let release =
        weighted (text "release_support") x.release_support policy.weights.release_support
          (negsuc 0) (text "weighted false-positive release support") in
      record {
        components = screening ∷ countervailing ∷ release ∷ [];
        trace = [];
        reasons = [];
        score = add64 (add64 (add64 (pos 0) screening.delta) countervailing.delta) release.delta;
        maximum = disposition_escalate;
      }

  -- one round of the loop over the patterns
  unfoldable pub apply_pattern : Evaluation → PatternEvidence → Evaluation
  unfolding add64 min_disposition lookup
  apply_pattern e pattern =
      let rule = pattern_rule (lookup pattern.code policy.pattern_rules) in
      record {
        components =
            e.components
            ++ record {
              code = text "pattern:" ++ pattern.code;
              input = pattern.strength;
              weight_or_adjustment = rule.score_adjustment;
              delta = rule.score_adjustment;
              detail = text "configured false-positive pattern adjustment";
            }
              ∷ [];
        trace =
            e.trace
            ++ applied (text "pattern_rule:" ++ pattern.code) (
                text "adjustment="
                ++ c.format_int rule.score_adjustment
                ++ text " maximum_disposition="
                ++ disposition_text rule.maximum_disposition)
              ∷ [];
        reasons = e.reasons ++ rule.reason_code ∷ [];
        score = add64 e.score rule.score_adjustment;
        maximum = min_disposition e.maximum rule.maximum_disposition;
      }

  unfoldable pub apply_patterns : Evaluation → List PatternEvidence → Evaluation
  unfolding apply_pattern
  apply_patterns e [] = e
  apply_patterns e (pattern ∷ patterns) = apply_patterns (apply_pattern e pattern) patterns

  abbrev pub apply_blocker_rule : Evaluation → Text → Option BlockerRule → Evaluation
  apply_blocker_rule e blocker none = e
  apply_blocker_rule e blocker (some rule) = record e {
    trace =
        e.trace
        ++ applied (text "blocker_rule:" ++ blocker)
            (text "maximum_disposition=" ++ disposition_text rule.maximum_disposition)
          ∷ [];
    reasons = e.reasons ++ rule.reason_code ∷ [];
    maximum = min_disposition e.maximum rule.maximum_disposition;
  }

  -- the loop over the escalation blockers
  unfoldable pub apply_blockers : Evaluation → List Text → Evaluation
  unfolding min_disposition lookup
  apply_blockers e [] = e
  apply_blockers e (blocker ∷ blockers) =
      apply_blockers (apply_blocker_rule e blocker (lookup blocker policy.blocker_rules)) blockers

  abbrev pub route_rule : Classification → RouteHintRule
  route_rule x = hint_rule (lookup (hint_text x.route_hint) policy.route_hint_rules)

  unfoldable pub apply_route : Evaluation → Classification → Evaluation
  unfolding min_disposition lookup
  apply_route e x = record e {
    trace =
        e.trace
        ++ applied (text "route_hint:" ++ hint_text x.route_hint)
            (text "review_route=" ++ route_text (route_rule x).review_route)
          ∷ [];
    reasons = e.reasons ++ (route_rule x).reason_code ∷ [];
    maximum = min_disposition e.maximum (route_rule x).maximum_disposition;
  }

  -- evaluate up to the clamp
  unfoldable pub apply_rules : Classification → Evaluation
  unfolding weigh apply_patterns apply_blockers apply_route code_precedes sort
  apply_rules x =
      apply_route
        (apply_blockers (apply_patterns (weigh x) (sort code_precedes x.patterns))
          x.escalation_blockers)
        x
