-- ===== src/Decision/Validate.antt =====
-- internal/policyengine/validate.go and overlay.go, and NewEngine. Every check of a policy returns an
-- error that wraps ErrInvalidPolicy, every one of an overlay ErrInvalidOverlay; the messages are left out,
-- so the checks of each are one conjunction.
use watchlist_platform.Base.{
  Bool, true, false, ◌&&◌, ◌||◌, not, List, [], ◌∷◌, Option, none, some, is_empty, all,
  if◌then◌else◌,
}
use watchlist_platform.Base.Result.{Result, ◌>>◌, require}
use watchlist_platform.Base.Int.{ℤ, pos, negsuc, lt_ℤ}
use watchlist_platform.Base.Text.{Text, text, eq_text, trim_space}
use watchlist_platform.Decision.Types.{
  Disposition, other_disposition, ReviewRoute, other_route, PatternRule, BlockerRule, RouteHintRule,
  Map, lookup, ScoreWeights, Thresholds, Policy, PatternRuleOverride, Overlay,
}
use watchlist_platform.Decision.Evaluate.{pattern_rule, reason}

pub data PolicyError : Type 0 where
  invalid_policy invalid_overlay : PolicyError

-- PolicyChecksum and OverlayChecksum: digests of the JSON encoding
pub record Checksums : Type 0 where
  pub policy_checksum : Policy → Text
  pub overlay_checksum : Overlay → Text

-- required
unfoldable pub present : Text → Bool
unfolding trim_space
present value = not (is_empty (trim_space value))

unfoldable pub in_range : ℤ → Bool
in_range value = not (lt_ℤ value (pos 0) || lt_ℤ (pos 10000) value)

abbrev pub adjustment_in_range : ℤ → Bool
adjustment_in_range value = not (lt_ℤ value (negsuc 9999) || lt_ℤ (pos 10000) value)

-- validateDisposition and validateReviewRoute
abbrev pub known_disposition : Disposition → Bool
known_disposition (other_disposition name) = false
known_disposition _ = true

abbrev pub known_route : ReviewRoute → Bool
known_route (other_route name) = false
known_route _ = true

unfoldable pub valid_pattern_rule : PatternRule → Bool
unfolding present
valid_pattern_rule rule =
    adjustment_in_range rule.score_adjustment
    && (known_disposition rule.maximum_disposition && present rule.reason_code)

abbrev pub valid_blocker_rule : BlockerRule → Bool
valid_blocker_rule rule = known_disposition rule.maximum_disposition && present rule.reason_code

abbrev pub valid_hint_rule : Option RouteHintRule → Bool
valid_hint_rule none = false
valid_hint_rule (some rule) =
    known_disposition rule.maximum_disposition
    && (known_route rule.review_route && present rule.reason_code)

abbrev pub is_there {κ} : {A : Type κ} → Option A → Bool
is_there none = false
is_there (some _) = true

abbrev pub required_patterns : List Text
required_patterns =
    text "acronym_collision"
    ∷ text "entity_type_mismatch"
    ∷ text "legal_control_context"
    ∷ text "missing_qualifier"
    ∷ text "narrative_denial_context"
    ∷ text "phonetic_transliteration_only"
    ∷ text "routing_bic_collision"
    ∷ text "substring_containment"
    ∷ text "technical_system_artifact"
    ∷ text "wrong_field_data_type"
    ∷ []

abbrev pub required_hints : List Text
required_hints =
    text "clear_or_auto_release_eligible"
    ∷ text "investigate"
    ∷ text "manual_review"
    ∷ text "escalation_candidate"
    ∷ []

abbrev pub required_reasons : List Text
required_reasons =
    text "clear"
    ∷ text "investigate"
    ∷ text "escalate"
    ∷ text "auto_clear_disabled"
    ∷ text "escalation_disabled"
    ∷ text "threshold_score"
    ∷ text "supporting_evidence_non_escalation"
    ∷ []

unfoldable pub valid_weights : ScoreWeights → Bool
unfolding in_range
valid_weights w =
    in_range w.screening_score && (in_range w.countervailing_support && in_range w.release_support)

unfoldable pub valid_thresholds : Thresholds → Bool
unfolding in_range
valid_thresholds t =
    in_range t.clear_maximum
    && (in_range t.escalate_minimum
        && (lt_ℤ t.clear_maximum t.escalate_minimum
            && (in_range t.minimum_release_support_for_clear
                && in_range t.minimum_countervailing_for_escalate)))

-- the rules and the reason codes of a policy
unfoldable pub valid_rules : Policy → Bool
unfolding lookup valid_pattern_rule present
valid_rules p =
    all (λ code. is_there (lookup code p.pattern_rules)) required_patterns
    && (all (λ (entry : Text × PatternRule). valid_pattern_rule entry.1) p.pattern_rules
        && (all (λ (entry : Text × BlockerRule). valid_blocker_rule entry.1) p.blocker_rules
            && (all (λ hint. valid_hint_rule (lookup hint p.route_hint_rules)) required_hints
                && all (λ key. present (reason (lookup key p.reason_codes))) required_reasons)))

unfoldable pub validate_policy : Checksums → Policy → Result PolicyError (Unit {0})
unfolding valid_weights valid_thresholds valid_rules eq_text present
validate_policy c p = do
  require (eq_text p.schema_version (text "transaction-screening-policy/v1alpha1")) invalid_policy
  require (present p.policy_id && (present p.policy_version && present p.policy_checksum))
      invalid_policy
  require (valid_weights p.weights) invalid_policy
  require (valid_thresholds p.thresholds) invalid_policy
  require (valid_rules p) invalid_policy
  require (eq_text p.policy_checksum (c.policy_checksum p)) invalid_policy

abbrev pub or_else {κ} : {A : Type κ} → Option A → A → A
or_else none a = a
or_else (some b) a = b

-- an assignment to a key of a map
unfoldable pub assign_key {κ} : {V : Type κ} → Text → V → Map V → Map V
unfolding eq_text
assign_key key value [] = (key, value) ∷ []
assign_key key value (entry ∷ entries) =
    let rest = assign_key key value entries in
    if eq_text entry.0 key then (key, value) ∷ entries else entry ∷ rest

abbrev pub override_rule : PatternRuleOverride → PatternRule → PatternRule
override_rule o rule = record {
  score_adjustment = or_else o.score_adjustment rule.score_adjustment;
  maximum_disposition = or_else o.maximum_disposition rule.maximum_disposition;
  reason_code = or_else o.reason_code rule.reason_code;
}

unfoldable pub override_rules : Map PatternRuleOverride → Map PatternRule → Map PatternRule
unfolding assign_key lookup
override_rules [] rules = rules
override_rules (entry ∷ entries) rules =
    override_rules entries
      (assign_key entry.0 (override_rule entry.1 (pattern_rule (lookup entry.0 rules))) rules)

-- ApplyOverlay
unfoldable pub apply_overlay : Policy → Overlay → Policy
unfolding lookup override_rules
apply_overlay p o = record p {
  weights = record {
    screening_score =
        or_else (lookup (text "screening_score") o.weight_overrides) p.weights.screening_score;
    countervailing_support =
        or_else (lookup (text "countervailing_support") o.weight_overrides)
          p.weights.countervailing_support;
    release_support =
        or_else (lookup (text "release_support") o.weight_overrides) p.weights.release_support;
  };
  thresholds = record {
    clear_maximum =
        or_else (lookup (text "clear_maximum") o.threshold_overrides) p.thresholds.clear_maximum;
    escalate_minimum =
        or_else (lookup (text "escalate_minimum") o.threshold_overrides)
          p.thresholds.escalate_minimum;
    minimum_release_support_for_clear =
        or_else (lookup (text "minimum_release_support_for_clear") o.threshold_overrides)
          p.thresholds.minimum_release_support_for_clear;
    minimum_countervailing_for_escalate =
        or_else (lookup (text "minimum_countervailing_for_escalate") o.threshold_overrides)
          p.thresholds.minimum_countervailing_for_escalate;
  };
  controls = record {
    allow_auto_clear =
        or_else (lookup (text "allow_auto_clear") o.control_overrides) p.controls.allow_auto_clear;
    allow_escalation =
        or_else (lookup (text "allow_escalation") o.control_overrides) p.controls.allow_escalation;
  };
  pattern_rules = override_rules o.pattern_rule_overrides p.pattern_rules;
}
