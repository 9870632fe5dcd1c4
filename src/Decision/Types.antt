-- ===== src/Decision/Types.antt =====
-- The records of internal/policyengine/types.go, and those fields of a classification
-- (internal/falsepositive/types.go) that the policy engine reads. A map is the list of its entries.
use watchlist_platform.Base.{Bool, List, [], ◌∷◌, Option, none, some, if◌then◌else◌}
use watchlist_platform.Base.Int.{ℤ}
use watchlist_platform.Base.Text.{Text, eq_text}

-- `other_disposition` is a string outside the constants, such as the empty string of a zero value.
pub data Disposition : Type 0 where
  disposition_clear disposition_investigate disposition_escalate : Disposition
  other_disposition : Text → Disposition

pub data ReviewRoute : Type 0 where
  auto_release standard_review manual_review escalation_review : ReviewRoute
  other_route : Text → ReviewRoute

pub data RouteHint : Type 0 where
  route_clear_eligible route_investigate route_manual_review route_escalation_candidate : RouteHint
  other_hint : Text → RouteHint

pub data TriggerPolicy : Type 0 where
  candidate_alert supporting_evidence retain_only disabled : TriggerPolicy
  other_trigger : Text → TriggerPolicy

pub record ScoreWeights : Type 0 where
  pub screening_score : ℤ
  pub countervailing_support : ℤ
  pub release_support : ℤ

pub record Thresholds : Type 0 where
  pub clear_maximum : ℤ
  pub escalate_minimum : ℤ
  pub minimum_release_support_for_clear : ℤ
  pub minimum_countervailing_for_escalate : ℤ

pub record Controls : Type 0 where
  pub allow_auto_clear : Bool
  pub allow_escalation : Bool

pub record PatternRule : Type 0 where
  pub score_adjustment : ℤ
  pub maximum_disposition : Disposition
  pub reason_code : Text

pub record BlockerRule : Type 0 where
  pub maximum_disposition : Disposition
  pub reason_code : Text

pub record RouteHintRule : Type 0 where
  pub review_route : ReviewRoute
  pub maximum_disposition : Disposition
  pub reason_code : Text

abbrev pub Map {κ} : Type κ → Type κ
Map V = List (Text × V)

unfoldable pub lookup {κ} : {V : Type κ} → Text → Map V → Option V
unfolding eq_text
lookup key [] = none
lookup key (entry ∷ entries) =
    let rest = lookup key entries in if eq_text entry.0 key then some entry.1 else rest

pub record Policy : Type 0 where
  pub schema_version : Text
  pub policy_id : Text
  pub policy_version : Text
  pub policy_checksum : Text
  pub weights : ScoreWeights
  pub thresholds : Thresholds
  pub controls : Controls
  pub pattern_rules : Map PatternRule
  pub blocker_rules : Map BlockerRule
  pub route_hint_rules : Map RouteHintRule
  pub reason_codes : Map Text

pub record PolicyReference : Type 0 where
  pub policy_id : Text
  pub policy_version : Text
  pub policy_checksum : Text

pub record PatternRuleOverride : Type 0 where
  pub score_adjustment : Option ℤ
  pub maximum_disposition : Option Disposition
  pub reason_code : Option Text

pub record Overlay : Type 0 where
  pub schema_version : Text
  pub overlay_id : Text
  pub overlay_version : Text
  pub overlay_checksum : Text
  pub tenant_id : Text
  pub base_policy : PolicyReference
  pub weight_overrides : Map ℤ
  pub threshold_overrides : Map ℤ
  pub control_overrides : Map Bool
  pub pattern_rule_overrides : Map PatternRuleOverride

pub record OverlayReference : Type 0 where
  pub overlay_id : Text
  pub overlay_version : Text
  pub overlay_checksum : Text
  pub tenant_id : Text

pub record ScoreComponent : Type 0 where
  pub code : Text
  pub input : ℤ
  pub weight_or_adjustment : ℤ
  pub delta : ℤ
  pub detail : Text

pub record RuleTrace : Type 0 where
  pub rule : Text
  pub outcome : Text
  pub detail : Text

pub record PatternEvidence : Type 0 where
  pub code : Text
  pub strength : ℤ

pub record Classification : Type 0 where
  pub classification_id : Text
  pub trigger_policy : TriggerPolicy
  pub screening_score : ℤ
  pub countervailing_support : ℤ
  pub release_support : ℤ
  pub patterns : List PatternEvidence
  pub route_hint : RouteHint
  pub escalation_blockers : List Text
  pub requires_evidence : List Text

-- The schema versions, which are constants, are left out.
pub record Decision : Type 0 where
  pub decision_id : Text
  pub classification : Classification
  pub policy : PolicyReference
  pub overlay : Option OverlayReference
  pub score_components : List ScoreComponent
  pub score_before_clamp : ℤ
  pub policy_score : ℤ
  pub disposition : Disposition
  pub review_route : ReviewRoute
  pub escalation_blockers : List Text
  pub required_evidence : List Text
  pub reason_codes : List Text
  pub thresholds : Thresholds
  pub rule_trace : List RuleTrace
