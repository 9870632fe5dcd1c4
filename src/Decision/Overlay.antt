-- ===== src/Decision/Overlay.antt =====
-- ValidateOverlay of internal/policyengine/validate.go and NewEngine of evaluate.go, and the limits of the policy in force.
use watchlist_platform.Base.{
  ◌≡◌, subst, Bool, true, ◌&&◌, List, [], ◌∷◌, Option, none, some, all, any, arith,
}
use watchlist_platform.Base.Result.{Result, ok, ◌>>◌, require, bind_ok, ok-injective}
use watchlist_platform.Base.Int.{ℤ, lt_ℤ}
use watchlist_platform.Base.Text.{Text, text, eq_text}
use watchlist_platform.Decision.Types.{
  Map, lookup, PolicyReference, Policy, PatternRuleOverride, Overlay,
}
use watchlist_platform.Decision.Decide.{Engine, reference}
use watchlist_platform.Decision.Validate.{
  PolicyError, invalid_overlay, Checksums, present, in_range, adjustment_in_range,
  known_disposition, is_there, valid_weights, valid_thresholds, validate_policy, or_else,
  apply_overlay,
}

abbrev one_of : List Text → Text → Bool
one_of values wanted = any (λ value. eq_text value wanted) values

abbrev same_reference : PolicyReference → PolicyReference → Bool
same_reference a b =
    eq_text a.policy_id b.policy_id
    && (eq_text a.policy_version b.policy_version && eq_text a.policy_checksum b.policy_checksum)

-- `if value != nil`
abbrev holds {κ} : {A : Type κ} → (A → Bool) → Option A → Bool
holds test none = true
holds test (some a) = test a

abbrev valid_override : Policy → Text × PatternRuleOverride → Bool
valid_override base entry =
    is_there (lookup entry.0 base.pattern_rules)
    && (holds adjustment_in_range entry.1.score_adjustment
        && (holds known_disposition entry.1.maximum_disposition
            && holds present entry.1.reason_code))

abbrev values_in_range : Map ℤ → Bool
values_in_range = all (λ (entry : Text × ℤ). in_range entry.1)

unfoldable pub validate_overlay : Checksums → Overlay → Policy → Result PolicyError (Unit {0})
unfolding present in_range lookup eq_text apply_overlay
validate_overlay c o base = do
  require (eq_text o.schema_version (text "tenant-policy-overlay/v1alpha1")) invalid_overlay
  require
      (present o.overlay_id
        && (present o.overlay_version && (present o.overlay_checksum && present o.tenant_id)))
      invalid_overlay
  require (same_reference o.base_policy (reference base)) invalid_overlay
  require
      (all
        (λ (entry : Text × ℤ).
          one_of
            (text "screening_score" ∷ text "countervailing_support" ∷ text "release_support" ∷ [])
            entry.0)
        o.weight_overrides)
      invalid_overlay
  require (values_in_range o.weight_overrides) invalid_overlay
  require
      (all
        (λ (entry : Text × ℤ).
          one_of
            (text "clear_maximum"
              ∷ text "escalate_minimum"
              ∷ text "minimum_release_support_for_clear"
              ∷ text "minimum_countervailing_for_escalate"
              ∷ [])
            entry.0)
        o.threshold_overrides)
      invalid_overlay
  require (values_in_range o.threshold_overrides) invalid_overlay
  require
      (all
        (λ (entry : Text × Bool).
          one_of (text "allow_auto_clear" ∷ text "allow_escalation" ∷ []) entry.0)
        o.control_overrides)
      invalid_overlay
  require (all (valid_override base) o.pattern_rule_overrides) invalid_overlay
  require (eq_text o.overlay_checksum (c.overlay_checksum o)) invalid_overlay
  let t = (apply_overlay base o).thresholds
  require (lt_ℤ t.clear_maximum t.escalate_minimum) invalid_overlay

-- NewEngine
unfoldable pub new_engine : Checksums → Policy → Option Overlay → Result PolicyError Engine
unfolding validate_policy validate_overlay apply_overlay
new_engine c p none = do
  validate_policy c p
  ok (record { base = p; effective = p; overlay = none })
new_engine c p (some o) = do
  validate_policy c p
  validate_overlay c o p
  ok (record { base = p; effective = apply_overlay p o; overlay = some o })

validate_policy-limits :
    (c : Checksums) (p : Policy)
    → validate_policy c p ≡ ok tt
    → (valid_weights p.weights ≡ true) × (valid_thresholds p.thresholds ≡ true)
unfolding validate_policy
validate_policy-limits c p h = ground arith

validate_overlay-limits :
    (c : Checksums) (o : Overlay) (base : Policy)
    → validate_overlay c o base ≡ ok tt
    → (values_in_range o.weight_overrides ≡ true)
      × (values_in_range o.threshold_overrides ≡ true)
      × (lt_ℤ
            (apply_overlay base o).thresholds.clear_maximum
            (apply_overlay base o).thresholds.escalate_minimum
          ≡ true)
unfolding validate_overlay
validate_overlay-limits c o base h = ground arith

or_else-in_range :
    (key : Text) (entries : Map ℤ) (value : ℤ)
    → values_in_range entries ≡ true
    → in_range value ≡ true
    → in_range (or_else (lookup key entries) value) ≡ true
unfolding lookup
or_else-in_range key [] value h v = v
or_else-in_range key (entry ∷ entries) value h v =
    ground (arith, or_else-in_range key entries value)

effective_limits :
    (o : Overlay) (p : Policy)
    → valid_weights p.weights ≡ true
    → valid_thresholds p.thresholds ≡ true
    → values_in_range o.weight_overrides ≡ true
    → values_in_range o.threshold_overrides ≡ true
    → lt_ℤ
        (apply_overlay p o).thresholds.clear_maximum
        (apply_overlay p o).thresholds.escalate_minimum
      ≡ true
    → (valid_weights (apply_overlay p o).weights ≡ true)
      × (valid_thresholds (apply_overlay p o).thresholds ≡ true)
unfolding valid_weights valid_thresholds apply_overlay
effective_limits o p w t ws ts lt = ground (
  arith,
  or_else-in_range (text "screening_score") o.weight_overrides p.weights.screening_score ws,
  or_else-in_range (text "countervailing_support") o.weight_overrides
      p.weights.countervailing_support ws,
  or_else-in_range (text "release_support") o.weight_overrides p.weights.release_support ws,
  or_else-in_range (text "clear_maximum") o.threshold_overrides p.thresholds.clear_maximum ts,
  or_else-in_range (text "escalate_minimum") o.threshold_overrides p.thresholds.escalate_minimum ts,
  or_else-in_range (text "minimum_release_support_for_clear") o.threshold_overrides
      p.thresholds.minimum_release_support_for_clear ts,
  or_else-in_range (text "minimum_countervailing_for_escalate") o.threshold_overrides
      p.thresholds.minimum_countervailing_for_escalate ts,
)

-- The policy in force of an engine that NewEngine returns, with a tenant's overlay or without, has its
-- weights within 0..10000, and thresholds within 0..10000 of which the one to clear lies below the one
-- to escalate.
pub new_engine-limits :
    (c : Checksums) (p : Policy) (o : Option Overlay) {e : Engine}
    → new_engine c p o ≡ ok e
    → (valid_weights e.effective.weights ≡ true) × (valid_thresholds e.effective.thresholds ≡ true)
unfolding new_engine
new_engine-limits c p none {e} h =
    let (_, v, h₁) = bind_ok (validate_policy c p) _ h in
    let (w, t) = validate_policy-limits c p v in
    subst
      (λ (x : Engine).
        (valid_weights x.effective.weights ≡ true)
        × (valid_thresholds x.effective.thresholds ≡ true))
      (ok-injective h₁) (w, t)
new_engine-limits c p (some o) {e} h =
    let (_, v, h₁) = bind_ok (validate_policy c p) _ h in
    let (_, k, h₂) = bind_ok (validate_overlay c o p) _ h₁ in
    let (w, t) = validate_policy-limits c p v in
    let (ws, ts, lt) = validate_overlay-limits c o p k in
    subst
      (λ (x : Engine).
        (valid_weights x.effective.weights ≡ true)
        × (valid_thresholds x.effective.thresholds ≡ true))
      (ok-injective h₂) (effective_limits o p w t ws ts lt)
