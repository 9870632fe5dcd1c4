-- ===== src/Decision/Tests.antt =====
-- Runs of the policy engine, and the theorems at concrete inputs.
use watchlist_platform.Base.{◌≡◌, refl, true, List, [], ◌∷◌, none, some, map, All}
use watchlist_platform.Base.Result.{ok, err}
use watchlist_platform.Base.Int.{pos, negsuc, ◌≤ℤ◌}
use watchlist_platform.Base.Text.{text}
use watchlist_platform.Decision.Types.{
  disposition_clear, disposition_investigate, disposition_escalate, escalation_review, auto_release,
  route_clear_eligible, route_escalation_candidate, candidate_alert, Policy, Overlay,
  Classification, Decision,
}
use watchlist_platform.Decision.Evaluate.{
  Codec, route_rule, basis_points, disposition_text, route_text,
}
use watchlist_platform.Decision.Decide.{Engine, reference, evaluate}
use watchlist_platform.Decision.Validate.{
  Checksums, invalid_overlay, required_patterns, required_hints, required_reasons, valid_weights,
  valid_thresholds,
}
use watchlist_platform.Decision.Overlay.{new_engine, new_engine-limits}
use watchlist_platform.Decision.Summary.{summarize}
use watchlist_platform.Decision.Entries.{entries, entry, occurrences}
use watchlist_platform.Decision.Counted.{texts, summarize-counted}
use watchlist_platform.Decision.Gates.{Allows, evaluate-escalates, evaluate-clears}

abbrev codec : Codec
codec = record { format_int = λ z. []; decision_id = λ d. text "id" }

abbrev policy : Policy
policy = record {
  schema_version = text "transaction-screening-policy/v1alpha1";
  policy_id = text "p";
  policy_version = text "1";
  policy_checksum = text "c";
  weights = record {
    screening_score = pos 8000;
    countervailing_support = pos 5000;
    release_support = pos 9000;
  };
  thresholds = record {
    clear_maximum = pos 2000;
    escalate_minimum = pos 8000;
    minimum_release_support_for_clear = pos 6000;
    minimum_countervailing_for_escalate = pos 5000;
  };
  controls = record { allow_auto_clear = true; allow_escalation = true };
  pattern_rules =
      (
        text "missing_qualifier",
        record {
          score_adjustment = negsuc 499;
          maximum_disposition = disposition_escalate;
          reason_code = text "qualifier";
        },
      )
      ∷ [];
  blocker_rules = [];
  route_hint_rules =
      (
        text "escalation_candidate",
        record {
          review_route = escalation_review;
          maximum_disposition = disposition_escalate;
          reason_code = text "candidate";
        },
      )
      ∷ (
        text "clear_or_auto_release_eligible",
        record {
          review_route = auto_release;
          maximum_disposition = disposition_investigate;
          reason_code = text "eligible";
        },
      )
      ∷ [];
  reason_codes = [];
}

abbrev engine : Engine
engine = record { base = policy; effective = policy; overlay = none }

abbrev alert : Classification
alert = record {
  classification_id = text "x";
  trigger_policy = candidate_alert;
  screening_score = pos 9000;
  countervailing_support = pos 9000;
  release_support = pos 0;
  patterns = record { code = text "missing_qualifier"; strength = pos 1000 } ∷ [];
  route_hint = route_escalation_candidate;
  escalation_blockers = [];
  requires_evidence = [];
}

abbrev released : Classification
released = record alert {
  countervailing_support = pos 0;
  release_support = pos 10000;
  route_hint = route_clear_eligible;
}

rounds_to_zero : basis_points (negsuc 19998) ≡ negsuc 0
unfolding basis_points
rounds_to_zero = refl

alert_escalates : (evaluate codec engine alert).disposition ≡ disposition_escalate
unfolding evaluate
alert_escalates = refl

blocked_investigates :
    (evaluate codec engine (record alert { escalation_blockers = text "b" ∷ [] })).disposition
    ≡ disposition_investigate
unfolding evaluate
blocked_investigates = refl

released_clears : (evaluate codec engine released).disposition ≡ disposition_clear
unfolding evaluate
released_clears = refl

evaluate-escalates_example :
    (engine.effective.controls.allow_escalation ≡ true)
    × (alert.trigger_policy ≡ candidate_alert)
    × (alert.escalation_blockers ≡ [])
    × (engine.effective.thresholds.minimum_countervailing_for_escalate
        ≤ℤ alert.countervailing_support)
    × (engine.effective.thresholds.escalate_minimum ≤ℤ (evaluate codec engine alert).policy_score)
    × All (Allows codec engine.effective disposition_escalate) alert.patterns
    × ((route_rule codec engine.effective alert).maximum_disposition ≡ disposition_escalate)
evaluate-escalates_example = evaluate-escalates codec engine alert alert_escalates

evaluate-clears_example :
    (engine.effective.controls.allow_auto_clear ≡ true)
    × (released.route_hint ≡ route_clear_eligible)
    × (engine.effective.thresholds.minimum_release_support_for_clear ≤ℤ released.release_support)
    × ((evaluate codec engine released).policy_score ≤ℤ engine.effective.thresholds.clear_maximum)
    × All (Allows codec engine.effective disposition_clear) released.patterns
evaluate-clears_example = evaluate-clears codec engine released released_clears

abbrev complete_policy : Policy
complete_policy = record policy {
  pattern_rules =
      map
        (λ code. (
          code,
          record {
            score_adjustment = negsuc 499;
            maximum_disposition = disposition_escalate;
            reason_code = text "pattern";
          },
        ))
        required_patterns;
  route_hint_rules =
      map
        (λ hint. (
          hint,
          record {
            review_route = auto_release;
            maximum_disposition = disposition_escalate;
            reason_code = text "hint";
          },
        ))
        required_hints;
  reason_codes = map (λ key. (key, text "reason")) required_reasons;
}

abbrev overlay : Overlay
overlay = record {
  schema_version = text "tenant-policy-overlay/v1alpha1";
  overlay_id = text "o";
  overlay_version = text "1";
  overlay_checksum = text "d";
  tenant_id = text "bank";
  base_policy = reference complete_policy;
  weight_overrides = [];
  threshold_overrides = (text "clear_maximum", pos 1000) ∷ [];
  control_overrides = (text "allow_auto_clear", true) ∷ [];
  pattern_rule_overrides = [];
}

abbrev checksums : Checksums
checksums = record { policy_checksum = λ p. text "c"; overlay_checksum = λ o. text "d" }

abbrev tenant_engine : Engine
tenant_engine = record {
  base = complete_policy;
  effective = record complete_policy {
    thresholds = record complete_policy.thresholds { clear_maximum = pos 1000 };
  };
  overlay = some overlay;
}

tenant_loaded : new_engine checksums complete_policy (some overlay) ≡ ok tenant_engine
unfolding new_engine
tenant_loaded = refl

crossed_thresholds :
    new_engine checksums complete_policy
      (some (record overlay { threshold_overrides = (text "clear_maximum", pos 9000) ∷ [] }))
    ≡ err invalid_overlay
unfolding new_engine
crossed_thresholds = refl

new_engine-limits_example :
    (valid_weights tenant_engine.effective.weights ≡ true)
    × (valid_thresholds tenant_engine.effective.thresholds ≡ true)
new_engine-limits_example = new_engine-limits checksums complete_policy (some overlay) tenant_loaded

abbrev batch : List Decision
batch =
    evaluate codec engine alert ∷ evaluate codec engine released ∷ evaluate codec engine alert ∷ []

two_escalations :
    entries (text "escalate") (summarize batch).disposition_counts ≡ entry (text "escalate") 2
unfolding summarize entries entry evaluate
two_escalations = refl

summarize-counted_example :
    (entries (text "escalate") (summarize batch).disposition_counts
      ≡ entry
          (text "escalate")
          (occurrences (text "escalate") (texts (λ d. disposition_text d.disposition ∷ []) batch)))
    × (entries (text "escalate") (summarize batch).review_route_counts
        ≡ entry
            (text "escalate")
            (occurrences (text "escalate") (texts (λ d. route_text d.review_route ∷ []) batch)))
    × (entries (text "escalate") (summarize batch).reason_code_counts
        ≡ entry
            (text "escalate")
            (occurrences (text "escalate") (texts (λ d. d.reason_codes) batch)))
    × (entries (text "escalate") (summarize batch).blocker_counts
        ≡ entry
            (text "escalate")
            (occurrences (text "escalate") (texts (λ d. d.escalation_blockers) batch)))
summarize-counted_example = summarize-counted (text "escalate") batch
