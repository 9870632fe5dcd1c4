-- ===== src/Scoring/Policy.antt =====
-- internal/candidatescoring/policy.go, and NewEngine of engine.go. encoding/json and crypto/sha256
-- are parameters.
use watchlist_platform.Base.{
  ◌≡◌, Bool, ◌||◌, not, List, [], ◌∷◌, Option, none, some, length, is_empty, all, ◌==◌,
}
use watchlist_platform.Base.Result.{Result, ok, err, ◌>>=◌, ◌>>◌, require}
use watchlist_platform.Base.Text.{Text, text, eq_text, trim_space, utf8}
use watchlist_platform.Base.Int.{ℤ, pos, lt_ℤ, le_ℤ}
use watchlist_platform.Scoring.Types.{
  Policy, LoadedPolicy, Weights, Request, BatchRequest, PolicyReference, ScoringError,
  policy_schema, policy_identity, policy_profile, policy_evidence, policy_bounds, policy_thresholds,
  policy_supporting, policy_conflict, decode_failed, trailing_value, marshal_failed, digest_length,
  digest_mismatch,
}

-- json.Marshal at the types that are hashed (`none` is its error), the strict json.Decoder, and the
-- lowercase hexadecimal SHA-256. A decoded text gives the value and whether a second value follows.
pub record Codec : Type 0 where
  pub marshal_policy : Policy → Option Text
  pub marshal_request : Request → Option Text
  pub marshal_batch : BatchRequest → Option Text
  pub decode_policy : Text → Option (Policy × Bool)
  pub sha256_hex : Text → Text

abbrev pub policy_schema_v1 : Text
policy_schema_v1 = text "openwatchlist.candidate-scoring-policy.v1"

-- strings.TrimSpace(s) == ""
unfoldable pub is_blank : Text → Bool
unfolding trim_space
is_blank s = is_empty (trim_space s)

abbrev thresholds_ordered : Policy → Bool
thresholds_ordered p = not (
    lt_ℤ p.thresholds.weak_candidate p.score_floor
    || lt_ℤ p.thresholds.review_candidate p.thresholds.weak_candidate
    || lt_ℤ p.thresholds.strong_candidate p.thresholds.review_candidate
    || lt_ℤ p.score_ceiling p.thresholds.strong_candidate)

abbrev pub supporting : Weights → List ℤ
supporting w =
    w.typed_identifier_exact ∷ w.name_exact ∷ w.name_concatenation_normalized ∷ w.name_token_set
    ∷ w.name_particle_stripped ∷ w.name_prefix ∷ w.name_containment ∷ w.date_of_birth_exact
    ∷ w.date_of_birth_year ∷ w.country_exact ∷ w.entity_type_exact ∷ []

abbrev pub conflicting : Weights → List ℤ
conflicting w = w.date_of_birth_conflict ∷ w.country_conflict ∷ w.entity_type_conflict ∷ []

unfoldable pub validate_policy : Policy → Result ScoringError (Unit {0})
unfolding eq_text is_blank
validate_policy p = do
  require (eq_text p.schema_version policy_schema_v1) policy_schema
  require (not (is_blank p.policy_id || is_blank p.policy_version)) policy_identity
  require (not (is_blank p.normalization_profile)) policy_profile
  require (not (lt_ℤ p.max_evidence_items (pos 1) || lt_ℤ (pos 64) p.max_evidence_items))
      policy_evidence
  require (not (lt_ℤ p.score_floor (pos 0) || le_ℤ p.score_ceiling p.score_floor)) policy_bounds
  require (thresholds_ordered p) policy_thresholds
  require (all (λ w. not (lt_ℤ w (pos 0))) (supporting p.weights)) policy_supporting
  require (all (λ w. not (lt_ℤ (pos 0) w)) (conflicting p.weights)) policy_conflict

abbrev pub or_error {κ} : {E A : Type κ} → Option A → E → Result E A
or_error none e = err e
or_error (some a) e = ok a

pub or_error-eq-ok {κ} :
    {E A : Type κ} (o : Option A) (e : E) {a : A} → or_error o e ≡ ok a → o ≡ some a
or_error-eq-ok none e h = cc
or_error-eq-ok (some b) e h = cc

-- ParsePolicy
unfoldable pub parse_policy : Codec → Text → Result ScoringError LoadedPolicy
unfolding validate_policy
parse_policy c raw = do
  decoded ← or_error (c.decode_policy raw) decode_failed
  require (not decoded.1) trailing_value
  validate_policy decoded.0
  canonical ← or_error (c.marshal_policy decoded.0) marshal_failed
  ok (record { policy = decoded.0; sha256 = c.sha256_hex canonical })

pub record Engine : Type 0 where
  pub loaded : LoadedPolicy

-- NewEngine
unfoldable pub new_engine : Codec → LoadedPolicy → Result ScoringError Engine
unfolding validate_policy utf8 eq_text
new_engine c loaded = do
  validate_policy loaded.policy
  require (length (utf8 loaded.sha256) == 64) digest_length
  canonical ← or_error (c.marshal_policy loaded.policy) marshal_failed
  require (eq_text (c.sha256_hex canonical) loaded.sha256) digest_mismatch
  ok (record { loaded = loaded })

unfoldable pub policy_reference : Engine → PolicyReference
policy_reference e = record {
  policy_id = e.loaded.policy.policy_id;
  policy_version = e.loaded.policy.policy_version;
  policy_sha256 = e.loaded.sha256;
  normalization_profile = e.loaded.policy.normalization_profile;
}
