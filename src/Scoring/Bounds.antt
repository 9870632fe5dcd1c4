-- ===== src/Scoring/Bounds.antt =====
-- What validatePolicy guarantees, and the range and band of every score.
use watchlist_platform.Base.{ℕ, ◌≤◌, ◌≡◌, ◌↔◌, true, not, arith, all}
use watchlist_platform.Base.Result.{ok}
use watchlist_platform.Base.Int.{ℤ, pos, ◌≤ℤ◌, lt_ℤ}
use watchlist_platform.Base.Unicode.{Unicode}
use watchlist_platform.Scoring.Types.{
  Policy, Subject, Lineage, CandidateEnvelope, Band, strong_candidate, review_candidate,
  weak_candidate, no_candidate_support,
}
use watchlist_platform.Scoring.Policy.{validate_policy, supporting, conflicting}
use watchlist_platform.Scoring.Candidate.{strength_band, clamp, sum_points, tally, score_candidate}

pub record IsValidPolicy (p : Policy) : Type 0 where
  pub evidence_low : pos 1 ≤ℤ p.max_evidence_items
  pub evidence_high : p.max_evidence_items ≤ℤ pos 64
  pub floor_nonneg : pos 0 ≤ℤ p.score_floor
  pub floor_le_ceiling : p.score_floor ≤ℤ p.score_ceiling
  pub weak_ge_floor : p.score_floor ≤ℤ p.thresholds.weak_candidate
  pub review_ge_weak : p.thresholds.weak_candidate ≤ℤ p.thresholds.review_candidate
  pub strong_ge_review : p.thresholds.review_candidate ≤ℤ p.thresholds.strong_candidate
  pub strong_le_ceiling : p.thresholds.strong_candidate ≤ℤ p.score_ceiling
  pub supporting_nonneg : all (λ w. not (lt_ℤ w (pos 0))) (supporting p.weights) ≡ true
  pub conflicting_nonpos : all (λ w. not (lt_ℤ (pos 0) w)) (conflicting p.weights) ≡ true

pub validate_policy-IsValidPolicy :
    (p : Policy) {v : Unit {0}} → validate_policy p ≡ ok v → IsValidPolicy p
unfolding validate_policy
validate_policy-IsValidPolicy p h = ground arith

clamp_bounds :
    (p : Policy) (s : ℤ)
    → p.score_floor ≤ℤ p.score_ceiling
    → (p.score_floor ≤ℤ clamp p s) × (clamp p s ≤ℤ p.score_ceiling)
unfolding clamp
clamp_bounds p s h = ground arith

abbrev pub band_rank : Band → ℕ
band_rank no_candidate_support = 0
band_rank weak_candidate = 1
band_rank review_candidate = 2
band_rank strong_candidate = 3

strength_band_mono :
    (p : Policy) (a b : ℤ) → a ≤ℤ b → band_rank (strength_band a p) ≤ band_rank (strength_band b p)
unfolding strength_band
strength_band_mono p a b h = ground arith

band_none :
    (p : Policy)
    → IsValidPolicy p
    → (a : ℤ)
    → (strength_band a p ≡ no_candidate_support) ↔ (lt_ℤ a p.thresholds.weak_candidate ≡ true)
unfolding strength_band
band_none p valid a = ground arith

band_strong :
    (p : Policy) (a : ℤ)
    → (strength_band a p ≡ strong_candidate) ↔ (p.thresholds.strong_candidate ≤ℤ a)
unfolding strength_band
band_strong p a = ground arith

-- Under a policy that validatePolicy accepts, whatever the candidate, its score lies between the
-- policy's floor and ceiling, and is not negative.
pub score_candidate-in_range :
    (u : Unicode) (p : Policy) (s : Subject) (l : Lineage) (e : CandidateEnvelope) {v : Unit {0}}
    → validate_policy p ≡ ok v
    → let r = score_candidate u p s l e in
      (p.score_floor ≤ℤ r.score) × (r.score ≤ℤ p.score_ceiling) × (pos 0 ≤ℤ r.score)
unfolding score_candidate
score_candidate-in_range u p s l e h =
    let valid = validate_policy-IsValidPolicy p h in
    let points = sum_points (pos 0) (tally u p s e.candidate).components in
    let (low, high) = clamp_bounds p points valid.floor_le_ceiling in
    (low, high, omega (arith, low, valid.floor_nonneg))

-- Of two results under one policy, the one with the higher score has no weaker band; under a policy
-- that validatePolicy accepts, a result has band `no_candidate_support` exactly when its score is
-- below the weak threshold, and `strong_candidate` exactly when it reaches the strong one.
pub score_candidate-band :
    (u : Unicode) (p : Policy) (s s' : Subject) (l l' : Lineage) (e e' : CandidateEnvelope)
    {v : Unit {0}}
    → validate_policy p ≡ ok v
    → let r = score_candidate u p s l e in
      let r' = score_candidate u p s' l' e' in
      (r.score ≤ℤ r'.score → band_rank r.strength_band ≤ band_rank r'.strength_band)
      × ((r.strength_band ≡ no_candidate_support)
          ↔ (lt_ℤ r.score p.thresholds.weak_candidate ≡ true))
      × ((r.strength_band ≡ strong_candidate) ↔ (p.thresholds.strong_candidate ≤ℤ r.score))
unfolding score_candidate
score_candidate-band u p s s' l l' e e' h =
    let valid = validate_policy-IsValidPolicy p h in
    (strength_band_mono p _ _, band_none p valid _, band_strong p _)
