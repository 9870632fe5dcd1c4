-- ===== src/Matcher/Range.antt =====
-- The score of a pair of names under a validated profile: its range, and that its evidence explains it.
use native.Mathlib.Nat.{div-le_of_le-mul, mul-le-mul_right}
use watchlist_platform.Base.{
  ℕ, ◌+◌, ◌-◌, ◌*◌, ◌/◌, ◌^◌, ◌≤◌, ◌<◌, ◌≡◌, refl, sym, ap, subst, ◌∙◌, Bool, true, ◌&&◌, ◌||◌, not,
  List, [], ◌∷◌, map, length, ◌==◌, Bool-cases, inl, inr, All, arith,
}
use watchlist_platform.Base.Int.{ℤ, pos, negsuc, pos_part, ◌+ℤ◌, ◌*ℤ◌, add64, wrap64, wrap64_eq}
use watchlist_platform.Base.Sort.{sort, insert}
use watchlist_platform.Base.Text.{Text, eq_text, lt_text}
use watchlist_platform.Base.Unicode.{Unicode}
use watchlist_platform.Decision.Evaluate.{mul64, basis_points}
use watchlist_platform.Matcher.Bounds.{
  length_similarity_le, token_alignment_similarity_le, best_edit_similarity_le,
}
use watchlist_platform.Matcher.Ordered.{ordered_token_similarity_le}
use watchlist_platform.Matcher.Soundex.{phonetic_similarity_le}
use watchlist_platform.Matcher.Fold.{tokens, fold}
use watchlist_platform.Matcher.Profile.{
  ThresholdProfile, in_basis_points, weights, valid_weights, valid_numbers,
}
use watchlist_platform.Matcher.Score.{
  FeatureScore, sub64, name_precedes, contribute, total_from, token_penalty, penalized,
  all_features, score_name, score_pair,
}

-- a number that is not negative
abbrev Natural : ℤ → Type 0
Natural z = z ≡ pos (pos_part z)

-- a similarity in basis points, and a weight that is not negative
abbrev IsPart : FeatureScore → Type 0
IsPart f = (f.score ≤ 10000) × Natural f.weight

mul64_pos : (s w : ℕ) → s * w < 2 ^ 63 → mul64 (pos s) (pos w) ≡ pos (s * w)
unfolding mul64 ◌*ℤ◌
mul64_pos s w h =
    let product : pos s *ℤ pos w ≡ pos (s * w) = ground arith in
    ap wrap64 product ∙ wrap64_eq (pos (s * w)) (omega (arith, h))

contribution_eq :
    (s w : ℕ) → s ≤ 10000 → w ≤ 10000 → basis_points (mul64 (pos s) (pos w)) ≡ pos (s * w / 10000)
unfolding basis_points
contribution_eq s w h k =
    let small : s * w ≤ 10000 * w = mul-le-mul_right w h in
    ap basis_points (mul64_pos s w (omega (arith, small, k)))

weight_sum : List FeatureScore → ℕ
weight_sum [] = 0
weight_sum (f ∷ fs) = pos_part f.weight + weight_sum fs

-- the sum of the contributions that the evidence lists
unfoldable pub contributed : List FeatureScore → ℕ
contributed [] = 0
contributed (f ∷ fs) = pos_part f.contribution + contributed fs

contribute-contribution :
    (f : FeatureScore)
    → IsPart f
    → pos_part f.weight ≤ 10000
    → ((contribute f).contribution ≡ pos (pos_part (contribute f).contribution))
      × (pos_part (contribute f).contribution ≤ pos_part f.weight)
unfolding contribute
contribute-contribution f part small =
    let w = pos_part f.weight in
    let c : (contribute f).contribution ≡ pos (f.score * w / 10000) =
      ap (λ z. basis_points (mul64 (pos f.score) z)) part.1
      ∙ contribution_eq f.score w part.0 small in
    (
      c ∙ ap (λ z. pos (pos_part z)) (sym c),
      subst (λ z. pos_part z ≤ w) (sym c)
          (div-le_of_le-mul 10000 {n = w} (mul-le-mul_right w part.0)),
    )

add64_pos : (a b : ℕ) → a + b < 2 ^ 63 → add64 (pos a) (pos b) ≡ pos (a + b)
unfolding add64 ◌+ℤ◌
add64_pos a b h =
    let sum : pos a +ℤ pos b ≡ pos (a + b) = ground arith in
    ap wrap64 sum ∙ wrap64_eq (pos (a + b)) (omega (arith, h))

total_from-sum :
    (t : ℕ) (fs : List FeatureScore)
    → All IsPart fs
    → t + weight_sum fs ≤ 10000
    → (total_from (pos t) (map contribute fs) ≡ pos (t + contributed (map contribute fs)))
      × (contributed (map contribute fs) ≤ weight_sum fs)
unfolding total_from weight_sum contributed
total_from-sum t [] h k = (ap pos (omega arith), omega arith)
total_from-sum t (f ∷ fs) h k =
    let part = contribute-contribution f h.0 (omega (arith, k)) in
    let c = pos_part (contribute f).contribution in
    let step = total_from-sum (t + c) fs h.1 (omega (arith, k, part.1)) in
    (
      ap (λ z. total_from (add64 (pos t) z) (map contribute fs)) part.0
          ∙ ap (λ z. total_from z (map contribute fs)) (add64_pos t c (omega (arith, k, part.1)))
          ∙ step.0
          ∙ ap pos (omega arith),
      omega (arith, step.1, part.1),
    )

nat_sum : List ℤ → ℕ
nat_sum [] = 0
nat_sum (w ∷ ws) = pos_part w + nat_sum ws

in_basis_points-Natural : (w : ℤ) → in_basis_points w ≡ true → Natural w × (pos_part w ≤ 10000)
in_basis_points-Natural (pos n) h = (refl, ground (arith, h))
in_basis_points-Natural (negsuc n) h = absurd (ground (arith, h))

valid_weights-sum :
    (t : ℕ) (ws : List ℤ)
    → t + length ws * 10000 < 2 ^ 63
    → valid_weights (pos t) ws ≡ true
    → All Natural ws × (t + nat_sum ws ≡ 10000)
unfolding valid_weights nat_sum
valid_weights-sum t [] fits h = (tt, ground (arith, h))
valid_weights-sum t (w ∷ ws) fits h =
    let ranged : in_basis_points w ≡ true = ground (arith, h) in
    let others : valid_weights (add64 (pos t) w) ws ≡ true = ground (arith, h) in
    let natural = in_basis_points-Natural w ranged in
    let added : add64 (pos t) w ≡ pos (t + pos_part w) =
      ap (λ z. add64 (pos t) z) natural.0
      ∙ add64_pos t (pos_part w) (omega (arith, fits, natural.1)) in
    let rest =
      valid_weights-sum (t + pos_part w) ws (omega (arith, fits, natural.1))
        (subst (λ z. valid_weights z ws ≡ true) added others) in
    ((natural.0, rest.0), omega (arith, rest.1))

penalized_pos : (n k : ℕ) → n ≤ 10000 → k ≤ 10000 → penalized (pos n) (pos k) ≡ pos (n - k)
unfolding penalized sub64 wrap64
penalized_pos n k h l = ground arith

-- The names of the features stand in their order already.
features_sorted :
    (u : Unicode) (query candidate : Text) (p : ThresholdProfile)
    → sort name_precedes (all_features u query candidate p) ≡ all_features u query candidate p
unfolding all_features sort insert name_precedes lt_text
features_sorted u query candidate p = refl

all_features-IsPart :
    (u : Unicode) (query candidate : Text) (p : ThresholdProfile)
    → valid_weights (pos 0) (weights p) ≡ true
    → All IsPart (all_features u query candidate p)
      × (weight_sum (all_features u query candidate p) ≡ 10000)
unfolding all_features weight_sum nat_sum
all_features-IsPart u query candidate p valid =
    let qt = tokens query in
    let ct = tokens candidate in
    let ((ta, (e, (o, (ph, (l, _))))), sum) = valid_weights-sum 0 (weights p) (omega arith) valid in
    (
      (
        (best_edit_similarity_le query candidate qt ct, e),
        (
          (length_similarity_le query candidate, l),
          (
            (ordered_token_similarity_le qt ct, o),
            ((phonetic_similarity_le u qt ct, ph), ((token_alignment_similarity_le qt ct, ta), tt)),
          ),
        ),
      ),
      omega (arith, sum),
    )

token_penalty-Natural :
    (q c : Text) (qt ct : List Text) (p : ThresholdProfile)
    → in_basis_points p.single_token_penalty ≡ true
    → Natural (token_penalty q c qt ct p) × (pos_part (token_penalty q c qt ct p) ≤ 10000)
unfolding token_penalty
token_penalty-Natural q c qt ct p h =
    let natural = in_basis_points-Natural p.single_token_penalty h in
    elim (Bool-cases (not (eq_text q c) && (length qt == 1 || length ct == 1))) [
      | inl e ↦ rw e natural
      | inr e ↦ rw e (refl, omega arith)
    ]

score_name-explained :
    (u : Unicode) (query candidate : Text) (p : ThresholdProfile)
    → valid_numbers p ≡ true
    → ((score_name u query candidate p).total
        ≡ pos (
            contributed (score_name u query candidate p).features
            - pos_part (score_name u query candidate p).penalty))
      × (contributed (score_name u query candidate p).features ≤ 10000)
unfolding score_name valid_numbers
score_name-explained u query candidate p valid =
    let fs = all_features u query candidate p in
    let weighed : valid_weights (pos 0) (weights p) ≡ true = ground (arith, valid) in
    let ranged : in_basis_points p.single_token_penalty ≡ true = ground (arith, valid) in
    let part = all_features-IsPart u query candidate p weighed in
    let sum = total_from-sum 0 fs part.0 (omega (arith, part.1)) in
    let pen = token_penalty query candidate (tokens query) (tokens candidate) p in
    let natural =
      token_penalty-Natural query candidate (tokens query) (tokens candidate) p ranged in
    subst
      (λ gs.
        (penalized (total_from (pos 0) (map contribute gs)) pen
          ≡ pos (contributed (map contribute gs) - pos_part pen))
        × (contributed (map contribute gs) ≤ 10000))
      (sym (features_sorted u query candidate p))
      (
        ap (λ t. penalized t pen) (sum.0 ∙ ap pos (omega arith))
            ∙ ap (λ z. penalized (pos (contributed (map contribute fs))) z) natural.0
            ∙ penalized_pos (contributed (map contribute fs)) (pos_part pen)
                (omega (arith, sum.1, part.1)) natural.1,
        omega (arith, sum.1, part.1),
      )

-- Under a profile whose numbers pass the validation, the score that ScorePair returns is the sum of the
-- contributions in its evidence less the penalty that it returns, or 0 where the penalty is larger, and
-- the contributions sum to at most 10000; so no pair of names scores outside 0 to 10000.
pub score_pair-explained :
    (u : Unicode) (is_format : ℕ → Bool) (query candidate : Text) (p : ThresholdProfile)
    → valid_numbers p ≡ true
    → ((score_pair u is_format query candidate p).total
        ≡ pos (
            contributed (score_pair u is_format query candidate p).features
            - pos_part (score_pair u is_format query candidate p).penalty))
      × (contributed (score_pair u is_format query candidate p).features ≤ 10000)
unfolding score_pair
score_pair-explained u is_format query candidate p valid =
    score_name-explained u (fold u is_format query) (fold u is_format candidate) p valid
