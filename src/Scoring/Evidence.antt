-- ===== src/Scoring/Evidence.antt =====
-- What the calls of `add` keep true of the components and the evidence of a candidate.
use watchlist_platform.Base.{
  ℕ, suc, ◌+◌, ◌*◌, ◌^◌, ◌≤◌, ◌≡◌, sym, ap, ◌∙◌, inl, inr, ◌||◌, is_empty, Bool-cases, Bool, true,
  false, List, [], ◌∷◌, ◌++◌, arith, All, length, length-append, length-optional, All-append,
  All-optional, optional, not,
}
use watchlist_platform.Base.Result.{ok}
use watchlist_platform.Base.Text.{Text, eq_text}
use watchlist_platform.Base.Int.{
  ℤ, pos, pos_part, neg_part, ◌+ℤ◌, ◌≤ℤ◌, lt_ℤ, eq_ℤ, add64_exact, Fits64, int_laws,
}
use watchlist_platform.Base.Unicode.{Unicode}
use watchlist_platform.Scoring.Types.{
  Policy, Subject, Candidate, Lineage, CandidateEnvelope, ScoreComponent, EvidenceItem,
}
use watchlist_platform.Scoring.Policy.{validate_policy, supporting, conflicting}
use watchlist_platform.Scoring.Bounds.{IsValidPolicy, validate_policy-IsValidPolicy}
use watchlist_platform.Scoring.Match.{
  NameShape, Outcome, identifier_match, best_name_match, date_match, set_match,
}
use watchlist_platform.Scoring.Normalize.{normalize_country, normalize_entity_type}
use watchlist_platform.Scoring.Candidate.{
  Tally, empty_tally, add, add_identifier, add_name, add_date, add_country, add_entity_type, tally,
  sum_points, clamp, score_candidate,
}

-- Weights that are small against 2 ^ 63.
abbrev pub IsSmall : ℤ → Type 0
IsSmall w = (pos_part w ≤ 2 ^ 60) × (neg_part w ≤ 2 ^ 60)

abbrev pub HasSmallWeights : Policy → Type 0
HasSmallWeights p = All IsSmall (supporting p.weights) × All IsSmall (conflicting p.weights)

-- The sum of the points as integers, without wrap-around.
unfoldable pub total : List ScoreComponent → ℤ
total [] = pos 0
total (c ∷ cs) = c.points +ℤ total cs

abbrev pub IsPoint : ScoreComponent → Type 0
IsPoint c = (eq_ℤ c.points (pos 0) ≡ false)

record IsKept (p : Policy) (n : ℕ) (t : Tally) : Type 0 where
  count : length t.components ≤ n
  points : All IsPoint t.components
  small : All (λ c. IsSmall c.points) t.components
  bounded : pos (length t.evidence) ≤ℤ p.max_evidence_items

evidence_bounded :
    (bound : ℤ) (xs : List EvidenceItem) (x : EvidenceItem)
    → pos (length xs) ≤ℤ bound
    → pos (length (xs ++ optional (lt_ℤ (pos (length xs)) bound) x)) ≤ℤ bound
unfolding optional
evidence_bounded bound xs x h = ground (arith, length-append xs (x ∷ []), length-append xs [])

module _ (p : Policy) (n : ℕ) (component : Text) (points : ℤ) (reason kind outcome sv cv : Text)
    (t : Tally) where
  made : ScoreComponent
  made = record { component = component; points = points; reason_code = reason }

  add-IsKept :
      IsSmall points
      → IsKept p n t
      → IsKept p (suc n) (add p.max_evidence_items component points reason kind outcome sv cv t)
  unfolding add made
  add-IsKept small k =
      let worth = not (eq_ℤ points (pos 0)) in
      let nonzero : worth ≡ true → IsPoint made = λ e. ground arith in
      record {
        count = omega (
          arith,
          k.count,
          length-append t.components (optional worth made),
          length-optional worth made,
        );
        points =
            All-append IsPoint t.components _ k.points (All-optional IsPoint worth made nonzero);
        small =
            All-append (λ c. IsSmall c.points) t.components _ k.small
              (All-optional (λ c. IsSmall c.points) worth made (λ _. small));
        bounded = evidence_bounded p.max_evidence_items t.evidence _ k.bounded;
      }

IsKept-suc : {p : Policy} {n : ℕ} {t : Tally} → IsKept p n t → IsKept p (suc n) t
IsKept-suc k = record {
  count = omega (arith, k.count);
  points = k.points;
  small = k.small;
  bounded = k.bounded;
}

-- Each of the five groups of calls adds at most one component.
module _ (p : Policy) (w : HasSmallWeights p) (n : ℕ) (t : Tally) (k : IsKept p n t) where
  identifier-IsKept : (m : Bool × Text × Text) → IsKept p (suc n) (add_identifier p m t)
  unfolding add_identifier
  identifier-IsKept (false, sv, cv) = IsKept-suc k
  identifier-IsKept (true, sv, cv) = add-IsKept p n _ _ _ _ _ _ _ t (omega arith) k

  name-IsKept : (m : NameShape × Text × Text) → IsKept p (suc n) (add_name p m t)
  unfolding add_name
  name-IsKept (NameShape.no_shape, sv, cv) = IsKept-suc k
  name-IsKept (_, sv, cv) = add-IsKept p n _ _ _ _ _ _ _ t (omega arith) k

  date-IsKept : (m : Outcome × Text × Text) → IsKept p (suc n) (add_date p m t)
  unfolding add_date
  date-IsKept (Outcome.no_outcome, sv, cv) = IsKept-suc k
  date-IsKept (_, sv, cv) = add-IsKept p n _ _ _ _ _ _ _ t (omega arith) k

  country-IsKept : (m : Outcome × Text × Text) → IsKept p (suc n) (add_country p m t)
  unfolding add_country
  country-IsKept (Outcome.no_outcome, sv, cv) = IsKept-suc k
  country-IsKept (Outcome.same_year, sv, cv) = IsKept-suc k
  country-IsKept (_, sv, cv) = add-IsKept p n _ _ _ _ _ _ _ t (omega arith) k

  entity_type-IsKept : (sv cv : Text) → IsKept p (suc n) (add_entity_type p sv cv t)
  unfolding add_entity_type
  entity_type-IsKept sv cv = elim (Bool-cases (is_empty sv || is_empty cv)) [
    | inl h ↦ rw h (IsKept-suc k)
    | inr h ↦ rw h (elim (Bool-cases (eq_text sv cv)) [
      | inl e ↦ rw e (add-IsKept p n _ _ _ _ _ _ _ t (omega arith) k)
      | inr e ↦ rw e (add-IsKept p n _ _ _ _ _ _ _ t (omega arith) k)
    ])
  ]

empty-IsKept : (p : Policy) → IsValidPolicy p → IsKept p 0 empty_tally
empty-IsKept p v = record {
  count = omega arith;
  points = tt;
  small = tt;
  bounded = omega (arith, v.evidence_low);
}

tally-IsKept :
    (u : Unicode) (p : Policy) (s : Subject) (c : Candidate)
    → IsValidPolicy p
    → HasSmallWeights p
    → IsKept p 5 (tally u p s c)
unfolding tally
tally-IsKept u p s c v w =
    let i = identifier_match u s.identifiers c.identifiers in
    let n = best_name_match u s.names c.names in
    let d = date_match s.dates_of_birth c.dates_of_birth in
    let l = set_match (normalize_country u) s.countries c.countries in
    let t₁ = add_identifier p i empty_tally in
    let t₂ = add_name p n t₁ in
    let t₃ = add_date p d t₂ in
    let k₁ = identifier-IsKept p w 0 empty_tally (empty-IsKept p v) i in
    let k₂ = name-IsKept p w 1 t₁ k₁ n in
    let k₃ = date-IsKept p w 2 t₂ k₂ d in
    let k₄ = country-IsKept p w 3 t₃ k₃ l in
    entity_type-IsKept p w 4 (add_country p l t₃) k₄ (normalize_entity_type u s.entity_type)
      (normalize_entity_type u c.entity_type)

abbrev IsWithin : ℕ → ℤ → Type 0
IsWithin k z = (pos_part z ≤ k * 2 ^ 60) × (neg_part z ≤ k * 2 ^ 60)

IsWithin-+ℤ : (k : ℕ) (a b : ℤ) → IsWithin k a → IsSmall b → IsWithin (suc k) (a +ℤ b)
unfolding ◌+ℤ◌
IsWithin-+ℤ k a b h m = ground arith

Fits64-within : (k : ℕ) (z : ℤ) → k ≤ 7 → IsWithin k z → Fits64 z
Fits64-within k z h w = omega arith

+ℤ_assoc : (a b c : ℤ) → a +ℤ b +ℤ c ≡ a +ℤ (b +ℤ c)
+ℤ_assoc a b c = omega int_laws

zero_+ℤ : (a : ℤ) → pos 0 +ℤ a ≡ a
zero_+ℤ a = omega int_laws

+ℤ_zero : (a : ℤ) → a +ℤ pos 0 ≡ a
+ℤ_zero a = omega int_laws

sum_points-total :
    (k : ℕ) (acc : ℤ) (cs : List ScoreComponent)
    → k + length cs ≤ 7
    → IsWithin k acc
    → All (λ c. IsSmall c.points) cs
    → sum_points acc cs ≡ acc +ℤ total cs
unfolding sum_points total
sum_points-total k acc [] h w m = sym (+ℤ_zero acc)
sum_points-total k acc (c ∷ cs) h w m =
    let next = IsWithin-+ℤ k acc c.points w m.0 in
    rw (add64_exact acc c.points (Fits64-within (suc k) _ (omega arith) next)) (
      sum_points-total (suc k) (acc +ℤ c.points) cs (omega arith) next m.1
      ∙ +ℤ_assoc acc c.points (total cs))

-- Under a policy that validatePolicy accepts, and whose weights are at most 2 ^ 60 in size, the score
-- of a candidate is the exact integer sum of the points of its components, clamped, with no
-- wrap-around; there are at most five components, none of zero points, and the evidence items are
-- no more than the policy allows.
pub score_candidate-explained :
    (u : Unicode) (p : Policy) (s : Subject) (l : Lineage) (e : CandidateEnvelope) {v : Unit {0}}
    → validate_policy p ≡ ok v
    → HasSmallWeights p
    → let r = score_candidate u p s l e in
      (r.score ≡ clamp p (total r.components))
      × (length r.components ≤ 5)
      × All IsPoint r.components
      × (pos (length r.evidence) ≤ℤ p.max_evidence_items)
unfolding score_candidate
score_candidate-explained u p s l e h w =
    let k = tally-IsKept u p s e.candidate (validate_policy-IsValidPolicy p h) w in
    (
      ap (clamp p)
          (sum_points-total 0 (pos 0) _ (omega (arith, k.count)) (omega arith) k.small ∙ zero_+ℤ _),
      k.count,
      k.points,
      k.bounded,
    )
