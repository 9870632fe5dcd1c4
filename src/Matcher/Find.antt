-- ===== src/Matcher/Find.antt =====
-- The binary search of Profile finds the profile with the identifier.
use watchlist_platform.Base.{
  ℕ, zero, suc, ◌+◌, ◌/◌, ◌≤◌, ◌<◌, ◌≡◌, refl, sym, subst, Bool, true, false, List, [], ◌∷◌, length,
  Option, none, some, ltb, if◌then◌else◌, Bool-cases, inl, inr, All, arith,
}
use watchlist_platform.Base.Text.{
  Text, eq_text, lt_text, eq_text_iff, lt_text_irrefl, lt_text_connex, lt_text_trans,
}
use watchlist_platform.Matcher.Profile.{
  ThresholdProfile, ProfileSet, valid_others, valid_profiles, search_from, search, at, at_least,
  with_id, profile,
}

true-ne : {b : Bool} → b ≡ true → b ≡ false → ⊥
true-ne h k = cc

refuted : (b : Bool) → (b ≡ true → ⊥) → b ≡ false
refuted true h = absurd (h refl)
refuted false h = refl

-- at the first index where the test holds, for a test that goes on to hold
search_from-first :
    (fuel : ℕ) (f : ℕ → Bool) (i j : ℕ)
    → ((a b : ℕ) → a ≤ b → f a ≡ true → f b ≡ true)
    → i ≤ j
    → j ≤ i + fuel
    → ((k : ℕ) → k < i → f k ≡ false)
    → f j ≡ true
    → ((k : ℕ) → k < search_from fuel f i j → f k ≡ false) × (f (search_from fuel f i j) ≡ true)
unfolding search_from
search_from-first zero f i j up le enough below above =
    (below, subst (λ k. f k ≡ true) (omega (arith, le, enough)) above)
search_from-first (suc fuel) f i j up le enough below above = elim (Bool-cases (ltb i j)) [
  | inr h ↦ rw h (below, subst (λ k. f k ≡ true) (ground (arith, le, h)) above)
  | inl h ↦
      let mid = (i + j) / 2 in
      let low : i ≤ mid = ground (arith, h) in
      let high : mid < j = ground (arith, h) in
      elim (Bool-cases (f mid)) [
        | inl e ↦
            rw (h, e) (search_from-first fuel f i mid up low (omega (arith, high, enough)) below e)
        | inr e ↦
            rw (h, e)
              (search_from-first fuel f (mid + 1) j up (omega (arith, high))
                (omega (arith, low, enough))
                (λ k less.
                  refuted (f k)
                    (λ holds. let later = up k mid (omega (arith, less)) holds in true-ne later e))
                above)
      ]
]

-- the identifiers ascend
abbrev Ascend : List ThresholdProfile → Type 0
Ascend [] = Unit
Ascend (p ∷ ps) = All (λ q. lt_text p.profile_id q.profile_id ≡ true) ps × Ascend ps

All-after :
    (a b : Text) (ps : List ThresholdProfile)
    → lt_text a b ≡ true
    → All (λ q. lt_text b q.profile_id ≡ true) ps
    → All (λ q. lt_text a q.profile_id ≡ true) ps
All-after a b [] h k = tt
All-after a b (p ∷ ps) h k = (lt_text_trans a b p.profile_id h k.0, All-after a b ps h k.1)

valid_others-Ascend :
    (previous : Text) (ps : List ThresholdProfile)
    → valid_others previous ps ≡ true
    → All (λ q. lt_text previous q.profile_id ≡ true) ps × Ascend ps
unfolding valid_others
valid_others-Ascend previous [] h = (tt, tt)
valid_others-Ascend previous (p ∷ ps) h =
    let first : lt_text previous p.profile_id ≡ true = ground (arith, h) in
    let rest : valid_others p.profile_id ps ≡ true = ground (arith, h) in
    let (after, ascend) = valid_others-Ascend p.profile_id ps rest in
    ((first, All-after previous p.profile_id ps first after), (after, ascend))

valid_profiles-Ascend : (ps : List ThresholdProfile) → valid_profiles ps ≡ true → Ascend ps
unfolding valid_profiles
valid_profiles-Ascend [] h = tt
valid_profiles-Ascend (p ∷ ps) h =
    let rest : valid_others p.profile_id ps ≡ true = ground (arith, h) in
    valid_others-Ascend p.profile_id ps rest

-- the first profile with the identifier, by a search through all of them
abbrev pub find_profile : Text → List ThresholdProfile → Option ThresholdProfile
find_profile id [] = none
find_profile id (p ∷ ps) =
    let later = find_profile id ps in if eq_text p.profile_id id then some p else later

at_least-suc :
    (id : Text) (p : ThresholdProfile) (ps : List ThresholdProfile) (i : ℕ)
    → at_least id (p ∷ ps) (suc i) ≡ at_least id ps i
unfolding at_least at
at_least-suc id p ps i = refl

lt_text-ne : (id other : Text) → lt_text id other ≡ true → eq_text other id ≡ false
lt_text-ne id other h = refuted (eq_text other id) (λ e.
    true-ne (subst (λ x. lt_text id x ≡ true) ((eq_text_iff other id).0 e) h) (lt_text_irrefl id))

lt_text-ne_sym : (id other : Text) → lt_text other id ≡ true → eq_text other id ≡ false
lt_text-ne_sym id other h = refuted (eq_text other id) (λ e.
    true-ne (subst (λ x. lt_text x id ≡ true) ((eq_text_iff other id).0 e) h) (lt_text_irrefl id))

find_none :
    (id : Text) (ps : List ThresholdProfile)
    → All (λ q. lt_text id q.profile_id ≡ true) ps
    → find_profile id ps ≡ none
find_none id [] h = refl
find_none id (p ∷ ps) h = rw (lt_text-ne id p.profile_id h.0) (find_none id ps h.1)

-- from the end of the list on, the test of the search holds
at_least_length : (id : Text) (ps : List ThresholdProfile) → at_least id ps (length ps) ≡ true
unfolding at_least at
at_least_length id [] = refl
at_least_length id (p ∷ ps) = at_least_length id ps

at_least-All :
    (id : Text) (ps : List ThresholdProfile) (i : ℕ)
    → All (λ q. lt_text q.profile_id id ≡ false) ps
    → at_least id ps i ≡ true
unfolding at_least at
at_least-All id [] i h = refl
at_least-All id (p ∷ ps) zero h = rw h.0 refl
at_least-All id (p ∷ ps) (suc i) h = at_least-All id ps i h.1

All-above :
    (id b : Text) (ps : List ThresholdProfile)
    → lt_text b id ≡ false
    → All (λ q. lt_text b q.profile_id ≡ true) ps
    → All (λ q. lt_text q.profile_id id ≡ false) ps
All-above id b [] h k = tt
All-above id b (q ∷ ps) h k = (
  refuted (lt_text q.profile_id id) (λ e. true-ne (lt_text_trans b q.profile_id id k.0 e) h),
  All-above id b ps h k.1,
)

at_least_mono :
    (id : Text) (ps : List ThresholdProfile)
    → Ascend ps
    → (a b : ℕ) → a ≤ b
    → at_least id ps a ≡ true
    → at_least id ps b ≡ true
unfolding at_least at
at_least_mono id [] s a b le h = refl
at_least_mono id (p ∷ ps) s zero zero le h = h
at_least_mono id (p ∷ ps) s zero (suc b) le h =
    at_least-All id ps b (All-above id p.profile_id ps (ground (arith, h)) s.0)
at_least_mono id (p ∷ ps) s (suc a) zero le h = absurd (omega (arith, le))
at_least_mono id (p ∷ ps) s (suc a) (suc b) le h = at_least_mono id ps s.1 a b (omega (arith, le)) h

above_id : (a id : Text) → lt_text a id ≡ false → eq_text a id ≡ false → lt_text id a ≡ true
above_id a id h k = elim (Bool-cases (lt_text id a)) [
  | inl e ↦ e
  | inr e ↦ absurd (true-ne ((eq_text_iff a id).1 (lt_text_connex a id h e)) k)
]

-- the profile at the first index where the test holds is the one that is looked for
at-first :
    (id : Text) (ps : List ThresholdProfile) (r : ℕ)
    → Ascend ps
    → ((k : ℕ) → k < r → at_least id ps k ≡ false)
    → at_least id ps r ≡ true
    → with_id id (at r ps) ≡ find_profile id ps
unfolding at_least at with_id
at-first id [] r s below here = refl
at-first id (p ∷ ps) zero s below here = elim (Bool-cases (eq_text p.profile_id id)) [
  | inl e ↦ rw e refl
  | inr e ↦
      let reaches : lt_text p.profile_id id ≡ false = ground (arith, here) in
      let above = above_id p.profile_id id reaches e in
      rw e (sym (find_none id ps (All-after id p.profile_id ps above s.0)))
]
at-first id (p ∷ ps) (suc r) s below here =
    let first : lt_text p.profile_id id ≡ true = ground (arith, below 0 (omega arith)) in
    let other = lt_text-ne_sym id p.profile_id first in
    rw other (at-first id ps r s.1 (λ k less. below (suc k) (omega (arith, less))) here)

-- In a set whose profiles pass the validation, the binary search returns what a search through all the
-- profiles returns: the profile that has the identifier, or none where no profile has it.
pub profile-eq-find :
    (set : ProfileSet) (id : Text)
    → valid_profiles set.profiles ≡ true
    → profile set id ≡ find_profile id set.profiles
unfolding profile search
profile-eq-find set id valid =
    let s = valid_profiles-Ascend set.profiles valid in
    let found =
      search_from-first (length set.profiles) (at_least id set.profiles) 0 (length set.profiles)
        (at_least_mono id set.profiles s) (omega arith) (omega arith)
        (λ k less. absurd (omega (arith, less))) (at_least_length id set.profiles) in
    at-first id set.profiles _ s found.0 found.1
