-- ===== src/Matcher/Search.antt =====
-- The candidate that is kept for each record is the best one.
use watchlist_platform.Base.{
  ◌≡◌, refl, sym, ap, ◌∙◌, inl, inr, Bool, true, false, ◌&&◌, ◌||◌, List, [], ◌∷◌, any, Bool-cases,
  arith,
}
use watchlist_platform.Base.Int.{ℤ, le_ℤ}
use watchlist_platform.Base.Text.{Text, eq_text, eq_text_iff, eq_text_refl}
use watchlist_platform.Matcher.Candidates.{ProviderCandidate, better_candidate, keep_candidate}

-- A candidate with the identifier, whose score is at least the given one.
unfoldable pub reaches : Text → ℤ → List ProviderCandidate → Bool
reaches id n l = any (λ c. eq_text c.provider_record_id id && le_ℤ n c.score) l

better-le : (l r : ProviderCandidate) → better_candidate l r ≡ true → le_ℤ r.score l.score ≡ true
unfolding better_candidate
better-le l r h = ground arith

worse-le : (l r : ProviderCandidate) → better_candidate l r ≡ false → le_ℤ l.score r.score ≡ true
unfolding better_candidate
worse-le l r h = ground arith

le_ℤ_refl : (a : ℤ) → le_ℤ a a ≡ true
le_ℤ_refl a = ground arith

le_ℤ_trans : (a b c : ℤ) → le_ℤ a b ≡ true → le_ℤ b c ≡ true → le_ℤ a c ≡ true
le_ℤ_trans a b c h k = ground arith

or_true : (b : Bool) → (b || true) ≡ true
or_true true = refl
or_true false = refl

reaches_nothing : (id : Text) (n : ℤ) → reaches id n [] ≡ true → ⊥
unfolding reaches
reaches_nothing id n h = cc

reaches-cons :
    (id : Text) (n : ℤ) (c : ProviderCandidate) (l m : List ProviderCandidate)
    → reaches id n (c ∷ l) ≡ true
    → (reaches id n l ≡ true → reaches id n m ≡ true)
    → reaches id n (c ∷ m) ≡ true
unfolding reaches
reaches-cons id n c l m h k =
    elim (Bool-cases (eq_text c.provider_record_id id && le_ℤ n c.score)) [
      | inl e ↦ rw e refl
      | inr e ↦ rw e (
          k (
            sym (ap (λ b. b || any (λ x. eq_text x.provider_record_id id && le_ℤ n x.score) l) e)
            ∙ h))
    ]

-- a candidate in the place of another with its identifier
reaches-replace :
    (id : Text) (n : ℤ) (old new : ProviderCandidate) (l : List ProviderCandidate)
    → old.provider_record_id ≡ new.provider_record_id
    → le_ℤ old.score new.score ≡ true
    → reaches id n (old ∷ l) ≡ true
    → reaches id n (new ∷ l) ≡ true
unfolding reaches
reaches-replace id n old new l same le h =
    elim (Bool-cases (eq_text old.provider_record_id id && le_ℤ n old.score)) [
      | inr e ↦
          let later : any (λ c. eq_text c.provider_record_id id && le_ℤ n c.score) l ≡ true =
            sym (ap (λ b. b || any (λ c. eq_text c.provider_record_id id && le_ℤ n c.score) l) e)
            ∙ h in
          rw later (or_true (eq_text new.provider_record_id id && le_ℤ n new.score))
      | inl e ↦
          let named : eq_text old.provider_record_id id ≡ true = ground (arith, e) in
          let bound : le_ℤ n old.score ≡ true = ground (arith, e) in
          let renamed : eq_text new.provider_record_id id ≡ true =
            ap (λ t. eq_text t id) (sym same) ∙ named in
          rw (renamed, le_ℤ_trans n old.score new.score bound le) refl
    ]

pub reaches-keep_candidate :
    (id : Text) (n : ℤ) (c : ProviderCandidate) (l : List ProviderCandidate)
    → reaches id n l ≡ true
    → reaches id n (keep_candidate c l) ≡ true
unfolding keep_candidate
reaches-keep_candidate id n c [] h = absurd (reaches_nothing id n h)
reaches-keep_candidate id n c (cur ∷ best) h =
    elim (Bool-cases (eq_text cur.provider_record_id c.provider_record_id)) [
      | inr e ↦ rw e (
          reaches-cons id n cur best (keep_candidate c best) h (reaches-keep_candidate id n c best))
      | inl e ↦ elim (Bool-cases (better_candidate c cur)) [
        | inr b ↦ rw (e, b) h
        | inl b ↦
            rw (e, b)
              (reaches-replace id n cur c best
                ((eq_text_iff cur.provider_record_id c.provider_record_id).0 e) (better-le c cur b)
                h)
      ]
    ]

-- the candidate that is kept, or a better one with its identifier
pub reaches-kept :
    (c : ProviderCandidate) (l : List ProviderCandidate)
    → reaches c.provider_record_id c.score (keep_candidate c l) ≡ true
unfolding keep_candidate reaches
reaches-kept c [] = rw (eq_text_refl c.provider_record_id, le_ℤ_refl c.score) refl
reaches-kept c (cur ∷ best) =
    elim (Bool-cases (eq_text cur.provider_record_id c.provider_record_id)) [
      | inr e ↦
          rw (e, reaches-kept c best)
            (or_true
              (eq_text cur.provider_record_id c.provider_record_id && le_ℤ c.score cur.score))
      | inl e ↦ elim (Bool-cases (better_candidate c cur)) [
        | inl b ↦ rw (e, b, eq_text_refl c.provider_record_id, le_ℤ_refl c.score) refl
        | inr b ↦ rw (e, b, e, worse-le c cur b) refl
      ]
    ]
