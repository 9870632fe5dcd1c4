-- ===== src/Matcher/Similarity.antt =====
-- What the edit similarity says of two texts.
use native.Mathlib.Nat.{div-le_of_le-mul, le-div_iff_mul-le, mul-div_cancel_left}
use watchlist_platform.Base.{
  ℕ, zero, suc, ◌-◌, ◌*◌, ◌/◌, ◌≤◌, ◌≡◌, refl, ap, subst, ◌∙◌, ◌↔◌, [], ◌∷◌, length, arith,
}
use watchlist_platform.Base.Text.{Text}
use watchlist_platform.Matcher.Edit.{levenshtein, longer, similarity, edit_similarity}
use watchlist_platform.Matcher.Script.{
  Script, done, keep, change, remove, add, levenshtein_script, levenshtein-least,
}

Script-flip : {xs ys : Text} {n : ℕ} → Script xs ys n → Script ys xs n
Script-flip done = done
Script-flip (keep x s) = keep x (Script-flip s)
Script-flip (change x y s) = change y x (Script-flip s)
Script-flip (remove x s) = add x (Script-flip s)
Script-flip (add y s) = remove y (Script-flip s)

pub levenshtein_comm : (a b : Text) → levenshtein a b ≡ levenshtein b a
levenshtein_comm a b = omega (
  arith,
  (levenshtein-least a b).1 (levenshtein b a) (Script-flip (levenshtein_script b a)),
  (levenshtein-least b a).1 (levenshtein a b) (Script-flip (levenshtein_script a b)),
)

Script-same : (xs : Text) → Script xs xs 0
Script-same [] = done
Script-same (x ∷ xs) = keep x (Script-same xs)

Script-zero : {xs ys : Text} {n : ℕ} → Script xs ys n → n ≡ 0 → xs ≡ ys
Script-zero done h = refl
Script-zero (keep x s) h = ap (λ k. x ∷ k) (Script-zero s h)
Script-zero (change x y s) h = absurd (omega (arith, h))
Script-zero (remove x s) h = absurd (omega (arith, h))
Script-zero (add y s) h = absurd (omega (arith, h))

overwrite : (xs ys : Text) → Script xs ys (longer (length xs) (length ys))
overwrite [] [] = done
overwrite [] (y ∷ ys) = subst (Script [] (y ∷ ys)) (ground arith) (add y (overwrite [] ys))
overwrite (x ∷ xs) [] = subst (Script (x ∷ xs) []) (ground arith) (remove x (overwrite xs []))
overwrite (x ∷ xs) (y ∷ ys) =
    subst (Script (x ∷ xs) (y ∷ ys)) (ground arith) (change x y (overwrite xs ys))

pub levenshtein_le : (a b : Text) → levenshtein a b ≤ longer (length a) (length b)
levenshtein_le a b = (levenshtein-least a b).1 _ (overwrite a b)

pub levenshtein-eq-zero : (a b : Text) → (levenshtein a b ≡ 0) ↔ (a ≡ b)
levenshtein-eq-zero a b = (
  λ h. Script-zero (levenshtein_script a b) h,
  λ e.
      subst (λ z. levenshtein a z ≡ 0) e
        (omega (arith, (levenshtein-least a a).1 0 (Script-same a))),
)

similarity-suc : (m d : ℕ) → similarity (suc m) d ≡ (suc m - d) * 10000 / suc m
unfolding similarity
similarity-suc m d = ground arith

pub similarity_le : (m d : ℕ) → similarity m d ≤ 10000
unfolding similarity
similarity_le zero d = ground arith
similarity_le (suc m) d =
    rw (similarity-suc m d)
      (div-le_of_le-mul (suc m) {m = (suc m - d) * 10000} {n = 10000} (omega arith))

pub similarity_full : (m d : ℕ) → d ≤ m → (similarity m d ≡ 10000) ↔ (d ≡ 0)
unfolding similarity
similarity_full zero d h = (λ e. omega arith, λ e. refl)
similarity_full (suc m) d h = (
  λ e.
      let full : 10000 ≤ (suc m - d) * 10000 / suc m = omega (arith, e, similarity-suc m d) in
      omega (arith, (le-div_iff_mul-le {k = suc m} {x = 10000} (omega arith)).0 full),
  λ e.
      similarity-suc m d
      ∙ ap (λ k. k * 10000 / suc m) (omega (arith, e))
      ∙ mul-div_cancel_left 10000 {n = suc m} (omega arith),
)

-- The edit similarity of two texts is at most 10000, and 10000 exactly if they are equal; it does not
-- depend on which of the two comes first.
pub edit_similarity-faithful :
    (a b : Text)
    → (edit_similarity a b ≤ 10000)
      × ((edit_similarity a b ≡ 10000) ↔ (a ≡ b))
      × (edit_similarity a b ≡ edit_similarity b a)
unfolding edit_similarity
edit_similarity-faithful a b =
    let full =
      similarity_full (longer (length a) (length b)) (levenshtein a b) (levenshtein_le a b) in
    let same = levenshtein-eq-zero a b in
    (
      similarity_le (longer (length a) (length b)) (levenshtein a b),
      (λ h. same.0 (full.0 h), λ e. full.1 (same.1 e)),
      rw (levenshtein_comm a b) (ap (λ m. similarity m (levenshtein b a)) (ground arith)),
    )
