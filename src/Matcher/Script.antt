-- ===== src/Matcher/Script.antt =====
-- The edit distance is the least cost of an edit script.
use watchlist_platform.Base.{
  ℕ, suc, ◌+◌, ◌≤◌, ◌≡◌, refl, sym, subst, ◌⊎◌, inl, inr, [], ◌∷◌, length, ◌==◌, Bool, true, false,
  if◌then◌else◌, arith,
}
use watchlist_platform.Base.Text.{Text}
use watchlist_platform.Matcher.Table.{onto, onto_twice, entry, table-eq-entry}
use watchlist_platform.Matcher.Edit.{min3, cost, edit_cell, levenshtein}

-- the ways to turn one text into another, with the number of runes changed, removed and inserted
pub data Script : Text → Text → ℕ → Type 0 where
  done : Script [] [] 0
  keep : {xs ys : Text} {n : ℕ} (x : ℕ) → Script xs ys n → Script (x ∷ xs) (x ∷ ys) n
  change : {xs ys : Text} {n : ℕ} (x y : ℕ) → Script xs ys n → Script (x ∷ xs) (y ∷ ys) (suc n)
  remove : {xs ys : Text} {n : ℕ} (x : ℕ) → Script xs ys n → Script (x ∷ xs) ys (suc n)
  add : {xs ys : Text} {n : ℕ} (y : ℕ) → Script xs ys n → Script xs (y ∷ ys) (suc n)

abbrev edits : Text → Text → ℕ
unfolding entry
edits = entry (λ i. i) edit_cell

min3_le : (a b c : ℕ) → (min3 a b c ≤ a) × (min3 a b c ≤ b) × (min3 a b c ≤ c)
unfolding min3
min3_le a b c = ground arith

min3-cases : (a b c : ℕ) → (min3 a b c ≡ a) ⊎ ((min3 a b c ≡ b) ⊎ (min3 a b c ≡ c))
unfolding min3
min3-cases a b c = ground arith

cost_self : (x : ℕ) → cost x x ≡ 0
unfolding cost
cost_self x = ground arith

cost_le : (x y : ℕ) → cost x y ≤ 1
unfolding cost
cost_le x y = ground arith

edits-remove : (x : ℕ) (xs ys : Text) → edits (x ∷ xs) ys ≤ suc (edits xs ys)
unfolding entry edit_cell
edits-remove x [] [] = omega arith
edits-remove x (x' ∷ xs) [] = omega arith
edits-remove x xs (y ∷ ys) =
    omega (arith, min3_le (edits (x ∷ xs) ys + 1) (edits xs (y ∷ ys) + 1) (edits xs ys + cost x y))

edits-add : (y : ℕ) (xs ys : Text) → edits xs (y ∷ ys) ≤ suc (edits xs ys)
unfolding entry edit_cell
edits-add y [] ys = omega arith
edits-add y (x ∷ xs) ys =
    omega (arith, min3_le (edits (x ∷ xs) ys + 1) (edits xs (y ∷ ys) + 1) (edits xs ys + cost x y))

edits-both : (x y : ℕ) (xs ys : Text) → edits (x ∷ xs) (y ∷ ys) ≤ edits xs ys + cost x y
unfolding entry edit_cell
edits-both x y xs ys =
    (min3_le (edits (x ∷ xs) ys + 1) (edits xs (y ∷ ys) + 1) (edits xs ys + cost x y)).2

edits_least : {xs ys : Text} {n : ℕ} → Script xs ys n → edits xs ys ≤ n
unfolding entry edit_cell
edits_least done = omega arith
edits_least (keep {xs} {ys} x s) = omega (arith, edits_least s, edits-both x x xs ys, cost_self x)
edits_least (change {xs} {ys} x y s) =
    omega (arith, edits_least s, edits-both x y xs ys, cost_le x y)
edits_least (remove {xs} {ys} x s) = omega (arith, edits_least s, edits-remove x xs ys)
edits_least (add {xs} {ys} y s) = omega (arith, edits_least s, edits-add y xs ys)

edits-nil : (ps : Text) → edits ps [] ≡ length ps
unfolding entry edit_cell
edits-nil [] = refl
edits-nil (p ∷ ps) = refl

Script-both :
    (x y : ℕ) {xs ys : Text} {n : ℕ} → Script xs ys n → Script (x ∷ xs) (y ∷ ys) (n + cost x y)
unfolding cost
Script-both x y {xs} {ys} {n} s = by_test (x == y) refl
  where
    by_test : (b : Bool) → (x == y) ≡ b → Script (x ∷ xs) (y ∷ ys) (n + (if b then 0 else 1))
    by_test true same =
        subst (λ z. Script (x ∷ xs) (z ∷ ys) (n + 0)) (ground (arith, same))
          (subst (Script (x ∷ xs) (x ∷ ys)) (omega arith) (keep x s))
    by_test false other = subst (Script (x ∷ xs) (y ∷ ys)) (omega arith) (change x y s)

edits_script : (xs ys : Text) → Script xs ys (edits xs ys)
unfolding entry edit_cell
edits_script [] [] = done
edits_script [] (y ∷ ys) = add y (edits_script [] ys)
edits_script (x ∷ xs) [] = remove x (subst (Script xs []) (edits-nil xs) (edits_script xs []))
edits_script (x ∷ xs) (y ∷ ys) =
    let a = edits_script (x ∷ xs) ys in
    let r = edits_script xs (y ∷ ys) in
    let b = edits_script xs ys in
    elim (min3-cases (edits (x ∷ xs) ys + 1) (edits xs (y ∷ ys) + 1) (edits xs ys + cost x y)) [
      | inl e ↦ subst (Script (x ∷ xs) (y ∷ ys)) (omega (arith, e)) (add y a)
      | inr (inl e) ↦ subst (Script (x ∷ xs) (y ∷ ys)) (omega (arith, e)) (remove x r)
      | inr (inr e) ↦ subst (Script (x ∷ xs) (y ∷ ys)) (sym e) (Script-both x y b)
    ]

Script-onto :
    {xs ys ps qs : Text} {m k : ℕ}
    → Script xs ys m
    → Script ps qs k
    → Script (onto xs ps) (onto ys qs) (m + k)
unfolding onto
Script-onto {ps} {qs} {k} done t = subst (Script ps qs) (omega arith) t
Script-onto (keep x s) t = Script-onto s (keep x t)
Script-onto {k} (change {n} x y s) t =
    subst (Script _ _) (omega arith) (Script-onto s (change x y t))
Script-onto {k} (remove {n} x s) t = subst (Script _ _) (omega arith) (Script-onto s (remove x t))
Script-onto {k} (add {n} y s) t = subst (Script _ _) (omega arith) (Script-onto s (add y t))

levenshtein-eq-edits :
    (left right : Text) → levenshtein left right ≡ edits (onto left []) (onto right [])
unfolding levenshtein edits entry
levenshtein-eq-edits left right = table-eq-entry (λ i. i) edit_cell left right

pub levenshtein_script : (left right : Text) → Script left right (levenshtein left right)
levenshtein_script left right =
    let s = Script-onto (edits_script (onto left []) (onto right [])) done in
    subst (λ x. Script x right (levenshtein left right)) (onto_twice left)
      (subst (λ y. Script (onto (onto left []) []) y (levenshtein left right)) (onto_twice right)
        (subst (Script _ _) (omega (arith, levenshtein-eq-edits left right)) s))

-- levenshtein returns the least cost of an edit script: there is one of that cost, and none of less.
pub levenshtein-least :
    (left right : Text)
    → Script left right (levenshtein left right)
      × ((n : ℕ) → Script left right n → levenshtein left right ≤ n)
levenshtein-least left right = (
  levenshtein_script left right,
  λ n s. omega (arith, levenshtein-eq-edits left right, edits_least (Script-onto s done)),
)
