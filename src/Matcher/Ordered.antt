-- ===== src/Matcher/Ordered.antt =====
-- The ordered token similarity counts the longest matching of tokens that keeps their order.
use native.Mathlib.Nat.{div-le_of_le-mul}
use watchlist_platform.Base.{
  ℕ, zero, suc, ◌+◌, ◌*◌, ◌/◌, ◌≤◌, ◌≡◌, refl, subst, inl, inr, List, [], ◌∷◌, length, ltb, ◌==◌,
  true, if◌then◌else◌, Bool-cases, arith,
}
use watchlist_platform.Base.Text.{Text}
use watchlist_platform.Matcher.Table.{onto, onto_twice, entry, table-eq-entry}
use watchlist_platform.Matcher.Edit.{longer}
use watchlist_platform.Matcher.Tokens.{
  alike, ordered_cell, ordered_matches, ordered_token_similarity,
}

-- the ways to pair tokens of two lists that are alike and stand in the same order, with their number
pub data Matching : List Text → List Text → ℕ → Type 0 where
  done : Matching [] [] 0
  pair :
      {ls rs : List Text} {n : ℕ} (l r : Text)
      → alike l r ≡ true
      → Matching ls rs n
      → Matching (l ∷ ls) (r ∷ rs) (suc n)
  skip_left : {ls rs : List Text} {n : ℕ} (l : Text) → Matching ls rs n → Matching (l ∷ ls) rs n
  skip_right : {ls rs : List Text} {n : ℕ} (r : Text) → Matching ls rs n → Matching ls (r ∷ rs) n

abbrev matched : List Text → List Text → ℕ
unfolding entry
matched = entry (λ i. 0) ordered_cell

matched-nil : (ls : List Text) → matched ls [] ≡ 0
unfolding matched entry
matched-nil [] = refl
matched-nil (l ∷ ls) = refl

matched_none : (rs : List Text) → matched [] rs ≡ 0
unfolding matched entry
matched_none rs = refl

-- one more token adds at most one pair
abbrev IsNext : ℕ → ℕ → Type 0
IsNext a b = (a ≤ b) × (b ≤ suc a)

ordered_cell-IsNext :
    (l r : Text) {left above diagonal : ℕ}
    → IsNext diagonal left
    → IsNext diagonal above
    → IsNext left (ordered_cell l r left above diagonal)
      × IsNext above (ordered_cell l r left above diagonal)
unfolding ordered_cell
ordered_cell-IsNext l r h k = ground arith

matched-IsNext :
    (ls rs : List Text)
    → ((l : Text) → IsNext (matched ls rs) (matched (l ∷ ls) rs))
      × ((r : Text) → IsNext (matched ls rs) (matched ls (r ∷ rs)))
unfolding matched entry
matched-IsNext [] [] = (λ l. omega arith, λ r. omega arith)
matched-IsNext [] (r ∷ rs) = (
  λ l. (ordered_cell-IsNext l r ((matched-IsNext [] rs).0 l) ((matched-IsNext [] rs).1 r)).1,
  λ r'. omega arith,
)
matched-IsNext (l ∷ ls) [] = (
  λ l'. omega arith,
  λ r. (ordered_cell-IsNext l r ((matched-IsNext ls []).0 l) ((matched-IsNext ls []).1 r)).0,
)
matched-IsNext (l ∷ ls) (r ∷ rs) =
    let row = matched-IsNext (l ∷ ls) rs in
    let column = matched-IsNext ls (r ∷ rs) in
    (
      λ l'. (ordered_cell-IsNext l' r (row.0 l') (row.1 r)).1,
      λ r'. (ordered_cell-IsNext l r' (column.0 l) (column.1 r')).0,
    )

matched-pair :
    (l r : Text) (ls rs : List Text)
    → alike l r ≡ true
    → matched (l ∷ ls) (r ∷ rs) ≡ suc (matched ls rs)
unfolding matched entry ordered_cell
matched-pair l r ls rs h = rw h (omega arith)

matched_greatest : {ls rs : List Text} {n : ℕ} → Matching ls rs n → n ≤ matched ls rs
matched_greatest done = omega arith
matched_greatest (pair {ls} {rs} l r h m) =
    omega (arith, matched_greatest m, matched-pair l r ls rs h)
matched_greatest (skip_left {ls} {rs} l m) =
    omega (arith, matched_greatest m, ((matched-IsNext ls rs).0 l).0)
matched_greatest (skip_right {ls} {rs} r m) =
    omega (arith, matched_greatest m, ((matched-IsNext ls rs).1 r).0)

Matching-ordered_cell :
    (l r : Text) {ls rs : List Text} {left above diagonal : ℕ}
    → Matching (l ∷ ls) rs left
    → Matching ls (r ∷ rs) above
    → Matching ls rs diagonal
    → Matching (l ∷ ls) (r ∷ rs) (ordered_cell l r left above diagonal)
unfolding ordered_cell
Matching-ordered_cell l r {ls} {rs} {left} {above} m k d = elim (Bool-cases (alike l r)) [
  | inl h ↦ subst (Matching (l ∷ ls) (r ∷ rs)) (rw h (omega arith)) (pair l r h d)
  | inr h ↦ elim (Bool-cases (ltb left above)) [
    | inl e ↦ rw (h, e) (skip_left l k)
    | inr e ↦ rw (h, e) (skip_right r m)
  ]
]

matched-Matching : (ls rs : List Text) → Matching ls rs (matched ls rs)
unfolding matched entry
matched-Matching [] [] = done
matched-Matching [] (r ∷ rs) = skip_right r (matched-Matching [] rs)
matched-Matching (l ∷ ls) [] =
    skip_left l (subst (Matching ls []) (matched-nil ls) (matched-Matching ls []))
matched-Matching (l ∷ ls) (r ∷ rs) =
    Matching-ordered_cell l r (matched-Matching (l ∷ ls) rs) (matched-Matching ls (r ∷ rs))
      (matched-Matching ls rs)

Matching-onto :
    {ls rs ps qs : List Text} {m k : ℕ}
    → Matching ls rs m
    → Matching ps qs k
    → Matching (onto ls ps) (onto rs qs) (m + k)
unfolding onto
Matching-onto {ps} {qs} {k} done t = subst (Matching ps qs) (omega arith) t
Matching-onto {k} (pair {n} l r h m) t =
    subst (Matching _ _) (omega arith) (Matching-onto m (pair l r h t))
Matching-onto (skip_left l m) t = Matching-onto m (skip_left l t)
Matching-onto (skip_right r m) t = Matching-onto m (skip_right r t)

ordered_matches-eq-matched :
    (left right : List Text) → ordered_matches left right ≡ matched (onto left []) (onto right [])
unfolding ordered_matches matched entry
ordered_matches-eq-matched left right = table-eq-entry (λ i. 0) ordered_cell left right

ordered_matches-Matching :
    (left right : List Text) → Matching left right (ordered_matches left right)
ordered_matches-Matching left right =
    let m = Matching-onto (matched-Matching (onto left []) (onto right [])) done in
    subst (λ x. Matching x right (ordered_matches left right)) (onto_twice left)
      (subst (λ y. Matching (onto (onto left []) []) y (ordered_matches left right))
        (onto_twice right)
        (subst (Matching _ _) (omega (arith, ordered_matches-eq-matched left right)) m))

-- The table of orderedTokenSimilarity ends with the size of the largest matching that keeps the order
-- of the tokens: there is a matching of that size, and none is larger.
pub ordered_matches-largest :
    (left right : List Text)
    → Matching left right (ordered_matches left right)
      × ((n : ℕ) → Matching left right n → n ≤ ordered_matches left right)
ordered_matches-largest left right = (
  ordered_matches-Matching left right,
  λ n m.
      omega (arith, ordered_matches-eq-matched left right, matched_greatest (Matching-onto m done)),
)

Matching-le : {ls rs : List Text} {n : ℕ} → Matching ls rs n → (n ≤ length ls) × (n ≤ length rs)
Matching-le done = omega arith
Matching-le (pair l r h m) = omega (arith, Matching-le m)
Matching-le (skip_left l m) = omega (arith, Matching-le m)
Matching-le (skip_right r m) = omega (arith, Matching-le m)

pub ordered_token_similarity_le : (ls rs : List Text) → ordered_token_similarity ls rs ≤ 10000
unfolding ordered_token_similarity
ordered_token_similarity_le ls rs = by_length (longer (length ls) (length rs)) (ground arith)
  where
    fits : ordered_matches ls rs ≤ length ls
    fits = (Matching-le (ordered_matches-Matching ls rs)).0

    by_length :
        (m : ℕ)
        → length ls ≤ m
        → (if m == 0 then 10000 else ordered_matches ls rs * 10000 / m) ≤ 10000
    by_length zero h = ground arith
    by_length (suc m) h =
        let quotient : ordered_matches ls rs * 10000 / suc m ≤ 10000 =
          div-le_of_le-mul (suc m) {n = 10000} (omega (arith, fits, h)) in
        ground (arith, quotient)
