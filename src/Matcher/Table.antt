-- ===== src/Matcher/Table.antt =====
-- The tables that internal/matcherbaseline/similarity.go fills row by row. A row is a list; the inner
-- loop reads the cells of a row in order, so a row is walked where the source indexes it.
use mathlib.Core.List.{append-nil}
use watchlist_platform.Base.{ℕ, ◌+◌, ◌≡◌, refl, sym, ap, ◌∙◌, List, [], ◌∷◌, ◌++◌, length, arith}

-- a list read backwards, before another
unfoldable pub onto {ℓ} : {A : Type ℓ} → List A → List A → List A
onto [] ps = ps
onto (x ∷ xs) ps = onto xs (x ∷ ps)

-- the last cell of a row
unfoldable pub last_cell : List ℕ → ℕ
last_cell [] = 0
last_cell (cell ∷ []) = cell
last_cell (cell ∷ next ∷ cells) = last_cell (next ∷ cells)

-- `border` fills the first row and the first cell of each row; `cell` makes a cell from the two
-- elements and the cells to the left, above, and diagonally above.
module _ {ℓ} {A : Type ℓ} (border : ℕ → ℕ) (cell : A → A → ℕ → ℕ → ℕ → ℕ) where
  -- the cells after the one to the left; the row above starts at the diagonal cell
  unfoldable pub fill : A → ℕ → List ℕ → List A → List ℕ
  fill x left (diagonal ∷ above ∷ prev) (y ∷ ys) =
      let c = cell x y left above diagonal in c ∷ fill x c (above ∷ prev) ys
  fill x left prev ys = []

  -- the loop over the rows, from index `i`
  unfoldable pub rows : ℕ → List ℕ → List A → List A → List ℕ
  unfolding fill
  rows i prev [] right = prev
  rows i prev (x ∷ left) right =
      rows (i + 1) (border (i + 1) ∷ fill x (border (i + 1)) prev right) left right

  unfoldable pub first_row : ℕ → List A → List ℕ
  first_row i [] = border i ∷ []
  first_row i (y ∷ ys) = border i ∷ first_row (i + 1) ys

  unfoldable pub table : List A → List A → ℕ
  unfolding rows first_row last_cell
  table left right = last_cell (rows 0 (first_row 0 right) left right)

  -- the recursion that the table stores, over prefixes read backwards
  unfoldable pub entry : List A → List A → ℕ
  entry [] ys = border (length ys)
  entry (x ∷ xs) [] = border (length (x ∷ xs))
  entry (x ∷ xs) (y ∷ ys) = cell x y (entry (x ∷ xs) ys) (entry xs (y ∷ ys)) (entry xs ys)

  entry-nil : (ps : List A) → entry ps [] ≡ border (length ps)
  unfolding entry
  entry-nil [] = refl
  entry-nil (p ∷ ps) = refl

  -- the cells of a row after its first, for the prefixes `ps` and `qs` read so far
  rest : List A → List A → List A → List ℕ
  rest ps qs [] = []
  rest ps qs (y ∷ ys) = entry ps (y ∷ qs) ∷ rest ps (y ∷ qs) ys

  fill-rest :
      (x : A) (ps qs ys : List A)
      → fill x (entry (x ∷ ps) qs) (entry ps qs ∷ rest ps qs ys) ys ≡ rest (x ∷ ps) qs ys
  unfolding fill rest entry
  fill-rest x ps qs [] = refl
  fill-rest x ps qs (y ∷ ys) =
      ap (λ cells. entry (x ∷ ps) (y ∷ qs) ∷ cells) (fill-rest x ps (y ∷ qs) ys)

  rows-rest :
      (i : ℕ) (ps left right : List A)
      → i ≡ length ps
      → rows i (entry ps [] ∷ rest ps [] right) left right
        ≡ entry (onto left ps) [] ∷ rest (onto left ps) [] right
  unfolding rows onto
  rows-rest i ps [] right h = refl
  rows-rest i ps (x ∷ left) right h =
      let k : i + 1 ≡ length (x ∷ ps) = omega (arith, h) in
      let start : border (i + 1) ≡ entry (x ∷ ps) [] = ap border k ∙ sym (entry-nil (x ∷ ps)) in
      let above = entry ps [] ∷ rest ps [] right in
      ap (λ c. rows (i + 1) (c ∷ fill x c above right) left right) start
      ∙ ap (λ cells. rows (i + 1) (entry (x ∷ ps) [] ∷ cells) left right) (fill-rest x ps [] right)
      ∙ rows-rest (i + 1) (x ∷ ps) left right k

  first_row-rest :
      (i : ℕ) (qs ys : List A) → i ≡ length qs → first_row i ys ≡ entry [] qs ∷ rest [] qs ys
  unfolding first_row rest entry
  first_row-rest i qs [] h = ap (λ k. border k ∷ []) h
  first_row-rest i qs (y ∷ ys) h =
      rw (first_row-rest (i + 1) (y ∷ qs) ys (omega (arith, h)), h) refl

  last_cell-rest :
      (ps qs ys : List A) → last_cell (entry ps qs ∷ rest ps qs ys) ≡ entry ps (onto ys qs)
  unfolding last_cell rest onto
  last_cell-rest ps qs [] = refl
  last_cell-rest ps qs (y ∷ ys) = last_cell-rest ps (y ∷ qs) ys

  pub table-eq-entry :
      (left right : List A) → table left right ≡ entry (onto left []) (onto right [])
  unfolding table
  table-eq-entry left right =
      ap (λ row. last_cell (rows 0 row left right)) (first_row-rest 0 [] right refl)
      ∙ ap last_cell (rows-rest 0 [] left right refl)
      ∙ last_cell-rest (onto left []) [] right

module _ {ℓ} {A : Type ℓ} where
  onto-onto : (xs ps qs : List A) → onto (onto xs ps) qs ≡ onto ps (xs ++ qs)
  unfolding onto
  onto-onto [] ps qs = refl
  onto-onto (x ∷ xs) ps qs = onto-onto xs (x ∷ ps) qs

  pub onto_twice : (xs : List A) → onto (onto xs []) [] ≡ xs
  unfolding onto
  onto_twice xs = onto-onto xs [] [] ∙ append-nil xs

  pub length-onto : (xs ps : List A) → length (onto xs ps) ≡ length xs + length ps
  unfolding onto
  length-onto [] ps = omega arith
  length-onto (x ∷ xs) ps = omega (arith, length-onto xs (x ∷ ps))
