-- ===== src/Base/Sort.antt =====
-- sort.Slice, sort.SliceStable and sort.Strings: a stable insertion sort by a `less` test. Where
-- `less` leaves no two different elements tied, every sorting algorithm returns this list.
use mathlib.Core.Path.{◌≡◌, refl, sym, ap₂, ◌∙◌}
use mathlib.Core.Logic.{inl, inr}
use mathlib.Core.Bool.{Bool, true, false, ◌||◌}
use mathlib.Core.List.{List, [], ◌∷◌, Perm, Permᴰ, Pairwise, mem-cons_self}
use mathlib.Core.List.Perm
use mathlib.Core.List.Permᴰ
use native.Mathlib.Omega.{arith}
use watchlist_platform.Base.Tests.{if◌then◌else◌, Bool-cases}
use watchlist_platform.Base.Lists.{All, any}

module _ {ℓ} {A : Type ℓ} (less : A → A → Bool) where
  unfoldable pub insert : A → List A → List A
  insert x [] = x ∷ []
  insert x (y ∷ ys) = let rest = insert x ys in if less y x then y ∷ rest else x ∷ y ∷ ys

  unfoldable pub sort : List A → List A
  unfolding insert
  sort [] = []
  sort (x ∷ xs) = insert x (sort xs)

  -- No later element is below an earlier one.
  abbrev pub IsSorted : List A → Type ℓ
  IsSorted [] = Unit
  IsSorted (x ∷ xs) = All (λ y. less y x ≡ false) xs × IsSorted xs

  -- What a `less` function of the sort package promises.
  pub record IsOrder : Type ℓ where
    pub asymm : (a b : A) → less a b ≡ true → less b a ≡ false
    pub trans : (a b c : A) → less b a ≡ false → less c b ≡ false → less c a ≡ false

  abbrev pub Apart : A → A → Type 0
  Apart a b = (less a b || less b a) ≡ true

  pub Apart-prop : (a b : A) → IsProp (Apart a b)
  Apart-prop a b = hlevel

  pub Apart-sym : (a b : A) → Apart a b → Apart b a
  Apart-sym a b h = ground arith

  pub insert-perm : (x : A) (l : List A) → Perm (insert x l) (x ∷ l)
  unfolding insert
  insert-perm x [] = Perm.rfl
  insert-perm x (y ∷ ys) = elim (Bool-cases (less y x)) [
    | inl h ↦ rw h (Perm.trans (Perm.cons y (insert-perm x ys)) (Perm.swap x y ys))
    | inr h ↦ rw h Perm.rfl
  ]

  -- Sorting loses and invents nothing.
  pub sort-perm : (l : List A) → Perm (sort l) l
  unfolding sort
  sort-perm [] = Perm.rfl
  sort-perm (x ∷ xs) = Perm.trans (insert-perm x (sort xs)) (Perm.cons x (sort-perm xs))

  pub insert-All {κ} : (P : A → Type κ) (x : A) (l : List A) → P x → All P l → All P (insert x l)
  unfolding insert
  insert-All P x [] p h = (p, tt)
  insert-All P x (y ∷ ys) p h = elim (Bool-cases (less y x)) [
    | inl e ↦ rw e (h.0, insert-All P x ys p h.1)
    | inr e ↦ rw e (p, h)
  ]

  pub sort-All {κ} : (P : A → Type κ) (l : List A) → All P l → All P (sort l)
  unfolding sort
  sort-All P [] h = h
  sort-All P (x ∷ xs) h = insert-All P x (sort xs) h.0 (sort-All P xs h.1)

  All-insert {κ} : (P : A → Type κ) (x : A) (l : List A) → All P (insert x l) → P x × All P l
  unfolding insert
  All-insert P x [] = λ h. h
  All-insert P x (y ∷ ys) = elim (Bool-cases (less y x)) [
    | inl e ↦ rw e (λ h. let (p, rest) = All-insert P x ys h.1 in (p, (h.0, rest)))
    | inr e ↦ rw e (λ h. h)
  ]

  pub All-sort {κ} : (P : A → Type κ) (l : List A) → All P (sort l) → All P l
  unfolding sort
  All-sort P [] h = h
  All-sort P (x ∷ xs) h = let (p, rest) = All-insert P x (sort xs) h in (p, All-sort P xs rest)

  insert-any : (p : A → Bool) (x : A) (l : List A) → any p (insert x l) ≡ (p x || any p l)
  unfolding insert
  insert-any p x [] = refl
  insert-any p x (y ∷ ys) = ground (arith, insert-any p x ys)

  pub sort-any : (p : A → Bool) (l : List A) → any p (sort l) ≡ any p l
  unfolding sort
  sort-any p [] = refl
  sort-any p (x ∷ xs) = rw (insert-any p x (sort xs), sort-any p xs)

  module _ (o : IsOrder) where
    All-below :
        (x y : A) (l : List A)
        → less y x ≡ false
        → All (λ z. less z y ≡ false) l
        → All (λ z. less z x ≡ false) l
    All-below x y [] h k = tt
    All-below x y (z ∷ l) h k = (o.trans x y z h k.0, All-below x y l h k.1)

    pub insert-IsSorted : (x : A) (l : List A) → IsSorted l → IsSorted (insert x l)
    unfolding insert
    insert-IsSorted x [] s = (tt, tt)
    insert-IsSorted x (y ∷ ys) s = elim (Bool-cases (less y x)) [
      | inl e ↦
          rw e
            (insert-All (λ z. less z y ≡ false) x ys (o.asymm y x e) s.0, insert-IsSorted x ys s.1)
      | inr e ↦ rw e ((e, All-below x y ys e s.0), s)
    ]

    pub sort-IsSorted : (l : List A) → IsSorted (sort l)
    unfolding sort
    sort-IsSorted [] = tt
    sort-IsSorted (x ∷ xs) = insert-IsSorted x (sort xs) (sort-IsSorted xs)

    insert_comm_lt :
        (x y : A) (l : List A) → less x y ≡ true → insert x (insert y l) ≡ insert y (insert x l)
    unfolding insert
    insert_comm_lt x y [] h = ground (arith, o.asymm x y h)
    insert_comm_lt x y (z ∷ l) h = ground (
      arith,
      o.asymm x y h,
      o.asymm z x,
      o.trans y x z,
      o.trans z y x,
      o.trans x z y,
      o.trans x y z,
      insert_comm_lt x y l h,
    )

    insert_comm : (x y : A) (l : List A) → Apart x y → insert x (insert y l) ≡ insert y (insert x l)
    insert_comm x y l h = elim (Bool-cases (less x y)) [
      | inl e ↦ insert_comm_lt x y l e
      | inr e ↦ sym (insert_comm_lt y x l (rw e at h))
    ]

    -- Where no two elements tie, the order in which they come does not matter.
    pub sort_permᴰ : {l r : List A} → Permᴰ l r → Pairwise Apart l → sort l ≡ sort r
    unfolding sort
    sort_permᴰ Permᴰ.nil h = refl
    sort_permᴰ (Permᴰ.cons {l₁ = l} e p) (Pairwise.cons _ t) = ap₂ insert e (sort_permᴰ p t)
    sort_permᴰ (Permᴰ.swap {a} {b} {l = l} e f) (Pairwise.cons h _) =
        rw (← e, ← f) (insert_comm a b (sort l) (h b mem-cons_self))
    sort_permᴰ (Permᴰ.trans p q) h =
        sort_permᴰ p h ∙ sort_permᴰ q (Permᴰ.pairwise Apart-prop Apart-sym p h)
