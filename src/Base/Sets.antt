-- ===== src/Base/Sets.antt =====
-- Sets of strings the way the source keeps them: a map of what was seen, then a sorted slice.
use mathlib.Core.Path.{◌≡◌, refl, sym, ap₂, subst, ◌∙◌}
use mathlib.Core.Logic.{inl, inr}
use mathlib.Core.Bool.{Bool, true, false, ◌&&◌, ◌||◌, not}
use mathlib.Core.List.{List, [], ◌∷◌, map}
use native.Mathlib.Omega.{arith}
use watchlist_platform.Base.Tests.{Bool-cases}
use watchlist_platform.Base.Lists.{All, is_empty}
use watchlist_platform.Base.Text.{
  Text, eq_text, eq_text_iff, eq_text_refl, lt_text, lt_text_irrefl, lt_text_asymm, lt_text_trans,
  lt_text_connex,
}
use watchlist_platform.Base.Sort.{insert, sort, insert-All, IsOrder}

unfoldable pub member : Text → List Text → Bool
member v [] = false
member v (x ∷ xs) = eq_text v x || member v xs

-- The strings that the normaliser yields, each once and none empty, behind those already seen.
unfoldable pub collect : (Text → Text) → List Text → List Text → List Text
unfolding member
collect f seen [] = []
collect f seen (x ∷ xs) =
    let n = f x in
    elim (is_empty n || member n seen) [
      | true ↦ collect f seen xs
      | false ↦ n ∷ collect f (n ∷ seen) xs
    ]

unfoldable pub unique_sorted : (Text → Text) → List Text → List Text
unfolding collect sort lt_text
unique_sorted f xs = sort lt_text (collect f [] xs)

abbrev pub Ascending : List Text → Type 0
Ascending [] = Unit
Ascending (x ∷ xs) = All (λ y. lt_text x y ≡ true) xs × Ascending xs

abbrev pub Distinct : List Text → Type 0
Distinct [] = Unit
Distinct (x ∷ xs) = (member x xs ≡ false) × Distinct xs

lt_text_negated : (a b c : Text) → lt_text b a ≡ false → lt_text c b ≡ false → lt_text c a ≡ false
lt_text_negated a b c h k = ground (arith, lt_text_trans c a b, lt_text_connex a b)

pub lt_text-IsOrder : IsOrder lt_text
lt_text-IsOrder = record { asymm = lt_text_asymm; trans = lt_text_negated }

pub member-cons_ne :
    (v x : Text) (l : List Text) → eq_text v x ≡ false → member v (x ∷ l) ≡ member v l
unfolding member
member-cons_ne v x l h = rw h

member-collect :
    (f : Text → Text) (v : Text) (seen xs : List Text)
    → member v (collect f seen xs)
      ≡ (not (member v seen) && (not (is_empty v) && member v (map f xs)))
unfolding member collect
member-collect f v seen [] = ground arith
member-collect f v seen (x ∷ xs) =
    ground
      (arith, eq_text_iff v (f x), member-collect f v seen xs, member-collect f v (f x ∷ seen) xs)

module _ (f : Text → Text) (seen : List Text) (x : Text) (xs : List Text) where
  collect_skip :
      (is_empty (f x) || member (f x) seen) ≡ true → collect f seen (x ∷ xs) ≡ collect f seen xs
  unfolding collect
  collect_skip h = ground arith

  collect_keep :
      (is_empty (f x) || member (f x) seen) ≡ false
      → collect f seen (x ∷ xs) ≡ f x ∷ collect f (f x ∷ seen) xs
  unfolding collect
  collect_keep h = ground arith

collect-fresh :
    (f : Text → Text) (v : Text) (seen xs : List Text) → member v (collect f (v ∷ seen) xs) ≡ false
unfolding member
collect-fresh f v seen xs = ground (arith, member-collect f v (v ∷ seen) xs, eq_text_refl v)

collect-Distinct : (f : Text → Text) (seen xs : List Text) → Distinct (collect f seen xs)
unfolding collect
collect-Distinct f seen [] = tt
collect-Distinct f seen (x ∷ xs) = elim (Bool-cases (is_empty (f x) || member (f x) seen)) [
  | inl h ↦ subst Distinct (sym (collect_skip f seen x xs h)) (collect-Distinct f seen xs)
  | inr h ↦
      subst Distinct (sym (collect_keep f seen x xs h))
        (collect-fresh f (f x) seen xs, collect-Distinct f (f x ∷ seen) xs)
]

member-insert :
    (v x : Text) (l : List Text) → member v (insert lt_text x l) ≡ (eq_text v x || member v l)
unfolding member insert
member-insert v x [] = refl
member-insert v x (y ∷ l) = ground (arith, member-insert v x l)

member-sort : (v : Text) (l : List Text) → member v (sort lt_text l) ≡ member v l
unfolding sort member
member-sort v [] = refl
member-sort v (x ∷ l) = rw (member-insert v x (sort lt_text l), member-sort v l)

All-above :
    (x y : Text) (l : List Text)
    → lt_text x y ≡ true
    → All (λ z. lt_text y z ≡ true) l
    → All (λ z. lt_text x z ≡ true) l
All-above x y [] h k = tt
All-above x y (z ∷ l) h k = (lt_text_trans x y z h k.0, All-above x y l h k.1)

member-above : (x : Text) (l : List Text) → All (λ z. lt_text x z ≡ true) l → member x l ≡ false
unfolding member
member-above x [] h = refl
member-above x (z ∷ l) h = ground (arith, eq_text_iff x z, lt_text_irrefl x, member-above x l h.1)

insert-Ascending :
    (x : Text) (l : List Text) → member x l ≡ false → Ascending l → Ascending (insert lt_text x l)
unfolding insert member
insert-Ascending x [] m h = (tt, tt)
insert-Ascending x (y ∷ l) m h = elim (Bool-cases (lt_text y x)) [
  | inl e ↦ rw e (
    insert-All lt_text (λ z. lt_text y z ≡ true) x l e h.0,
    insert-Ascending x l (ground arith) h.1,
  )
  | inr e ↦ rw e (
      let below : lt_text x y ≡ true = ground (arith, eq_text_iff x y, lt_text_connex x y) in
      ((below, All-above x y l below h.0), h))
]

sort-Ascending : (l : List Text) → Distinct l → Ascending (sort lt_text l)
unfolding sort
sort-Ascending [] h = tt
sort-Ascending (x ∷ l) h =
    insert-Ascending x (sort lt_text l) (member-sort x l ∙ h.0) (sort-Ascending l h.1)

pub unique_sorted-Ascending : (f : Text → Text) (xs : List Text) → Ascending (unique_sorted f xs)
unfolding unique_sorted
unique_sorted-Ascending f xs = sort-Ascending (collect f [] xs) (collect-Distinct f [] xs)

pub member-unique_sorted :
    (f : Text → Text) (v : Text) (xs : List Text)
    → member v (unique_sorted f xs) ≡ (not (is_empty v) && member v (map f xs))
unfolding unique_sorted member
member-unique_sorted f v xs = member-sort v (collect f [] xs) ∙ member-collect f v [] xs

-- The heads of two ascending lists with the same members.
heads_eq :
    (x y : Text) (xs ys : List Text)
    → Ascending (x ∷ xs)
    → Ascending (y ∷ ys)
    → ((v : Text) → member v (x ∷ xs) ≡ member v (y ∷ ys))
    → x ≡ y
unfolding member
heads_eq x y xs ys h k e = ground (
  arith,
  e x,
  e y,
  eq_text_refl x,
  eq_text_refl y,
  eq_text_iff x y,
  eq_text_iff y x,
  λ (p : lt_text x y ≡ true). member-above x ys (All-above x y ys p k.0),
  λ (p : lt_text y x ≡ true). member-above y xs (All-above y x xs p h.0),
  lt_text_connex x y,
)

tails_agree :
    (x : Text) (xs ys : List Text)
    → All (λ z. lt_text x z ≡ true) xs
    → All (λ z. lt_text x z ≡ true) ys
    → (v : Text) → member v (x ∷ xs) ≡ member v (x ∷ ys)
    → member v xs ≡ member v ys
unfolding member
tails_agree x xs ys h k v e =
    ground (arith, eq_text_iff v x, member-above x xs h, member-above x ys k)

-- An ascending list is determined by its members.
pub Ascending-ext :
    (xs ys : List Text)
    → Ascending xs
    → Ascending ys
    → ((v : Text) → member v xs ≡ member v ys)
    → xs ≡ ys
unfolding member
Ascending-ext [] [] h k e = refl
Ascending-ext [] (y ∷ ys) h k e = ground (arith, e y, eq_text_refl y)
Ascending-ext (x ∷ xs) [] h k e = ground (arith, e x, eq_text_refl x)
Ascending-ext (x ∷ xs) (y ∷ ys) h k e =
    let p = heads_eq x y xs ys h k e in
    ap₂ ◌∷◌ p (
      Ascending-ext xs ys h.1 k.1 (λ v.
        tails_agree x xs ys h.0 (subst (λ z. All (λ w. lt_text z w ≡ true) ys) (sym p) k.0) v
          (subst (λ z. member v (x ∷ xs) ≡ member v (z ∷ ys)) (sym p) (e v))))

-- The set depends on which strings the normaliser yields, not on their order or number.
pub unique_sorted-ext :
    (f : Text → Text) (xs ys : List Text)
    → ((v : Text) → member v (map f xs) ≡ member v (map f ys))
    → unique_sorted f xs ≡ unique_sorted f ys
unique_sorted-ext f xs ys e =
    Ascending-ext _ _ (unique_sorted-Ascending f xs) (unique_sorted-Ascending f ys)
      λ v. simp (member-unique_sorted, e v)

-- uniqueSorted returns the set of the non-empty normal forms: in strictly ascending order, a string
-- is in it exactly if it is not empty and some input normalises to it; so two inputs with the same
-- normal forms give the same slice.
pub unique_sorted-set :
    (f : Text → Text) (xs : List Text)
    → Ascending (unique_sorted f xs)
      × ((v : Text) → member v (unique_sorted f xs) ≡ (not (is_empty v) && member v (map f xs)))
      × ((ys : List Text)
          → ((v : Text) → member v (map f xs) ≡ member v (map f ys))
          → unique_sorted f xs ≡ unique_sorted f ys)
unique_sorted-set f xs =
    (unique_sorted-Ascending f xs, λ v. member-unique_sorted f v xs, unique_sorted-ext f xs)
