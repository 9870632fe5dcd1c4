-- ===== src/Decision/Entries.antt =====
-- The entries of a name in a list of counts, as the operations of summarize and namedCounts change them.
use Prim.Native.Nat.{ℕ, zero, ◌+◌}
use mathlib.Core.Path.{◌≡◌, refl, sym, ap, subst, ◌∙◌}
use mathlib.Core.Logic.{inl, inr}
use native.Mathlib.Omega.{arith}
use watchlist_platform.Base.{suc, true, false, List, [], ◌∷◌, ◌++◌, if◌then◌else◌, Bool-cases}
use watchlist_platform.Base.Sort.{insert, sort}
use watchlist_platform.Base.Text.{Text, eq_text, eq_text_iff, eq_text_refl, lt_text, lt_text_irrefl}
use watchlist_platform.Decision.Summary.{NamedCount, increment, increment_each, name_precedes}

-- the entries of a list of counts with a name
unfoldable pub entries : Text → List NamedCount → List NamedCount
unfolding eq_text
entries name [] = []
entries name (e ∷ es) = let rest = entries name es in if eq_text e.name name then e ∷ rest else rest

-- the one entry that a name has which is counted so often, and none for a name that is not
unfoldable pub entry : Text → ℕ → List NamedCount
entry name zero = []
entry name (suc n) = record { name = name; count = suc n } ∷ []

-- how often a text stands in a list
unfoldable pub occurrences : Text → List Text → ℕ
unfolding eq_text
occurrences name [] = 0
occurrences name (k ∷ ks) =
    let rest = occurrences name ks in if eq_text k name then suc rest else rest

pub occurrences-append :
    (name : Text) (xs ys : List Text)
    → occurrences name (xs ++ ys) ≡ occurrences name xs + occurrences name ys
unfolding occurrences
occurrences-append name [] ys = omega arith
occurrences-append name (x ∷ xs) ys = elim (Bool-cases (eq_text x name)) [
  | inl h ↦ let later = occurrences-append name xs ys in rw h (omega arith)
  | inr h ↦ rw h (occurrences-append name xs ys)
]

empty_entry : (name : Text) (n : ℕ) → entry name n ≡ [] → n ≡ 0
unfolding entry
empty_entry name zero h = refl
empty_entry name (suc n) h = cc

entry-cons :
    (name : Text) (n : ℕ) (e : NamedCount) (es : List NamedCount)
    → e ∷ es ≡ entry name n
    → (n ≡ e.count) × (es ≡ [])
unfolding entry
entry-cons name zero e es h = cc
entry-cons name (suc n) e es h = (cc, cc)

entry-suc :
    (e : NamedCount) (name : Text) (n : ℕ) (es : List NamedCount)
    → e.name ≡ name
    → n ≡ e.count
    → es ≡ []
    → record e { count = suc e.count } ∷ es ≡ entry name (suc n)
unfolding entry
entry-suc e name n es same count last = cc

entries-increment_other :
    (name key : Text) (es : List NamedCount)
    → eq_text key name ≡ false
    → entries name (increment key es) ≡ entries name es
unfolding entries increment
entries-increment_other name key [] other = rw other refl
entries-increment_other name key (e ∷ es) other =
    let later = entries-increment_other name key es other in
    elim (Bool-cases (eq_text e.name key)) [
      | inl h ↦
          let same = ap (λ k. eq_text k name) ((eq_text_iff e.name key).0 h) in
          rw h (rw (same ∙ other) refl)
      | inr h ↦ rw h (rw later refl)
    ]

entries-increment_self :
    (key : Text) (n : ℕ) (es : List NamedCount)
    → entries key es ≡ entry key n
    → entries key (increment key es) ≡ entry key (suc n)
unfolding entries increment entry
entries-increment_self key n [] h = rw (eq_text_refl key, empty_entry key n (sym h)) refl
entries-increment_self key n (e ∷ es) h = elim (Bool-cases (eq_text e.name key)) [
  | inl q ↦
      let here : e ∷ entries key es ≡ entry key n =
        sym (ap (λ b. if b then e ∷ entries key es else entries key es) q) ∙ h in
      let (count, last) = entry-cons key n e (entries key es) here in
      rw q (rw q (entry-suc e key n (entries key es) ((eq_text_iff e.name key).0 q) count last))
  | inr q ↦
      let here : entries key es ≡ entry key n =
        sym (ap (λ b. if b then e ∷ entries key es else entries key es) q) ∙ h in
      rw q (rw q (entries-increment_self key n es here))
]

-- The entry of each name that is counted has the number.
pub entries-increment :
    (name key : Text) (n : ℕ) (es : List NamedCount)
    → entries name es ≡ entry name n
    → entries name (increment key es) ≡ entry name (occurrences name (key ∷ []) + n)
unfolding occurrences
entries-increment name key n es h = elim (Bool-cases (eq_text key name)) [
  | inl q ↦
      let same = (eq_text_iff key name).0 q in
      subst (λ k. entries name (increment k es) ≡ entry name (occurrences name (key ∷ []) + n))
        (sym same) (entries-increment_self name n es h ∙ ap (entry name) (rw q (omega arith)))
  | inr q ↦ entries-increment_other name key es q ∙ h ∙ ap (entry name) (rw q (omega arith))
]

pub entries-increment_each :
    (name : Text) (ks : List Text) (n : ℕ) (es : List NamedCount)
    → entries name es ≡ entry name n
    → entries name (increment_each ks es) ≡ entry name (occurrences name ks + n)
unfolding increment_each occurrences
entries-increment_each name [] n es h = h ∙ ap (entry name) (omega arith)
entries-increment_each name (k ∷ ks) n es h =
    let first = entries-increment name k n es h in
    let split = occurrences-append name (k ∷ []) ks in
    entries-increment_each name ks (occurrences name (k ∷ []) + n) (increment k es) first
    ∙ ap (entry name) (omega arith)

named_first :
    (name : Text) (e : NamedCount) (es : List NamedCount)
    → eq_text e.name name ≡ true
    → entries name (e ∷ es) ≡ e ∷ entries name es
unfolding entries
named_first name e es h = rw h refl

unnamed_first :
    (name : Text) (e : NamedCount) (es : List NamedCount)
    → eq_text e.name name ≡ false
    → entries name (e ∷ es) ≡ entries name es
unfolding entries
unnamed_first name e es h = rw h refl

same-not-precedes :
    (name : Text) (x e : NamedCount)
    → eq_text x.name name ≡ true
    → eq_text e.name name ≡ true
    → name_precedes x e ≡ false
unfolding name_precedes
same-not-precedes name x e h k =
    ap (λ n. lt_text n e.name) ((eq_text_iff x.name name).0 h ∙ sym ((eq_text_iff e.name name).0 k))
    ∙ lt_text_irrefl e.name

entries_swap :
    (name : Text) (e x : NamedCount) (es : List NamedCount)
    → name_precedes x e ≡ true
    → entries name (x ∷ e ∷ es) ≡ entries name (e ∷ x ∷ es)
unfolding entries
entries_swap name e x es h = elim (Bool-cases (eq_text x.name name)) [
  | inl p ↦ elim (Bool-cases (eq_text e.name name)) [
    | inl q ↦ cc (same-not-precedes name x e p q, h)
    | inr q ↦ rw p (rw q refl)
  ]
  | inr p ↦ elim (Bool-cases (eq_text e.name name)) [
    | inl q ↦ rw p (rw q refl)
    | inr q ↦ rw p (rw q refl)
  ]
]

entries-insert :
    (name : Text) (e : NamedCount) (es : List NamedCount)
    → entries name (insert name_precedes e es) ≡ entries name (e ∷ es)
unfolding entries insert
entries-insert name e [] = refl
entries-insert name e (x ∷ es) =
    let later = entries-insert name e es in
    elim (Bool-cases (name_precedes x e)) [
      | inl h ↦ rw h (rw later (entries_swap name e x es h))
      | inr h ↦ rw h refl
    ]

pub entries-sort :
    (name : Text) (es : List NamedCount) → entries name (sort name_precedes es) ≡ entries name es
unfolding entries sort
entries-sort name [] = refl
entries-sort name (e ∷ es) =
    let later = entries-sort name es in
    entries-insert name e (sort name_precedes es) ∙ rw later refl
