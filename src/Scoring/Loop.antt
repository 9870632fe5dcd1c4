-- ===== src/Scoring/Loop.antt =====
-- The loop of Score: the results it collects, the ids it accepts, and why no two results tie.
use mathlib.Core.List.{Pairwise, Mem, not-mem-nil, mem-cons}
use mathlib.Core.Logic.Or
use watchlist_platform.Base.{
  ◌≡◌, refl, sym, ap, subst, ◌∙◌, inl, inr, true, false, List, [], ◌∷◌, map, arith, All, Bool-cases,
}
use watchlist_platform.Base.Result.{ok, err, ◌>>=◌, bind_ok}
use watchlist_platform.Base.Text.{Text, eq_text, eq_text_iff, eq_text_refl, trim_space}
use watchlist_platform.Base.Sort.{Apart, Apart-prop}
use watchlist_platform.Base.Sets.{member, Distinct}
use watchlist_platform.Base.Unicode.{Unicode}
use watchlist_platform.Scoring.Types.{
  Policy, Subject, Lineage, CandidateEnvelope, CandidateResult, duplicate_candidate,
}
use watchlist_platform.Scoring.Candidate.{score_candidate}
use watchlist_platform.Scoring.Engine.{score_loop, less_result}
use watchlist_platform.Scoring.Order.{Apart-of_ids}

abbrev pub trimmed_id : CandidateEnvelope → Text
trimmed_id e = trim_space e.candidate.candidate_id

-- What the map `seen` of the loop enforces.
abbrev pub IsFresh : List Text → List CandidateEnvelope → Type 0
IsFresh seen [] = Unit
IsFresh seen (e ∷ es) = (member (trimmed_id e) seen ≡ false) × IsFresh (trimmed_id e ∷ seen) es

member_cons :
    (v x : Text) (seen : List Text)
    → member v (x ∷ seen) ≡ false
    → (eq_text v x ≡ false) × (member v seen ≡ false)
unfolding member
member_cons v x seen h = ground arith

abbrev pub IsUnseen : List Text → List Text → Type 0
IsUnseen seen = All (λ v. member v seen ≡ false)

IsUnseen-cons :
    (x : Text) (seen ids : List Text)
    → IsUnseen (x ∷ seen) ids
    → (member x ids ≡ false) × IsUnseen seen ids
unfolding member
IsUnseen-cons x seen [] h = (refl, tt)
IsUnseen-cons x seen (v ∷ ids) h =
    let (away, kept) = IsUnseen-cons x seen ids h.1 in
    let (ne, new) = member_cons v x seen h.0 in
    (ground (arith, eq_text_iff x v, eq_text_iff v x, away), (new, kept))

cons-IsUnseen :
    (x : Text) (seen ids : List Text)
    → member x ids ≡ false
    → IsUnseen seen ids
    → IsUnseen (x ∷ seen) ids
unfolding member
cons-IsUnseen x seen [] a k = tt
cons-IsUnseen x seen (v ∷ ids) a k = (
  ground (arith, eq_text_iff x v, eq_text_iff v x, k.0),
  cons-IsUnseen x seen ids (ground arith) k.1,
)

pub Distinct-of_IsFresh :
    (seen : List Text) (es : List CandidateEnvelope)
    → IsFresh seen es
    → Distinct (map trimmed_id es) × IsUnseen seen (map trimmed_id es)
Distinct-of_IsFresh seen [] f = (tt, tt)
Distinct-of_IsFresh seen (e ∷ es) f =
    let (d, n) = Distinct-of_IsFresh (trimmed_id e ∷ seen) es f.1 in
    let (away, kept) = IsUnseen-cons (trimmed_id e) seen (map trimmed_id es) n in
    ((away, d), (f.0, kept))

pub IsFresh-of_Distinct :
    (seen : List Text) (es : List CandidateEnvelope)
    → Distinct (map trimmed_id es)
    → IsUnseen seen (map trimmed_id es)
    → IsFresh seen es
IsFresh-of_Distinct seen [] d n = tt
IsFresh-of_Distinct seen (e ∷ es) d n = (
  n.0,
  IsFresh-of_Distinct (trimmed_id e ∷ seen) es d.1 (cons-IsUnseen (trimmed_id e) seen _ d.0 n.1),
)

pub IsUnseen-nil : (ids : List Text) → IsUnseen [] ids
unfolding member
IsUnseen-nil [] = tt
IsUnseen-nil (v ∷ ids) = (refl, IsUnseen-nil ids)

module _ (u : Unicode) (p : Policy) (s : Subject) (l : Lineage) where
  abbrev pub result : CandidateEnvelope → CandidateResult
  result e = score_candidate u p s l e

  score_loop_new :
      (seen : List Text) (e : CandidateEnvelope) (es : List CandidateEnvelope)
      → member (trimmed_id e) seen ≡ false
      → score_loop u p s l seen (e ∷ es)
        ≡ (score_loop u p s l (trimmed_id e ∷ seen) es >>= λ rest. ok (result e ∷ rest))
  unfolding score_loop
  score_loop_new seen e es h = ground arith

  score_loop_seen :
      (seen : List Text) (e : CandidateEnvelope) (es : List CandidateEnvelope)
      → member (trimmed_id e) seen ≡ true
      → score_loop u p s l seen (e ∷ es) ≡ err (duplicate_candidate (trimmed_id e))
  unfolding score_loop
  score_loop_seen seen e es h = ground arith

  pub score_loop-ok :
      (seen : List Text) (es : List CandidateEnvelope) {rs : List CandidateResult}
      → score_loop u p s l seen es ≡ ok rs
      → (rs ≡ map result es) × IsFresh seen es
  unfolding score_loop
  score_loop-ok seen [] h = (ground arith, tt)
  score_loop-ok seen (e ∷ es) {rs} h = elim (Bool-cases (member (trimmed_id e) seen)) [
    | inl m ↦ cc (h, score_loop_seen seen e es m)
    | inr m ↦
        let id = trimmed_id e in
        let (rest, done, q) =
          bind_ok (score_loop u p s l (id ∷ seen) es) (λ rest. ok (result e ∷ rest))
            (sym (score_loop_new seen e es m) ∙ h) in
        let (same, fresh) = score_loop-ok (id ∷ seen) es done in (cc (q, same), (m, fresh))
  ]

  pub score_loop-total :
      (seen : List Text) (es : List CandidateEnvelope)
      → IsFresh seen es
      → score_loop u p s l seen es ≡ ok (map result es)
  unfolding score_loop
  score_loop-total seen [] h = refl
  score_loop-total seen (e ∷ es) h = ground (arith, score_loop-total (trimmed_id e ∷ seen) es h.1)

  ids_equal :
      (e x : CandidateEnvelope)
      → (result e).candidate_id ≡ (result x).candidate_id
      → e.candidate.candidate_id ≡ x.candidate.candidate_id
  unfolding score_candidate
  ids_equal e x h = h

  results-Apart :
      (e : CandidateEnvelope) (seen : List Text) (es : List CandidateEnvelope)
      → member (trimmed_id e) seen ≡ true
      → IsFresh seen es
      → All (λ r. Apart less_result (result e) r) (map result es)
  unfolding member
  results-Apart e seen [] m f = tt
  results-Apart e seen (x ∷ es) m f = (
    Apart-of_ids (result e) (result x)
        (λ q. cc (m, f.0, ap (λ i. member (trim_space i) seen) (ids_equal e x q))),
    results-Apart e (trimmed_id x ∷ seen) es (ground (arith, m)) f.1,
  )

All-mem {ℓ κ} :
    {A : Type ℓ} (P : A → Type κ) (prop : (a : A) → IsProp (P a)) (xs : List A)
    → All P xs
    → (a : A) → Mem a xs
    → P a
All-mem P prop [] h a m = absurd (not-mem-nil m)
All-mem P prop (x ∷ xs) h a m =
    Or.elim (prop a) (mem-cons.0 m) (λ e. subst P (sym e) h.0) (All-mem P prop xs h.1 a)

pub results-Pairwise :
    (u : Unicode) (p : Policy) (s : Subject) (l : Lineage) (seen : List Text)
    (es : List CandidateEnvelope)
    → IsFresh seen es
    → Pairwise (Apart less_result) (map (result u p s l) es)
unfolding member
results-Pairwise u p s l seen [] f = Pairwise.nil
results-Pairwise u p s l seen (e ∷ es) f =
    let id = trimmed_id e in
    let first : member id (id ∷ seen) ≡ true = ground (arith, eq_text_refl id) in
    Pairwise.cons
      (All-mem (Apart less_result (result u p s l e)) (Apart-prop less_result (result u p s l e)) _
        (results-Apart u p s l e (id ∷ seen) es first f.1))
      (results-Pairwise u p s l (id ∷ seen) es f.1)
