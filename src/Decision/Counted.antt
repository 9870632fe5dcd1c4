-- ===== src/Decision/Counted.antt =====
-- What the summary of a batch counts: one entry for each name, with the number of its occurrences.
use Prim.Native.Nat.{ℕ, ◌+◌}
use mathlib.Core.Path.{◌≡◌, refl, ap, ◌∙◌}
use native.Mathlib.Omega.{arith}
use watchlist_platform.Base.{List, [], ◌∷◌, ◌++◌}
use watchlist_platform.Base.Text.{Text}
use watchlist_platform.Decision.Types.{Decision}
use watchlist_platform.Decision.Evaluate.{disposition_text, route_text}
use watchlist_platform.Decision.Summary.{
  NamedCount, Counts, named_counts, count_decision, count_decisions, no_counts, summarize,
}
use watchlist_platform.Decision.Entries.{
  entries, entry, occurrences, occurrences-append, entries-increment, entries-increment_each,
  entries-sort,
}

-- the texts that the decisions of a batch have
unfoldable pub texts : (Decision → List Text) → List Decision → List Text
texts of [] = []
texts of (d ∷ ds) = of d ++ texts of ds

occurrences-texts :
    (name : Text) (of : Decision → List Text) (d : Decision) (ds : List Decision)
    → occurrences name (texts of (d ∷ ds))
      ≡ occurrences name (of d) + occurrences name (texts of ds)
unfolding texts
occurrences-texts name of d ds = occurrences-append name (of d) (texts of ds)

module _ (name : Text) where
  -- the entry of the name has the number
  abbrev Counted : List NamedCount → ℕ → Type 0
  Counted es n = entries name es ≡ entry name n

  abbrev disposition_names : List Decision → List Text
  disposition_names = texts (λ d. disposition_text d.disposition ∷ [])

  abbrev route_names : List Decision → List Text
  route_names = texts (λ d. route_text d.review_route ∷ [])

  one_decision :
      (d : Decision) (c : Counts) (m n o p : ℕ)
      → Counted c.dispositions m
      → Counted c.routes n
      → Counted c.reasons o
      → Counted c.blockers p
      → let after = count_decision d c in
        Counted after.dispositions (occurrences name (disposition_text d.disposition ∷ []) + m)
        × Counted after.routes (occurrences name (route_text d.review_route ∷ []) + n)
        × Counted after.reasons (occurrences name d.reason_codes + o)
        × Counted after.blockers (occurrences name d.escalation_blockers + p)
  unfolding count_decision
  one_decision d c m n o p hm hn ho hp = (
    entries-increment name (disposition_text d.disposition) m c.dispositions hm,
    entries-increment name (route_text d.review_route) n c.routes hn,
    entries-increment_each name d.reason_codes o c.reasons ho,
    entries-increment_each name d.escalation_blockers p c.blockers hp,
  )

  step :
      (of : Decision → List Text) (d : Decision) (ds : List Decision) (m : ℕ)
      → occurrences name (texts of ds) + (occurrences name (of d) + m)
        ≡ occurrences name (texts of (d ∷ ds)) + m
  step of d ds m = omega (arith, occurrences-texts name of d ds)

  Counted-count_decisions :
      (ds : List Decision) (c : Counts) (m n o p : ℕ)
      → Counted c.dispositions m
      → Counted c.routes n
      → Counted c.reasons o
      → Counted c.blockers p
      → let after = count_decisions ds c in
        Counted after.dispositions (occurrences name (disposition_names ds) + m)
        × Counted after.routes (occurrences name (route_names ds) + n)
        × Counted after.reasons (occurrences name (texts (λ d. d.reason_codes) ds) + o)
        × Counted after.blockers (occurrences name (texts (λ d. d.escalation_blockers) ds) + p)
  unfolding count_decisions texts occurrences
  Counted-count_decisions [] c m n o p hm hn ho hp = (
    hm ∙ ap (entry name) (omega arith),
    hn ∙ ap (entry name) (omega arith),
    ho ∙ ap (entry name) (omega arith),
    hp ∙ ap (entry name) (omega arith),
  )
  Counted-count_decisions (d ∷ ds) c m n o p hm hn ho hp =
      let (im, jn, ko, lp) = one_decision d c m n o p hm hn ho hp in
      let (a, b, x, y) = Counted-count_decisions ds (count_decision d c) _ _ _ _ im jn ko lp in
      (
        a ∙ ap (entry name) (step (λ z. disposition_text z.disposition ∷ []) d ds m),
        b ∙ ap (entry name) (step (λ z. route_text z.review_route ∷ []) d ds n),
        x ∙ ap (entry name) (step (λ z. z.reason_codes) d ds o),
        y ∙ ap (entry name) (step (λ z. z.escalation_blockers) d ds p),
      )

  -- The summary of a batch has under a disposition and a review route one entry, whose count is the
  -- number of decisions that have it, and under a reason code and a blocker one entry, whose count is
  -- how often it stands in the lists of the decisions; it has no entry where that is never.
  pub summarize-counted :
      (ds : List Decision)
      → let summary = summarize ds in
        (entries name summary.disposition_counts
          ≡ entry name (occurrences name (texts (λ d. disposition_text d.disposition ∷ []) ds)))
        × (entries name summary.review_route_counts
            ≡ entry name (occurrences name (texts (λ d. route_text d.review_route ∷ []) ds)))
        × (entries name summary.reason_code_counts
            ≡ entry name (occurrences name (texts (λ d. d.reason_codes) ds)))
        × (entries name summary.blocker_counts
            ≡ entry name (occurrences name (texts (λ d. d.escalation_blockers) ds)))
  unfolding summarize named_counts entries entry
  summarize-counted ds =
      let c = count_decisions ds no_counts in
      let (a, b, x, y) = Counted-count_decisions ds no_counts 0 0 0 0 refl refl refl refl in
      let sorted = entries-sort name in
      (
        sorted c.dispositions ∙ a ∙ ap (entry name) (omega arith),
        sorted c.routes ∙ b ∙ ap (entry name) (omega arith),
        sorted c.reasons ∙ x ∙ ap (entry name) (omega arith),
        sorted c.blockers ∙ y ∙ ap (entry name) (omega arith),
      )
