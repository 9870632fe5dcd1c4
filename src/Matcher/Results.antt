-- ===== src/Matcher/Results.antt =====
-- The candidates that SearchWithDiagnostics returns: which entries they come from, and that none is
-- missed.
use watchlist_platform.Base.{
  ◌≡◌, sym, ap, subst, ◌∙◌, ◌⊎◌, inl, inr, Bool, true, false, ◌&&◌, not, List, [], ◌∷◌, ◌++◌, any,
  is_empty, Option, some, if◌then◌else◌, Bool-cases, All, All-append, arith,
}
use watchlist_platform.Base.Result.{ok, bind_ok, ok-injective}
use watchlist_platform.Base.Int.{le_ℤ}
use watchlist_platform.Base.Sort.{sort, sort-All, sort-any}
use watchlist_platform.Base.Text.{eq_text}
use watchlist_platform.Matcher.Fold.{fold}
use watchlist_platform.Matcher.Profile.{ThresholdProfile, ProfileSet, profile}
use watchlist_platform.Matcher.Candidates.{
  NameEntry, ProviderCandidate, SearchRequest, has_name_route, candidate_precedes,
  diagnostic_precedes,
}
use watchlist_platform.Matcher.Provider.{
  Host, Found, search_entries, search_exact, search_names, search_with_diagnostics,
}
use watchlist_platform.Matcher.Found.{
  IsFrom, IsAccepted, IsFrom-IsAccepted, search_entries-All, search_entries_complete,
}
use watchlist_platform.Matcher.Search.{reaches}

module _ (h : Host) (profiles : ProfileSet) (entries : List NameEntry)
    (exact_search : SearchRequest → Option (List ProviderCandidate)) where
  abbrev nothing : Found
  nothing = record { candidates = []; diagnostics = [] }

  abbrev sorted_found : SearchRequest → List ProviderCandidate → ThresholdProfile → Found
  sorted_found r exact p =
      let found =
        search_entries h profiles p r (fold h.unicode h.is_format r.normalized_value) entries
          nothing in
      record {
        candidates = sort candidate_precedes (exact ++ found.candidates);
        diagnostics = sort diagnostic_precedes found.diagnostics;
      }

  empty_query :
      (r : SearchRequest) (exact : List ProviderCandidate) (p : ThresholdProfile) {found : Found}
      → is_empty (fold h.unicode h.is_format r.normalized_value) ≡ true
      → search_names h profiles entries exact_search r exact (some p) ≡ ok found
      → record { candidates = exact; diagnostics = [] } ≡ found
  unfolding search_names
  empty_query r exact p o s =
      let query = fold h.unicode h.is_format r.normalized_value in
      ok-injective (
        sym (
          ap
            (λ b.
              if b
              then ok (record { candidates = exact; diagnostics = [] })
              else ok (sorted_found r exact p))
            o)
        ∙ s)

  some_query :
      (r : SearchRequest) (exact : List ProviderCandidate) (p : ThresholdProfile) {found : Found}
      → is_empty (fold h.unicode h.is_format r.normalized_value) ≡ false
      → search_names h profiles entries exact_search r exact (some p) ≡ ok found
      → sorted_found r exact p ≡ found
  unfolding search_names
  some_query r exact p o s = ok-injective (
      sym (
        ap
          (λ b.
            if b
            then ok (record { candidates = exact; diagnostics = [] })
            else ok (sorted_found r exact p))
          o)
      ∙ s)

  any-after :
      (test : ProviderCandidate → Bool) (xs ys : List ProviderCandidate)
      → any test ys ≡ true
      → any test (xs ++ ys) ≡ true
  any-after test [] ys k = k
  any-after test (x ∷ xs) ys k = ground (arith, any-after test xs ys k)

  -- what a call that returns has found, by the tests that it makes
  search_names_inv :
      (r : SearchRequest) {exact : List ProviderCandidate} {p : ThresholdProfile} {found : Found}
      → search_exact h profiles entries exact_search r ≡ ok exact
      → profile profiles r.threshold_profile ≡ some p
      → search_with_diagnostics h profiles entries exact_search r ≡ ok found
      → (if not (has_name_route r.match_routes)
          then ok (record { candidates = exact; diagnostics = [] })
          else search_names h profiles entries exact_search r exact (some p))
        ≡ ok found
  unfolding search_with_diagnostics
  search_names_inv r {exact} {p} {found} e q s =
      let (x, hx, rest) = bind_ok (search_exact h profiles entries exact_search r) _ s in
      let same : x ≡ exact = ok-injective (sym hx ∙ e) in
      subst
        (λ o.
          (if not (has_name_route r.match_routes)
            then ok (record { candidates = exact; diagnostics = [] })
            else search_names h profiles entries exact_search r exact o)
          ≡ ok found)
        q
        (subst
          (λ z.
            (if not (has_name_route r.match_routes)
              then ok (record { candidates = z; diagnostics = [] })
              else search_names h profiles entries exact_search r z
                  (profile profiles r.threshold_profile))
            ≡ ok found)
          same rest)

  All-inl :
      (Q R : ProviderCandidate → Type 0) (l : List ProviderCandidate)
      → All Q l
      → All (λ c. Q c ⊎ R c) l
  All-inl Q R [] k = tt
  All-inl Q R (c ∷ l) k = (inl k.0, All-inl Q R l k.1)

  -- Where the exact provider's candidates have some property, each candidate that SearchWithDiagnostics
  -- returns has it too, or is made of an entry of the matcher: then its route is one of those that are
  -- requested, its entity type is one of the target types, and its score reaches the threshold of the
  -- profile that the request names.
  pub search_sound :
      (Q : ProviderCandidate → Type 0) (r : SearchRequest) {exact : List ProviderCandidate}
      {p : ThresholdProfile} {found : Found}
      → search_exact h profiles entries exact_search r ≡ ok exact
      → All Q exact
      → profile profiles r.threshold_profile ≡ some p
      → search_with_diagnostics h profiles entries exact_search r ≡ ok found
      → All
          (λ c.
            Q c
            ⊎ (IsFrom h profiles p r (fold h.unicode h.is_format r.normalized_value) entries c
                × IsAccepted h profiles p r (fold h.unicode h.is_format r.normalized_value) c))
          found.candidates
  unfolding search_names
  search_sound Q r {exact} {p} {found} e k q s =
      let query = fold h.unicode h.is_format r.normalized_value in
      let R = λ (c : ProviderCandidate).
        IsFrom h profiles p r query entries c × IsAccepted h profiles p r query c in
      let rest = search_names_inv r e q s in
      let only = All-inl Q R exact k in
      elim (Bool-cases (has_name_route r.match_routes)) [
        | inr n ↦
            subst (λ z. All (λ c. Q c ⊎ R c) z.candidates)
              (ok-injective (
                sym (
                  ap
                    (λ b.
                      if not b
                      then ok (record { candidates = exact; diagnostics = [] })
                      else search_names h profiles entries exact_search r exact (some p))
                    n)
                ∙ rest))
              only
        | inl n ↦
            let named =
              sym (
                ap
                  (λ b.
                    if not b
                    then ok (record { candidates = exact; diagnostics = [] })
                    else search_names h profiles entries exact_search r exact (some p))
                  n)
              ∙ rest in
            elim (Bool-cases (is_empty query)) [
              | inl o ↦
                  subst (λ z. All (λ c. Q c ⊎ R c) z.candidates) (empty_query r exact p o named)
                    only
              | inr o ↦
                  subst (λ z. All (λ c. Q c ⊎ R c) z.candidates) (some_query r exact p o named)
                    (sort-All candidate_precedes (λ c. Q c ⊎ R c)
                      (exact ++ (search_entries h profiles p r query entries nothing).candidates)
                      (All-append (λ c. Q c ⊎ R c) exact
                        (search_entries h profiles p r query entries nothing).candidates only
                        (search_entries-All h profiles p r query (λ c. Q c ⊎ R c) entries nothing
                          (λ c from.
                            inr (from, IsFrom-IsAccepted h profiles p r query entries c from))
                          tt)))
            ]
      ]

  -- None is missed: where the request has a name route and its folded value is not empty, an entry of
  -- which a candidate is made has in the result a candidate of its record with at least its score.
  pub search_complete :
      (r : SearchRequest) (c : ProviderCandidate) {exact : List ProviderCandidate}
      {p : ThresholdProfile} {found : Found}
      → search_exact h profiles entries exact_search r ≡ ok exact
      → profile profiles r.threshold_profile ≡ some p
      → search_with_diagnostics h profiles entries exact_search r ≡ ok found
      → has_name_route r.match_routes ≡ true
      → is_empty (fold h.unicode h.is_format r.normalized_value) ≡ false
      → IsFrom h profiles p r (fold h.unicode h.is_format r.normalized_value) entries c
      → reaches c.provider_record_id c.score found.candidates ≡ true
  unfolding reaches
  search_complete r c {exact} {p} {found} e q s n o from =
      let query = fold h.unicode h.is_format r.normalized_value in
      let rest = search_names_inv r e q s in
      let named =
        sym (
          ap
            (λ b.
              if not b
              then ok (record { candidates = exact; diagnostics = [] })
              else search_names h profiles entries exact_search r exact (some p))
            n)
        ∙ rest in
      let l = (search_entries h profiles p r query entries nothing).candidates in
      let test = λ (x : ProviderCandidate).
        eq_text x.provider_record_id c.provider_record_id && le_ℤ c.score x.score in
      subst (λ z. any test z.candidates ≡ true) (some_query r exact p o named)
        (sort-any candidate_precedes test (exact ++ l)
          ∙ any-after test exact l
              (search_entries_complete h profiles p r query entries nothing c from))
