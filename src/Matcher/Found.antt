-- ===== src/Matcher/Found.antt =====
-- The candidates that the loop over the entries keeps.
use watchlist_platform.Base.{
  ◌≡◌, refl, sym, subst, ◌⊎◌, inl, inr, Bool, true, false, List, [], ◌∷◌, is_empty, Bool-cases, All,
}
use watchlist_platform.Base.Int.{ℤ, lt_ℤ}
use watchlist_platform.Base.Text.{Text, eq_text}
use watchlist_platform.Matcher.Fold.{fold}
use watchlist_platform.Matcher.Profile.{ThresholdProfile, ProfileSet}
use watchlist_platform.Matcher.Candidates.{
  NameEntry, ProviderCandidate, CandidateDiagnostic, SearchRequest, contains_text, keep_candidate,
  better_candidate,
}
use watchlist_platform.Matcher.Provider.{
  Host, Judgement, skipped, suppressed, matched, Found, entry_score, verdict, diagnostic_of,
  candidate_of, judge, note_judgement, search_entries,
}
use watchlist_platform.Matcher.Search.{reaches, reaches-keep_candidate, reaches-kept}

matched-injective : {a b : ProviderCandidate} → matched a ≡ matched b → a ≡ b
matched-injective h = cc

verdict-matched :
    (a b f t s : Bool) (d : CandidateDiagnostic) (c : ProviderCandidate) {x : ProviderCandidate}
    → verdict a b f t s d c ≡ matched x
    → (a ≡ true) × ((t ≡ true) × ((s ≡ false) × (c ≡ x)))
unfolding verdict
verdict-matched false b f t s d c h = cc
verdict-matched true true f t s d c h = cc
verdict-matched true false true t s d c h = cc
verdict-matched true false false false true d c h = cc
verdict-matched true false false false false d c h = cc
verdict-matched true false false true true d c h = cc
verdict-matched true false false true false d c h = (refl, (refl, (refl, matched-injective h)))

module _ (h : Host) (profiles : ProfileSet) (p : ThresholdProfile) (r : SearchRequest)
    (query : Text) where
  -- The candidate is made of one of the entries.
  unfoldable pub IsFrom : List NameEntry → ProviderCandidate → Type 0
  IsFrom [] c = ⊥
  IsFrom (e ∷ entries) c = (judge h profiles p r query e ≡ matched c) ⊎ IsFrom entries c

  -- Its route is requested, its type is allowed, and its score reaches the threshold.
  unfoldable pub IsAccepted : ProviderCandidate → Type 0
  IsAccepted c =
      (contains_text r.match_routes c.match_route ≡ true)
      × ((contains_text r.target_entity_types c.entity_type ≡ true)
          × (lt_ℤ c.score p.threshold ≡ false))

  judge-IsAccepted :
      (e : NameEntry) (c : ProviderCandidate)
      → judge h profiles p r query e ≡ matched c
      → IsAccepted c
  unfolding judge IsAccepted candidate_of
  judge-IsAccepted e c j =
      let score = (entry_score h profiles p query e).total in
      let (a, (t, (s, same))) =
        verdict-matched (contains_text r.match_routes e.match_route)
          (is_empty (fold h.unicode h.is_format e.normalized_matched_value))
          (lt_ℤ score p.diagnostic_floor) (contains_text r.target_entity_types e.entity_type)
          (lt_ℤ score p.threshold) (diagnostic_of h profiles p r query e)
          (candidate_of h profiles p r query e) j in
      subst
        (λ z.
          (contains_text r.match_routes z.match_route ≡ true)
          × ((contains_text r.target_entity_types z.entity_type ≡ true)
              × (lt_ℤ z.score p.threshold ≡ false)))
        same (a, (t, s))

  pub IsFrom-IsAccepted :
      (entries : List NameEntry) (c : ProviderCandidate) → IsFrom entries c → IsAccepted c
  unfolding IsFrom
  IsFrom-IsAccepted [] c from = absurd from
  IsFrom-IsAccepted (e ∷ entries) c (inl j) = judge-IsAccepted e c j
  IsFrom-IsAccepted (e ∷ entries) c (inr later) = IsFrom-IsAccepted entries c later

  keep_candidate-All :
      (P : ProviderCandidate → Type 0) (c : ProviderCandidate) (l : List ProviderCandidate)
      → P c
      → All P l
      → All P (keep_candidate c l)
  unfolding keep_candidate
  keep_candidate-All P c [] q k = (q, tt)
  keep_candidate-All P c (cur ∷ l) q k =
      elim (Bool-cases (eq_text cur.provider_record_id c.provider_record_id)) [
        | inr e ↦ rw e (k.0, keep_candidate-All P c l q k.1)
        | inl e ↦ elim (Bool-cases (better_candidate c cur)) [
          | inl b ↦ rw (e, b) (q, k.1)
          | inr b ↦ rw (e, b) k
        ]
      ]

  note_judgement-All :
      (P : ProviderCandidate → Type 0) (j : Judgement) (found : Found)
      → ((c : ProviderCandidate) → j ≡ matched c → P c)
      → All P found.candidates
      → All P (note_judgement h profiles p j found).candidates
  unfolding note_judgement
  note_judgement-All P skipped found k l = l
  note_judgement-All P (suppressed d) found k l = l
  note_judgement-All P (matched c) found k l = keep_candidate-All P c found.candidates (k c refl) l

  pub search_entries-All :
      (P : ProviderCandidate → Type 0) (entries : List NameEntry) (found : Found)
      → ((c : ProviderCandidate) → IsFrom entries c → P c)
      → All P found.candidates
      → All P (search_entries h profiles p r query entries found).candidates
  unfolding search_entries IsFrom
  search_entries-All P [] found k l = l
  search_entries-All P (e ∷ entries) found k l =
      let j = judge h profiles p r query e in
      search_entries-All P entries (note_judgement h profiles p j found) (λ c from. k c (inr from))
        (note_judgement-All P j found (λ c same. k c (inl same)) l)

  reaches-note_judgement :
      (id : Text) (n : ℤ) (j : Judgement) (found : Found)
      → reaches id n found.candidates ≡ true
      → reaches id n (note_judgement h profiles p j found).candidates ≡ true
  unfolding note_judgement
  reaches-note_judgement id n skipped found k = k
  reaches-note_judgement id n (suppressed d) found k = k
  reaches-note_judgement id n (matched c) found k = reaches-keep_candidate id n c found.candidates k

  reaches-search_entries :
      (id : Text) (n : ℤ) (entries : List NameEntry) (found : Found)
      → reaches id n found.candidates ≡ true
      → reaches id n (search_entries h profiles p r query entries found).candidates ≡ true
  unfolding search_entries
  reaches-search_entries id n [] found k = k
  reaches-search_entries id n (e ∷ entries) found k =
      let j = judge h profiles p r query e in
      reaches-search_entries id n entries (note_judgement h profiles p j found)
        (reaches-note_judgement id n j found k)

  noted_reaches :
      (c : ProviderCandidate) (j : Judgement) (found : Found)
      → j ≡ matched c
      → reaches c.provider_record_id c.score (note_judgement h profiles p j found).candidates ≡ true
  unfolding note_judgement
  noted_reaches c j found same =
      subst
        (λ z.
          reaches c.provider_record_id c.score (note_judgement h profiles p z found).candidates
          ≡ true)
        (sym same) (reaches-kept c found.candidates)

  pub search_entries_complete :
      (entries : List NameEntry) (found : Found) (c : ProviderCandidate)
      → IsFrom entries c
      → reaches c.provider_record_id c.score
          (search_entries h profiles p r query entries found).candidates
        ≡ true
  unfolding search_entries IsFrom
  search_entries_complete [] found c from = absurd from
  search_entries_complete (e ∷ entries) found c (inl same) =
      let j = judge h profiles p r query e in
      reaches-search_entries c.provider_record_id c.score entries
        (note_judgement h profiles p j found) (noted_reaches c j found same)
  search_entries_complete (e ∷ entries) found c (inr later) =
      search_entries_complete entries
        (note_judgement h profiles p (judge h profiles p r query e) found) c later
