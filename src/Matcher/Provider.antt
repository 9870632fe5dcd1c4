-- ===== src/Matcher/Provider.antt =====
-- SearchWithDiagnostics of internal/matcherbaseline/provider.go.
use watchlist_platform.Base.{
  ℕ, Bool, ◌&&◌, not, List, [], ◌∷◌, ◌++◌, is_empty, Option, none, some, if◌then◌else◌,
}
use watchlist_platform.Base.Result.{Result, err, ok, ◌>>=◌}
use watchlist_platform.Base.Int.{ℤ, pos, lt_ℤ, add64}
use watchlist_platform.Base.Sort.{sort}
use watchlist_platform.Base.Text.{Text, text, eq_text, lt_text, trim_space}
use watchlist_platform.Base.Unicode.{Unicode}
use watchlist_platform.Matcher.Fold.{fold, filtered}
use watchlist_platform.Matcher.Vocabulary.{lookup}
use watchlist_platform.Matcher.Profile.{
  ThresholdProfile, ProfileSet, known_matcher_version, profile,
}
use watchlist_platform.Matcher.Score.{FeatureScore, Score, score_name, penalized}
use watchlist_platform.Matcher.Candidates.{
  NameEntry, MatchEvidence, ProviderCandidate, CandidateDiagnostic, SearchRequest,
  route_normalized_name, route_alias, route_transliteration, is_name_route, has_name_route,
  contains_text, clone_assertions, set_attribute, keep_candidate, keep_diagnostic,
  candidate_precedes, diagnostic_precedes,
}

-- the tables of the `unicode` package, strings.EqualFold, and the verb %q of fmt
pub record Host : Type 0 where
  pub unicode : Unicode
  pub is_format : ℕ → Bool
  pub equal_fold : Text → Text → Bool
  pub quoted : Text → Text

pub data SearchError : Type 0 where
  exact_search_failed unknown_profile : SearchError

-- What becomes of an entry: nothing, a diagnostic or a candidate.
pub data Judgement : Type 0 where
  skipped : Judgement
  suppressed : CandidateDiagnostic → Judgement
  matched : ProviderCandidate → Judgement

pub record Found : Type 0 where
  pub candidates : List ProviderCandidate
  pub diagnostics : List CandidateDiagnostic

-- a phonetic similarity of 8000 or more
unfoldable pub phonetic_reasons : List FeatureScore → List Text
phonetic_reasons [] = []
phonetic_reasons (f ∷ features) =
    let rest = phonetic_reasons features in
    if eq_text f.name (text "phonetic_similarity") && not (lt_ℤ (pos f.score) (pos 8000))
    then text "name_fuzzy_phonetic" ∷ rest
    else rest

unfoldable pub reason_codes : Text → Bool → Bool → List FeatureScore → List Text
reason_codes route raw_exact fold_exact features = sort lt_text (
    if raw_exact && eq_text route route_normalized_name
    then text "primary_name_exact" ∷ []
    else if raw_exact && eq_text route route_alias
    then text "alias_exact" ∷ []
    else if raw_exact && eq_text route route_transliteration
    then text "transliteration_exact" ∷ []
    else if fold_exact
    then text "transliteration_fold_exact" ∷ []
    else text "name_fuzzy_edit" ∷ text "name_fuzzy_token_alignment" ∷ phonetic_reasons features)

-- a missing key reads as the empty string
abbrev pub attribute : Text → List (Text × Text) → Text
attribute key entries = elim (lookup key entries) [ none ↦ [] | some value ↦ value ]

-- the tests of the loop body: the route is requested, nothing is left of the value, the score is below
-- the diagnostic floor, the type is allowed, and the score is below the threshold
unfoldable pub verdict :
    Bool → Bool → Bool → Bool → Bool → CandidateDiagnostic → ProviderCandidate → Judgement
verdict requested nothing_left below_floor allowed below_threshold d c =
    if not requested
    then skipped
    else if nothing_left
    then skipped
    else if below_floor
    then skipped
    else if not allowed
    then (if below_threshold then skipped else suppressed d)
    else if below_threshold
    then skipped
    else matched c

module _ (h : Host) (profiles : ProfileSet) (p : ThresholdProfile) where
  unfoldable pub build_evidence : List Text → List FeatureScore → ℤ → MatchEvidence
  build_evidence reasons features penalty = record {
    schema_version = text "matcher-feature-evidence/v1alpha1";
    matcher_version = known_matcher_version;
    profile_set_id = profiles.profile_set_id;
    profile_set_checksum = profiles.profile_set_checksum;
    threshold_profile = p.profile_id;
    threshold = p.threshold;
    reason_codes = reasons;
    features = features;
    penalty = penalty;
  }

  unfoldable pub is_weak : NameEntry → Bool
  is_weak e = h.equal_fold (attribute (text "alias_strength") e.attributes) (text "weak")

  -- the score and the penalty of an entry, with those of a weak alias
  unfoldable pub entry_score : Text → NameEntry → Score
  entry_score query e =
      let s =
        score_name h.unicode query (fold h.unicode h.is_format e.normalized_matched_value) p in
      if is_weak e
      then record {
        total = penalized s.total p.weak_alias_penalty;
        features = s.features;
        penalty = add64 s.penalty p.weak_alias_penalty;
      }
      else s

  unfoldable pub raw_exact : SearchRequest → NameEntry → Bool
  raw_exact r e =
      h.equal_fold (trim_space r.normalized_value) (trim_space e.normalized_matched_value)

  unfoldable pub evidence_of : SearchRequest → Text → NameEntry → MatchEvidence
  evidence_of r query e =
      let s = entry_score query e in
      build_evidence
        (reason_codes e.match_route (raw_exact r e)
          (eq_text query (fold h.unicode h.is_format e.normalized_matched_value)) s.features)
        s.features s.penalty

  unfoldable pub diagnostic_of : SearchRequest → Text → NameEntry → CandidateDiagnostic
  diagnostic_of r query e = record {
    schema_version = text "candidate-diagnostic/v1alpha1";
    code = text "entity_type_mismatch";
    provider_record_id = e.provider_record_id;
    entity_type = e.entity_type;
    primary_name = e.primary_name;
    matched_value = e.matched_value;
    match_route = e.match_route;
    score = (entry_score query e).total;
    threshold = p.threshold;
    detail =
        text "strong name match suppressed: catalog entity type "
        ++ h.quoted e.entity_type
        ++ text " is not allowed for semantic role "
        ++ h.quoted r.semantic_role;
    evidence = some (evidence_of r query e);
    source_assertions = clone_assertions e.source_assertions;
  }

  unfoldable pub candidate_of : SearchRequest → Text → NameEntry → ProviderCandidate
  candidate_of r query e = record {
    provider_record_id = e.provider_record_id;
    provider_entity_id = [];
    entity_type = e.entity_type;
    primary_name = e.primary_name;
    matched_value = e.matched_value;
    normalized_matched_value = e.normalized_matched_value;
    match_route = e.match_route;
    score = (entry_score query e).total;
    exact = raw_exact r e;
    attributes =
        set_attribute (text "matcher_threshold_profile") p.profile_id
          (set_attribute (text "matcher_profile_set_id") profiles.profile_set_id e.attributes);
    evidence = some (evidence_of r query e);
    source_assertions = clone_assertions e.source_assertions;
  }

  -- the body of the loop over the entries, up to what it stores
  unfoldable pub judge : SearchRequest → Text → NameEntry → Judgement
  judge r query e =
      let score = (entry_score query e).total in
      verdict (contains_text r.match_routes e.match_route)
        (is_empty (fold h.unicode h.is_format e.normalized_matched_value))
        (lt_ℤ score p.diagnostic_floor) (contains_text r.target_entity_types e.entity_type)
        (lt_ℤ score p.threshold) (diagnostic_of r query e) (candidate_of r query e)

  unfoldable pub note_judgement : Judgement → Found → Found
  note_judgement skipped found = found
  note_judgement (suppressed d) found = record {
    candidates = found.candidates;
    diagnostics = keep_diagnostic d found.diagnostics;
  }
  note_judgement (matched c) found = record {
    candidates = keep_candidate c found.candidates;
    diagnostics = found.diagnostics;
  }

  unfoldable pub search_entries : SearchRequest → Text → List NameEntry → Found → Found
  search_entries r query [] found = found
  search_entries r query (e ∷ entries) found =
      search_entries r query entries (note_judgement (judge r query e) found)

-- the request for the exact provider
abbrev pub with_routes : List Text → SearchRequest → SearchRequest
with_routes routes r = record {
  semantic_role = r.semantic_role;
  normalized_value = r.normalized_value;
  match_routes = routes;
  target_entity_types = r.target_entity_types;
  threshold_profile = r.threshold_profile;
}

-- `exact_search` is Search of the exact provider, internal/ofacruntime.
module _ (h : Host) (profiles : ProfileSet) (entries : List NameEntry)
    (exact_search : SearchRequest → Option (List ProviderCandidate)) where
  unfoldable pub search_exact : SearchRequest → Result SearchError (List ProviderCandidate)
  search_exact r =
      let routes = filtered is_name_route r.match_routes in
      if is_empty routes then ok [] else elim (exact_search (with_routes routes r)) [
        | none ↦ err exact_search_failed
        | some candidates ↦ ok candidates
      ]

  abbrev pub nothing_found : Found
  nothing_found = record { candidates = []; diagnostics = [] }

  -- the search among the names, after the exact candidates
  unfoldable pub search_names :
      SearchRequest → List ProviderCandidate → Option ThresholdProfile → Result SearchError Found
  search_names r exact none = err unknown_profile
  search_names r exact (some p) =
      let query = fold h.unicode h.is_format r.normalized_value in
      let found = search_entries h profiles p r query entries nothing_found in
      if is_empty query
      then ok (record { candidates = exact; diagnostics = [] })
      else ok (record {
        candidates = sort candidate_precedes (exact ++ found.candidates);
        diagnostics = sort diagnostic_precedes found.diagnostics;
      })

  unfoldable pub search_with_diagnostics : SearchRequest → Result SearchError Found
  search_with_diagnostics r = search_exact r >>= λ exact.
      if not (has_name_route r.match_routes)
      then ok (record { candidates = exact; diagnostics = [] })
      else search_names r exact (profile profiles r.threshold_profile)
