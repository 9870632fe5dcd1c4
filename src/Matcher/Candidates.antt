-- ===== src/Matcher/Candidates.antt =====
-- The entries and candidates of internal/matcherbaseline/provider.go, with the records of
-- internal/matcherprovider/types.go that it fills. A map is the list of its entries.
use watchlist_platform.Base.{Bool, ◌&&◌, ◌||◌, not, List, [], ◌∷◌, map, any, Option, if◌then◌else◌}
use watchlist_platform.Base.Int.{ℤ, lt_ℤ, eq_ℤ}
use watchlist_platform.Base.Sort.{sort}
use watchlist_platform.Base.Text.{Text, text, eq_text, lt_text}
use watchlist_platform.Matcher.Score.{FeatureScore}

pub record SourceAssertion : Type 0 where
  pub source_id : Text
  pub authority : Text
  pub list_id : Text
  pub source_record_id : Text
  pub programs : List Text

pub record NameEntry : Type 0 where
  pub provider_record_id : Text
  pub entity_type : Text
  pub primary_name : Text
  pub matched_value : Text
  pub normalized_matched_value : Text
  pub match_route : Text
  pub attributes : List (Text × Text)
  pub source_assertions : List SourceAssertion

-- without its context, which the matcher leaves nil
pub record MatchEvidence : Type 0 where
  pub schema_version : Text
  pub matcher_version : Text
  pub profile_set_id : Text
  pub profile_set_checksum : Text
  pub threshold_profile : Text
  pub threshold : ℤ
  pub reason_codes : List Text
  pub features : List FeatureScore
  pub penalty : ℤ

pub record ProviderCandidate : Type 0 where
  pub provider_record_id : Text
  pub provider_entity_id : Text
  pub entity_type : Text
  pub primary_name : Text
  pub matched_value : Text
  pub normalized_matched_value : Text
  pub match_route : Text
  pub score : ℤ
  pub exact : Bool
  pub attributes : List (Text × Text)
  pub evidence : Option MatchEvidence
  pub source_assertions : List SourceAssertion

pub record CandidateDiagnostic : Type 0 where
  pub schema_version : Text
  pub code : Text
  pub provider_record_id : Text
  pub entity_type : Text
  pub primary_name : Text
  pub matched_value : Text
  pub match_route : Text
  pub score : ℤ
  pub threshold : ℤ
  pub detail : Text
  pub evidence : Option MatchEvidence
  pub source_assertions : List SourceAssertion

-- the fields of a CandidateSearchRequest that the provider reads
pub record SearchRequest : Type 0 where
  pub semantic_role : Text
  pub normalized_value : Text
  pub match_routes : List Text
  pub target_entity_types : List Text
  pub threshold_profile : Text

abbrev pub route_normalized_name : Text
route_normalized_name = text "normalized_name"

abbrev pub route_alias : Text
route_alias = text "alias"

abbrev pub route_transliteration : Text
route_transliteration = text "transliteration"

unfoldable pub is_name_route : Text → Bool
is_name_route r =
    eq_text r route_normalized_name || eq_text r route_alias || eq_text r route_transliteration

-- hasNameRoute
unfoldable pub has_name_route : List Text → Bool
has_name_route v = any is_name_route v

-- containsRoute and containsType
unfoldable pub contains_text : List Text → Text → Bool
contains_text v t = any (λ x. eq_text x t) v

unfoldable pub assertion_precedes : SourceAssertion → SourceAssertion → Bool
assertion_precedes a b =
    if not (eq_text a.source_id b.source_id)
    then lt_text a.source_id b.source_id
    else if not (eq_text a.list_id b.list_id)
    then lt_text a.list_id b.list_id
    else lt_text a.source_record_id b.source_record_id

abbrev pub with_sorted_programs : SourceAssertion → SourceAssertion
unfolding sort lt_text
with_sorted_programs a = record {
  source_id = a.source_id;
  authority = a.authority;
  list_id = a.list_id;
  source_record_id = a.source_record_id;
  programs = sort lt_text a.programs;
}

unfoldable pub clone_assertions : List SourceAssertion → List SourceAssertion
clone_assertions v = sort assertion_precedes (map with_sorted_programs v)

-- `m[key] = value`
unfoldable pub set_attribute : Text → Text → List (Text × Text) → List (Text × Text)
set_attribute key value [] = (key, value) ∷ []
set_attribute key value (entry ∷ entries) =
    let later = set_attribute key value entries in
    if eq_text entry.0 key then (key, value) ∷ entries else entry ∷ later

unfoldable pub better_candidate : ProviderCandidate → ProviderCandidate → Bool
better_candidate l r =
    if not (eq_ℤ l.score r.score)
    then lt_ℤ r.score l.score
    else if (l.exact && not r.exact) || (not l.exact && r.exact)
    then l.exact
    else if not (eq_text l.match_route r.match_route)
    then lt_text l.match_route r.match_route
    else lt_text l.matched_value r.matched_value

unfoldable pub better_diagnostic : CandidateDiagnostic → CandidateDiagnostic → Bool
better_diagnostic l r =
    if not (eq_ℤ l.score r.score)
    then lt_ℤ r.score l.score
    else if not (eq_text l.match_route r.match_route)
    then lt_text l.match_route r.match_route
    else lt_text l.matched_value r.matched_value

-- `if cur, ok := best[id]; !ok || betterCandidate(c, cur) { best[id] = c }`
unfoldable pub keep_candidate : ProviderCandidate → List ProviderCandidate → List ProviderCandidate
keep_candidate c [] = c ∷ []
keep_candidate c (cur ∷ best) =
    let others = keep_candidate c best in
    if eq_text cur.provider_record_id c.provider_record_id
    then (if better_candidate c cur then c else cur) ∷ best
    else cur ∷ others

unfoldable pub keep_diagnostic :
    CandidateDiagnostic → List CandidateDiagnostic → List CandidateDiagnostic
keep_diagnostic d [] = d ∷ []
keep_diagnostic d (cur ∷ diag) =
    let others = keep_diagnostic d diag in
    if eq_text cur.provider_record_id d.provider_record_id
    then (if better_diagnostic d cur then d else cur) ∷ diag
    else cur ∷ others

-- the two orders of the results
unfoldable pub candidate_precedes : ProviderCandidate → ProviderCandidate → Bool
candidate_precedes a b =
    if not (eq_text a.provider_record_id b.provider_record_id)
    then lt_text a.provider_record_id b.provider_record_id
    else lt_text a.match_route b.match_route

unfoldable pub diagnostic_precedes : CandidateDiagnostic → CandidateDiagnostic → Bool
diagnostic_precedes a b =
    if not (eq_ℤ a.score b.score)
    then lt_ℤ b.score a.score
    else lt_text a.provider_record_id b.provider_record_id
