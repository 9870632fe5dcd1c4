-- ===== src/Scoring/Candidate.antt =====
-- scoreCandidate and strengthBand of internal/candidatescoring/engine.go.
use watchlist_platform.Base.{
  Bool, true, false, ◌||◌, List, [], ◌∷◌, ◌++◌, map, length, is_empty, optional, not, if◌then◌else◌,
}
use watchlist_platform.Base.Text.{Text, text, eq_text}
use watchlist_platform.Base.Int.{ℤ, pos, lt_ℤ, le_ℤ, eq_ℤ, add64}
use watchlist_platform.Base.Sets.{unique_sorted}
use watchlist_platform.Base.Unicode.{Unicode}
use watchlist_platform.Scoring.Types.{
  Policy, Subject, Candidate, Lineage, CandidateEnvelope, ScoreComponent, EvidenceItem,
  CandidateResult, Band, strong_candidate, review_candidate, weak_candidate, no_candidate_support,
}
use watchlist_platform.Scoring.Normalize.{
  normalize_country, normalize_entity_type, normalize_reason_code,
}
use watchlist_platform.Scoring.Match.{
  NameShape, no_shape, exact, concatenation_normalized, token_set, particle_stripped, prefix,
  containment, Outcome, no_outcome, same, same_year, conflict, identifier_match, best_name_match,
  date_match, set_match,
}

-- the slices that `add` appends to
pub record Tally : Type 0 where
  pub components : List ScoreComponent
  pub evidence : List EvidenceItem
  pub reasons : List Text

abbrev pub empty_tally : Tally
empty_tally = record { components = []; evidence = []; reasons = [] }

-- the closure `add`, with the policy's evidence bound
unfoldable pub add : ℤ → Text → ℤ → Text → Text → Text → Text → Text → Tally → Tally
unfolding optional
add bound component points reason kind outcome sv cv t = record {
  components =
      t.components
      ++ optional (not (eq_ℤ points (pos 0)))
          (record { component = component; points = points; reason_code = reason });
  evidence =
      t.evidence
      ++ optional (lt_ℤ (pos (length t.evidence)) bound) (record {
        kind = kind;
        outcome = outcome;
        subject_value = sv;
        candidate_value = cv;
        points = points;
        reason_code = reason;
      });
  reasons = t.reasons ++ reason ∷ [];
}

module _ (p : Policy) where
  abbrev support : Text → ℤ → Text → Text → Text → Tally → Tally
  support kind points reason sv cv =
      add p.max_evidence_items kind points reason kind (text "support") sv cv

  abbrev contradict : Text → ℤ → Text → Text → Text → Tally → Tally
  contradict kind points reason sv cv =
      add p.max_evidence_items kind points reason kind (text "contradiction") sv cv

  unfoldable pub add_identifier : Bool × Text × Text → Tally → Tally
  unfolding add
  add_identifier (false, sv, cv) t = t
  add_identifier (true, sv, cv) t =
      add p.max_evidence_items (text "typed_identifier") p.weights.typed_identifier_exact
        (text "typed_identifier_exact") (text "identifier") (text "support") sv cv t

  unfoldable pub add_name : NameShape × Text × Text → Tally → Tally
  unfolding add
  add_name (no_shape, sv, cv) t = t
  add_name (exact, sv, cv) t =
      support (text "name") p.weights.name_exact (text "name_exact") sv cv t
  add_name (concatenation_normalized, sv, cv) t =
      support (text "name") p.weights.name_concatenation_normalized
        (text "name_concatenation_normalized") sv cv t
  add_name (token_set, sv, cv) t =
      support (text "name") p.weights.name_token_set (text "name_token_set_exact") sv cv t
  add_name (particle_stripped, sv, cv) t =
      support (text "name") p.weights.name_particle_stripped (text "name_particle_stripped") sv cv t
  add_name (prefix, sv, cv) t =
      support (text "name") p.weights.name_prefix (text "name_prefix") sv cv t
  add_name (containment, sv, cv) t =
      support (text "name") p.weights.name_containment (text "name_containment") sv cv t

  unfoldable pub add_date : Outcome × Text × Text → Tally → Tally
  unfolding add
  add_date (no_outcome, sv, cv) t = t
  add_date (same, sv, cv) t =
      support (text "date_of_birth") p.weights.date_of_birth_exact (text "date_of_birth_exact") sv
        cv t
  add_date (same_year, sv, cv) t =
      support (text "date_of_birth") p.weights.date_of_birth_year (text "date_of_birth_year_exact")
        sv cv t
  add_date (conflict, sv, cv) t =
      contradict (text "date_of_birth") p.weights.date_of_birth_conflict
        (text "date_of_birth_conflict") sv cv t

  -- setMatch yields no `same_year`
  unfoldable pub add_country : Outcome × Text × Text → Tally → Tally
  unfolding add
  add_country (same, sv, cv) t =
      support (text "country") p.weights.country_exact (text "country_exact") sv cv t
  add_country (conflict, sv, cv) t =
      contradict (text "country") p.weights.country_conflict (text "country_conflict") sv cv t
  add_country (no_outcome, sv, cv) t = t
  add_country (same_year, sv, cv) t = t

  -- the two normalised entity types
  unfoldable pub add_entity_type : Text → Text → Tally → Tally
  unfolding add eq_text
  add_entity_type s c t =
      if is_empty s || is_empty c
      then t
      else if eq_text s c
      then support (text "entity_type") p.weights.entity_type_exact (text "entity_type_exact") s c t
      else contradict (text "entity_type") p.weights.entity_type_conflict
          (text "entity_type_conflict") s c t

unfoldable pub strength_band : ℤ → Policy → Band
strength_band score p =
    if le_ℤ p.thresholds.strong_candidate score
    then strong_candidate
    else if le_ℤ p.thresholds.review_candidate score
    then review_candidate
    else if le_ℤ p.thresholds.weak_candidate score
    then weak_candidate
    else no_candidate_support

-- `for _, component := range components { score += component.Points }`
unfoldable pub sum_points : ℤ → List ScoreComponent → ℤ
unfolding add64
sum_points score [] = score
sum_points score (c ∷ cs) = sum_points (add64 score c.points) cs

-- the two tests that follow the loop
unfoldable pub clamp : Policy → ℤ → ℤ
clamp p score =
    let raised = if lt_ℤ score p.score_floor then p.score_floor else score in
    if lt_ℤ p.score_ceiling raised then p.score_ceiling else raised

abbrev pub is_exact : NameShape → Bool
is_exact exact = true
is_exact _ = false

-- the calls of `add`, in order
unfoldable pub tally : Unicode → Policy → Subject → Candidate → Tally
unfolding add_identifier add_name add_date add_country add_entity_type
tally u p s c =
    add_entity_type p (normalize_entity_type u s.entity_type)
      (normalize_entity_type u c.entity_type)
      (add_country p (set_match (normalize_country u) s.countries c.countries) (
        add_date p (date_match s.dates_of_birth c.dates_of_birth) (
          add_name p (best_name_match u s.names c.names)
            (add_identifier p (identifier_match u s.identifiers c.identifiers) empty_tally))))

unfoldable pub score_candidate :
    Unicode → Policy → Subject → Lineage → CandidateEnvelope → CandidateResult
unfolding tally sum_points clamp strength_band
score_candidate u p s lineage env =
    let c = env.candidate in
    let t = tally u p s c in
    let score = clamp p (sum_points (pos 0) t.components) in
    let retrieved = unique_sorted (normalize_reason_code u) env.retrieval.reason_codes in
    record {
      candidate_id = c.candidate_id;
      score = score;
      strength_band = strength_band score p;
      exact_identifier_matched = (identifier_match u s.identifiers c.identifiers).0;
      exact_name_matched = is_exact (best_name_match u s.names c.names).0;
      reason_codes =
          unique_sorted (normalize_reason_code u)
            (t.reasons ++ map (λ r. text "retrieval_" ++ r) retrieved);
      components = t.components;
      evidence = t.evidence;
      retrieval = record {
        routes = unique_sorted (normalize_reason_code u) env.retrieval.routes;
        reason_codes = retrieved;
      };
      lineage = lineage;
    }
