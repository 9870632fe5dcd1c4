-- ===== src/Scoring/Tests.antt =====
-- Runs of the scoring model, and the theorems at concrete inputs.
use mathlib.Core.List.{Perm, Permᴰ}
use watchlist_platform.Base.{
  ◌≤◌, ◌≡◌, refl, ◌↔◌, true, false, some, List, [], ◌∷◌, map, arith, All, length, not, is_empty,
  ◌&&◌,
}
use watchlist_platform.Base.Result.{ok}
use watchlist_platform.Base.Text.{Text, text, trim_space, utf8}
use watchlist_platform.Base.Int.{pos, negsuc, ◌≤ℤ◌, lt_ℤ}
use watchlist_platform.Base.Sort.{IsSorted}
use watchlist_platform.Base.Sets.{Distinct, Ascending, member, unique_sorted, unique_sorted-set}
use watchlist_platform.Base.Unicode.{ascii}
use watchlist_platform.Scoring.Types.{
  Weights, Policy, Identifier, Subject, Lineage, CandidateEnvelope, Request, Response,
  no_candidate_support, strong_candidate,
}
use watchlist_platform.Scoring.Match.{identifier_match, best_name_match, date_match, set_match}
use watchlist_platform.Scoring.Matching.{
  identifier_match-shared, shares_identifier, best_name_match-exact, shares_name,
}
use watchlist_platform.Scoring.Normalize.{
  normalize_country, normalize_entity_type, normalize_text, normalize_reason_code,
  equal_particle_stripped_token_set,
}
use watchlist_platform.Scoring.Policy.{Codec, Engine, validate_policy, parse_policy, new_engine}
use watchlist_platform.Scoring.Candidate.{score_candidate, clamp, is_exact}
use watchlist_platform.Scoring.Engine.{validate_request, score, less_result, respond}
use watchlist_platform.Scoring.Bounds.{band_rank, score_candidate-in_range, score_candidate-band}
use watchlist_platform.Scoring.Evidence.{total, IsPoint, score_candidate-explained}
use watchlist_platform.Scoring.Loop.{trimmed_id}
use watchlist_platform.Scoring.Response.{results, score-ranked, score-total, score-permᴰ}
use watchlist_platform.Scoring.Loading.{parse_policy-new_engine}

abbrev weights : Weights
weights = record {
  typed_identifier_exact = pos 700;
  name_exact = pos 500;
  name_concatenation_normalized = pos 450;
  name_token_set = pos 400;
  name_particle_stripped = pos 350;
  name_prefix = pos 200;
  name_containment = pos 100;
  date_of_birth_exact = pos 200;
  date_of_birth_year = pos 100;
  country_exact = pos 100;
  entity_type_exact = pos 50;
  date_of_birth_conflict = negsuc 199;
  country_conflict = negsuc 99;
  entity_type_conflict = negsuc 299;
}

abbrev policy : Policy
policy = record {
  schema_version = text "openwatchlist.candidate-scoring-policy.v1";
  policy_id = text "p";
  policy_version = text "1";
  normalization_profile = text "n";
  max_evidence_items = pos 2;
  score_floor = pos 0;
  score_ceiling = pos 1000;
  weights = weights;
  thresholds = record {
    strong_candidate = pos 700;
    review_candidate = pos 400;
    weak_candidate = pos 150;
  };
}

abbrev engine : Engine
engine = record { loaded = record { policy = policy; sha256 = [] } }

abbrev digest : Text
digest = text "0123456789abcdef0123456789abcdef0123456789abcdef0123456789abcdef"

abbrev codec : Codec
codec = record {
  marshal_policy = λ p. some [];
  marshal_request = λ r. some [];
  marshal_batch = λ b. some [];
  decode_policy = λ t. some (policy, false);
  sha256_hex = λ t. digest;
}

abbrev subject : Subject
subject = record {
  names = text "Klaas van der Berg" ∷ [];
  identifiers = [];
  countries = text "nl" ∷ [];
  dates_of_birth = text "1970-01-02" ∷ [];
  entity_type = text "person";
}

abbrev candidate : Text → Text → CandidateEnvelope
candidate id name = record {
  candidate = record {
    candidate_id = id;
    names = name ∷ [];
    identifiers = [];
    countries = text "NL" ∷ [];
    dates_of_birth = text "1970-05-05" ∷ [];
    entity_type = text "individual";
  };
  retrieval = record { routes = []; reason_codes = text "Name Exact" ∷ [] };
}

abbrev lineage : Lineage
lineage = record {
  provider = text "ofac";
  catalog_id = text "c";
  component_id = text "k";
  component_version = text "1";
  activation_id = text "a";
  normalization_profile = text "n";
}

abbrev one : CandidateEnvelope
one = candidate (text "a") (text "Klaas Berg")

abbrev two : CandidateEnvelope
two = candidate (text "b") (text "KLAAS VAN DER BERG")

abbrev request : List CandidateEnvelope → Request
request es = record {
  schema_version = text "openwatchlist.candidate-scoring-request.v1";
  request_id = text "r1";
  field_path = [];
  original_value = [];
  normalized_value = [];
  subject = subject;
  lineage = lineage;
  candidates = es;
}

normalized : normalize_text ascii (text "  klaas,van-der  Berg. ") ≡ text "KLAAS VAN DER BERG"
unfolding normalize_text
normalized = refl

reason : normalize_reason_code ascii (text " Name--Exact! ") ≡ text "name_exact"
unfolding normalize_reason_code
reason = refl

stripped :
    equal_particle_stripped_token_set ascii (text "KLAAS VAN DER BERG") (text "KLAAS BERG") ≡ true
unfolding equal_particle_stripped_token_set
stripped = refl

policy_accepted : validate_policy policy ≡ ok tt
unfolding validate_policy
policy_accepted = refl

scored : (score_candidate ascii policy subject lineage one).score ≡ pos 600
unfolding score_candidate normalize_entity_type set_match normalize_country date_match
    best_name_match identifier_match
scored = refl

score_candidate-in_range_example :
    (pos 0 ≤ℤ (score_candidate ascii policy subject lineage one).score)
    × ((score_candidate ascii policy subject lineage one).score ≤ℤ pos 1000)
    × (pos 0 ≤ℤ (score_candidate ascii policy subject lineage one).score)
score_candidate-in_range_example =
    score_candidate-in_range ascii policy subject lineage one policy_accepted

accepted : (x : Response) × (score ascii codec engine (request (one ∷ two ∷ [])) ≡ ok x)
unfolding score
accepted = (
  respond ascii codec engine (request (one ∷ two ∷ [])) []
      (results ascii codec engine (request (one ∷ two ∷ [])) (one ∷ two ∷ [])),
  refl,
)

score_candidate-band_example :
    let r = score_candidate ascii policy subject lineage one in
    let r' = score_candidate ascii policy subject lineage two in
    (r.score ≤ℤ r'.score → band_rank r.strength_band ≤ band_rank r'.strength_band)
    × ((r.strength_band ≡ no_candidate_support) ↔ (lt_ℤ r.score (pos 150) ≡ true))
    × ((r.strength_band ≡ strong_candidate) ↔ (pos 700 ≤ℤ r.score))
score_candidate-band_example =
    score_candidate-band ascii policy subject subject lineage lineage one two policy_accepted

score_candidate-explained_example :
    let r = score_candidate ascii policy subject lineage one in
    (r.score ≡ clamp policy (total r.components))
    × (length r.components ≤ 5)
    × All IsPoint r.components
    × (pos (length r.evidence) ≤ℤ pos 2)
score_candidate-explained_example =
    score_candidate-explained ascii policy subject lineage one policy_accepted (omega arith)

score-ranked_example :
    Perm accepted.0.candidates
      (results ascii codec engine (request (one ∷ two ∷ [])) (one ∷ two ∷ []))
    × IsSorted less_result accepted.0.candidates
    × Distinct (map trimmed_id (one ∷ two ∷ []))
score-ranked_example = score-ranked ascii codec engine (request (one ∷ two ∷ [])) accepted.1

request_valid : validate_request (request (one ∷ two ∷ [])) policy ≡ ok tt
unfolding validate_request
request_valid = refl

score-total_example :
    ((x : Response) × (score ascii codec engine (request (one ∷ two ∷ [])) ≡ ok x))
    ↔ Distinct (map trimmed_id (one ∷ two ∷ []))
score-total_example =
    score-total ascii codec engine (request (one ∷ two ∷ [])) {raw = []} request_valid refl

reordered : (x : Response) × (score ascii codec engine (request (two ∷ one ∷ [])) ≡ ok x)
unfolding score
reordered = (
  respond ascii codec engine (request (two ∷ one ∷ [])) []
      (results ascii codec engine (request (two ∷ one ∷ [])) (two ∷ one ∷ [])),
  refl,
)

score-permᴰ_example : accepted.0.candidates ≡ reordered.0.candidates
score-permᴰ_example =
    score-permᴰ ascii codec engine (request (one ∷ two ∷ [])) (two ∷ one ∷ [])
      (Permᴰ.swap refl refl) accepted.1 reordered.1

parsed : parse_policy codec [] ≡ ok (record { policy = policy; sha256 = digest })
unfolding parse_policy
parsed = refl

parse_policy-new_engine_example :
    new_engine codec (record { policy = policy; sha256 = digest })
    ≡ ok (record { loaded = record { policy = policy; sha256 = digest } })
unfolding utf8
parse_policy-new_engine_example = parse_policy-new_engine codec [] (λ t. refl) parsed

abbrev passport : Text → Identifier
passport v = record { typ = text "Passport"; value = v }

identifier_match-shared_example :
    (identifier_match ascii (passport (text "nl 12-3") ∷ []) (passport (text "NL123") ∷ [])).0
    ≡ shares_identifier ascii (passport (text "nl 12-3") ∷ []) (passport (text "NL123") ∷ [])
identifier_match-shared_example =
    identifier_match-shared ascii (passport (text "nl 12-3") ∷ []) (passport (text "NL123") ∷ [])

abbrev named : List Text
named = text "KLAAS BERG" ∷ text "van der berg, klaas" ∷ []

best_name_match-exact_example :
    is_exact (best_name_match ascii named (text "Klaas Berg" ∷ [])).0
    ≡ shares_name ascii named (text "Klaas Berg" ∷ [])
best_name_match-exact_example = best_name_match-exact ascii named (text "Klaas Berg" ∷ [])

unique_sorted-set_example :
    let xs = text "b" ∷ text " a " ∷ text "" ∷ text "b" ∷ [] in
    Ascending (unique_sorted trim_space xs)
    × ((v : Text)
        → member v (unique_sorted trim_space xs)
          ≡ (not (is_empty v) && member v (map trim_space xs)))
    × ((ys : List Text)
        → ((v : Text) → member v (map trim_space xs) ≡ member v (map trim_space ys))
        → unique_sorted trim_space xs ≡ unique_sorted trim_space ys)
unique_sorted-set_example =
    unique_sorted-set trim_space (text "b" ∷ text " a " ∷ text "" ∷ text "b" ∷ [])
