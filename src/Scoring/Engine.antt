-- ===== src/Scoring/Engine.antt =====
-- Score, ScoreBatch and validateRequest of internal/candidatescoring/engine.go.
use watchlist_platform.Base.{
  Bool, true, false, ◌||◌, not, List, [], ◌∷◌, length, is_empty, all, leb, if◌then◌else◌,
}
use watchlist_platform.Base.Result.{Result, ok, err, ◌>>=◌, ◌>>◌, require}
use watchlist_platform.Base.Text.{Text, text, eq_text, lt_text, trim_space}
use watchlist_platform.Base.Int.{lt_ℤ, eq_ℤ}
use watchlist_platform.Base.Sort.{sort}
use watchlist_platform.Base.Sets.{member}
use watchlist_platform.Base.Unicode.{Unicode}
use watchlist_platform.Scoring.Types.{
  Policy, Request, BatchRequest, CandidateEnvelope, CandidateResult, Subject, Lineage, Response,
  BatchResponse, ScoringError, request_schema, request_id_missing, no_candidates,
  too_many_candidates, candidate_id_missing, lineage_incomplete, profile_mismatch,
  duplicate_candidate, marshal_failed, batch_schema, batch_id_missing, batch_empty,
  duplicate_request,
}
use watchlist_platform.Scoring.Policy.{Codec, Engine, is_blank, or_error, policy_reference}
use watchlist_platform.Scoring.Candidate.{score_candidate}

abbrev pub request_schema_v1 : Text
request_schema_v1 = text "openwatchlist.candidate-scoring-request.v1"

abbrev pub batch_request_schema_v1 : Text
batch_request_schema_v1 = text "openwatchlist.candidate-scoring-batch-request.v1"

abbrev pub response_schema_v1 : Text
response_schema_v1 = text "openwatchlist.candidate-scoring-response.v1"

abbrev pub batch_response_schema_v1 : Text
batch_response_schema_v1 = text "openwatchlist.candidate-scoring-batch-response.v1"

abbrev lineage_present : Lineage → Bool
lineage_present l = not (
    is_empty l.provider
    || is_empty l.catalog_id
    || is_empty l.component_id
    || is_empty l.component_version
    || is_empty l.activation_id
    || is_empty l.normalization_profile)

unfoldable pub validate_request : Request → Policy → Result ScoringError (Unit {0})
unfolding eq_text is_blank
validate_request r p = do
  require (eq_text r.schema_version request_schema_v1) request_schema
  require (not (is_blank r.request_id)) request_id_missing
  require (not (is_empty r.candidates)) no_candidates
  require (leb (length r.candidates) 1000) too_many_candidates
  require (all (λ e. not (is_blank e.candidate.candidate_id)) r.candidates) candidate_id_missing
  require (lineage_present r.lineage) lineage_incomplete
  require (eq_text r.lineage.normalization_profile p.normalization_profile) profile_mismatch

-- the loop of Score; `seen` holds the trimmed ids
unfoldable pub score_loop :
    Unicode
    → Policy
    → Subject
    → Lineage
    → List Text
    → List CandidateEnvelope
    → Result ScoringError (List CandidateResult)
unfolding trim_space member score_candidate
score_loop u p s l seen [] = ok []
score_loop u p s l seen (e ∷ es) =
    let id = trim_space e.candidate.candidate_id in
    elim (member id seen) [
      | true ↦ err (duplicate_candidate id)
      | false ↦ score_loop u p s l (id ∷ seen) es >>= λ rest. ok (score_candidate u p s l e ∷ rest)
    ]

-- `a == b` on bool
abbrev same_flag : Bool → Bool → Bool
same_flag true b = b
same_flag false b = not b

-- the `less` of sort.SliceStable
unfoldable pub less_result : CandidateResult → CandidateResult → Bool
unfolding lt_text
less_result a b =
    if not (eq_ℤ a.score b.score)
    then lt_ℤ b.score a.score
    else if not (same_flag a.exact_identifier_matched b.exact_identifier_matched)
    then a.exact_identifier_matched
    else if not (same_flag a.exact_name_matched b.exact_name_matched)
    then a.exact_name_matched
    else lt_text a.candidate_id b.candidate_id

module _ (u : Unicode) (c : Codec) (e : Engine) where
  -- the response that Score returns, from the marshalled request and the results
  unfoldable pub respond : Request → Text → List CandidateResult → Response
  unfolding less_result sort policy_reference
  respond r canonical results = record {
    schema_version = response_schema_v1;
    request_id = r.request_id;
    request_sha256 = c.sha256_hex canonical;
    field = record {
      path = r.field_path;
      original_value = r.original_value;
      normalized_value = r.normalized_value;
    };
    policy = policy_reference e;
    candidates = sort less_result results;
  }

  unfoldable pub score : Request → Result ScoringError Response
  unfolding validate_request score_loop respond
  score r = do
    validate_request r e.loaded.policy
    canonical ← or_error (c.marshal_request r) marshal_failed
    results ← score_loop u e.loaded.policy r.subject r.lineage [] r.candidates
    ok (respond r canonical results)

  -- the loop of ScoreBatch
  unfoldable pub batch_loop : List Text → List Request → Result ScoringError (List Response)
  unfolding score member
  batch_loop seen [] = ok []
  batch_loop seen (r ∷ rs) = elim (member r.request_id seen) [
    | true ↦ err (duplicate_request r.request_id)
    | false ↦
        score r >>= λ response. batch_loop (r.request_id ∷ seen) rs >>= λ rest. ok (response ∷ rest)
  ]

  unfoldable pub score_batch : BatchRequest → Result ScoringError BatchResponse
  unfolding batch_loop eq_text is_blank policy_reference
  score_batch b = do
    require (eq_text b.schema_version batch_request_schema_v1) batch_schema
    require (not (is_blank b.batch_id)) batch_id_missing
    require (not (is_empty b.items)) batch_empty
    canonical ← or_error (c.marshal_batch b) marshal_failed
    items ← batch_loop [] b.items
    ok (record {
      schema_version = batch_response_schema_v1;
      batch_id = b.batch_id;
      request_sha256 = c.sha256_hex canonical;
      policy = policy_reference e;
      items = items;
    })
