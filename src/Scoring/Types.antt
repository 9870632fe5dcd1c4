-- ===== src/Scoring/Types.antt =====
-- internal/candidatescoring/types.go and the records of policy.go. `int` is ℤ in the 64-bit range.
use watchlist_platform.Base.{Bool, List}
use watchlist_platform.Base.Text.{Text}
use watchlist_platform.Base.Int.{ℤ}

pub record Weights : Type 0 where
  pub typed_identifier_exact : ℤ
  pub name_exact : ℤ
  pub name_concatenation_normalized : ℤ
  pub name_token_set : ℤ
  pub name_particle_stripped : ℤ
  pub name_prefix : ℤ
  pub name_containment : ℤ
  pub date_of_birth_exact : ℤ
  pub date_of_birth_year : ℤ
  pub country_exact : ℤ
  pub entity_type_exact : ℤ
  pub date_of_birth_conflict : ℤ
  pub country_conflict : ℤ
  pub entity_type_conflict : ℤ

pub record Thresholds : Type 0 where
  pub strong_candidate : ℤ
  pub review_candidate : ℤ
  pub weak_candidate : ℤ

pub record Policy : Type 0 where
  pub schema_version : Text
  pub policy_id : Text
  pub policy_version : Text
  pub normalization_profile : Text
  pub max_evidence_items : ℤ
  pub score_floor : ℤ
  pub score_ceiling : ℤ
  pub weights : Weights
  pub thresholds : Thresholds

pub record LoadedPolicy : Type 0 where
  pub policy : Policy
  pub sha256 : Text

pub record Identifier : Type 0 where
  pub typ : Text
  pub value : Text

pub record Subject : Type 0 where
  pub names : List Text
  pub identifiers : List Identifier
  pub countries : List Text
  pub dates_of_birth : List Text
  pub entity_type : Text

pub record Candidate : Type 0 where
  pub candidate_id : Text
  pub names : List Text
  pub identifiers : List Identifier
  pub countries : List Text
  pub dates_of_birth : List Text
  pub entity_type : Text

pub record Lineage : Type 0 where
  pub provider : Text
  pub catalog_id : Text
  pub component_id : Text
  pub component_version : Text
  pub activation_id : Text
  pub normalization_profile : Text

pub record RetrievalEvidence : Type 0 where
  pub routes : List Text
  pub reason_codes : List Text

pub record CandidateEnvelope : Type 0 where
  pub candidate : Candidate
  pub retrieval : RetrievalEvidence

pub record Request : Type 0 where
  pub schema_version : Text
  pub request_id : Text
  pub field_path : Text
  pub original_value : Text
  pub normalized_value : Text
  pub subject : Subject
  pub lineage : Lineage
  pub candidates : List CandidateEnvelope

pub record BatchRequest : Type 0 where
  pub schema_version : Text
  pub batch_id : Text
  pub items : List Request

pub record ScoreComponent : Type 0 where
  pub component : Text
  pub points : ℤ
  pub reason_code : Text

pub record EvidenceItem : Type 0 where
  pub kind : Text
  pub outcome : Text
  pub subject_value : Text
  pub candidate_value : Text
  pub points : ℤ
  pub reason_code : Text

-- the strings that strengthBand returns
pub data Band : Type 0 where
  strong_candidate review_candidate weak_candidate no_candidate_support : Band

pub record CandidateResult : Type 0 where
  pub candidate_id : Text
  pub score : ℤ
  pub strength_band : Band
  pub exact_identifier_matched : Bool
  pub exact_name_matched : Bool
  pub reason_codes : List Text
  pub components : List ScoreComponent
  pub evidence : List EvidenceItem
  pub retrieval : RetrievalEvidence
  pub lineage : Lineage

pub record ScreenedField : Type 0 where
  pub path : Text
  pub original_value : Text
  pub normalized_value : Text

pub record PolicyReference : Type 0 where
  pub policy_id : Text
  pub policy_version : Text
  pub policy_sha256 : Text
  pub normalization_profile : Text

pub record Response : Type 0 where
  pub schema_version : Text
  pub request_id : Text
  pub request_sha256 : Text
  pub field : ScreenedField
  pub policy : PolicyReference
  pub candidates : List CandidateResult

pub record BatchResponse : Type 0 where
  pub schema_version : Text
  pub batch_id : Text
  pub request_sha256 : Text
  pub policy : PolicyReference
  pub items : List Response

-- The errors, one constructor for each return of an error.
pub data ScoringError : Type 0 where
  policy_schema policy_identity policy_profile policy_evidence policy_bounds : ScoringError
  policy_thresholds policy_supporting policy_conflict : ScoringError
  decode_failed trailing_value marshal_failed digest_length digest_mismatch : ScoringError
  request_schema request_id_missing no_candidates too_many_candidates : ScoringError
  candidate_id_missing lineage_incomplete profile_mismatch : ScoringError
  duplicate_candidate : Text → ScoringError
  batch_schema batch_id_missing batch_empty : ScoringError
  duplicate_request : Text → ScoringError
