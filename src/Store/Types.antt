-- ===== src/Store/Types.antt =====
-- The types of frontend/app/api/ranking-test/route.ts. A field that may be missing or null is an
-- `Option`: the source reads it with `??`, `?.` or as a condition, which treat the two alike.
use cvranking.Prelude.{ℕ, Bool, Option, List}
use cvranking.Js.Text.{Text}
use cvranking.Js.Number.{Number}

pub record Evidence : Type 0 where
  pub id : Text
  pub text : Text
  pub page : Option ℕ
  pub start_offset : Option ℕ
  pub end_offset : Option ℕ

pub record ExtractedField {ℓ} (T : Type ℓ) : Type ℓ where
  pub value : T
  pub confidence : Number
  pub evidences : List Evidence

pub record ExtractedSkill : Type 0 where
  pub name : Text
  pub normalized_name : Option Text
  pub match_kind : Text
  pub estimated_years : Option Number
  pub confidence : Number
  pub evidences : List Evidence

pub record AnalyzedCandidate : Type 0 where
  pub full_name : Option (ExtractedField Text)
  pub current_title : Option (ExtractedField Text)
  pub total_years_experience : Option (ExtractedField Number)
  pub skills : List ExtractedSkill

pub record ResumeAnalysis : Type 0 where
  pub parser_version : Text
  pub candidate : AnalyzedCandidate

pub record JobRequirement : Type 0 where
  pub requirement_key : Text
  pub name : Text
  pub requirement_type : Text
  pub priority : Text
  pub weight : Number
  pub minimum_years : Option Number
  pub is_hard_constraint : Bool
  pub description : Text
  pub source_evidence : List Evidence

pub record JobParseResult : Type 0 where
  pub requirements : List JobRequirement
  pub parser_version : Text

pub record CandidateSkill : Type 0 where
  pub name : Text
  pub estimated_years : Option Number
  pub evidences : List Evidence

pub record RankingCandidate : Type 0 where
  pub candidate_id : Text
  pub current_title : Text
  pub total_years_experience : Option Number
  pub skills : List CandidateSkill

pub record RequirementAssessment : Type 0 where
  pub requirement_id : Text
  pub status : Text
  pub score : Number
  pub confidence : Number
  pub evidences : List Evidence

-- The scoring service numbers the ranks from 1, in whole numbers.
pub record ScoredResult : Type 0 where
  pub candidate_id : Text
  pub rank : ℕ
  pub final_score : Number
  pub confidence : Number
  pub eligibility_status : Text
  pub strengths : List Text
  pub gaps : List Text
  pub unknowns : List Text
  pub requirement_assessments : List RequirementAssessment

pub record RankingResponse : Type 0 where
  pub results : List ScoredResult
  pub model_version : Text
  pub feature_schema_version : Text

pub data UploadStatus : Type 0 where
  ready duplicate failed : UploadStatus

pub record UploadItem : Type 0 where
  pub filename : Text
  pub status : UploadStatus
  pub full_name : Option Text
  pub current_title : Option Text
  pub skills : Option (List Text)
  pub error : Option Text

-- What a run stores of a candidate: the summary made at the upload, or the two fields of the
-- fallback.
pub data CandidateSummary : Type 0 where
  summary :
      (id resume_id full_name current_title : Text) (total_years_experience : Option Number)
      (status filename : Text)
      → CandidateSummary
  bare : (id full_name : Text) → CandidateSummary

pub record StoredCv : Type 0 where
  pub item : UploadItem
  pub open item use {filename, status, full_name, current_title, skills, error}
  pub id : Text
  pub resume_id : Text
  pub candidate_id : Option Text
  pub preview_text : Option Text
  pub document_mime : Option Text
  pub document_data_url : Option Text
  pub has_document_preview : Bool
  pub total_years_experience : Option Number
  pub uploaded_at : Text
  pub ranking_candidate : Option RankingCandidate
  pub candidate_summary : Option CandidateSummary

pub record RequirementScore : Type 0 where
  pub requirement_key : Text
  pub status : Text
  pub score : Number
  pub confidence : Number
  pub evidence_ids : List Text

pub record StoredResult : Type 0 where
  pub id : Text
  pub ranking_run_id : Text
  pub candidate : CandidateSummary
  pub rank : ℕ
  pub final_score : Number
  pub confidence : Number
  pub eligibility_status : Text
  pub strengths : List Text
  pub gaps : List Text
  pub unknowns : List Text
  pub requirement_scores : List RequirementScore

pub record StoredRun : Type 0 where
  pub id : Text
  pub job_id : Text
  pub job_version_id : Text
  pub status : Text
  pub progress : ℕ
  pub model_version : Text
  pub feature_schema_version : Text
  pub candidate_count : ℕ
  pub created_at : Text
  pub started_at : Text
  pub finished_at : Text
  pub results : List StoredResult

pub record StoredJob : Type 0 where
  pub id : Text
  pub title : Text
  pub description : Text
  pub created_at : Text
  pub updated_at : Text
  pub parser_version : Text
  pub requirements : List JobRequirement
  pub cv_count : ℕ
  pub cvs : List StoredCv
  pub latest_run : Option StoredRun

pub record DemoStore : Type 0 where
  pub version : ℕ
  pub jobs : List StoredJob
