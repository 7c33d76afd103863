-- ===== src/Examples/Data.antt =====
-- A job, two candidates, a baseline ranking and a host for the examples.
use cvranking.Prelude.{ℕ, false, none, some, List, [], ◌∷◌}
use cvranking.Js.Number.{Number, pos, scale}
use cvranking.Js.Text.{Text, units}
use cvranking.Host.{Host, World, UploadedFile, unreachable, answered}
use cvranking.Rerank.Types.{missing, number, text, RankingPayload, GeminiResponse}
use cvranking.Store.Types.{
  ResumeAnalysis, RankingCandidate, ScoredResult, RankingResponse, ready, StoredCv, StoredJob, bare,
  RequirementAssessment,
}

abbrev pub assessment : RequirementAssessment
assessment = record {
  requirement_id = units "R1";
  status = units "met";
  score = pos scale;
  confidence = pos scale;
  evidences = [];
}

abbrev pub scored : (id : Text) → (rank : ℕ) → Number → ScoredResult
scored id rank score = record {
  candidate_id = id;
  rank = rank;
  final_score = score;
  confidence = pos scale;
  eligibility_status = units "eligible";
  strengths = [];
  gaps = [];
  unknowns = [];
  requirement_assessments = assessment ∷ [];
}

abbrev pub ann_id : Text
ann_id = units "candidate-1"

abbrev pub bo_id : Text
bo_id = units "candidate-2"

abbrev pub baseline : RankingResponse
baseline = record {
  results = scored ann_id 1 (pos scale) ∷ scored bo_id 2 (pos 0) ∷ [];
  model_version = units "baseline";
  feature_schema_version = units "v1";
}

-- A provider's answer about the second candidate, with a score above 1.
abbrev pub payload : RankingPayload
payload = record {
  results = some (
      record {
        candidate_id = some bo_id;
        score = number (pos 5) (units "5");
        confidence = missing;
        eligibility_status = text (units "great");
        strengths = none;
        gaps = none;
        unknowns = none;
        requirement_scores = none;
      }
      ∷ []);
}

abbrev pub candidate : Text → RankingCandidate
candidate id = record {
  candidate_id = id;
  current_title = units "Engineer";
  total_years_experience = none;
  skills = [];
}

abbrev pub stored_cv : (id resume_id : Text) → StoredCv
stored_cv id resume_id = record {
  item = record {
    filename = units "ann.pdf";
    status = ready;
    full_name = some (units "Ann");
    current_title = none;
    skills = none;
    error = none;
  };
  id = units "cv-1";
  resume_id = resume_id;
  candidate_id = some id;
  preview_text = none;
  document_mime = none;
  document_data_url = none;
  has_document_preview = false;
  total_years_experience = none;
  uploaded_at = [];
  ranking_candidate = some (candidate id);
  candidate_summary = some (bare id id);
}

abbrev pub job_with : (id : Text) → List StoredCv → StoredJob
job_with id cvs = record {
  id = id;
  title = units "Engineer";
  description = units "We are hiring an engineer.";
  created_at = [];
  updated_at = [];
  parser_version = units "v1";
  requirements = [];
  cv_count = 0;
  cvs = cvs;
  latest_run = none;
}

abbrev pub job : StoredJob
job = job_with (units "jd-1") (stored_cv ann_id (units "resume-1") ∷ [])

abbrev pub other_job : StoredJob
other_job = job_with (units "jd-2") []

abbrev pub analysis : ResumeAnalysis
analysis = record {
  parser_version = units "v1";
  candidate = record {
    full_name = none;
    current_title = none;
    total_years_experience = none;
    skills = [];
  };
}

abbrev pub gemini_answer : GeminiResponse
gemini_answer = record {
  candidates =
      some (record { content = some (record { parts = some (some (units "{}") ∷ []) }) } ∷ []);
  error_message = none;
}

-- A host whose disk works, whose services answer, and where Gemini answers one of the two keys.
abbrev pub host_with : (env : List (Text × Text)) → (to_number : Text → Number) → Host
host_with env to_number = record {
  random_uuid = λ n. n ∷ [];
  date_now = λ n. n ∷ [];
  iso_string = λ n. n ∷ [];
  disk_fails = λ n. false;
  write_truncates = λ n. false;
  parse_job = λ n title description.
      answered 200 [] (some (record { requirements = []; parser_version = units "v1" }));
  analyze = λ n file. answered 200 [] (some analysis);
  score = λ n requirements candidates. answered 200 [] (some baseline);
  gemini = λ n model key prompt input. answered 200 [] (some gemini_answer);
  groq = λ n model key prompt input. unreachable (units "no network");
  random_uint32 = λ n. n;
  env = env;
  to_number = to_number;
  json_error = λ body. units "Unexpected token";
  parse_payload = λ s. some payload;
}

abbrev pub two_keys : List (Text × Text)
two_keys = (units "GEMINI_API_KEY", units "k1,k2") ∷ []

abbrev pub host : Host
host = host_with two_keys (λ s. pos 0)

-- A host whose scoring service cannot be reached.
abbrev pub offline_host : Host
offline_host = record host { score = λ n requirements candidates. unreachable (units "refused") }

abbrev pub stored_world : World
stored_world = record {
  memory = some (record { version = 2; jobs = job ∷ [] });
  store_file = none;
  pdfs = [];
  calls = 0;
}

abbrev pub file : UploadedFile
file = record {
  name = units "bo.pdf";
  type = units "application/pdf";
  bytes = units "%PDF";
  text = none;
}
