-- ===== src/Upload.antt =====
-- The upload of CVs in frontend/app/api/ranking-test/route.ts: `analyzeFile`, `fieldValue` and
-- `analyzeFilesForJob`.
pub mod Preview
pub mod Laws
pub mod Numbering
use mathlib.Core.Option
use cvranking.Prelude.{
  ℕ, zero, suc, ◌+◌, Bool, true, false, not, ◌&&◌, Option, none, some, List, [], ◌∷◌, ◌++◌, map,
  take, select, length, coalesce, leb, if◌then◌else◌,
}
use cvranking.Js.Decimal.{decimal}
use cvranking.Js.Number.{Number}
use cvranking.Js.Text.{Text, units, or_else, strip_prefix_ci}
use mathlib.Core.List.{reverse}
use cvranking.Host.{Host, World, Fetched, unreachable, answered, UploadedFile, tick}
use cvranking.Host.Action.{Thrown, demo_problem, error, other, Result, ok, throw}
use cvranking.Store.Types.{
  ExtractedField, ExtractedSkill, ResumeAnalysis, CandidateSkill, RankingCandidate, UploadStatus,
  ready, duplicate, failed, UploadItem, CandidateSummary, summary, StoredCv, StoredJob,
}
use cvranking.Upload.Preview.{build_preview_text, build_document_preview}

-- `response.ok`, and the body at its type, or what is thrown.
unfoldable pub fetched_json {ℓ} :
    {A : Type ℓ} → Host → (failure : ℕ → Text → Text) → Fetched A → Result A
fetched_json host failure (unreachable message) = throw (error message)
fetched_json host failure (answered status body value) =
    if leb 200 status && leb status 299
    then elim value [ none ↦ throw (error (host.json_error body)) | some v ↦ ok v ]
    else throw (error (failure status body))

unfoldable pub analyze_failure : (name : Text) → ℕ → Text → Text
analyze_failure name status body = units "AI analyze failed for " ++ (name ++ (units ": " ++ body))

unfoldable pub field_value {ℓ} : {T : Type ℓ} → Option (ExtractedField T) → T → T
field_value none fallback = fallback
field_value (some field) fallback = field.value

-- `name.replace(/\.(pdf|docx)$/i, "")`.
unfoldable pub without_extension : Text → Text
without_extension name = elim (strip_prefix_ci (units "fdp.") (reverse name)) [
  | some front ↦ reverse front
  | none ↦ elim (strip_prefix_ci (units "xcod.") (reverse name)) [
    | some front ↦ reverse front
    | none ↦ name
  ]
]

unfoldable pub candidate_id_of : (index : ℕ) → Text
candidate_id_of index = units "candidate-" ++ decimal index

unfoldable pub resume_id_of : (index : ℕ) → Text
resume_id_of index = units "resume-" ++ decimal index

-- `normalized_name || name`.
candidate_skill : ExtractedSkill → CandidateSkill
candidate_skill s = record {
  name = or_else (coalesce s.normalized_name []) s.name;
  estimated_years = s.estimated_years;
  evidences = s.evidences;
}

-- The CV of a file that was analyzed.
unfoldable pub ready_cv :
    UploadedFile
    → (cv_id preview_text uploaded_at : Text) → (document : Option (Text × Text)) → (cv_index : ℕ)
    → ResumeAnalysis
    → StoredCv
unfolding candidate_skill
ready_cv file cv_id preview_text uploaded_at document cv_index analysis =
    let full_name = field_value analysis.candidate.full_name (without_extension file.name) in
    let current_title = field_value analysis.candidate.current_title [] in
    let years = Option.map (λ f. f.value) analysis.candidate.total_years_experience in
    let skills = map candidate_skill analysis.candidate.skills in
    let candidate_id = candidate_id_of cv_index in
    record {
      item = record {
        filename = file.name;
        status = ready;
        full_name = some full_name;
        current_title = some current_title;
        skills = some (map (λ s. s.name) skills);
        error = none;
      };
      id = cv_id;
      resume_id = resume_id_of cv_index;
      candidate_id = some candidate_id;
      preview_text = some preview_text;
      document_mime = Option.map (λ d. d.0) document;
      document_data_url = Option.map (λ d. d.1) document;
      has_document_preview = false;
      total_years_experience = years;
      uploaded_at = uploaded_at;
      ranking_candidate = some (record {
        candidate_id = candidate_id;
        current_title = current_title;
        total_years_experience = years;
        skills = skills;
      });
      candidate_summary = some (
          summary candidate_id (resume_id_of cv_index) full_name current_title years (units "new")
            file.name);
    }

-- `error instanceof Error ? error.message : "…"`.
unfoldable pub message_or : Thrown → Text → Text
message_or (demo_problem status message) fallback = message
message_or (error message) fallback = message
message_or other fallback = fallback

-- The CV of a file whose analysis threw.
unfoldable pub failed_cv :
    UploadedFile
    → (cv_id preview_text uploaded_at : Text) → (document : Option (Text × Text)) → (cv_index : ℕ)
    → Thrown
    → StoredCv
failed_cv file cv_id preview_text uploaded_at document cv_index thrown = record {
  item = record {
    filename = file.name;
    status = failed;
    full_name = none;
    current_title = none;
    skills = none;
    error = some (message_or thrown (units "Không parse được CV."));
  };
  id = cv_id;
  resume_id = resume_id_of cv_index;
  candidate_id = none;
  preview_text = some preview_text;
  document_mime = Option.map (λ d. d.0) document;
  document_data_url = Option.map (λ d. d.1) document;
  has_document_preview = false;
  total_years_experience = none;
  uploaded_at = uploaded_at;
  ranking_candidate = none;
  candidate_summary = none;
}

-- `try { … } catch { … }` over the outcome of the analysis.
unfoldable pub analyzed_cv :
    UploadedFile
    → (cv_id preview_text uploaded_at : Text) → (document : Option (Text × Text)) → (cv_index : ℕ)
    → Result ResumeAnalysis
    → StoredCv
analyzed_cv file cv_id preview_text uploaded_at document cv_index (ok analysis) =
    ready_cv file cv_id preview_text uploaded_at document cv_index analysis
analyzed_cv file cv_id preview_text uploaded_at document cv_index (throw thrown) =
    failed_cv file cv_id preview_text uploaded_at document cv_index thrown

unfoldable pub is_failed : UploadItem → Bool
is_failed item = elim item.status [ failed ↦ true | ready ↦ false | duplicate ↦ false ]

pub record UploadResponse : Type 0 where
  pub items : List UploadItem
  pub accepted : ℕ
  pub failed : ℕ

module _ (host : Host) where
  -- One round of the loop: an identifier of the time and a random part, the previews, the analysis
  -- and the time of the upload.
  unfoldable pub analyze_one : UploadedFile → (cv_index : ℕ) → World → StoredCv × World
  analyze_one file cv_index w =
      let cv_id =
        units "cv-"
        ++ (host.date_now w.calls ++ (units "-" ++ take 8 (host.random_uuid (suc w.calls)))) in
      let (document, w₁) = build_document_preview host file cv_id (tick (tick w)) in
      let outcome = fetched_json host (analyze_failure file.name) (host.analyze w₁.calls file) in
      let w₂ = tick w₁ in
      (
        analyzed_cv file cv_id (build_preview_text file) (host.iso_string w₂.calls) document
            cv_index outcome,
        tick w₂,
      )

  -- The loop, from the number of the next CV.
  unfoldable pub analyze_from : List UploadedFile → (cv_index : ℕ) → World → List StoredCv × World
  analyze_from [] cv_index w = ([], w)
  analyze_from (file ∷ files) cv_index w =
      let (cv, w₁) = analyze_one file cv_index w in
      let (cvs, w₂) = analyze_from files (suc cv_index) w₁ in (cv ∷ cvs, w₂)

  unfoldable pub analyze_files_for_job :
      List UploadedFile → StoredJob → World → (UploadResponse × List StoredCv) × World
  analyze_files_for_job files job w =
      let (cvs, w') = analyze_from files (length job.cvs + 1) w in
      let items = map (λ cv. cv.item) cvs in
      (
        (
          record {
            items = items;
            accepted = length (select (λ item. not (is_failed item)) items);
            failed = length (select is_failed items);
          },
          cvs,
        ),
        w',
      )
