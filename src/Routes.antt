-- ===== src/Routes.antt =====
-- `GET`, `POST` and `responseError` of frontend/app/api/ranking-test/route.ts. The form fields are
-- read by the framework: a field that is missing is `none`.
pub mod Laws
pub mod Statuses
pub mod Interleaving
pub mod Validity
use cvranking.Prelude.{
  ℕ, Bool, true, false, not, ◌&&◌, ◌||◌, Option, none, some, List, [], ◌∷◌, ◌++◌, ◌+◌, map, select,
  find, flat_map, length, coalesce, ltb, ◌==◌, if◌then◌else◌,
}
use cvranking.Js.Text.{Text, units, text_eq, truthy, or_else, trim}
use cvranking.Host.{Host, World, UploadedFile, tick}
use cvranking.Host.Action.{
  Thrown, demo_problem, error, other, Result, ok, throw, Action, pure, raise, run, call, catch,
  ◌>>=◌, ◌>>◌,
}
use cvranking.Store.{strip_document_data, read_demo_store, reset_demo_store, save_job, get_job}
use cvranking.Store.Types.{StoredCv, StoredJob, StoredRun, DemoStore}
use cvranking.Ranking.{create_job, rank_job, jd_too_short, default_title}
use cvranking.Rerank.Keys.{AiRerankStatus, ai_rerank_status}
use cvranking.Upload.{UploadResponse, is_failed, analyze_files_for_job, message_or}
use cvranking.Upload.Preview.{pdf_data_url, pdf_mime}

-- The JSON bodies that the route answers with.
pub data Body : Type 0 where
  detail : Text → Body
  document : (cv_id filename document_mime document_data_url : Text) → Body
  library : DemoStore → AiRerankStatus → Body
  reset : DemoStore → Body
  created : StoredJob → Body
  uploaded : StoredJob → UploadResponse → Body
  ranked : StoredJob → Option StoredRun → AiRerankStatus → Body
  ranked_once : UploadResponse → Option StoredRun → (saved_job job : StoredJob) → Body

pub record Response : Type 0 where
  pub status : ℕ
  pub body : Body

abbrev pub problem : ℕ → Text → Response
problem status message = record { status = status; body = detail message }

abbrev pub json : Body → Response
json body = record { status = 200; body = body }

unfoldable pub response_error : Thrown → Response
response_error (demo_problem status message) = problem status message
response_error (error message) = problem 502 message
response_error other = problem 502 (units "Không thể gọi AI service.")

pub record Form : Type 0 where
  pub action : Option Text
  pub title : Option Text
  pub jd : Option Text
  pub job_id : Option Text
  pub files : List UploadedFile

abbrev pub no_files : Text
no_files = units "Chọn ít nhất một CV PDF hoặc DOCX."

abbrev pub too_many_files : Text
too_many_files = units "Tối đa 50 CV mỗi lần upload."

abbrev pub no_job_to_upload : Text
no_job_to_upload = units "Không tìm thấy JD để upload CV."

abbrev pub no_job_to_rank : Text
no_job_to_rank = units "Không tìm thấy JD để chạy ranking."

abbrev pub no_cv : Text
no_cv = units "Không tìm thấy CV này."

abbrev pub no_document : Text
no_document = units "Không tìm thấy file preview cho CV này."

-- How many CVs of a job did not fail.
unfoldable pub count_ready : List StoredCv → ℕ
count_ready cvs = length (select (λ cv. not (is_failed cv.item)) cvs)

unfoldable pub with_upload : StoredJob → (now : Text) → UploadResponse → List StoredCv → StoredJob
with_upload job now upload cvs = record job {
  updated_at = now;
  cvs = cvs ++ job.cvs;
  cv_count = count_ready job.cvs + upload.accepted;
}

-- The handler catches everything that the action throws.
unfoldable pub answer_of : Result Response → Response
answer_of (ok response) = response
answer_of (throw thrown) = response_error thrown

module _ (host : Host) where
  -- The document of a CV: the data URL in the store, or the file on disk.
  unfoldable pub stored_document :
      (fails : Bool) → List (Text × Text) → (cv_id : Text) → Option Text
  stored_document true pdfs cv_id = none
  stored_document false pdfs cv_id = elim (find (λ e. text_eq e.0 cv_id) pdfs) [
    | none ↦ none
    | some e ↦ some (pdf_data_url e.1)
  ]

  unfoldable pub document_response : StoredCv → Text → Response
  document_response cv data_url =
      json (document cv.id cv.filename (or_else (coalesce cv.document_mime []) pdf_mime) data_url)

  -- The answer with what the read of the file gave.
  unfoldable pub disk_answer : StoredCv → Option Text → World → Response × World
  disk_answer cv none w = (problem 404 no_document, tick w)
  disk_answer cv (some url) w = (document_response cv url, tick w)

  -- The answer about a CV, by the data URL that the store has.
  unfoldable pub document_from : (cv_id : Text) → StoredCv → Option Text → World → Response × World
  document_from cv_id cv (some (c ∷ url)) w = (document_response cv (c ∷ url), w)
  document_from cv_id cv _ w =
      disk_answer cv (stored_document (host.disk_fails w.calls) w.pdfs cv_id) w

  unfoldable pub document_of : (cv_id : Text) → Option StoredCv → World → Response × World
  document_of cv_id none w = (problem 404 no_cv, w)
  document_of cv_id (some cv) w = document_from cv_id cv cv.document_data_url w

  unfoldable pub get_route : (wanted cv_id : Option Text) → World → Response × World
  get_route wanted cv_id w =
      let (store, w') = read_demo_store host w in
      if text_eq (coalesce wanted []) (units "1") && truthy (coalesce cv_id [])
      then document_of (coalesce cv_id [])
          (find (λ cv. text_eq cv.id (coalesce cv_id [])) (flat_map (λ job. job.cvs) store.jobs)) w'
      else (json (library (strip_document_data store) (ai_rerank_status host.env)), w')

  -- `upload_cvs` past its guards.
  unfoldable pub upload_files : List UploadedFile → StoredJob → Action Response
  upload_files files job = do
    result ← run (analyze_files_for_job host files job)
    now ← call host.iso_string
    let updated = with_upload job now result.0 result.1
    run (λ w. (json (uploaded updated result.0), save_job host updated w))

  -- `upload_cvs`, with the job that was found.
  unfoldable pub upload_to : List UploadedFile → Option StoredJob → Action Response
  upload_to files none = pure (problem 404 no_job_to_upload)
  upload_to files (some job) =
      if length files == 0
      then pure (problem 422 no_files)
      else if ltb 50 (length files)
      then pure (problem 422 too_many_files)
      else upload_files files job

  -- `run_ranking`, with the job that was found.
  unfoldable pub rank_found : Option StoredJob → Action Response
  rank_found none = pure (problem 404 no_job_to_rank)
  rank_found (some job) = do
    updated ← rank_job host job
    pure (json (ranked updated updated.latest_run (ai_rerank_status host.env)))

  -- The new job with its CVs: it is saved and ranked.
  unfoldable pub rank_new :
      StoredJob → UploadResponse × List StoredCv → (now : Text) → Action Response
  rank_new job result now = do
    let with_cvs : StoredJob = record job {
      cvs = result.1;
      cv_count = result.0.accepted;
      updated_at = now;
    }
    run (λ w. (tt, save_job host with_cvs w))
    ranked_job ← rank_job host with_cvs
    pure (json (ranked_once result.0 ranked_job.latest_run ranked_job ranked_job))

  -- `rank_once` past its guards.
  unfoldable pub create_and_rank : (title jd : Text) → List UploadedFile → Action Response
  create_and_rank title jd files = do
    job ← create_job host title jd
    result ← run (analyze_files_for_job host files job)
    now ← call host.iso_string
    rank_new job result now

  -- Any other action: create, upload and rank in one request.
  unfoldable pub rank_once : (title jd : Text) → List UploadedFile → Action Response
  rank_once title jd files =
      if ltb (length jd) 20
      then pure (problem 422 jd_too_short)
      else if length files == 0
      then pure (problem 422 no_files)
      else create_and_rank title jd files

  unfoldable pub reset_action : Action Response
  reset_action = do store ← run (reset_demo_store host); pure (json (reset store))

  unfoldable pub create_action : (title jd : Text) → Action Response
  create_action title jd = do job ← create_job host title jd; pure (json (created job))

  unfoldable pub upload_action : (job_id : Text) → List UploadedFile → Action Response
  upload_action job_id files = do found ← run (get_job host job_id); upload_to files found

  unfoldable pub rank_action : (job_id : Text) → Action Response
  rank_action job_id = do found ← run (get_job host job_id); rank_found found

  unfoldable pub action_of : (action title jd job_id : Text) → List UploadedFile → Action Response
  action_of action title jd job_id files =
      if text_eq action (units "reset_store")
      then reset_action
      else if text_eq action (units "create_job")
      then create_action title jd
      else if text_eq action (units "upload_cvs")
      then upload_action job_id files
      else if text_eq action (units "run_ranking")
      then rank_action job_id
      else rank_once title jd files

  unfoldable pub dispatch : Form → Action Response
  dispatch form =
      action_of (coalesce form.action (units "rank_once"))
        (trim (coalesce form.title default_title)) (trim (coalesce form.jd []))
        (trim (coalesce form.job_id [])) form.files

  unfoldable pub post_route : Form → World → Response × World
  post_route form w = let (result, w') = dispatch form w in (answer_of result, w')
