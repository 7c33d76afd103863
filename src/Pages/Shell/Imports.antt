-- ===== src/Pages/Shell/Imports.antt =====
-- What importing CVs and refreshing the list of jobs leave.
use cvranking.Prelude.{
  ◌≡◌, ◌<◌, ◌+◌, refl, inl, inr, false, Option, Option-cases, none, some, List, [], ◌∷◌, ◌++◌,
  length, arith,
}
use cvranking.Js.Text.{Text, text_eq_refl, units}
use cvranking.Host.{Host, World, UploadedFile}
use cvranking.Host.Action.{ok}
use cvranking.Pages.Requests.{Reply, load_store}
use cvranking.Pages.JobList.{jobs_in}
use cvranking.Pages.Shell.{
  Shell, refresh_import_jobs, find_id, selected_import_job, first_id, id_or, id_in_path, chosen_id,
  detail_job_id,
}
use cvranking.Routes.{Body, Response}
use cvranking.Store.{get_job}
use cvranking.Store.Types.{StoredJob}
use cvranking.Upload.{UploadResponse}

-- The tools show the upload, the browser is at the job, and the server has the CVs in the job.
pub record IsImported (host : Host) (files : List UploadedFile) (before : StoredJob) (shell : Shell)
    (w : World) : Type 0 where
  pub job : StoredJob
  pub upload : UploadResponse
  pub shown : shell.import_result ≡ some upload
  pub emptied : shell.import_files ≡ []
  pub location : shell.location ≡ some (units "/jobs/" ++ job.id)
  pub error : shell.tool_error ≡ []
  pub busy : shell.tool_busy ≡ false
  pub total : length job.cvs ≡ length files + length before.cvs
  pub stored : (get_job host before.id w).0 ≡ some job

find_id-id_or :
    (id fallback : Text) (jobs : List StoredJob)
    → ((job : StoredJob) × (find_id fallback jobs ≡ some job))
    → (job : StoredJob) × (find_id (id_or id (find_id id jobs) fallback) jobs ≡ some job)
unfolding id_or
find_id-id_or id fallback jobs listed = elim (Option-cases (find_id id jobs)) [
  | inl e ↦ rw e listed
  | inr (job, e) ↦ rw e (job, e)
]

find_id-first_id :
    (jobs : List StoredJob)
    → 0 < length jobs
    → (job : StoredJob) × (find_id (first_id jobs) jobs ≡ some job)
unfolding first_id
find_id-first_id [] h = absurd (omega (arith, h))
find_id-first_id (job ∷ jobs) h = (job, rw (text_eq_refl job.id) refl)

find_id-id_in_path :
    (id : Option Text) (jobs : List StoredJob)
    → 0 < length jobs
    → (job : StoredJob) × (find_id (id_in_path id jobs) jobs ≡ some job)
unfolding id_in_path
find_id-id_in_path none jobs h = find_id-first_id jobs h
find_id-id_in_path (some id) jobs h =
    find_id-id_or id (first_id jobs) jobs (find_id-first_id jobs h)

-- After a refresh that brings at least one job, some listed job is chosen for the import, whatever was
-- chosen before and whichever page is shown.
pub selected_import_job-refresh_import_jobs :
    (pathname : Option Text) (reply : Reply Response) (body : Body) (shell : Shell)
    → load_store reply ≡ ok body
    → 0 < length (jobs_in body)
    → (job : StoredJob) × (selected_import_job (refresh_import_jobs pathname reply shell)
        ≡ some job)
unfolding selected_import_job refresh_import_jobs chosen_id
selected_import_job-refresh_import_jobs pathname reply body shell loaded some_job =
    rw (loaded, refresh_import_jobs)
      (find_id-id_or shell.selected_import_job_id
        (id_in_path (detail_job_id pathname) (jobs_in body)) (jobs_in body)
        (find_id-id_in_path (detail_job_id pathname) (jobs_in body) some_job))
