-- ===== src/Pages/Job.antt =====
-- The state and the handlers of frontend/app/jobs/[jobId]/page.tsx. A handler with an `await` is what
-- it does before its request and what it does with the reply; between the two the page goes on.
pub mod Steps
pub mod Preview
use cvranking.Prelude.{
  ℕ, suc, Bool, true, false, not, ◌||◌, Option, none, some, List, [], ◌∷◌, ◌++◌, find, coalesce,
  ◌==◌, ltb, min, if◌then◌else◌,
}
use cvranking.Js.Text.{Text, units, text_eq}
use cvranking.Host.Action.{Result, ok, throw}
use cvranking.Pages.Requests.{
  Reply, form_value, load_cv_document, load_store, problem_message, submit_demo_form, job_of,
}
use cvranking.Rerank.Keys.{AiRerankStatus}
use cvranking.Routes.{
  Body, detail, document, library, reset, created, uploaded, ranked, ranked_once, Form, Response,
}
use cvranking.Store.{find_job}
use cvranking.Store.Types.{
  StoredCv, StoredJob, StoredRun, StoredResult, CandidateSummary, summary, bare, DemoStore,
}

pub record CvDocumentPreview : Type 0 where
  pub cv_id : Text
  pub filename : Text
  pub document_mime : Text
  pub document_data_url : Text

pub data Tab : Type 0 where
  cvs_tab results_tab : Tab

-- `timer` says whether the interval of the ranking steps runs, and `asked` has the ids of the CVs whose
-- documents are asked for and have not come.
pub record JobPage : Type 0 where
  pub job : Option StoredJob
  pub run : Option StoredRun
  pub error : Text
  pub notice : Text
  pub loading : Bool
  pub ranking : Bool
  pub ranking_step : ℕ
  pub active_tab : Tab
  pub preview_cv : Option StoredCv
  pub preview_document : Option CvDocumentPreview
  pub preview_loading : Bool
  pub panel_open : Bool
  pub ai_rerank : Option AiRerankStatus
  pub timer : Bool
  pub asked : List Text

-- `job?.latest_run?.results ?? run?.results ?? []`.
unfoldable pub ranking_results : JobPage → List StoredResult
ranking_results page = elim page.job [
  | some job ↦ elim job.latest_run [
    | some latest ↦ latest.results
    | none ↦ elim page.run [ none ↦ [] | some run ↦ run.results ]
  ]
  | none ↦ elim page.run [ none ↦ [] | some run ↦ run.results ]
]

-- `id === cv.candidate_id`, where the CV may have none.
same_candidate : Text → Option Text → Bool
same_candidate id none = false
same_candidate id (some candidate_id) = text_eq id candidate_id

-- Whether a result is about a CV: by its candidate, or by its resume where the summary has one.
unfoldable pub is_about : StoredCv → CandidateSummary → Bool
unfolding same_candidate
is_about cv (summary id resume_id _ _ _ _ _) =
    same_candidate id cv.candidate_id || text_eq resume_id cv.resume_id
is_about cv (bare id _) = same_candidate id cv.candidate_id

unfoldable pub preview_result : JobPage → Option StoredResult
preview_result page = elim page.preview_cv [
  | none ↦ none
  | some cv ↦ find (λ result. is_about cv result.candidate) (ranking_results page)
]

unfoldable pub refresh_begin : JobPage → JobPage
refresh_begin page = record page { error = []; loading = true }

-- Whether the job has a CV with an id.
unfoldable pub has_cv : Text → Option StoredJob → Bool
has_cv id none = false
has_cv id (some job) = elim (find (λ cv. text_eq cv.id id) job.cvs) [
  | none ↦ false
  | some cv ↦ true
]

-- The CV that is shown stays while the job that was found has it.
unfoldable pub kept_preview : Option StoredCv → Option StoredJob → Option StoredCv
kept_preview none found = none
kept_preview (some current) found = if has_cv current.id found then some current else none

latest_of : Option StoredJob → Option StoredRun
latest_of none = none
latest_of (some job) = job.latest_run

unfoldable pub show_store : (job_id : Text) → DemoStore → AiRerankStatus → JobPage → JobPage
unfolding latest_of
show_store job_id store status page =
    let found = find_job job_id store.jobs in
    record page {
      job = found;
      run = latest_of found;
      ai_rerank = some status;
      preview_cv = kept_preview page.preview_cv found;
      loading = false;
    }

abbrev pub fail_refresh : (message : Text) → JobPage → JobPage
fail_refresh message page = record page { error = message; loading = false }

-- A payload without jobs makes `store.jobs.find` throw an error of the browser.
unfoldable pub refresh_end : (type_error job_id : Text) → Reply Response → JobPage → JobPage
refresh_end type_error job_id reply page = elim (load_store reply) [
  | throw thrown ↦ fail_refresh (problem_message thrown) page
  | ok body ↦ elim body [
    | library store status ↦ show_store job_id store status page
    | _ ↦ fail_refresh type_error page
  ]
]

-- `runRanking` up to its request, with the form.
unfoldable pub run_ranking_begin : JobPage → Option Form × JobPage
run_ranking_begin page = elim page.job [
  | none ↦ (none, record page { error = units "Không tìm thấy JD này." })
  | some job ↦
      if job.cv_count == 0
      then (
        none,
        record page { error = units "JD này chưa có CV nào. Import CV trước rồi mới ranking." },
      )
      else (
        some (record {
          action = some (form_value (units "run_ranking"));
          title = none;
          jd = none;
          job_id = some (form_value job.id);
          files = [];
        }),
        record page {
          error = [];
          notice = [];
          ranking = true;
          ranking_step = 0;
          active_tab = results_tab;
          timer = true;
        },
      )
]

-- The interval's callback; there are 5 steps.
unfoldable pub ranking_tick : JobPage → JobPage
ranking_tick page = record page { ranking_step = min (suc page.ranking_step) 4 }

-- What the payload has under `run` and `ai_rerank`.
run_of : Body → Option StoredRun
run_of (ranked job run status) = run
run_of (ranked_once upload run saved_job job) = run
run_of _ = none

status_of : Body → Option AiRerankStatus
status_of (ranked job run status) = some status
status_of (library store status) = some status
status_of _ = none

ranking_done : JobPage → JobPage
ranking_done page = record page { ranking = false; ranking_step = 0; timer = false }

-- `result.job.title` throws an error of the browser where the payload has no job.
unfoldable pub run_ranking_end : (type_error : Text) → Reply Response → JobPage → JobPage
unfolding run_of status_of ranking_done
run_ranking_end type_error reply page = elim (submit_demo_form reply) [
  | throw thrown ↦ ranking_done (record page { error = problem_message thrown })
  | ok body ↦
      let shown : JobPage = record page {
        job = job_of body;
        run = run_of body;
        ai_rerank = status_of body;
      } in
      elim (job_of body) [
        | none ↦ ranking_done (record shown { error = type_error })
        | some job ↦
            ranking_done
              (record shown { notice = units "Ranking xong cho JD “" ++ (job.title ++ units "”.") })
      ]
]

-- `openPreviewCV` up to its request for the document, which is made where there is one.
unfoldable pub open_preview_cv : StoredCv → JobPage → Bool × JobPage
open_preview_cv cv page =
    let opened : JobPage = record page {
      preview_cv = some cv;
      preview_document = none;
      panel_open = true;
    } in
    if cv.has_document_preview
    then (true, record opened { preview_loading = true; asked = page.asked ++ cv.id ∷ [] })
    else (false, opened)

-- The payload as a document; of another payload the page shows nothing.
unfoldable pub document_in : Body → Option CvDocumentPreview
document_in (document cv_id filename mime url) =
    some
      (record { cv_id = cv_id; filename = filename; document_mime = mime; document_data_url = url })
document_in _ = none

-- The page with what loading the document gave.
unfoldable pub show_document : Result Body → JobPage → JobPage
show_document (ok body) page = record page {
  preview_document = document_in body;
  preview_loading = false;
}
show_document (throw thrown) page = record page {
  error = problem_message thrown;
  preview_loading = false;
}

unfoldable pub preview_end : Reply Response → JobPage → JobPage
preview_end reply page = show_document (load_cv_document reply) page

unfoldable pub close_preview_cv : JobPage → JobPage
close_preview_cv page = record page {
  preview_cv = none;
  preview_document = none;
  preview_loading = false;
}
