-- ===== src/Pages/Job/Steps.antt =====
-- The page of a job as a state machine: what the user, the timer and the replies do, in any order.
use cvranking.Prelude.{
  ◌≤◌, ◌≡◌, ◌⊎◌, inl, inr, refl, true, false, none, some, List, ◌∷◌, ◌++◌, Has, arith,
}
use cvranking.Js.Text.{Text}
use cvranking.Pages.Job.{
  CvDocumentPreview, document_in, JobPage, show_document, refresh_begin, refresh_end,
  run_ranking_begin, ranking_tick, run_ranking_end, open_preview_cv, preview_end, close_preview_cv,
  show_store,
}
use cvranking.Pages.Requests.{Reply, lost, received}
use cvranking.Routes.{Response}
use cvranking.Store.Types.{StoredCv, StoredJob}

-- A reply to a request for the document of a CV: if it brings a document, it is that CV's.
abbrev pub IsReplyTo : (id : Text) → Reply Response → Type 0
IsReplyTo id (lost message) = Unit
IsReplyTo id (received response) =
    (document_in response.body ≡ none)
    ⊎ ((d : CvDocumentPreview) × (document_in response.body ≡ some d) × (d.cv_id ≡ id))

-- One step. The button that starts a ranking is disabled while one runs, and the timer ticks while it
-- is set. A CV of the job can be opened. The reply about a document comes at any time after it was asked
-- for, a ranking's while it runs, and the store's at any time.
pub data Step (type_error job_id : Text) : JobPage → JobPage → Type 0 where
  refresh_begins : (page : JobPage) → Step type_error job_id page (refresh_begin page)
  refresh_ends :
      (page : JobPage) (reply : Reply Response)
      → Step type_error job_id page (refresh_end type_error job_id reply page)
  ranking_begins :
      (page : JobPage)
      → page.ranking ≡ false
      → Step type_error job_id page (run_ranking_begin page).1
  ranking_ticks :
      (page : JobPage) → page.timer ≡ true → Step type_error job_id page (ranking_tick page)
  ranking_ends :
      (page : JobPage) (reply : Reply Response)
      → page.ranking ≡ true
      → Step type_error job_id page (run_ranking_end type_error reply page)
  preview_begins :
      (page : JobPage) (job : StoredJob) (cv : StoredCv)
      → page.job ≡ some job
      → Has cv job.cvs
      → Step type_error job_id page (open_preview_cv cv page).1
  preview_ends :
      (page : JobPage) (before after : List Text) (id : Text) (reply : Reply Response)
      → page.asked ≡ before ++ id ∷ after
      → IsReplyTo id reply
      → Step type_error job_id page (preview_end reply (record page { asked = before ++ after }))
  preview_closes : (page : JobPage) → Step type_error job_id page (close_preview_cv page)

-- The pages that come of a page by some steps.
pub data Reaches (type_error job_id : Text) (start : JobPage) : JobPage → Type 0 where
  here : Reaches type_error job_id start start
  then_step :
      (page next : JobPage)
      → Reaches type_error job_id start page
      → Step type_error job_id page next
      → Reaches type_error job_id start next

-- The timer runs while a ranking does, the step shown is one of the 5, and it is the first where no
-- ranking runs.
pub record IsSteady (page : JobPage) : Type 0 where
  pub timer : page.timer ≡ page.ranking
  pub step : page.ranking_step ≤ 4
  pub rest : (page.ranking ≡ true) ⊎ (page.ranking_step ≡ 0)

-- The three fields are those of another page.
SameRanking-IsSteady :
    (page next : JobPage)
    → next.timer ≡ page.timer
    → next.ranking ≡ page.ranking
    → next.ranking_step ≡ page.ranking_step
    → IsSteady page
    → IsSteady next
SameRanking-IsSteady page next t r s h = record {
  timer = cc (h.timer);
  step = rw s h.step;
  rest = rw (r, s) h.rest;
}

refresh_end-IsSteady :
    (type_error job_id : Text) (reply : Reply Response) (page : JobPage)
    → IsSteady page
    → IsSteady (refresh_end type_error job_id reply page)
unfolding refresh_end show_store
refresh_end-IsSteady type_error job_id reply page h =
    SameRanking-IsSteady page _ (ground arith) (ground arith) (ground arith) h

preview_end-IsSteady :
    (reply : Reply Response) (page : JobPage) → IsSteady page → IsSteady (preview_end reply page)
unfolding preview_end show_document
preview_end-IsSteady reply page h =
    SameRanking-IsSteady page _ (ground arith) (ground arith) (ground arith) h

open_preview_cv-IsSteady :
    (cv : StoredCv) (page : JobPage) → IsSteady page → IsSteady (open_preview_cv cv page).1
unfolding open_preview_cv
open_preview_cv-IsSteady cv page h =
    SameRanking-IsSteady page _ (ground arith) (ground arith) (ground arith) h

run_ranking_begin-IsSteady : (page : JobPage) → IsSteady page → IsSteady (run_ranking_begin page).1
unfolding run_ranking_begin
run_ranking_begin-IsSteady page h = record {
  timer = ground arith;
  step = ground arith;
  rest = ground arith;
}

run_ranking_end-IsSteady :
    (type_error : Text) (reply : Reply Response) (page : JobPage)
    → IsSteady (run_ranking_end type_error reply page)
unfolding run_ranking_end
run_ranking_end-IsSteady type_error reply page = record {
  timer = ground arith;
  step = ground arith;
  rest = inr (ground arith);
}

Step-IsSteady :
    (type_error job_id : Text) (page next : JobPage)
    → Step type_error job_id page next
    → IsSteady page
    → IsSteady next
unfolding refresh_begin ranking_tick close_preview_cv
Step-IsSteady type_error job_id _ _ (refresh_begins page) h =
    SameRanking-IsSteady page _ refl refl refl h
Step-IsSteady type_error job_id _ _ (refresh_ends page reply) h =
    refresh_end-IsSteady type_error job_id reply page h
Step-IsSteady type_error job_id _ _ (ranking_begins page idle) h = run_ranking_begin-IsSteady page h
Step-IsSteady type_error job_id _ _ (ranking_ticks page set) h = record {
  timer = h.timer;
  step = omega arith;
  rest = inl (cc (h.timer, set));
}
Step-IsSteady type_error job_id _ _ (ranking_ends page reply runs) h =
    run_ranking_end-IsSteady type_error reply page
Step-IsSteady type_error job_id _ _ (preview_begins page job cv shown listed) h =
    open_preview_cv-IsSteady cv page h
Step-IsSteady type_error job_id _ _ (preview_ends page before after id reply asked about) h =
    preview_end-IsSteady reply (record page { asked = before ++ after })
      (record { timer = h.timer; step = h.step; rest = h.rest })
Step-IsSteady type_error job_id _ _ (preview_closes page) h =
    SameRanking-IsSteady page _ refl refl refl h

-- From a page where it holds, in whatever order the user, the timer and the replies come: the timer
-- runs while a ranking does, the step shown is one of the 5, and it is the first where no ranking runs.
pub Reaches-IsSteady :
    (type_error job_id : Text) (start page : JobPage)
    → Reaches type_error job_id start page
    → IsSteady start
    → IsSteady page
Reaches-IsSteady type_error job_id start _ here h = h
Reaches-IsSteady type_error job_id start _ (then_step page next path step) h =
    Step-IsSteady type_error job_id page next step
      (Reaches-IsSteady type_error job_id start page path h)
