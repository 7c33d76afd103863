-- ===== src/Examples/Pages.antt =====
-- The theorems on the pages at an example page.
use cvranking.Prelude.{◌≡◌, ◌≢◌, refl, inl, inr, true, false, none, some, [], ◌∷◌, length, arith}
use cvranking.Js.Text.{text_eq, text_eq_iff, units, trim, trim_start, trim_end, is_space, truthy}
use cvranking.Examples.Assistant.{assistant_host, state}
use cvranking.Examples.Data.{job, ann_id, host, stored_cv, stored_world}
use cvranking.Pages.NewJob.{NewJobPage, create_jd, ask_jd_assistant}
use cvranking.Pages.NewJob.Laws.{
  IsOpened, IsNewJob, IsAnswered, Parses, sent_title, sent_jd, create_jd-IsOpened,
  ask_jd_assistant-IsAnswered,
}
use cvranking.Pages.Job.{CvDocumentPreview, JobPage, cvs_tab, open_preview_cv}
use cvranking.Pages.Job.Preview.{open_preview_cv-stale}
use cvranking.Pages.Job.Steps.{IsSteady, Reaches, here, then_step, preview_begins, Reaches-IsSteady}
use cvranking.Pages.Requests.{form_value}
use cvranking.Store.Types.{StoredCv, StoredJob, JobParseResult}
use cvranking.Upload.{fetched_json}

abbrev page : NewJobPage
page = record {
  title = units "Engineer";
  jd = units "We are hiring an engineer.";
  error = [];
  notice = [];
  creating = false;
  outline_open = false;
  assistant_thread_id = units "t1";
  assistant_instruction = [];
  assistant_reply = [];
  assistant_draft = [];
  assistant_meta = [];
  assistant_busy = false;
  outline = record { experience = []; must_have = []; nice_have = []; domain = [] };
  location = none;
}

abbrev parsed : JobParseResult
parsed = record { requirements = []; parser_version = units "v1" }

long_jd : length (trim page.jd) ≡ 26
unfolding units trim trim_start trim_end is_space
long_jd = refl

long_sent_jd : length (sent_jd page) ≡ 26
unfolding units trim trim_start trim_end is_space form_value
long_sent_jd = refl

parses : Parses host (sent_title page) (sent_jd page) parsed stored_world
unfolding fetched_json
parses = refl

create_jd-IsOpened_example :
    (job : StoredJob) × IsOpened host job (create_jd host (units "no job") page stored_world).0
    × IsNewJob host
        (sent_title page)
        (sent_jd page)
        parsed
        job
        (create_jd host (units "no job") page stored_world).1
create_jd-IsOpened_example =
    create_jd-IsOpened host (units "no job") page parsed stored_world (omega (arith, long_jd))
      (omega (arith, long_sent_jd)) parses

thread-truthy : truthy page.assistant_thread_id ≡ true
unfolding units
thread-truthy = refl

told : length (trim (units "shorten it")) ≡ 10
unfolding units trim trim_start trim_end is_space
told = refl

ask_jd_assistant-IsAnswered_example :
    IsAnswered assistant_host
      (units "shorten it")
      page
      state
      (ask_jd_assistant assistant_host (units "shorten it") page state).0
      (ask_jd_assistant assistant_host (units "shorten it") page state).1
ask_jd_assistant-IsAnswered_example =
    ask_jd_assistant-IsAnswered assistant_host (units "shorten it") page state thread-truthy
      (omega (arith, long_jd)) (omega (arith, told))

abbrev job_page : JobPage
job_page = record {
  job = none;
  run = none;
  error = [];
  notice = [];
  loading = false;
  ranking = false;
  ranking_step = 0;
  active_tab = cvs_tab;
  preview_cv = none;
  preview_document = none;
  preview_loading = false;
  panel_open = true;
  ai_rerank = none;
  timer = false;
  asked = [];
}

abbrev first_cv : StoredCv
first_cv = record (stored_cv ann_id (units "resume-1")) { has_document_preview = true }

abbrev second_cv : StoredCv
second_cv = record first_cv { id = units "cv-2" }

abbrev two_cvs : StoredJob
two_cvs = record job { cvs = first_cv ∷ second_cv ∷ [] }

abbrev full_page : JobPage
full_page = record job_page { job = some two_cvs }

job_page-IsSteady : IsSteady full_page
job_page-IsSteady = record { timer = refl; step = omega arith; rest = inr refl }

preview_path :
    Reaches (units "no job") (units "jd-1") full_page (open_preview_cv first_cv full_page).1
preview_path =
    then_step full_page _ here (preview_begins full_page two_cvs first_cv refl (inl refl))

Reaches-IsSteady_example : IsSteady (open_preview_cv first_cv full_page).1
Reaches-IsSteady_example =
    Reaches-IsSteady (units "no job") (units "jd-1") full_page
      (open_preview_cv first_cv full_page).1 preview_path job_page-IsSteady

cv_ids-ne : units "cv-1" ≢ units "cv-2"
unfolding text_eq units
cv_ids-ne e = cc ((text_eq_iff (units "cv-1") (units "cv-2")).1 e)

open_preview_cv-stale_example :
    (p : JobPage) × Reaches (units "no job") (units "jd-1") full_page p
    × (p.preview_cv ≡ some second_cv)
    × ((d : CvDocumentPreview) × (p.preview_document ≡ some d)
        × (d.document_data_url ≡ units "data:")
        × (d.cv_id ≡ first_cv.id)
        × (d.cv_id ≢ second_cv.id))
open_preview_cv-stale_example =
    open_preview_cv-stale (units "no job") (units "jd-1") full_page two_cvs first_cv second_cv
      (units "application/pdf") (units "data:") refl (inl refl) (inr (inl refl)) refl cv_ids-ne
