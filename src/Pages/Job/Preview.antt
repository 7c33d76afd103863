-- ===== src/Pages/Job/Preview.antt =====
-- Which document the page of a job shows beside which CV.
use mathlib.Core.List.{append_assoc, append-nil}
use cvranking.Prelude.{
  sym, ap, ◌∙◌, ◌≡◌, ◌≢◌, refl, ◌⊎◌, inl, inr, true, none, some, List, [], ◌∷◌, ◌++◌, Has,
  if◌then◌else◌, Bool-cases, arith,
}
use cvranking.Js.Text.{Text}
use cvranking.Host.{Host}
use cvranking.Pages.Job.{
  show_document, CvDocumentPreview, JobPage, open_preview_cv, preview_end, document_in,
}
use cvranking.Pages.Job.Steps.{IsReplyTo, Reaches, here, then_step, preview_begins, preview_ends}
use cvranking.Pages.Requests.{Reply, received, payload_if, payload_of, load_cv_document}
use cvranking.Routes.{document, Response, json}
use cvranking.Store.Types.{StoredCv, StoredJob}

-- The page shows a CV, and the document of that CV or none.
pub record ShowsOwn (cv : StoredCv) (page : JobPage) : Type 0 where
  pub shown : page.preview_cv ≡ some cv
  pub own :
      (page.preview_document ≡ none)
      ⊎ ((d : CvDocumentPreview) × (page.preview_document ≡ some d) × (d.cv_id ≡ cv.id))

-- An answer is about a CV: its document, where it has one, is that CV's.
abbrev IsAbout : (id : Text) → Response → Type 0
IsAbout id response = IsReplyTo id (received response)

-- The answer with the document of a CV.
abbrev pub document_answer : StoredCv → (mime url : Text) → Response
document_answer cv mime url = json (document cv.id cv.filename mime url)

asked-open_preview_cv :
    (cv : StoredCv) (page : JobPage)
    → (open_preview_cv cv page).1.asked
      ≡ page.asked ++ (if cv.has_document_preview then cv.id ∷ [] else [])
unfolding open_preview_cv
asked-open_preview_cv cv page = elim (Bool-cases cv.has_document_preview) [
  | inl e ↦ rw e refl
  | inr e ↦ rw e (sym (append-nil page.asked))
]

preview_cv-open_preview_cv :
    (cv : StoredCv) (page : JobPage) → (open_preview_cv cv page).1.preview_cv ≡ some cv
unfolding open_preview_cv
preview_cv-open_preview_cv cv page = ground arith

job-open_preview_cv : (cv : StoredCv) (page : JobPage) → (open_preview_cv cv page).1.job ≡ page.job
unfolding open_preview_cv
job-open_preview_cv cv page = ground arith

-- From every page whose job has two CVs, of which one has a document, there is an order of events in which
-- that one is opened, then the other, and then the document of the first comes: the page shows the second
-- CV and beside it the document of the first.
pub open_preview_cv-stale :
    (type_error job_id : Text) (start : JobPage) (job : StoredJob) (a b : StoredCv)
    (mime url : Text)
    → start.job ≡ some job
    → Has a job.cvs
    → Has b job.cvs
    → a.has_document_preview ≡ true
    → a.id ≢ b.id
    → (page : JobPage) × Reaches type_error job_id start page
      × (page.preview_cv ≡ some b)
      × ((d : CvDocumentPreview) × (page.preview_document ≡ some d)
          × (d.document_data_url ≡ url)
          × (d.cv_id ≡ a.id)
          × (d.cv_id ≢ b.id))
unfolding preview_end load_cv_document payload_of payload_if show_document document_in
    open_preview_cv
open_preview_cv-stale type_error job_id start job a b mime url has_job has_a has_b has_one differ =
    let first = (open_preview_cv a start).1 in
    let second = (open_preview_cv b first).1 in
    let reply : Reply Response = received (document_answer a mime url) in
    let more = if b.has_document_preview then b.id ∷ [] else [] in
    let asked : second.asked ≡ start.asked ++ a.id ∷ more =
      asked-open_preview_cv b first
      ∙ ap (λ known. known ++ more)
          (asked-open_preview_cv a start
            ∙ ap (λ has. start.asked ++ (if has then a.id ∷ [] else [])) has_one)
      ∙ append_assoc start.asked (a.id ∷ []) more in
    (
      preview_end reply (record second { asked = start.asked ++ more }),
      then_step second _
          (then_step first _ (then_step start _ here (preview_begins start job a has_job has_a))
            (preview_begins first job b (job-open_preview_cv a start ∙ has_job) has_b))
          (preview_ends second start.asked more a.id reply asked (inr (_, refl, refl))),
      preview_cv-open_preview_cv b first,
      (_, refl, refl, refl, differ),
    )
