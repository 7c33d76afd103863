-- ===== src/Upload/Laws.antt =====
-- What `analyzeFilesForJob` returns: a CV for each file, analyzed or failed.
use mathlib.Core.Path.{ap₂}
use cvranking.Prelude.{
  ℕ, suc, ◌+◌, ◌≡◌, refl, ap, ◌∙◌, Bool, not, Option, none, some, List, [], ◌∷◌, map, select,
  length, length-map, arith, All, inl, inr, ◌⊎◌,
}
use cvranking.Js.Text.{Text}
use cvranking.Host.{Host, World, UploadedFile}
use cvranking.Host.Action.{Result, ok, throw}
use cvranking.Store.Types.{
  ResumeAnalysis, RankingCandidate, ready, failed, UploadItem, CandidateSummary, summary, bare,
  StoredCv, StoredJob,
}
use cvranking.Upload.{
  ready_cv, failed_cv, analyzed_cv, is_failed, analyze_one, analyze_from, analyze_files_for_job,
  candidate_id_of,
}

-- The id of a summary.
abbrev pub summary_id : CandidateSummary → Text
summary_id (summary id _ _ _ _ _ _) = id
summary_id (bare id _) = id

-- A CV carries a candidate for the ranking, under one id in all three places, or has failed and
-- carries none, with the error.
abbrev pub IsConsistent : StoredCv → Type 0
IsConsistent cv =
    ((id : Text) × (candidate : RankingCandidate) × (person : CandidateSummary) × (cv.item.status
        ≡ ready)
      × (cv.candidate_id ≡ some id)
      × (cv.ranking_candidate ≡ some candidate)
      × (cv.candidate_summary ≡ some person)
      × (candidate.candidate_id ≡ id)
      × (summary_id person ≡ id))
    ⊎ ((message : Text) × (cv.item.status ≡ failed)
        × (cv.item.error ≡ some message)
        × (cv.candidate_id ≡ none)
        × (cv.ranking_candidate ≡ none)
        × (cv.candidate_summary ≡ none))

analyzed_cv-IsConsistent :
    (file : UploadedFile) (cv_id preview_text uploaded_at : Text) (document : Option (Text × Text))
    (cv_index : ℕ) (outcome : Result ResumeAnalysis)
    → IsConsistent (analyzed_cv file cv_id preview_text uploaded_at document cv_index outcome)
unfolding analyzed_cv ready_cv failed_cv
analyzed_cv-IsConsistent file cv_id preview_text uploaded_at document cv_index (ok analysis) =
    inl (candidate_id_of cv_index, _, _, refl, refl, refl, refl, refl, refl)
analyzed_cv-IsConsistent file cv_id preview_text uploaded_at document cv_index (throw thrown) =
    inr (_, refl, refl, refl, refl, refl)

analyzed_cv-filename :
    (file : UploadedFile) (cv_id preview_text uploaded_at : Text) (document : Option (Text × Text))
    (cv_index : ℕ) (outcome : Result ResumeAnalysis)
    → (analyzed_cv file cv_id preview_text uploaded_at document cv_index outcome).item.filename
      ≡ file.name
unfolding analyzed_cv ready_cv failed_cv
analyzed_cv-filename file cv_id preview_text uploaded_at document cv_index (ok analysis) = refl
analyzed_cv-filename file cv_id preview_text uploaded_at document cv_index (throw thrown) = refl

module _ (host : Host) where
  analyze_from-IsConsistent :
      (files : List UploadedFile) (cv_index : ℕ) (w : World)
      → All IsConsistent (analyze_from host files cv_index w).0
  unfolding analyze_from analyze_one
  analyze_from-IsConsistent [] cv_index w = tt
  analyze_from-IsConsistent (file ∷ files) cv_index w = (
    analyzed_cv-IsConsistent file _ _ _ _ cv_index _,
    analyze_from-IsConsistent files (suc cv_index) _,
  )

  pub analyze_from-filenames :
      (files : List UploadedFile) (cv_index : ℕ) (w : World)
      → map (λ cv. cv.item.filename) (analyze_from host files cv_index w).0
        ≡ map (λ file. file.name) files
  unfolding analyze_from analyze_one
  analyze_from-filenames [] cv_index w = refl
  analyze_from-filenames (file ∷ files) cv_index w =
      ap₂ ◌∷◌ (analyzed_cv-filename file _ _ _ _ cv_index _)
        (analyze_from-filenames files (suc cv_index) _)

  pub length-analyze_from :
      (files : List UploadedFile) (cv_index : ℕ) (w : World)
      → length (analyze_from host files cv_index w).0 ≡ length files
  unfolding analyze_from
  length-analyze_from [] cv_index w = refl
  length-analyze_from (file ∷ files) cv_index w =
      ap suc (length-analyze_from files (suc cv_index) _)

split_count :
    (p : UploadItem → Bool) (items : List UploadItem)
    → length (select (λ item. not (p item)) items) + length (select p items) ≡ length items
split_count p [] = omega arith
split_count p (item ∷ items) = ground (arith, split_count p items)

-- An upload stores one CV for each file, in order and under its name. Each CV is analyzed, with one
-- candidate id wherever the id stands, or has failed, with an error and no candidate. The counts of
-- accepted and failed files add up to the number of files.
pub analyze_files_for_job_lem :
    (host : Host) (files : List UploadedFile) (job : StoredJob) (w : World)
    → (map (λ cv. cv.item.filename) (analyze_files_for_job host files job w).0.1
        ≡ map (λ file. file.name) files)
      × All IsConsistent (analyze_files_for_job host files job w).0.1
      × ((analyze_files_for_job host files job w).0.0.accepted
            + (analyze_files_for_job host files job w).0.0.failed
          ≡ length files)
unfolding analyze_files_for_job
analyze_files_for_job_lem host files job w =
    let cvs = (analyze_from host files (length job.cvs + 1) w).0 in
    (
      analyze_from-filenames host files (length job.cvs + 1) w,
      analyze_from-IsConsistent host files (length job.cvs + 1) w,
      split_count is_failed (map (λ cv. cv.item) cvs)
          ∙ length-map (λ (cv : StoredCv). cv.item) cvs
          ∙ length-analyze_from host files (length job.cvs + 1) w,
    )
