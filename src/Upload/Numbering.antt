-- ===== src/Upload/Numbering.antt =====
-- The numbers that `analyzeFilesForJob` gives to the CVs of a job.
use cvranking.Prelude.{
  ℕ, suc, ◌+◌, ◌≤◌, ◌<◌, ◌≡◌, refl, ◌∙◌, Option, List, [], ◌∷◌, ◌++◌, map, length, length-append,
  arith, All, All-append, Has, Distinct, inl, inr, ◌⊎◌,
}
use cvranking.Js.Decimal.{decimal-injective}
use cvranking.Js.Text.{Text, units}
use cvranking.Host.{Host, World, UploadedFile}
use cvranking.Host.Action.{Result, ok, throw}
use cvranking.Store.Types.{ResumeAnalysis, StoredCv, StoredJob}
use cvranking.Upload.{
  ready_cv, failed_cv, analyzed_cv, analyze_one, analyze_from, analyze_files_for_job, resume_id_of,
}
use cvranking.Upload.Laws.{length-analyze_from}

-- `prefix ++` can be cancelled.
append-injective : (p s t : Text) → p ++ s ≡ p ++ t → s ≡ t
append-injective [] s t e = e
append-injective (c ∷ p) s t e = append-injective p s t (cc)

resume_id_of-injective : (m n : ℕ) → resume_id_of m ≡ resume_id_of n → m ≡ n
unfolding resume_id_of
resume_id_of-injective m n e = decimal-injective m n (append-injective (units "resume-") _ _ e)

-- The CV has a resume id with a number from `first` to before `end`.
abbrev pub NumberedIn : (first end : ℕ) → StoredCv → Type 0
NumberedIn first end cv = (k : ℕ) × (first ≤ k) × (k < end) × (cv.resume_id ≡ resume_id_of k)

-- The CVs of a job have distinct resume ids with the numbers from 1 to how many there are.
pub record AreNumbered (cvs : List StoredCv) : Type 0 where
  pub numbered : All (NumberedIn 1 (length cvs + 1)) cvs
  pub distinct : Distinct (map (λ cv. cv.resume_id) cvs)

analyzed_cv-resume_id :
    (file : UploadedFile) (cv_id preview_text uploaded_at : Text) (document : Option (Text × Text))
    (cv_index : ℕ) (outcome : Result ResumeAnalysis)
    → (analyzed_cv file cv_id preview_text uploaded_at document cv_index outcome).resume_id
      ≡ resume_id_of cv_index
unfolding analyzed_cv ready_cv failed_cv
analyzed_cv-resume_id file cv_id preview_text uploaded_at document cv_index (ok analysis) = refl
analyzed_cv-resume_id file cv_id preview_text uploaded_at document cv_index (throw thrown) = refl

All-NumberedIn-widen :
    (first end first' end' : ℕ) (cvs : List StoredCv)
    → first' ≤ first
    → end ≤ end'
    → All (NumberedIn first end) cvs
    → All (NumberedIn first' end') cvs
All-NumberedIn-widen first end first' end' [] p q h = tt
All-NumberedIn-widen first end first' end' (cv ∷ cvs) p q ((k, lo, hi, e), h) =
    ((k, omega arith, omega arith, e), All-NumberedIn-widen first end first' end' cvs p q h)

-- A number outside the range is none of the ids.
not-Has-outside :
    (first end n : ℕ) (cvs : List StoredCv)
    → All (NumberedIn first end) cvs
    → (n < first) ⊎ (end ≤ n)
    → ¬ Has (resume_id_of n) (map (λ cv. cv.resume_id) cvs)
not-Has-outside first end n [] h o has = has
not-Has-outside first end n (cv ∷ cvs) ((k, lo, hi, e), h) o (inl same) =
    let eq : n ≡ k = resume_id_of-injective n k (same ∙ e) in omega arith
not-Has-outside first end n (cv ∷ cvs) ((k, lo, hi, e), h) o (inr has) =
    not-Has-outside first end n cvs h o has

Has-append-cases :
    (id : Text) (cvs old : List StoredCv)
    → Has id (map (λ cv. cv.resume_id) (cvs ++ old))
    → Has id (map (λ cv. cv.resume_id) cvs) ⊎ Has id (map (λ cv. cv.resume_id) old)
Has-append-cases id [] old h = inr h
Has-append-cases id (cv ∷ cvs) old (inl e) = inl (inl e)
Has-append-cases id (cv ∷ cvs) old (inr h) = elim (Has-append-cases id cvs old h) [
  | inl early ↦ inl (inr early)
  | inr late ↦ inr late
]

Distinct-append :
    (first mid end : ℕ) (cvs old : List StoredCv)
    → All (NumberedIn mid end) cvs
    → All (NumberedIn first mid) old
    → Distinct (map (λ cv. cv.resume_id) cvs)
    → Distinct (map (λ cv. cv.resume_id) old)
    → Distinct (map (λ cv. cv.resume_id) (cvs ++ old))
Distinct-append first mid end [] old h k d e = e
Distinct-append first mid end (cv ∷ cvs) old ((n, lo, hi, id), h) k (new, d) e = (
  λ has. elim (Has-append-cases cv.resume_id cvs old has) [
    | inl early ↦ new early
    | inr late ↦ not-Has-outside first mid n old k (inr lo) (rw id at late)
  ],
  Distinct-append first mid end cvs old h k d e,
)

module _ (host : Host) where
  analyze_one-resume_id :
      (file : UploadedFile) (cv_index : ℕ) (w : World)
      → (analyze_one host file cv_index w).0.resume_id ≡ resume_id_of cv_index
  unfolding analyze_one
  analyze_one-resume_id file cv_index w = analyzed_cv-resume_id file _ _ _ _ cv_index _

  analyze_from-AreNumbered :
      (files : List UploadedFile) (cv_index : ℕ) (w : World)
      → All (NumberedIn cv_index (cv_index + length files)) (analyze_from host files cv_index w).0
        × Distinct (map (λ cv. cv.resume_id) (analyze_from host files cv_index w).0)
  unfolding analyze_from
  analyze_from-AreNumbered [] cv_index w = (tt, tt)
  analyze_from-AreNumbered (file ∷ files) cv_index w =
      let (cv, w₁) = analyze_one host file cv_index w in
      let cvs = (analyze_from host files (suc cv_index) w₁).0 in
      let (later, distinct) = analyze_from-AreNumbered files (suc cv_index) w₁ in
      let id = analyze_one-resume_id file cv_index w in
      (
        (
          (cv_index, omega arith, omega arith, id),
          All-NumberedIn-widen (suc cv_index) (suc cv_index + length files) cv_index
              (cv_index + suc (length files)) cvs (omega arith) (omega arith) later,
        ),
        (
          λ has.
              not-Has-outside (suc cv_index) (suc cv_index + length files) cv_index cvs later
                (inl (omega arith)) (rw id at has),
          distinct,
        ),
      )

  -- Where the CVs of a job have distinct resume ids numbered from 1, they still have after an upload,
  -- whose CVs stand in front of the old ones.
  pub analyze_files_for_job-AreNumbered :
      (files : List UploadedFile) (job : StoredJob) (w : World)
      → AreNumbered job.cvs
      → AreNumbered ((analyze_files_for_job host files job w).0.1 ++ job.cvs)
  unfolding analyze_files_for_job
  analyze_files_for_job-AreNumbered files job w h =
      let n = length job.cvs in
      let cvs = (analyze_from host files (n + 1) w).0 in
      let (fresh, distinct) = analyze_from-AreNumbered files (n + 1) w in
      let total : n + 1 + length files ≡ length (cvs ++ job.cvs) + 1 =
        omega (arith, length-append cvs job.cvs, length-analyze_from host files (n + 1) w) in
      record {
        numbered =
            All-append (NumberedIn 1 (length (cvs ++ job.cvs) + 1)) cvs job.cvs
              (All-NumberedIn-widen (n + 1) (n + 1 + length files) 1 _ cvs (omega arith)
                (omega arith) fresh)
              (All-NumberedIn-widen 1 (n + 1) 1 _ job.cvs (omega arith) (omega arith) h.numbered);
        distinct =
            Distinct-append 1 (n + 1) (n + 1 + length files) cvs job.cvs fresh h.numbered distinct
              h.distinct;
      }
