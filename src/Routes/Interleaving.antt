-- ===== src/Routes/Interleaving.antt =====
-- Two uploads to one job that are handled at the same time. A request looks the job up and then awaits
-- the analysis of its files, before it saves; meanwhile the other one may look the job up, too. The
-- steps are those between two awaits that the store can tell apart: the lookup, and the rest, whose
-- analyses do not touch the jobs.
use cvranking.Prelude.{◌<◌, ◌≤◌, ◌≡◌, refl, sym, ap, ◌∙◌, Option, some, List, ◌++◌, map, length}
use mathlib.Core.List.{map-append}
use cvranking.Js.Text.{Text}
use cvranking.Host.{Host, World, UploadedFile}
use cvranking.Host.Action.{Result, ok}
use cvranking.Routes.{Response, json, uploaded, upload_to}
use cvranking.Routes.Laws.{IsUploaded, upload_to-IsUploaded}
use cvranking.Store.{get_job}
use cvranking.Store.Laws.{find_job-id}
use cvranking.Store.Persistence.{get_job-get_job, get_job-jobs_of, jobs_of}
use cvranking.Store.Types.{StoredCv, StoredJob}
use cvranking.Upload.{UploadResponse}

abbrev pub file_names : List StoredCv → List Text
file_names cvs = map (λ cv. cv.item.filename) cvs

abbrev pub names_of : List UploadedFile → List Text
names_of files = map (λ file. file.name) files

-- How far a request is.
pub data Phase : Type 0 where
  waiting : Phase
  looked_up : Option StoredJob → Phase
  answered : Result Response → Phase

pub record Race : Type 0 where
  pub world : World
  pub first : Phase
  pub second : Phase

abbrev pub race_start : World → Race
race_start w = record { world = w; first = waiting; second = waiting }

module _ (host : Host) (job_id : Text) (files others : List UploadedFile) where
  -- One of the two requests goes on; `others` are the files of the first.
  pub data RaceStep (s : Race) : Race → Type 0 where
    first_looks :
        s.first ≡ waiting
        → RaceStep s (record s {
          world = (get_job host job_id s.world).1;
          first = looked_up (get_job host job_id s.world).0;
        })
    second_looks :
        s.second ≡ waiting
        → RaceStep s (record s {
          world = (get_job host job_id s.world).1;
          second = looked_up (get_job host job_id s.world).0;
        })
    first_ends :
        (found : Option StoredJob)
        → s.first ≡ looked_up found
        → RaceStep s (record s {
          world = (upload_to host others found s.world).1;
          first = answered (upload_to host others found s.world).0;
        })
    second_ends :
        (found : Option StoredJob)
        → s.second ≡ looked_up found
        → RaceStep s (record s {
          world = (upload_to host files found s.world).1;
          second = answered (upload_to host files found s.world).0;
        })

  pub data RaceReaches (start : Race) : Race → Type 0 where
    here : RaceReaches start start
    then_step : {s t : Race} → RaceReaches start s → RaceStep s t → RaceReaches start t

  -- Both requests are answered with the job that they have made, each with CVs for its own files in front
  -- of those of the job from before; and the store has the job of the second.
  pub record IsLost (job : StoredJob) (end : Race) : Type 0 where
    pub first_job : StoredJob
    pub second_job : StoredJob
    pub first_upload : UploadResponse
    pub second_upload : UploadResponse
    pub first_answer : end.first ≡ answered (ok (json (uploaded first_job first_upload)))
    pub second_answer : end.second ≡ answered (ok (json (uploaded second_job second_upload)))
    pub first_cvs : file_names first_job.cvs ≡ names_of others ++ file_names job.cvs
    pub second_cvs : file_names second_job.cvs ≡ names_of files ++ file_names job.cvs
    pub stored : (get_job host job_id end.world).0 ≡ some second_job

  IsUploaded-file_names :
      (sent : List UploadedFile) (job : StoredJob) (answer : Result Response × World)
      → (u : IsUploaded host sent job answer)
      → file_names u.updated.cvs ≡ names_of sent ++ file_names job.cvs
  IsUploaded-file_names sent job answer u =
      ap file_names u.cvs
      ∙ map-append (λ (cv : StoredCv). cv.item.filename) u.fresh job.cvs
      ∙ ap (λ names. names ++ file_names job.cvs) u.names

  -- Two uploads of 1 to 50 files each to a job of the store can go on in an order in which both are
  -- answered with success, and yet the store then has the job of the second only: its CVs are those for
  -- the files of the second upload and those from before, and none for the files of the first.
  pub upload_to-lost :
      (job : StoredJob) (w : World)
      → (get_job host job_id w).0 ≡ some job
      → 0 < length files
      → length files ≤ 50
      → 0 < length others
      → length others ≤ 50
      → (end : Race) × RaceReaches (race_start w) end × IsLost job end
  upload_to-lost job w found some_file few some_other few_others =
      let w₁ = (get_job host job_id w).1 in
      let w₂ = (get_job host job_id w₁).1 in
      let both : (get_job host job_id w₁).0 ≡ some job =
        get_job-get_job host job_id job_id w ∙ found in
      let w₃ = (upload_to host others (some job) w₂).1 in
      let u = upload_to-IsUploaded host others job w₂ some_other few_others in
      let v = upload_to-IsUploaded host files job w₃ some_file few in
      let same : job.id ≡ job_id =
        find_job-id job_id (jobs_of host w) job (sym (get_job-jobs_of host job_id w) ∙ found) in
      (
        record {
          world = (upload_to host files (some job) w₃).1;
          first = answered (upload_to host others (some job) w₂).0;
          second = answered (upload_to host files (some job) w₃).0;
        },
        then_step
            (then_step (then_step (then_step here (first_looks refl)) (second_looks refl))
              (first_ends (some job) (ap looked_up found)))
            (second_ends (some job) (ap looked_up both)),
        record {
          first_job = u.updated;
          second_job = v.updated;
          first_upload = u.upload;
          second_upload = v.upload;
          first_answer = ap answered u.answered;
          second_answer = ap answered v.answered;
          first_cvs = IsUploaded-file_names others job _ u;
          second_cvs = IsUploaded-file_names files job _ v;
          stored =
              ap (λ id. (get_job host id (upload_to host files (some job) w₃).1).0) (sym same)
              ∙ v.saved;
        },
      )
