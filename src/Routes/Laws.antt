-- ===== src/Routes/Laws.antt =====
-- What an upload stores, what a refused upload leaves, and what the list of jobs shows.
use cvranking.Prelude.{
  ◌+◌, ◌≤◌, ◌<◌, ◌≡◌, refl, sym, ap, ◌∙◌, ◌⊎◌, inl, inr, true, false, not, ◌&&◌, Option, none, some,
  List, [], ◌∷◌, ◌++◌, map, select, length, find, flat_map, coalesce, length-append, ltb, ◌==◌,
  if-both, All, arith,
}
use cvranking.Js.Text.{Text, text_eq, units, truthy}
use cvranking.Host.{Host, World, UploadedFile}
use cvranking.Host.Action.{Result, ok}
use cvranking.Rerank.Keys.{ai_rerank_status}
use cvranking.Routes.{
  document_from, disk_answer, document_response, Body, library, uploaded, Response, count_ready,
  with_upload, upload_files, upload_to, upload_action, get_route, document_of, json,
}
use cvranking.Store.{get_job, read_demo_store, strip_document_data}
use cvranking.Store.Persistence.{
  get_job-save_job_self, JobIsStripped, strip_document_data-IsStripped,
}
use cvranking.Store.Types.{StoredCv, StoredJob}
use cvranking.Upload.{UploadResponse, is_failed, analyze_from, analyze_files_for_job}
use cvranking.Upload.Laws.{length-analyze_from, analyze_from-filenames}

count_ready-append :
    (cvs old : List StoredCv)
    → count_ready (cvs ++ old)
      ≡ count_ready old + length (select (λ item. not (is_failed item)) (map (λ cv. cv.item) cvs))
unfolding count_ready
count_ready-append [] old = omega arith
count_ready-append (cv ∷ cvs) old = ground (arith, count_ready-append cvs old)

-- The answer to an upload to a job: the job with new CVs in front of its old ones, one for each file in
-- the order of the files and under its name, and with the count of those that did not fail; and the
-- store has it under its id.
pub record IsUploaded (host : Host) (files : List UploadedFile) (job : StoredJob)
    (answer : Result Response × World) : Type 0 where
  pub updated : StoredJob
  pub upload : UploadResponse
  pub answered : answer.0 ≡ ok (json (uploaded updated upload))
  pub counted : updated.cv_count ≡ count_ready updated.cvs
  pub accepted : updated.cv_count ≡ count_ready job.cvs + upload.accepted
  pub fresh : List StoredCv
  pub cvs : updated.cvs ≡ fresh ++ job.cvs
  pub names : map (λ cv. cv.item.filename) fresh ≡ map (λ file. file.name) files
  pub total : length updated.cvs ≡ length files + length job.cvs
  pub requirements : updated.requirements ≡ job.requirements
  pub latest_run : updated.latest_run ≡ job.latest_run
  pub saved : (get_job host job.id answer.1).0 ≡ some updated

module _ (host : Host) where
  pub upload_files-IsUploaded :
      (files : List UploadedFile) (job : StoredJob) (w : World)
      → IsUploaded host files job (upload_files host files job w)
  unfolding upload_files with_upload analyze_files_for_job
  upload_files-IsUploaded files job w =
      let cvs = (analyze_from host files (length job.cvs + 1) w).0 in
      record {
        updated = _;
        upload = _;
        answered = refl;
        counted = sym (count_ready-append cvs job.cvs);
        accepted = refl;
        fresh = cvs;
        cvs = refl;
        names = analyze_from-filenames host files (length job.cvs + 1) w;
        total =
            length-append cvs job.cvs
            ∙ ap (λ n. n + length job.cvs) (length-analyze_from host files (length job.cvs + 1) w);
        requirements = refl;
        latest_run = refl;
        saved = get_job-save_job_self host _ _;
      }

  pub upload_to-IsUploaded :
      (files : List UploadedFile) (job : StoredJob) (w : World)
      → 0 < length files
      → length files ≤ 50
      → IsUploaded host files job (upload_to host files (some job) w)
  unfolding upload_to
  upload_to-IsUploaded files job w some_file few =
      let e : (length files == 0) ≡ false = ground arith in
      let e' : ltb 50 (length files) ≡ false = ground arith in
      rw (e, e') (upload_files-IsUploaded files job w)

  -- Uploading 1 to 50 files to a job that the store has succeeds, whatever the services answer: the
  -- job gets new CVs in front of its old ones, one for each file in the order of the files and under its
  -- name, its count is that of the CVs that did not fail, its requirements and its last run stay, and the
  -- store has it under its id.
  pub upload_action-IsUploaded :
      (job_id : Text) (files : List UploadedFile) (w : World) (job : StoredJob)
      → (get_job host job_id w).0 ≡ some job
      → 0 < length files
      → length files ≤ 50
      → IsUploaded host files job (upload_action host job_id files w)
  unfolding upload_action
  upload_action-IsUploaded job_id files w job found some_file few =
      rw found (upload_to-IsUploaded files job _ some_file few)

  upload_to-refused :
      (files : List UploadedFile) (found : Option StoredJob) (w : World)
      → (found ≡ none) ⊎ ((length files ≡ 0) ⊎ (50 < length files))
      → (response : Response) × ((upload_to host files found w).0 ≡ ok response)
        × ((response.status ≡ 404) ⊎ (response.status ≡ 422))
        × ((upload_to host files found w).1 ≡ w)
  unfolding upload_to
  upload_to-refused files none w h = (_, refl, inl refl, refl)
  upload_to-refused files (some job) w (inr (inl e)) =
      let e' : (length files == 0) ≡ true = ground arith in rw e' (_, refl, inr refl, refl)
  upload_to-refused files (some job) w (inr (inr h)) =
      let e : (length files == 0) ≡ false = ground arith in
      let e' : ltb 50 (length files) ≡ true = ground arith in rw (e, e') (_, refl, inr refl, refl)
  upload_to-refused files (some job) w (inl e) = cc e

  -- An upload to a job that the store does not have, without files or with more than 50 answers 404 or
  -- 422, and does to the state no more than reading the store does.
  pub upload_action-refused :
      (job_id : Text) (files : List UploadedFile) (w : World)
      → ((get_job host job_id w).0 ≡ none) ⊎ ((length files ≡ 0) ⊎ (50 < length files))
      → (response : Response) × ((upload_action host job_id files w).0 ≡ ok response)
        × ((response.status ≡ 404) ⊎ (response.status ≡ 422))
        × ((upload_action host job_id files w).1 ≡ (get_job host job_id w).1)
  unfolding upload_action
  upload_action-refused job_id files w h = upload_to-refused files _ _ h

-- The list of jobs shows no document data.
abbrev pub HidesDocuments : Body → Type 0
HidesDocuments (library store status) = All JobIsStripped store.jobs
HidesDocuments _ = Unit

module _ (host : Host) where
  document_of-HidesDocuments :
      (cv_id : Text) (found : Option StoredCv) (w : World)
      → HidesDocuments (document_of host cv_id found w).0.body
  unfolding document_of document_from disk_answer document_response
  document_of-HidesDocuments cv_id none w = tt
  document_of-HidesDocuments cv_id (some cv) w = ground arith

  -- Whatever is asked for, a list of jobs in the answer shows no document data.
  pub get_route-HidesDocuments :
      (wanted cv_id : Option Text) (w : World)
      → HidesDocuments (get_route host wanted cv_id w).0.body
  unfolding get_route
  get_route-HidesDocuments wanted cv_id w =
      let (store, w') = read_demo_store host w in
      let id = coalesce cv_id [] in
      let found = find (λ cv. text_eq cv.id id) (flat_map (λ job. job.cvs) store.jobs) in
      if-both (λ (answer : Response × World). HidesDocuments answer.0.body)
        (text_eq (coalesce wanted []) (units "1") && truthy id) (document_of host id found w')
        (json (library (strip_document_data store) (ai_rerank_status host.env)), w')
        (document_of-HidesDocuments id found w') (strip_document_data-IsStripped store)
