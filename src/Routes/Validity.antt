-- ===== src/Routes/Validity.antt =====
-- Every request to the ranking route keeps the store valid.
use cvranking.Prelude.{Option, none, some, List, ◌+◌, length, ltb, ◌==◌, if◌then◌else◌}
use cvranking.Js.Text.{Text, text_eq, units}
use cvranking.Host.{Host, World, UploadedFile}
use cvranking.Host.Action.{pure, run, call}
use cvranking.Host.Keeps.{Keeps, Keeps-pure, Keeps-run, Keeps-call, Keeps-if, Keeps-bind}
use cvranking.Ranking.{jd_too_short, create_job, rank_job}
use cvranking.Rerank.Keys.{ai_rerank_status}
use cvranking.Routes.{
  reset_action, create_action, upload_action, rank_action, action_of, upload_files, create_and_rank,
  rank_new, no_files, too_many_files, json, problem, created, ranked, ranked_once, Form, dispatch,
  upload_to, rank_found, rank_once, post_route,
}
use cvranking.Store.{get_job, save_job}
use cvranking.Store.Persistence.{WorldIsValid, save_job-WorldIsValid, read-IsValid}
use cvranking.Store.Types.{StoredJob, StoredCv}
use cvranking.Upload.{UploadResponse, analyze_files_for_job}
use cvranking.Ranking.Validity.{
  tick-WorldIsValid, analyze_from-WorldIsValid, reset-WorldIsValid, rank_job-Keeps,
  create_job-Keeps,
}

module _ (host : Host) where
  get_job-WorldIsValid :
      (id : Text) (w : World) → WorldIsValid w → WorldIsValid (get_job host id w).1
  unfolding get_job
  get_job-WorldIsValid id w h = (read-IsValid host w h).1

  analyze_files-WorldIsValid :
      (files : List UploadedFile) (job : StoredJob) (w : World)
      → WorldIsValid w
      → WorldIsValid (analyze_files_for_job host files job w).1
  unfolding analyze_files_for_job
  analyze_files-WorldIsValid files job w h =
      analyze_from-WorldIsValid host files (length job.cvs + 1) w h

  upload_files-Keeps :
      (files : List UploadedFile) (job : StoredJob)
      → Keeps WorldIsValid (upload_files host files job)
  unfolding upload_files
  upload_files-Keeps files job = record {
    at = λ w h.
        save_job-WorldIsValid host _ _
          (tick-WorldIsValid _ (analyze_files-WorldIsValid files job w h));
  }

  upload_to-Keeps :
      (files : List UploadedFile) (found : Option StoredJob)
      → Keeps WorldIsValid (upload_to host files found)
  unfolding upload_to
  upload_to-Keeps files none = Keeps-pure _
  upload_to-Keeps files (some job) =
      Keeps-if (length files == 0) (pure (problem 422 no_files))
        (if ltb 50 (length files)
          then pure (problem 422 too_many_files)
          else upload_files host files job)
        (Keeps-pure _)
        (Keeps-if (ltb 50 (length files)) (pure (problem 422 too_many_files))
          (upload_files host files job) (Keeps-pure _) (upload_files-Keeps files job))

  rank_found-Keeps : (found : Option StoredJob) → Keeps WorldIsValid (rank_found host found)
  unfolding rank_found
  rank_found-Keeps none = Keeps-pure _
  rank_found-Keeps (some job) =
      Keeps-bind (rank_job host job)
        (λ updated. pure (json (ranked updated updated.latest_run (ai_rerank_status host.env))))
        (rank_job-Keeps host job) (λ updated. Keeps-pure _)

  rank_new-Keeps :
      (job : StoredJob) (result : UploadResponse × List StoredCv) (now : Text)
      → Keeps WorldIsValid (rank_new host job result now)
  unfolding rank_new
  rank_new-Keeps job result now =
      let with_cvs : StoredJob = record job {
        cvs = result.1;
        cv_count = result.0.accepted;
        updated_at = now;
      } in
      Keeps-bind (run (λ w. (tt, save_job host with_cvs w))) _
        (Keeps-run _ (save_job-WorldIsValid host with_cvs))
        (λ saved.
          Keeps-bind (rank_job host with_cvs)
            (λ ranked_job.
              pure (json (ranked_once result.0 ranked_job.latest_run ranked_job ranked_job)))
            (rank_job-Keeps host with_cvs) (λ ranked_job. Keeps-pure _))

  create_and_rank-Keeps :
      (title jd : Text) (files : List UploadedFile)
      → Keeps WorldIsValid (create_and_rank host title jd files)
  unfolding create_and_rank
  create_and_rank-Keeps title jd files =
      Keeps-bind (create_job host title jd) _ (create_job-Keeps host title jd) (λ job.
        Keeps-bind (run (analyze_files_for_job host files job)) _
          (Keeps-run _ (analyze_files-WorldIsValid files job))
          (λ result.
            Keeps-bind (call host.iso_string) (rank_new host job result)
              (Keeps-call _ tick-WorldIsValid) (rank_new-Keeps job result)))

  rank_once-Keeps :
      (title jd : Text) (files : List UploadedFile)
      → Keeps WorldIsValid (rank_once host title jd files)
  unfolding rank_once
  rank_once-Keeps title jd files =
      Keeps-if (ltb (length jd) 20) (pure (problem 422 jd_too_short))
        (if length files == 0
          then pure (problem 422 no_files)
          else create_and_rank host title jd files)
        (Keeps-pure _)
        (Keeps-if (length files == 0) (pure (problem 422 no_files))
          (create_and_rank host title jd files) (Keeps-pure _)
          (create_and_rank-Keeps title jd files))

  reset_action-Keeps : Keeps WorldIsValid (reset_action host)
  unfolding reset_action
  reset_action-Keeps = record { at = reset-WorldIsValid host }

  create_action-Keeps : (title jd : Text) → Keeps WorldIsValid (create_action host title jd)
  unfolding create_action
  create_action-Keeps title jd =
      Keeps-bind (create_job host title jd) (λ job. pure (json (created job)))
        (create_job-Keeps host title jd) (λ job. Keeps-pure _)

  upload_action-Keeps :
      (job_id : Text) (files : List UploadedFile)
      → Keeps WorldIsValid (upload_action host job_id files)
  unfolding upload_action
  upload_action-Keeps job_id files =
      Keeps-bind (run (get_job host job_id)) (upload_to host files)
        (Keeps-run _ (get_job-WorldIsValid job_id)) (upload_to-Keeps files)

  rank_action-Keeps : (job_id : Text) → Keeps WorldIsValid (rank_action host job_id)
  unfolding rank_action
  rank_action-Keeps job_id =
      Keeps-bind (run (get_job host job_id)) (rank_found host)
        (Keeps-run _ (get_job-WorldIsValid job_id)) rank_found-Keeps

  action_of-Keeps :
      (action title jd job_id : Text) (files : List UploadedFile)
      → Keeps WorldIsValid (action_of host action title jd job_id files)
  unfolding action_of
  action_of-Keeps action title jd job_id files =
      let last = rank_once host title jd files in
      let or_rank =
        if text_eq action (units "run_ranking") then rank_action host job_id else last in
      let or_upload =
        if text_eq action (units "upload_cvs") then upload_action host job_id files else or_rank in
      let or_create =
        if text_eq action (units "create_job") then create_action host title jd else or_upload in
      Keeps-if (text_eq action (units "reset_store")) (reset_action host) or_create
        reset_action-Keeps
        (Keeps-if (text_eq action (units "create_job")) (create_action host title jd) or_upload
          (create_action-Keeps title jd)
          (Keeps-if (text_eq action (units "upload_cvs")) (upload_action host job_id files) or_rank
            (upload_action-Keeps job_id files)
            (Keeps-if (text_eq action (units "run_ranking")) (rank_action host job_id) last
              (rank_action-Keeps job_id) (rank_once-Keeps title jd files))))

  -- Every request keeps the store valid, in memory and on disk, whatever the form asks for, whatever
  -- the services answer and wherever it throws: distinct job ids, at most 30 jobs, and no document
  -- data in the file.
  pub post_route-WorldIsValid :
      (form : Form) (w : World) → WorldIsValid w → WorldIsValid (post_route host form w).1
  unfolding post_route dispatch
  post_route-WorldIsValid form w h = (action_of-Keeps _ _ _ _ form.files).at w h
