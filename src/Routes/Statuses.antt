-- ===== src/Routes/Statuses.antt =====
-- The status codes that the ranking route answers with.
use cvranking.Prelude.{
  ℕ, ◌≡◌, refl, inl, inr, Option, none, some, List, [], ◌∷◌, length, ltb, ◌==◌, if◌then◌else◌, Has,
  arith,
}
use cvranking.Js.Text.{Text, text_eq, units, or_else}
use cvranking.Host.{Host, World, UploadedFile, Fetched}
use cvranking.Host.Action.{
  Thrown, demo_problem, error, other, Result, ok, throw, Action, pure, raise, run, call, lift,
}
use cvranking.Host.Outcomes.{
  Outcome, Gives, Gives-pure, Gives-raise, Gives-lift, Gives-run, Gives-if, Gives-bind,
}
use cvranking.Ranking.{
  create_job, parse_and_store, store_new_job, rank_job, score_candidates, finish_ranking,
  ranking_candidates, service_failure, no_candidates, jd_too_short, default_title,
}
use cvranking.Rerank.Keys.{ai_rerank_status}
use cvranking.Routes.{
  Form, Response, json, problem, created, ranked, ranked_once, no_files, too_many_files,
  response_error, answer_of, upload_files, upload_to, rank_found, rank_new, create_and_rank,
  rank_once, reset_action, create_action, upload_action, rank_action, action_of, dispatch,
  post_route,
}
use cvranking.Store.{save_job}
use cvranking.Store.Types.{StoredCv, StoredJob, RankingCandidate}
use cvranking.Upload.{UploadResponse, fetched_json, analyze_files_for_job}

-- What an action answers with when it returns, and what it may throw: problems of status 422, and
-- errors.
abbrev IsAnswer : Response → Type 0
IsAnswer r = Has r.status (200 ∷ 404 ∷ 422 ∷ [])

abbrev IsRefusal : Thrown → Type 0
IsRefusal (demo_problem status message) = status ≡ 422
IsRefusal _ = Unit

abbrev IsAnything : {A : Type 0} → A → Type 0
IsAnything a = Unit {0}

abbrev Refuses : {A : Type 0} → Action A → Type 0
Refuses m = Gives IsAnything IsRefusal m

abbrev Answers : Action Response → Type 0
Answers m = Gives IsAnswer IsRefusal m

fetched_json-IsRefusal :
    {A : Type 0} (host : Host) (failure : ℕ → Text → Text) (answer : Fetched A)
    → Outcome IsAnything IsRefusal (fetched_json host failure answer)
unfolding fetched_json
fetched_json-IsRefusal host failure answer = ground arith

module _ (host : Host) where
  score_candidates-Refuses :
      (job : StoredJob) (candidates : List RankingCandidate)
      → Refuses (score_candidates host job candidates)
  unfolding score_candidates finish_ranking
  score_candidates-Refuses job candidates =
      Gives-bind (call (λ n. host.score n job.requirements candidates)) _
        (Gives-run {P = IsAnything} _ (λ w. tt))
        (λ answer h.
          Gives-bind (lift (fetched_json host service_failure answer))
            (finish_ranking host job candidates)
            (Gives-lift _ (fetched_json-IsRefusal host service_failure answer))
            (λ baseline k. record { at = λ w. tt }))

  rank_job-Refuses : (job : StoredJob) → Refuses (rank_job host job)
  unfolding rank_job
  rank_job-Refuses job =
      Gives-if (length (ranking_candidates host job) == 0) (raise (demo_problem 422 no_candidates))
        (score_candidates host job (ranking_candidates host job)) (Gives-raise _ refl)
        (score_candidates-Refuses job (ranking_candidates host job))

  parse_and_store-Refuses :
      (title description : Text) → Refuses (parse_and_store host title description)
  unfolding parse_and_store store_new_job
  parse_and_store-Refuses title description =
      Gives-bind (call (λ n. host.parse_job n (or_else title default_title) description)) _
        (Gives-run {P = IsAnything} _ (λ w. tt))
        (λ answer h.
          Gives-bind (lift (fetched_json host service_failure answer))
            (store_new_job host title description)
            (Gives-lift _ (fetched_json-IsRefusal host service_failure answer))
            (λ parsed k. record { at = λ w. tt }))

  create_job-Refuses : (title description : Text) → Refuses (create_job host title description)
  unfolding create_job
  create_job-Refuses title description =
      Gives-if (ltb (length description) 20) (raise (demo_problem 422 jd_too_short))
        (parse_and_store host title description) (Gives-raise _ refl)
        (parse_and_store-Refuses title description)

  upload_to-Answers :
      (files : List UploadedFile) (found : Option StoredJob) → Answers (upload_to host files found)
  unfolding upload_to upload_files
  upload_to-Answers files none = Gives-pure _ (inr (inl refl))
  upload_to-Answers files (some job) =
      Gives-if (length files == 0) (pure (problem 422 no_files))
        (if ltb 50 (length files)
          then pure (problem 422 too_many_files)
          else upload_files host files job)
        (Gives-pure _ (inr (inr (inl refl))))
        (Gives-if (ltb 50 (length files)) (pure (problem 422 too_many_files))
          (upload_files host files job) (Gives-pure _ (inr (inr (inl refl))))
          (record { at = λ w. inl refl }))

  rank_found-Answers : (found : Option StoredJob) → Answers (rank_found host found)
  unfolding rank_found
  rank_found-Answers none = Gives-pure _ (inr (inl refl))
  rank_found-Answers (some job) =
      Gives-bind (rank_job host job)
        (λ updated. pure (json (ranked updated updated.latest_run (ai_rerank_status host.env))))
        (rank_job-Refuses job) (λ updated h. Gives-pure _ (inl refl))

  rank_new-Answers :
      (job : StoredJob) (result : UploadResponse × List StoredCv) (now : Text)
      → Answers (rank_new host job result now)
  unfolding rank_new
  rank_new-Answers job result now =
      let with_cvs : StoredJob = record job {
        cvs = result.1;
        cv_count = result.0.accepted;
        updated_at = now;
      } in
      Gives-bind (run (λ w. (tt, save_job host with_cvs w))) _
        (Gives-run {P = IsAnything} _ (λ w. tt))
        (λ saved h.
          Gives-bind (rank_job host with_cvs)
            (λ ranked_job.
              pure (json (ranked_once result.0 ranked_job.latest_run ranked_job ranked_job)))
            (rank_job-Refuses with_cvs) (λ ranked_job k. Gives-pure _ (inl refl)))

  create_and_rank-Answers :
      (title jd : Text) (files : List UploadedFile) → Answers (create_and_rank host title jd files)
  unfolding create_and_rank
  create_and_rank-Answers title jd files =
      Gives-bind (create_job host title jd) _ (create_job-Refuses title jd) (λ job h.
        Gives-bind (run (analyze_files_for_job host files job)) _
          (Gives-run {P = IsAnything} _ (λ w. tt))
          (λ result k.
            Gives-bind (call host.iso_string) (rank_new host job result)
              (Gives-run {P = IsAnything} _ (λ w. tt)) (λ now l. rank_new-Answers job result now)))

  rank_once-Answers :
      (title jd : Text) (files : List UploadedFile) → Answers (rank_once host title jd files)
  unfolding rank_once
  rank_once-Answers title jd files =
      Gives-if (ltb (length jd) 20) (pure (problem 422 jd_too_short))
        (if length files == 0
          then pure (problem 422 no_files)
          else create_and_rank host title jd files)
        (Gives-pure _ (inr (inr (inl refl))))
        (Gives-if (length files == 0) (pure (problem 422 no_files))
          (create_and_rank host title jd files) (Gives-pure _ (inr (inr (inl refl))))
          (create_and_rank-Answers title jd files))

  create_action-Answers : (title jd : Text) → Answers (create_action host title jd)
  unfolding create_action
  create_action-Answers title jd =
      Gives-bind (create_job host title jd) (λ job. pure (json (created job)))
        (create_job-Refuses title jd) (λ job h. Gives-pure _ (inl refl))

  action_of-Answers :
      (action title jd job_id : Text) (files : List UploadedFile)
      → Answers (action_of host action title jd job_id files)
  unfolding action_of reset_action upload_action rank_action
  action_of-Answers action title jd job_id files =
      let last = rank_once host title jd files in
      let or_rank =
        if text_eq action (units "run_ranking") then rank_action host job_id else last in
      let or_upload =
        if text_eq action (units "upload_cvs") then upload_action host job_id files else or_rank in
      let or_create =
        if text_eq action (units "create_job") then create_action host title jd else or_upload in
      Gives-if (text_eq action (units "reset_store")) (reset_action host) or_create
        (record { at = λ w. inl refl })
        (Gives-if (text_eq action (units "create_job")) (create_action host title jd) or_upload
          (create_action-Answers title jd)
          (Gives-if (text_eq action (units "upload_cvs")) (upload_action host job_id files) or_rank
            (record { at = λ w. (upload_to-Answers files _).at _ })
            (Gives-if (text_eq action (units "run_ranking")) (rank_action host job_id) last
              (record { at = λ w. (rank_found-Answers _).at _ })
              (rank_once-Answers title jd files))))

  answer_of-status :
      (r : Result Response)
      → Outcome IsAnswer IsRefusal r
      → Has (answer_of r).status (200 ∷ 404 ∷ 422 ∷ 502 ∷ [])
  unfolding answer_of response_error
  answer_of-status (ok response) h = ground arith
  answer_of-status (throw (demo_problem status message)) h = inr (inr (inl h))
  answer_of-status (throw (error message)) h = inr (inr (inr (inl refl)))
  answer_of-status (throw other) h = inr (inr (inr (inl refl)))

  -- Every request is answered with status 200, 404, 422 or 502.
  pub post_route-status :
      (form : Form) (w : World) → Has (post_route host form w).0.status (200 ∷ 404 ∷ 422 ∷ 502 ∷ [])
  unfolding post_route dispatch
  post_route-status form w = answer_of-status _ ((action_of-Answers _ _ _ _ form.files).at w)
