-- ===== src/Ranking/Validity.antt =====
-- The operations that analyze, rank and reset keep the store valid, in memory and on disk.
use cvranking.Prelude.{
  ℕ, suc, ◌≡◌, sym, arith, Bool, true, false, Option, none, some, List, [], ◌∷◌, length, ltb, ◌==◌,
  if-both,
}
use mathlib.Core.Path.{subst}
use cvranking.Js.Text.{Text, text_eq, or_else}
use cvranking.Host.{Host, World, UploadedFile, tick}
use cvranking.Host.Action.{raise, demo_problem, call, lift}
use cvranking.Host.Keeps.{Keeps, Keeps-raise, Keeps-lift, Keeps-call, Keeps-if, Keeps-bind}
use cvranking.Ranking.{
  service_failure, no_candidates, jd_too_short, default_title, create_job, parse_and_store,
  store_new_job, rank_job, score_candidates, finish_ranking, ranking_candidates, stored_results,
  build_run,
}
use cvranking.Rerank.Providers.{rerank}
use cvranking.Rerank.Providers.Laws.{rerank_lem}
use cvranking.Store.{
  reset_demo_store, ensure_data_dir, persist_demo_store, remove_pdfs, empty_store,
}
use cvranking.Store.Persistence.{
  write-WorldIsValid, WorldIsValid, StoreIsValid, StoreIsStripped, save_job-WorldIsValid,
}
use cvranking.Store.Laws.{IsValid}
use cvranking.Store.Types.{
  StoredJob, ScoredResult, RankingResponse, RankingCandidate, CandidateSummary, JobParseResult,
}
use cvranking.Upload.{fetched_json, analyze_one, analyze_from}
use cvranking.Upload.Preview.{build_document_preview, write_pdf, file_mime, pdf_mime, pdf_data_url}

-- The stores are those of another state.
SameStores-WorldIsValid :
    (w v : World)
    → v.memory ≡ w.memory
    → v.store_file ≡ w.store_file
    → WorldIsValid w
    → WorldIsValid v
SameStores-WorldIsValid w v m f h = record {
  memory = subst StoreIsValid (sym m) h.memory;
  store_file = subst StoreIsValid (sym f) h.store_file;
  stripped = subst StoreIsStripped (sym f) h.stripped;
}

pub tick-WorldIsValid : (w : World) → WorldIsValid w → WorldIsValid (tick w)
tick-WorldIsValid w h = record {
  memory = h.memory;
  store_file = h.store_file;
  stripped = h.stripped;
}

write_pdf-WorldIsValid :
    (fails : Bool) (id bytes : Text) (w : World)
    → WorldIsValid w
    → WorldIsValid (write_pdf fails id bytes w)
unfolding write_pdf
write_pdf-WorldIsValid true id bytes w h = tick-WorldIsValid w h
write_pdf-WorldIsValid false id bytes w h = record {
  memory = h.memory;
  store_file = h.store_file;
  stripped = h.stripped;
}

remove_pdfs-WorldIsValid :
    (fails : Bool) (w : World) → WorldIsValid w → WorldIsValid (remove_pdfs fails w)
unfolding remove_pdfs
remove_pdfs-WorldIsValid true w h = tick-WorldIsValid w h
remove_pdfs-WorldIsValid false w h = record {
  memory = h.memory;
  store_file = h.store_file;
  stripped = h.stripped;
}

empty-IsValid : IsValid []
empty-IsValid = record { distinct = tt; bounded = omega arith }

module _ (host : Host) where
  document-WorldIsValid :
      (file : UploadedFile) (cv_id : Text) (w : World)
      → WorldIsValid w
      → WorldIsValid (build_document_preview host file cv_id w).1
  unfolding build_document_preview ensure_data_dir
  document-WorldIsValid file cv_id w h =
      if-both (λ (answer : Option (Text × Text) × World). WorldIsValid answer.1)
        (text_eq (file_mime file) pdf_mime)
        (
          some (pdf_mime, pdf_data_url file.bytes),
          write_pdf (host.disk_fails (suc w.calls)) cv_id file.bytes (tick w),
        )
        (none, w)
        (write_pdf-WorldIsValid (host.disk_fails (suc w.calls)) cv_id file.bytes (tick w)
          (tick-WorldIsValid w h))
        h

  analyze_one-WorldIsValid :
      (file : UploadedFile) (cv_index : ℕ) (w : World)
      → WorldIsValid w
      → WorldIsValid (analyze_one host file cv_index w).1
  unfolding analyze_one
  analyze_one-WorldIsValid file cv_index w h = tick-WorldIsValid _ (
      tick-WorldIsValid _
        (document-WorldIsValid file _ _ (tick-WorldIsValid _ (tick-WorldIsValid w h))))

  pub analyze_from-WorldIsValid :
      (files : List UploadedFile) (cv_index : ℕ) (w : World)
      → WorldIsValid w
      → WorldIsValid (analyze_from host files cv_index w).1
  unfolding analyze_from
  analyze_from-WorldIsValid [] cv_index w h = h
  analyze_from-WorldIsValid (file ∷ files) cv_index w h =
      analyze_from-WorldIsValid files (suc cv_index) _ (analyze_one-WorldIsValid file cv_index w h)

  stored_results-WorldIsValid :
      (run_id : Text) (summaries : List (Text × CandidateSummary)) (rs : List ScoredResult)
      (w : World)
      → WorldIsValid w
      → WorldIsValid (stored_results host run_id summaries rs w).1
  unfolding stored_results
  stored_results-WorldIsValid run_id summaries [] w h = h
  stored_results-WorldIsValid run_id summaries (r ∷ rs) w h =
      stored_results-WorldIsValid run_id summaries rs (tick w) (tick-WorldIsValid w h)

  rerank-WorldIsValid :
      (job : StoredJob) (candidates : List RankingCandidate) (baseline : RankingResponse)
      (w : World)
      → WorldIsValid w
      → WorldIsValid (rerank host job candidates baseline w).1
  rerank-WorldIsValid job candidates baseline w h =
      let (origin, calls) = rerank_lem host job candidates baseline w in
      SameStores-WorldIsValid w _ calls.memory calls.store_file h

  pub reset-WorldIsValid : (w : World) → WorldIsValid w → WorldIsValid (reset_demo_store host w).1
  unfolding reset_demo_store persist_demo_store
  reset-WorldIsValid w h = remove_pdfs-WorldIsValid (host.disk_fails _) _ (
      write-WorldIsValid host (host.disk_fails _) (host.write_truncates _) empty_store _
        empty-IsValid
        (record { memory = empty-IsValid; store_file = h.store_file; stripped = h.stripped }))

  finish_ranking-Keeps :
      (job : StoredJob) (candidates : List RankingCandidate) (baseline : RankingResponse)
      → Keeps WorldIsValid (finish_ranking host job candidates baseline)
  unfolding finish_ranking build_run
  finish_ranking-Keeps job candidates baseline = record {
    at = λ w h. save_job-WorldIsValid host _ _ (
        stored_results-WorldIsValid _ _ _ _ (
          tick-WorldIsValid _
            (tick-WorldIsValid _ (rerank-WorldIsValid job candidates baseline w h))));
  }

  score_candidates-Keeps :
      (job : StoredJob) (candidates : List RankingCandidate)
      → Keeps WorldIsValid (score_candidates host job candidates)
  unfolding score_candidates
  score_candidates-Keeps job candidates =
      Keeps-bind (call (λ n. host.score n job.requirements candidates)) _
        (Keeps-call _ tick-WorldIsValid)
        (λ answer.
          Keeps-bind (lift (fetched_json host service_failure answer))
            (λ baseline. finish_ranking host job candidates baseline) (Keeps-lift _)
            (λ baseline. finish_ranking-Keeps job candidates baseline))

  pub rank_job-Keeps : (job : StoredJob) → Keeps WorldIsValid (rank_job host job)
  unfolding rank_job
  rank_job-Keeps job =
      Keeps-if (length (ranking_candidates host job) == 0) (raise (demo_problem 422 no_candidates))
        (score_candidates host job (ranking_candidates host job)) (Keeps-raise _)
        (score_candidates-Keeps job (ranking_candidates host job))

  store_new_job-Keeps :
      (title description : Text) (parsed : JobParseResult)
      → Keeps WorldIsValid (store_new_job host title description parsed)
  unfolding store_new_job
  store_new_job-Keeps title description parsed = record {
    at = λ w h.
        save_job-WorldIsValid host _ _
          (tick-WorldIsValid _ (tick-WorldIsValid _ (tick-WorldIsValid w h)));
  }

  parse_and_store-Keeps :
      (title description : Text) → Keeps WorldIsValid (parse_and_store host title description)
  unfolding parse_and_store
  parse_and_store-Keeps title description =
      Keeps-bind (call (λ n. host.parse_job n (or_else title default_title) description)) _
        (Keeps-call _ tick-WorldIsValid)
        (λ answer.
          Keeps-bind (lift (fetched_json host service_failure answer))
            (store_new_job host title description) (Keeps-lift _)
            (store_new_job-Keeps title description))

  pub create_job-Keeps :
      (title description : Text) → Keeps WorldIsValid (create_job host title description)
  unfolding create_job
  create_job-Keeps title description =
      Keeps-if (ltb (length description) 20) (raise (demo_problem 422 jd_too_short))
        (parse_and_store host title description) (Keeps-raise _)
        (parse_and_store-Keeps title description)
