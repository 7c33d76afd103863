-- ===== src/Ranking/Laws.antt =====
-- What a run stores, and what a ranking changes in the store.
use cvranking.Prelude.{
  ℕ, ◌≡◌, refl, sym, ap, ◌∙◌, Option, none, some, List, [], ◌∷◌, map, length, length-map, coalesce,
  arith, All, All-append, if-both, inl, inr, ◌==◌,
}
use mathlib.Core.Path.{ap₂}
use cvranking.Js.Map.{map_get, map_get-entry}
use cvranking.Js.Number.{Number}
use cvranking.Js.Text.{Text}
use cvranking.Host.{Host, World, tick}
use cvranking.Host.Action.{Thrown, demo_problem, throw, Action, Leaves, Leaves-continue, raise}
use cvranking.Ranking.{
  summaries_of, summary_entry, stored_result, stored_results, build_run, rank_job, score_candidates,
  finish_ranking, ranking_candidates, no_candidates, service_failure,
}
use cvranking.Upload.{fetched_json}
use cvranking.Store.Types.{
  RankingCandidate, ScoredResult, RankingResponse, CandidateSummary, bare, StoredCv, StoredResult,
  StoredRun, StoredJob,
}
use cvranking.Store.{get_job}
use cvranking.Store.Persistence.{get_job-save_job_self}
use cvranking.Upload.Laws.{IsConsistent, summary_id}

abbrev SummaryIds : List (Text × CandidateSummary) → Type 0
SummaryIds = All (λ e. summary_id e.1 ≡ e.0)

summary_entry-ids :
    (id : Option Text) (person : Option CandidateSummary)
    → ((i : Text) (p : CandidateSummary) → id ≡ some i → person ≡ some p → summary_id p ≡ i)
    → SummaryIds (summary_entry id person)
unfolding summary_entry
summary_entry-ids (some (c ∷ id)) (some person) h = (h (c ∷ id) person refl refl, tt)
summary_entry-ids (some (c ∷ id)) none h = tt
summary_entry-ids (some []) _ h = tt
summary_entry-ids none _ h = tt

IsConsistent-ids :
    (cv : StoredCv) (i : Text) (p : CandidateSummary)
    → IsConsistent cv
    → cv.candidate_id ≡ some i
    → cv.candidate_summary ≡ some p
    → summary_id p ≡ i
IsConsistent-ids cv i p h e f = elim h [
  | inl (id, candidate, person, s, e₁, e₂, e₃, e₄, e₅) ↦ cc
  | inr (message, s, e₁, e₂, e₃, e₄) ↦ cc
]

-- A summary stands under its own id.
summaries_of-ids : (cvs : List StoredCv) → All IsConsistent cvs → SummaryIds (summaries_of cvs)
unfolding summaries_of
summaries_of-ids [] h = tt
summaries_of-ids (cv ∷ cvs) (h, hs) =
    All-append _ (summary_entry cv.candidate_id cv.candidate_summary) (summaries_of cvs)
      (summary_entry-ids _ _ (λ i p e f. IsConsistent-ids cv i p h e f)) (summaries_of-ids cvs hs)

coalesce-id :
    (found : Option CandidateSummary) (id : Text)
    → ((p : CandidateSummary) → found ≡ some p → summary_id p ≡ id)
    → summary_id (coalesce found (bare id id)) ≡ id
coalesce-id none id h = refl
coalesce-id (some p) id h = h p refl

stored_result-id :
    (id run_id : Text) (summaries : List (Text × CandidateSummary)) (r : ScoredResult)
    → SummaryIds summaries
    → summary_id (stored_result id run_id summaries r).candidate ≡ r.candidate_id
unfolding stored_result
stored_result-id id run_id summaries r h =
    coalesce-id (map_get r.candidate_id summaries) r.candidate_id
      λ p e. map_get-entry (λ i q. summary_id q ≡ i) r.candidate_id summaries p h e

-- What a run stores of a result: the candidate's id, the rank and the two scores.
abbrev pub scored_row : ScoredResult → Text × ℕ × Number × Number
scored_row r = (r.candidate_id, r.rank, r.final_score, r.confidence)

abbrev pub stored_row : StoredResult → Text × ℕ × Number × Number
stored_row s = (summary_id s.candidate, s.rank, s.final_score, s.confidence)

stored_results-rows :
    (host : Host) (run_id : Text) (summaries : List (Text × CandidateSummary))
    (rs : List ScoredResult) (w : World)
    → SummaryIds summaries
    → map stored_row (stored_results host run_id summaries rs w).0 ≡ map scored_row rs
unfolding stored_results stored_result
stored_results-rows host run_id summaries [] w h = refl
stored_results-rows host run_id summaries (r ∷ rs) w h =
    ap₂ ◌∷◌
      (ap (λ id. (id, r.rank, r.final_score, r.confidence))
        (stored_result-id (host.random_uuid w.calls) run_id summaries r h))
      (stored_results-rows host run_id summaries rs (tick w) h)

-- Over CVs that are each consistent, a run has a result for each scored result, in order, about the
-- candidate with the scored id and with its rank and scores; its count is their number, and it belongs
-- to the job.
pub build_run_lem :
    (host : Host) (job : StoredJob) (scored : RankingResponse) (w : World)
    → All IsConsistent job.cvs
    → (map stored_row (build_run host job scored w).0.results ≡ map scored_row scored.results)
      × ((build_run host job scored w).0.candidate_count
          ≡ length (build_run host job scored w).0.results)
      × ((build_run host job scored w).0.job_id ≡ job.id)
unfolding build_run
build_run_lem host job scored w h =
    let rows =
      stored_results-rows host (host.random_uuid w.calls) (summaries_of job.cvs) scored.results
        (tick (tick w)) (summaries_of-ids job.cvs h) in
    let count = length-map scored_row scored.results in
    let stored =
      length-map stored_row
        (stored_results host (host.random_uuid w.calls) (summaries_of job.cvs) scored.results
          (tick (tick w))).0 in
    (rows, sym count ∙ ap length (sym rows) ∙ stored, refl)

-- A ranking that throws has written nothing, in memory or on disk.
pub rank_job-throw :
    (host : Host) (job : StoredJob) (w : World) (e : Thrown)
    → (rank_job host job w).0 ≡ throw e
    → ((rank_job host job w).1.memory ≡ w.memory)
      × ((rank_job host job w).1.store_file ≡ w.store_file)
      × ((rank_job host job w).1.pdfs ≡ w.pdfs)
unfolding rank_job score_candidates finish_ranking
rank_job-throw host job w e h = ground arith

abbrev pub Any : {A : Type 0} → A → World → Type 0
Any a w = Unit {0}

-- The job that a ranking returns: the same job with its CVs and requirements, a new run, and the time
-- of that run; and the store has it under its id.
pub record IsRankedJob (host : Host) (job updated : StoredJob) (w : World) : Type 0 where
  pub same_id : updated.id ≡ job.id
  pub same_cvs : updated.cvs ≡ job.cvs
  pub same_requirements : updated.requirements ≡ job.requirements
  pub ranked :
      (latest : StoredRun) × (updated.latest_run ≡ some latest)
      × (updated.updated_at ≡ latest.finished_at)
      × (latest.job_id ≡ job.id)
  pub saved : (get_job host job.id w).0 ≡ some updated

module _ (host : Host) where
  finish_ranking-IsRankedJob :
      (job : StoredJob) (candidates : List RankingCandidate) (baseline : RankingResponse)
      (w : World)
      → Leaves (IsRankedJob host job) Any (finish_ranking host job candidates baseline w)
  unfolding finish_ranking
  finish_ranking-IsRankedJob job candidates baseline w = record {
    same_id = refl;
    same_cvs = refl;
    same_requirements = refl;
    ranked = (_, refl, refl, unfold build_run in refl);
    saved = get_job-save_job_self host _ _;
  }

  score_candidates-IsRankedJob :
      (job : StoredJob) (candidates : List RankingCandidate) (w : World)
      → Leaves (IsRankedJob host job) Any (score_candidates host job candidates w)
  unfolding score_candidates
  score_candidates-IsRankedJob job candidates w =
      Leaves-continue (IsRankedJob host job) Any
        (fetched_json host service_failure (host.score w.calls job.requirements candidates))
        (finish_ranking host job candidates) (tick w)
        (λ baseline e. finish_ranking-IsRankedJob job candidates baseline (tick w)) (λ e h. tt)

-- A ranking that returns has stored the job that it returns: the same job with its CVs and its
-- requirements, and a new run of it.
pub rank_job-IsRankedJob :
    (host : Host) (job : StoredJob) (w : World)
    → Leaves (IsRankedJob host job) Any (rank_job host job w)
unfolding rank_job
rank_job-IsRankedJob host job w =
    let candidates = ranking_candidates host job in
    if-both (λ (m : Action StoredJob). Leaves (IsRankedJob host job) Any (m w))
      (length candidates == 0) (raise (demo_problem 422 no_candidates))
      (score_candidates host job candidates) tt (score_candidates-IsRankedJob host job candidates w)
