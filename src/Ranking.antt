-- ===== src/Ranking.antt =====
-- `createJob`, `buildRun` and `rankJob` of frontend/app/api/ranking-test/route.ts.
pub mod Laws
pub mod Validity
use cvranking.Prelude.{
  ℕ, zero, suc, Bool, Option, none, some, List, [], ◌∷◌, ◌++◌, map, take, flat_map, somes, length,
  coalesce, ltb, ◌==◌, if◌then◌else◌,
}
use cvranking.Js.Decimal.{decimal}
use cvranking.Js.Map.{map_get}
use cvranking.Js.Text.{Text, units, or_else}
use cvranking.Host.{Host, World, tick}
use cvranking.Host.Action.{
  Thrown, demo_problem, Result, ok, throw, Action, pure, raise, lift, run, call, ◌>>=◌, ◌>>◌,
}
use cvranking.Store.{save_job}
use cvranking.Store.Types.{
  Evidence, RequirementAssessment, RequirementScore, ScoredResult, RankingResponse,
  RankingCandidate, CandidateSummary, bare, StoredCv, StoredResult, StoredRun, StoredJob,
  JobParseResult,
}
use cvranking.Upload.{fetched_json}
use cvranking.Rerank.Providers.{rerank}

unfoldable pub service_failure : (status : ℕ) → (body : Text) → Text
service_failure status body =
    units "AI service returned " ++ (decimal status ++ (units ": " ++ body))

abbrev pub jd_too_short : Text
jd_too_short = units "JD cần ít nhất 20 ký tự."

abbrev pub no_candidates : Text
no_candidates = units "JD này chưa có CV parse thành công để ranking."

abbrev pub default_title : Text
default_title = units "Ranking demo job"

-- The entry of a CV that has an id and a summary.
summary_entry : Option Text → Option CandidateSummary → List (Text × CandidateSummary)
summary_entry (some (c ∷ id)) (some person) = (c ∷ id, person) ∷ []
summary_entry _ _ = []

unfoldable pub summaries_of : List StoredCv → List (Text × CandidateSummary)
unfolding summary_entry
summaries_of cvs = flat_map (λ cv. summary_entry cv.candidate_id cv.candidate_summary) cvs

unfoldable pub requirement_score : RequirementAssessment → RequirementScore
requirement_score a = record {
  requirement_key = a.requirement_id;
  status = a.status;
  score = a.score;
  confidence = a.confidence;
  evidence_ids = map (λ e. e.id) a.evidences;
}

unfoldable pub stored_result :
    (id run_id : Text) → List (Text × CandidateSummary) → ScoredResult → StoredResult
stored_result id run_id summaries r = record {
  id = id;
  ranking_run_id = run_id;
  candidate = coalesce (map_get r.candidate_id summaries) (bare r.candidate_id r.candidate_id);
  rank = r.rank;
  final_score = r.final_score;
  confidence = r.confidence;
  eligibility_status = r.eligibility_status;
  strengths = r.strengths;
  gaps = r.gaps;
  unknowns = r.unknowns;
  requirement_scores = map requirement_score r.requirement_assessments;
}

module _ (host : Host) where
  -- The part of `createJob` after the description has been parsed.
  unfoldable pub store_new_job : (title description : Text) → JobParseResult → Action StoredJob
  store_new_job title description parsed = do
    now ← call host.iso_string
    time ← call host.date_now
    uuid ← call host.random_uuid
    let job : StoredJob = record {
      id = units "jd-" ++ (time ++ (units "-" ++ take 8 uuid));
      title = or_else title default_title;
      description = description;
      created_at = now;
      updated_at = now;
      parser_version = parsed.parser_version;
      requirements = parsed.requirements;
      cv_count = 0;
      cvs = [];
      latest_run = none;
    }
    run (λ w. (job, save_job host job w))

  unfoldable pub parse_and_store : (title description : Text) → Action StoredJob
  parse_and_store title description = do
    answer ← call (λ n. host.parse_job n (or_else title default_title) description)
    parsed ← lift (fetched_json host service_failure answer)
    store_new_job title description parsed

  unfoldable pub create_job : (title description : Text) → Action StoredJob
  create_job title description =
      if ltb (length description) 20
      then raise (demo_problem 422 jd_too_short)
      else parse_and_store title description

  -- The `map` over the results: each draws an identifier.
  unfoldable pub stored_results :
      (run_id : Text)
      → List (Text × CandidateSummary)
      → List ScoredResult
      → World
      → List StoredResult × World
  stored_results run_id summaries [] w = ([], w)
  stored_results run_id summaries (r ∷ rs) w =
      let (rest, w') = stored_results run_id summaries rs (tick w) in
      (stored_result (host.random_uuid w.calls) run_id summaries r ∷ rest, w')

  unfoldable pub build_run : StoredJob → RankingResponse → World → StoredRun × World
  build_run job scored w =
      let run_id = host.random_uuid w.calls in
      let now = host.iso_string (suc w.calls) in
      let (results, w') =
        stored_results run_id (summaries_of job.cvs) scored.results (tick (tick w)) in
      (
        record {
          id = run_id;
          job_id = job.id;
          job_version_id = job.id ++ units "-v1";
          status = units "completed";
          progress = 100;
          model_version = scored.model_version;
          feature_schema_version = scored.feature_schema_version;
          candidate_count = length scored.results;
          created_at = now;
          started_at = now;
          finished_at = now;
          results = results;
        },
        w',
      )

  unfoldable pub ranking_candidates : StoredJob → List RankingCandidate
  ranking_candidates job = somes (map (λ cv. cv.ranking_candidate) job.cvs)

  -- The part of `rankJob` after the baseline scores have come.
  unfoldable pub finish_ranking :
      StoredJob → List RankingCandidate → RankingResponse → Action StoredJob
  finish_ranking job candidates baseline = do
    scored ← run (rerank host job candidates baseline)
    latest ← run (build_run job scored)
    let updated : StoredJob = record job {
      updated_at = latest.finished_at;
      latest_run = some latest;
    }
    run (λ w. (updated, save_job host updated w))

  unfoldable pub score_candidates : StoredJob → List RankingCandidate → Action StoredJob
  score_candidates job candidates = do
    answer ← call (λ n. host.score n job.requirements candidates)
    baseline ← lift (fetched_json host service_failure answer)
    finish_ranking job candidates baseline

  unfoldable pub rank_job : StoredJob → Action StoredJob
  rank_job job =
      let candidates = ranking_candidates job in
      if length candidates == 0
      then raise (demo_problem 422 no_candidates)
      else score_candidates job candidates
