-- ===== src/Examples/Rerank.antt =====
-- The theorems on reranking at the example data.
use cvranking.Prelude.{
  ℕ, ◌≡◌, refl, inl, some, [], ◌∷◌, map, length, coalesce, get_elem?, All, arith, ◌++◌, ◌+◌,
}
use mathlib.Core.List.{Perm}
use cvranking.Examples.Data.{
  assessment, scored, ann_id, bo_id, baseline, payload, candidate, job, host, two_keys,
}
use cvranking.Host.{fresh}
use cvranking.Js.Map.{dedupe, map_get}
use cvranking.Js.Number.{pos, scale}
use cvranking.Js.Text.{
  Text, units, text_eq, trim, trim_start, trim_end, is_space, join, strip_prefix, split, split_step,
}
use cvranking.Rerank.Input.{select_candidates_for_ai}
use cvranking.Rerank.Keys.{
  gemini_keys, gemini_model_name, numbered_keys, key_sources, env_text, ai_candidate_limit,
}
use cvranking.Rerank.Merge.{build_ai_ranking_response, by_candidate}
use cvranking.Rerank.Merge.Bounds.{
  AssessmentGiven, ResultGiven, ResultInRange, build_ai_ranking_response-InRange,
}
use cvranking.Rerank.Merge.Order.{IsRanked, build_ai_ranking_response-IsRanked}
use cvranking.Rerank.Merge.Ranks.{
  subject, build_ai_ranking_response-ranks, build_ai_ranking_response-perm,
}
use cvranking.Rerank.Providers.{
  chosen_candidates, call_gemini_ranking, rerank, gemini_verdict, gemini_text, has_results,
}
use cvranking.Rerank.Providers.Laws.{IsOverBaseline, OnlyCalls, rerank_lem}
use cvranking.Rerank.Providers.Retry.{Works, gemini_input, call_gemini_ranking-finds}
use cvranking.Js.Sorting.{sort}
use cvranking.Rerank.Types.{RankingPayload}

assessment-Given : AssessmentGiven assessment
assessment-Given = record { score = λ e. cc e; confidence = λ e. cc e; status = inl refl }

scored-Given : (id : Text) (rank k : ℕ) → ResultGiven (scored id rank (pos k))
scored-Given id rank k = record {
  score = λ e. cc e;
  confidence = λ e. cc e;
  eligibility = inl refl;
  assessments = (assessment-Given, tt);
}

baseline-Given : All ResultGiven baseline.results
baseline-Given = (scored-Given ann_id 1 scale, (scored-Given bo_id 2 0, tt))

build_ai_ranking_response-IsRanked_example :
    IsRanked
      (by_candidate baseline.results)
      (build_ai_ranking_response payload baseline (units "v")).results
build_ai_ranking_response-IsRanked_example =
    build_ai_ranking_response-IsRanked payload baseline (units "v") baseline-Given

build_ai_ranking_response-InRange_example :
    All ResultInRange (build_ai_ranking_response payload baseline (units "v")).results
build_ai_ranking_response-InRange_example =
    build_ai_ranking_response-InRange payload baseline (units "v") baseline-Given

build_ai_ranking_response-perm_example :
    Perm
      (map subject (build_ai_ranking_response payload baseline (units "v")).results)
      (map subject baseline.results)
build_ai_ranking_response-perm_example = build_ai_ranking_response-perm payload baseline (units "v")

build_ai_ranking_response-ranks_example :
    map (λ r. r.rank) (build_ai_ranking_response payload baseline (units "v")).results ≡ 1 ∷ 2 ∷ []
build_ai_ranking_response-ranks_example =
    build_ai_ranking_response-ranks payload baseline (units "v")

-- Gemini's answer is taken with each key, whenever it is asked.
works :
    (key : Text)
    → Works host
        (gemini_model_name host.env)
        (gemini_input host job (candidate ann_id ∷ []) baseline fresh)
        key
unfolding gemini_verdict gemini_text has_results trim trim_start trim_end is_space units join
works key call = (payload, refl)

length-two_keys : length (gemini_keys two_keys) ≡ 2
unfolding gemini_keys key_sources numbered_keys env_text map_get text_eq strip_prefix units sort
    split split_step join trim trim_start trim_end is_space dedupe
length-two_keys = refl

length-chosen : length (chosen_candidates host (candidate ann_id ∷ []) baseline) ≡ 1
unfolding chosen_candidates select_candidates_for_ai ai_candidate_limit env_text map_get text_eq
    units
length-chosen = refl

call_gemini_ranking-finds_example :
    (answer : RankingPayload) × ((call_gemini_ranking host job
        (candidate ann_id ∷ [])
        baseline
        fresh).0
      ≡ some (
          build_ai_ranking_response answer baseline
            (units "gemini-ai-rerank-v1:" ++ gemini_model_name host.env)))
call_gemini_ranking-finds_example =
    call_gemini_ranking-finds host job (candidate ann_id ∷ []) baseline fresh 1
      (omega (arith, length-chosen)) (omega (arith, length-two_keys))
      (works (coalesce (get_elem? (gemini_keys host.env) 1) []))

rerank_lem_example :
    IsOverBaseline baseline (rerank host job (candidate ann_id ∷ []) baseline fresh).0
    × OnlyCalls
        (1 + length (gemini_keys host.env) + 3)
        fresh
        (rerank host job (candidate ann_id ∷ []) baseline fresh).1
rerank_lem_example = rerank_lem host job (candidate ann_id ∷ []) baseline fresh
