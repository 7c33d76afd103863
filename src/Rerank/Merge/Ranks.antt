-- ===== src/Rerank/Merge/Ranks.antt =====
-- `buildAIRankingResponse` keeps the candidates and numbers them from 1.
use mathlib.Core.List.{Perm}
use mathlib.Core.List.Perm
use cvranking.Prelude.{
  ℕ, suc, ◌≡◌, refl, ap, ◌∙◌, List, [], ◌∷◌, map, arith, length, length-map, count_from,
}
use cvranking.Js.Sorting.{sort, sort-perm, length-sort}
use cvranking.Js.Text.{Text}
use cvranking.Store.Types.{RequirementAssessment, ScoredResult, RankingResponse}
use cvranking.Rerank.Types.{AiRequirementScore, AiResult, RankingPayload}
use cvranking.Rerank.Merge.{
  merge_assessment, merge_result, number_from, compare_results, by_candidate, ai_by_candidate,
  build_ai_ranking_response,
}

number_from-ranks :
    (index : ℕ) (rs : List ScoredResult)
    → map (λ r. r.rank) (number_from index rs) ≡ count_from (suc index) (length rs)
unfolding number_from
number_from-ranks index [] = refl
number_from-ranks index (r ∷ rs) = ground (arith, number_from-ranks (suc index) rs)

-- The ranks of the results are 1, 2, and so on, one for each baseline result, in this order.
pub build_ai_ranking_response-ranks :
    (payload : RankingPayload) (baseline : RankingResponse) (model_version : Text)
    → map (λ r. r.rank) (build_ai_ranking_response payload baseline model_version).results
      ≡ count_from 1 (length baseline.results)
unfolding build_ai_ranking_response
build_ai_ranking_response-ranks payload baseline model_version =
    let compare = compare_results (by_candidate baseline.results) in
    let merged = map (merge_result (ai_by_candidate payload)) baseline.results in
    number_from-ranks 0 (sort compare merged)
    ∙ ap (count_from 1) (
        length-sort compare merged
        ∙ length-map (merge_result (ai_by_candidate payload)) baseline.results)

-- What a result is about: the candidate, and the requirements assessed, in order.
abbrev pub subject : ScoredResult → Text × List Text
subject r = (r.candidate_id, map (λ a. a.requirement_id) r.requirement_assessments)

number_from-subjects :
    (index : ℕ) (rs : List ScoredResult) → map subject (number_from index rs) ≡ map subject rs
unfolding number_from
number_from-subjects index [] = refl
number_from-subjects index (r ∷ rs) = ap (◌∷◌ (subject r)) (number_from-subjects (suc index) rs)

merge_assessments-ids :
    (scores : List (Text × AiRequirementScore)) (given : List RequirementAssessment)
    → map (λ a. a.requirement_id) (map (merge_assessment scores) given)
      ≡ map (λ a. a.requirement_id) given
unfolding merge_assessment
merge_assessments-ids scores [] = refl
merge_assessments-ids scores (a ∷ rest) =
    ap (◌∷◌ a.requirement_id) (merge_assessments-ids scores rest)

subject-merge_result :
    (ai : List (Text × AiResult)) (b : ScoredResult) → subject (merge_result ai b) ≡ subject b
unfolding merge_result
subject-merge_result ai b =
    ap (λ ids. (b.candidate_id, ids)) (merge_assessments-ids _ b.requirement_assessments)

map_results-subjects :
    (ai : List (Text × AiResult)) (bs : List ScoredResult)
    → map subject (map (merge_result ai) bs) ≡ map subject bs
map_results-subjects ai [] = refl
map_results-subjects ai (b ∷ bs) =
    rw (subject-merge_result ai b) (ap (◌∷◌ (subject b)) (map_results-subjects ai bs))

-- The results are about the candidates of the baseline, each as often, and about the same
-- requirements of each candidate in the same order.
pub build_ai_ranking_response-perm :
    (payload : RankingPayload) (baseline : RankingResponse) (model_version : Text)
    → Perm
        (map subject (build_ai_ranking_response payload baseline model_version).results)
        (map subject baseline.results)
unfolding build_ai_ranking_response
build_ai_ranking_response-perm payload baseline model_version =
    let compare = compare_results (by_candidate baseline.results) in
    let ai = ai_by_candidate payload in
    let merged = map (merge_result ai) baseline.results in
    rw (number_from-subjects 0 (sort compare merged), ← map_results-subjects ai baseline.results)
      (Perm.map subject (sort-perm compare merged))
