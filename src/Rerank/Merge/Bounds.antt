-- ===== src/Rerank/Merge/Bounds.antt =====
-- What every result of `buildAIRankingResponse` looks like, whatever the provider answered.
use cvranking.Prelude.{ℕ, suc, ◌≢◌, List, [], ◌∷◌, map, All, Has}
use cvranking.Js.Number.{nan, InUnit}
use cvranking.Js.Number.Rounding.{to_fixed-InUnit}
use cvranking.Js.Sorting.{All-sort}
use cvranking.Js.Text.{Text}
use cvranking.Store.Types.{RequirementAssessment, ScoredResult, RankingResponse}
use cvranking.Rerank.Types.{AiRequirementScore, AiResult, RankingPayload}
use cvranking.Rerank.Values.{
  eligibilities, requirement_statuses, clamp_score-InUnit, normalize_eligibility-Has,
  normalize_requirement_status-Has,
}
use cvranking.Rerank.Merge.{
  merge_assessment, merge_result, number_from, compare_results, by_candidate, ai_by_candidate,
  build_ai_ranking_response,
}

-- What the scoring service promises of an assessment and of a result: scores that are numbers and
-- known statuses. JSON has no NaN.
pub record AssessmentGiven (a : RequirementAssessment) : Type 0 where
  pub score : a.score ≢ nan
  pub confidence : a.confidence ≢ nan
  pub status : Has a.status requirement_statuses

pub record ResultGiven (r : ScoredResult) : Type 0 where
  pub score : r.final_score ≢ nan
  pub confidence : r.confidence ≢ nan
  pub eligibility : Has r.eligibility_status eligibilities
  pub assessments : All AssessmentGiven r.requirement_assessments

pub record AssessmentInRange (a : RequirementAssessment) : Type 0 where
  pub score : InUnit a.score
  pub confidence : InUnit a.confidence
  pub status : Has a.status requirement_statuses

pub record ResultInRange (r : ScoredResult) : Type 0 where
  pub score : InUnit r.final_score
  pub confidence : InUnit r.confidence
  pub eligibility : Has r.eligibility_status eligibilities
  pub assessments : All AssessmentInRange r.requirement_assessments

merge_assessment-InRange :
    (scores : List (Text × AiRequirementScore)) (a : RequirementAssessment)
    → AssessmentGiven a
    → AssessmentInRange (merge_assessment scores a)
unfolding merge_assessment
merge_assessment-InRange scores a g = record {
  score = to_fixed-InUnit 4 _ (clamp_score-InUnit _ a.score g.score);
  confidence = to_fixed-InUnit 4 _ (clamp_score-InUnit _ a.confidence g.confidence);
  status = normalize_requirement_status-Has _ a.status g.status;
}

map_assessments-InRange :
    (scores : List (Text × AiRequirementScore)) (given : List RequirementAssessment)
    → All AssessmentGiven given
    → All AssessmentInRange (map (merge_assessment scores) given)
map_assessments-InRange scores [] h = tt
map_assessments-InRange scores (a ∷ rest) (g, h) =
    (merge_assessment-InRange scores a g, map_assessments-InRange scores rest h)

pub merge_result-InRange :
    (ai : List (Text × AiResult)) (b : ScoredResult)
    → ResultGiven b
    → ResultInRange (merge_result ai b)
unfolding merge_result
merge_result-InRange ai b g = record {
  score = to_fixed-InUnit 6 _ (clamp_score-InUnit _ b.final_score g.score);
  confidence = to_fixed-InUnit 6 _ (clamp_score-InUnit _ b.confidence g.confidence);
  eligibility = normalize_eligibility-Has _ b.eligibility_status g.eligibility;
  assessments = map_assessments-InRange _ b.requirement_assessments g.assessments;
}

pub map_results-InRange :
    (ai : List (Text × AiResult)) (bs : List ScoredResult)
    → All ResultGiven bs
    → All ResultInRange (map (merge_result ai) bs)
map_results-InRange ai [] h = tt
map_results-InRange ai (b ∷ bs) (g, h) = (merge_result-InRange ai b g, map_results-InRange ai bs h)

number_from-InRange :
    (index : ℕ) (rs : List ScoredResult)
    → All ResultInRange rs
    → All ResultInRange (number_from index rs)
unfolding number_from
number_from-InRange index [] h = tt
number_from-InRange index (r ∷ rs) (p, h) = (
  record {
    score = p.score;
    confidence = p.confidence;
    eligibility = p.eligibility;
    assessments = p.assessments;
  },
  number_from-InRange (suc index) rs h,
)

-- Whatever the provider answered, over a baseline whose scores are numbers and whose statuses are
-- known every result has its score and confidence, and those of its requirements, between 0 and 1,
-- and an eligibility and requirement statuses out of the known ones.
pub build_ai_ranking_response-InRange :
    (payload : RankingPayload) (baseline : RankingResponse) (model_version : Text)
    → All ResultGiven baseline.results
    → All ResultInRange (build_ai_ranking_response payload baseline model_version).results
unfolding build_ai_ranking_response
build_ai_ranking_response-InRange payload baseline model_version h = number_from-InRange 0 _ (
    All-sort (compare_results (by_candidate baseline.results)) ResultInRange _
      (map_results-InRange (ai_by_candidate payload) baseline.results h))
