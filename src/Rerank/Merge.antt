-- ===== src/Rerank/Merge.antt =====
-- `buildAIRankingResponse` of frontend/app/api/ranking-test/route.ts: the AI provider's scores laid
-- over the baseline ranking, sorted and numbered anew.
pub mod Bounds
pub mod Order
pub mod Ranks
use cvranking.Prelude.{
  ℕ, zero, suc, ◌+◌, ◌-◌, ◌^◌, coalesce, Bool, Option, none, some, List, [], ◌∷◌, ◌++◌, map, take,
  flat_map,
}
use cvranking.Js.Map.{map_get}
use cvranking.Js.Number.{Number, Sign, to_fixed, minus, minus_ℕ, or_sign}
use cvranking.Js.Sorting.{sort}
use cvranking.Js.Text.{Text, units, truthy}
use cvranking.Store.Types.{RequirementAssessment, ScoredResult, RankingResponse}
use cvranking.Rerank.Types.{Value, missing, AiRequirementScore, AiResult, RankingPayload}
use cvranking.Rerank.Values.{clamp_score, normalize_eligibility, normalize_requirement_status}

-- `new Map(baseline.results.map((result) => [result.candidate_id, result]))`.
unfoldable pub by_candidate : List ScoredResult → List (Text × ScoredResult)
by_candidate = map (λ r. (r.candidate_id, r))

-- An entry for each AI result with a non-empty candidate id.
ai_entry : AiResult → List (Text × AiResult)
ai_entry r = elim r.candidate_id [ none ↦ [] | some [] ↦ [] | some (c ∷ s) ↦ (c ∷ s, r) ∷ [] ]

ai_by_candidate : RankingPayload → List (Text × AiResult)
unfolding ai_entry
ai_by_candidate payload = flat_map ai_entry (coalesce payload.results [])

requirement_entry : AiRequirementScore → List (Text × AiRequirementScore)
requirement_entry s = elim s.requirement_key [
  | none ↦ []
  | some [] ↦ []
  | some (c ∷ k) ↦ (c ∷ k, s) ∷ []
]

ai_requirement_scores : Option AiResult → List (Text × AiRequirementScore)
unfolding requirement_entry
ai_requirement_scores none = []
ai_requirement_scores (some r) = flat_map requirement_entry (coalesce r.requirement_scores [])

-- `aiResult?.field` of an untyped field.
abbrev pub field_of {ℓ} : {A : Type ℓ} → Option A → (A → Value) → Value
field_of none f = missing
field_of (some a) f = f a

-- `list?.length ? list.slice(0, n) : fallback`.
unfoldable pub some_of : Option (List Text) → ℕ → List Text → List Text
some_of none n fallback = fallback
some_of (some []) n fallback = fallback
some_of (some (s ∷ ss)) n fallback = take n (s ∷ ss)

-- `aiResult?.field` of a list.
abbrev pub list_of {ℓ} : {A : Type ℓ} → Option A → (A → Option (List Text)) → Option (List Text)
list_of none f = none
list_of (some a) f = f a

unfoldable pub merge_assessment :
    List (Text × AiRequirementScore) → RequirementAssessment → RequirementAssessment
merge_assessment scores a =
    let ai = map_get a.requirement_id scores in
    record a {
      status = normalize_requirement_status (field_of ai (λ s. s.status)) a.status;
      score = to_fixed 4 (clamp_score (field_of ai (λ s. s.score)) a.score);
      confidence = to_fixed 4 (clamp_score (field_of ai (λ s. s.confidence)) a.confidence);
    }

unfoldable pub merge_result : List (Text × AiResult) → ScoredResult → ScoredResult
unfolding ai_requirement_scores
merge_result ai_results b =
    let ai = map_get b.candidate_id ai_results in
    record b {
      rank = 1;
      final_score = to_fixed 6 (clamp_score (field_of ai (λ r. r.score)) b.final_score);
      confidence = to_fixed 6 (clamp_score (field_of ai (λ r. r.confidence)) b.confidence);
      eligibility_status =
          normalize_eligibility (field_of ai (λ r. r.eligibility_status)) b.eligibility_status;
      strengths = some_of (list_of ai (λ r. r.strengths)) 5 b.strengths;
      gaps = some_of (list_of ai (λ r. r.gaps)) 5 b.gaps;
      unknowns = some_of (list_of ai (λ r. r.unknowns)) 4 b.unknowns;
      requirement_assessments =
          map (merge_assessment (ai_requirement_scores ai)) b.requirement_assessments;
    }

abbrev pub max_safe_integer : ℕ
max_safe_integer = 2 ^ 53 - 1

unfoldable pub baseline_rank : List (Text × ScoredResult) → Text → ℕ
baseline_rank baseline id = elim (map_get id baseline) [ none ↦ max_safe_integer | some r ↦ r.rank ]

-- The comparator: the higher score first, then the higher confidence, then the better baseline
-- rank.
unfoldable pub compare_results : List (Text × ScoredResult) → ScoredResult → ScoredResult → Sign
compare_results baseline left right = or_sign (minus right.final_score left.final_score) (
    or_sign (minus right.confidence left.confidence) (
      minus_ℕ (baseline_rank baseline left.candidate_id)
        (baseline_rank baseline right.candidate_id)))

-- `merged.forEach((result, index) => { result.rank = index + 1; })`, from a given index.
unfoldable pub number_from : ℕ → List ScoredResult → List ScoredResult
number_from index [] = []
number_from index (r ∷ rs) = record r { rank = index + 1 } ∷ number_from (suc index) rs

unfoldable pub build_ai_ranking_response :
    RankingPayload → RankingResponse → (model_version : Text) → RankingResponse
unfolding ai_by_candidate
build_ai_ranking_response payload baseline model_version =
    let merged = map (merge_result (ai_by_candidate payload)) baseline.results in
    record {
      results = number_from 0 (sort (compare_results (by_candidate baseline.results)) merged);
      model_version = model_version;
      feature_schema_version = baseline.feature_schema_version ++ units "+ai-rerank";
    }
