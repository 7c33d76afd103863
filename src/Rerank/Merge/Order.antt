-- ===== src/Rerank/Merge/Order.antt =====
-- The order of the results of `buildAIRankingResponse`.
use cvranking.Prelude.{
  ℕ, suc, ◌+◌, ◌≤◌, ◌<◌, ◌≡◌, ◌≢◌, ◌⊎◌, ◌↔◌, refl, List, [], ◌∷◌, map, arith, All,
}
use cvranking.Js.Number.{Number, pos, neg, Sign, positive, minus, minus_ℕ, or_sign, less, InUnit}
use cvranking.Js.Sorting.{sort, IsSorted, IsPreorder, sort-IsSorted, All-sort}
use cvranking.Js.Text.{Text}
use cvranking.Store.Types.{ScoredResult, RankingResponse}
use cvranking.Rerank.Types.{RankingPayload}
use cvranking.Rerank.Merge.{
  merge_result, number_from, compare_results, by_candidate, baseline_rank, ai_by_candidate,
  build_ai_ranking_response,
}
use cvranking.Rerank.Merge.Bounds.{ResultGiven, ResultInRange, map_results-InRange}

-- The size of a score between 0 and 1, in units.
abbrev pub size : Number → ℕ
size (pos k) = k
size _ = 0

minus-size : (a b : Number) → InUnit a → InUnit b → minus a b ≡ minus_ℕ (size a) (size b)
unfolding minus minus_ℕ less
minus-size (pos a) (pos b) h k = refl
minus-size (pos a) (neg b) h k = elim k [ ]
minus-size (pos a) _ h k = elim k [ ]
minus-size (neg a) b h k = elim h [ ]
minus-size _ b h k = elim h [ ]

-- The comparator's three differences, on whole numbers.
compare_keys : (s t c d m n : ℕ) → Sign
compare_keys s t c d m n = or_sign (minus_ℕ t s) (or_sign (minus_ℕ d c) (minus_ℕ m n))

abbrev KeysPrecede : (s t c d m n : ℕ) → Type 0
KeysPrecede s t c d m n = (t < s) ⊎ ((s ≡ t) × ((d < c) ⊎ ((c ≡ d) × (m ≤ n))))

compare_keys_iff :
    (s t c d m n : ℕ) → (compare_keys s t c d m n ≢ positive) ↔ KeysPrecede s t c d m n
unfolding compare_keys or_sign minus_ℕ
compare_keys_iff s t c d m n = grind arith

module _ (baseline : List (Text × ScoredResult)) where
  -- One result may stand before another: a higher score, or the same score and a higher confidence,
  -- or both the same and a baseline rank that is no worse.
  abbrev pub Precedes : ScoredResult → ScoredResult → Type 0
  Precedes a b =
      (size b.final_score < size a.final_score)
      ⊎ ((size a.final_score ≡ size b.final_score)
          × ((size b.confidence < size a.confidence)
              ⊎ ((size a.confidence ≡ size b.confidence)
                  × (baseline_rank baseline a.candidate_id
                      ≤ baseline_rank baseline b.candidate_id))))

  compare_results-keys :
      (a b : ScoredResult)
      → ResultInRange a
      → ResultInRange b
      → compare_results baseline a b
        ≡ compare_keys
            (size a.final_score)
            (size b.final_score)
            (size a.confidence)
            (size b.confidence)
            (baseline_rank baseline a.candidate_id)
            (baseline_rank baseline b.candidate_id)
  unfolding compare_results compare_keys
  compare_results-keys a b p q = cc (
    minus-size b.final_score a.final_score q.score p.score,
    minus-size b.confidence a.confidence q.confidence p.confidence,
  )

  -- Between results in range the comparator decides this order.
  compare_results_iff :
      (a b : ScoredResult)
      → ResultInRange a
      → ResultInRange b
      → (compare_results baseline a b ≢ positive) ↔ Precedes a b
  compare_results_iff a b p q = rw (compare_results-keys a b p q) (compare_keys_iff _ _ _ _ _ _)

  compare_results-total :
      (a b : ScoredResult)
      → ResultInRange a
      → ResultInRange b
      → compare_results baseline a b ≡ positive
      → compare_results baseline b a ≢ positive
  unfolding compare_keys or_sign minus_ℕ
  compare_results-total a b p q h =
      let e = compare_results-keys a b p q in let e' = compare_results-keys b a q p in ground arith

  compare_results-IsPreorder : IsPreorder (compare_results baseline) ResultInRange
  compare_results-IsPreorder = record {
    trans = λ a b c p q r h k.
        let h' = (compare_results_iff a b p q).0 h in
        let k' = (compare_results_iff b c q r).0 k in
        (compare_results_iff a c p r).1 (ground arith);
    total = compare_results-total;
  }

  -- Each result precedes all that stand after it.
  abbrev pub IsRanked : List ScoredResult → Type 0
  IsRanked [] = Unit
  IsRanked (r ∷ rs) = All (Precedes r) rs × IsRanked rs

  All-number_from :
      (r : ScoredResult) (index rank : ℕ) (rs : List ScoredResult)
      → All (Precedes r) rs
      → All (Precedes (record r { rank = rank })) (number_from index rs)
  unfolding number_from
  All-number_from r index rank [] h = tt
  All-number_from r index rank (s ∷ rs) (p, h) = (p, All-number_from r (suc index) rank rs h)

  number_from-IsRanked :
      (index : ℕ) (rs : List ScoredResult) → IsRanked rs → IsRanked (number_from index rs)
  unfolding number_from
  number_from-IsRanked index [] h = tt
  number_from-IsRanked index (r ∷ rs) (p, h) =
      (All-number_from r (suc index) (index + 1) rs p, number_from-IsRanked (suc index) rs h)

  All-Precedes :
      (r : ScoredResult) (rs : List ScoredResult)
      → ResultInRange r
      → All ResultInRange rs
      → All (λ s. compare_results baseline r s ≢ positive) rs
      → All (Precedes r) rs
  All-Precedes r [] p ps h = tt
  All-Precedes r (s ∷ rs) p (q, qs) (h, hs) =
      ((compare_results_iff r s p q).0 h, All-Precedes r rs p qs hs)

  IsSorted-IsRanked :
      (rs : List ScoredResult)
      → All ResultInRange rs
      → IsSorted (compare_results baseline) rs
      → IsRanked rs
  IsSorted-IsRanked [] p h = tt
  IsSorted-IsRanked (r ∷ rs) (p, ps) (h, hs) =
      (All-Precedes r rs p ps h, IsSorted-IsRanked rs ps hs)

-- Over a baseline whose scores are numbers and whose statuses are known, each result precedes all
-- later ones: it has a higher score, or the same score and a higher confidence, or the same of both
-- and a baseline rank that is no greater.
pub build_ai_ranking_response-IsRanked :
    (payload : RankingPayload) (baseline : RankingResponse) (model_version : Text)
    → All ResultGiven baseline.results
    → IsRanked
        (by_candidate baseline.results)
        (build_ai_ranking_response payload baseline model_version).results
unfolding build_ai_ranking_response
build_ai_ranking_response-IsRanked payload baseline model_version given =
    let old = by_candidate baseline.results in
    let merged = map (merge_result (ai_by_candidate payload)) baseline.results in
    let fits = map_results-InRange (ai_by_candidate payload) baseline.results given in
    number_from-IsRanked old 0 (sort (compare_results old) merged) (
      IsSorted-IsRanked old (sort (compare_results old) merged)
        (All-sort (compare_results old) ResultInRange merged fits)
        (sort-IsSorted (compare_results old) ResultInRange (compare_results-IsPreorder old) merged
          fits))
