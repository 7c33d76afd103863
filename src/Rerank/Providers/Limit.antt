-- ===== src/Rerank/Providers/Limit.antt =====
-- The setting AI_RANKING_CANDIDATE_LIMIT, and what `callGeminiRanking` and `callGroqRanking` make of
-- the limit.
use cvranking.Prelude.{
  ℕ, ◌<◌, ◌≡◌, refl, Bool, true, false, ◌||◌, not, none, List, length, ltb, ◌==◌, arith,
}
use native.Mathlib.Nat.{div-eq_of_lt}
use cvranking.Js.Number.{Number, pos, scale}
use cvranking.Js.Text.{Text, units, truthy}
use cvranking.Host.{Host, World}
use cvranking.Store.Types.{RankingCandidate, RankingResponse, StoredJob}
use cvranking.Rerank.Input.{select_candidates_for_ai}
use cvranking.Rerank.Keys.{Env, env_text, gemini_keys, groq_key, limit_of, ai_candidate_limit}
use cvranking.Rerank.Providers.{chosen_candidates, call_gemini_ranking, call_groq_ranking, rerank}

abbrev pub limit_setting : Text
limit_setting = units "AI_RANKING_CANDIDATE_LIMIT"

-- A setting that is a number between 0 and 1, both excluded.
pub record IsFraction (to_number : Text → Number) (env : Env) : Type 0 where
  pub given : truthy (env_text env limit_setting) ≡ true
  pub value : ℕ
  pub read : to_number (env_text env limit_setting) ≡ pos value
  pub positive : 0 < value
  pub small : value < scale

or_true : (b : Bool) → (b || true) ≡ true
or_true true = refl
or_true false = refl

limit_of-fraction : (k : ℕ) → 0 < k → k < scale → limit_of (pos k) ≡ 0
unfolding limit_of
limit_of-fraction k h small =
    let above : ltb 0 k ≡ true = ground arith in rw (above, div-eq_of_lt small) (omega arith)

ai_candidate_limit-fraction :
    (to_number : Text → Number) (env : Env)
    → IsFraction to_number env
    → ai_candidate_limit to_number env ≡ 0
unfolding ai_candidate_limit
ai_candidate_limit-fraction to_number env h =
    rw (h.given, h.read) (limit_of-fraction h.value h.positive h.small)

module _ (host : Host) (job : StoredJob) (candidates : List RankingCandidate)
    (baseline : RankingResponse) (h : IsFraction host.to_number host.env) where
  call_gemini_ranking-fraction :
      (w : World) → call_gemini_ranking host job candidates baseline w ≡ (none, w)
  unfolding call_gemini_ranking chosen_candidates select_candidates_for_ai
  call_gemini_ranking-fraction w =
      rw
        (
          ai_candidate_limit-fraction host.to_number host.env h,
          or_true (length (gemini_keys host.env) == 0),
        )
        refl

  call_groq_ranking-fraction :
      (w : World) → call_groq_ranking host job candidates baseline w ≡ (none, w)
  unfolding call_groq_ranking chosen_candidates select_candidates_for_ai
  call_groq_ranking-fraction w =
      rw
        (
          ai_candidate_limit-fraction host.to_number host.env h,
          or_true (not (truthy (groq_key host.env))),
        )
        refl

  -- Where the setting AI_RANKING_CANDIDATE_LIMIT is a number between 0 and 1, both excluded, no candidate
  -- is chosen for the providers: the baseline comes back as it is and the state is unchanged, so that
  -- no provider was called, whatever keys are set.
  pub rerank-fraction : (w : World) → rerank host job candidates baseline w ≡ (baseline, w)
  unfolding rerank
  rerank-fraction w = rw (call_gemini_ranking-fraction w, call_groq_ranking-fraction w) refl
