-- ===== src/Rerank/Providers/Retry.antt =====
-- `callGeminiRanking` goes on to the next key after a failure, so that one key that works is enough.
use native.Mathlib.Nat.{mod-lt, mod-eq_of_lt, add-mod_right}
use mathlib.Core.Option
use cvranking.Prelude.{
  ℕ, zero, suc, ◌+◌, ◌-◌, ◌%◌, ◌<◌, ◌≡◌, ◌≢◌, ap, leb, refl, false, Option, some, List, [], ◌++◌,
  arith, coalesce, get_elem?, length, ◌==◌, if◌then◌else◌,
}
use cvranking.Js.Text.{Text, units}
use cvranking.Host.{Host, World, Fetched, tick}
use cvranking.Store.Types.{RankingCandidate, RankingResponse, StoredJob}
use cvranking.Rerank.Input.{build_ai_ranking_input, ranking_system_prompt}
use cvranking.Rerank.Keys.{gemini_keys, gemini_model_name}
use cvranking.Rerank.Merge.{build_ai_ranking_response}
use cvranking.Rerank.Types.{RankingInput, RankingPayload, GeminiResponse}
use cvranking.Rerank.Providers.{
  Verdict, taken, again, given_up, follow, gemini_verdict, gemini_attempts, gemini_run,
  chosen_candidates, call_gemini_ranking,
}

-- A provider's answers to a request are always usable, at whatever time it is made.
abbrev pub Works : Host → (model : Text) → RankingInput → (key : Text) → Type 0
Works host model input key =
    (call : ℕ)
    → (payload : RankingPayload) × (gemini_verdict host
          (host.gemini call model key ranking_system_prompt input)
        ≡ taken payload)

gemini_verdict-ne-given_up :
    (host : Host) (answer : Fetched GeminiResponse) → gemini_verdict host answer ≢ given_up
unfolding gemini_verdict
gemini_verdict-ne-given_up host answer = ground arith

abbrev key_at : List Text → ℕ → Text
key_at keys i = coalesce (get_elem? keys (i % length keys)) []

follow-finds :
    (v : Verdict) (w : World) (next : Option RankingPayload × World)
    → v ≢ given_up
    → ((payload : RankingPayload) × (next.0 ≡ some payload))
    → (payload : RankingPayload) × ((follow v w next).0 ≡ some payload)
follow-finds (taken payload) w next h k = (payload, refl)
follow-finds again w next h k = k
follow-finds given_up w next h k = absurd (h refl)

module _ (host : Host) (model : Text) (input : RankingInput) (keys : List Text) (start : ℕ) where
  gemini_attempts-finds :
      (left attempt i : ℕ) (w : World)
      → i < left
      → Works host model input (key_at keys (start + (attempt + i)))
      → (payload : RankingPayload) × ((gemini_attempts host model input keys start attempt left w).0
          ≡ some payload)
  unfolding gemini_attempts
  gemini_attempts-finds zero attempt i w h works = absurd (omega arith)
  gemini_attempts-finds (suc left) attempt zero w h works =
      let e : attempt + 0 ≡ attempt = omega arith in
      let (payload, used) = rw e at (works w.calls) in (payload, rw used)
  gemini_attempts-finds (suc left) attempt (suc i) w h works =
      let e : attempt + suc i ≡ suc attempt + i = omega arith in
      follow-finds _ w _ (gemini_verdict-ne-given_up host _)
        (gemini_attempts-finds left (suc attempt) i (tick w) (omega arith) (rw e at works))

-- Which attempt comes to key k.
pub turn_of : (start n k : ℕ) → ℕ
turn_of start n k = if leb start k then k - start else k + n - start

pub turn_of-lt : (start n k : ℕ) → start < n → k < n → turn_of start n k < n
unfolding turn_of
turn_of-lt start n k s h = ground arith

pub turn_of_lem : (start n k : ℕ) → start < n → k < n → (start + (0 + turn_of start n k)) % n ≡ k
unfolding turn_of
turn_of_lem start n k s h = ground (arith, mod-eq_of_lt h, add-mod_right k n)

module _ (host : Host) (job : StoredJob) (candidates : List RankingCandidate)
    (baseline : RankingResponse) (w : World) where
  -- The input that the Gemini requests of this ranking carry.
  abbrev pub gemini_input : RankingInput
  gemini_input = build_ai_ranking_input job (chosen_candidates host candidates baseline) baseline

  gemini_run-finds :
      (k : ℕ)
      → k < length (gemini_keys host.env)
      → Works host
          (gemini_model_name host.env)
          gemini_input
          (coalesce (get_elem? (gemini_keys host.env) k) [])
      → (payload : RankingPayload) × ((gemini_run host job
            (chosen_candidates host candidates baseline)
            baseline
            w).0
          ≡ some (
              build_ai_ranking_response payload baseline
                (units "gemini-ai-rerank-v1:" ++ gemini_model_name host.env)))
  unfolding gemini_run
  gemini_run-finds k h works =
      let keys = gemini_keys host.env in
      let start = host.random_uint32 w.calls % length keys in
      let small : start < length keys = mod-lt (host.random_uint32 w.calls) (omega arith) in
      let e = turn_of_lem start (length keys) k small h in
      let (payload, found) =
        gemini_attempts-finds host (gemini_model_name host.env) gemini_input keys start
          (length keys) 0 (turn_of start (length keys) k) (tick w)
          (turn_of-lt start (length keys) k small h) (rw e works) in
      (payload, ap (Option.map _) found)

  -- If some candidate is chosen for the AI and one of the Gemini keys works whenever it is tried, the
  -- Gemini ranking succeeds, wherever the random start lies and whatever the other keys answer.
  pub call_gemini_ranking-finds :
      (k : ℕ)
      → 0 < length (chosen_candidates host candidates baseline)
      → k < length (gemini_keys host.env)
      → Works host
          (gemini_model_name host.env)
          gemini_input
          (coalesce (get_elem? (gemini_keys host.env) k) [])
      → (payload : RankingPayload) × ((call_gemini_ranking host job candidates baseline w).0
          ≡ some (
              build_ai_ranking_response payload baseline
                (units "gemini-ai-rerank-v1:" ++ gemini_model_name host.env)))
  unfolding call_gemini_ranking
  call_gemini_ranking-finds k c h works =
      let chosen = length (chosen_candidates host candidates baseline) in
      let some_keys : (length (gemini_keys host.env) == 0) ≡ false = ground arith in
      let some_chosen : (chosen == 0) ≡ false = ground arith in
      rw (some_keys, some_chosen) (gemini_run-finds k h works)
