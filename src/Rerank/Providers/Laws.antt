-- ===== src/Rerank/Providers/Laws.antt =====
-- What reranking may return, and what it leaves in the state.
use mathlib.Core.Option
use cvranking.Prelude.{
  ℕ, zero, suc, ◌+◌, ◌%◌, ◌≤◌, ◌≡◌, ◌⊎◌, inl, inr, refl, ◌∙◌, Option, none, some, List, ◌++◌, arith,
  coalesce, length, not, ◌||◌, ◌==◌, if-both,
}
use cvranking.Js.Text.{Text, units, truthy}
use cvranking.Host.{Host, World, tick}
use cvranking.Store.Types.{RankingCandidate, RankingResponse, StoredJob}
use cvranking.Rerank.Input.{build_ai_ranking_input}
use cvranking.Rerank.Keys.{gemini_keys, groq_key, gemini_model_name, groq_model_name}
use cvranking.Rerank.Merge.{build_ai_ranking_response}
use cvranking.Rerank.Types.{RankingInput, RankingPayload}
use cvranking.Rerank.Providers.{
  Verdict, taken, again, given_up, follow, gemini_attempts, call_gemini_ranking, groq_attempts,
  call_groq_ranking, rerank, gemini_run, groq_run, prefer, chosen_candidates,
}

-- Only the count of calls has moved, by at most `most`.
pub record OnlyCalls (most : ℕ) (w v : World) : Type 0 where
  pub memory : v.memory ≡ w.memory
  pub store_file : v.store_file ≡ w.store_file
  pub pdfs : v.pdfs ≡ w.pdfs
  pub not_less : w.calls ≤ v.calls
  pub at_most : v.calls ≤ w.calls + most

OnlyCalls-trans :
    (m n : ℕ) (u v w : World) → OnlyCalls m u v → OnlyCalls n v w → OnlyCalls (m + n) u w
OnlyCalls-trans m n u v w p q = record {
  memory = q.memory ∙ p.memory;
  store_file = q.store_file ∙ p.store_file;
  pdfs = q.pdfs ∙ p.pdfs;
  not_less = omega arith;
  at_most = omega arith;
}

OnlyCalls-refl : (m : ℕ) (w : World) → OnlyCalls m w w
OnlyCalls-refl m w = record {
  memory = refl;
  store_file = refl;
  pdfs = refl;
  not_less = omega arith;
  at_most = omega arith;
}

OnlyCalls-weaken : (m n : ℕ) (w v : World) → OnlyCalls m w v → OnlyCalls (m + n) w v
OnlyCalls-weaken m n w v h = record {
  memory = h.memory;
  store_file = h.store_file;
  pdfs = h.pdfs;
  not_less = omega arith;
  at_most = omega arith;
}

OnlyCalls-tick : (m : ℕ) (w : World) → OnlyCalls (suc m) w (tick w)
OnlyCalls-tick m w = record {
  memory = refl;
  store_file = refl;
  pdfs = refl;
  not_less = omega arith;
  at_most = omega arith;
}

OnlyCalls-follow :
    (m : ℕ) (v : Verdict) (w : World) (next : Option RankingPayload × World)
    → OnlyCalls m (tick w) next.1
    → OnlyCalls (suc m) w (follow v w next).1
OnlyCalls-follow m (taken payload) w next h = OnlyCalls-tick m w
OnlyCalls-follow m again w next h = record {
  memory = h.memory;
  store_file = h.store_file;
  pdfs = h.pdfs;
  not_less = omega arith;
  at_most = omega arith;
}
OnlyCalls-follow m given_up w next h = OnlyCalls-tick m w

module _ (host : Host) where
  gemini_attempts-OnlyCalls :
      (model : Text) (input : RankingInput) (keys : List Text) (start attempt left : ℕ) (w : World)
      → OnlyCalls left w (gemini_attempts host model input keys start attempt left w).1
  unfolding gemini_attempts
  gemini_attempts-OnlyCalls model input keys start attempt zero w = OnlyCalls-refl 0 w
  gemini_attempts-OnlyCalls model input keys start attempt (suc left) w =
      OnlyCalls-follow left _ w _
        (gemini_attempts-OnlyCalls model input keys start (suc attempt) left (tick w))

  groq_attempts-OnlyCalls :
      (model : Text) (input : RankingInput) (key : Text) (attempt left : ℕ) (w : World)
      → OnlyCalls left w (groq_attempts host model input key attempt left w).1
  unfolding groq_attempts
  groq_attempts-OnlyCalls model input key attempt zero w = OnlyCalls-refl 0 w
  groq_attempts-OnlyCalls model input key attempt (suc left) w =
      OnlyCalls-follow left _ w _
        (groq_attempts-OnlyCalls model input key (suc attempt) left (tick w))

-- A provider's result: nothing, or a payload laid over the baseline, after at most so many calls.
pub record IsReranking (baseline : RankingResponse) (most : ℕ) (w : World)
    (r : Option RankingResponse × World) : Type 0 where
  pub origin :
      (r.0 ≡ none)
      ⊎ ((payload : RankingPayload) × (version : Text) × (r.0
            ≡ some (build_ai_ranking_response payload baseline version)))
  pub calls : OnlyCalls most w r.1

nothing-IsReranking :
    (baseline : RankingResponse) (most : ℕ) (w : World) → IsReranking baseline most w (none, w)
nothing-IsReranking baseline most w = record { origin = inl refl; calls = OnlyCalls-refl most w }

mapped-origin :
    (baseline : RankingResponse) (version : Text) (found : Option RankingPayload)
    → (Option.map (λ payload. build_ai_ranking_response payload baseline version) found ≡ none)
      ⊎ ((payload : RankingPayload) × (v : Text) × (Option.map
              (λ payload. build_ai_ranking_response payload baseline version)
              found
            ≡ some (build_ai_ranking_response payload baseline v)))
mapped-origin baseline version none = inl refl
mapped-origin baseline version (some payload) = inr (payload, version, refl)

-- A reranking returns its baseline or a payload laid over it.
abbrev pub IsOverBaseline : RankingResponse → RankingResponse → Type 0
IsOverBaseline baseline scored =
    (scored ≡ baseline)
    ⊎ ((payload : RankingPayload) × (version : Text) × (scored
          ≡ build_ai_ranking_response payload baseline version))

coalesce-IsOverBaseline :
    (baseline : RankingResponse) (most : ℕ) (w : World) (r : Option RankingResponse × World)
    → IsReranking baseline most w r
    → IsOverBaseline baseline (coalesce r.0 baseline)
coalesce-IsOverBaseline baseline most w (none, v) h = inl refl
coalesce-IsOverBaseline baseline most w (some scored, v) h = elim h.origin [
  | inl e ↦ inl (cc)
  | inr (payload, version, e) ↦ inr (payload, version, cc)
]

prefer_lem :
    (host : Host) (baseline : RankingResponse) (m n : ℕ) (w : World)
    (r : Option RankingResponse × World) (other : Option RankingResponse × World)
    → IsReranking baseline m w r
    → IsReranking baseline n r.1 other
    → IsOverBaseline baseline (prefer host r (coalesce other.0 baseline, other.1)).0
      × OnlyCalls (m + n) w (prefer host r (coalesce other.0 baseline, other.1)).1
prefer_lem host baseline m n w (some scored, v) other h k =
    (coalesce-IsOverBaseline baseline m w (some scored, v) h, OnlyCalls-weaken m n w v h.calls)
prefer_lem host baseline m n w (none, v) other h k =
    (coalesce-IsOverBaseline baseline n v other k, OnlyCalls-trans m n w v other.1 h.calls k.calls)

module _ (host : Host) (job : StoredJob) (candidates : List RankingCandidate)
    (baseline : RankingResponse) (w : World) where
  gemini_run-IsReranking :
      (chosen : List RankingCandidate)
      → IsReranking baseline
          (1 + length (gemini_keys host.env))
          w
          (gemini_run host job chosen baseline w)
  unfolding gemini_run
  gemini_run-IsReranking chosen =
      let keys = gemini_keys host.env in
      let model = gemini_model_name host.env in
      let input = build_ai_ranking_input job chosen baseline in
      let start = host.random_uint32 w.calls % length keys in
      let run = gemini_attempts host model input keys start 0 (length keys) (tick w) in
      record {
        origin = mapped-origin baseline (units "gemini-ai-rerank-v1:" ++ model) run.0;
        calls =
            OnlyCalls-trans 1 (length keys) w (tick w) run.1 (OnlyCalls-tick 0 w)
              (gemini_attempts-OnlyCalls host model input keys start 0 (length keys) (tick w));
      }

  call_gemini_ranking-IsReranking :
      IsReranking baseline
        (1 + length (gemini_keys host.env))
        w
        (call_gemini_ranking host job candidates baseline w)
  unfolding call_gemini_ranking
  call_gemini_ranking-IsReranking =
      let chosen = chosen_candidates host candidates baseline in
      if-both (IsReranking baseline (1 + length (gemini_keys host.env)) w)
        (length (gemini_keys host.env) == 0 || length chosen == 0) (none, w)
        (gemini_run host job chosen baseline w) (nothing-IsReranking baseline _ w)
        (gemini_run-IsReranking chosen)

  groq_run-IsReranking :
      (chosen : List RankingCandidate)
      → IsReranking baseline 3 w (groq_run host job chosen baseline w)
  unfolding groq_run
  groq_run-IsReranking chosen =
      let model = groq_model_name host.env in
      let input = build_ai_ranking_input job chosen baseline in
      let run = groq_attempts host model input (groq_key host.env) 0 3 w in
      record {
        origin = mapped-origin baseline (units "groq-ai-rerank-v1:" ++ model) run.0;
        calls = groq_attempts-OnlyCalls host model input (groq_key host.env) 0 3 w;
      }

  call_groq_ranking-IsReranking :
      IsReranking baseline 3 w (call_groq_ranking host job candidates baseline w)
  unfolding call_groq_ranking
  call_groq_ranking-IsReranking =
      let chosen = chosen_candidates host candidates baseline in
      if-both (IsReranking baseline 3 w) (not (truthy (groq_key host.env)) || length chosen == 0)
        (none, w) (groq_run host job chosen baseline w) (nothing-IsReranking baseline 3 w)
        (groq_run-IsReranking chosen)

-- Reranking returns the baseline as it came, or a payload laid over it by `buildAIRankingResponse`.
-- It writes nothing, in memory or on disk, and makes at most one call for each Gemini key and four
-- more.
pub rerank_lem :
    (host : Host) (job : StoredJob) (candidates : List RankingCandidate)
    (baseline : RankingResponse) (w : World)
    → IsOverBaseline baseline (rerank host job candidates baseline w).0
      × OnlyCalls
          (1 + length (gemini_keys host.env) + 3)
          w
          (rerank host job candidates baseline w).1
unfolding rerank
rerank_lem host job candidates baseline w =
    let by_gemini = call_gemini_ranking host job candidates baseline w in
    prefer_lem host baseline (1 + length (gemini_keys host.env)) 3 w by_gemini
      (call_groq_ranking host job candidates baseline by_gemini.1)
      (call_gemini_ranking-IsReranking host job candidates baseline w)
      (call_groq_ranking-IsReranking host job candidates baseline by_gemini.1)
