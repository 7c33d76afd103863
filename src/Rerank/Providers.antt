-- ===== src/Rerank/Providers.antt =====
-- `extractGeminiJSON`, `callGeminiRanking` and `callGroqRanking` of
-- frontend/app/api/ranking-test/route.ts. Waiting between two requests and the warnings written to
-- the console leave no trace in the state.
pub mod Laws
pub mod Retry
pub mod Limit
use cvranking.Prelude.{
  ℕ, zero, suc, ◌+◌, ◌%◌, Bool, true, false, ◌&&◌, ◌||◌, not, Option, none, some, List, [], ◌∷◌,
  ◌++◌, map, get_elem?, coalesce, length, ltb, leb, ◌==◌, if◌then◌else◌,
}
use mathlib.Core.Option
use cvranking.Js.Text.{
  Text, units, truthy, trim, trim_start, join, strip_prefix_ci, index_of, last_index_of, slice,
}
use cvranking.Host.{Host, World, Fetched, unreachable, answered, tick}
use cvranking.Store.Types.{RankingCandidate, RankingResponse, StoredJob}
use cvranking.Rerank.Input.{select_candidates_for_ai, build_ai_ranking_input, ranking_system_prompt}
use cvranking.Rerank.Keys.{
  gemini_keys, gemini_model_name, groq_key, groq_model_name, ai_candidate_limit,
}
use cvranking.Rerank.Merge.{build_ai_ranking_response}
use cvranking.Rerank.Types.{
  AiResult, RankingInput, RankingPayload, GeminiCandidate, GeminiResponse, GroqChoice, GroqResponse,
}

-- `replace(/^<fence>\s*/i, "")`.
drop_fence : Text → Text → Text
drop_fence fence s = elim (strip_prefix_ci fence s) [ none ↦ s | some rest ↦ trim_start rest ]

-- `replace(/```$/, "")`.
unfoldable pub drop_closing_fence : Text → Text
drop_closing_fence [] = []
drop_closing_fence (c ∷ s) =
    let rest = c ∷ drop_closing_fence s in
    if c == b'`' && (length s == 2)
    then elim s [
      | [] ↦ rest
      | d ∷ t ↦
          if d == b'`' then elim t [ [] ↦ rest | e ∷ u ↦ if e == b'`' then [] else rest ] else rest
    ]
    else rest

-- The text that is handed to `JSON.parse`: without Markdown fences, from the first opening brace to
-- the last closing one.
unfoldable pub json_text : Text → Text
unfolding drop_fence
json_text text =
    let cleaned =
      trim (
        drop_closing_fence (drop_fence (units "```") (drop_fence (units "```json") (trim text)))) in
    elim (index_of b'{' cleaned) [
      | none ↦ cleaned
      | some start ↦ elim (last_index_of b'}' cleaned) [
        | none ↦ cleaned
        | some end ↦ if ltb start end then slice start (suc end) cleaned else cleaned
      ]
    ]

-- `results?.length` is not zero.
unfoldable pub has_results : RankingPayload → Bool
has_results payload = elim payload.results [ none ↦ false | some [] ↦ false | some (r ∷ rs) ↦ true ]

abbrev pub is_ok_status : ℕ → Bool
is_ok_status status = leb 200 status && leb status 299

-- `payload.candidates?.[0]?.content?.parts?.map((part) => part.text ?? "").join("\n").trim()`.
unfoldable pub gemini_text : GeminiResponse → Text
gemini_text payload = elim payload.candidates [
  | none ↦ []
  | some [] ↦ []
  | some (candidate ∷ rest) ↦ elim candidate.content [
    | none ↦ []
    | some content ↦ elim content.parts [
      | none ↦ []
      | some parts ↦ trim (join (10 ∷ []) (map (λ part. coalesce part []) parts))
    ]
  ]
]

-- `payload.choices?.[0]?.message?.content?.trim()`.
unfoldable pub groq_text : GroqResponse → Text
groq_text payload = elim payload.choices [
  | none ↦ []
  | some [] ↦ []
  | some (choice ∷ rest) ↦ elim choice.message [
    | none ↦ []
    | some message ↦ trim (coalesce message.content [])
  ]
]

-- What one answer of a provider leads to: its payload is taken, the next request is made, or the
-- provider is given up.
pub data Verdict : Type 0 where
  taken : RankingPayload → Verdict
  again : Verdict
  given_up : Verdict

-- The rest of a loop after one request made in state `w`, where `next` is what the later rounds
-- return.
abbrev pub follow : Verdict → World → Option RankingPayload × World → Option RankingPayload × World
follow (taken payload) w next = (some payload, tick w)
follow again w next = next
follow given_up w next = (none, tick w)

module _ (host : Host) where
  -- Every failure moves on to the next key.
  unfoldable pub gemini_verdict : Fetched GeminiResponse → Verdict
  gemini_verdict (unreachable message) = again
  gemini_verdict (answered status body none) = again
  gemini_verdict (answered status body (some payload)) =
      let text = gemini_text payload in
      if is_ok_status status && truthy text
      then elim (host.parse_payload (json_text text)) [
        | none ↦ again
        | some parsed ↦ if has_results parsed then taken parsed else again
      ]
      else again

  -- The body of the loop over the keys, with the attempts left.
  unfoldable pub gemini_attempts :
      (model : Text) (input : RankingInput) (keys : List Text) (start attempt left : ℕ) (w : World)
      → Option RankingPayload × World
  gemini_attempts model input keys start attempt zero w = (none, w)
  gemini_attempts model input keys start attempt (suc left) w =
      let key = coalesce (get_elem? keys ((start + attempt) % length keys)) [] in
      let next = gemini_attempts model input keys start (suc attempt) left (tick w) in
      follow (gemini_verdict (host.gemini w.calls model key ranking_system_prompt input)) w next

  -- The part of `callGeminiRanking` after its early return.
  unfoldable pub gemini_run :
      StoredJob
      → (chosen : List RankingCandidate) → RankingResponse
      → World
      → Option RankingResponse × World
  gemini_run job chosen baseline w =
      let keys = gemini_keys host.env in
      let model = gemini_model_name host.env in
      let start = host.random_uint32 w.calls % length keys in
      let (found, w') =
        gemini_attempts model (build_ai_ranking_input job chosen baseline) keys start 0
          (length keys) (tick w) in
      (
        Option.map
            (λ payload.
              build_ai_ranking_response payload baseline (units "gemini-ai-rerank-v1:" ++ model))
            found,
        w',
      )

  unfoldable pub chosen_candidates : List RankingCandidate → RankingResponse → List RankingCandidate
  chosen_candidates candidates baseline =
      select_candidates_for_ai (ai_candidate_limit host.to_number host.env) candidates baseline

  unfoldable pub call_gemini_ranking :
      StoredJob → List RankingCandidate → RankingResponse → World → Option RankingResponse × World
  call_gemini_ranking job candidates baseline w =
      let chosen = chosen_candidates candidates baseline in
      if length (gemini_keys host.env) == 0 || length chosen == 0
      then (none, w)
      else gemini_run job chosen baseline w

  -- With `attempt < 2` a thrown error and the status 429 lead to another request.
  unfoldable pub groq_verdict : (attempt : ℕ) → Fetched GroqResponse → Verdict
  groq_verdict attempt (unreachable message) = if ltb attempt 2 then again else given_up
  groq_verdict attempt (answered status body none) = if ltb attempt 2 then again else given_up
  groq_verdict attempt (answered status body (some payload)) =
      if is_ok_status status
      then (let text = groq_text payload in
          if truthy text
          then elim (host.parse_payload (json_text text)) [
            | none ↦ if ltb attempt 2 then again else given_up
            | some parsed ↦ if has_results parsed then taken parsed else given_up
          ]
          else given_up)
      else if status == 429 && ltb attempt 2
      then again
      else given_up

  unfoldable pub groq_attempts :
      (model : Text) (input : RankingInput) (key : Text) (attempt left : ℕ) (w : World)
      → Option RankingPayload × World
  groq_attempts model input key attempt zero w = (none, w)
  groq_attempts model input key attempt (suc left) w =
      let next = groq_attempts model input key (suc attempt) left (tick w) in
      follow (groq_verdict attempt (host.groq w.calls model key ranking_system_prompt input)) w next

  -- The part of `callGroqRanking` after its early return.
  unfoldable pub groq_run :
      StoredJob
      → (chosen : List RankingCandidate) → RankingResponse
      → World
      → Option RankingResponse × World
  groq_run job chosen baseline w =
      let model = groq_model_name host.env in
      let (found, w') =
        groq_attempts model (build_ai_ranking_input job chosen baseline) (groq_key host.env) 0 3
          w in
      (
        Option.map
            (λ payload.
              build_ai_ranking_response payload baseline (units "groq-ai-rerank-v1:" ++ model))
            found,
        w',
      )

  unfoldable pub call_groq_ranking :
      StoredJob → List RankingCandidate → RankingResponse → World → Option RankingResponse × World
  call_groq_ranking job candidates baseline w =
      let chosen = chosen_candidates candidates baseline in
      if not (truthy (groq_key host.env)) || length chosen == 0
      then (none, w)
      else groq_run job chosen baseline w

  -- `a ?? b` where `b` is another call.
  abbrev pub prefer :
      Option RankingResponse × World → RankingResponse × World → RankingResponse × World
  prefer (some scored, w) other = (scored, w)
  prefer (none, w) other = other

  -- `(await callGeminiRanking(…)) ?? (await callGroqRanking(…)) ?? baselineScored`.
  unfoldable pub rerank :
      StoredJob → List RankingCandidate → RankingResponse → World → RankingResponse × World
  rerank job candidates baseline w =
      let by_gemini = call_gemini_ranking job candidates baseline w in
      let by_groq = call_groq_ranking job candidates baseline by_gemini.1 in
      prefer by_gemini (coalesce by_groq.0 baseline, by_groq.1)
