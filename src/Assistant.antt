-- ===== src/Assistant.antt =====
-- The job-description assistant of frontend/app/api/jd-assistant/route.ts: conversations kept by
-- thread, and an edit by Gemini, by Groq or by local rules. Its settings are read as the ranking route
-- reads them: `geminiKeys`, `geminiModelName`, `groqKey` and `groqModelName` have the same text in
-- both files. What is written to the console is left out.
pub mod Types
pub mod Edit
pub mod Laws
pub mod Keys
use cvranking.Prelude.{
  ℕ, zero, suc, ◌+◌, ◌%◌, Bool, true, false, ◌&&◌, not, Option, none, some, List, [], ◌∷◌, ◌++◌,
  map, take_last, get_elem?, coalesce, length, ltb, ◌==◌, if◌then◌else◌,
}
use cvranking.Js.Map.{map_get, map_set}
use cvranking.Js.Text.{Text, units, truthy, or_else, trim, join}
use cvranking.Host.{Fetched, unreachable, answered}
use cvranking.Host.Action.{Thrown, demo_problem, error, other, Result, ok, throw}
use cvranking.Rerank.Keys.{Env, gemini_keys, gemini_model_name, groq_key, groq_model_name}
use cvranking.Rerank.Providers.{gemini_text, groq_text, json_text, is_ok_status}
use cvranking.Rerank.Types.{GeminiResponse, GroqResponse}
use cvranking.Upload.{message_or}
use cvranking.Assistant.Types.{
  Role, user, model, AssistantTurn, AssistantRequest, Question, ReplyFields, AssistantHost,
  AssistantState, asked, Sourced, sourced, AssistantBody, problem, edited, AssistantResponse,
  refused, AssistantResult,
}
use cvranking.Assistant.Edit.{normalize_jd, local_fallback}

unfoldable pub clamp_history : List AssistantTurn → List AssistantTurn
clamp_history history = take_last 8 history

unfoldable pub assistant_system_prompt : Text
assistant_system_prompt = join (10 ∷ []) (
    units "You are an HR job-description editing assistant for a CV ranking product."
    ∷ units
        "Rewrite the current JD according to the user's instruction while preserving truthful scope."
    ∷ units
        "Keep the JD structured with headings: About the role, Key responsibilities, Requirements, Nice to have."
    ∷ units
        "Make requirements explicit and parse-friendly for CV ranking. Do not invent extreme requirements unless asked."
    ∷ units "Return strict JSON only with keys: reply, revised_jd."
    ∷ [])

unfoldable pub question_of : (title jd message : Text) → List AssistantTurn → Question
question_of title jd message history = record {
  turns = clamp_history history;
  current_title = title;
  current_jd = jd;
  instruction = message;
}

-- The fields of a reply, where a missing one is thrown over.
unfoldable pub result_of : ReplyFields → Option AssistantResult
result_of fields = elim fields.reply [
  | none ↦ none
  | some reply ↦ elim fields.revised_jd [
    | none ↦ none
    | some revised_jd ↦ some (record { reply = trim reply; revised_jd = normalize_jd revised_jd })
  ]
]

-- The rest of the loop over the keys after one answer in state `s`, where `next` is what the later
-- rounds return.
abbrev pub or_next :
    Option AssistantResult
    → AssistantState
    → Option AssistantResult × AssistantState
    → Option AssistantResult × AssistantState
or_next (some result) s next = (some result, s)
or_next none s next = next

module _ (host : AssistantHost) where
  unfoldable pub extract_json : Text → Option AssistantResult
  extract_json text = elim (host.parse_reply (json_text text)) [
    | none ↦ none
    | some fields ↦ result_of fields
  ]

  -- The result in a text that is not empty.
  abbrev result_in : Text → Option AssistantResult
  result_in [] = none
  result_in (c ∷ text) = extract_json (c ∷ text)

  -- Every failure leads to `none`, and to the next key.
  unfoldable pub gemini_result : Fetched GeminiResponse → Option AssistantResult
  gemini_result (unreachable message) = none
  gemini_result (answered status body none) = none
  gemini_result (answered status body (some payload)) =
      if is_ok_status status then result_in (gemini_text payload) else none

  -- One round of the loop: the cursor is moved behind the key, and the key is tried.
  unfoldable pub move_cursor : (keys : List Text) (key_index : ℕ) → AssistantState → AssistantState
  move_cursor keys key_index s = record s {
    gemini_key_cursor = some ((key_index + 1) % length keys);
  }

  unfoldable pub gemini_rounds :
      (keys : List Text)
      → Question
      → (start attempt left : ℕ) → AssistantState
      → Option AssistantResult × AssistantState
  gemini_rounds keys question start attempt zero s = (none, s)
  gemini_rounds keys question start attempt (suc left) s =
      let key_index = (start + attempt) % length keys in
      let key = coalesce (get_elem? keys key_index) [] in
      let moved = move_cursor keys key_index s in
      let answer =
        host.ask_gemini s.calls (gemini_model_name host.env) key assistant_system_prompt question in
      let next = gemini_rounds keys question start (suc attempt) left (asked moved) in
      or_next (gemini_result answer) (asked moved) next

  -- Without a key no round is made.
  unfoldable pub call_gemini : Question → AssistantState → Option AssistantResult × AssistantState
  call_gemini question s =
      let keys = gemini_keys host.env in
      gemini_rounds keys question (coalesce s.gemini_key_cursor 0) 0 (length keys) s

  unfoldable pub groq_result : Fetched GroqResponse → Option AssistantResult
  groq_result (unreachable message) = none
  groq_result (answered status body none) = none
  groq_result (answered status body (some payload)) =
      if is_ok_status status then result_in (groq_text payload) else none

  unfoldable pub call_groq : Question → AssistantState → Option AssistantResult × AssistantState
  call_groq question s =
      if truthy (groq_key host.env)
      then (
        groq_result (
            host.ask_groq s.calls (groq_model_name host.env) (groq_key host.env)
              assistant_system_prompt question),
        asked s,
      )
      else (none, s)

  -- `(await callGroq(…)) ?? { ...localFallback(…) }`.
  unfoldable pub or_fallback :
      (title jd message : Text) → Option AssistantResult × AssistantState → Sourced × AssistantState
  or_fallback title jd message (some result, s) =
      (sourced result (units "groq") (groq_model_name host.env), s)
  or_fallback title jd message (none, s) = (
    sourced (local_fallback host.lower_case title jd message) (units "local_fallback")
        (units "local-jd-rules-v1"),
    s,
  )

  -- `(await callGemini(…)) ?? …`.
  unfoldable pub or_groq :
      (title jd message : Text)
      → Question
      → Option AssistantResult × AssistantState
      → Sourced × AssistantState
  or_groq title jd message question (some result, s) =
      (sourced result (units "gemini") (gemini_model_name host.env), s)
  or_groq title jd message question (none, s) = or_fallback title jd message (call_groq question s)

-- The last 12 turns, with the new ones.
unfoldable pub next_history : List AssistantTurn → (message reply : Text) → List AssistantTurn
next_history history message reply = take_last 12 (
    history
    ++ (record { role = user; text = message } ∷ record { role = model; text = reply } ∷ []))

module _ (host : AssistantHost) where
  -- `body.thread_id || crypto.randomUUID()`.
  unfoldable pub thread_of : Option Text → AssistantState → Text × AssistantState
  thread_of (some (c ∷ id)) s = (c ∷ id, s)
  thread_of _ s = (host.random_uuid s.calls, asked s)

  -- The history as it stands after the question.
  unfoldable pub history_of : Text → AssistantState → List AssistantTurn
  history_of thread_id s = coalesce (map_get thread_id s.threads) []

  -- The handler past its guards, in a thread.
  unfoldable pub edit :
      (title jd message : Text)
      → (thread_id : Text) → AssistantState
      → AssistantResponse × AssistantState
  edit title jd message thread_id s =
      let history = history_of thread_id s in
      let question = question_of title jd message history in
      let (result, s') = or_groq host title jd message question (call_gemini host question s) in
      let turns = next_history history message result.result.reply in
      (
        record {
          status = 200;
          body =
              edited thread_id result (length turns) (ltb 0 (length (gemini_keys host.env)))
                (truthy (groq_key host.env));
        },
        record s' { threads = map_set thread_id turns s'.threads },
      )

  unfoldable pub edit_in :
      (title jd message : Text) → Text × AssistantState → AssistantResponse × AssistantState
  edit_in title jd message (thread_id, s) = edit title jd message thread_id s

  unfoldable pub post_request :
      AssistantRequest → AssistantState → AssistantResponse × AssistantState
  post_request body s =
      let title =
        or_else (trim (coalesce body.title (units "Untitled role"))) (units "Untitled role") in
      let jd = trim (coalesce body.jd []) in
      let message = trim (coalesce body.message []) in
      if ltb (length jd) 20
      then (refused 422 (units "JD cần ít nhất 20 ký tự."), s)
      else if ltb (length message) 2
      then (refused 422 (units "Nhập yêu cầu bạn muốn AI chỉnh JD."), s)
      else edit_in title jd message (thread_of body.thread_id s)

  -- `POST`, where reading the body may throw.
  unfoldable pub post :
      Result AssistantRequest → AssistantState → AssistantResponse × AssistantState
  post (ok body) s = post_request body s
  post (throw thrown) s =
      (refused 500 (message_or thrown (units "Không thể chạy JD assistant.")), s)
