-- ===== src/Assistant/Keys.antt =====
-- How the assistant goes round the Gemini keys.
use native.Mathlib.Nat.{mod-lt}
use cvranking.Prelude.{
  ℕ, zero, suc, ◌+◌, ◌%◌, ◌≤◌, ◌<◌, ◌≡◌, refl, sym, ◌∙◌, ◌⊎◌, inl, inr, Option, none, some, List,
  [], length, coalesce, get_elem?, arith,
}
use cvranking.Js.Text.{Text}
use cvranking.Rerank.Keys.{gemini_keys, gemini_model_name}
use cvranking.Rerank.Providers.Retry.{turn_of, turn_of-lt, turn_of_lem}
use cvranking.Assistant.Types.{Question, AssistantHost, AssistantState, AssistantResult}
use cvranking.Assistant.{
  assistant_system_prompt, call_gemini, gemini_rounds, move_cursor, or_next, gemini_result,
}

module _ (host : AssistantHost) (question : Question) where
  -- What Gemini's answer to a question, asked at some time with a key, comes to.
  abbrev pub result_with : ℕ → (key : Text) → Option AssistantResult
  result_with call key =
      gemini_result host
        (host.ask_gemini call (gemini_model_name host.env) key assistant_system_prompt question)

  abbrev pub key_of : List Text → ℕ → Text
  key_of keys i = coalesce (get_elem? keys i) []

  -- A search over the keys ends with a result by one of the keys, behind which the cursor then stands,
  -- or without a result; it makes at most so many calls.
  record IsRound (keys : List Text) (most : ℕ) (s : AssistantState)
      (found : Option AssistantResult × AssistantState) : Type 0 where
    pub by_key :
        (result : AssistantResult)
        → found.0 ≡ some result
        → (k : ℕ) × (call : ℕ) × (k < length keys)
          × (result_with call (key_of keys k) ≡ some result)
          × (found.1.gemini_key_cursor ≡ some ((k + 1) % length keys))
    pub calls : found.1.calls ≤ s.calls + most

  IsRound-or_next :
      (keys : List Text) (most k : ℕ) (s moved : AssistantState)
      (next : Option AssistantResult × AssistantState)
      → k < length keys
      → moved.calls ≡ suc s.calls
      → moved.gemini_key_cursor ≡ some ((k + 1) % length keys)
      → IsRound keys most moved next
      → (v : Option AssistantResult) → v ≡ result_with s.calls (key_of keys k)
      → IsRound keys (suc most) s (or_next v moved next)
  IsRound-or_next keys most k s moved next small e c h (some result) v = record {
    by_key = λ r same. (k, s.calls, small, sym v ∙ same, c);
    calls = omega arith;
  }
  IsRound-or_next keys most k s moved next small e c h none v = record {
    by_key = h.by_key;
    calls = (let bound = h.calls in omega arith);
  }

  gemini_rounds-IsRound :
      (keys : List Text) (start attempt left : ℕ) (s : AssistantState)
      → 0 < length keys
      → IsRound keys left s (gemini_rounds host keys question start attempt left s)
  unfolding gemini_rounds move_cursor
  gemini_rounds-IsRound keys start attempt zero s some_key = record {
    by_key = λ r same. cc same;
    calls = omega arith;
  }
  gemini_rounds-IsRound keys start attempt (suc left) s some_key =
      IsRound-or_next keys left ((start + attempt) % length keys) s _ _
        (mod-lt (start + attempt) some_key) refl refl
        (gemini_rounds-IsRound keys start (suc attempt) left _ some_key) _ refl

  -- A result of the search comes from one of the keys, behind which the cursor then stands, so that the
  -- next search starts with the key behind it; and there is at most one call for each key.
  pub call_gemini-by_key :
      (s : AssistantState) (result : AssistantResult)
      → 0 < length (gemini_keys host.env)
      → (call_gemini host question s).0 ≡ some result
      → ((k : ℕ) × (call : ℕ) × (k < length (gemini_keys host.env))
          × (result_with call (key_of (gemini_keys host.env) k) ≡ some result)
          × ((call_gemini host question s).1.gemini_key_cursor
              ≡ some ((k + 1) % length (gemini_keys host.env))))
        × ((call_gemini host question s).1.calls ≤ s.calls + length (gemini_keys host.env))
  unfolding call_gemini
  call_gemini-by_key s result some_key found =
      let keys = gemini_keys host.env in
      let round =
        gemini_rounds-IsRound keys (coalesce s.gemini_key_cursor 0) 0 (length keys) s some_key in
      (round.by_key result found, round.calls)

  or_next-finds :
      (v : Option AssistantResult) (s : AssistantState)
      (next : Option AssistantResult × AssistantState)
      → ((result : AssistantResult) × (v ≡ some result))
        ⊎ ((result : AssistantResult) × (next.0 ≡ some result))
      → (result : AssistantResult) × ((or_next v s next).0 ≡ some result)
  or_next-finds (some result) s next h = (result, refl)
  or_next-finds none s next (inl (result, e)) = cc e
  or_next-finds none s next (inr h) = h

  gemini_rounds-finds :
      (keys : List Text) (start left attempt i : ℕ) (s : AssistantState)
      → i < left
      → ((call : ℕ)
          → (result : AssistantResult) × (result_with call
                (key_of keys ((start + (attempt + i)) % length keys))
              ≡ some result))
      → (result : AssistantResult) × ((gemini_rounds host keys question start attempt left s).0
          ≡ some result)
  unfolding gemini_rounds
  gemini_rounds-finds keys start zero attempt i s h works = absurd (omega arith)
  gemini_rounds-finds keys start (suc left) attempt zero s h works =
      let e : attempt + 0 ≡ attempt = omega arith in
      or_next-finds _ _ _ (inl (rw e at (works s.calls)))
  gemini_rounds-finds keys start (suc left) attempt (suc i) s h works =
      let e : attempt + suc i ≡ suc attempt + i = omega arith in
      or_next-finds _ _ _
        (inr (gemini_rounds-finds keys start left (suc attempt) i _ (omega arith) (rw e at works)))

  -- The cursor is that of no key, or of one of the keys.
  abbrev pub CursorFits : AssistantState → Type 0
  CursorFits s = coalesce s.gemini_key_cursor 0 < length (gemini_keys host.env)

  -- Where the cursor stands at one of the keys and one of them gets a usable answer whenever it is used,
  -- the search finds a result.
  pub call_gemini-finds :
      (s : AssistantState) (k : ℕ)
      → CursorFits s
      → k < length (gemini_keys host.env)
      → ((call : ℕ)
          → (result : AssistantResult) × (result_with call (key_of (gemini_keys host.env) k)
              ≡ some result))
      → (result : AssistantResult) × ((call_gemini host question s).0 ≡ some result)
  unfolding call_gemini
  call_gemini-finds s k fits h works =
      let keys = gemini_keys host.env in
      let start = coalesce s.gemini_key_cursor 0 in
      gemini_rounds-finds keys start (length keys) 0 (turn_of start (length keys) k) s
        (turn_of-lt start (length keys) k fits h)
        (rw (turn_of_lem start (length keys) k fits h) works)
