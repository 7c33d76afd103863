-- ===== src/Assistant/Laws.antt =====
-- What a request to the assistant leaves in the threads.
use cvranking.Prelude.{
  ℕ, zero, suc, ◌+◌, ◌-◌, ◌≤◌, ◌≡◌, ◌≢◌, refl, sym, ap, ◌∙◌, inl, inr, true, false, Option, none,
  some, List, [], ◌∷◌, ◌++◌, length, length-append, length-drop, coalesce, drop, ltb, Bool-cases,
  All, All-append, min, arith,
}
use mathlib.Core.Path.{subst}
use cvranking.Js.Map.{map_get, map_set, map_get-map_set}
use cvranking.Js.Text.{Text, text_eq_refl, text_eq_iff, trim, truthy}
use cvranking.Host.Action.{Result, ok, throw}
use cvranking.Rerank.Keys.{gemini_keys, groq_key}
use cvranking.Assistant.Types.{
  user, model, AssistantTurn, AssistantRequest, Question, AssistantHost, AssistantState, Sourced,
  edited, AssistantResponse, AssistantResult,
}
use cvranking.Assistant.{
  next_history, history_of, thread_of, edit, edit_in, post_request, post, question_of, call_gemini,
  gemini_rounds, move_cursor, or_next, or_groq, or_fallback, call_groq,
}

or_next-threads :
    (found : Option AssistantResult) (s : AssistantState)
    (next : Option AssistantResult × AssistantState) (threads : List (Text × List AssistantTurn))
    → s.threads ≡ threads
    → next.1.threads ≡ threads
    → (or_next found s next).1.threads ≡ threads
or_next-threads (some result) s next threads h k = h
or_next-threads none s next threads h k = k

module _ (thread_id : Text) (turns : List AssistantTurn)
    (threads : List (Text × List AssistantTurn)) where
  set_self : coalesce (map_get thread_id (map_set thread_id turns threads)) [] ≡ turns
  set_self = rw (map_get-map_set thread_id thread_id turns threads, text_eq_refl thread_id)

  set_ne :
      (other : Text)
      → thread_id ≢ other
      → map_get other (map_set thread_id turns threads) ≡ map_get other threads
  set_ne other h =
      map_get-map_set thread_id other turns threads ∙ ground (arith, text_eq_iff thread_id other)

-- Each thread has 12 turns at most.
abbrev pub ThreadsAreShort : AssistantState → Type 0
ThreadsAreShort s = All (λ e. length e.1 ≤ 12) s.threads

-- What a request adds to a thread.
abbrev pub added_turns : (message reply : Text) → List AssistantTurn
added_turns message reply =
    record { role = user; text = message } ∷ record { role = model; text = reply } ∷ []

drop-suffix : {A : Type 0} (n : ℕ) (xs : List A) → (front : List A) × (xs ≡ front ++ drop n xs)
drop-suffix zero xs = ([], refl)
drop-suffix (suc n) [] = ([], refl)
drop-suffix (suc n) (x ∷ xs) = let (front, e) = drop-suffix n xs in (x ∷ front, ap (◌∷◌ x) e)

-- The new turns are the end of what there was with the message and the reply behind it.
next_history-suffix :
    (history : List AssistantTurn) (message reply : Text)
    → (earlier : List AssistantTurn) × (history ++ added_turns message reply
        ≡ earlier ++ next_history history message reply)
unfolding next_history
next_history-suffix history message reply = drop-suffix _ (history ++ added_turns message reply)

length-next_history :
    (history : List AssistantTurn) (message reply : Text)
    → length (next_history history message reply) ≡ min 12 (length history + 2)
unfolding next_history
length-next_history history message reply =
    let added =
      record { role = user; text = message } ∷ record { role = model; text = reply } ∷ [] in
    let total : length (history ++ added) ≡ length history + 2 = length-append history added in
    omega (arith, length-drop (length (history ++ added) - 12) (history ++ added))

module _ (host : AssistantHost) where
  gemini_rounds-threads :
      (keys : List Text) (question : Question) (start attempt left : ℕ) (s : AssistantState)
      → (gemini_rounds host keys question start attempt left s).1.threads ≡ s.threads
  unfolding gemini_rounds move_cursor
  gemini_rounds-threads keys question start attempt zero s = refl
  gemini_rounds-threads keys question start attempt (suc left) s =
      or_next-threads _ _ _ s.threads refl
        (gemini_rounds-threads keys question start (suc attempt) left _)

  or_fallback-threads :
      (title jd message : Text) (answer : Option AssistantResult × AssistantState)
      → (or_fallback host title jd message answer).1.threads ≡ answer.1.threads
  unfolding or_fallback
  or_fallback-threads title jd message (some result, s) = refl
  or_fallback-threads title jd message (none, s) = refl

  call_groq-threads :
      (question : Question) (s : AssistantState) → (call_groq host question s).1.threads ≡ s.threads
  unfolding call_groq
  call_groq-threads question s = ground arith

  or_groq-threads :
      (title jd message : Text) (question : Question)
      (answer : Option AssistantResult × AssistantState)
      → (or_groq host title jd message question answer).1.threads ≡ answer.1.threads
  unfolding or_groq
  or_groq-threads title jd message question (some result, s) = refl
  or_groq-threads title jd message question (none, s) =
      or_fallback-threads title jd message (call_groq host question s)
      ∙ call_groq-threads question s

  -- The state after the providers were asked.
  abbrev sourced_in :
      (title jd message thread_id : Text) → AssistantState → Sourced × AssistantState
  sourced_in title jd message thread_id s =
      let question = question_of title jd message (history_of host thread_id s) in
      or_groq host title jd message question (call_gemini host question s)

  sourced_in-threads :
      (title jd message thread_id : Text) (s : AssistantState)
      → (sourced_in title jd message thread_id s).1.threads ≡ s.threads
  unfolding call_gemini
  sourced_in-threads title jd message thread_id s =
      or_groq-threads title jd message _ _
      ∙ gemini_rounds-threads (gemini_keys host.env) _ _ 0 (length (gemini_keys host.env)) s

  -- The answer to an edit in a thread: status 200, with a result of one of the three sources and the
  -- number of turns. The thread is what it was with the message and the reply behind it, but for its
  -- earlier turns, so many that 12 are left at most.
  pub record IsEdited (thread_id message : Text) (s : AssistantState)
      (answer : AssistantResponse × AssistantState) : Type 0 where
    pub result : Sourced
    pub answered : answer.0 ≡ record {
      status = 200;
      body =
          edited thread_id result
            (min 12 (length (history_of host thread_id s) + 2))
            (ltb 0 (length (gemini_keys host.env)))
            (truthy (groq_key host.env));
    }
    pub earlier : List AssistantTurn
    pub history :
        history_of host thread_id s ++ added_turns message result.result.reply
        ≡ earlier ++ history_of host thread_id answer.1
    pub kept :
        length (history_of host thread_id answer.1)
        ≡ min 12 (length (history_of host thread_id s) + 2)

  edit-IsEdited :
      (title jd message thread_id : Text) (s : AssistantState)
      → IsEdited thread_id message s (edit host title jd message thread_id s)
  unfolding edit history_of
  edit-IsEdited title jd message thread_id s =
      let (result, s') = sourced_in title jd message thread_id s in
      let turns = next_history (history_of host thread_id s) message result.result.reply in
      let (earlier, split) =
        next_history-suffix (history_of host thread_id s) message result.result.reply in
      let new = set_self thread_id turns s'.threads in
      record {
        result = result;
        answered =
            rw (length-next_history (history_of host thread_id s) message result.result.reply) refl;
        earlier = earlier;
        history = split ∙ ap (◌++◌ earlier) (sym new);
        kept =
            ap length new
            ∙ length-next_history (history_of host thread_id s) message result.result.reply;
      }

  -- The request passes the two guards.
  pub record IsAsked (body : AssistantRequest) : Type 0 where
    pub jd : 20 ≤ length (trim (coalesce body.jd []))
    pub message : 2 ≤ length (trim (coalesce body.message []))

  -- A request with a thread id, a description of 20 and a message of 2 units, both trimmed, is answered
  -- with status 200, whatever the providers answer. Its thread is what it was with the message and the
  -- reply behind it, cut to the last 12 turns, and their number is in the answer.
  pub post-IsEdited :
      (body : AssistantRequest) (s : AssistantState) (thread_id : Text)
      → IsAsked body
      → body.thread_id ≡ some thread_id
      → truthy thread_id ≡ true
      → IsEdited thread_id (trim (coalesce body.message [])) s (post host (ok body) s)
  unfolding post post_request edit_in thread_of
  post-IsEdited body s [] asks e t = cc t
  post-IsEdited body s (c ∷ id) asks e t =
      let long : ltb (length (trim (coalesce body.jd []))) 20 ≡ false =
        (let h = asks.jd in ground arith) in
      let told : ltb (length (trim (coalesce body.message []))) 2 ≡ false =
        (let h = asks.message in ground arith) in
      rw (long, told, e) (edit-IsEdited _ _ _ (c ∷ id) s)

  edit-other_threads :
      (title jd message thread_id other : Text) (s : AssistantState)
      → thread_id ≢ other
      → history_of host other (edit host title jd message thread_id s).1 ≡ history_of host other s
  unfolding edit history_of
  edit-other_threads title jd message thread_id other s h =
      let (result, s') = sourced_in title jd message thread_id s in
      let turns = next_history (history_of host thread_id s) message result.result.reply in
      ap (λ found. coalesce found [])
        (set_ne thread_id turns s'.threads other h
          ∙ ap (map_get other) (sourced_in-threads title jd message thread_id s))

  -- A request with a thread id leaves every other thread as it was, whatever its answer is.
  pub post-other_threads :
      (body : AssistantRequest) (s : AssistantState) (thread_id other : Text)
      → body.thread_id ≡ some thread_id
      → truthy thread_id ≡ true
      → thread_id ≢ other
      → history_of host other (post host (ok body) s).1 ≡ history_of host other s
  unfolding post post_request edit_in thread_of
  post-other_threads body s [] other e t h = cc t
  post-other_threads body s (c ∷ id) other e t h =
      elim (Bool-cases (ltb (length (trim (coalesce body.jd []))) 20)) [
        | inl short ↦ rw short refl
        | inr long ↦ elim (Bool-cases (ltb (length (trim (coalesce body.message []))) 2)) [
          | inl untold ↦ rw (long, untold) refl
          | inr told ↦ rw (long, told, e) (edit-other_threads _ _ _ (c ∷ id) other s h)
        ]
      ]

  edit-ThreadsAreShort :
      (title jd message thread_id : Text) (s : AssistantState)
      → ThreadsAreShort s
      → ThreadsAreShort (edit host title jd message thread_id s).1
  unfolding edit map_set
  edit-ThreadsAreShort title jd message thread_id s h =
      let (result, s') = sourced_in title jd message thread_id s in
      let turns = length-next_history (history_of host thread_id s) message result.result.reply in
      All-append (λ e. length e.1 ≤ 12) s'.threads _
        (subst (All (λ e. length e.1 ≤ 12)) (sym (sourced_in-threads title jd message thread_id s))
          h)
        (omega arith, tt)

  thread_of-threads :
      (given : Option Text) (s : AssistantState) → (thread_of host given s).1.threads ≡ s.threads
  unfolding thread_of
  thread_of-threads none s = refl
  thread_of-threads (some []) s = refl
  thread_of-threads (some (c ∷ id)) s = refl

  post_request-ThreadsAreShort :
      (body : AssistantRequest) (s : AssistantState)
      → ThreadsAreShort s
      → ThreadsAreShort (post_request host body s).1
  unfolding post_request edit_in
  post_request-ThreadsAreShort body s h =
      elim (Bool-cases (ltb (length (trim (coalesce body.jd []))) 20)) [
        | inl e ↦ rw e h
        | inr e ↦ elim (Bool-cases (ltb (length (trim (coalesce body.message []))) 2)) [
          | inl e' ↦ rw (e, e') h
          | inr e' ↦
              rw (e, e')
                (edit-ThreadsAreShort _ _ _ (thread_of host body.thread_id s).0 _
                  (subst (All (λ e. length e.1 ≤ 12)) (sym (thread_of-threads body.thread_id s)) h))
        ]
      ]

  -- Every request keeps the threads at 12 turns at most, also one whose body cannot be read.
  pub post-ThreadsAreShort :
      (body : Result AssistantRequest) (s : AssistantState)
      → ThreadsAreShort s
      → ThreadsAreShort (post host body s).1
  unfolding post
  post-ThreadsAreShort (ok body) s h = post_request-ThreadsAreShort body s h
  post-ThreadsAreShort (throw thrown) s h = h
