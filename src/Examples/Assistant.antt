-- ===== src/Examples/Assistant.antt =====
-- The theorems on the assistant at an example conversation.
use cvranking.Prelude.{◌≡◌, ◌≢◌, refl, true, some, [], ◌∷◌, arith}
use cvranking.Host.{unreachable, answered}
use cvranking.Host.Action.{ok}
use cvranking.Js.Text.{units, text_eq, text_eq_iff, trim, trim_start, trim_end, is_space, truthy}
use cvranking.Examples.Data.{two_keys, gemini_answer}
use cvranking.Assistant.Types.{user, AssistantRequest, ReplyFields, AssistantHost, AssistantState}
use cvranking.Assistant.{history_of, post}
use cvranking.Assistant.Laws.{IsAsked, IsEdited, post-IsEdited, post-other_threads}

abbrev fields : ReplyFields
fields = record { reply = some (units "Done."); revised_jd = some (units "Requirements") }

abbrev pub assistant_host : AssistantHost
assistant_host = record {
  random_uuid = λ n. n ∷ [];
  env = two_keys;
  ask_gemini = λ n model key prompt question. answered 200 [] (some gemini_answer);
  ask_groq = λ n model key prompt question. unreachable (units "no network");
  parse_reply = λ s. some fields;
  lower_case = λ s. s;
}

abbrev pub state : AssistantState
state = record {
  threads = (units "t1", record { role = user; text = units "Hello" } ∷ []) ∷ [];
  gemini_key_cursor = some 1;
  calls = 0;
}

abbrev request : AssistantRequest
request = record {
  thread_id = some (units "t1");
  title = some (units "Engineer");
  jd = some (units "We are hiring an engineer.");
  message = some (units "shorten it");
}

request-IsAsked : IsAsked assistant_host request
unfolding units trim trim_start trim_end is_space
request-IsAsked = record { jd = omega arith; message = omega arith }

given : truthy (units "t1") ≡ true
unfolding units
given = refl

post-IsEdited_example :
    IsEdited assistant_host
      (units "t1")
      (trim (units "shorten it"))
      state
      (post assistant_host (ok request) state)
post-IsEdited_example =
    post-IsEdited assistant_host request state (units "t1") request-IsAsked refl given

threads-ne : units "t1" ≢ units "t2"
unfolding text_eq units
threads-ne e = cc ((text_eq_iff (units "t1") (units "t2")).1 e)

post-other_threads_example :
    history_of assistant_host (units "t2") (post assistant_host (ok request) state).1
    ≡ history_of assistant_host (units "t2") state
post-other_threads_example =
    post-other_threads assistant_host request state (units "t1") (units "t2") refl given threads-ne
