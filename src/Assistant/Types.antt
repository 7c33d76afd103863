-- ===== src/Assistant/Types.antt =====
-- The types of frontend/app/api/jd-assistant/route.ts, its global state, and what it is given from
-- outside. A call's number tells it from the other calls.
use cvranking.Prelude.{ℕ, suc, Bool, Option, List}
use cvranking.Js.Text.{Text}
use cvranking.Host.{Fetched}
use cvranking.Rerank.Keys.{Env}
use cvranking.Rerank.Types.{GeminiResponse, GroqResponse}

pub record AssistantResult : Type 0 where
  pub reply : Text
  pub revised_jd : Text

pub data Role : Type 0 where
  user model : Role

pub record AssistantTurn : Type 0 where
  pub role : Role
  pub text : Text

-- The fields as `String` makes texts of them, where they are given.
pub record AssistantRequest : Type 0 where
  pub thread_id : Option Text
  pub title : Option Text
  pub jd : Option Text
  pub message : Option Text

-- What a provider is asked with: the recent turns, and the title, description and instruction.
pub record Question : Type 0 where
  pub turns : List AssistantTurn
  pub current_title : Text
  pub current_jd : Text
  pub instruction : Text

-- The two fields read from a provider's JSON, as `String` makes texts of them, where they are truthy.
pub record ReplyFields : Type 0 where
  pub reply : Option Text
  pub revised_jd : Option Text

pub record AssistantHost : Type 0 where
  pub random_uuid : ℕ → Text
  pub env : Env
  pub ask_gemini : ℕ → (model key prompt : Text) → Question → Fetched GeminiResponse
  pub ask_groq : ℕ → (model key prompt : Text) → Question → Fetched GroqResponse
  -- `JSON.parse`, where `none` is a throw.
  pub parse_reply : Text → Option ReplyFields
  -- `toLowerCase`.
  pub lower_case : Text → Text

-- The two global variables, and the count of the calls made so far.
pub record AssistantState : Type 0 where
  pub threads : List (Text × List AssistantTurn)
  pub gemini_key_cursor : Option ℕ
  pub calls : ℕ

abbrev pub asked : AssistantState → AssistantState
asked s = record s { calls = suc s.calls }

pub record Sourced : Type 0 where
  pub result : AssistantResult
  pub provider : Text
  pub model : Text

abbrev pub sourced : AssistantResult → (provider model_name : Text) → Sourced
sourced result provider model_name = record {
  result = result;
  provider = provider;
  model = model_name;
}

-- The bodies of the answers.
pub data AssistantBody : Type 0 where
  problem : (detail : Text) → AssistantBody
  edited :
      (thread_id : Text)
      → Sourced
      → (turns : ℕ) → (gemini_configured groq_configured : Bool) → AssistantBody

pub record AssistantResponse : Type 0 where
  pub status : ℕ
  pub body : AssistantBody

abbrev pub refused : ℕ → Text → AssistantResponse
refused status message = record { status = status; body = problem message }
