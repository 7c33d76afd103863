-- ===== src/Host.antt =====
-- What the server code is given from outside, and the state that it works on: the global store
-- variable, the data directory, and a count of the calls made so far. Each reading of the clock,
-- random identifier, file-system call and request to another service is one call, and the host
-- answers by the number of the call, so that two calls need not agree.
pub mod Action
pub mod Keeps
pub mod Outcomes
use cvranking.Prelude.{ℕ, zero, suc, ◌+◌, Bool, Option, none, List, []}
use cvranking.Js.Text.{Text}
use cvranking.Js.Number.{Number}
use cvranking.Rerank.Types.{RankingInput, RankingPayload, GeminiResponse, GroqResponse}
use cvranking.Store.Types.{
  ResumeAnalysis, JobRequirement, JobParseResult, RankingCandidate, RankingResponse, DemoStore,
}

-- A `fetch` of JSON: it throws an error with a message, or returns a status with the body read as
-- text and, where the text is JSON, the value of the type that the source casts it to.
pub data Fetched {ℓ} (A : Type ℓ) : Type ℓ where
  unreachable : (message : Text) → Fetched A
  answered : (status : ℕ) (body : Text) (value : Option A) → Fetched A

-- An uploaded file: `bytes` stands for its content and `text` for what `file.text()` reads, unless
-- the read throws.
pub record UploadedFile : Type 0 where
  pub name : Text
  pub type : Text
  pub bytes : Text
  pub text : Option Text

pub record Host : Type 0 where
  pub random_uuid : ℕ → Text
  pub date_now : ℕ → Text
  pub iso_string : ℕ → Text
  pub disk_fails : ℕ → Bool
  -- Whether a write that fails has cut the file short.
  pub write_truncates : ℕ → Bool
  pub parse_job : ℕ → (title description : Text) → Fetched JobParseResult
  pub analyze : ℕ → UploadedFile → Fetched ResumeAnalysis
  pub score : ℕ → List JobRequirement → List RankingCandidate → Fetched RankingResponse
  -- The two providers, by model, key, system prompt and input.
  pub gemini : ℕ → (model key prompt : Text) → RankingInput → Fetched GeminiResponse
  pub groq : ℕ → (model key prompt : Text) → RankingInput → Fetched GroqResponse
  pub random_uint32 : ℕ → ℕ
  pub env : List (Text × Text)
  -- `Number(text)`.
  pub to_number : Text → Number
  -- The message of the error that `response.json()` throws over a body that is not JSON.
  pub json_error : Text → Text
  -- `JSON.parse(text)` at the type of a ranking payload, where `none` is a throw.
  pub parse_payload : Text → Option RankingPayload

pub record World : Type 0 where
  pub memory : Option DemoStore
  pub store_file : Option DemoStore
  pub pdfs : List (Text × Text)
  pub calls : ℕ

-- A server that has just started over an empty data directory.
abbrev pub fresh : World
fresh = record { memory = none; store_file = none; pdfs = []; calls = 0 }

abbrev pub tick : World → World
tick w = record w { calls = suc w.calls }
