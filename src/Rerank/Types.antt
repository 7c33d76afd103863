-- ===== src/Rerank/Types.antt =====
-- What goes to the AI providers and what comes back, in frontend/app/api/ranking-test/route.ts.
use cvranking.Prelude.{Option, List}
use cvranking.Js.Text.{Text}
use cvranking.Js.Number.{Number}

-- A field that the source reads as `unknown`. `other` is any other JSON value, and a number comes
-- with what `String` makes of it.
pub data Value : Type 0 where
  missing : Value
  number : Number → (printed : Text) → Value
  text : Text → Value
  other : (printed : Text) → Value

pub record AiRequirementScore : Type 0 where
  pub requirement_key : Option Text
  pub status : Value
  pub score : Value
  pub confidence : Value

pub record AiResult : Type 0 where
  pub candidate_id : Option Text
  pub score : Value
  pub confidence : Value
  pub eligibility_status : Value
  pub strengths : Option (List Text)
  pub gaps : Option (List Text)
  pub unknowns : Option (List Text)
  pub requirement_scores : Option (List AiRequirementScore)

pub record RankingPayload : Type 0 where
  pub results : Option (List AiResult)

pub record GeminiContent : Type 0 where
  pub parts : Option (List (Option Text))

pub record GeminiCandidate : Type 0 where
  pub content : Option GeminiContent

pub record GeminiResponse : Type 0 where
  pub candidates : Option (List GeminiCandidate)
  pub error_message : Option Text

pub record GroqMessage : Type 0 where
  pub content : Option Text

pub record GroqChoice : Type 0 where
  pub message : Option GroqMessage

pub record GroqResponse : Type 0 where
  pub choices : Option (List GroqChoice)
  pub error_message : Option Text

pub record InputSkill : Type 0 where
  pub name : Text
  pub years : Option Number
  pub evidence : Text

pub record InputCandidate : Type 0 where
  pub candidate_id : Text
  pub name : Text
  pub title : Text
  pub years : Option Number
  pub skills : List InputSkill
  pub baseline_score : Option Number
  pub parsed_summary : Option Text

pub record InputRequirement : Type 0 where
  pub key : Text
  pub name : Text
  pub type : Text
  pub priority : Text
  pub weight : Number
  pub minimum_years : Option Number
  pub description : Text

pub record RankingInput : Type 0 where
  pub title : Text
  pub description : Text
  pub requirements : List InputRequirement
  pub candidates : List InputCandidate
