-- ===== src/Interviewer/Types.antt =====
-- The state of the interviewer page and of the services that it drives. What an answer of the
-- assistant holds is a parameter: `E` is an evaluation and `R` a final report.
use cvranking.Prelude.{Bool, Option, List}
use cvranking.Js.Text.{Text}

pub data Speaker : Type 0 where
  interviewer candidate : Speaker

pub record TranscriptItem : Type 0 where
  pub speaker : Speaker
  pub text : Text
  pub timestamp : Text

-- The values of a rendering that the callbacks made in it go on to use.
pub record Closure : Type 0 where
  pub api_key : Text
  pub job_domain : Text
  pub job_level : Text
  pub auto_detect : Bool
  pub transcript : List TranscriptItem

-- The speech service. `timer` says whether the timer of 800 ms is set.
pub record Speech : Type 0 where
  pub supported : Bool
  pub speaker : Speaker
  pub language : Text
  pub listening : Bool
  pub callback : Option Closure
  pub interim : Text
  pub last_final : Text
  pub timer : Bool

-- The live connection, by what it was opened with, and the stream of the microphone.
pub record Live : Type 0 where
  pub connection : Option (Text × (Text × Text))
  pub streaming : Bool

-- The arguments of `triggerAiAnalysis`, with what it takes of its rendering.
pub record Analysis : Type 0 where
  pub api_key : Text
  pub job_domain : Text
  pub job_level : Text
  pub transcript : List TranscriptItem
  pub last_text : Text
  pub angle : Text

-- The requests under way, with what is done with their answers.
pub data Task : Type 0 where
  asks_questions : Analysis → Task
  asks_evaluation : Analysis → Task
  classifies_final : Closure → (text timestamp : Text) → Speaker → Task
  classifies_manual : (text : Text) → Speaker → Task
  asks_report : Task

pub data CopilotTab : Type 0 where
  questions_tab evaluation_tab live_tab : CopilotTab

pub record InterviewPage (E R : Type 0) : Type 0 where
  pub api_key : Text
  pub settings_open : Bool
  pub settings_tab : Text
  pub summary_open : Bool
  pub language : Text
  pub listening : Bool
  pub current_speaker : Speaker
  pub auto_detect : Bool
  pub job_domain : Text
  pub job_level : Text
  pub transcript : List TranscriptItem
  pub interim_text : Text
  pub copilot_tab : CopilotTab
  pub questions : List Text
  pub evaluations : List E
  pub current_evaluation : Option E
  pub analyzing : Bool
  pub live_text : Text
  pub ai_error : Option Text
  pub final_report : Option R
  pub generating_report : Bool

pub record Interview (E R : Type 0) : Type 0 where
  pub page : InterviewPage E R
  pub speech : Speech
  pub live : Live
  pub tasks : List Task
