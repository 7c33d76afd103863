-- ===== src/Interviewer/Visits.antt =====
-- Leaving the interviewer page and coming back: the effect of page.tsx that runs when the page is left,
-- and the first rendering of the next visit. The speech service is one object for all visits.
pub mod Agreement
use cvranking.Prelude.{
  ℕ, ◌≡◌, Bool, true, false, Option, none, some, List, [], ◌∷◌, ◌++◌, get_elem?, coalesce,
  if◌then◌else◌,
}
use cvranking.Js.Text.{Text}
use cvranking.Interviewer.Types.{
  Speaker, interviewer, candidate, Closure, Speech, Task, asks_questions, asks_evaluation,
  classifies_final, classifies_manual, asks_report, Interview,
}
use cvranking.Interviewer.Speakers.{other_speaker, same_speaker, set_speaker, stop_listening}
use cvranking.Interviewer.Page.{remove_task}
use cvranking.Interviewer.Page.Steps.{interview_start, InterviewStep}

-- What a late answer about a speaker does to the service: the page that asked is gone.
unfoldable pub late_turn : (auto_detect : Bool) → Speaker → Speech → Speech
late_turn auto_detect candidate speech = set_speaker interviewer speech
late_turn auto_detect interviewer speech =
    if auto_detect then set_speaker candidate speech else speech

unfoldable pub late_manual : (detected : Speaker) → Option Speaker → Speech → Speech
late_manual detected none speech = speech
late_manual detected (some speaker) speech =
    if same_speaker speaker detected then speech else set_speaker (other_speaker speaker) speech

unfoldable pub late_answer : Task → Option Speaker → Speech → Speech
late_answer (classifies_final c text timestamp detected) answer speech =
    late_turn c.auto_detect (coalesce answer detected) speech
late_answer (classifies_manual text detected) answer speech = late_manual detected answer speech
late_answer _ answer speech = speech

module _ {E R : Type 0} where
  -- The page is left and opened again, with the key that the browser has kept.
  unfoldable pub leave_and_return : (api_key : Text) → Interview E R → Interview E R
  leave_and_return api_key s =
      let start : Interview E R = interview_start s.speech.supported api_key in
      record {
        page = start.page;
        speech = stop_listening s.speech;
        live = record { connection = none; streaming = false };
        tasks = [];
      }

-- The visit that goes on, and the requests of earlier ones.
pub record Visits (E R : Type 0) : Type 0 where
  pub shown : Interview E R
  pub left : List Task

module _ {E R : Type 0} (lower_case : Text → Text) where
  pub data VisitStep (v : Visits E R) : Visits E R → Type 0 where
    stays :
        {t : Interview E R}
        → InterviewStep lower_case v.shown t
        → VisitStep v (record v { shown = t })
    returned :
        (api_key : Text)
        → VisitStep v
            (record { shown = leave_and_return api_key v.shown; left = v.left ++ v.shown.tasks })
    answered_late :
        (i : ℕ) (task : Task) (answer : Option Speaker)
        → get_elem? v.left i ≡ some task
        → VisitStep v (record {
          shown = record v.shown { speech = late_answer task answer v.shown.speech };
          left = remove_task i v.left;
        })

  pub data VisitReaches (start : Visits E R) : Visits E R → Type 0 where
    at_start : VisitReaches start start
    then_visit : {v w : Visits E R} → VisitReaches start v → VisitStep v w → VisitReaches start w
