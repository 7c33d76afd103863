-- ===== src/Examples/Interviewer.antt =====
-- Runs of the interviewer page.
use cvranking.Prelude.{
  ◌≡◌, ◌≢◌, ◌++◌, refl, true, false, none, some, [], ◌∷◌, ◌≤◌, length, Has, Distinct,
}
use cvranking.Js.Text.{
  Text, units, trim, trim_start, trim_end, is_space, includes, starts_with, truthy,
}
use cvranking.Interviewer.Types.{Speaker, interviewer, candidate, Closure, Speech, Interview}
use cvranking.Interviewer.Speakers.{
  on_result, timer_fires, phrase_speaker, is_interviewer_q, is_candidate_a, question_phrases,
  answer_phrases, starts_with_any, same_speaker,
}
use cvranking.Interviewer.Page.{
  handle_add_manual_message, handle_toggle_language, handle_toggle_speaker, manual_classified,
  speaker_for,
}
use cvranking.Interviewer.Page.Steps.{interview_start, here, then_step, speaker_toggled}
use cvranking.Interviewer.Page.Steps.Invariants.{IsAgreed, interview-IsAgreed}
use cvranking.Interviewer.Panels.{ManualPanel, handle_send_manual}
use cvranking.Interviewer.Panels.Laws.{IsFrom, transcript-handle_send_manual}
use cvranking.Interviewer.Visits.{Visits}
use cvranking.Interviewer.Report.{Evaluation, points_of}
use cvranking.Interviewer.Report.Points.{IsMade, points_of-Distinct}
use cvranking.Interviewer.Page.Steps.Growth.{transcript-add_manual}
use cvranking.Interviewer.Page.Steps.Answers.{
  item_of, manual_classified-late, on_result-timer_fires,
}

abbrev plain : Text → Text
plain s = s

abbrev started : Interview Text Text
started = interview_start true (units "key")

started-IsAgreed : IsAgreed started
started-IsAgreed = record { speaker = refl; language = refl }

interview-IsAgreed_example : IsAgreed (handle_toggle_speaker started)
interview-IsAgreed_example =
    interview-IsAgreed plain started (handle_toggle_speaker started) started-IsAgreed
      (then_step here speaker_toggled)

nobody_told : phrase_speaker plain (units "xin") ≡ none
unfolding phrase_speaker is_interviewer_q is_candidate_a question_phrases answer_phrases
    starts_with_any trim trim_start trim_end is_space units includes starts_with
nobody_told = refl

not_current : same_speaker candidate started.page.current_speaker ≡ false
unfolding same_speaker
not_current = refl

abbrev asked : Interview Text Text
asked = handle_add_manual_message plain (units "xin") (units "09:00") none started

abbrev followed : Interview Text Text
followed = handle_add_manual_message plain (units "oke") (units "09:01") (some interviewer) asked

came_behind :
    followed.page.transcript
    ≡ asked.page.transcript ++ item_of interviewer (units "oke") (units "09:01") ∷ []
unfolding speaker_for
came_behind = transcript-add_manual plain (units "oke") (units "09:01") (some interviewer) asked

manual_classified-late_example :
    (manual_classified interviewer (some candidate) followed).page.transcript
    ≡ item_of interviewer (units "xin") (units "09:00")
      ∷ item_of candidate (units "oke") (units "09:01")
      ∷ []
manual_classified-late_example =
    manual_classified-late plain (units "xin") (units "09:00") candidate started followed
      (item_of interviewer (units "oke") (units "09:01")) nobody_told not_current came_behind

abbrev first_visit : Visits Text Text
first_visit = record { shown = started; left = [] }

abbrev english_visit : Visits Text Text
english_visit = record { shown = handle_toggle_language started; left = [] }

abbrev callback : Closure
callback = record {
  api_key = units "key";
  job_domain = [];
  job_level = [];
  auto_detect = true;
  transcript = [];
}

abbrev heard_half : Speech
heard_half = record {
  supported = true;
  speaker = interviewer;
  language = units "vi-VN";
  listening = true;
  callback = some callback;
  interim = units "xin ";
  last_final = [];
  timer = true;
}

some_interim : heard_half.interim ≢ []
unfolding units
some_interim e = cc e

same_words : trim (units "xin") ≡ trim heard_half.interim
unfolding trim trim_start trim_end is_space units
same_words = refl

on_result-timer_fires_example : (on_result [] (units "xin") (timer_fires heard_half).0).1 ≡ []
on_result-timer_fires_example =
    on_result-timer_fires heard_half callback (units "xin") refl some_interim same_words

abbrev evaluation : Evaluation
evaluation = record {
  strengths = some (units "clear" ∷ units "clear" ∷ units "calm" ∷ []);
  weaknesses = none;
}

points_of-Distinct_example :
    Distinct (points_of 5 (λ e. e.strengths) none (evaluation ∷ []))
    × (length (points_of 5 (λ e. e.strengths) none (evaluation ∷ [])) ≤ 5)
    × ((a : Text)
        → Has a (points_of 5 (λ e. e.strengths) none (evaluation ∷ []))
        → IsMade (λ e. e.strengths) a (evaluation ∷ []))
points_of-Distinct_example = points_of-Distinct 5 (λ e. e.strengths) (evaluation ∷ [])

abbrev typed : ManualPanel
typed = record { manual_input = units " xin "; manual_speaker = some candidate }

typed_something : truthy (trim typed.manual_input) ≡ true
unfolding trim trim_start trim_end is_space units
typed_something = refl

transcript-handle_send_manual_example :
    (speaker : Speaker) × IsFrom
      (some candidate)
      (phrase_speaker plain (trim typed.manual_input))
      interviewer
      speaker
    × ((handle_send_manual plain (units "09:00") typed started).1.page.transcript
        ≡ item_of speaker (trim typed.manual_input) (units "09:00") ∷ [])
    × ((handle_send_manual plain (units "09:00") typed started).0.manual_input ≡ [])
transcript-handle_send_manual_example =
    transcript-handle_send_manual plain (units "09:00") typed started typed_something
