-- ===== src/Interviewer/Page/Steps.antt =====
-- The page as a state machine: what the user does, what the microphone hears and when the answers
-- come, in any order.
pub mod Invariants
pub mod Answers
pub mod Growth
use cvranking.Prelude.{
  ℕ, zero, suc, ◌≡◌, Bool, true, false, not, Option, none, some, List, [], ◌∷◌, get_elem?, coalesce,
}
use cvranking.Host.Action.{Result}
use cvranking.Js.Text.{Text, units}
use cvranking.Interviewer.Types.{
  Speaker, interviewer, candidate, TranscriptItem, Closure, Speech, Live, Analysis, Task,
  asks_questions, asks_evaluation, classifies_final, classifies_manual, asks_report, CopilotTab,
  questions_tab, InterviewPage, Interview,
}
use cvranking.Interviewer.Speakers.{Heard, on_result, timer_fires, on_error}
use cvranking.Interviewer.Page.{
  handle_open_settings, handle_save_key, handle_toggle_language, handle_toggle_speaker,
  handle_toggle_listen, live_heard, trigger_ai_analysis, final_classified, manual_classified,
  questions_answered, evaluation_answered, handle_open_summary_and_evaluate, report_answered,
  handle_reset_interview, heard, handle_add_manual_message, handle_select_question_to_ask,
  remove_task, closure_of,
}

-- The titles of the fields and the labels of the levels to choose from.
abbrev pub preset_domains : List Text
preset_domains =
    units "Frontend Engineer (React & Performance)"
    ∷ units "Backend Engineer (APIs & Databases)"
    ∷ units "Full-stack Engineer"
    ∷ units "Data Engineer / Data Scientist"
    ∷ units "DevOps / Site Reliability Engineer"
    ∷ units "Mobile Engineer (iOS/Android)"
    ∷ []

abbrev pub preset_levels : List Text
preset_levels =
    units "Intern / Fresher"
    ∷ units "Junior Engineer"
    ∷ units "Mid-level Engineer"
    ∷ units "Senior Engineer / Lead"
    ∷ []

-- The page as it is first shown, over the service as its module makes it.
abbrev pub interview_start : {E R : Type 0} → (supported : Bool) → (api_key : Text) → Interview E R
interview_start supported api_key = record {
  page = record {
    api_key = api_key;
    settings_open = false;
    settings_tab = units "domain";
    summary_open = false;
    language = units "vi-VN";
    listening = false;
    current_speaker = interviewer;
    auto_detect = true;
    job_domain =
        coalesce (get_elem? preset_domains 0) (units "Frontend Engineer (React & Performance)");
    job_level = coalesce (get_elem? preset_levels 2) (units "Senior Engineer / Lead");
    transcript = [];
    interim_text = [];
    copilot_tab = questions_tab;
    questions = [];
    evaluations = [];
    current_evaluation = none;
    analyzing = false;
    live_text = [];
    ai_error = none;
    final_report = none;
    generating_report = false;
  };
  speech = record {
    supported = supported;
    speaker = interviewer;
    language = units "vi-VN";
    listening = false;
    callback = none;
    interim = [];
    last_final = [];
    timer = false;
  };
  live = record { connection = none; streaming = false };
  tasks = [];
}

module _ {E R : Type 0} where
  -- The setters that the page hands to its parts.
  unfoldable pub toggle_auto_detect : Interview E R → Interview E R
  toggle_auto_detect s = record s { page = record s.page { auto_detect = not s.page.auto_detect } }

  unfoldable pub select_job : (job_domain job_level : Text) → Interview E R → Interview E R
  select_job job_domain job_level s = record s {
    page = record s.page { job_domain = job_domain; job_level = job_level };
  }

  unfoldable pub show_tab : CopilotTab → Interview E R → Interview E R
  show_tab tab s = record s { page = record s.page { copilot_tab = tab } }

  unfoldable pub close_dialogs : Interview E R → Interview E R
  close_dialogs s = record s {
    page = record s.page { settings_open = false; summary_open = false };
  }

  -- The button that asks for questions.
  unfoldable pub ask_questions : (last_text angle : Text) → Interview E R → Interview E R
  ask_questions last_text angle s =
      trigger_ai_analysis
        (record {
          api_key = s.page.api_key;
          job_domain = s.page.job_domain;
          job_level = s.page.job_level;
          transcript = s.page.transcript;
          last_text = last_text;
          angle = angle;
        })
        s

  unfoldable pub without_task : ℕ → Interview E R → Interview E R
  without_task i s = record s { tasks = remove_task i s.tasks }

  -- `toLowerCase` is a parameter: its table of letters is no part of the repository.
  module _ (lower_case : Text → Text) where
    -- What was heard, one after the other, by the callback if there is one.
    unfoldable pub hear :
        Option Closure → (timestamp : Text) → Speaker → List Heard → Interview E R → Interview E R
    hear none timestamp speaker sounds s = s
    hear (some c) timestamp speaker [] s = s
    hear (some c) timestamp speaker (sound ∷ sounds) s =
        hear (some c) timestamp speaker sounds (heard lower_case c timestamp speaker sound s)

    -- The service after an event of the recognizer, with what it hands on. The speaker is the one of
    -- the service at the event.
    unfoldable pub after_event :
        (timestamp : Text) → Speech × List Heard → Interview E R → Interview E R
    after_event timestamp (speech, sounds) s =
        hear speech.callback timestamp speech.speaker sounds (record s { speech = speech })

    unfoldable pub recognizer_result :
        (interim final timestamp : Text) → Interview E R → Interview E R
    recognizer_result interim final timestamp s =
        after_event timestamp (on_result interim final s.speech) s

    unfoldable pub recognizer_timer : (timestamp : Text) → Interview E R → Interview E R
    recognizer_timer timestamp s = after_event timestamp (timer_fires s.speech) s

    unfoldable pub recognizer_error : Text → Interview E R → Interview E R
    recognizer_error problem s = record s { speech = on_error problem s.speech }

    pub data InterviewStep (s : Interview E R) : Interview E R → Type 0 where
      settings_opened : (tab : Text) → InterviewStep s (handle_open_settings tab s)
      key_saved : (default_key key : Text) → InterviewStep s (handle_save_key default_key key s)
      language_toggled : InterviewStep s (handle_toggle_language s)
      speaker_toggled : InterviewStep s (handle_toggle_speaker s)
      listen_toggled : InterviewStep s (handle_toggle_listen s)
      auto_detect_toggled : InterviewStep s (toggle_auto_detect s)
      job_selected :
          (job_domain job_level : Text) → InterviewStep s (select_job job_domain job_level s)
      tab_shown : (tab : CopilotTab) → InterviewStep s (show_tab tab s)
      dialogs_closed : InterviewStep s (close_dialogs s)
      questions_wanted :
          (last_text angle : Text) → InterviewStep s (ask_questions last_text angle s)
      message_added :
          (text timestamp : Text) (named : Option Speaker)
          → InterviewStep s (handle_add_manual_message lower_case text timestamp named s)
      question_selected :
          (text timestamp : Text)
          → InterviewStep s (handle_select_question_to_ask lower_case text timestamp s)
      summary_opened : InterviewStep s (handle_open_summary_and_evaluate s)
      interview_reset : InterviewStep s (handle_reset_interview s)
      live_text_came : (text : Text) → InterviewStep s (live_heard text s)
      result_came :
          (interim final timestamp : Text)
          → InterviewStep s (recognizer_result interim final timestamp s)
      timer_ran_out :
          (timestamp : Text)
          → s.speech.timer ≡ true
          → InterviewStep s (recognizer_timer timestamp s)
      error_came : (problem : Text) → InterviewStep s (recognizer_error problem s)
      questions_came :
          (i : ℕ) (analysis : Analysis)
          → get_elem? s.tasks i ≡ some (asks_questions analysis)
          → (r : Result (List Text))
          → InterviewStep s (questions_answered analysis r (without_task i s))
      evaluation_came :
          (i : ℕ) (analysis : Analysis)
          → get_elem? s.tasks i ≡ some (asks_evaluation analysis)
          → (r : Result E) → InterviewStep s (evaluation_answered r (without_task i s))
      final_speaker_came :
          (i : ℕ) (c : Closure) (text timestamp : Text) (detected : Speaker)
          → get_elem? s.tasks i ≡ some (classifies_final c text timestamp detected)
          → (r : Option Speaker)
          → InterviewStep s (final_classified c text timestamp detected r (without_task i s))
      manual_speaker_came :
          (i : ℕ) (text : Text) (detected : Speaker)
          → get_elem? s.tasks i ≡ some (classifies_manual text detected)
          → (r : Option Speaker) → InterviewStep s (manual_classified detected r (without_task i s))
      report_came :
          (i : ℕ)
          → get_elem? s.tasks i ≡ some asks_report
          → (r : Result R) → InterviewStep s (report_answered r (without_task i s))

    pub data InterviewReaches (start : Interview E R) : Interview E R → Type 0 where
      here : InterviewReaches start start
      then_step :
          {s t : Interview E R}
          → InterviewReaches start s
          → InterviewStep s t
          → InterviewReaches start t
