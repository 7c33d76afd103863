-- ===== src/Interviewer/Page.antt =====
-- The handlers of the page. A handler takes the state that its rendering shows, and each event is taken to
-- meet the rendering of the current state: an event that comes before a change is rendered, which
-- handleAddManualMessage would answer with the transcript of the older rendering, is not modelled.
pub mod Items
pub mod Steps
unfoldable pub use cvranking.Interviewer.Page.Items.{
  last_of, map_last, remove_task, error_text, analysis_failure, report_failure, standard,
  speaker_for, asks_for, evaluates,
}
use cvranking.Prelude.{
  ℕ, zero, suc, ◌%◌, Bool, true, false, not, ◌&&◌, ◌||◌, Option, none, some, List, [], ◌∷◌, ◌++◌,
  map, find, length, coalesce, ◌==◌, if◌then◌else◌,
}
use mathlib.Core.List.{reverse}
use cvranking.Host.Action.{Result, ok, throw, Thrown, demo_problem, error, other}
use cvranking.Js.Text.{Text, units, or_else, text_eq, truthy}
use cvranking.Interviewer.Types.{
  Speaker, interviewer, candidate, TranscriptItem, Closure, Speech, Live, Analysis, Task,
  asks_questions, asks_evaluation, classifies_final, classifies_manual, asks_report, CopilotTab,
  questions_tab, evaluation_tab, live_tab, InterviewPage, Interview,
}
use cvranking.Interviewer.Speakers.{
  other_speaker, is_candidate, same_speaker, phrase_speaker, set_speaker, toggle_speaker,
  set_language, stop_listening, start_listening, Heard, interim_heard, final_heard,
}

module _ {E R : Type 0} where
  -- `speechService.setSpeaker` and `setCurrentSpeaker`, which the page always calls together.
  unfoldable pub give_turn : Speaker → Interview E R → Interview E R
  give_turn speaker s = record s {
    page = record s.page { current_speaker = speaker };
    speech = set_speaker speaker s.speech;
  }

  -- The turn after a text of a speaker.
  unfoldable pub next_turn : (auto_detect : Bool) → Speaker → Interview E R → Interview E R
  next_turn auto_detect candidate s = give_turn interviewer s
  next_turn auto_detect interviewer s = if auto_detect then give_turn candidate s else s

  unfoldable pub handle_open_settings : Text → Interview E R → Interview E R
  handle_open_settings tab s = record s {
    page = record s.page { settings_tab = tab; settings_open = true };
  }

  unfoldable pub handle_save_key : (default_key key : Text) → Interview E R → Interview E R
  handle_save_key default_key key s = record s {
    page = record s.page { api_key = or_else key default_key; ai_error = none };
  }

  unfoldable pub handle_toggle_language : Interview E R → Interview E R
  handle_toggle_language s =
      let next = if text_eq s.page.language (units "vi-VN") then units "en-US" else units "vi-VN" in
      record s { page = record s.page { language = next }; speech = set_language next s.speech }

  unfoldable pub handle_toggle_speaker : Interview E R → Interview E R
  handle_toggle_speaker s =
      let speech = toggle_speaker s.speech in
      record s { page = record s.page { current_speaker = speech.speaker }; speech = speech }

  -- What a callback made now goes on to use.
  unfoldable pub closure_of : InterviewPage E R → Closure
  closure_of page = record {
    api_key = page.api_key;
    job_domain = page.job_domain;
    job_level = page.job_level;
    auto_detect = page.auto_detect;
    transcript = page.transcript;
  }

  unfoldable pub stop_all : Interview E R → Interview E R
  stop_all s = record s {
    page = record s.page { listening = false; interim_text = [] };
    speech = stop_listening s.speech;
    live = record { connection = none; streaming = false };
  }

  unfoldable pub start_all : Interview E R → Interview E R
  start_all s =
      let (success, speech) = start_listening (closure_of s.page) s.speech in
      record s {
        page = record s.page { listening = s.page.listening || success };
        speech = speech;
        live = record {
          connection = some (s.page.api_key, (s.page.job_domain, s.page.job_level));
          streaming = true;
        };
      }

  unfoldable pub handle_toggle_listen : Interview E R → Interview E R
  handle_toggle_listen s = if s.page.listening then stop_all s else start_all s

  -- `onText` of the live connection.
  unfoldable pub live_heard : Text → Interview E R → Interview E R
  live_heard text s = record s {
    page = record s.page { live_text = s.page.live_text ++ text; copilot_tab = live_tab };
  }

  -- `triggerAiAnalysis` up to its first request.
  unfoldable pub trigger_ai_analysis : Analysis → Interview E R → Interview E R
  trigger_ai_analysis analysis s = record s {
    page = record s.page { analyzing = true; ai_error = none };
    tasks = s.tasks ++ asks_questions analysis ∷ [];
  }

  unfoldable pub analyze_if : Bool → Analysis → Interview E R → Interview E R
  analyze_if true analysis s = trigger_ai_analysis analysis s
  analyze_if false analysis s = s

  -- A new item, which is analyzed if it is the candidate's or the number of items is even.
  unfoldable pub insert_item :
      Closure → TranscriptItem → List TranscriptItem → Interview E R → Interview E R
  insert_item c item updated s =
      analyze_if (is_candidate item.speaker || length updated % 2 == 0)
        (record {
          api_key = c.api_key;
          job_domain = c.job_domain;
          job_level = c.job_level;
          transcript = updated;
          last_text = item.text;
          angle = standard;
        })
        (record s { page = record s.page { transcript = updated } })

  -- `handleFinalInsert` of a callback.
  unfoldable pub handle_final_insert :
      Closure → (text timestamp : Text) → Speaker → Interview E R → Interview E R
  handle_final_insert c text timestamp speaker s =
      let item : TranscriptItem = record {
        speaker = speaker;
        text = text;
        timestamp = timestamp;
      } in
      next_turn c.auto_detect speaker (
        insert_item c item (s.page.transcript ++ item ∷ [])
          (record s { page = record s.page { interim_text = [] } }))

  -- The answer about who spoke, or none where it names nobody or fails.
  unfoldable pub final_classified :
      Closure → (text timestamp : Text) → Speaker → Option Speaker → Interview E R → Interview E R
  final_classified c text timestamp detected answer s =
      handle_final_insert c text timestamp (coalesce answer detected) s

  -- A speaker is asked for.
  unfoldable pub ask_speaker :
      Closure → (text timestamp : Text) → Speaker → Interview E R → Interview E R
  ask_speaker c text timestamp detected s = record s {
    page = record s.page { interim_text = text ++ units " ..." };
    tasks = s.tasks ++ classifies_final c text timestamp detected ∷ [];
  }

  unfoldable pub with_question : Bool → (text : Text) → Speaker → Interview E R → Interview E R
  with_question false text detected s = s
  with_question true text detected s = record s {
    tasks = s.tasks ++ classifies_manual text detected ∷ [];
  }

  -- The speaker that is known, or a request for one.
  unfoldable pub insert_or_ask :
      Closure → (text timestamp : Text) → Speaker → Option Speaker → Interview E R → Interview E R
  insert_or_ask c text timestamp detected (some speaker) s =
      handle_final_insert c text timestamp speaker s
  insert_or_ask c text timestamp detected none s = ask_speaker c text timestamp detected s

  -- The answer about a message that was typed in: it changes the last item that there is by then.
  unfoldable pub manual_classified : Speaker → Option Speaker → Interview E R → Interview E R
  manual_classified detected none s = s
  manual_classified detected (some speaker) s =
      if same_speaker speaker detected
      then s
      else give_turn (other_speaker speaker) (record s {
        page = record s.page {
          transcript =
              map_last (λ (item : TranscriptItem). record item { speaker = speaker })
                s.page.transcript;
        };
      })

  unfoldable pub after_questions : Bool → Analysis → Interview E R → Interview E R
  after_questions true analysis s = record s { tasks = s.tasks ++ asks_evaluation analysis ∷ [] }
  after_questions false analysis s = record s { page = record s.page { analyzing = false } }

  -- The answer with questions: an answer of the candidate is then evaluated.
  unfoldable pub questions_answered : Analysis → Result (List Text) → Interview E R → Interview E R
  questions_answered analysis (throw e) s = record s {
    page = record s.page { ai_error = some (error_text e analysis_failure); analyzing = false };
  }
  questions_answered analysis (ok questions) s =
      after_questions (evaluates analysis) analysis
        (record s { page = record s.page { questions = questions; copilot_tab = questions_tab } })

  unfoldable pub evaluation_answered : Result E → Interview E R → Interview E R
  evaluation_answered (throw e) s = record s {
    page = record s.page { ai_error = some (error_text e analysis_failure); analyzing = false };
  }
  evaluation_answered (ok evaluation) s = record s {
    page = record s.page {
      current_evaluation = some evaluation;
      evaluations = s.page.evaluations ++ evaluation ∷ [];
      analyzing = false;
    };
  }

  unfoldable pub ask_report : List TranscriptItem → Interview E R → Interview E R
  ask_report [] s = s
  ask_report (item ∷ rest) s = record s {
    page = record s.page { generating_report = true; ai_error = none };
    tasks = s.tasks ++ asks_report ∷ [];
  }

  unfoldable pub handle_open_summary_and_evaluate : Interview E R → Interview E R
  handle_open_summary_and_evaluate s =
      ask_report s.page.transcript (record s { page = record s.page { summary_open = true } })

  unfoldable pub report_answered : Result R → Interview E R → Interview E R
  report_answered (throw e) s = record s {
    page = record s.page {
      ai_error = some (error_text e report_failure);
      generating_report = false;
    };
  }
  report_answered (ok report) s = record s {
    page = record s.page { final_report = some report; generating_report = false };
  }

  unfoldable pub cleared : InterviewPage E R → InterviewPage E R
  cleared page = record page {
    listening = false;
    transcript = [];
    interim_text = [];
    questions = [];
    evaluations = [];
    current_evaluation = none;
    final_report = none;
    ai_error = none;
    summary_open = false;
  }

  -- The live connection, the microphone and the requests under way are left as they are.
  unfoldable pub handle_reset_interview : Interview E R → Interview E R
  handle_reset_interview s = record s {
    page = cleared s.page;
    speech = if s.page.listening then stop_listening s.speech else s.speech;
  }

  -- `toLowerCase` is a parameter: its table of letters is no part of the repository.
  module _ (lower_case : Text → Text) where
    -- A final text that the service has heard.
    unfoldable pub final_arrives :
        Closure → (text timestamp : Text) → Speaker → Interview E R → Interview E R
    final_arrives c text timestamp detected s =
        insert_or_ask c text timestamp detected
          (if c.auto_detect then phrase_speaker lower_case text else some detected) s

    -- The callback of the service, for what was heard while a speaker was set.
    unfoldable pub heard :
        Closure → (timestamp : Text) → Speaker → Heard → Interview E R → Interview E R
    heard c timestamp speaker (interim_heard text) s = record s {
      page = record s.page { interim_text = text };
    }
    heard c timestamp speaker (final_heard []) s = s
    heard c timestamp speaker (final_heard (u ∷ text)) s =
        final_arrives c (u ∷ text) timestamp speaker s

    unfoldable pub handle_add_manual_message :
        (text timestamp : Text) → Option Speaker → Interview E R → Interview E R
    handle_add_manual_message text timestamp named s =
        let phrase = phrase_speaker lower_case text in
        let speaker = speaker_for named phrase s.page.current_speaker in
        let item : TranscriptItem = record {
          speaker = speaker;
          text = text;
          timestamp = timestamp;
        } in
        next_turn s.page.auto_detect speaker (
          insert_item (closure_of s.page) item (s.page.transcript ++ item ∷ [])
            (with_question (asks_for named phrase) text speaker s))

    unfoldable pub handle_select_question_to_ask :
        (text timestamp : Text) → Interview E R → Interview E R
    handle_select_question_to_ask text timestamp s =
        let asked =
          give_turn candidate (handle_add_manual_message text timestamp (some interviewer) s) in
        record asked { page = record asked.page { copilot_tab = evaluation_tab } }
