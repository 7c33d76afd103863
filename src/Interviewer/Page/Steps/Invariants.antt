-- ===== src/Interviewer/Page/Steps/Invariants.antt =====
-- The page and the speech service name the same speaker and language, and the transcript grows by one
-- item at a time.
use cvranking.Prelude.{
  ◌≡◌, inl, inr, refl, ◌∙◌, Bool, true, false, Bool-cases, if-both, Option, none, some, List, [],
  ◌∷◌, arith,
}
use cvranking.Host.Action.{Result, ok, throw}
use cvranking.Js.Text.{Text, trim}
use cvranking.Interviewer.Types.{
  Speaker, interviewer, candidate, TranscriptItem, Closure, Speech, Analysis, Interview,
}
use cvranking.Interviewer.Speakers.{
  Heard, interim_heard, final_heard, note_interim, note_text, note_final, on_result, flush_text,
  flush_for, flush_final, timer_fires, on_error, same_speaker, stop_listening, start_listening,
  set_speaker, toggle_speaker, set_language,
}
use cvranking.Interviewer.Page.{
  give_turn, next_turn, analyze_if, insert_or_ask, insert_item, handle_final_insert,
  final_classified, ask_speaker, with_question, manual_classified, after_questions, evaluates,
  ask_report, cleared, questions_answered, evaluation_answered, report_answered,
  handle_open_settings, handle_save_key, handle_toggle_language, handle_toggle_speaker, stop_all,
  start_all, handle_toggle_listen, live_heard, trigger_ai_analysis,
  handle_open_summary_and_evaluate, handle_reset_interview, final_arrives, heard,
  handle_add_manual_message, handle_select_question_to_ask, closure_of,
}
use cvranking.Interviewer.Page.Steps.{
  toggle_auto_detect, select_job, show_tab, close_dialogs, ask_questions, without_task, hear,
  after_event, recognizer_result, recognizer_timer, recognizer_error, InterviewStep,
  InterviewReaches, here, then_step, settings_opened, key_saved, language_toggled, speaker_toggled,
  listen_toggled, auto_detect_toggled, job_selected, tab_shown, dialogs_closed, questions_wanted,
  message_added, question_selected, summary_opened, interview_reset, live_text_came, result_came,
  timer_ran_out, error_came, questions_came, evaluation_came, final_speaker_came,
  manual_speaker_came, report_came,
}

-- The service speaks for the same speaker, in the same language, as a speaker and a language.
abbrev Same : Speaker → Text → Speech → Type 0
Same speaker language speech = (speaker ≡ speech.speaker) × (language ≡ speech.language)

-- An event changes neither.
abbrev Keeps : Speech → Speech × List Heard → Type 0
Keeps s (t, sounds) = Same s.speaker s.language t

note_text-Keeps : (text : Text) (s : Speech) → Keeps s (note_text text s)
unfolding note_text
note_text-Keeps text s = ground arith

note_final-Keeps : (text : Text) (s : Speech) → Keeps s (note_final text s)
unfolding note_final
note_final-Keeps [] s = (refl, refl)
note_final-Keeps (c ∷ text) s = note_text-Keeps _ (record s { timer = false; interim = [] })

on_result-Keeps : (interim final : Text) (s : Speech) → Keeps s (on_result interim final s)
unfolding on_result note_interim
on_result-Keeps [] final s = note_final-Keeps final s
on_result-Keeps (c ∷ interim) final s = note_final-Keeps final _

flush_text-Keeps : (text : Text) (s : Speech) → Keeps s (flush_text text s)
unfolding flush_text
flush_text-Keeps [] s = (refl, refl)
flush_text-Keeps (c ∷ text) s = note_text-Keeps (trim (c ∷ text)) (record s { interim = [] })

flush_for-Keeps : (callback : Option Closure) (s : Speech) → Keeps s (flush_for callback s)
unfolding flush_for
flush_for-Keeps none s = (refl, refl)
flush_for-Keeps (some callback) s = flush_text-Keeps s.interim s

timer_fires-Keeps : (s : Speech) → Keeps s (timer_fires s)
unfolding timer_fires flush_final
timer_fires-Keeps s = flush_for-Keeps s.callback (record s { timer = false })

on_error-Same : (problem : Text) (s : Speech) → Same s.speaker s.language (on_error problem s)
unfolding on_error stop_listening
on_error-Same problem s = ground arith

module _ {E R : Type 0} where
  -- The page and the service agree.
  pub record IsAgreed (s : Interview E R) : Type 0 where
    pub speaker : s.page.current_speaker ≡ s.speech.speaker
    pub language : s.page.language ≡ s.speech.language

  next_turn-IsAgreed :
      (auto_detect : Bool) (speaker : Speaker) (s : Interview E R)
      → IsAgreed s
      → IsAgreed (next_turn auto_detect speaker s)
  unfolding next_turn give_turn set_speaker
  next_turn-IsAgreed auto_detect candidate s h = record { speaker = refl; language = h.language }
  next_turn-IsAgreed true interviewer s h = record { speaker = refl; language = h.language }
  next_turn-IsAgreed false interviewer s h = h

  analyze_if-IsAgreed :
      (b : Bool) (a : Analysis) (s : Interview E R) → IsAgreed s → IsAgreed (analyze_if b a s)
  unfolding analyze_if trigger_ai_analysis
  analyze_if-IsAgreed true a s h = record { speaker = h.speaker; language = h.language }
  analyze_if-IsAgreed false a s h = h

  insert_item-IsAgreed :
      (c : Closure) (item : TranscriptItem) (updated : List TranscriptItem) (s : Interview E R)
      → IsAgreed s
      → IsAgreed (insert_item c item updated s)
  unfolding insert_item
  insert_item-IsAgreed c item updated s h =
      analyze_if-IsAgreed _ _ _ (record { speaker = h.speaker; language = h.language })

  handle_final_insert-IsAgreed :
      (c : Closure) (text timestamp : Text) (speaker : Speaker) (s : Interview E R)
      → IsAgreed s
      → IsAgreed (handle_final_insert c text timestamp speaker s)
  unfolding handle_final_insert
  handle_final_insert-IsAgreed c text timestamp speaker s h =
      next_turn-IsAgreed c.auto_detect speaker _
        (insert_item-IsAgreed c _ _ _ (record { speaker = h.speaker; language = h.language }))

  insert_or_ask-IsAgreed :
      (c : Closure) (text timestamp : Text) (detected : Speaker) (known : Option Speaker)
      (s : Interview E R)
      → IsAgreed s
      → IsAgreed (insert_or_ask c text timestamp detected known s)
  unfolding insert_or_ask ask_speaker
  insert_or_ask-IsAgreed c text timestamp detected (some speaker) s h =
      handle_final_insert-IsAgreed c text timestamp speaker s h
  insert_or_ask-IsAgreed c text timestamp detected none s h = record {
    speaker = h.speaker;
    language = h.language;
  }

  manual_classified-IsAgreed :
      (detected : Speaker) (r : Option Speaker) (s : Interview E R)
      → IsAgreed s
      → IsAgreed (manual_classified detected r s)
  unfolding manual_classified give_turn set_speaker
  manual_classified-IsAgreed detected none s h = h
  manual_classified-IsAgreed detected (some speaker) s h =
      if-both IsAgreed (same_speaker speaker detected) s _ h
        (record { speaker = refl; language = h.language })

  after_questions-IsAgreed :
      (b : Bool) (a : Analysis) (s : Interview E R) → IsAgreed s → IsAgreed (after_questions b a s)
  unfolding after_questions
  after_questions-IsAgreed true a s h = record { speaker = h.speaker; language = h.language }
  after_questions-IsAgreed false a s h = record { speaker = h.speaker; language = h.language }

  questions_answered-IsAgreed :
      (a : Analysis) (r : Result (List Text)) (s : Interview E R)
      → IsAgreed s
      → IsAgreed (questions_answered a r s)
  unfolding questions_answered
  questions_answered-IsAgreed a (throw e) s h = record {
    speaker = h.speaker;
    language = h.language;
  }
  questions_answered-IsAgreed a (ok qs) s h =
      after_questions-IsAgreed (evaluates a) a _
        (record { speaker = h.speaker; language = h.language })

  evaluation_answered-IsAgreed :
      (r : Result E) (s : Interview E R) → IsAgreed s → IsAgreed (evaluation_answered r s)
  unfolding evaluation_answered
  evaluation_answered-IsAgreed (ok e) s h = record { speaker = h.speaker; language = h.language }
  evaluation_answered-IsAgreed (throw e) s h = record { speaker = h.speaker; language = h.language }

  report_answered-IsAgreed :
      (r : Result R) (s : Interview E R) → IsAgreed s → IsAgreed (report_answered r s)
  unfolding report_answered
  report_answered-IsAgreed (ok e) s h = record { speaker = h.speaker; language = h.language }
  report_answered-IsAgreed (throw e) s h = record { speaker = h.speaker; language = h.language }

  ask_report-IsAgreed :
      (items : List TranscriptItem) (s : Interview E R) → IsAgreed s → IsAgreed (ask_report items s)
  unfolding ask_report
  ask_report-IsAgreed [] s h = h
  ask_report-IsAgreed (item ∷ items) s h = record { speaker = h.speaker; language = h.language }

  start_all-IsAgreed : (s : Interview E R) → IsAgreed s → IsAgreed (start_all s)
  unfolding start_all start_listening
  start_all-IsAgreed s h = elim (Bool-cases s.speech.supported) [
    | inl e ↦ rw e (record { speaker = h.speaker; language = h.language })
    | inr e ↦ rw e (record { speaker = h.speaker; language = h.language })
  ]

  handle_toggle_listen-IsAgreed :
      (s : Interview E R) → IsAgreed s → IsAgreed (handle_toggle_listen s)
  unfolding handle_toggle_listen stop_all stop_listening
  handle_toggle_listen-IsAgreed s h =
      if-both IsAgreed s.page.listening (stop_all s) (start_all s)
        (record { speaker = h.speaker; language = h.language }) (start_all-IsAgreed s h)

  handle_reset_interview-IsAgreed :
      (s : Interview E R) → IsAgreed s → IsAgreed (handle_reset_interview s)
  unfolding handle_reset_interview cleared stop_listening
  handle_reset_interview-IsAgreed s h = elim (Bool-cases s.page.listening) [
    | inl e ↦ rw e (record { speaker = h.speaker; language = h.language })
    | inr e ↦ rw e (record { speaker = h.speaker; language = h.language })
  ]

  with_question-IsAgreed :
      (b : Bool) (text : Text) (detected : Speaker) (s : Interview E R)
      → IsAgreed s
      → IsAgreed (with_question b text detected s)
  unfolding with_question
  with_question-IsAgreed true text detected s h = record {
    speaker = h.speaker;
    language = h.language;
  }
  with_question-IsAgreed false text detected s h = h

  module _ (lower_case : Text → Text) where
    heard-IsAgreed :
        (c : Closure) (timestamp : Text) (speaker : Speaker) (sound : Heard) (s : Interview E R)
        → IsAgreed s
        → IsAgreed (heard lower_case c timestamp speaker sound s)
    unfolding heard final_arrives
    heard-IsAgreed c timestamp speaker (interim_heard text) s h = record {
      speaker = h.speaker;
      language = h.language;
    }
    heard-IsAgreed c timestamp speaker (final_heard []) s h = h
    heard-IsAgreed c timestamp speaker (final_heard (u ∷ text)) s h =
        insert_or_ask-IsAgreed c (u ∷ text) timestamp speaker _ s h

    hear-IsAgreed :
        (callback : Option Closure) (timestamp : Text) (speaker : Speaker) (sounds : List Heard)
        (s : Interview E R)
        → IsAgreed s
        → IsAgreed (hear lower_case callback timestamp speaker sounds s)
    unfolding hear
    hear-IsAgreed none timestamp speaker sounds s h = h
    hear-IsAgreed (some c) timestamp speaker [] s h = h
    hear-IsAgreed (some c) timestamp speaker (sound ∷ sounds) s h =
        hear-IsAgreed (some c) timestamp speaker sounds _
          (heard-IsAgreed c timestamp speaker sound s h)

    after_event-IsAgreed :
        (timestamp : Text) (event : Speech × List Heard) (s : Interview E R)
        → Keeps s.speech event
        → IsAgreed s
        → IsAgreed (after_event lower_case timestamp event s)
    unfolding after_event
    after_event-IsAgreed timestamp (speech, sounds) s (k, l) h =
        hear-IsAgreed speech.callback timestamp speech.speaker sounds _
          (record { speaker = h.speaker ∙ k; language = h.language ∙ l })

    handle_add_manual_message-IsAgreed :
        (text timestamp : Text) (named : Option Speaker) (s : Interview E R)
        → IsAgreed s
        → IsAgreed (handle_add_manual_message lower_case text timestamp named s)
    unfolding handle_add_manual_message
    handle_add_manual_message-IsAgreed text timestamp named s h =
        next_turn-IsAgreed s.page.auto_detect _ _
          (insert_item-IsAgreed (closure_of s.page) _ _ _ (with_question-IsAgreed _ text _ s h))

    select_question-IsAgreed :
        (text timestamp : Text) (s : Interview E R)
        → IsAgreed s
        → IsAgreed (handle_select_question_to_ask lower_case text timestamp s)
    unfolding handle_select_question_to_ask give_turn set_speaker
    select_question-IsAgreed text timestamp s h =
        let added = handle_add_manual_message-IsAgreed text timestamp (some interviewer) s h in
        record { speaker = refl; language = added.language }

    step-IsAgreed : (s t : Interview E R) → InterviewStep lower_case s t → IsAgreed s → IsAgreed t
    unfolding handle_open_settings handle_save_key handle_toggle_language set_language
        handle_toggle_speaker toggle_speaker toggle_auto_detect select_job show_tab close_dialogs
        ask_questions trigger_ai_analysis live_heard recognizer_error without_task final_classified
        recognizer_result recognizer_timer handle_open_summary_and_evaluate
    step-IsAgreed s t (settings_opened tab) h = record {
      speaker = h.speaker;
      language = h.language;
    }
    step-IsAgreed s t (key_saved default_key key) h = record {
      speaker = h.speaker;
      language = h.language;
    }
    step-IsAgreed s t language_toggled h = record { speaker = h.speaker; language = refl }
    step-IsAgreed s t speaker_toggled h = record { speaker = refl; language = h.language }
    step-IsAgreed s t listen_toggled h = handle_toggle_listen-IsAgreed s h
    step-IsAgreed s t auto_detect_toggled h = record { speaker = h.speaker; language = h.language }
    step-IsAgreed s t (job_selected job_domain job_level) h = record {
      speaker = h.speaker;
      language = h.language;
    }
    step-IsAgreed s t (tab_shown tab) h = record { speaker = h.speaker; language = h.language }
    step-IsAgreed s t dialogs_closed h = record { speaker = h.speaker; language = h.language }
    step-IsAgreed s t (questions_wanted last_text angle) h = record {
      speaker = h.speaker;
      language = h.language;
    }
    step-IsAgreed s t (message_added text timestamp named) h =
        handle_add_manual_message-IsAgreed text timestamp named s h
    step-IsAgreed s t (question_selected text timestamp) h =
        select_question-IsAgreed text timestamp s h
    step-IsAgreed s t summary_opened h =
        ask_report-IsAgreed s.page.transcript _
          (record { speaker = h.speaker; language = h.language })
    step-IsAgreed s t interview_reset h = handle_reset_interview-IsAgreed s h
    step-IsAgreed s t (live_text_came text) h = record {
      speaker = h.speaker;
      language = h.language;
    }
    step-IsAgreed s t (result_came interim final timestamp) h =
        after_event-IsAgreed timestamp _ s (on_result-Keeps interim final s.speech) h
    step-IsAgreed s t (timer_ran_out timestamp e) h =
        after_event-IsAgreed timestamp _ s (timer_fires-Keeps s.speech) h
    step-IsAgreed s t (error_came problem) h =
        let (speaker, language) = on_error-Same problem s.speech in
        record { speaker = h.speaker ∙ speaker; language = h.language ∙ language }
    step-IsAgreed s t (questions_came i analysis e r) h =
        questions_answered-IsAgreed analysis r _
          (record { speaker = h.speaker; language = h.language })
    step-IsAgreed s t (evaluation_came i analysis e r) h =
        evaluation_answered-IsAgreed r _ (record { speaker = h.speaker; language = h.language })
    step-IsAgreed s t (final_speaker_came i c text timestamp detected e r) h =
        handle_final_insert-IsAgreed c text timestamp _ _
          (record { speaker = h.speaker; language = h.language })
    step-IsAgreed s t (manual_speaker_came i text detected e r) h =
        manual_classified-IsAgreed detected r _
          (record { speaker = h.speaker; language = h.language })
    step-IsAgreed s t (report_came i e r) h =
        report_answered-IsAgreed r _ (record { speaker = h.speaker; language = h.language })

    -- As long as the page is not left and no request of an earlier visit is open: from a state in which the
    -- page and the speech service name the same speaker and the same language, they do so whatever the user
    -- does, whatever is heard and whenever the answers come.
    pub interview-IsAgreed :
        (s t : Interview E R) → IsAgreed s → InterviewReaches lower_case s t → IsAgreed t
    interview-IsAgreed s t h here = h
    interview-IsAgreed s t h (then_step {s = u} reached step) =
        step-IsAgreed u t step (interview-IsAgreed s u h reached)
