-- ===== src/Interviewer/Page/Steps/Growth.antt =====
-- The transcript grows by one item at a time.
use cvranking.Prelude.{◌≡◌, refl, ◌∙◌, Bool, true, false, Option, List, [], ◌∷◌, ◌++◌, map}
use cvranking.Js.Text.{Text}
use cvranking.Interviewer.Types.{
  Speaker, interviewer, candidate, TranscriptItem, Closure, Analysis, Interview,
}
use cvranking.Interviewer.Speakers.{Heard, interim_heard, final_heard, phrase_speaker}
use cvranking.Interviewer.Page.{
  give_turn, next_turn, analyze_if, insert_item, speaker_for, with_question, trigger_ai_analysis,
  handle_add_manual_message,
}
use cvranking.Interviewer.Page.Steps.{InterviewStep, interview_reset}

-- The same texts, or one text more at the end.
pub data Grows (before after : List TranscriptItem) : Type 0 where
  same : map (λ item. item.text) after ≡ map (λ item. item.text) before → Grows before after
  added : (item : TranscriptItem) → after ≡ before ++ item ∷ [] → Grows before after

-- At most one final text.
abbrev Quiet : List Heard → Type 0
Quiet [] = Unit
Quiet (interim_heard text ∷ rest) = Quiet rest
Quiet (final_heard text ∷ rest) = ⊥

abbrev OnePhrase : List Heard → Type 0
OnePhrase [] = Unit
OnePhrase (interim_heard text ∷ rest) = OnePhrase rest
OnePhrase (final_heard text ∷ rest) = Quiet rest

module _ {E R : Type 0} where
  transcript-next_turn :
      (auto_detect : Bool) (speaker : Speaker) (s : Interview E R)
      → (next_turn auto_detect speaker s).page.transcript ≡ s.page.transcript
  unfolding next_turn give_turn
  transcript-next_turn auto_detect candidate s = refl
  transcript-next_turn true interviewer s = refl
  transcript-next_turn false interviewer s = refl

  transcript-analyze_if :
      (b : Bool) (a : Analysis) (s : Interview E R)
      → (analyze_if b a s).page.transcript ≡ s.page.transcript
  unfolding analyze_if trigger_ai_analysis
  transcript-analyze_if true a s = refl
  transcript-analyze_if false a s = refl

  transcript-insert_item :
      (c : Closure) (item : TranscriptItem) (updated : List TranscriptItem) (s : Interview E R)
      → (insert_item c item updated s).page.transcript ≡ updated
  unfolding insert_item
  transcript-insert_item c item updated s = transcript-analyze_if _ _ _

  transcript-with_question :
      (b : Bool) (text : Text) (detected : Speaker) (s : Interview E R)
      → (with_question b text detected s).page.transcript ≡ s.page.transcript
  unfolding with_question
  transcript-with_question true text detected s = refl
  transcript-with_question false text detected s = refl

  module _ (lower_case : Text → Text) where
    pub transcript-add_manual :
        (text timestamp : Text) (named : Option Speaker) (s : Interview E R)
        → (handle_add_manual_message lower_case text timestamp named s).page.transcript
          ≡ s.page.transcript
            ++ (record {
              speaker = speaker_for named (phrase_speaker lower_case text) s.page.current_speaker;
              text = text;
              timestamp = timestamp;
            })
              ∷ []
    unfolding handle_add_manual_message
    transcript-add_manual text timestamp named s =
        transcript-next_turn s.page.auto_detect _ _ ∙ transcript-insert_item _ _ _ _

    -- The step is a reset.
    abbrev pub IsReset : (s t : Interview E R) → InterviewStep lower_case s t → Type 0
    IsReset s t interview_reset = Unit
    IsReset s t _ = ⊥
