-- ===== src/Interviewer/Page/Steps/Answers.antt =====
-- Answers and phrases that come late.
use cvranking.Prelude.{
  ◌≡◌, ◌≢◌, refl, sym, ap, ◌∙◌, false, Bool-cases, inl, inr, Option, none, some, List, [], ◌∷◌,
  ◌++◌,
}
use cvranking.Js.Text.{Text, trim, text_eq, text_eq_iff}
use cvranking.Interviewer.Types.{Speaker, TranscriptItem, Closure, Speech, Interview}
use cvranking.Interviewer.Speakers.{
  same_speaker, phrase_speaker, note_interim, note_text, note_final, on_result, flush_text,
  flush_for, flush_final, timer_fires,
}
use cvranking.Interviewer.Page.Steps.Growth.{transcript-add_manual}
use cvranking.Interviewer.Page.{
  map_last, give_turn, speaker_for, handle_add_manual_message, manual_classified,
}

abbrev pub item_of : Speaker → (text timestamp : Text) → TranscriptItem
item_of speaker text timestamp = record { speaker = speaker; text = text; timestamp = timestamp }

map_last-append :
    (f : TranscriptItem → TranscriptItem) (items : List TranscriptItem) (last : TranscriptItem)
    → map_last f (items ++ last ∷ []) ≡ items ++ f last ∷ []
unfolding map_last
map_last-append f [] last = refl
map_last-append f (item ∷ []) last = refl
map_last-append f (item ∷ next ∷ rest) last = ap (◌∷◌ item) (map_last-append f (next ∷ rest) last)

module _ {E R : Type 0} where
  transcript-give_turn :
      (speaker : Speaker) (s : Interview E R)
      → (give_turn speaker s).page.transcript ≡ s.page.transcript
  unfolding give_turn
  transcript-give_turn speaker s = refl

  transcript-manual_classified :
      (detected speaker : Speaker) (s : Interview E R) (items : List TranscriptItem)
      (last : TranscriptItem)
      → same_speaker speaker detected ≡ false
      → s.page.transcript ≡ items ++ last ∷ []
      → (manual_classified detected (some speaker) s).page.transcript
        ≡ items ++ item_of speaker last.text last.timestamp ∷ []
  unfolding manual_classified give_turn
  transcript-manual_classified detected speaker s items last ne e = rw ne (
      ap (map_last (λ (item : TranscriptItem). record item { speaker = speaker })) e
      ∙ map_last-append (λ (item : TranscriptItem). record item { speaker = speaker }) items last)

  module _ (lower_case : Text → Text) where
    -- When another item has come behind a message whose speaker is asked for, typed or spoken and from
    -- whomever, before the answer comes, and the answer is not the speaker that was assumed, the answer
    -- changes the speaker of that other item, and the message keeps the assumed speaker.
    pub manual_classified-late :
        (text timestamp : Text) (speaker : Speaker) (s t : Interview E R) (last : TranscriptItem)
        → phrase_speaker lower_case text ≡ none
        → same_speaker speaker s.page.current_speaker ≡ false
        → t.page.transcript
          ≡ (handle_add_manual_message lower_case text timestamp none s).page.transcript
            ++ last ∷ []
        → (manual_classified s.page.current_speaker (some speaker) t).page.transcript
          ≡ (s.page.transcript ++ item_of s.page.current_speaker text timestamp ∷ [])
            ++ item_of speaker last.text last.timestamp ∷ []
    unfolding speaker_for
    manual_classified-late text timestamp speaker s t last asked ne came =
        transcript-manual_classified s.page.current_speaker speaker t
          (s.page.transcript ++ item_of s.page.current_speaker text timestamp ∷ []) last ne
          (came
            ∙ ap (λ items. items ++ last ∷ [])
                (transcript-add_manual lower_case text timestamp none s
                  ∙ ap
                      (λ known.
                        s.page.transcript
                        ++ item_of (speaker_for none known s.page.current_speaker) text timestamp
                          ∷ [])
                      asked))

-- A text is the last one once it is heard.
last_final-note_text : (text : Text) (s : Speech) → (note_text text s).0.last_final ≡ text
unfolding note_text
last_final-note_text text s = elim (Bool-cases (text_eq text s.last_final)) [
  | inl e ↦ rw e (sym ((text_eq_iff text s.last_final).0 e))
  | inr e ↦ rw e refl
]

last_final-flush_text :
    (text : Text) (s : Speech) → text ≢ [] → (flush_text text s).0.last_final ≡ trim text
unfolding flush_text
last_final-flush_text [] s h = absurd (h refl)
last_final-flush_text (c ∷ text) s h =
    last_final-note_text (trim (c ∷ text)) (record s { interim = [] })

last_final-flush_for :
    (callback : Option Closure) (known : Closure) (s : Speech)
    → callback ≡ some known
    → s.interim ≢ []
    → (flush_for callback s).0.last_final ≡ trim s.interim
unfolding flush_for
last_final-flush_for none known s e h = absurd (cc e)
last_final-flush_for (some callback) known s e h = last_final-flush_text s.interim s h

note_text_again : (text : Text) (s : Speech) → s.last_final ≡ text → (note_text text s).1 ≡ []
unfolding note_text
note_text_again text s e = rw ((text_eq_iff text s.last_final).1 (sym e)) refl

note_final_again :
    (final : Text) (s : Speech) → s.last_final ≡ trim final → (note_final final s).1 ≡ []
unfolding note_final
note_final_again [] s e = refl
note_final_again (c ∷ final) s e =
    note_text_again (trim (c ∷ final)) (record s { timer = false; interim = [] }) e

-- When the timer fires while there is an interim text and a callback, a final text that the recognizer
-- then gives, alone in its event, is not handed to the callback if it is that interim text but for the
-- spaces around it.
pub on_result-timer_fires :
    (s : Speech) (callback : Closure) (final : Text)
    → s.callback ≡ some callback
    → s.interim ≢ []
    → trim final ≡ trim s.interim
    → (on_result [] final (timer_fires s).0).1 ≡ []
unfolding on_result note_interim timer_fires flush_final
on_result-timer_fires s callback final e h same =
    note_final_again final (timer_fires s).0
      (last_final-flush_for s.callback callback (record s { timer = false }) e h ∙ sym same)
