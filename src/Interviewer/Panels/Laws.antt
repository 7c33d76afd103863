-- ===== src/Interviewer/Panels/Laws.antt =====
-- What sending a message and saving a key leave.
use cvranking.Prelude.{Option, ◌≡◌, refl, ap, ◌∙◌, true, none, some, [], ◌∷◌, ◌++◌}
use cvranking.Js.Text.{Text, trim, truthy, or_else}
use cvranking.Js.Text.Laws.{trim_idem}
use cvranking.Interviewer.Backend.{key_header}
use cvranking.Interviewer.Page.{handle_save_key, speaker_for}
use cvranking.Interviewer.Page.Steps.Answers.{item_of}
use cvranking.Interviewer.Page.Steps.Growth.{transcript-add_manual}
use cvranking.Interviewer.Panels.{
  ManualPanel, SettingsPanel, handle_send_manual, handle_save_key_submit,
}
use cvranking.Interviewer.Speakers.{phrase_speaker}
use cvranking.Interviewer.Types.{Speaker, Interview}

truthy-or_else : (s fallback : Text) → truthy s ≡ true → or_else s fallback ≡ s
truthy-or_else [] fallback h = cc h
truthy-or_else (c ∷ s) fallback h = refl

key_header-trim : (s : Text) → truthy (trim s) ≡ true → key_header (trim s) ≡ some (trim s)
unfolding key_header
key_header-trim s h = rw (trim_idem s, h) refl

-- Whom a message is from: the speaker that is chosen, else the one that its phrases tell, else the one
-- whose turn it is.
pub data IsFrom : (chosen told : Option Speaker) → (turn speaker : Speaker) → Type 0 where
  by_choice :
      (speaker : Speaker) (told : Option Speaker) (turn : Speaker)
      → IsFrom (some speaker) told turn speaker
  by_phrase : (speaker turn : Speaker) → IsFrom none (some speaker) turn speaker
  by_turn : (turn : Speaker) → IsFrom none none turn turn

speaker_for-IsFrom :
    (chosen told : Option Speaker) (turn : Speaker)
    → IsFrom chosen told turn (speaker_for chosen told turn)
unfolding speaker_for
speaker_for-IsFrom (some speaker) told turn = by_choice speaker told turn
speaker_for-IsFrom none (some speaker) turn = by_phrase speaker turn
speaker_for-IsFrom none none turn = by_turn turn

module _ {E R : Type 0} where
  -- A message that is not blank is put at the end of the transcript without the white space around it,
  -- from the speaker that is chosen, or else the one that its phrases tell, or else the current one; and
  -- the line is empty again.
  pub transcript-handle_send_manual :
      (lower_case : Text → Text) (timestamp : Text) (panel : ManualPanel) (s : Interview E R)
      → truthy (trim panel.manual_input) ≡ true
      → (speaker : Speaker) × IsFrom panel.manual_speaker
          (phrase_speaker lower_case (trim panel.manual_input))
          s.page.current_speaker
          speaker
        × ((handle_send_manual lower_case timestamp panel s).1.page.transcript
            ≡ s.page.transcript ++ item_of speaker (trim panel.manual_input) timestamp ∷ [])
        × ((handle_send_manual lower_case timestamp panel s).0.manual_input ≡ [])
  unfolding handle_send_manual
  transcript-handle_send_manual lower_case timestamp panel s h =
      let told = phrase_speaker lower_case (trim panel.manual_input) in
      rw h (
        speaker_for panel.manual_speaker told s.page.current_speaker,
        speaker_for-IsFrom panel.manual_speaker told s.page.current_speaker,
        transcript-add_manual lower_case (trim panel.manual_input) timestamp panel.manual_speaker s,
        refl,
      )

  -- A key that is typed in and saved is the one that the requests of the page carry in their header,
  -- without the white space around it, where it is not blank; and an error that was shown is gone.
  pub key_header-handle_save_key_submit :
      (default_key : Text) (panel : SettingsPanel) (s : Interview E R)
      → truthy (trim panel.input_key) ≡ true
      → (key_header (handle_save_key_submit default_key panel s).1.page.api_key
          ≡ some (trim panel.input_key))
        × ((handle_save_key_submit default_key panel s).1.page.ai_error ≡ none)
  unfolding handle_save_key_submit handle_save_key
  key_header-handle_save_key_submit default_key panel s h = (
    ap key_header (truthy-or_else (trim panel.input_key) default_key h)
        ∙ key_header-trim panel.input_key h,
    refl,
  )
