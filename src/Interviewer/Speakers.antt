-- ===== src/Interviewer/Speakers.antt =====
-- Who speaks: the key phrases of the page, and the speech service.
use cvranking.Prelude.{
  Bool, true, false, not, ◌&&◌, ◌||◌, Option, none, some, List, [], ◌∷◌, ◌++◌, if◌then◌else◌,
}
use cvranking.Js.Text.{Text, units, trim, starts_with, includes, text_eq, truthy}
use cvranking.Interviewer.Types.{Speaker, interviewer, candidate, Closure, Speech}

unfoldable pub other_speaker : Speaker → Speaker
other_speaker interviewer = candidate
other_speaker candidate = interviewer

unfoldable pub is_candidate : Speaker → Bool
is_candidate candidate = true
is_candidate interviewer = false

unfoldable pub same_speaker : Speaker → Speaker → Bool
same_speaker interviewer interviewer = true
same_speaker candidate candidate = true
same_speaker _ _ = false

unfoldable pub starts_with_any : List Text → Text → Bool
starts_with_any [] s = false
starts_with_any (p ∷ ps) s = starts_with p s || starts_with_any ps s

unfoldable pub question_phrases : List Text
question_phrases =
    units "tại sao"
    ∷ units "hãy"
    ∷ units "em hãy"
    ∷ units "bạn có thể"
    ∷ units "cho anh hỏi"
    ∷ units "chào em"
    ∷ units "bạn hãy"
    ∷ units "giải thích"
    ∷ []

unfoldable pub answer_phrases : List Text
answer_phrases =
    units "dạ"
    ∷ units "theo em"
    ∷ units "trong dự án"
    ∷ units "trước đây em"
    ∷ units "cá nhân em"
    ∷ units "em nghĩ"
    ∷ units "tôi nghĩ"
    ∷ units "kinh nghiệm"
    ∷ []

-- `toLowerCase` is a parameter: its table of letters is no part of the repository.
module _ (lower_case : Text → Text) where
  unfoldable pub is_interviewer_q : Text → Bool
  is_interviewer_q text =
      includes (units "?") text || starts_with_any question_phrases (trim (lower_case text))

  unfoldable pub is_candidate_a : Text → Bool
  is_candidate_a text = starts_with_any answer_phrases (trim (lower_case text))

  -- The speaker that the phrases tell, unless they tell none or both.
  unfoldable pub phrase_speaker : Text → Option Speaker
  phrase_speaker text =
      let q = is_interviewer_q text in
      let a = is_candidate_a text in
      if q && not a then some interviewer else if a && not q then some candidate else none

-- The methods of the service that only change its state.
unfoldable pub set_speaker : Speaker → Speech → Speech
set_speaker speaker s = record s { speaker = speaker }

unfoldable pub toggle_speaker : Speech → Speech
toggle_speaker s = record s { speaker = other_speaker s.speaker }

unfoldable pub set_language : Text → Speech → Speech
set_language language s = record s { language = language }

unfoldable pub stop_listening : Speech → Speech
stop_listening s = record s { listening = false; timer = false }

-- Whether listening is supported, and the service with the callback.
unfoldable pub start_listening : Closure → Speech → Bool × Speech
start_listening callback s =
    if s.supported
    then (true, record s { callback = some callback; listening = true })
    else (false, s)

-- What the service hands to its callback.
pub data Heard : Type 0 where
  interim_heard : Text → Heard
  final_heard : Text → Heard

-- The part of `onresult` about an interim text: a new phrase forgets the last final text.
unfoldable pub note_interim : Text → Speech → Speech × List Heard
note_interim [] s = (s, [])
note_interim (c ∷ interim) s = (
  record s {
    last_final = if truthy s.interim then s.last_final else [];
    interim = c ∷ interim;
    timer = true;
  },
  interim_heard (c ∷ interim) ∷ [],
)

-- A final text, unless it is the one before.
unfoldable pub note_text : Text → Speech → Speech × List Heard
note_text text s =
    if text_eq text s.last_final
    then (s, [])
    else (record s { last_final = text }, final_heard text ∷ [])

-- The part about a final text.
unfoldable pub note_final : Text → Speech → Speech × List Heard
note_final [] s = (s, [])
note_final (c ∷ final) s = note_text (trim (c ∷ final)) (record s { timer = false; interim = [] })

abbrev then_note : Speech × List Heard → (Speech → Speech × List Heard) → Speech × List Heard
then_note (s, heard) next = let (s', more) = next s in (s', heard ++ more)

-- `onresult`, with the interim and the final texts of the event put together.
unfoldable pub on_result : (interim final : Text) → Speech → Speech × List Heard
on_result interim final s = then_note (note_interim interim s) (note_final final)

unfoldable pub flush_text : Text → Speech → Speech × List Heard
flush_text [] s = (s, [])
flush_text (c ∷ interim) s = note_text (trim (c ∷ interim)) (record s { interim = [] })

-- `flushFinal`: the interim text becomes a final one, if there is a callback for it.
unfoldable pub flush_for : Option Closure → Speech → Speech × List Heard
flush_for none s = (s, [])
flush_for (some callback) s = flush_text s.interim s

unfoldable pub flush_final : Speech → Speech × List Heard
flush_final s = flush_for s.callback s

-- The timer of 800 ms runs out.
unfoldable pub timer_fires : Speech → Speech × List Heard
timer_fires s = flush_final (record s { timer = false })

-- `onerror`: a refusal of the microphone stops the service.
unfoldable pub on_error : Text → Speech → Speech
on_error error s = if text_eq error (units "not-allowed") then stop_listening s else s
