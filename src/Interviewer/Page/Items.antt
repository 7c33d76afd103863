-- ===== src/Interviewer/Page/Items.antt =====
-- What the handlers of the interviewer page do to items, speakers and errors.
use cvranking.Prelude.{
  ℕ, zero, suc, Bool, true, false, Option, none, some, List, [], ◌∷◌, find, coalesce,
}
use mathlib.Core.List.{reverse}
use cvranking.Host.Action.{Thrown, demo_problem, error, other}
use cvranking.Js.Text.{Text, units, or_else, text_eq}
use cvranking.Interviewer.Types.{Speaker, candidate, TranscriptItem, Analysis, Task}
use cvranking.Interviewer.Speakers.{same_speaker}

-- The last item of a speaker: `[...transcript].reverse().find(…)`.
unfoldable pub last_of : Speaker → List TranscriptItem → Option TranscriptItem
last_of speaker transcript = find (λ item. same_speaker item.speaker speaker) (reverse transcript)

-- An item changed where it is the last one.
unfoldable pub map_last :
    (TranscriptItem → TranscriptItem) → List TranscriptItem → List TranscriptItem
map_last f [] = []
map_last f (item ∷ []) = f item ∷ []
map_last f (item ∷ next ∷ rest) = item ∷ map_last f (next ∷ rest)

unfoldable pub remove_task : ℕ → List Task → List Task
remove_task i [] = []
remove_task zero (t ∷ ts) = ts
remove_task (suc i) (t ∷ ts) = t ∷ remove_task i ts

-- What a caught value says, or the text for one that says nothing.
unfoldable pub error_text : Thrown → Text → Text
error_text (demo_problem status message) fallback = or_else message fallback
error_text (error message) fallback = or_else message fallback
error_text other fallback = fallback

abbrev pub analysis_failure : Text
analysis_failure = units "Lỗi khi suy luận AI. Vui lòng kiểm tra Quota hoặc khóa API Key."

abbrev pub report_failure : Text
report_failure = units "Lỗi tổng hợp báo cáo AI cuối cùng."

abbrev pub standard : Text
standard = units "standard"

-- Whom a typed message is from: the speaker named, the one that the phrases tell, or the current one.
unfoldable pub speaker_for : (named phrase : Option Speaker) → (current : Speaker) → Speaker
speaker_for (some speaker) phrase current = speaker
speaker_for none phrase current = coalesce phrase current

unfoldable pub asks_for : (named phrase : Option Speaker) → Bool
asks_for none none = true
asks_for _ _ = false

-- An answer of the candidate is evaluated, in the standard analysis.
unfoldable pub evaluates : Analysis → Bool
evaluates analysis = elim (last_of candidate analysis.transcript) [
  | none ↦ false
  | some item ↦ text_eq analysis.angle standard
]
