-- ===== src/Interviewer/Backend.antt =====
-- aiService.js: the requests to the backend of the assistant, and what is made of its answers; and
-- `handleMessage` of liveApiService.js.
use cvranking.Prelude.{
  ℕ, Bool, ◌&&◌, ◌||◌, Option, none, some, List, [], ◌∷◌, ◌++◌, get_elem?, length, ◌-◌, coalesce,
  if◌then◌else◌,
}
use cvranking.Host.Action.{Result, ok, throw, Thrown, error}
use cvranking.Js.Decimal.{decimal}
use cvranking.Js.Text.{Text, units, or_else, trim, truthy, includes}
use cvranking.Rerank.Providers.{is_ok_status}
use cvranking.Interviewer.Types.{
  interviewer, candidate, TranscriptItem, Task, asks_questions, asks_evaluation, classifies_final,
  classifies_manual, asks_report, InterviewPage,
}
use cvranking.Interviewer.Page.{last_of}

-- The payloads, by their endpoints.
pub data Payload (E : Type 0) : Type 0 where
  starter_questions : (domain_context level_context angle : Text) → Payload E
  deep_dive :
      (transcript_history : List TranscriptItem)
      (last_candidate_answer domain_context level_context angle : Text)
      → Payload E
  evaluate : (question answer domain_context level_context : Text) → Payload E
  final_evaluation :
      (transcript_history : List TranscriptItem) (domain_context level_context : Text)
      (turn_evaluations : List E)
      → Payload E
  classify_speaker : (text : Text) (recent_history : List TranscriptItem) → Payload E

-- The header with the key, unless it is blank.
unfoldable pub key_header : Text → Option Text
key_header api_key = if truthy (trim api_key) then some (trim api_key) else none

-- An answer of the backend: the status with the fields of the body, which are missing where it is no
-- JSON.
pub data BackendAnswer (A : Type 0) : Type 0 where
  failed : (message : Text) → BackendAnswer A
  answer : (status : ℕ) (success : Bool) (problem : Option Text) (result : A) → BackendAnswer A

abbrev pub backend_unreachable : Text
backend_unreachable =
    units
      "❌ [Lỗi Kết Nối Backend]: Không thể kết nối đến máy chủ BE tại port 3001. Vui lòng đảm bảo bạn đã chạy lệnh khởi động Backend ('cd BE && npm run dev')."

-- The message of a failed connection, in other words.
unfoldable pub connection_error : Text → Thrown
connection_error message =
    if includes (units "Failed to fetch") message || includes (units "NetworkError") message
    then error backend_unreachable
    else error message

unfoldable pub call_backend : {A : Type 0} → BackendAnswer A → Result A
call_backend (failed message) = throw (connection_error message)
call_backend (answer status success problem result) =
    if is_ok_status status && success
    then ok result
    else throw (
        connection_error (
          or_else (coalesce problem [])
            (units "HTTP " ++ (decimal status ++ units ": Lỗi từ máy chủ Backend."))))

abbrev pub no_question : Text
no_question = units "Hãy trình bày chi tiết về kỹ năng và kinh nghiệm thực tế của bạn."

unfoldable pub text_of_item : Option TranscriptItem → Text
text_of_item none = []
text_of_item (some item) = item.text

-- What a task asks for: the key and the payload. A task of a callback has what its rendering showed, and
-- the others what the page shows when they are begun.
unfoldable pub request_of : {E R : Type 0} → InterviewPage E R → Task → Text × Payload E
request_of page (asks_questions a) = elim a.transcript [
  | [] ↦ (a.api_key, starter_questions a.job_domain a.job_level a.angle)
  | item ∷ rest ↦ (
    a.api_key,
    deep_dive a.transcript
        (or_else a.last_text (text_of_item (get_elem? a.transcript (length a.transcript - 1))))
        a.job_domain a.job_level a.angle,
  )
]
request_of page (asks_evaluation a) = (
  a.api_key,
  evaluate (or_else (text_of_item (last_of interviewer a.transcript)) no_question)
      (text_of_item (last_of candidate a.transcript)) a.job_domain a.job_level,
)
request_of page (classifies_final c text timestamp detected) =
    (c.api_key, classify_speaker text c.transcript)
request_of page (classifies_manual text detected) =
    (page.api_key, classify_speaker text page.transcript)
request_of page asks_report =
    (page.api_key, final_evaluation page.transcript page.job_domain page.job_level page.evaluations)

-- A message of the live connection: whether the turn is complete, which the page has no handler for,
-- and the texts of its parts.
pub record ServerContent : Type 0 where
  pub turn_complete : Bool
  pub parts : Option (List (Option Text))

unfoldable pub part_texts : List (Option Text) → List Text
part_texts [] = []
part_texts (none ∷ parts) = part_texts parts
part_texts (some [] ∷ parts) = part_texts parts
part_texts (some (u ∷ text) ∷ parts) = (u ∷ text) ∷ part_texts parts

unfoldable pub handle_message : Option ServerContent → List Text
handle_message none = []
handle_message (some content) = part_texts (coalesce content.parts [])
