-- ===== src/Pages/NewJob.antt =====
-- The state and the handlers of frontend/app/jobs/new/page.tsx. A handler with an `await` is two
-- functions: what it does before its request, with the request, and what it does with the reply.
pub mod Laws
pub mod Formatting
use cvranking.Prelude.{
  ℕ, Bool, true, false, Option, none, some, List, [], ◌∷◌, ◌++◌, map, select, length, ltb, ◌==◌,
  if◌then◌else◌, ◌||◌,
}
use cvranking.Js.Decimal.{decimal}
use cvranking.Js.Text.{Text, units, text_eq, truthy, or_else, trim, split, split_lines, join}
use cvranking.Host.Action.{Thrown, error, Result, ok, throw}
use cvranking.Assistant.Edit.{
  drop_colon, heading_names, dash_bullet, collapse_newlines, space_headings,
}
use cvranking.Assistant.Types.{
  AssistantHost, AssistantState, AssistantRequest, AssistantResponse, AssistantBody, problem,
  edited, Sourced,
}
use cvranking.Pages.Requests.{
  Reply, lost, received, form_value, is_ok, problem_message, submit_demo_form, job_of,
}
use cvranking.Rerank.Keys.{comma}
use cvranking.Rerank.Values.{one_of}
use cvranking.Routes.{Form, Body, Response, post_route}
use cvranking.Host.{Host, World}
use cvranking.Assistant.{post}
use cvranking.Store.Types.{StoredJob}

pub record Outline : Type 0 where
  pub experience : Text
  pub must_have : Text
  pub nice_have : Text
  pub domain : Text

-- `location` is where the router was last sent.
pub record NewJobPage : Type 0 where
  pub title : Text
  pub jd : Text
  pub error : Text
  pub notice : Text
  pub creating : Bool
  pub outline_open : Bool
  pub assistant_thread_id : Text
  pub assistant_instruction : Text
  pub assistant_reply : Text
  pub assistant_draft : Text
  pub assistant_meta : Text
  pub assistant_busy : Bool
  pub outline : Outline
  pub location : Option Text

-- `createJD` up to its request.
unfoldable pub create_jd_start : NewJobPage → Option Form × NewJobPage
create_jd_start page =
    if ltb (length (trim page.jd)) 20
    then (none, record page { error = units "JD cần ít nhất 20 ký tự."; notice = [] })
    else (
      some (record {
        action = some (form_value (units "create_job"));
        title = some (form_value (or_else (trim page.title) (units "Untitled role")));
        jd = some (form_value (trim page.jd));
        job_id = none;
        files = [];
      }),
      record page { error = []; notice = []; creating = true },
    )

-- The page of the job that the server returned.
unfoldable pub open_job : StoredJob → NewJobPage → NewJobPage
open_job job page = record page {
  notice = units "Đã lưu JD “" ++ (job.title ++ units "”.");
  location = some (units "/jobs/" ++ job.id);
  creating = false;
}

unfoldable pub fail_create : (message : Text) → NewJobPage → NewJobPage
fail_create message page = record page { error = message; creating = false }

-- `createJD` with its reply. A payload without a job makes `result.job.title` throw an error, whose
-- message is that of the browser.
unfoldable pub create_jd_finish : (type_error : Text) → Reply Response → NewJobPage → NewJobPage
create_jd_finish type_error reply page = elim (submit_demo_form reply) [
  | throw thrown ↦ fail_create (problem_message thrown) page
  | ok body ↦ elim (job_of body) [
    | none ↦ fail_create type_error page
    | some job ↦ open_job job page
  ]
]

-- One line in `formatJD`: whether it is a heading is asked of the line in lower case.
unfoldable pub format_line : (lower_case : Text → Text) → Text → Text
format_line lower_case line =
    if one_of (drop_colon (lower_case line)) heading_names
    then drop_colon line ++ (10 ∷ [])
    else dash_bullet line

unfoldable pub format_text : (lower_case : Text → Text) → Text → Text
format_text lower_case jd =
    let lines = map (format_line lower_case) (select truthy (map trim (split_lines jd))) in
    trim (space_headings (collapse_newlines (join (10 ∷ []) lines)))

unfoldable pub format_jd : (lower_case : Text → Text) → NewJobPage → NewJobPage
format_jd lower_case page = record page { jd = format_text lower_case page.jd }

-- The items of a list that is written with commas.
unfoldable pub items_of : Text → List Text
items_of s = select truthy (map trim (split comma s))

-- `items.length ? items.join(…) : fallback`.
joined_or : (sep : Text) → List Text → (fallback : Text) → Text
joined_or sep [] fallback = fallback
joined_or sep (item ∷ items) fallback = join sep (item ∷ items)

unfoldable pub outline_text : (title : Text) → Outline → Text
unfolding joined_or
outline_text title outline =
    let role = or_else (trim title) (units "Untitled role") in
    let main_skills =
      joined_or (units ", ") (items_of outline.must_have)
        (units "core skills relevant to the role") in
    let platform = or_else (trim outline.domain) (units "the product platform") in
    let experience = or_else (trim outline.experience) (units "3+ years") in
    join (10 ∷ []) (
      units "About the role"
      ∷ (units "We are hiring a "
          ++ (role ++ (units " to help build and improve " ++ (platform ++ units "."))))
      ∷ []
      ∷ units "Key responsibilities"
      ∷ (units "- Own high-impact product and technical work for the "
          ++ (role ++ units " function."))
      ∷ units "- Collaborate with product, design and engineering teams to ship reliable workflows."
      ∷ units
          "- Improve quality, maintainability and operational visibility for the systems you own."
      ∷ []
      ∷ units "Requirements"
      ∷ (units "- " ++ (experience ++ units " of relevant production experience."))
      ∷ (units "- Strong hands-on experience with " ++ (main_skills ++ units "."))
      ∷ units "- Able to communicate trade-offs clearly and work well in a cross-functional team."
      ∷ []
      ∷ units "Nice to have"
      ∷ joined_or (10 ∷ []) (map (λ item. units "- " ++ item) (items_of outline.nice_have))
          (units "- Experience with adjacent tools, cloud platforms or analytics workflows.")
      ∷ [])

unfoldable pub generate_jd_from_outline : NewJobPage → NewJobPage
generate_jd_from_outline page = record page { jd = outline_text page.title page.outline }

-- `askJDAssistant` up to its request. A thread id that is empty is left out.
unfoldable pub ask_start : (instruction : Text) → NewJobPage → Option AssistantRequest × NewJobPage
ask_start instruction page =
    if truthy (trim instruction)
    then (
      some (record {
        thread_id = if truthy page.assistant_thread_id then some page.assistant_thread_id else none;
        title = some page.title;
        jd = some page.jd;
        message = some (trim instruction);
      }),
      record page { error = []; notice = []; assistant_busy = true },
    )
    else (none, record page { error = units "Nhập yêu cầu bạn muốn AI chỉnh JD." })

-- The line under the reply: every provider but Gemini is shown as the local fallback.
unfoldable pub meta_of : Sourced → (turns : ℕ) → (gemini_configured : Bool) → Text
meta_of sourced turns gemini_configured =
    if text_eq sourced.provider (units "gemini")
    then units "Gemini · "
      ++ (sourced.model ++ (units " · nhớ " ++ (decimal turns ++ units " lượt")))
    else units "Fallback local · "
      ++ (sourced.model
          ++ (units " · "
              ++ (if gemini_configured
                  then units "Gemini lỗi/limit"
                  else units "chưa cấu hình key")))

unfoldable pub fail_ask : (message : Text) → NewJobPage → NewJobPage
fail_ask message page = record page { error = message; assistant_busy = false }

-- A payload that is taken. Fields that are missing are kept as empty texts, which the page reads alike.
unfoldable pub take_reply : AssistantBody → NewJobPage → NewJobPage
take_reply (edited thread_id sourced turns gemini_configured groq_configured) page = record page {
  assistant_thread_id = thread_id;
  assistant_reply = sourced.result.reply;
  assistant_draft = sourced.result.revised_jd;
  assistant_meta = meta_of sourced turns gemini_configured;
  assistant_instruction = [];
  assistant_busy = false;
}
take_reply (problem message) page = record page {
  assistant_thread_id = [];
  assistant_reply = [];
  assistant_draft = [];
  assistant_meta = units "Fallback local · undefined · chưa cấu hình key";
  assistant_instruction = [];
  assistant_busy = false;
}

-- `payload.detail ?? "…"`.
assistant_detail : AssistantBody → Text
assistant_detail (problem message) = message
assistant_detail (edited _ _ _ _ _) = units "Không thể gọi JD assistant."

-- `askJDAssistant` with its reply.
unfoldable pub ask_finish : Reply AssistantResponse → NewJobPage → NewJobPage
unfolding assistant_detail
ask_finish (lost message) page = fail_ask message page
ask_finish (received response) page =
    if is_ok response.status
    then take_reply response.body page
    else fail_ask (assistant_detail response.body) page

unfoldable pub apply_assistant_draft : NewJobPage → NewJobPage
apply_assistant_draft page =
    if truthy page.assistant_draft
    then record page {
      jd = page.assistant_draft;
      notice = units "Đã áp dụng bản JD do assistant đề xuất.";
    }
    else page

-- `createJD` in one piece, where the request reaches the server and nothing else happens meanwhile.
unfoldable pub send_create :
    Host → (type_error : Text) → Option Form → NewJobPage → World → NewJobPage × World
send_create host type_error none page w = (page, w)
send_create host type_error (some form) page w =
    let (response, w') = post_route host form w in
    (create_jd_finish type_error (received response) page, w')

unfoldable pub create_jd : Host → (type_error : Text) → NewJobPage → World → NewJobPage × World
create_jd host type_error page w =
    let (request, waiting) = create_jd_start page in send_create host type_error request waiting w

-- `askJDAssistant` in one piece, likewise.
unfoldable pub send_question :
    AssistantHost
    → Option AssistantRequest
    → NewJobPage
    → AssistantState
    → NewJobPage × AssistantState
send_question host none page s = (page, s)
send_question host (some request) page s =
    let (response, s') = post host (ok request) s in (ask_finish (received response) page, s')

unfoldable pub ask_jd_assistant :
    AssistantHost → (instruction : Text) → NewJobPage → AssistantState → NewJobPage × AssistantState
ask_jd_assistant host instruction page s =
    let (request, waiting) = ask_start instruction page in send_question host request waiting s
