-- ===== src/Pages/Shell.antt =====
-- The state and the handlers of the tools in frontend/components/demo-shell.tsx. A handler with an
-- `await` is two functions: what it does before its request, with the request, and what it does with
-- the reply.
pub mod Tools
pub mod Workspace
pub mod Imports
use cvranking.Prelude.{
  ℕ, zero, suc, Bool, true, false, ◌||◌, Option, none, some, List, [], ◌∷◌, ◌++◌, find, length,
  coalesce, ◌==◌, if◌then◌else◌,
}
use cvranking.Js.Decimal.{decimal}
use cvranking.Js.Text.{Text, units, text_eq, strip_prefix}
use cvranking.Host.{Host, World, UploadedFile}
use cvranking.Host.Action.{Thrown, Result, ok, throw}
use cvranking.Pages.JobList.{jobs_in}
use cvranking.Pages.Requests.{
  Reply, received, form_value, load_store, problem_message, submit_demo_form, job_of,
}
use cvranking.Routes.{Form, Body, uploaded, ranked_once, Response, post_route}
use cvranking.Store.Types.{StoredJob}
use cvranking.Upload.{UploadResponse}

-- `location` is where the browser was last sent.
pub record Shell : Type 0 where
  pub tools_open : Bool
  pub tool_status : Text
  pub tool_error : Text
  pub tool_busy : Bool
  pub import_jobs : List StoredJob
  pub selected_import_job_id : Text
  pub import_files : List UploadedFile
  pub import_result : Option UploadResponse
  pub location : Option Text

abbrev pub find_id : Text → List StoredJob → Option StoredJob
find_id id jobs = find (λ job. text_eq job.id id) jobs

unfoldable pub selected_import_job : Shell → Option StoredJob
selected_import_job shell = find_id shell.selected_import_job_id shell.import_jobs

-- The units before the first `/`, `?` or `#`.
unfoldable pub path_segment : Text → Text
path_segment [] = []
path_segment (c ∷ s) =
    let rest = path_segment s in if (c == 47 || c == 63) || c == 35 then [] else c ∷ rest

abbrev segment_in : Option Text → Option Text
segment_in none = none
segment_in (some s) = elim (path_segment s) [ [] ↦ none | c ∷ rest ↦ some (c ∷ rest) ]

-- `pathname?.match(/^\/jobs\/([^/?#]+)/)?.[1]`.
unfoldable pub detail_job_id : Option Text → Option Text
detail_job_id none = none
detail_job_id (some pathname) = segment_in (strip_prefix (units "/jobs/") pathname)

unfoldable pub first_id : List StoredJob → Text
first_id [] = []
first_id (job ∷ jobs) = job.id

-- The id where a job has it, or what is chosen in its place.
unfoldable pub id_or : Text → Option StoredJob → Text → Text
id_or id (some job) fallback = id
id_or id none fallback = fallback

unfoldable pub id_in_path : Option Text → List StoredJob → Text
id_in_path none jobs = first_id jobs
id_in_path (some id) jobs = id_or id (find_id id jobs) (first_id jobs)

-- The job that stays chosen, or the one that the page is about, or the first.
unfoldable pub chosen_id : (pathname : Option Text) → List StoredJob → (current : Text) → Text
chosen_id pathname jobs current =
    id_or current (find_id current jobs) (id_in_path (detail_job_id pathname) jobs)

-- `refreshImportJobs` with the reply of the store.
unfoldable pub refresh_import_jobs : (pathname : Option Text) → Reply Response → Shell → Shell
refresh_import_jobs pathname reply shell = elim (load_store reply) [
  | throw thrown ↦ record shell { tool_error = problem_message thrown }
  | ok body ↦ record shell {
    import_jobs = jobs_in body;
    selected_import_job_id = chosen_id pathname (jobs_in body) shell.selected_import_job_id;
  }
]

abbrev pub shell_form : (action : Text) → Form
shell_form action = record {
  action = some (form_value action);
  title = none;
  jd = none;
  job_id = none;
  files = [];
}

-- A handler begins.
unfoldable pub begin_tool : (status : Text) → Shell → Shell
begin_tool status shell = record shell { tool_busy = true; tool_error = []; tool_status = status }

unfoldable pub fail_tool : (message : Text) → Shell → Shell
fail_tool message shell = record shell { tool_error = message; tool_busy = false }

-- A handler ends with the page that it opens.
unfoldable pub end_tool : (status location : Text) → Shell → Shell
end_tool status location shell = record shell {
  tool_status = status;
  location = some location;
  tool_busy = false;
}

unfoldable pub reset_start : Shell → Form × Shell
reset_start shell =
    (shell_form (units "reset_store"), begin_tool (units "Đang làm sạch workspace...") shell)

unfoldable pub reset_finish : Reply Response → Shell → Shell
reset_finish reply shell = elim (submit_demo_form reply) [
  | throw thrown ↦ fail_tool (problem_message thrown) shell
  | ok body ↦ end_tool (units "Đã reset workspace.") (units "/jobs") shell
]

unfoldable pub import_form : Text → List UploadedFile → Form
import_form job_id files = record (shell_form (units "upload_cvs")) {
  job_id = some (form_value job_id);
  files = files;
}

unfoldable pub import_request : Option StoredJob → List UploadedFile → Shell → Option Form × Shell
import_request none files shell = (
  none,
  record shell {
    tool_error = units "Chưa có JD để import CV. Tạo JD trước rồi upload CV vào vị trí đó.";
  },
)
import_request (some job) [] shell =
    (none, record shell { tool_error = units "Chọn ít nhất một CV PDF hoặc DOCX." })
import_request (some job) (file ∷ files) shell = (
  some (import_form job.id (file ∷ files)),
  begin_tool
      (units "Đang parse "
        ++ (decimal (length (file ∷ files)) ++ (units " CV cho “" ++ (job.title ++ units "”..."))))
      shell,
)

-- `importCVsToJob` up to its request.
unfoldable pub import_start : Shell → Option Form × Shell
import_start shell = import_request (selected_import_job shell) shell.import_files shell

unfoldable pub upload_of : Body → Option UploadResponse
upload_of (uploaded job upload) = some upload
upload_of (ranked_once upload run saved_job job) = some upload
upload_of _ = none

-- The upload is shown and the files are taken off before anything is read of it.
unfoldable pub show_upload : Option UploadResponse → Shell → Shell
show_upload upload shell = record shell { import_result = upload; import_files = [] }

unfoldable pub imported :
    (type_error : Text) → Option UploadResponse → Option StoredJob → Shell → Shell
imported type_error (some upload) (some job) shell =
    end_tool
      (units "Đã lưu "
        ++ (decimal upload.accepted ++ (units " CV vào “" ++ (job.title ++ units "”."))))
      (units "/jobs/" ++ job.id) shell
imported type_error _ _ shell = fail_tool type_error shell

-- `importCVsToJob` with its reply. A payload without an upload makes `result.upload.accepted` throw an
-- error, whose message is that of the browser.
unfoldable pub import_finish : (type_error : Text) → Reply Response → Shell → Shell
import_finish type_error reply shell = elim (submit_demo_form reply) [
  | throw thrown ↦ fail_tool (problem_message thrown) shell
  | ok body ↦
      imported type_error (upload_of body) (job_of body) (show_upload (upload_of body) shell)
]

-- `importCVsToJob` in one piece, where the request reaches the server and nothing else happens
-- meanwhile.
unfoldable pub send_import :
    Host → (type_error : Text) → Option Form × Shell → World → Shell × World
send_import host type_error (none, shell) w = (shell, w)
send_import host type_error (some form, shell) w =
    let (response, w') = post_route host form w in
    (import_finish type_error (received response) shell, w')

unfoldable pub import_cvs_to_job : Host → (type_error : Text) → Shell → World → Shell × World
import_cvs_to_job host type_error shell w = send_import host type_error (import_start shell) w
