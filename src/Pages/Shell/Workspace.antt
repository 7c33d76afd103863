-- ===== src/Pages/Shell/Workspace.antt =====
-- `seedWorkspace` of frontend/components/demo-shell.tsx, over the files that the front end serves and
-- the handler of the ranking route.
pub mod Settling
use cvranking.Prelude.{
  ℕ, suc, ◌+◌, Bool, true, false, Option, none, some, List, [], ◌∷◌, ◌++◌, length, coalesce,
  if◌then◌else◌,
}
use cvranking.Js.Decimal.{decimal}
use cvranking.Js.Text.{Text, units, or_else}
use cvranking.Host.{Host, World, UploadedFile, Fetched, unreachable, answered}
use cvranking.Host.Action.{Thrown, error, Result, ok, throw, Action, pure, lift, ◌>>=◌, ◌>>◌}
use cvranking.Pages.Requests.{
  received, form_value, is_ok, problem_message, submit_demo_form, job_of,
}
use cvranking.Pages.Shell.{Shell, shell_form, begin_tool, import_form, fail_tool, end_tool}
use cvranking.Routes.{Form, Body, post_route}
use cvranking.Store.Types.{StoredJob}

pub record FixtureCv : Type 0 where
  pub name : Text
  pub path : Text

pub record FixtureSet : Type 0 where
  pub name : Text
  pub job_config_path : Text
  pub cvs : List FixtureCv

pub record JobFixture : Type 0 where
  pub title : Text
  pub description : Text

-- The files that the front end serves, what the browser says over a body that is no JSON and over a
-- payload without a job, and what `file.text()` reads. A CV is a type with a content.
pub record Fixtures : Type 0 where
  pub manifest : Fetched (List FixtureSet)
  pub job_config : Text → Fetched JobFixture
  pub cv : Text → Fetched (Text × Text)
  pub json_error : Text → Text
  pub type_error : Text
  pub text_of : Text → Option Text

-- A response with its value, or the error for one that is not ok.
unfoldable pub value_of :
    {A : Type 0} → (json_error : Text → Text) → (problem : Text) → Fetched A → Result A
value_of json_error problem (unreachable message) = throw (error message)
value_of json_error problem (answered status body value) =
    if is_ok status
    then elim value [ none ↦ throw (error (json_error body)) | some v ↦ ok v ]
    else throw (error problem)

unfoldable pub to_file : (Text → Option Text) → FixtureCv → Text × Text → UploadedFile
to_file text_of cv (type, content) = record {
  name = cv.name;
  type = or_else type (units "application/pdf");
  bytes = content;
  text = text_of content;
}

-- `Promise.all`, with the answers in the order of the list.
unfoldable pub fetch_files : Fixtures → List FixtureCv → Result (List UploadedFile)
fetch_files fixtures [] = ok []
fetch_files fixtures (cv ∷ cvs) =
    let rest = fetch_files fixtures cvs in
    elim (value_of fixtures.json_error (units "Không tải được " ++ (cv.name ++ units "."))
      (fixtures.cv cv.path)) [
        | throw e ↦ throw e
        | ok blob ↦ elim rest [
          | throw e ↦ throw e
          | ok files ↦ ok (to_file fixtures.text_of cv blob ∷ files)
        ]
      ]

unfoldable pub job_or_error : (type_error : Text) → Option StoredJob → Result StoredJob
job_or_error type_error none = throw (error type_error)
job_or_error type_error (some job) = ok job

-- `submitDemoForm`, where the request reaches the server.
unfoldable pub submit : Host → Form → Action Body
submit host form w =
    let (response, w') = post_route host form w in (submit_demo_form (received response), w')

unfoldable pub create_form : JobFixture → Form
create_form job = record (shell_form (units "create_job")) {
  title = some (form_value job.title);
  jd = some (form_value job.description);
}

unfoldable pub rank_form : Text → Form
rank_form job_id = record (shell_form (units "run_ranking")) { job_id = some (form_value job_id) }

module _ (host : Host) (fixtures : Fixtures) where
  -- One set: its job is created, gets the set's CVs and is ranked.
  unfoldable pub seed_set : FixtureSet → Action Body
  seed_set set = do
    job ← lift (
        value_of fixtures.json_error (units "Không tải được JD " ++ (set.name ++ units "."))
          (fixtures.job_config set.job_config_path))
    created ← submit host (create_form job)
    files ← lift (fetch_files fixtures set.cvs)
    stored ← lift (job_or_error fixtures.type_error (job_of created))
    submit host (import_form stored.id files)
    submit host (rank_form stored.id)

  unfoldable pub set_status : (index total : ℕ) → FixtureSet → Text
  set_status index total set =
      units "Đang tạo JD "
      ++ (decimal (index + 1) ++ (units "/" ++ (decimal total ++ (units ": " ++ set.name))))

  -- The sets one after the other, with the status that is shown.
  unfoldable pub seed_sets :
      (index total : ℕ) → List FixtureSet → (status : Text) → World → Text × (Option Thrown × World)
  seed_sets index total [] status w = (status, (none, w))
  seed_sets index total (set ∷ sets) status w =
      let (result, w') = seed_set set w in
      elim result [
        | throw e ↦ (set_status index total set, (some e, w'))
        | ok body ↦ seed_sets (suc index) total sets (set_status index total set) w'
      ]

  unfoldable pub seed_manifest :
      Result (List FixtureSet) → (status : Text) → World → Text × (Option Thrown × World)
  seed_manifest (throw e) status w = (status, (some e, w))
  seed_manifest (ok sets) status w =
      let (result, w') = submit host (shell_form (units "reset_store")) w in
      elim result [
        | throw e ↦ (status, (some e, w'))
        | ok body ↦ seed_sets 0 (length sets) sets status w'
      ]

  unfoldable pub seed_finish : Text × (Option Thrown × World) → Shell → Shell × World
  seed_finish (status, (some e, w)) shell =
      (fail_tool (problem_message e) (record shell { tool_status = status }), w)
  seed_finish (status, (none, w)) shell =
      (end_tool (units "Đã sẵn sàng 6 JD và 24 CV.") (units "/jobs") shell, w)

  unfoldable pub seed_workspace : Shell → World → Shell × World
  seed_workspace shell w =
      let status = units "Đang chuẩn bị dữ liệu mẫu..." in
      seed_finish
        (seed_manifest
          (value_of fixtures.json_error (units "Không tải được bộ dữ liệu mẫu.") fixtures.manifest)
          status w)
        (begin_tool status shell)
