-- ===== src/Examples/Shell.antt =====
-- The tools of the shell at small inputs.
use cvranking.Prelude.{◌≡◌, refl, true, false, not, Option, none, some, List, [], ◌∷◌}
use cvranking.Examples.Data.{job, host, file}
use cvranking.Host.{fresh, unreachable, answered}
use cvranking.Js.Text.{units}
use cvranking.Pages.Shell.{Shell}
use cvranking.Pages.Shell.Tools.{pos, negsuc, Pointer, Size, ToolPanel, open_tools, drag_tools}
use cvranking.Pages.Shell.Tools.Dragging.{any_away, open_tools-drag_tools}
use cvranking.Pages.Shell.Workspace.{Fixtures, value_of, seed_workspace}
use cvranking.Pages.Shell.Workspace.Settling.{IsSettled, seed_workspace-IsSettled}
use cvranking.Store.Persistence.{WorldIsValid}

abbrev shell : Shell
shell = record {
  tools_open = true;
  tool_status = [];
  tool_error = [];
  tool_busy = false;
  import_jobs = job ∷ [];
  selected_import_job_id = units "jd-1";
  import_files = file ∷ [];
  import_result = none;
  location = none;
}

abbrev panel : ToolPanel
panel = record {
  position = record { x = 24; y = 140 };
  tools_open = false;
  dragging = false;
  drag_moved = false;
  suppress_click = false;
}

abbrev screen : Size
screen = record { width = 1280; height = 800 }

abbrev point : Pointer
point = record { x = pos 30; y = pos 150 }

abbrev farther : List (Pointer × Option Size)
farther = (record { x = negsuc 8; y = pos 160 }, none) ∷ []

open_tools-drag_tools_example :
    (open_tools screen false (drag_tools screen false point farther panel)).tools_open
    ≡ not (any_away point farther)
open_tools-drag_tools_example = open_tools-drag_tools screen false point farther panel refl refl

abbrev fixtures : Fixtures
fixtures = record {
  manifest = answered 200 [] (
      some (
        record {
          name = units "backend";
          job_config_path = units "/job.json";
          cvs = record { name = units "a.pdf"; path = units "/a.pdf" } ∷ [];
        }
        ∷ []));
  job_config = λ path.
      answered 200 [] (
        some
          (record { title = units "Backend"; description = units "We are hiring an engineer." }));
  cv = λ path. unreachable (units "Failed to fetch");
  json_error = λ text. units "Unexpected token";
  type_error = units "no job";
  text_of = λ content. none;
}

fresh-IsValid : WorldIsValid fresh
fresh-IsValid = record { memory = tt; store_file = tt; stripped = tt }

seed_workspace-IsSettled_example :
    IsSettled host fixtures
      (value_of fixtures.json_error (units "Không tải được bộ dữ liệu mẫu.") fixtures.manifest)
      shell
      (seed_workspace host fixtures shell fresh).0
      fresh
      (seed_workspace host fixtures shell fresh).1
seed_workspace-IsSettled_example = seed_workspace-IsSettled host fixtures shell fresh fresh-IsValid
