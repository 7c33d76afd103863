-- ===== src/Pages/JobList.antt =====
-- The state and `refresh` of frontend/app/jobs/page.tsx.
pub mod Laws
use cvranking.Prelude.{Bool, true, false, List, []}
use cvranking.Js.Text.{Text}
use cvranking.Host.Action.{Result, ok, throw}
use cvranking.Pages.Requests.{Reply, load_store, problem_message}
use cvranking.Routes.{Body, library, Response}
use cvranking.Store.Types.{StoredJob}

pub record JobsPage : Type 0 where
  pub jobs : List StoredJob
  pub error : Text
  pub loading : Bool

unfoldable pub refresh_start : JobsPage → JobsPage
refresh_start page = record page { error = []; loading = true }

-- `store.jobs ?? []`.
unfoldable pub jobs_in : Body → List StoredJob
jobs_in (library store status) = store.jobs
jobs_in _ = []

unfoldable pub refresh_finish : Reply Response → JobsPage → JobsPage
refresh_finish reply page = elim (load_store reply) [
  | ok body ↦ record page { jobs = jobs_in body; loading = false }
  | throw thrown ↦ record page { error = problem_message thrown; loading = false }
]
