-- ===== src/Pages/JobList/Laws.antt =====
-- What the list of jobs shows.
use cvranking.Prelude.{◌≡◌, refl, none, [], map, false}
use cvranking.Js.Text.{text_eq, units}
use cvranking.Host.{Host, World}
use cvranking.Pages.JobList.{JobsPage, refresh_start, refresh_finish, jobs_in}
use cvranking.Pages.Requests.{received, load_store}
use cvranking.Routes.{get_route}
use cvranking.Store.{strip_job, strip_document_data}
use cvranking.Store.Persistence.{jobs_of}

-- A refresh that reaches the server shows the jobs of the store without the data of their documents, and
-- leaves no error and nothing loading.
pub refresh_finish-jobs_of :
    (host : Host) (page : JobsPage) (w : World)
    → ((refresh_finish (received (get_route host none none w).0) (refresh_start page)).jobs
        ≡ map strip_job (jobs_of host w))
      × ((refresh_finish (received (get_route host none none w).0) (refresh_start page)).error ≡ [])
      × ((refresh_finish (received (get_route host none none w).0) (refresh_start page)).loading
          ≡ false)
unfolding refresh_finish refresh_start load_store jobs_in get_route strip_document_data text_eq
    units
refresh_finish-jobs_of host page w = (refl, refl, refl)
