-- ===== src/Examples/Server.antt =====
-- The theorems on the store, the uploads and the requests at the example data.
use mathlib.Core.Option
use cvranking.Prelude.{◌≡◌, refl, inl, none, some, [], ◌∷◌, ◌++◌, length, All, Has, arith}
use cvranking.Examples.Data.{
  baseline, ann_id, job, other_job, job_with, stored_cv, host, offline_host, stored_world, file,
}
use cvranking.Host.Action.{error, ok, throw, Leaves}
use cvranking.Js.Text.{units, text_eq}
use cvranking.Ranking.{rank_job, score_candidates, ranking_candidates, service_failure}
use cvranking.Ranking.Laws.{Any, IsRankedJob, rank_job-throw, rank_job-IsRankedJob}
use cvranking.Routes.{Form, upload_action, get_route, post_route}
use cvranking.Routes.Laws.{
  IsUploaded, HidesDocuments, upload_action-IsUploaded, get_route-HidesDocuments,
}
use cvranking.Routes.Interleaving.{Race, race_start, RaceReaches, IsLost, upload_to-lost}
use cvranking.Routes.Statuses.{post_route-status}
use cvranking.Routes.Validity.{post_route-WorldIsValid}
use cvranking.Store.{find_job, get_job, save_job, read_demo_store, strip_job}
use cvranking.Store.Persistence.{WorldIsValid, restart, get_job-restart}
use cvranking.Store.Types.{StoredJob}
use cvranking.Upload.{fetched_json, analyze_files_for_job, resume_id_of}
use cvranking.Upload.Laws.{IsConsistent}
use cvranking.Upload.Numbering.{AreNumbered, analyze_files_for_job-AreNumbered}

abbrev form : Form
form = record {
  action = some (units "upload_cvs");
  title = none;
  jd = none;
  job_id = some (units "jd-1");
  files = file ∷ [];
}

stored_world-IsValid : WorldIsValid stored_world
stored_world-IsValid = record {
  memory = record { distinct = ((λ has. has), tt); bounded = omega arith };
  store_file = tt;
  stripped = tt;
}

post_route-WorldIsValid_example : WorldIsValid (post_route host form stored_world).1
post_route-WorldIsValid_example =
    post_route-WorldIsValid host form stored_world stored_world-IsValid

post_route-status_example :
    Has (post_route host form stored_world).0.status (200 ∷ 404 ∷ 422 ∷ 502 ∷ [])
post_route-status_example = post_route-status host form stored_world

get_route-HidesDocuments_example : HidesDocuments (get_route host none none stored_world).0.body
get_route-HidesDocuments_example = get_route-HidesDocuments host none none stored_world

found_job : (get_job host (units "jd-1") stored_world).0 ≡ some job
unfolding get_job read_demo_store find_job text_eq units
found_job = refl

upload_action-IsUploaded_example :
    IsUploaded host (file ∷ []) job (upload_action host (units "jd-1") (file ∷ []) stored_world)
upload_action-IsUploaded_example =
    upload_action-IsUploaded host (units "jd-1") (file ∷ []) stored_world job found_job
      (omega arith) (omega arith)

rank_job-IsRankedJob_example : Leaves (IsRankedJob host job) Any (rank_job host job stored_world)
rank_job-IsRankedJob_example = rank_job-IsRankedJob host job stored_world

baseline-comes :
    fetched_json host service_failure
      (host.score stored_world.calls job.requirements (ranking_candidates host job))
    ≡ ok baseline
unfolding fetched_json
baseline-comes = refl

one_candidate : length (ranking_candidates host job) ≡ 1
unfolding ranking_candidates
one_candidate = refl

offline-throws : (rank_job offline_host job stored_world).0 ≡ throw (error (units "refused"))
unfolding rank_job score_candidates ranking_candidates fetched_json
offline-throws = refl

rank_job-throw_example :
    ((rank_job offline_host job stored_world).1.memory ≡ stored_world.memory)
    × ((rank_job offline_host job stored_world).1.store_file ≡ stored_world.store_file)
    × ((rank_job offline_host job stored_world).1.pdfs ≡ stored_world.pdfs)
rank_job-throw_example =
    rank_job-throw offline_host job stored_world (error (units "refused")) offline-throws

job-IsConsistent : All IsConsistent job.cvs
job-IsConsistent = (inl (ann_id, _, _, refl, refl, refl, refl, refl, refl), tt)

abbrev numbered_job : StoredJob
numbered_job = job_with (units "jd-1") (stored_cv ann_id (resume_id_of 1) ∷ [])

numbered_job-AreNumbered : AreNumbered numbered_job.cvs
numbered_job-AreNumbered = record {
  numbered = ((1, omega arith, omega arith, refl), tt);
  distinct = ((λ has. has), tt);
}

analyze_files_for_job-AreNumbered_example :
    AreNumbered
      ((analyze_files_for_job host (file ∷ []) numbered_job stored_world).0.1 ++ numbered_job.cvs)
analyze_files_for_job-AreNumbered_example =
    analyze_files_for_job-AreNumbered host (file ∷ []) numbered_job stored_world
      numbered_job-AreNumbered

get_job-restart_example :
    (get_job host (units "jd-1") (restart (save_job host other_job stored_world))).0
    ≡ Option.map strip_job (get_job host (units "jd-1") (save_job host other_job stored_world)).0
get_job-restart_example = get_job-restart host other_job stored_world (units "jd-1") (λ call. refl)

found_in_store : (get_job host (units "jd-1") stored_world).0 ≡ some job
unfolding get_job read_demo_store find_job text_eq units
found_in_store = refl

upload_to-lost_example :
    (end : Race) × RaceReaches host
      (units "jd-1")
      (file ∷ [])
      (file ∷ [])
      (race_start stored_world)
      end
    × IsLost host (units "jd-1") (file ∷ []) (file ∷ []) job end
upload_to-lost_example =
    upload_to-lost host (units "jd-1") (file ∷ []) (file ∷ []) job stored_world found_in_store
      (omega arith) (omega arith) (omega arith) (omega arith)
