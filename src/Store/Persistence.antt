-- ===== src/Store/Persistence.antt =====
-- The store through reads, writes and a restart of the server.
use mathlib.Core.Option
use cvranking.Prelude.{
  ℕ, ◌<◌, ◌≡◌, ◌≢◌, refl, ap, ◌∙◌, Bool, true, false, Option, none, some, List, [], ◌∷◌, map,
  length, arith, All, All-map, length-map,
}
use cvranking.Js.Text.{Text}
use cvranking.Host.{Host, World}
use cvranking.Store.Types.{StoredJob, DemoStore}
use cvranking.Store.{
  strip_cv, strip_job, strip_document_data, with_job, find_job, persist_demo_store,
  load_demo_store_from_disk, write_store, loaded_store, read_store, or_load, read_demo_store,
  save_job, get_job,
}
use cvranking.Store.Laws.{
  IsValid, ids, with_job-IsValid, find_job-with_job_self, find_job-with_job_ne, find_job-strip,
}

abbrev pub StoreIsValid : Option DemoStore → Type 0
StoreIsValid none = Unit
StoreIsValid (some store) = IsValid store.jobs

-- No CV of the job carries the data of its document.
abbrev pub JobIsStripped : StoredJob → Type 0
JobIsStripped job = All (λ cv. cv.document_data_url ≡ none) job.cvs

abbrev pub StoreIsStripped : Option DemoStore → Type 0
StoreIsStripped none = Unit
StoreIsStripped (some store) = All JobIsStripped store.jobs

-- The store in memory and the one in the file are valid, where they are there, and the one in the
-- file has no document data.
pub record WorldIsValid (w : World) : Type 0 where
  pub memory : StoreIsValid w.memory
  pub store_file : StoreIsValid w.store_file
  pub stripped : StoreIsStripped w.store_file

strip_job-IsStripped : (job : StoredJob) → JobIsStripped (strip_job job)
unfolding strip_job strip_cv
strip_job-IsStripped job = All-map _ strip_cv job.cvs (λ cv. refl)

pub strip_document_data-IsStripped :
    (store : DemoStore) → All JobIsStripped (strip_document_data store).jobs
unfolding strip_document_data
strip_document_data-IsStripped store = All-map _ strip_job store.jobs strip_job-IsStripped

-- A server that starts again keeps the data directory.
abbrev pub restart : World → World
restart w = record w { memory = none }

ids-strip : (jobs : List StoredJob) → ids (map strip_job jobs) ≡ ids jobs
unfolding strip_job
ids-strip [] = refl
ids-strip (job ∷ jobs) = ap (◌∷◌ job.id) (ids-strip jobs)

module _ (host : Host) where
  -- The jobs that the next read of the store gives.
  abbrev pub jobs_of : World → List StoredJob
  jobs_of w = (read_demo_store host w).0.jobs

  -- The memory is loaded after a read.
  memory-read_demo_store :
      (w : World) → (read_demo_store host w).1.memory ≡ some (read_demo_store host w).0
  unfolding read_demo_store load_demo_store_from_disk
  memory-read_demo_store w = ground arith

  memory-write_store :
      (fails truncates : Bool) (store : DemoStore) (w : World)
      → (write_store fails truncates store w).memory ≡ w.memory
  unfolding write_store
  memory-write_store true true store w = refl
  memory-write_store true false store w = refl
  memory-write_store false truncates store w = refl

  memory-persist_demo_store :
      (store : DemoStore) (w : World) → (persist_demo_store host store w).memory ≡ w.memory
  unfolding persist_demo_store
  memory-persist_demo_store store w = memory-write_store _ _ store _

  memory-save_job :
      (job : StoredJob) (w : World)
      → (save_job host job w).memory
        ≡ some (record { version = 2; jobs = with_job job (jobs_of w) })
  unfolding save_job
  memory-save_job job w = memory-persist_demo_store _ _

  read_demo_store-loaded :
      (w : World) (s : DemoStore) → w.memory ≡ some s → read_demo_store host w ≡ (s, w)
  unfolding read_demo_store
  read_demo_store-loaded w s e = rw e

  -- A save puts the job in the list that the next read gives.
  pub jobs_of-save_job :
      (job : StoredJob) (w : World) → jobs_of (save_job host job w) ≡ with_job job (jobs_of w)
  jobs_of-save_job job w =
      ap (λ read. read.0.jobs)
        (read_demo_store-loaded (save_job host job w) _ (memory-save_job job w))

  pub get_job-jobs_of : (id : Text) (w : World) → (get_job host id w).0 ≡ find_job id (jobs_of w)
  unfolding get_job
  get_job-jobs_of id w = refl

  -- Looking a job up does not change what is found.
  pub get_job-get_job :
      (id other : Text) (w : World)
      → (get_job host other (get_job host id w).1).0 ≡ (get_job host other w).0
  unfolding get_job
  get_job-get_job id other w =
      ap (λ (read : DemoStore × World). find_job other read.0.jobs)
        (read_demo_store-loaded (read_demo_store host w).1 (read_demo_store host w).0
          (memory-read_demo_store w))

  -- A saved job is found under its id, whatever happens on disk.
  pub get_job-save_job_self :
      (job : StoredJob) (w : World) → (get_job host job.id (save_job host job w)).0 ≡ some job
  unfolding get_job
  get_job-save_job_self job w =
      rw (read_demo_store-loaded (save_job host job w) _ (memory-save_job job w))
        (find_job-with_job_self job (jobs_of w))

  -- While fewer than 30 jobs are stored, saving a job does not change what is found under another id.
  pub get_job-save_job_ne :
      (job : StoredJob) (w : World) (other : Text)
      → job.id ≢ other
      → length (jobs_of w) < 30
      → (get_job host other (save_job host job w)).0 ≡ (get_job host other w).0
  unfolding get_job
  get_job-save_job_ne job w other h room =
      rw (read_demo_store-loaded (save_job host job w) _ (memory-save_job job w))
        (find_job-with_job_ne job (jobs_of w) other h room)

  store_file-save_job :
      (job : StoredJob) (w : World)
      → ((call : ℕ) → host.disk_fails call ≡ false)
      → (save_job host job w).store_file
        ≡ some (strip_document_data (record { version = 2; jobs = with_job job (jobs_of w) }))
  unfolding save_job persist_demo_store
  store_file-save_job job w works = rw (works _)

  jobs_of-restart :
      (w : World) (s : DemoStore)
      → ((call : ℕ) → host.disk_fails call ≡ false)
      → w.store_file ≡ some s
      → jobs_of (restart w) ≡ s.jobs
  unfolding read_demo_store load_demo_store_from_disk
  jobs_of-restart w s works e =
      ap (λ fails. (loaded_store (read_store fails w.store_file)).jobs) (works w.calls)
      ∙ ap (λ file. (loaded_store file).jobs) e

  -- Where the disk does not fail, a server that starts again after a save finds the job under every
  -- id that was found before the restart, without the document data.
  pub get_job-restart :
      (job : StoredJob) (w : World) (id : Text)
      → ((call : ℕ) → host.disk_fails call ≡ false)
      → (get_job host id (restart (save_job host job w))).0
        ≡ Option.map strip_job (get_job host id (save_job host job w)).0
  unfolding get_job
  get_job-restart job w id works =
      let e = jobs_of-restart (save_job host job w) _ works (store_file-save_job job w works) in
      let loaded = read_demo_store-loaded (save_job host job w) _ (memory-save_job job w) in
      rw (e, loaded) (unfold strip_document_data in find_job-strip id (with_job job (jobs_of w)))

  IsValid-strip : (jobs : List StoredJob) → IsValid jobs → IsValid (map strip_job jobs)
  IsValid-strip jobs v = record {
    distinct = rw (ids-strip jobs) v.distinct;
    bounded = rw (length-map strip_job jobs) v.bounded;
  }

  pub write-WorldIsValid :
      (fails truncates : Bool) (store : DemoStore) (w : World)
      → IsValid store.jobs
      → WorldIsValid w
      → WorldIsValid (write_store fails truncates store w)
  unfolding write_store
  write-WorldIsValid true true store w v h = record {
    memory = h.memory;
    store_file = tt;
    stripped = tt;
  }
  write-WorldIsValid true false store w v h = record {
    memory = h.memory;
    store_file = h.store_file;
    stripped = h.stripped;
  }
  write-WorldIsValid false truncates store w v h = record {
    memory = h.memory;
    store_file = unfold strip_document_data in IsValid-strip store.jobs v;
    stripped = strip_document_data-IsStripped store;
  }

  load-IsValid :
      (fails : Bool) (file : Option DemoStore)
      → StoreIsValid file
      → IsValid (loaded_store (read_store fails file)).jobs
  unfolding loaded_store read_store
  load-IsValid true file h = record { distinct = tt; bounded = omega arith }
  load-IsValid false none h = record { distinct = tt; bounded = omega arith }
  load-IsValid false (some store) h = record { distinct = h.distinct; bounded = h.bounded }

  or_load-IsValid :
      (m : Option DemoStore) (w : World) (loaded : DemoStore × World)
      → StoreIsValid m
      → WorldIsValid w
      → IsValid loaded.0.jobs
      → WorldIsValid loaded.1
      → IsValid (or_load m w loaded).0.jobs × WorldIsValid (or_load m w loaded).1
  unfolding or_load
  or_load-IsValid (some store) w loaded v h lv lh = (v, h)
  or_load-IsValid none w (store, w') v h lv lh =
      (lv, record { memory = lv; store_file = lh.store_file; stripped = lh.stripped })

  pub read-IsValid :
      (w : World) → WorldIsValid w → IsValid (jobs_of w) × WorldIsValid (read_demo_store host w).1
  unfolding read_demo_store load_demo_store_from_disk
  read-IsValid w h =
      or_load-IsValid w.memory w (load_demo_store_from_disk host w) h.memory h
        (load-IsValid (host.disk_fails w.calls) w.store_file h.store_file)
        (record { memory = h.memory; store_file = h.store_file; stripped = h.stripped })

  -- Saving a job keeps the store valid, in memory and on disk: distinct job ids, at most 30 jobs, and no
  -- document data on disk.
  pub save_job-WorldIsValid :
      (job : StoredJob) (w : World) → WorldIsValid w → WorldIsValid (save_job host job w)
  unfolding save_job persist_demo_store
  save_job-WorldIsValid job w h =
      let (valid, read) = read-IsValid w h in
      let v = with_job-IsValid job (jobs_of w) valid in
      write-WorldIsValid (host.disk_fails _) _ _ _ v
        (record { memory = v; store_file = read.store_file; stripped = read.stripped })
