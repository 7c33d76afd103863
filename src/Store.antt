-- ===== src/Store.antt =====
-- The demo store of frontend/app/api/ranking-test/route.ts: a global variable that is read from a
-- file when it is first needed and written back, without the documents, after each change. A write
-- that fails leaves the file as it was or cut short, and the failure is only logged.
pub mod Types
pub mod Laws
pub mod Persistence
pub mod Refinement
use cvranking.Prelude.{
  ℕ, Bool, true, false, not, ◌||◌, Option, none, some, List, [], ◌∷◌, map, take, select, find,
  coalesce, if◌then◌else◌,
}
use cvranking.Js.Text.{Text, text_eq, truthy}
use cvranking.Host.{Host, World, tick}
use cvranking.Store.Types.{StoredCv, StoredJob, DemoStore}

abbrev pub empty_store : DemoStore
empty_store = record { version = 2; jobs = [] }

-- `Boolean(document_data_url)`.
abbrev pub has_text : Option Text → Bool
has_text none = false
has_text (some s) = truthy s

unfoldable pub strip_cv : StoredCv → StoredCv
strip_cv cv = record cv {
  document_data_url = none;
  has_document_preview = cv.has_document_preview || has_text cv.document_data_url;
}

unfoldable pub strip_job : StoredJob → StoredJob
strip_job job = record job { cvs = map strip_cv job.cvs }

unfoldable pub strip_document_data : DemoStore → DemoStore
strip_document_data store = record store { jobs = map strip_job store.jobs }

-- `find((job) => job.id === id)`.
unfoldable pub find_job : Text → List StoredJob → Option StoredJob
find_job id jobs = find (λ job. text_eq job.id id) jobs

-- The job at the head, the other jobs behind it, 30 at most.
unfoldable pub with_job : StoredJob → List StoredJob → List StoredJob
with_job job jobs = take 30 (job ∷ select (λ item. not (text_eq item.id job.id)) jobs)

-- `writeFileSync`, which fails or not. A write that fails may have cut the file short, and a file that
-- does not parse is read like one that is missing.
unfoldable pub write_store : (fails truncates : Bool) → DemoStore → World → World
write_store true true store w = record (tick w) { store_file = none }
write_store true false store w = tick w
write_store false truncates store w = record (tick w) {
  store_file = some (strip_document_data store);
}

-- `JSON.parse(readFileSync(…))`, where a file that is missing or unreadable throws.
read_store : (fails : Bool) → Option DemoStore → Option DemoStore
read_store true file = none
read_store false file = file

-- The version is always written as 2.
loaded_store : Option DemoStore → DemoStore
loaded_store none = empty_store
loaded_store (some parsed) = record { version = 2; jobs = parsed.jobs }

-- The store in memory, or what loading gives, which is then kept in memory.
or_load : Option DemoStore → World → DemoStore × World → DemoStore × World
or_load (some store) w loaded = (store, w)
or_load none w (store, w') = (store, record w' { memory = some store })

-- `rmSync` of the documents, which fails or not.
unfoldable pub remove_pdfs : (fails : Bool) → World → World
remove_pdfs true w = tick w
remove_pdfs false w = record (tick w) { pdfs = [] }

module _ (host : Host) where
  -- `mkdirSync`, whose failure is caught.
  unfoldable pub ensure_data_dir : World → World
  ensure_data_dir w = tick w

  unfoldable pub persist_demo_store : DemoStore → World → World
  unfolding ensure_data_dir write_store
  persist_demo_store store w =
      let ready = ensure_data_dir w in
      write_store (host.disk_fails ready.calls) (host.write_truncates ready.calls) store ready

  unfoldable pub load_demo_store_from_disk : World → DemoStore × World
  unfolding read_store loaded_store
  load_demo_store_from_disk w =
      (loaded_store (read_store (host.disk_fails w.calls) w.store_file), tick w)

  -- `globalThis.rankingDemoStore ??= loadDemoStoreFromDisk()`.
  unfoldable pub read_demo_store : World → DemoStore × World
  unfolding or_load
  read_demo_store w = or_load w.memory w (load_demo_store_from_disk w)

  unfoldable pub reset_demo_store : World → DemoStore × World
  unfolding remove_pdfs
  reset_demo_store w =
      let saved = persist_demo_store empty_store (record w { memory = some empty_store }) in
      (empty_store, remove_pdfs (host.disk_fails saved.calls) saved)

  unfoldable pub save_job : StoredJob → World → World
  save_job job w =
      let (store, w') = read_demo_store w in
      let updated : DemoStore = record { version = 2; jobs = with_job job store.jobs } in
      persist_demo_store updated (record w' { memory = some updated })

  unfoldable pub get_job : Text → World → Option StoredJob × World
  get_job id w = let (store, w') = read_demo_store w in (find_job id store.jobs, w')
