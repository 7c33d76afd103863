-- ===== src/Examples/Seeding.antt =====
-- The theorems on the store's promise and on the seeding scripts at small inputs.
use cvranking.Prelude.{
  ℕ, ◌+◌, ◌*◌, ◌≤◌, min, ◌≡◌, refl, ◌⊎◌, Option, none, some, List, [], ◌∷◌, flat_map, length, All,
  arith, ltb, if◌then◌else◌,
}
use cvranking.Examples.Data.{job, other_job, host, stored_world}
use cvranking.Host.{fresh, answered}
use cvranking.Js.Text.{Text, units, text_eq, trim, trim_start, trim_end, is_space}
use cvranking.Js.Text.Words.{words}
use cvranking.Host.Action.{Result}
use cvranking.Seeding.Resume.{Entry}
use cvranking.Pages.Requests.{form_value}
use cvranking.Seeding.Candidates.{CandidateFile}
use cvranking.Seeding.Jobs.{upload_batches}
use cvranking.Seeding.Jobs.Uploads.{IsSeeded, upload_batches-all}
use cvranking.Seeding.Pdf.{pdf_file}
use cvranking.Seeding.Pdf.Offsets.{IsIndexed, pdf_file-offsets}
use cvranking.Seeding.Sample.{IsSample, sample_candidate_files, sample_candidate_files-IsSample}
use cvranking.Seeding.Sources.{ResumeSource, Dataset, Row, fetch_rows_from_source}
use cvranking.Seeding.Sources.Paging.{fetch_rows_from_source-ends}
use cvranking.Seeding.Workers.{
  returned, Pool, pool_start, settle, mapped, Step, take, quit, settled, Reaches, start, later,
}
use cvranking.Seeding.Workers.Progress.{IsSettled, map_with_concurrency-ends}
use cvranking.Seeding.Workers.Safety.{IsMapped, map_with_concurrency-IsMapped}
use cvranking.Seeding.Wrap.{wrap_text, Fits, wrap_text-words}
use cvranking.Store.{get_job, read_demo_store, load_demo_store_from_disk, find_job}
use cvranking.Store.Persistence.{jobs_of}
use cvranking.Store.Refinement.{newest, save_all, get_job-save_all}

fresh-is_empty : jobs_of host fresh ≡ []
unfolding read_demo_store load_demo_store_from_disk
fresh-is_empty = refl

get_job-save_all_example :
    (get_job host (units "jd-1") (save_all host (other_job ∷ job ∷ []) fresh)).0
    ≡ newest [] (units "jd-1") (other_job ∷ job ∷ [])
get_job-save_all_example =
    get_job-save_all host (other_job ∷ job ∷ []) fresh (units "jd-1") fresh-is_empty

-- It is still there.
newest-finds : newest [] (units "jd-1") (other_job ∷ job ∷ []) ≡ some job
unfolding text_eq units
newest-finds = refl

abbrev numbers : List ℕ
numbers = 1 ∷ 2 ∷ []

sample_candidate_files-IsSample_example :
    IsSample numbers 5 (sample_candidate_files (λ call. call * 1000) 0 (some numbers) 5)
sample_candidate_files-IsSample_example =
    sample_candidate_files-IsSample (λ call. call * 1000) 0 1 (2 ∷ []) 5

-- Two items, one worker.
abbrev items : List ℕ
items = 10 ∷ 20 ∷ []

abbrev mapper : ℕ → ℕ → Option ℕ
mapper item index = some (item + index)

abbrev finished : Pool ℕ
finished = record { cursor = 2; workers = returned ∷ []; results = some 10 ∷ some 21 ∷ [] }

finished-Reaches : Reaches items mapper 1 5 finished
unfolding pool_start settle mapped
finished-Reaches =
    later
      (later
        (later (later (later start (take 0 refl (omega arith))) (settled 0 0 refl))
          (take 0 refl (omega arith)))
        (settled 0 1 refl))
      (quit 0 refl (omega arith))

map_with_concurrency-IsMapped_example : IsMapped items mapper finished
map_with_concurrency-IsMapped_example =
    map_with_concurrency-IsMapped items mapper 1 5 finished (omega arith) finished-Reaches
      (refl, tt)

map_with_concurrency-ends_example :
    (5 ≤ 2 * length items + min 1 (length items))
    × (((q : Pool ℕ) × Step items mapper finished q) ⊎ All IsSettled finished.workers)
map_with_concurrency-ends_example =
    map_with_concurrency-ends items mapper 1 5 finished finished-Reaches

wrap_text-words_example :
    (flat_map words (wrap_text (units "one two  three") 8) ≡ words (units "one two  three"))
    × All (Fits 8) (wrap_text (units "one two  three") 8)
wrap_text-words_example = wrap_text-words (units "one two  three") 8

abbrev objects : List Text
objects = units "<< /Type /Catalog >>" ∷ units "<< /Type /Pages >>" ∷ []

pdf_file-offsets_example : IsIndexed objects 1 (units "<< /Type /Pages >>") (pdf_file objects)
pdf_file-offsets_example = pdf_file-offsets objects 1 (units "<< /Type /Pages >>") refl

abbrev row : Row
row = record {
  resume_str = none;
  category = none;
  resume_html = none;
  resume = some (units "Nurse");
  resume_test = none;
  instruction = none;
}

abbrev source : ResumeSource
source = record {
  dataset = units "brackozi/Resume";
  pick = λ row. record { text = row.resume; category = row.category; html = none };
}

abbrev one_row : ℕ → List Row
one_row asked = if ltb 0 asked then row ∷ [] else []

-- A server that gives one row at a time.
abbrev dataset : Dataset
dataset = record {
  size = answered 200 [] (some (some 2));
  page = λ offset asked. answered 200 [] (some (some (one_row asked)));
  random = 0;
}

abbrev no_message : Text → Text
no_message body = []

fetch_rows_from_source-ends_example :
    (outcome : Result (List Entry)) × (fetch_rows_from_source no_message source dataset 2
      ≡ some outcome)
fetch_rows_from_source-ends_example = fetch_rows_from_source-ends no_message source dataset 2

abbrev candidate_file : CandidateFile
candidate_file = record { name = units "An"; filename = units "001-an.pdf"; buffer = units "%PDF" }

id-trimmed : trim (form_value (units "jd-1")) ≡ units "jd-1"
unfolding form_value trim trim_start trim_end is_space units
id-trimmed = refl

found_job : (get_job host (units "jd-1") stored_world).0 ≡ some job
unfolding get_job read_demo_store find_job text_eq units
found_job = refl

upload_batches-all_example :
    IsSeeded host some
      (units "jd-1")
      job
      1
      0
      (upload_batches host some 2 (units "jd-1") 0 0 (candidate_file ∷ []) stored_world)
upload_batches-all_example =
    upload_batches-all host some (units "jd-1") (candidate_file ∷ []) job stored_world id-trimmed
      found_job
