-- ===== src/Seeding/Jobs.antt =====
-- `postForm` and the requests of candidate-generator.mjs, and `countForTemplate` and `seedJob` of
-- seed-ranking-variety.mjs. The requests go to the handler of the ranking route, one at a time.
pub mod Uploads
use cvranking.Prelude.{
  ℕ, zero, suc, ◌+◌, ◌*◌, ◌-◌, ◌/◌, min, Bool, true, false, Option, none, some, List, [], ◌∷◌, ◌++◌,
  map, take, length, get_elem?, count_from, all_some, coalesce, ltb, if◌then◌else◌,
}
use cvranking.Prelude.Options.{◌>>=◌}
use cvranking.Js.Decimal.{decimal}
use cvranking.Js.Map.{map_get, map_set}
use cvranking.Js.Number.{
  Number, pos, neg, infinity, minus_infinity, nan, scale, round_units, half_up, negate,
}
use cvranking.Js.Number.Random.{random_below}
use cvranking.Js.Text.{Text, units}
use cvranking.Host.{Host, World, UploadedFile}
use cvranking.Host.Action.{Thrown, error, other, Result, ok, throw}
use cvranking.Pages.Requests.{form_value}
use cvranking.Rerank.Providers.{is_ok_status}
use cvranking.Routes.{Body, detail, created, uploaded, ranked, Response, Form, post_route}
use cvranking.Store.Types.{StoredRun, StoredResult, CandidateSummary, summary, bare}
use cvranking.Seeding.Candidates.{CandidateFile}

pub data Popularity : Type 0 where
  high medium low : Popularity

unfoldable pub popularity_range : Popularity → ℕ × ℕ
popularity_range high = (45, 85)
popularity_range medium = (20, 45)
popularity_range low = (8, 22)

pub record Template : Type 0 where
  pub title : Text
  pub popularity : Popularity
  pub description : Text

-- The fixed number that the environment asks for, or a random one of the range of the template.
-- `bits` is what the call of `Math.random` returns.
unfoldable pub count_for_template : (fixed : Option ℕ) → (bits : ℕ) → Template → ℕ
count_for_template (some n) bits template = n
count_for_template none bits template =
    let (min_count, max_count) = popularity_range template.popularity in
    min_count + random_below bits (max_count - min_count + 1)

-- What is thrown over an answer that is not ok: its message, or its status.
unfoldable pub post_error : Response → Thrown
post_error response = elim response.body [
  | detail message ↦ error message
  | _ ↦ error (units "Request failed with " ++ decimal response.status)
]

unfoldable pub form_payload : Response → Result Body
form_payload response =
    if is_ok_status response.status then ok response.body else throw (post_error response)

abbrev pub no_fields : Form
no_fields = record { action = none; title = none; jd = none; job_id = none; files = [] }

-- `Math.round(score * 100)`, for a product below the largest number.
unfoldable pub percent : Number → Number
percent (pos k) = pos (half_up (round_units (k * 100) 1) scale * scale)
percent (neg k) = negate ((2 * round_units (suc k * 100) 1 + scale - 1) / (2 * scale) * scale)
percent infinity = infinity
percent minus_infinity = minus_infinity
percent nan = nan

abbrev name_of : CandidateSummary → Text
name_of (summary id resume_id full_name current_title years status filename) = full_name
name_of (bare id full_name) = full_name

unfoldable pub top_3 : StoredRun → List (Text × Number)
top_3 r = map (λ result. (name_of result.candidate, percent result.final_score)) (take 3 r.results)

pub record SeedSummary : Type 0 where
  pub title : Text
  pub job_url : Text
  pub cv_count : ℕ
  pub top : List (Text × Number)

-- How often a candidate was sent to a job.
abbrev pub Appearances : Type 0
Appearances = List (Text × ℕ)

unfoldable pub count_appearances : Appearances → List CandidateFile → Appearances
count_appearances appearances [] = appearances
count_appearances appearances (file ∷ files) =
    count_appearances
      (map_set file.name (coalesce (map_get file.name appearances) 0 + 1) appearances) files

-- A state and what was returned or thrown.
abbrev pub Outcome : Type 0 → Type 0
Outcome A = Result A × World

-- `text_of` is what `file.text()` reads of a content.
module _ (host : Host) (text_of : Text → Option Text) where
  unfoldable pub post_form : Form → World → Outcome Body
  post_form form w = let (response, w') = post_route host form w in (form_payload response, w')

  unfoldable pub job_form : (title description : Text) → Form
  job_form title description = record no_fields {
    action = some (form_value (units "create_job"));
    title = some (form_value title);
    jd = some (form_value description);
  }

  unfoldable pub to_upload : CandidateFile → UploadedFile
  to_upload file = record {
    name = file.filename;
    type = units "application/pdf";
    bytes = file.buffer;
    text = text_of file.buffer;
  }

  unfoldable pub upload_form : Text → List UploadedFile → Form
  upload_form job_id files = record no_fields {
    action = some (form_value (units "upload_cvs"));
    job_id = some (form_value job_id);
    files = files;
  }

  unfoldable pub ranking_form : Text → Form
  ranking_form job_id = record no_fields {
    action = some (form_value (units "run_ranking"));
    job_id = some (form_value job_id);
  }

  -- The files from `start` to `stop`, where an index out of range is a throw.
  unfoldable pub batch_files : (start stop : ℕ) → List CandidateFile → Option (List CandidateFile)
  batch_files start stop files = all_some (map (get_elem? files) (count_from start (stop - start)))

  unfoldable pub post_batch : Text → Option (List CandidateFile) → World → Outcome Body
  post_batch job_id none w = (throw other, w)
  post_batch job_id (some files) w = post_form (upload_form job_id (map to_upload files)) w

  unfoldable pub upload_batch : Text → (start stop : ℕ) → List CandidateFile → World → Outcome Body
  upload_batch job_id start stop files w = post_batch job_id (batch_files start stop files) w

  -- `uploaded.upload.accepted`, where a payload without an upload is thrown over.
  unfoldable pub accepted_of : Result Body → Result ℕ
  accepted_of (throw e) = throw e
  accepted_of (ok (uploaded job upload)) = ok upload.accepted
  accepted_of (ok _) = throw other

  -- The loop over the batches of 50, with what was accepted so far. On no fuel it is still running.
  unfoldable pub upload_batches :
      (fuel : ℕ) → Text → (start accepted : ℕ) → List CandidateFile → World → Option (Outcome ℕ)
  upload_batches zero job_id start accepted files w = none
  upload_batches (suc fuel) job_id start accepted files w = elim (ltb start (length files)) [
    | false ↦ some (ok accepted, w)
    | true ↦
        let (payload, w') = upload_batch job_id start (min (start + 50) (length files)) files w in
        elim (accepted_of payload) [
          | throw e ↦ some (throw e, w')
          | ok more ↦ upload_batches fuel job_id (start + 50) (accepted + more) files w'
        ]
  ]

  unfoldable pub summary_of :
      (base_url : Text) → Template → (job_id : Text) → Result Body → Result SeedSummary
  summary_of base_url template job_id (throw e) = throw e
  summary_of base_url template job_id (ok (ranked job (some r) status)) = ok (record {
    title = template.title;
    job_url = base_url ++ (units "/jobs/" ++ job_id);
    cv_count = job.cv_count;
    top = top_3 r;
  })
  summary_of base_url template job_id (ok _) = throw other

  -- `runRanking` behind the uploads, and the summary.
  unfoldable pub after_uploads :
      (base_url : Text)
      → Template
      → (job_id : Text) → Option (Outcome ℕ)
      → Option (Outcome SeedSummary)
  after_uploads base_url template job_id none = none
  after_uploads base_url template job_id (some (throw e, w)) = some (throw e, w)
  after_uploads base_url template job_id (some (ok accepted, w)) =
      let (payload, w') = post_form (ranking_form job_id) w in
      some (summary_of base_url template job_id payload, w')

  unfoldable pub seed_created :
      (base_url : Text)
      → Template
      → List CandidateFile
      → Appearances
      → Outcome Body
      → Appearances × Option (Outcome SeedSummary)
  seed_created base_url template files appearances (ok (created job), w) = (
    count_appearances appearances files,
    after_uploads base_url template job.id (upload_batches (suc (length files)) job.id 0 0 files w),
  )
  seed_created base_url template files appearances (ok _, w) =
      (count_appearances appearances files, some (throw other, w))
  seed_created base_url template files appearances (throw e, w) = (appearances, some (throw e, w))

  unfoldable pub seed_job :
      (base_url : Text)
      → Template
      → List CandidateFile
      → Appearances
      → World
      → Appearances × Option (Outcome SeedSummary)
  seed_job base_url template files appearances w =
      seed_created base_url template files appearances
        (post_form (job_form template.title template.description) w)
