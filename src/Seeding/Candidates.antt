-- ===== src/Seeding/Candidates.antt =====
-- `fetchResumeRows`, `fetchRealNames` and `buildPublicCandidateFiles`.
use cvranking.Prelude.{
  ℕ, ◌+◌, ◌/◌, Bool, Option, none, some, List, [], ◌∷◌, ◌++◌, map, take, length, get_elem?,
  count_from, all_some, coalesce, if◌then◌else◌,
}
use cvranking.Prelude.Options.{◌>>=◌}
use cvranking.Js.Decimal.{decimal, pad_start}
use cvranking.Js.Text.{Text, units, join}
use cvranking.Host.{Fetched}
use cvranking.Host.Action.{Thrown, demo_problem, error, other, Result, ok, throw}
use cvranking.Seeding.Resume.{Entry, replace_unit, build_resume_html}
use cvranking.Seeding.Shuffle.{shuffle_in_place}
use cvranking.Seeding.Sources.{
  ResumeSource, Dataset, resume_sources, body_of, fetch_rows_from_source,
}
use cvranking.Seeding.Workers.{mapped}

-- A file to upload: `buffer` stands for its content.
pub record CandidateFile : Type 0 where
  pub name : Text
  pub filename : Text
  pub buffer : Text

-- `${String(index + 1).padStart(3, "0")}`.
unfoldable pub serial : ℕ → Text
serial index = pad_start 3 b'0' (decimal (index + 1))

-- `${serial}-${name.toLowerCase().replaceAll(" ", "-")}.pdf`.
unfoldable pub file_name : (lower_case : Text → Text) → ℕ → Text → Text
file_name lower_case index name =
    serial index ++ (units "-" ++ (replace_unit b' ' (units "-") (lower_case name) ++ units ".pdf"))

-- What a thrown value says.
reason : Thrown → Text
reason (demo_problem status message) = message
reason (error message) = message
reason other = []

-- The rows of the sources that answered, and what is said of those that did not.
unfoldable pub gather : List (ResumeSource × Result (List Entry)) → List Entry × List Text
unfolding reason
gather [] = ([], [])
gather ((source, ok rows) ∷ rest) = let (more, failures) = gather rest in (rows ++ more, failures)
gather ((source, throw e) ∷ rest) =
    let (more, failures) = gather rest in
    (more, (source.dataset ++ (units " (" ++ (reason e ++ units ")"))) ∷ failures)

-- What the scripts are given from outside: the answers to the requests, the bits of the calls of
-- `Math.random`, the browser that may not start and the page that it may not render.
pub record PublicHost : Type 0 where
  pub fetch_disabled : Bool
  pub names : Fetched (Option (List (Text × Text)))
  pub datasets : List Dataset
  pub random : ℕ → ℕ
  pub launches : Bool
  pub render : (html : Text) → Option Text
  pub lower_case : Text → Text
  pub json_error : Text → Text

abbrev zip_sources : List ResumeSource → List Dataset → List (ResumeSource × Dataset)
zip_sources (s ∷ ss) (d ∷ ds) = (s, d) ∷ zip_sources ss ds
zip_sources _ _ = []

module _ (host : PublicHost) where
  -- `Promise.allSettled`, where `none` is a loop that is still running.
  unfoldable pub settle_sources :
      ℕ → List (ResumeSource × Dataset) → Option (List (ResumeSource × Result (List Entry)))
  settle_sources per_source [] = some []
  settle_sources per_source ((source, d) ∷ rest) = do
    result ← fetch_rows_from_source host.json_error source d per_source
    more ← settle_sources per_source rest
    some ((source, result) ∷ more)

  -- The rows in a random order, as many as asked for.
  unfoldable pub choose_rows : ℕ → List Entry × List Text → Option (Result (List Entry))
  choose_rows count ([], failures) =
      some (throw (error (units "all resume sources failed: " ++ join (units "; ") failures)))
  choose_rows count (row ∷ rows, failures) = do
    shuffled ← shuffle_in_place host.random 0 (row ∷ rows)
    some (ok (take count shuffled))

  -- `Math.ceil(count / 3)` rows of each source.
  unfoldable pub fetch_resume_rows : ℕ → Option (Result (List Entry))
  fetch_resume_rows count = do
    settled ← settle_sources ((count + 2) / 3) (zip_sources resume_sources host.datasets)
    choose_rows count (gather settled)

  unfoldable pub fetch_real_names : Result (List Text)
  fetch_real_names =
      elim (body_of host.json_error (units "randomuser.me request failed: HTTP ") host.names) [
        | throw e ↦ throw e
        | ok results ↦ ok (map (λ entry. entry.0 ++ (units " " ++ entry.1)) (coalesce results []))
      ]

  -- The mapper: the file of a name, with the resume at the same index, which may be missing.
  unfoldable pub public_file : List Entry → Text → ℕ → Option CandidateFile
  public_file resumes base_name index =
      let full_name = base_name ++ (units " " ++ serial index) in
      do
        buffer ← host.render (build_resume_html host.lower_case full_name (get_elem? resumes index))
        some (record {
          name = full_name;
          filename = file_name host.lower_case index full_name;
          buffer = buffer;
        })

  -- `mapWithConcurrency` over the names.
  unfoldable pub render_all : List Text → List Entry → Option (List CandidateFile)
  render_all names resumes =
      all_some (map (mapped names (public_file resumes)) (count_from 0 (length names)))

  unfoldable pub public_files :
      Result (List Text) → Result (List Entry) → Option (List CandidateFile)
  public_files (ok names) (ok resumes) =
      let rendered = render_all names resumes in if host.launches then rendered else none
  public_files _ _ = none

  -- `null` is `none`: a failure of any part is caught.
  unfoldable pub build_public_candidate_files : ℕ → Option (Option (List CandidateFile))
  build_public_candidate_files count =
      let resumes = fetch_resume_rows count in
      if host.fetch_disabled
      then some none
      else do rows ← resumes; some (public_files fetch_real_names rows)
