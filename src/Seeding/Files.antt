-- ===== src/Seeding/Files.antt =====
-- `makeCandidatePDF` and `resolveCandidateFiles`: a file for each slot.
use cvranking.Prelude.{
  ℕ, zero, suc, ◌≤◌, ◌≡◌, refl, sym, ap, ◌∙◌, inl, inr, Option, some, List, [], ◌∷◌, ◌++◌, map,
  length, length-map, count_from, length-count_from, all_some, all_some-map, Has, Distinct, arith,
}
use cvranking.Prelude.Options.{◌>>=◌}
use cvranking.Js.Decimal.{decimal}
use cvranking.Js.Text.{Text, units, join}
use cvranking.Seeding.Candidates.{CandidateFile, file_name}
use cvranking.Seeding.Names.{file_name-injective}
use cvranking.Seeding.Pdf.{make_pdf}
use cvranking.Seeding.Profiles.{Profile, profile_for}
use cvranking.Seeding.Sample.{sample_candidate_files}

unfoldable pub skills_line : List Text → List Text
skills_line [] = []
skills_line (skill ∷ skills) =
    (units "Skills: " ++ (join (units ", ") (skill ∷ skills) ++ units ".")) ∷ []

unfoldable pub profile_lines : Profile → List Text
profile_lines profile =
    profile.name
    ∷ profile.title
    ∷ (decimal profile.years ++ units " years experience in production software teams.")
    ∷ (skills_line profile.skills ++ profile.impacts)

module _ (lower_case : Text → Text) where
  -- The name of the file and its content.
  unfoldable pub make_candidate_pdf : Profile → (filename_index : ℕ) → Option (Text × Text)
  make_candidate_pdf profile filename_index = do
    buffer ← make_pdf lower_case (profile_lines profile)
    some (file_name lower_case filename_index profile.name, buffer)

  unfoldable pub fallback_file : (total index : ℕ) → Option CandidateFile
  fallback_file total index =
      let profile = profile_for index total in
      do
        file ← make_candidate_pdf profile index
        some (record { name = profile.name; filename = file.0; buffer = file.1 })

  unfoldable pub fallback_files : (count total : ℕ) → Option (List CandidateFile)
  fallback_files count total = all_some (map (fallback_file total) (count_from 0 count))

  -- `none` as the result is a throw, and as the pool `null`.
  unfoldable pub resolve_candidate_files :
      (random : ℕ → ℕ) (call : ℕ)
      → Option (List CandidateFile)
      → (count total : ℕ) → Option (List CandidateFile)
  resolve_candidate_files random call (some (file ∷ files)) count total =
      sample_candidate_files random call (some (file ∷ files)) count
  resolve_candidate_files random call _ count total = fallback_files count total

  fallback_file_lem :
      (total index : ℕ)
      → (file : CandidateFile) × (fallback_file total index ≡ some file)
        × (file.filename ≡ file_name lower_case index (profile_for index total).name)
  unfolding fallback_file make_candidate_pdf profile_lines make_pdf
  fallback_file_lem total index = (_, refl, refl)

  module _ (total : ℕ) where
    -- The file names from an index on.
    names_from : (first n : ℕ) → List Text
    names_from first zero = []
    names_from first (suc n) =
        file_name lower_case first (profile_for first total).name ∷ names_from (suc first) n

    Has-names_from :
        (name : Text) (first n : ℕ)
        → Has name (names_from first n)
        → (i : ℕ) × (first ≤ i) × (name ≡ file_name lower_case i (profile_for i total).name)
    unfolding names_from
    Has-names_from name first zero h = absurd h
    Has-names_from name first (suc n) (inl e) = (first, omega arith, e)
    Has-names_from name first (suc n) (inr h) =
        let (i, le, e) = Has-names_from name (suc first) n h in (i, omega (arith, le), e)

    names_from-Distinct : (first n : ℕ) → Distinct (names_from first n)
    unfolding names_from
    names_from-Distinct first zero = tt
    names_from-Distinct first (suc n) = (
      (λ h.
          let (i, le, e) = Has-names_from _ (suc first) n h in
          let same = file_name-injective lower_case first i _ _ e in omega (arith, le, same)),
      names_from-Distinct (suc first) n,
    )

    filenames_of :
        (first n : ℕ) (files : List CandidateFile)
        → map (fallback_file total) (count_from first n) ≡ map some files
        → map (λ file. file.filename) files ≡ names_from first n
    unfolding names_from
    filenames_of first zero [] e = refl
    filenames_of first zero (file ∷ files) e = cc e
    filenames_of first (suc n) [] e = cc e
    filenames_of first (suc n) (file ∷ files) e =
        let (made, f, g) = fallback_file_lem total first in
        let same : file ≡ made = cc (e, f) in
        mathlib.Core.Path.ap₂ ◌∷◌ (ap (λ (f : CandidateFile). f.filename) same ∙ g)
          (filenames_of (suc first) n files (cc e))

  -- Without a pool, as many files as asked for are made, none of which throws, and no two of them have
  -- the same file name.
  pub fallback_files-Distinct :
      (count total : ℕ)
      → (files : List CandidateFile) × (fallback_files count total ≡ some files)
        × (length files ≡ count)
        × Distinct (map (λ file. file.filename) files)
  unfolding fallback_files
  fallback_files-Distinct count total =
      let (files, e, f) =
        all_some-map (fallback_file total) (count_from 0 count)
          (λ index. let (file, g, _) = fallback_file_lem total index in (file, g)) in
      (
        files,
        e,
        sym (length-map some files)
            ∙ ap length (sym f)
            ∙ length-map (fallback_file total) (count_from 0 count)
            ∙ length-count_from 0 count,
        rw (filenames_of total 0 count files f) (names_from-Distinct total 0 count),
      )
