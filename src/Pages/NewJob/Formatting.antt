-- ===== src/Pages/NewJob/Formatting.antt =====
-- `formatJD` of the page and `normalizeJD` of the assistant's route are two copies of one routine,
-- which recognize a heading in different ways.
use mathlib.Core.Path.{ap₂}
use cvranking.Prelude.{
  ℕ, ◌<◌, ◌≡◌, refl, sym, ap, ◌||◌, List, [], ◌∷◌, map, select, length-map, arith, ◌==◌, All,
  Bool-cases, inl, inr,
}
use cvranking.Js.Text.{Text, text_eq, trim, truthy, split_lines, join, lower, strip_prefix_ci}
use cvranking.Js.Text.Laws.{trim-All, split_lines-All}
use cvranking.Assistant.Edit.{
  drop_colon, equals_ci, some_passes, is_heading, heading_names, normalize_line, normalize_jd,
  collapse_newlines, space_headings,
}
use cvranking.Pages.NewJob.{format_line, format_text}
use cvranking.Rerank.Values.{one_of}

drop_colon-lower : (s : Text) → drop_colon (map lower s) ≡ map lower (drop_colon s)
unfolding drop_colon lower
drop_colon-lower [] = refl
drop_colon-lower (c ∷ s) = ground (arith, drop_colon-lower s, length-map lower s)

eq_comm : (m n : ℕ) → (m == n) ≡ (n == m)
eq_comm m n = ground arith

equals_ci_lem : (name s : Text) → equals_ci name s ≡ text_eq (map lower s) name
unfolding equals_ci strip_prefix_ci text_eq
equals_ci_lem [] [] = refl
equals_ci_lem [] (d ∷ s) = refl
equals_ci_lem (c ∷ name) [] = refl
equals_ci_lem (c ∷ name) (d ∷ s) = ground (arith, equals_ci_lem name s, eq_comm (lower d) c)

one_of_lem :
    (s : Text) (names : List Text)
    → one_of (map lower s) names ≡ some_passes (λ name. equals_ci name s) names
unfolding one_of some_passes
one_of_lem s [] = refl
one_of_lem s (name ∷ names) = ap₂ ◌||◌ (sym (equals_ci_lem name s)) (one_of_lem s names)

-- The text is in ASCII.
abbrev pub IsAscii : Text → Type 0
IsAscii s = All (λ c. c < 128) s

module _ (lower_case : Text → Text)
    (lowers : (s : Text) → IsAscii s → lower_case s ≡ map lower s) where
  format_line-normalize_line :
      (line : Text) → IsAscii line → format_line lower_case line ≡ normalize_line line
  unfolding format_line normalize_line is_heading
  format_line-normalize_line line h =
      rw (lowers line h, drop_colon-lower line, one_of_lem (drop_colon line) heading_names) refl

  format_lines :
      (lines : List Text)
      → All IsAscii lines
      → map (format_line lower_case) (select truthy (map trim lines))
        ≡ map normalize_line (select truthy (map trim lines))
  format_lines [] h = refl
  format_lines (line ∷ lines) (h, hs) = elim (Bool-cases (truthy (trim line))) [
    | inl e ↦ rw e (
        ap₂ ◌∷◌ (format_line-normalize_line (trim line) (trim-All (λ c. c < 128) line h))
          (format_lines lines hs))
    | inr e ↦ rw e (format_lines lines hs)
  ]

  -- On a description in ASCII, where lower case changes the letters A to Z alone, the page formats as
  -- the server normalizes.
  pub format_text-normalize_jd :
      (jd : Text) → IsAscii jd → format_text lower_case jd ≡ normalize_jd jd
  unfolding format_text normalize_jd
  format_text-normalize_jd jd h =
      ap (λ lines. trim (space_headings (collapse_newlines (join (10 ∷ []) lines))))
        (format_lines (split_lines jd) (split_lines-All (λ c. c < 128) jd h))
