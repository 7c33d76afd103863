-- ===== src/Assistant/Edit.antt =====
-- `normalizeJD` and `localFallback` of frontend/app/api/jd-assistant/route.ts: the edits of a job
-- description that need no provider.
use cvranking.Prelude.{
  ℕ, suc, Bool, true, false, not, ◌&&◌, ◌||◌, Option, none, some, List, [], ◌∷◌, ◌++◌, map, take,
  select, ◌==◌, ltb, length, if◌then◌else◌,
}
use cvranking.Js.Text.{
  Text, units, truthy, or_else, trim, trim_start, join, split_lines, starts_with, includes,
  strip_prefix, strip_prefix_ci, lower,
}
use cvranking.Assistant.Types.{AssistantResult}

-- `replace(/:$/, "")`.
unfoldable pub drop_colon : Text → Text
drop_colon [] = []
drop_colon (c ∷ s) =
    let rest = drop_colon s in if c == b':' && (length s == 0) then [] else c ∷ rest

-- The whole text is a given one in lower case, whatever its own case.
unfoldable pub equals_ci : (pattern s : Text) → Bool
equals_ci pattern s = elim (strip_prefix_ci pattern s) [
  | none ↦ false
  | some [] ↦ true
  | some (c ∷ rest) ↦ false
]

-- Some of the texts passes the test.
unfoldable pub some_passes : (Text → Bool) → List Text → Bool
some_passes p [] = false
some_passes p (t ∷ ts) = p t || some_passes p ts

abbrev pub heading_names : List Text
heading_names =
    units "about the role"
    ∷ units "key responsibilities"
    ∷ units "responsibilities"
    ∷ units "requirements"
    ∷ units "nice to have"
    ∷ []

abbrev pub headings : List Text
headings =
    units "About the role"
    ∷ units "Key responsibilities"
    ∷ units "Responsibilities"
    ∷ units "Requirements"
    ∷ units "Nice to have"
    ∷ []

unfoldable pub is_heading : Text → Bool
unfolding equals_ci some_passes
is_heading line = some_passes (λ name. equals_ci name (drop_colon line)) heading_names

abbrev pub bullet : ℕ
bullet = 0x2022

-- `- ` for a bullet at the start, with the spaces after it.
unfoldable pub dash_bullet : Text → Text
dash_bullet [] = []
dash_bullet (c ∷ s) = if c == b'-' || c == bullet then b'-' ∷ 32 ∷ trim_start s else c ∷ s

-- One line of a description: a heading loses its colon and gets an empty line.
unfoldable pub normalize_line : Text → Text
normalize_line line = if is_heading line then drop_colon line ++ (10 ∷ []) else dash_bullet line

-- `replace(/\n{3,}/g, "\n\n")`.
unfoldable pub collapse_newlines : Text → Text
collapse_newlines [] = []
collapse_newlines (c ∷ s) =
    let rest = collapse_newlines s in
    if c == 10 && starts_with (10 ∷ 10 ∷ []) rest then rest else c ∷ rest

-- `replace(/\n(About the role|…)/g, "\n\n$1")`. No heading has a line feed, so that two matches never
-- overlap.
unfoldable pub space_headings : Text → Text
unfolding some_passes
space_headings [] = []
space_headings (c ∷ s) =
    let rest = space_headings s in
    if c == 10 && some_passes (λ h. starts_with h s) headings then 10 ∷ 10 ∷ rest else c ∷ rest

unfoldable pub normalize_jd : Text → Text
normalize_jd value =
    let lines = map normalize_line (select truthy (map trim (split_lines value))) in
    trim (space_headings (collapse_newlines (join (10 ∷ []) lines)))

-- `replace(from, to)` with a text that is not empty: its first occurrence.
unfoldable pub replace_first : (from to : Text) → Text → Text
replace_first from to [] = []
replace_first from to (c ∷ s) =
    let rest = replace_first from to s in
    elim (strip_prefix from (c ∷ s)) [ none ↦ c ∷ rest | some after ↦ to ++ after ]

-- `([^\n]+?) to `: the shortest text without a line feed up to ` to `, which is not at its very start,
-- and what follows.
up_to_verb : (first : Bool) → Text → Option (Text × Text)
up_to_verb first [] = none
up_to_verb first (c ∷ s) =
    let rest = up_to_verb false s in
    elim (if first then none else strip_prefix (units " to ") (c ∷ s)) [
      | some after ↦ some ([], after)
      | none ↦
          if c == 10
          then none
          else elim rest [ none ↦ none | some (name, after) ↦ some (c ∷ name, after) ]
    ]

-- `replace(/We are hiring a ([^\n]+?) to /, "Chúng tôi đang tuyển $1 để ")`.
unfoldable pub replace_hiring : Text → Text
unfolding up_to_verb
replace_hiring [] = []
replace_hiring (c ∷ s) =
    let rest = replace_hiring s in
    elim (strip_prefix (units "We are hiring a ") (c ∷ s)) [
      | none ↦ c ∷ rest
      | some tail ↦ elim (up_to_verb true tail) [
        | none ↦ c ∷ rest
        | some (name, after) ↦ units "Chúng tôi đang tuyển " ++ (name ++ (units " để " ++ after))
      ]
    ]

unfoldable pub translate : Text → Text
translate jd = replace_hiring (
    replace_first (units "Nice to have") (units "Điểm cộng") (
      replace_first (units "Requirements") (units "Yêu cầu") (
        replace_first (units "Key responsibilities") (units "Trách nhiệm chính")
          (replace_first (units "About the role") (units "Tổng quan vai trò") jd))))

abbrev pub kept_starts : List Text
kept_starts =
    units "About"
    ∷ units "Key"
    ∷ units "Requirements"
    ∷ units "Nice"
    ∷ units "Tổng"
    ∷ units "Trách"
    ∷ units "Yêu"
    ∷ units "Điểm"
    ∷ units "-"
    ∷ []

-- The lines from a given index: the first two, and those with a known start.
unfoldable pub kept_lines : (index : ℕ) → List Text → List Text
unfolding some_passes
kept_lines index [] = []
kept_lines index (line ∷ lines) =
    let rest = kept_lines (suc index) lines in
    if ltb index 2 || some_passes (λ p. starts_with p line) kept_starts then line ∷ rest else rest

unfoldable pub shorten : Text → Text
shorten jd = trim (join (10 ∷ []) (take 14 (kept_lines 0 (split_lines jd))))

abbrev pub ranking_signals : Text
ranking_signals = join (10 ∷ []) (
    []
    ∷ []
    ∷ units "Ranking signals"
    ∷ units
        "- Prioritize candidates with direct evidence for must-have skills and production ownership."
    ∷ units
        "- Prefer CVs that state years of experience, business impact and concrete technology scope."
    ∷ units "- Treat nice-to-have items as differentiators, not hard filters."
    ∷ [])

abbrev pub kubernetes_wish : Text
kubernetes_wish = join (10 ∷ []) (
    []
    ∷ []
    ∷ units "Nice to have"
    ∷ units "- Kubernetes experience operating multi-service platforms."
    ∷ [])

-- `/kubernetes/i.test(…)`.
unfoldable pub mentions_kubernetes : Text → Bool
mentions_kubernetes s = includes (units "kubernetes") (map lower s)

abbrev pub when : (Bool) → (Text → Text) → Text → Text
when test edit jd = if test then edit jd else jd

abbrev pub fallback_reply : Text
fallback_reply =
    units
      "Mình đã chỉnh JD theo yêu cầu bằng fallback local. Khi cấu hình GEMINI_API_KEYS, phần này sẽ dùng Gemini và ghi nhớ ngữ cảnh tốt hơn."

-- The edits in turn, by the message in lower case.
unfoldable pub revise : (lower_message jd : Text) → Text
revise message jd =
    let vietnamese =
      includes (units "tiếng việt") message || includes (units "vietnamese") message in
    let short = includes (units "rút gọn") message || includes (units "ngắn") message in
    let signals =
      includes (units "ranking") message
      || includes (units "rõ tiêu chí") message
      || includes (units "tiêu chí") message in
    let edited =
      when signals (λ s. normalize_jd (s ++ ranking_signals))
        (when short shorten (when vietnamese translate (normalize_jd jd))) in
    when (includes (units "kubernetes") message && not (mentions_kubernetes edited))
      (λ s. normalize_jd (s ++ kubernetes_wish)) edited

-- `localFallback`, where `lower_case` is `toLowerCase`.
unfoldable pub local_fallback :
    (lower_case : Text → Text) → (title jd message : Text) → AssistantResult
local_fallback lower_case title jd message = record {
  reply = fallback_reply;
  revised_jd = or_else (revise (lower_case message) jd) (
      units "About the role"
      ++ (10 ∷ units "We are hiring a "
          ++ (title
              ++ (units "."
                  ++ (10 ∷ 10 ∷ units "Requirements"
                      ++ (10 ∷ units "- Relevant production experience."))))));
}
