-- ===== src/Seeding/Resume.antt =====
-- The text functions of the generator, and the page that shows a public resume.
pub mod Escape
use mathlib.Core.Option
use cvranking.Prelude.{
  ℕ, ◌≤◌, ◌≡◌, refl, Bool, Option, none, some, List, [], ◌∷◌, ◌++◌, map, flat_map, leb, ◌==◌, ◌&&◌,
  coalesce, not, ◌||◌, if◌then◌else◌, Bool-cases, inl, inr, All, All-map, arith,
}
use cvranking.Js.Text.{
  join, Text, units, trim, split, lower, or_else, truthy, strip_prefix_ci, is_space,
}
use cvranking.Js.Text.Words.{collapse_spaces}

-- `.` of a pattern: no line terminator.
abbrev is_any : ℕ → Bool
is_any c = not (c == 10 || c == 13 || c == 0x2028 || c == 0x2029)

-- `(.+?) Job`: the shortest text of one unit or more in front of the word.
unfoldable pub up_to_job : Text → Option Text
up_to_job [] = none
up_to_job (c ∷ s) =
    let rest = Option.map (◌∷◌ c) (up_to_job s) in
    if not (is_any c)
    then none
    else elim (strip_prefix_ci (units " job") s) [ some _ ↦ some (c ∷ []) | none ↦ rest ]

-- `/for an? (.+?) Job/i` from the first unit on.
unfoldable pub category_at : Text → Option Text
category_at s = elim (strip_prefix_ci (units "for an ") s) [
  | some rest ↦ up_to_job rest
  | none ↦ elim (strip_prefix_ci (units "for a ") s) [ some rest ↦ up_to_job rest | none ↦ none ]
]

-- The first match in the text, or the empty text.
unfoldable pub derive_category_from_instruction : Text → Text
derive_category_from_instruction [] = []
derive_category_from_instruction (c ∷ s) =
    let rest = derive_category_from_instruction s in coalesce (category_at (c ∷ s)) rest

-- A row of a dataset, as `pick` returns it.
pub record Entry : Type 0 where
  pub text : Option Text
  pub category : Option Text
  pub html : Option Text

unfoldable pub pdf_printable : ℕ → Bool
pdf_printable c = leb 0x20 c && leb c 0x7e

-- `replace(/[^\x20-\x7E]/g, " ")`.
unfoldable pub blank_unit : ℕ → ℕ
blank_unit c = if pdf_printable c then c else 32

unfoldable pub sanitize_for_pdf : Text → Text
sanitize_for_pdf text = trim (collapse_spaces (map blank_unit text))

-- The three replacements of `escapeHTML`, each over the whole text.
unfoldable pub replace_unit : ℕ → Text → Text → Text
replace_unit c by [] = []
replace_unit c by (d ∷ s) =
    let rest = replace_unit c by s in if d == c then by ++ rest else d ∷ rest

-- A value that is missing is the empty text.
unfoldable pub escape_html : Text → Text
unfolding replace_unit
escape_html value =
    replace_unit b'>' (units "&gt;")
      (replace_unit b'<' (units "&lt;") (replace_unit b'&' (units "&amp;") value))

abbrev line_feed : Text
line_feed = 10 ∷ []

-- What stands in front of the header, for a resume with markup of its own.
unfoldable pub rich_head : Text
rich_head = join line_feed (
    units "<!doctype html><html><head><meta charset=\"utf-8\"><style>"
    ∷ units "      * { box-sizing: border-box; }"
    ∷ units
        "      body { font-family: Arial, Helvetica, sans-serif; margin: 0; color: #1f2937; font-size: 12px; }"
    ∷ units "      .cv-header { padding: 26px 34px; background: #0f172a; color: #fff; }"
    ∷ units "      .cv-header h1 { margin: 0; font-size: 22px; letter-spacing: -0.02em; }"
    ∷ units "      .cv-header p { margin: 6px 0 0; font-size: 12.5px; color: #cbd5e1; }"
    ∷ units "      #document { padding: 22px 34px; line-height: 1.55; }"
    ∷ units
        "      .sectiontitle { font-weight: 700; color: #1d4ed8; text-transform: uppercase; font-size: 11px; letter-spacing: .06em; }"
    ∷ units "      .heading { margin-top: 16px; }"
    ∷ units "      .name { display: none; }"
    ∷ units "    </style></head><body>"
    ∷ [])

-- The same for a resume of plain text.
unfoldable pub plain_head : Text
plain_head = join line_feed (
    units "<!doctype html><html><head><meta charset=\"utf-8\"><style>"
    ∷ units
        "    body { font-family: Georgia, 'Times New Roman', serif; margin: 0; color: #1f2937; font-size: 12.5px; }"
    ∷ units
        "    .cv-header { padding: 26px 34px; background: #0f172a; color: #fff; font-family: Arial, Helvetica, sans-serif; }"
    ∷ units "    .cv-header h1 { margin: 0; font-size: 22px; letter-spacing: -0.02em; }"
    ∷ units "    .cv-header p { margin: 6px 0 0; font-size: 12.5px; color: #cbd5e1; }"
    ∷ units "    .cv-body { padding: 24px 34px; line-height: 1.7; white-space: pre-wrap; }"
    ∷ units "  </style></head><body>"
    ∷ [])

-- `fullName.split(" ")[0]`.
unfoldable pub first_word : Text → Text
first_word s = elim (split 32 s) [ [] ↦ [] | word ∷ _ ↦ word ]

-- A field that is missing, or a row that is, is the empty text.
unfoldable pub entry_text : Option Entry → Text
entry_text none = []
entry_text (some entry) = coalesce entry.text []

unfoldable pub entry_html : Option Entry → Text
entry_html none = []
entry_html (some entry) = coalesce entry.html []

unfoldable pub no_resume_text : Text
no_resume_text = units "No resume content was available from the source dataset."

-- The text of a resume without markup, as it stands in the page.
unfoldable pub plain_body : Option Entry → Text
plain_body entry = escape_html (or_else (sanitize_for_pdf (entry_text entry)) no_resume_text)

-- `toLowerCase` is a parameter: its table of letters is no part of the repository.
module _ (lower_case : Text → Text) where
  unfoldable pub resume_header : Text → Text
  resume_header full_name = join line_feed (
      []
      ∷ units "    <div class=\"cv-header\">"
      ∷ (units "      <h1>" ++ (escape_html full_name ++ units "</h1>"))
      ∷ (units "      <p>"
          ++ (escape_html (lower_case (first_word full_name))
              ++ units "@resumeseed.example.com &middot; Available in 30 days</p>"))
      ∷ units "    </div>"
      ∷ [])

  unfoldable pub page_of : Option Entry → (header markup : Text) → Text
  page_of entry header [] =
      plain_head
      ++ (header
          ++ (units "<div class=\"cv-body\">"
              ++ (plain_body entry ++ units "</div></body></html>")))
  page_of entry header (c ∷ markup) =
      rich_head ++ (header ++ ((c ∷ markup) ++ units "</body></html>"))

  unfoldable pub build_resume_html : Text → Option Entry → Text
  build_resume_html full_name entry = page_of entry (resume_header full_name) (entry_html entry)
