-- ===== src/Seeding/Resume/Escape.antt =====
-- What `sanitizeForPDF` and `escapeHTML` leave in a page.
use mathlib.Core.List.{append_assoc}
use cvranking.Prelude.{
  ℕ, ◌≡◌, ◌≢◌, refl, ◌∙◌, true, [], ◌∷◌, ◌++◌, map, flat_map, ◌==◌, if◌then◌else◌, if-both,
  Bool-cases, inl, inr, All, All-map, All-append, arith,
}
use cvranking.Js.Text.{Text, units, trim, is_space}
use cvranking.Js.Text.Laws.{trim-All, trim_idem}
use cvranking.Js.Text.Words.{collapse_spaces, one_space}
use cvranking.Seeding.Resume.{
  pdf_printable, blank_unit, sanitize_for_pdf, replace_unit, escape_html,
}

-- A unit as it is written in a page: the three that have a meaning there by their names.
abbrev pub entity : ℕ → Text
entity c =
    if c == b'&'
    then units "&amp;"
    else if c == b'<'
    then units "&lt;"
    else if c == b'>'
    then units "&gt;"
    else c ∷ []

replace_unit-append :
    (c : ℕ) (by s t : Text)
    → replace_unit c by (s ++ t) ≡ replace_unit c by s ++ replace_unit c by t
unfolding replace_unit
replace_unit-append c by [] t = refl
replace_unit-append c by (d ∷ s) t = elim (Bool-cases (d == c)) [
  | inl e ↦ rw (e, replace_unit-append c by s t, append_assoc) refl
  | inr e ↦ rw (e, replace_unit-append c by s t) refl
]

escape_html-append : (s t : Text) → escape_html (s ++ t) ≡ escape_html s ++ escape_html t
unfolding escape_html
escape_html-append s t =
    rw
      (
        replace_unit-append b'&' (units "&amp;") s t,
        replace_unit-append b'<' (units "&lt;"),
        replace_unit-append b'>' (units "&gt;"),
      )
      refl

escape_html-unit : (c : ℕ) → escape_html (c ∷ []) ≡ entity c
unfolding escape_html replace_unit units
escape_html-unit c = ground arith

escape_html-entities : (value : Text) → escape_html value ≡ flat_map entity value
escape_html-entities [] = unfold escape_html replace_unit in refl
escape_html-entities (c ∷ s) =
    escape_html-append (c ∷ []) s
    ∙ mathlib.Core.Path.ap₂ ◌++◌ (escape_html-unit c) (escape_html-entities s)

-- Neither of the signs that open and close a tag.
abbrev pub NoTag : ℕ → Type 0
NoTag c = (c ≢ b'<') × (c ≢ b'>')

entity-NoTag : (c : ℕ) → All NoTag (entity c)
unfolding units
entity-NoTag c = ground arith

All-flat_map :
    (P : ℕ → Type 0) (f : ℕ → Text) (s : Text) → ((c : ℕ) → All P (f c)) → All P (flat_map f s)
All-flat_map P f [] h = tt
All-flat_map P f (c ∷ s) h = All-append P (f c) (flat_map f s) (h c) (All-flat_map P f s h)

-- The three replacements, one after the other, write each unit once by its name, and what they give
-- opens and closes no tag.
pub escape_html_lem :
    (value : Text) → (escape_html value ≡ flat_map entity value) × All NoTag (escape_html value)
escape_html_lem value = (
  escape_html-entities value,
  rw (escape_html-entities value) (All-flat_map NoTag entity value entity-NoTag),
)

one_space-pdf_printable :
    (s : Text)
    → All (λ c. pdf_printable c ≡ true) s
    → All (λ c. pdf_printable c ≡ true) (one_space s)
unfolding one_space pdf_printable
one_space-pdf_printable [] h = (refl, tt)
one_space-pdf_printable (c ∷ s) h =
    if-both (All (λ c. pdf_printable c ≡ true)) (is_space c) (c ∷ s) (32 ∷ c ∷ s) h (refl, h)

collapse-pdf_printable :
    (s : Text)
    → All (λ c. pdf_printable c ≡ true) s
    → All (λ c. pdf_printable c ≡ true) (collapse_spaces s)
unfolding collapse_spaces
collapse-pdf_printable [] h = tt
collapse-pdf_printable (c ∷ s) (p, h) =
    if-both (All (λ c. pdf_printable c ≡ true)) (is_space c) (one_space (collapse_spaces s))
      (c ∷ collapse_spaces s)
      (one_space-pdf_printable (collapse_spaces s) (collapse-pdf_printable s h))
      (p, collapse-pdf_printable s h)

blank_unit-pdf_printable : (c : ℕ) → pdf_printable (blank_unit c) ≡ true
unfolding blank_unit pdf_printable
blank_unit-pdf_printable c = ground arith

-- The text of a page holds pdf_printable ASCII only, and no space at its ends.
pub sanitize_for_pdf_lem :
    (text : Text)
    → All (λ c. pdf_printable c ≡ true) (sanitize_for_pdf text)
      × (trim (sanitize_for_pdf text) ≡ sanitize_for_pdf text)
unfolding sanitize_for_pdf
sanitize_for_pdf_lem text = (
  trim-All (λ c. pdf_printable c ≡ true) (collapse_spaces (map blank_unit text))
      (collapse-pdf_printable (map blank_unit text)
        (All-map (λ c. pdf_printable c ≡ true) blank_unit text blank_unit-pdf_printable)),
  trim_idem (collapse_spaces (map blank_unit text)),
)
