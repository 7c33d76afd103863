-- ===== src/Upload/Preview.antt =====
-- `cleanPreviewText`, `buildPreviewText` and `buildDocumentPreview` of
-- frontend/app/api/ranking-test/route.ts.
use cvranking.Prelude.{
  ℕ, zero, suc, ◌+◌, ◌-◌, ◌*◌, ◌/◌, ◌%◌, Bool, true, false, not, ◌&&◌, ◌||◌, Option, none, some,
  List, [], ◌∷◌, ◌++◌, map, take, select, length, leb, ltb, ◌==◌, if◌then◌else◌,
}
use mathlib.Core.List.{tail, reverse}
use cvranking.Js.Text.{
  Text, units, truthy, or_else, trim, trim_start, join, starts_with, strip_prefix, strip_prefix_ci,
  text_eq,
}
use cvranking.Host.{Host, World, UploadedFile, tick}
use cvranking.Store.{ensure_data_dir}

abbrev backslash : ℕ
backslash = 92

-- `replace(/\\([()\\])/g, "$1")`.
unescape : Text → Text
unescape [] = []
unescape (c ∷ []) = c ∷ []
unescape (c ∷ d ∷ s) =
    let kept = c ∷ unescape (d ∷ s) in
    let taken = d ∷ unescape s in
    if c == backslash && (d == b'(' || d == b')' || d == backslash) then taken else kept

-- `replace(/\\<letter>/g, to)`.
replace_escape : (letter to : ℕ) → Text → Text
replace_escape letter to [] = []
replace_escape letter to (c ∷ []) = c ∷ []
replace_escape letter to (c ∷ d ∷ s) =
    let kept = c ∷ replace_escape letter to (d ∷ s) in
    let taken = to ∷ replace_escape letter to s in
    if c == backslash && d == letter then taken else kept

-- `[^\x20-\x7E\n\r\tÀ-ỹ]` becomes a space.
printable : ℕ → ℕ
printable c =
    if (leb 0x20 c && leb c 0x7e) || c == 10 || c == 13 || c == 9 || (leb 0xc0 c && leb c 0x1ef9)
    then c
    else 32

is_blank : ℕ → Bool
is_blank c = c == 32 || c == 9

-- A run of two or more blanks becomes one space: the rest already holds one unit for the run that
-- it begins with.
squeeze_blanks : Text → Text
squeeze_blanks [] = []
squeeze_blanks (c ∷ []) = c ∷ []
squeeze_blanks (c ∷ d ∷ s) =
    let rest = squeeze_blanks (d ∷ s) in
    if is_blank c && is_blank d then 32 ∷ tail rest else c ∷ rest

-- `replace(/\n{3,}/g, "\n\n")`.
unfoldable pub squeeze_newlines : Text → Text
squeeze_newlines [] = []
squeeze_newlines (c ∷ s) =
    let rest = squeeze_newlines s in
    if c == 10 && starts_with (10 ∷ 10 ∷ []) rest then rest else c ∷ rest

unfoldable pub clean_preview_text : Text → Text
unfolding unescape replace_escape printable squeeze_blanks is_blank
clean_preview_text value = trim (
    squeeze_newlines (
      squeeze_blanks (
        map printable (
          replace_escape b't' 32
            (replace_escape b'r' 10 (replace_escape b'n' 10 (unescape value)))))))

-- The longest front part without parentheses, and what follows it.
until_paren : Text → Text × Text
until_paren [] = ([], [])
until_paren (c ∷ s) =
    let (run, rest) = until_paren s in
    if c == b'(' || c == b')' then ([], c ∷ s) else (c ∷ run, rest)

-- Behind an opening parenthesis: `([^()]{2,})\)\s*Tj`, as the group and what follows the match.
text_operator : Text → Option (Text × Text)
unfolding until_paren
text_operator s =
    let (run, rest) = until_paren s in
    if leb 2 (length run)
    then elim rest [
      | [] ↦ none
      | c ∷ t ↦
          if c == b')'
          then elim (strip_prefix (units "Tj") (trim_start t)) [
            | none ↦ none
            | some after ↦ some (run, after)
          ]
          else none
    ]
    else none

-- `matchAll(/\(([^()]{2,})\)\s*Tj/g)`, on fuel for the units that are left.
text_operators : ℕ → Text → List Text
text_operators zero s = []
text_operators (suc fuel) [] = []
text_operators (suc fuel) (c ∷ s) =
    let skipped = text_operators fuel s in
    if c == b'('
    then elim (text_operator s) [
      | none ↦ skipped
      | some (run, after) ↦ run ∷ text_operators fuel after
    ]
    else skipped

unfoldable pub no_preview : Text
no_preview =
    units
      "Preview text chưa khả dụng cho file này. Hãy dùng PDF/DOCX có text layer để xem nội dung trực tiếp."

unfoldable pub preview_of : (raw : Text) → Text
unfolding text_operators text_operator
preview_of raw =
    let pdf_text =
      join (10 ∷ []) (select truthy (map clean_preview_text (text_operators (length raw) raw))) in
    let printable_text = clean_preview_text raw in
    if ltb 40 (length pdf_text)
    then take 5000 pdf_text
    else if ltb 40 (length printable_text) && not (starts_with (units "%PDF") printable_text)
    then take 5000 printable_text
    else no_preview

-- A file that cannot be read has an empty preview.
unfoldable pub build_preview_text : UploadedFile → Text
build_preview_text file = elim file.text [ none ↦ [] | some raw ↦ preview_of raw ]

-- The base-64 alphabet, and `Buffer.toString("base64")`.
base64_unit : ℕ → ℕ
base64_unit n =
    if ltb n 26
    then n + b'A'
    else if ltb n 52
    then n + 71
    else if ltb n 62
    then n - 4
    else if n == 62
    then b'+'
    else b'/'

unfoldable pub base64 : Text → Text
unfolding base64_unit
base64 [] = []
base64 (a ∷ []) = base64_unit (a / 4) ∷ base64_unit (a % 4 * 16) ∷ b'=' ∷ b'=' ∷ []
base64 (a ∷ b ∷ []) =
    base64_unit (a / 4) ∷ base64_unit (a % 4 * 16 + b / 16) ∷ base64_unit (b % 16 * 4) ∷ b'=' ∷ []
base64 (a ∷ b ∷ c ∷ s) =
    base64_unit (a / 4)
    ∷ base64_unit (a % 4 * 16 + b / 16)
    ∷ base64_unit (b % 16 * 4 + c / 64)
    ∷ base64_unit (c % 64)
    ∷ base64 s

unfoldable pub pdf_data_url : Text → Text
pdf_data_url bytes = units "data:application/pdf;base64," ++ base64 bytes

abbrev pub pdf_mime : Text
pdf_mime = units "application/pdf"

-- `toLowerCase().endsWith(".pdf")`.
ends_with_pdf : Text → Bool
ends_with_pdf name = elim (strip_prefix_ci (units "fdp.") (reverse name)) [
  | none ↦ false
  | some front ↦ true
]

unfoldable pub file_mime : UploadedFile → Text
unfolding ends_with_pdf
file_mime file = or_else file.type (if ends_with_pdf file.name then pdf_mime else [])

-- A file under its name in the directory of documents, replaced if it is there.
unfoldable pub write_pdf : (fails : Bool) → Text → Text → World → World
write_pdf true id bytes w = tick w
write_pdf false id bytes w = record (tick w) { pdfs = (id, bytes) ∷ w.pdfs }

-- The mime type and the data URL of a PDF, which is also written to disk. The content of a file is in
-- memory once the form has been read, so that `arrayBuffer` is taken to bring it.
unfoldable pub build_document_preview :
    Host → UploadedFile → (cv_id : Text) → World → Option (Text × Text) × World
unfolding write_pdf
build_document_preview host file cv_id w =
    let ready = ensure_data_dir host w in
    if text_eq (file_mime file) pdf_mime
    then (
      some (pdf_mime, pdf_data_url file.bytes),
      write_pdf (host.disk_fails ready.calls) cv_id file.bytes ready,
    )
    else (none, w)
