-- ===== src/Seeding/Pdf.antt =====
-- `makePDF`: a page of a synthetic profile, written by hand. A colour component is given in
-- thousandths, and a height by how far below a fixed one it is, so that it may be negative.
pub mod Offsets
use cvranking.Prelude.{
  ℕ, zero, suc, ◌+◌, ◌*◌, ◌-◌, ◌/◌, ◌%◌, ◌≤◌, ◌≡◌, min, Bool, true, false, not, Option, none, some,
  List, [], ◌∷◌, ◌++◌, map, take, drop, select, find, flat_map, length, get_elem?, coalesce, leb,
  ltb, if◌then◌else◌,
}
use cvranking.Js.Decimal.{decimal, pad_start}
use cvranking.Js.Text.{Text, units, join, split, trim, starts_with, truthy}
use cvranking.Js.Text.Bytes.{byte_length}
use cvranking.Seeding.Resume.{replace_unit, first_word}
use cvranking.Seeding.Wrap.{wrap_text}

unfoldable pub escape_pdf_text : Text → Text
escape_pdf_text value =
    replace_unit b')' (units "\\)")
      (replace_unit b'(' (units "\\(") (replace_unit b'\\' (units "\\\\") value))

pub record Color : Type 0 where
  pub red : ℕ
  pub green : ℕ
  pub blue : ℕ

abbrev pub color : ℕ → ℕ → ℕ → Color
color r g b = record { red = r; green = g; blue = b }

-- `toFixed(3)`.
unfoldable pub fixed_3 : ℕ → Text
fixed_3 n = decimal (n / 1000) ++ (units "." ++ pad_start 3 b'0' (decimal (n % 1000)))

-- `top - down` in decimal.
unfoldable pub below : (top down : ℕ) → Text
below top down = if leb down top then decimal (top - down) else units "-" ++ decimal (down - top)

abbrev spaced : List Text → Text
spaced parts = join (units " ") parts

unfoldable pub pdf_text : (x : ℕ) → (y text font : Text) → (size : ℕ) → Color → Text
pdf_text x y text font size c = spaced (
    units "BT"
    ∷ (units "/" ++ font)
    ∷ decimal size
    ∷ units "Tf"
    ∷ fixed_3 c.red
    ∷ fixed_3 c.green
    ∷ fixed_3 c.blue
    ∷ units "rg"
    ∷ decimal x
    ∷ y
    ∷ units "Td"
    ∷ (units "(" ++ (escape_pdf_text text ++ units ")"))
    ∷ units "Tj"
    ∷ units "ET"
    ∷ [])

abbrev f1 : Text
f1 = units "F1"

abbrev f2 : Text
f2 = units "F2"

abbrev blue_mark : Color
blue_mark = color 145 388 922

abbrev grey_text : Color
grey_text = color 208 254 333

abbrev skills_mark : Text
skills_mark = units "Skills:"

-- One line below the other: `down` is how far the next one is below the first.
unfoldable pub stack_lines : (x top step down size : ℕ) → List Text → List Text
stack_lines x top step down size [] = []
stack_lines x top step down size (line ∷ rest) =
    pdf_text x (below top down) line f1 size grey_text
    ∷ stack_lines x top step (down + step) size rest

unfoldable pub skill_width : Text → ℕ
skill_width skill =
    let natural = min 132 (length skill * 6 + 24) in if ltb natural 64 then 64 else natural

-- The badges of the skills, from a place on.
unfoldable pub place_skill : (x down width : ℕ) → Text → List Text
place_skill x down width skill =
    spaced (
      units "0.937 0.965 1 rg"
      ∷ decimal x
      ∷ below 506 (down + 7)
      ∷ decimal width
      ∷ units "24 re f"
      ∷ [])
    ∷ spaced (
        units "0.745 0.839 1 RG"
        ∷ decimal x
        ∷ below 506 (down + 7)
        ∷ decimal width
        ∷ units "24 re S"
        ∷ [])
    ∷ pdf_text (x + 12) (below 506 down) skill f2 9 (color 114 306 847)
    ∷ []

unfoldable pub place_skills : (x down : ℕ) → List Text → List Text
place_skills x down [] = []
place_skills x down (skill ∷ rest) =
    let width = skill_width skill in
    let wraps = ltb 558 (x + width) in
    let x' = if wraps then 38 else x in
    let down' = if wraps then down + 34 else down in
    place_skill x' down' width skill ++ place_skills (x' + width + 10) down' rest

unfoldable pub is_skills : Text → Bool
is_skills line = starts_with skills_mark line

-- The line of the skills without its mark, cut at the commas.
unfoldable pub skills_in : List Text → List Text
skills_in lines =
    let line = coalesce (find is_skills lines) (units "Skills: Communication, ownership") in
    select truthy (map trim (split b',' (drop (length skills_mark) line)))

-- `wrapText(`- ${line}`, width).slice(0, 2)` of each line.
unfoldable pub bullets : (width : ℕ) → List Text → List Text
bullets width lines = flat_map (λ line. take 2 (wrap_text (units "- " ++ line) width)) lines

-- `toLowerCase` is a parameter: its table of letters is no part of the repository.
module _ (lower_case : Text → Text) where
  unfoldable pub heading_ops : (name title : Text) → List Text
  heading_ops name title =
      units "0.973 0.980 0.992 rg 0 0 595 842 re f"
      ∷ units "0.071 0.125 0.243 rg 0 724 595 118 re f"
      ∷ units "0.145 0.388 0.922 rg 38 690 96 8 re f"
      ∷ pdf_text 38 (below 786 0) name f2 27 (color 1000 1000 1000)
      ∷ pdf_text 40 (below 762 0) title f1 13 (color 816 878 1000)
      ∷ pdf_text 40 (below 742 0)
          (lower_case (first_word name)
            ++ units "@loadtest.example.com  -  Ho Chi Minh City  -  Available in 30 days")
          f1 9 (color 710 784 910)
      ∷ units "1 1 1 rg 34 596 186 96 re f"
      ∷ units "0.898 0.918 0.953 RG 34 596 186 96 re S"
      ∷ pdf_text 52 (below 668 0) (units "PROFILE") f2 10 blue_mark
      ∷ units "1 1 1 rg 240 596 320 96 re f"
      ∷ units "0.898 0.918 0.953 RG 240 596 320 96 re S"
      ∷ pdf_text 258 (below 668 0) (units "SELECTED IMPACT") f2 10 blue_mark
      ∷ []

  abbrev section_ops : Text → (y rule : ℕ) → List Text
  section_ops title y rule =
      pdf_text 38 (below y 0) title f2 11 blue_mark
      ∷ spaced (units "0.898 0.918 0.953 RG 38" ∷ decimal rule ∷ units "520 1 re S" ∷ [])
      ∷ []

  -- What is drawn, for the first three lines and the others.
  unfoldable pub text_ops : (name title experience : Text) → List Text → List Text
  text_ops name title experience rest =
      let lines = name ∷ title ∷ experience ∷ rest in
      let without_skills = select (λ line. not (is_skills line)) in
      heading_ops name title
      ++ (stack_lines 52 646 17 0 10 (take 3 (wrap_text experience 34))
          ++ (stack_lines 258 646 16 0 9 (bullets 76 (take 2 (without_skills rest)))
              ++ (section_ops (units "CORE SKILLS") 548 535
                  ++ (place_skills 38 0 (take 12 (skills_in lines))
                      ++ (section_ops (units "EXPERIENCE HIGHLIGHTS") 410 397
                          ++ (stack_lines 52 368 20 0 10
                                (bullets 108 (without_skills (experience ∷ rest)))
                              ++ (section_ops (units "SIGNALS FOR TALENTRANK") 238 225
                                  ++ (pdf_text 52 (below 198 0)
                                        (units
                                          "Generated resume with varied skill coverage for ranking demos.")
                                        f1 10 grey_text
                                      ∷ pdf_text 52 (below 176 0)
                                          (units
                                            "The content remains parseable and evidence-rich for the local ranking pipeline.")
                                          f1 10 grey_text
                                      ∷ []))))))))

abbrev line_feed : Text
line_feed = 10 ∷ []

unfoldable pub pdf_objects : (stream : Text) → List Text
pdf_objects stream =
    units "<< /Type /Catalog /Pages 2 0 R >>"
    ∷ units "<< /Type /Pages /Kids [3 0 R] /Count 1 >>"
    ∷ units
        "<< /Type /Page /Parent 2 0 R /MediaBox [0 0 595 842] /Resources << /Font << /F1 4 0 R /F2 5 0 R >> >> /Contents 6 0 R >>"
    ∷ units "<< /Type /Font /Subtype /Type1 /BaseFont /Helvetica >>"
    ∷ units "<< /Type /Font /Subtype /Type1 /BaseFont /Helvetica-Bold >>"
    ∷ (units "<< /Length "
        ++ (decimal (byte_length stream)
            ++ (units " >>\nstream\n" ++ (stream ++ units "\nendstream"))))
    ∷ []

unfoldable pub numbered_object : ℕ → Text → Text
numbered_object index object =
    decimal (index + 1) ++ (units " 0 obj\n" ++ (object ++ units "\nendobj\n"))

-- The loop over the objects: what is written, and where each object begins.
unfoldable pub write_objects :
    (index : ℕ) → (pdf : Text) → (offsets : List ℕ) → List Text → Text × List ℕ
write_objects index pdf offsets [] = (pdf, offsets)
write_objects index pdf offsets (object ∷ rest) =
    write_objects (suc index) (pdf ++ numbered_object index object)
      (offsets ++ byte_length pdf ∷ []) rest

abbrev pdf_start : Text
pdf_start = units "%PDF-1.4\n"

unfoldable pub pdf_body : List Text → Text
pdf_body objects = (write_objects 0 pdf_start (0 ∷ []) objects).0

-- `offsets.slice(1)`.
unfoldable pub object_offsets : List Text → List ℕ
object_offsets objects = drop 1 (write_objects 0 pdf_start (0 ∷ []) objects).1

unfoldable pub xref_line : ℕ → Text
xref_line offset = pad_start 10 b'0' (decimal offset) ++ units " 00000 n \n"

unfoldable pub xref_table : List Text → Text
xref_table objects =
    units "xref\n0 "
    ++ (decimal (length objects + 1)
        ++ (units "\n0000000000 65535 f \n"
            ++ (flat_map xref_line (object_offsets objects)
                ++ (units "trailer\n<< /Size "
                    ++ (decimal (length objects + 1)
                        ++ (units " /Root 1 0 R >>\nstartxref\n"
                            ++ (decimal (byte_length (pdf_body objects)) ++ units "\n%%EOF\n")))))))

unfoldable pub pdf_file : List Text → Text
pdf_file objects = pdf_body objects ++ xref_table objects

-- The text whose bytes are the file. Without a name, a title or an experience, a throw.
unfoldable pub make_pdf : (lower_case : Text → Text) → List Text → Option Text
make_pdf lower_case (name ∷ title ∷ experience ∷ rest) =
    some (pdf_file (pdf_objects (join line_feed (text_ops lower_case name title experience rest))))
make_pdf lower_case _ = none
