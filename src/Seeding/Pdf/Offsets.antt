-- ===== src/Seeding/Pdf/Offsets.antt =====
-- The cross-reference table of `makePDF` points at the objects.
use mathlib.Core.List.{append_assoc, append-nil}
use cvranking.Prelude.{
  ℕ, zero, suc, ◌+◌, ◌<◌, ◌≡◌, refl, sym, ap, ◌∙◌, some, List, [], ◌∷◌, ◌++◌, drop, length,
  get_elem?, length-append, length-drop, flat_map, arith,
}
use cvranking.Js.Decimal.{decimal, decimal_start, pad_start}
use cvranking.Js.Text.{Text, units}
use cvranking.Js.Text.Bytes.{utf8, byte_length, utf8-append}
use cvranking.Seeding.Pdf.{
  xref_line, numbered_object, write_objects, pdf_start, pdf_body, object_offsets, xref_table,
  pdf_file,
}

-- The text begins with a character of ASCII.
abbrev StartsAscii : Text → Type 0
StartsAscii s = (c : ℕ) × (t : Text) × (s ≡ c ∷ t) × (c < 0x80)

drop-append : {A : Type 0} (xs ys : List A) → drop (length xs) (xs ++ ys) ≡ ys
drop-append [] ys = refl
drop-append (x ∷ xs) ys = drop-append xs ys

-- The bytes behind the length of a text are those of what follows.
drop_bytes : (s t : Text) → StartsAscii t → drop (byte_length s) (utf8 (s ++ t)) ≡ utf8 t
unfolding byte_length
drop_bytes s t (c, u, e, h) =
    rw e (ap (drop (length (utf8 s))) (utf8-append s u c h) ∙ drop-append (utf8 s) (utf8 (c ∷ u)))

numbered_object-StartsAscii :
    (k : ℕ) (object tail : Text) → StartsAscii (numbered_object k object ++ tail)
unfolding numbered_object
numbered_object-StartsAscii k object tail =
    let (c, t, e, h) = decimal_start (k + 1) in
    (c, (t ++ (units " 0 obj\n" ++ (object ++ units "\nendobj\n"))) ++ tail, rw e refl, h)

xref_table-StartsAscii : (objects : List Text) → StartsAscii (xref_table objects)
unfolding xref_table units
xref_table-StartsAscii objects = (b'x', _, refl, omega arith)

get_elem?-append :
    {A : Type 0} (xs : List A) (y : A) (ys : List A) → get_elem? (xs ++ y ∷ ys) (length xs) ≡ some y
get_elem?-append [] y ys = refl
get_elem?-append (x ∷ xs) y ys = get_elem?-append xs y ys

-- What the loop has written stays in front.
record Extends (pdf : Text) (offsets : List ℕ) (result : Text × List ℕ) : Type 0 where
  pub tail : Text
  pub more : List ℕ
  pub text : result.0 ≡ pdf ++ tail
  pub table : result.1 ≡ offsets ++ more

write_objects-Extends :
    (index : ℕ) (pdf : Text) (offsets : List ℕ) (objects : List Text)
    → Extends pdf offsets (write_objects index pdf offsets objects)
unfolding write_objects
write_objects-Extends index pdf offsets [] = record {
  tail = [];
  more = [];
  text = sym (append-nil pdf);
  table = sym (append-nil offsets);
}
write_objects-Extends index pdf offsets (object ∷ rest) =
    let next =
      write_objects-Extends (suc index) (pdf ++ numbered_object index object)
        (offsets ++ byte_length pdf ∷ []) rest in
    record {
      tail = numbered_object index object ++ next.tail;
      more = byte_length pdf ∷ next.more;
      text = next.text ∙ append_assoc pdf (numbered_object index object) next.tail;
      table = next.table ∙ append_assoc offsets (byte_length pdf ∷ []) next.more;
    }

-- An object is written where its offset says.
record Placed (k : ℕ) (object : Text) (slot : ℕ) (result : Text × List ℕ) : Type 0 where
  pub before : Text
  pub tail : Text
  pub text : result.0 ≡ before ++ (numbered_object k object ++ tail)
  pub offset : get_elem? result.1 slot ≡ some (byte_length before)

write_objects-Placed :
    (index : ℕ) (pdf : Text) (offsets : List ℕ) (objects : List Text) (k : ℕ) (object : Text)
    → get_elem? objects k ≡ some object
    → Placed (index + k) object (length offsets + k) (write_objects index pdf offsets objects)
unfolding write_objects
write_objects-Placed index pdf offsets [] k object e = cc e
write_objects-Placed index pdf offsets (o ∷ rest) zero object e =
    let next =
      write_objects-Extends (suc index) (pdf ++ numbered_object index o)
        (offsets ++ byte_length pdf ∷ []) rest in
    let from : index + 0 ≡ index = omega arith in
    let slot : length offsets + 0 ≡ length offsets = omega arith in
    let same : o ≡ object = cc e in
    rw (from, slot)
      (record {
        before = pdf;
        tail = next.tail;
        text =
            next.text
            ∙ append_assoc pdf (numbered_object index o) next.tail
            ∙ ap (λ t. pdf ++ (numbered_object index t ++ next.tail)) same;
        offset =
            ap (λ t. get_elem? t (length offsets))
              (next.table ∙ append_assoc offsets (byte_length pdf ∷ []) next.more)
            ∙ get_elem?-append offsets (byte_length pdf) next.more;
      })
write_objects-Placed index pdf offsets (o ∷ rest) (suc k) object e =
    let later =
      write_objects-Placed (suc index) (pdf ++ numbered_object index o)
        (offsets ++ byte_length pdf ∷ []) rest k object e in
    let from : index + suc k ≡ suc index + k = omega arith in
    let slot : length offsets + suc k ≡ length (offsets ++ byte_length pdf ∷ []) + k =
      omega (arith, length-append offsets (byte_length pdf ∷ [])) in
    rw (from, slot) later

length-write_objects :
    (index : ℕ) (pdf : Text) (offsets : List ℕ) (objects : List Text)
    → length (write_objects index pdf offsets objects).1 ≡ length offsets + length objects
unfolding write_objects
length-write_objects index pdf offsets [] = omega arith
length-write_objects index pdf offsets (object ∷ rest) =
    let next =
      length-write_objects (suc index) (pdf ++ numbered_object index object)
        (offsets ++ byte_length pdf ∷ []) rest in
    omega (arith, next, length-append offsets (byte_length pdf ∷ []))

-- The line of an offset: ten digits at least.
abbrev pub offset_line : ℕ → Text
offset_line offset = pad_start 10 b'0' (decimal offset) ++ units " 00000 n \n"

-- A cross-reference table for objects, at a place in the file.
abbrev pub table_text : (count : ℕ) → (offsets : List ℕ) → (place : ℕ) → Text
table_text count offsets place =
    units "xref\n0 "
    ++ (decimal (count + 1)
        ++ (units "\n0000000000 65535 f \n"
            ++ (flat_map offset_line offsets
                ++ (units "trailer\n<< /Size "
                    ++ (decimal (count + 1)
                        ++ (units " /Root 1 0 R >>\nstartxref\n"
                            ++ (decimal place ++ units "\n%%EOF\n")))))))

-- The file ends with a table that has an offset for each object and its own place, and the object has its
-- offset in the table where it stands among the objects.
pub record IsIndexed (objects : List Text) (k : ℕ) (object file : Text) : Type 0 where
  pub offsets : List ℕ
  pub place : ℕ
  pub count : length offsets ≡ length objects
  pub table : drop place (utf8 file) ≡ utf8 (table_text (length objects) offsets place)
  pub offset : ℕ
  pub listed : get_elem? offsets k ≡ some offset
  pub tail : Text
  pub object_there :
      drop offset (utf8 file)
      ≡ utf8 (decimal (k + 1) ++ (units " 0 obj\n" ++ (object ++ units "\nendobj\n")) ++ tail)

-- The file of some objects ends with a cross-reference table, which stands at the byte that its last
-- number says and has one offset for each object; and for each object, the bytes from its offset on are
-- the object under its number.
pub pdf_file-offsets :
    (objects : List Text) (k : ℕ) (object : Text)
    → get_elem? objects k ≡ some object
    → IsIndexed objects k object (pdf_file objects)
unfolding pdf_file object_offsets pdf_body xref_table xref_line numbered_object
pdf_file-offsets objects k object e =
    let written = write_objects 0 pdf_start (0 ∷ []) objects in
    let placed = write_objects-Placed 0 pdf_start (0 ∷ []) objects k object e in
    let whole = write_objects-Extends 0 pdf_start (0 ∷ []) objects in
    let table = xref_table objects in
    let file : written.0 ++ table
        ≡ placed.before ++ (numbered_object (0 + k) object ++ (placed.tail ++ table)) =
      ap (λ t. t ++ table) placed.text
      ∙ append_assoc placed.before (numbered_object (0 + k) object ++ placed.tail) table
      ∙ ap (λ t. placed.before ++ t)
          (append_assoc (numbered_object (0 + k) object) placed.tail table) in
    let number : 0 + k ≡ k = omega arith in
    let slot : 1 + k ≡ suc k = omega arith in
    record {
      offsets = object_offsets objects;
      place = byte_length (pdf_body objects);
      count =
          omega (arith, length-write_objects 0 pdf_start (0 ∷ []) objects, length-drop 1 written.1);
      table = drop_bytes written.0 table (xref_table-StartsAscii objects);
      offset = byte_length placed.before;
      listed = rw (whole.table) (rw (whole.table, slot) at placed.offset);
      tail = placed.tail ++ table;
      object_there =
          ap (λ t. drop (byte_length placed.before) (utf8 t)) file
          ∙ drop_bytes placed.before _
              (numbered_object-StartsAscii (0 + k) object (placed.tail ++ table))
          ∙ ap (λ n. utf8 (numbered_object n object ++ (placed.tail ++ table))) number;
    }
