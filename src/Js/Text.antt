-- ===== src/Js/Text.antt =====
-- Strings as the language has them: sequences of UTF-16 code units, with the methods that the
-- source calls.
pub mod Laws
pub mod Words
pub mod Bytes
use Prim.Native.Char.{code}
use Prim.Native.String.{String}
use mathlib.Core.Option
use cvranking.Prelude.{
  ℕ, suc, take, drop, ◌+◌, ◌*◌, ◌-◌, Option, none, some, ◌≡◌, refl, ◌↔◌, Bool, true, false, ◌&&◌,
  ◌||◌, List, [], ◌∷◌, ◌++◌, arith, leb, ◌==◌, if◌then◌else◌, length,
}

abbrev pub Text : Type 0
Text = List ℕ

-- The code units of a literal; every literal of the source is in the basic plane.
unfoldable pub units : String → Text
units String.[] = []
units (String.◌∷◌ c s) = code c ∷ units s

-- `===` on strings.
unfoldable pub text_eq : Text → Text → Bool
text_eq [] [] = true
text_eq (c ∷ s) (d ∷ t) = c == d && text_eq s t
text_eq _ _ = false

pub text_eq_refl : (s : Text) → text_eq s s ≡ true
unfolding text_eq
text_eq_refl [] = refl
text_eq_refl (c ∷ s) = ground (arith, text_eq_refl s)

text_eq→eq : (s t : Text) → text_eq s t ≡ true → s ≡ t
unfolding text_eq
text_eq→eq [] [] h = refl
text_eq→eq (c ∷ s) (d ∷ t) h = ground (arith, text_eq→eq s t)
text_eq→eq [] (d ∷ t) h = ground arith
text_eq→eq (c ∷ s) [] h = ground arith

eq→text_eq : (s t : Text) → s ≡ t → text_eq s t ≡ true
eq→text_eq s t e = mathlib.Core.Path.subst (λ u. text_eq s u ≡ true) e (text_eq_refl s)

pub text_eq_iff : (s t : Text) → (text_eq s t ≡ true) ↔ (s ≡ t)
text_eq_iff s t = (text_eq→eq s t, eq→text_eq s t)

-- `Boolean(s)`: a string is falsy only when it is empty.
abbrev pub truthy : Text → Bool
truthy [] = false
truthy (_ ∷ _) = true

-- `s || fallback`.
abbrev pub or_else : Text → Text → Text
or_else [] t = t
or_else (c ∷ s) t = c ∷ s

-- The white space and line terminators that `trim` removes.
unfoldable pub is_space : ℕ → Bool
is_space c =
    (leb 9 c && leb c 13)
    || c == 32
    || c == 0xa0
    || c == 0x1680
    || (leb 0x2000 c && leb c 0x200a)
    || c == 0x2028
    || c == 0x2029
    || c == 0x202f
    || c == 0x205f
    || c == 0x3000
    || c == 0xfeff

unfoldable pub trim_start : Text → Text
trim_start [] = []
trim_start (c ∷ s) = let rest = trim_start s in if is_space c then rest else c ∷ s

-- `trimEnd`, by dropping a space whose rest is already empty.
unfoldable pub trim_end : Text → Text
trim_end [] = []
trim_end (c ∷ s) =
    let rest = trim_end s in if is_space c && (length rest == 0) then [] else c ∷ rest

unfoldable pub trim : Text → Text
trim s = trim_end (trim_start s)

-- A code unit in front of parts: a separator opens a new part.
unfoldable pub split_step : ℕ → ℕ → List Text → List Text
split_step sep c [] = [] ∷ []
split_step sep c (part ∷ parts) = if c == sep then [] ∷ part ∷ parts else (c ∷ part) ∷ parts

-- `split(sep)` for a separator of one code unit.
unfoldable pub split : ℕ → Text → List Text
split sep [] = [] ∷ []
split sep (c ∷ s) = split_step sep c (split sep s)

-- `join(sep)`.
unfoldable pub join : Text → List Text → Text
join sep [] = []
join sep (s ∷ []) = s
join sep (s ∷ t ∷ rest) = s ++ (sep ++ join sep (t ∷ rest))

-- `startsWith(p)`.
unfoldable pub starts_with : Text → Text → Bool
starts_with [] s = true
starts_with (c ∷ p) [] = false
starts_with (c ∷ p) (d ∷ s) = c == d && starts_with p s

-- `includes(p)`.
unfoldable pub includes : Text → Text → Bool
includes p [] = starts_with p []
includes p (d ∷ s) = starts_with p (d ∷ s) || includes p s

-- A decimal digit.
unfoldable pub is_digit : ℕ → Bool
is_digit c = leb b'0' c && leb c b'9'

-- What follows a prefix.
unfoldable pub strip_prefix : Text → Text → Option Text
strip_prefix [] s = some s
strip_prefix (c ∷ p) [] = none
strip_prefix (c ∷ p) (d ∷ s) = let rest = strip_prefix p s in if c == d then rest else none

unfoldable pub all_digits : Text → Bool
all_digits [] = true
all_digits (c ∷ s) = is_digit c && all_digits s

-- The number that decimal digits stand for, after a value read so far.
unfoldable pub digits_value : ℕ → Text → ℕ
digits_value n [] = n
digits_value n (c ∷ s) = digits_value (n * 10 + (c - b'0')) s

-- `toLowerCase` on the ASCII letters, which is what a pattern with the flag `i` compares by.
unfoldable pub lower : ℕ → ℕ
lower c = if leb b'A' c && leb c b'Z' then c + 32 else c

-- A prefix in lower case, removed whatever the case of the text.
unfoldable pub strip_prefix_ci : Text → Text → Option Text
strip_prefix_ci [] s = some s
strip_prefix_ci (c ∷ p) [] = none
strip_prefix_ci (c ∷ p) (d ∷ s) =
    let rest = strip_prefix_ci p s in if c == lower d then rest else none

-- `indexOf` and `lastIndexOf` of one code unit.
unfoldable pub index_of : ℕ → Text → Option ℕ
index_of c [] = none
index_of c (d ∷ s) = let rest = Option.map suc (index_of c s) in if c == d then some 0 else rest

unfoldable pub last_index_of : ℕ → Text → Option ℕ
last_index_of c [] = none
last_index_of c (d ∷ s) = elim (last_index_of c s) [
  | some i ↦ some (suc i)
  | none ↦ if c == d then some 0 else none
]

-- `slice(from, to)` for `from` and `to` within the text.
unfoldable pub slice : ℕ → ℕ → Text → Text
slice from to s = drop from (take to s)

-- A carriage return at the end, dropped.
unfoldable pub drop_cr : Text → Text
drop_cr [] = []
drop_cr (c ∷ []) = if c == 13 then [] else c ∷ []
drop_cr (c ∷ d ∷ s) = c ∷ drop_cr (d ∷ s)

unfoldable pub drop_crs : List Text → List Text
drop_crs [] = []
drop_crs (last ∷ []) = last ∷ []
drop_crs (part ∷ next ∷ parts) = drop_cr part ∷ drop_crs (next ∷ parts)

-- `split(/\r?\n/)`.
unfoldable pub split_lines : Text → List Text
unfolding drop_crs
split_lines s = drop_crs (split 10 s)
