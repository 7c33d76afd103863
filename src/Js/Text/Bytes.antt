-- ===== src/Js/Text/Bytes.antt =====
-- The bytes of a string in UTF-8: `Buffer.from(s, "utf-8")` and `Buffer.byteLength(s)`.
use mathlib.Core.List.{append_assoc}
use cvranking.Prelude.{
  ℕ, ◌+◌, ◌*◌, ◌-◌, ◌/◌, ◌%◌, ◌<◌, ◌≡◌, refl, Bool, Option, none, some, List, [], ◌∷◌, ◌++◌, length,
  ltb, leb, ◌&&◌, if◌then◌else◌, arith,
}
use cvranking.Js.Text.{Text}

abbrev pub is_high : ℕ → Bool
is_high c = leb 0xd800 c && leb c 0xdbff

abbrev pub is_low : ℕ → Bool
is_low c = leb 0xdc00 c && leb c 0xdfff

-- What stands for half of a pair without the other half.
abbrev pub replacement : List ℕ
replacement = 0xef ∷ 0xbf ∷ 0xbd ∷ []

-- A unit that is no half of a pair.
unfoldable pub unit_bytes : ℕ → List ℕ
unit_bytes c =
    if ltb c 0x80
    then c ∷ []
    else if ltb c 0x800
    then (0xc0 + c / 64) ∷ (0x80 + c % 64) ∷ []
    else if is_low c
    then replacement
    else (0xe0 + c / 4096) ∷ (0x80 + c / 64 % 64) ∷ (0x80 + c % 64) ∷ []

pair_value : (high low : ℕ) → ℕ
pair_value high low = 0x10000 + (high - 0xd800) * 1024 + (low - 0xdc00)

unfoldable pub pair_bytes : (high low : ℕ) → List ℕ
unfolding pair_value
pair_bytes high low =
    let v = pair_value high low in
    (0xf0 + v / 262144) ∷ (0x80 + v / 4096 % 64) ∷ (0x80 + v / 64 % 64) ∷ (0x80 + v % 64) ∷ []

-- The bytes that a unit completes, with the first half of a pair that waits for the second.
unfoldable pub next_bytes : Option ℕ → ℕ → List ℕ × Option ℕ
next_bytes none c = if is_high c then ([], some c) else (unit_bytes c, none)
next_bytes (some high) c =
    if is_low c
    then (pair_bytes high c, none)
    else if is_high c
    then (replacement, some c)
    else (replacement ++ unit_bytes c, none)

unfoldable pub bytes_after : Option ℕ → Text → List ℕ
bytes_after none [] = []
bytes_after (some high) [] = replacement
bytes_after pending (c ∷ s) = let (out, kept) = next_bytes pending c in out ++ bytes_after kept s

unfoldable pub utf8 : Text → List ℕ
utf8 s = bytes_after none s

unfoldable pub byte_length : Text → ℕ
byte_length s = length (utf8 s)

bytes_after-append :
    (pending : Option ℕ) (s t : Text) (c : ℕ)
    → c < 0x80
    → bytes_after pending (s ++ c ∷ t) ≡ bytes_after pending s ++ bytes_after none (c ∷ t)
unfolding bytes_after
bytes_after-append none [] t c h = refl
bytes_after-append (some high) [] t c h = unfold next_bytes in ground arith
bytes_after-append none (d ∷ s) t c h =
    let (out, kept) = next_bytes none d in rw (bytes_after-append kept s t c h, append_assoc) refl
bytes_after-append (some high) (d ∷ s) t c h =
    let (out, kept) = next_bytes (some high) d in
    rw (bytes_after-append kept s t c h, append_assoc) refl

-- Text that begins with an ASCII character can be encoded by itself.
pub utf8-append : (s t : Text) (c : ℕ) → c < 0x80 → utf8 (s ++ c ∷ t) ≡ utf8 s ++ utf8 (c ∷ t)
unfolding utf8
utf8-append s t c h = bytes_after-append none s t c h
