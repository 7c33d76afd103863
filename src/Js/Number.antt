-- ===== src/Js/Number.antt =====
-- Numbers as the language has them: binary64. Every finite double is a whole multiple of
-- 2 ^ -1074, so a finite value is kept exactly, as that multiple. The two zeros are one value.
pub mod Random
pub mod Rounding
use cvranking.Prelude.{
  ℕ, zero, suc, ◌+◌, ◌*◌, ◌/◌, ◌%◌, ◌^◌, ◌≤◌, Bool, true, false, ltb, ◌==◌, if◌then◌else◌,
}

pub data Number : Type 0 where
  -- `pos k` is k * 2 ^ -1074 and `neg k` is -(k + 1) * 2 ^ -1074.
  pos neg : ℕ → Number
  infinity minus_infinity nan : Number

-- The multiple that stands for 1.
unfoldable pub scale : ℕ
scale = 2 ^ 1074

-- A whole number below 2 ^ 53.
unfoldable pub from_ℕ : ℕ → Number
from_ℕ n = pos (n * scale)

-- Between 0 and 1, so neither NaN nor infinite.
abbrev pub InUnit : Number → Type 0
InUnit (pos k) = k ≤ scale
InUnit _ = ⊥

-- The exponent of the last place that a double near q units keeps: 53 bits are significant. The
-- fuel 1074 covers every value below 2 ^ 53.
unfoldable pub last_place : ℕ → ℕ → ℕ
last_place zero q = 0
last_place (suc fuel) q =
    let rest = last_place fuel (q / 2) in if ltb q 0x20000000000000 then 0 else suc rest

-- num / den to the nearest whole number, ties to the even one.
unfoldable pub half_even : ℕ → ℕ → ℕ
half_even num den =
    let m = num / den in
    let r = num % den in if ltb (2 * r) den then m else if ltb den (2 * r) then suc m else m + m % 2

-- The double nearest to num / den units.
unfoldable pub round_units : ℕ → ℕ → ℕ
round_units num den =
    let place = 2 ^ last_place 1074 (num / den) in half_even num (den * place) * place

-- num / den to the nearest whole number, ties upwards: `toFixed` and `Math.round`.
unfoldable pub half_up : ℕ → ℕ → ℕ
half_up num den = (2 * num + den) / (2 * den)

-- The magnitude of `Number(x.toFixed(digits))` for a magnitude of k units.
unfoldable pub fixed_units : ℕ → ℕ → ℕ
fixed_units digits k = round_units (half_up (k * 10 ^ digits) scale * scale) (10 ^ digits)

abbrev pub negate : ℕ → Number
negate zero = pos 0
negate (suc k) = neg k

-- `Number(x.toFixed(digits))`.
unfoldable pub to_fixed : ℕ → Number → Number
to_fixed digits (pos k) = pos (fixed_units digits k)
to_fixed digits (neg k) = negate (fixed_units digits (suc k))
to_fixed digits infinity = infinity
to_fixed digits minus_infinity = minus_infinity
to_fixed digits nan = nan

-- `a < b`.
unfoldable pub less : Number → Number → Bool
less (pos a) (pos b) = ltb a b
less (neg a) (neg b) = ltb b a
less (neg a) (pos b) = true
less (pos a) (neg b) = false
less minus_infinity (pos b) = true
less minus_infinity (neg b) = true
less minus_infinity infinity = true
less (pos a) infinity = true
less (neg a) infinity = true
less _ _ = false

-- `Number.isFinite`.
unfoldable pub is_finite : Number → Bool
is_finite (pos k) = true
is_finite (neg k) = true
is_finite _ = false

-- `Math.min`.
unfoldable pub math_min : Number → Number → Number
unfolding less
math_min nan b = nan
math_min a nan = nan
math_min a b = if less b a then b else a

-- `Math.max`.
unfoldable pub math_max : Number → Number → Number
unfolding less
math_max nan b = nan
math_max a nan = nan
math_max a b = if less a b then b else a

-- What `a - b || …` and a comparator see of a difference: its sign, where a zero and NaN (which
-- two equal infinities give) are alike.
pub data Sign : Type 0 where
  negative nought positive : Sign

unfoldable pub minus : Number → Number → Sign
unfolding less
minus a b = if less a b then negative else if less b a then positive else nought

-- `a - b` on whole numbers.
unfoldable pub minus_ℕ : ℕ → ℕ → Sign
minus_ℕ a b = if ltb a b then negative else if ltb b a then positive else nought

-- `s || t` on differences.
unfoldable pub or_sign : Sign → Sign → Sign
or_sign nought t = t
or_sign negative t = negative
or_sign positive t = positive
