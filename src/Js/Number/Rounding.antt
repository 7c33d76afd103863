-- ===== src/Js/Number/Rounding.antt =====
-- Rounding keeps the interval from 0 to 1.
use native.Mathlib.Nat.{mul_assoc, pow-suc, div-add-mod', mul_comm, mul-le-mul_right}
use native.Mathlib.Nat.{
  add-zero, pow-zero, add-suc, one-le-pow, div-le_of_le-mul, div-lt_iff_lt-mul,
}
use cvranking.Prelude.{ℕ, zero, suc, ◌+◌, ◌-◌, ◌*◌, ◌/◌, ◌%◌, ◌^◌, ◌≤◌, ◌<◌, ◌≡◌, ◌≢◌, arith}
use cvranking.Js.Number.{
  Number, pos, neg, nan, scale, last_place, half_even, round_units, half_up, InUnit, less, math_max,
  math_min, fixed_units, to_fixed,
}

pow-add : (a s : ℕ) → 2 ^ (a + s) ≡ 2 ^ a * 2 ^ s
pow-add a zero = rw (add-zero, pow-zero) (omega arith)
pow-add a (suc s) =
    rw (add-suc, pow-suc) (rw (pow-add a s) (rw (pow-suc 2 s) (mul_assoc (2 ^ a) (2 ^ s) 2)))

pow_split : (n s : ℕ) → s ≤ n → 2 ^ n ≡ 2 ^ (n - s) * 2 ^ s
pow_split n s h = let e : n ≡ n - s + s = omega arith in rw (← pow-add (n - s) s) (rw (← e))

pub pow_pos : (n : ℕ) → 0 < 2 ^ n
pow_pos n = one-le-pow n 2 (omega arith)

last_place-le : (n fuel q : ℕ) → q < 2 ^ suc n → last_place fuel q ≤ n
unfolding last_place
last_place-le n zero q h = omega arith
last_place-le zero (suc fuel) q h = ground arith
last_place-le (suc n) (suc fuel) q h =
    ground (arith, pow-suc 2 (suc n), last_place-le n fuel (q / 2))

-- A quotient that reaches the bound leaves no remainder.
full_quotient : (num den c : ℕ) → num ≤ c * den → num / den ≡ c → num % den ≡ 0
full_quotient num den c h e =
    let whole : c * den + num % den ≡ num = rw e at (div-add-mod' num den) in omega arith

half_even-le : (num den c : ℕ) → 0 < den → num ≤ c * den → half_even num den ≤ c
unfolding half_even
half_even-le num den c p h =
    let le : num ≤ den * c = rw (mul_comm den c) h in
    ground (arith, div-le_of_le-mul den le, full_quotient num den c h)

-- Rounding to the last place passes no whole number of units that the place divides.
round_place-le :
    (num den place c : ℕ)
    → 0 < den
    → 0 < place
    → num ≤ c * place * den
    → half_even num (den * place) * place ≤ c * place
round_place-le num den place c p q h = mul-le-mul_right place (
    half_even-le num (den * place) c (grind arith)
      (rw (mul_comm den place) (rw (← mul_assoc c place den) h)))

scale_split : (s : ℕ) → s ≤ 1074 → scale ≡ 2 ^ (1074 - s) * 2 ^ s
unfolding scale
scale_split s h = pow_split 1074 s h

pub scale_pos : 0 < scale
unfolding scale
scale_pos = omega arith

scale-lt : (q : ℕ) → q ≤ scale → q < 2 ^ 1075
unfolding scale
scale-lt q h = omega arith

-- A quotient of at most 1 rounds to at most 1.
round_units-le : (num den : ℕ) → 0 < den → num ≤ scale * den → round_units num den ≤ scale
unfolding round_units
round_units-le num den p h =
    let q : num / den ≤ scale = div-le_of_le-mul den (rw (mul_comm den scale) h) in
    let s = last_place 1074 (num / den) in
    let fits : s ≤ 1074 = last_place-le 1074 1074 (num / den) (scale-lt (num / den) q) in
    let e = scale_split s fits in
    rw e (round_place-le num den (2 ^ s) (2 ^ (1074 - s)) p (pow_pos s) (rw e at h))

half_up-le : (num den c : ℕ) → 0 < den → num ≤ c * den → half_up num den ≤ c
unfolding half_up
half_up-le num den c p h =
    let over : 2 * num + den < suc c * (2 * den) = grind arith in
    let below : (2 * num + den) / (2 * den) < suc c = (div-lt_iff_lt-mul (grind arith)).1 over in
    omega arith

pub fixed_units-le : (digits k : ℕ) → k ≤ scale → fixed_units digits k ≤ scale
unfolding fixed_units
fixed_units-le digits k h =
    let pos_power : 0 < 10 ^ digits = one-le-pow digits 10 (omega arith) in
    let below : k * 10 ^ digits ≤ 10 ^ digits * scale =
      rw (mul_comm (10 ^ digits) scale) (mul-le-mul_right (10 ^ digits) h) in
    let n = half_up-le (k * 10 ^ digits) scale (10 ^ digits) scale_pos below in
    round_units-le _ (10 ^ digits) pos_power
      (rw (mul_comm scale (10 ^ digits)) (mul-le-mul_right scale n))

pub to_fixed-InUnit : (digits : ℕ) (x : Number) → InUnit x → InUnit (to_fixed digits x)
unfolding to_fixed
to_fixed-InUnit digits (pos k) h = fixed_units-le digits k h
to_fixed-InUnit digits (neg k) h = elim h [ ]
to_fixed-InUnit digits _ h = elim h [ ]

-- `Math.max(0, Math.min(1, x))`.
pub clamp-InUnit : (x : Number) → x ≢ nan → InUnit (math_max (pos 0) (math_min (pos scale) x))
unfolding math_max math_min less
clamp-InUnit x h = ground (arith, scale_pos)

pub clamp_of_InUnit : (x : Number) → InUnit x → math_max (pos 0) (math_min (pos scale) x) ≡ x
unfolding math_max math_min less
clamp_of_InUnit (pos k) h = ground arith
clamp_of_InUnit (neg k) h = elim h [ ]
clamp_of_InUnit _ h = elim h [ ]
