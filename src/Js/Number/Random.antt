-- ===== src/Js/Number/Random.antt =====
-- `Math.floor(Math.random() * n)`. A call of `Math.random` gives a multiple of 2 ^ -53 below 1, which
-- stands here for its 53 bits, and the product is rounded.
use native.Mathlib.Nat.{
  mul_comm, pow-suc, div-one, div-lt_iff_lt-mul, div-add-mod', add-mul, mul-le-mul_right, one-mul,
}
use native.Mathlib.Decide.{dec_lt}
use cvranking.Prelude.{
  ℕ, zero, suc, ◌+◌, ◌*◌, ◌/◌, ◌%◌, ◌^◌, ◌≤◌, ◌<◌, ◌≡◌, inl, inr, refl, arith, Bool-cases, ltb,
  ltb→lt,
}
use cvranking.Js.Number.Rounding.{scale_pos, pow_pos}
use cvranking.Js.Number.{scale, last_place, half_even, round_units}

unfoldable pub random_below : (bits n : ℕ) → ℕ
random_below bits n = round_units (bits % 2 ^ 53 * 2 ^ 1021 * n) 1 / scale

-- Rounding m up to the even neighbour adds 0 or 1.
parity_step : (m den : ℕ) → (m + m % 2) * den ≤ m * den + den
parity_step m den =
    let le : m % 2 ≤ 1 = omega arith in
    rw (add-mul m (m % 2) den) (grind (arith, mul-le-mul_right den le))

half_even-near : (num den : ℕ) → 0 < den → 2 * (half_even num den * den) ≤ 2 * num + den
unfolding half_even
half_even-near num den p =
    let whole = div-add-mod' num den in
    let nudged = parity_step (num / den) den in
    elim (Bool-cases (ltb (2 * (num % den)) den)) [
      | inl e ↦ rw e (omega arith)
      | inr e ↦ elim (Bool-cases (ltb den (2 * (num % den)))) [
        | inl f ↦ rw (e, f) (grind (arith, ltb→lt den (2 * (num % den))))
        | inr f ↦ rw (e, f) (ground arith)
      ]
    ]

-- A double of at least 2 ^ 52 units has its last place within 52 binary places.
last_place-near : (fuel q : ℕ) → 2 ^ 52 ≤ q → 2 ^ last_place fuel q * 2 ^ 52 ≤ q
unfolding last_place
last_place-near zero q h = omega arith
last_place-near (suc fuel) q h =
    ground (arith, last_place-near fuel (q / 2), pow-suc 2 (last_place fuel (q / 2)))

last_place-low : (fuel q : ℕ) → q < 2 ^ 53 → last_place fuel q ≡ 0
unfolding last_place
last_place-low zero q h = refl
last_place-low (suc fuel) q h = ground arith

-- The last place of a positive multiple of 2 ^ 1021 units below n is less than 2 ^ 1022 * n.
place-small : (x n : ℕ) → 0 < n → x < n * scale → 2 ^ last_place 1074 x < n * 2 ^ 1022
unfolding scale
place-small x n p h = elim (dec_lt x (2 ^ 52)) [
  | yes low ↦ rw (last_place-low 1074 x (omega (arith, low))) (omega (arith, p))
  | no high ↦ omega (arith, h, last_place-near 1074 x (omega (arith, high)))
]

-- The product rounds to less than n.
round-lt : (k n : ℕ) → 0 < n → k + 2 ^ 1021 ≤ scale → round_units (k * n) 1 < n * scale
unfolding round_units scale
round-lt k n p h =
    let scaled = rw (add-mul k (2 ^ 1021) n, mul_comm scale n) at (mul-le-mul_right n h) in
    let small = place-small (k * n) n p (omega (arith, scaled, p)) in
    rw (div-one (k * n), one-mul (2 ^ last_place 1074 (k * n)))
      (omega (
        arith,
        small,
        scaled,
        half_even-near (k * n) (2 ^ last_place 1074 (k * n)) (pow_pos (last_place 1074 (k * n))),
      ))

bits_below : (bits : ℕ) → bits % 2 ^ 53 * 2 ^ 1021 + 2 ^ 1021 ≤ scale
unfolding scale
bits_below bits = omega arith

pub random_below-lt : (bits n : ℕ) → 0 < n → random_below bits n < n
unfolding random_below
random_below-lt bits n p =
    (div-lt_iff_lt-mul scale_pos).1 (round-lt (bits % 2 ^ 53 * 2 ^ 1021) n p (bits_below bits))
