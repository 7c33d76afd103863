-- ===== src/Js/Decimal.antt =====
-- How a whole number is written in a template string.
use cvranking.Prelude.{
  ℕ, zero, suc, ◌+◌, ◌*◌, ◌-◌, ◌/◌, ◌%◌, ◌<◌, ◌≡◌, refl, sym, ap, ◌∙◌, [], ◌∷◌, ◌++◌, arith, ltb,
  length, All, All-append, if-both, length, if◌then◌else◌, Bool-cases, inl, inr,
}
use cvranking.Js.Text.{Text, digits_value}

-- The digits of n, on fuel above n.
digits : ℕ → ℕ → Text
digits zero n = []
digits (suc fuel) n =
    let last = (n % 10 + b'0') ∷ [] in
    let front = digits fuel (n / 10) in if ltb n 10 then last else front ++ last

unfoldable pub decimal : ℕ → Text
unfolding digits
decimal n = digits (suc n) n

digits_value-append :
    (n c : ℕ) (s : Text) → digits_value n (s ++ c ∷ []) ≡ digits_value n s * 10 + (c - b'0')
unfolding digits_value
digits_value-append n c [] = refl
digits_value-append n c (d ∷ s) = digits_value-append (n * 10 + (d - b'0')) c s

digits_value-digits : (fuel n : ℕ) → n < fuel → digits_value 0 (digits fuel n) ≡ n
unfolding digits
digits_value-digits zero n h = absurd (omega arith)
digits_value-digits (suc fuel) n h = elim (Bool-cases (ltb n 10)) [
  | inl e ↦ rw e (unfold digits_value in ground arith)
  | inr e ↦ rw e (
      digits_value-append 0 (n % 10 + b'0') (digits fuel (n / 10))
      ∙ ground (arith, digits_value-digits fuel (n / 10)))
]

-- Reading the digits of a number back gives the number.
pub digits_value-decimal : (n : ℕ) → digits_value 0 (decimal n) ≡ n
unfolding decimal
digits_value-decimal n = digits_value-digits (suc n) n (omega arith)

pub decimal-injective : (m n : ℕ) → decimal m ≡ decimal n → m ≡ n
decimal-injective m n e =
    sym (digits_value-decimal m) ∙ ap (digits_value 0) e ∙ digits_value-decimal n

abbrev zeros_of : ℕ → ℕ → Text
zeros_of zero c = []
zeros_of (suc n) c = c ∷ zeros_of n c

-- `padStart(width, c)` for a character c.
unfoldable pub pad_start : (width c : ℕ) → Text → Text
pad_start width c s = zeros_of (width - length s) c ++ s

digits_value-zeros : (n : ℕ) (s : Text) → digits_value 0 (zeros_of n b'0' ++ s) ≡ digits_value 0 s
unfolding digits_value
digits_value-zeros zero s = refl
digits_value-zeros (suc n) s = digits_value-zeros n s

-- Zeros in front do not change the value.
pub digits_value-pad_start :
    (width : ℕ) (s : Text) → digits_value 0 (pad_start width b'0' s) ≡ digits_value 0 s
unfolding pad_start
digits_value-pad_start width s = digits_value-zeros (width - length s) s

module _ (P : ℕ → Type 0) where
  digits-All : ((d : ℕ) → d < 10 → P (d + b'0')) → (fuel n : ℕ) → All P (digits fuel n)
  unfolding digits
  digits-All h zero n = tt
  digits-All h (suc fuel) n =
      let last : P (n % 10 + b'0') = h (n % 10) (omega arith) in
      if-both (All P) (ltb n 10) _ _ (last, tt)
        (All-append P (digits fuel (n / 10)) _ (digits-All h fuel (n / 10)) (last, tt))

  -- What the ten digits have, the units of a number have.
  pub decimal-All : ((d : ℕ) → d < 10 → P (d + b'0')) → (n : ℕ) → All P (decimal n)
  unfolding decimal
  decimal-All h n = digits-All h (suc n) n

  zeros-All : (n c : ℕ) → P c → All P (zeros_of n c)
  zeros-All zero c p = tt
  zeros-All (suc n) c p = (p, zeros-All n c p)

  pub pad_start-All : (width c : ℕ) (s : Text) → P c → All P s → All P (pad_start width c s)
  unfolding pad_start
  pad_start-All width c s p h =
      All-append P (zeros_of (width - length s) c) s (zeros-All (width - length s) c p) h

digits_start : (fuel n : ℕ) → (c : ℕ) × (t : Text) × (digits (suc fuel) n ≡ c ∷ t) × (c < 0x80)
unfolding digits
digits_start zero n = elim (Bool-cases (ltb n 10)) [
  | inl e ↦ rw e (_, _, refl, omega arith)
  | inr e ↦ rw e (_, _, refl, omega arith)
]
digits_start (suc fuel) n = elim (Bool-cases (ltb n 10)) [
  | inl e ↦ rw e (_, _, refl, omega arith)
  | inr e ↦ let (c, t, f, h) = digits_start fuel (n / 10) in rw (e, f) (c, _, refl, h)
]

-- A number begins with a digit.
pub decimal_start : (n : ℕ) → (c : ℕ) × (t : Text) × (decimal n ≡ c ∷ t) × (c < 0x80)
unfolding decimal
decimal_start n = digits_start n n
