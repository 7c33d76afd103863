-- ===== src/Seeding/Names.antt =====
-- The names of the candidate files.
use mathlib.Core.Path.{ap₂}
use cvranking.Prelude.{ℕ, ◌+◌, ◌≡◌, ◌≢◌, refl, sym, ap, ◌∙◌, [], ◌∷◌, ◌++◌, All, arith}
use cvranking.Js.Decimal.{
  decimal, decimal-All, digits_value-decimal, pad_start-All, digits_value-pad_start,
}
use cvranking.Js.Text.{Text, units, digits_value}
use cvranking.Seeding.Candidates.{serial, file_name}

abbrev IsFree : ℕ → Text → Type 0
IsFree c s = All (λ d. d ≢ c) s

-- What stands in front of the first separator.
first_parts_eq :
    (c : ℕ) (s t u v : Text) → IsFree c s → IsFree c t → s ++ c ∷ u ≡ t ++ c ∷ v → s ≡ t
first_parts_eq c [] [] u v h k e = refl
first_parts_eq c [] (d ∷ t) u v h (k, _) e = absurd (k (cc e))
first_parts_eq c (d ∷ s) [] u v (h, _) k e = absurd (h (cc e))
first_parts_eq c (d ∷ s) (b ∷ t) u v (_, h) (_, k) e =
    ap₂ ◌∷◌ (cc e) (first_parts_eq c s t u v h k (cc e))

serial-IsFree : (index : ℕ) → IsFree b'-' (serial index)
unfolding serial
serial-IsFree index =
    pad_start-All (λ d. d ≢ b'-') 3 b'0' (decimal (index + 1)) (omega arith)
      (decimal-All (λ d. d ≢ b'-') (λ n h. omega (arith, h)) (index + 1))

serial-injective : (i j : ℕ) → serial i ≡ serial j → i ≡ j
unfolding serial
serial-injective i j e =
    let same : i + 1 ≡ j + 1 =
      sym (digits_value-pad_start 3 (decimal (i + 1)) ∙ digits_value-decimal (i + 1))
      ∙ ap (digits_value 0) e
      ∙ digits_value-pad_start 3 (decimal (j + 1))
      ∙ digits_value-decimal (j + 1) in
    omega (arith, same)

pub file_name-injective :
    (lower_case : Text → Text) (i j : ℕ) (s t : Text)
    → file_name lower_case i s ≡ file_name lower_case j t
    → i ≡ j
unfolding file_name units
file_name-injective lower_case i j s t e =
    serial-injective i j
      (first_parts_eq b'-' (serial i) (serial j) _ _ (serial-IsFree i) (serial-IsFree j) e)
