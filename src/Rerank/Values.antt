-- ===== src/Rerank/Values.antt =====
-- `clampScore`, `normalizeEligibility` and `normalizeRequirementStatus` of
-- frontend/app/api/ranking-test/route.ts: what is kept of an AI provider's untyped values.
use cvranking.Prelude.{
  ◌≡◌, Bool-cases, ◌≢◌, inl, inr, Bool, true, false, ◌||◌, List, [], ◌∷◌, arith, if◌then◌else◌, Has,
}
use cvranking.Js.Text.{Text, units, text_eq, text_eq_iff}
use cvranking.Js.Number.{Number, pos, nan, scale, is_finite, math_min, math_max, InUnit}
use cvranking.Js.Number.Rounding.{clamp-InUnit, clamp_of_InUnit}
use cvranking.Rerank.Types.{Value, missing, number, text, other}

-- `typeof value === "number" && Number.isFinite(value) ? value : fallback`.
finite_or : Value → Number → Number
finite_or (number n _) fallback = if is_finite n then n else fallback
finite_or _ fallback = fallback

unfoldable pub clamp_score : Value → Number → Number
unfolding finite_or
clamp_score value fallback = math_max (pos 0) (math_min (pos scale) (finite_or value fallback))

-- `String(value ?? fallback)`.
unfoldable pub string_or : Value → Text → Text
string_or missing fallback = fallback
string_or (number _ printed) fallback = printed
string_or (text s) fallback = s
string_or (other printed) fallback = printed

-- `includes` of an array of strings.
unfoldable pub one_of : Text → List Text → Bool
one_of s [] = false
one_of s (t ∷ ts) = text_eq s t || one_of s ts

abbrev pub eligibilities : List Text
eligibilities =
    units "eligible"
    ∷ units "potentially_eligible"
    ∷ units "constraint_unknown"
    ∷ units "constraint_failed"
    ∷ []

abbrev pub requirement_statuses : List Text
requirement_statuses =
    units "met" ∷ units "partially_met" ∷ units "not_found" ∷ units "not_met" ∷ units "unknown" ∷ []

unfoldable pub normalize_eligibility : Value → Text → Text
normalize_eligibility value fallback =
    let s = string_or value fallback in if one_of s eligibilities then s else fallback

unfoldable pub normalize_requirement_status : Value → Text → Text
normalize_requirement_status value fallback =
    let s = string_or value fallback in if one_of s requirement_statuses then s else fallback

one_of-Has : (s : Text) (ts : List Text) → one_of s ts ≡ true → Has s ts
unfolding one_of
one_of-Has s [] h = cc
one_of-Has s (t ∷ ts) h = grind (arith, text_eq_iff s t, one_of-Has s ts)

finite_or-ne-nan :
    (value : Value) (fallback : Number) → fallback ≢ nan → finite_or value fallback ≢ nan
unfolding finite_or is_finite
finite_or-ne-nan value fallback h = ground arith

-- Whatever the value is, the score kept lies between 0 and 1, unless the fallback is NaN.
pub clamp_score-InUnit :
    (value : Value) (fallback : Number) → fallback ≢ nan → InUnit (clamp_score value fallback)
unfolding clamp_score
clamp_score-InUnit value fallback h =
    clamp-InUnit (finite_or value fallback) (finite_or-ne-nan value fallback h)

-- Where no value was given, a score between 0 and 1 is kept as it is.
pub clamp_score-missing :
    (fallback : Number) → InUnit fallback → clamp_score missing fallback ≡ fallback
unfolding clamp_score finite_or
clamp_score-missing fallback h = clamp_of_InUnit fallback h

allowed_or :
    (s fallback : Text) (ts : List Text)
    → Has fallback ts
    → Has (if one_of s ts then s else fallback) ts
allowed_or s fallback ts h = elim (Bool-cases (one_of s ts)) [
  | inl e ↦ rw e (one_of-Has s ts e)
  | inr e ↦ rw e h
]

pub normalize_eligibility-Has :
    (value : Value) (fallback : Text)
    → Has fallback eligibilities
    → Has (normalize_eligibility value fallback) eligibilities
unfolding normalize_eligibility
normalize_eligibility-Has value fallback h =
    allowed_or (string_or value fallback) fallback eligibilities h

pub normalize_requirement_status-Has :
    (value : Value) (fallback : Text)
    → Has fallback requirement_statuses
    → Has (normalize_requirement_status value fallback) requirement_statuses
unfolding normalize_requirement_status
normalize_requirement_status-Has value fallback h =
    allowed_or (string_or value fallback) fallback requirement_statuses h

pub normalize_eligibility-missing :
    (fallback : Text) → normalize_eligibility missing fallback ≡ fallback
unfolding normalize_eligibility string_or
normalize_eligibility-missing fallback = ground arith
