-- ===== src/Interviewer/Report/Points.antt =====
-- Which strengths and weaknesses are shown.
use cvranking.Prelude.{
  ℕ, zero, suc, ◌≤◌, ◌⊎◌, refl, inl, inr, Option, none, List, [], ◌∷◌, ◌++◌, take, length,
  length-take, flat_map, coalesce, arith, Has, Distinct,
}
use cvranking.Js.Map.{dedupe, Has-dedupe, dedupe-Distinct}
use cvranking.Js.Text.{Text}
use cvranking.Interviewer.Report.{Evaluation, points_of}

Has-take : (n : ℕ) (a : Text) (xs : List Text) → Has a (take n xs) → Has a xs
Has-take zero a xs h = absurd h
Has-take (suc n) a [] h = h
Has-take (suc n) a (x ∷ xs) (inl e) = inl e
Has-take (suc n) a (x ∷ xs) (inr h) = inr (Has-take n a xs h)

take-Distinct : (n : ℕ) (xs : List Text) → Distinct xs → Distinct (take n xs)
take-Distinct zero xs h = tt
take-Distinct (suc n) [] h = tt
take-Distinct (suc n) (x ∷ xs) (new, h) = ((λ has. new (Has-take n x xs has)), take-Distinct n xs h)

-- What a list of parts has, one of the parts has.
Has-append : (a : Text) (xs ys : List Text) → Has a (xs ++ ys) → Has a xs ⊎ Has a ys
Has-append a [] ys h = inr h
Has-append a (x ∷ xs) ys (inl e) = inl (inl e)
Has-append a (x ∷ xs) ys (inr h) = elim (Has-append a xs ys h) [
  | inl has ↦ inl (inr has)
  | inr has ↦ inr has
]

-- Some evaluation has made the point.
abbrev pub IsMade : (Evaluation → Option (List Text)) → Text → List Evaluation → Type 0
IsMade part a evaluations = (e : Evaluation) × Has e evaluations × Has a (coalesce (part e) [])

IsMade-flat_map :
    (part : Evaluation → Option (List Text)) (a : Text) (evaluations : List Evaluation)
    → Has a (flat_map (λ e. coalesce (part e) []) evaluations)
    → IsMade part a evaluations
IsMade-flat_map part a [] h = absurd h
IsMade-flat_map part a (e ∷ es) h = elim (Has-append a (coalesce (part e) []) _ h) [
  | inl has ↦ (e, inl refl, has)
  | inr has ↦ let (d, listed, made) = IsMade-flat_map part a es has in (d, inr listed, made)
]

-- Where the report brings no points of its own, those that are shown are pairwise distinct, no more than
-- the limit, and each of them is a point of some evaluation.
pub points_of-Distinct :
    (limit : ℕ) (part : Evaluation → Option (List Text)) (evaluations : List Evaluation)
    → Distinct (points_of limit part none evaluations)
      × (length (points_of limit part none evaluations) ≤ limit)
      × ((a : Text) → Has a (points_of limit part none evaluations) → IsMade part a evaluations)
unfolding points_of
points_of-Distinct limit part evaluations =
    let all = flat_map (λ (e : Evaluation). coalesce (part e) []) evaluations in
    (
      take-Distinct limit (dedupe all) (dedupe-Distinct all),
      omega (arith, length-take limit (dedupe all)),
      λ a h.
          IsMade-flat_map part a evaluations
            ((Has-dedupe a all).0 (Has-take limit a (dedupe all) h)),
    )
