-- ===== src/Js/Map.antt =====
-- `Map` and `Set` with text keys. A map is its entries in the order they were set: a later entry
-- of a key replaces an earlier one. A set is its first occurrences.
use cvranking.Prelude.{
  ◌≡◌, ◌≢◌, ◌↔◌, refl, Option-cases, inl, inr, Bool, true, not, Option, none, some, List, [], ◌∷◌,
  ◌++◌, arith, if◌then◌else◌, select, Has, Distinct, All,
}
use mathlib.Core.Path.{subst}
use cvranking.Js.Text.{Text, text_eq, text_eq_refl, text_eq_iff}

module _ {V : Type 0} where
  unfoldable pub map_get : Text → List (Text × V) → Option V
  map_get k [] = none
  map_get k ((j, v) ∷ m) = elim (map_get k m) [
    | some w ↦ some w
    | none ↦ if text_eq j k then some v else none
  ]

  unfoldable pub map_set : Text → V → List (Text × V) → List (Text × V)
  map_set k v m = m ++ (k, v) ∷ []

  pub map_get-map_set :
      (k j : Text) (v : V) (m : List (Text × V))
      → map_get j (map_set k v m) ≡ (if text_eq k j then some v else map_get j m)
  unfolding map_get map_set
  map_get-map_set k j v [] = ground arith
  map_get-map_set k j v ((i, w) ∷ m) = ground (arith, map_get-map_set k j v m)

  -- A key that no entry has is not found.
  pub map_get-none : (k : Text) (m : List (Text × V)) → All (λ e. e.0 ≢ k) m → map_get k m ≡ none
  unfolding map_get
  map_get-none k [] h = refl
  map_get-none k ((j, v) ∷ m) (p, h) = ground (arith, map_get-none k m h, text_eq_iff j k)

  -- What is found is related to the key as all entries are to theirs.
  pub map_get-entry :
      (Q : Text → V → Type 0) (k : Text) (m : List (Text × V)) (v : V)
      → All (λ e. Q e.0 e.1) m
      → map_get k m ≡ some v
      → Q k v
  unfolding map_get
  map_get-entry Q k [] v h e = cc
  map_get-entry Q k ((j, w) ∷ m) v (p, h) e = elim (Option-cases (map_get k m)) [
    | inl missed ↦
        let key : j ≡ k = ground (arith, text_eq_iff j k) in
        let value : w ≡ v = ground arith in subst (λ i. Q i v) key (subst (Q j) value p)
    | inr (u, found) ↦ map_get-entry Q k m v h (ground arith)
  ]

-- `Array.from(new Set(items))`.
unfoldable pub dedupe : List Text → List Text
dedupe [] = []
dedupe (x ∷ xs) = x ∷ select (λ y. not (text_eq x y)) (dedupe xs)

Has-select :
    (p : Text → Bool) (a : Text) (xs : List Text) → Has a (select p xs) ↔ (Has a xs × (p a ≡ true))
Has-select p a [] = (λ h. absurd h, λ h. h.0)
Has-select p a (x ∷ xs) = grind (arith, Has-select p a xs)

pub Has-dedupe : (a : Text) (xs : List Text) → Has a (dedupe xs) ↔ Has a xs
unfolding dedupe
Has-dedupe a [] = (λ h. h, λ h. h)
Has-dedupe a (x ∷ xs) =
    grind
      (arith, Has-dedupe a xs, Has-select (λ y. not (text_eq x y)) a (dedupe xs), text_eq_iff x a)

Distinct-select : (p : Text → Bool) (xs : List Text) → Distinct xs → Distinct (select p xs)
Distinct-select p [] h = tt
Distinct-select p (x ∷ xs) (n, h) = grind (arith, Distinct-select p xs h, Has-select p x xs)

pub dedupe-Distinct : (xs : List Text) → Distinct (dedupe xs)
unfolding dedupe
dedupe-Distinct [] = tt
dedupe-Distinct (x ∷ xs) = (
  λ h. ground (arith, (Has-select (λ y. not (text_eq x y)) x (dedupe xs)).0 h, text_eq_refl x),
  Distinct-select (λ y. not (text_eq x y)) (dedupe xs) (dedupe-Distinct xs),
)
