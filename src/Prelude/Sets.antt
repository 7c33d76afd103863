-- ===== src/Prelude/Sets.antt =====
-- Predicates over lists by recursion: the tactics read and build the tuples they compute to.
use Prim.Native.Nat.{ℕ, zero, suc}
use mathlib.Core.Path.{◌≡◌, ap}
use mathlib.Core.Logic.{◌⊎◌, inl, inr}
use mathlib.Core.Bool.{Bool}
use mathlib.Core.List.{List, [], ◌∷◌, ◌++◌, map}
use native.Mathlib.Omega.{arith}
use cvranking.Prelude.Lists.{take, select}

abbrev pub All {ℓ κ} : {A : Type ℓ} → (A → Type κ) → List A → Type κ
All P [] = Unit
All P (x ∷ xs) = P x × All P xs

-- `a` is an element of the list.
abbrev pub Has : {A : Type 0} → A → List A → Type 0
Has a [] = ⊥
Has a (x ∷ xs) = (a ≡ x) ⊎ Has a xs

-- No element occurs twice.
abbrev pub Distinct : {A : Type 0} → List A → Type 0
Distinct [] = Unit
Distinct (x ∷ xs) = (¬ Has x xs) × Distinct xs

module _ {ℓ κ} {A : Type ℓ} (P : A → Type κ) where
  pub All-append : (xs ys : List A) → All P xs → All P ys → All P (xs ++ ys)
  All-append [] ys h k = k
  All-append (x ∷ xs) ys (p, h) k = (p, All-append xs ys h k)

  pub All-take : (n : ℕ) (xs : List A) → All P xs → All P (take n xs)
  All-take zero xs h = tt
  All-take (suc n) [] h = tt
  All-take (suc n) (x ∷ xs) (p, h) = (p, All-take n xs h)

  pub All-select : (q : A → Bool) (xs : List A) → All P xs → All P (select q xs)
  All-select q [] h = tt
  All-select q (x ∷ xs) (p, h) = ground (arith, All-select q xs h)

  pub All_of_forall : ((a : A) → P a) → (xs : List A) → All P xs
  All_of_forall f [] = tt
  All_of_forall f (x ∷ xs) = (f x, All_of_forall f xs)

module _ {ℓ κ μ} {A : Type ℓ} {B : Type κ} (P : B → Type μ) (f : A → B) where
  pub All-map : (xs : List A) → ((a : A) → P (f a)) → All P (map f xs)
  All-map [] h = tt
  All-map (x ∷ xs) h = (h x, All-map xs h)

module _ {A B : Type 0} (f : A → B) where
  pub Has-map : (a : A) (xs : List A) → Has a xs → Has (f a) (map f xs)
  Has-map a [] h = elim h [ ]
  Has-map a (x ∷ xs) (inl e) = inl (ap f e)
  Has-map a (x ∷ xs) (inr h) = inr (Has-map a xs h)
