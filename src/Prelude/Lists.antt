-- ===== src/Prelude/Lists.antt =====
-- The array methods of the source over lists measured by native numbers.
use mathlib.Core.Option
use Prim.Native.Nat.{ℕ, zero, suc, ◌+◌, ◌-◌, ◌≤◌, ◌<◌, min}
use mathlib.Core.Path.{◌≡◌, refl, sym, ap, ap₂, ◌∙◌}
use mathlib.Core.Logic.{◌≢◌, ◌⊎◌, inl, inr}
use mathlib.Core.Bool.{Bool}
use mathlib.Core.List.{List, [], ◌∷◌, ◌++◌, map}
use mathlib.Core.Option.{Option, none, some}
use native.Mathlib.Omega.{arith}
use cvranking.Prelude.Tests.{if◌then◌else◌}

module _ {ℓ} {A : Type ℓ} where
  abbrev pub length : List A → ℕ
  length [] = 0
  length (x ∷ xs) = suc (length xs)

  abbrev pub take : ℕ → List A → List A
  take zero xs = []
  take (suc n) [] = []
  take (suc n) (x ∷ xs) = x ∷ take n xs

  abbrev pub drop : ℕ → List A → List A
  drop zero xs = xs
  drop (suc n) [] = []
  drop (suc n) (x ∷ xs) = drop n xs

  abbrev pub get_elem? : List A → ℕ → Option A
  get_elem? [] i = none
  get_elem? (x ∷ xs) zero = some x
  get_elem? (x ∷ xs) (suc i) = get_elem? xs i

  -- `slice(-n)`: the last n elements.
  abbrev pub take_last : ℕ → List A → List A
  take_last n xs = drop (length xs - n) xs

  -- `filter` with a Boolean test.
  abbrev pub select : (A → Bool) → List A → List A
  select p [] = []
  select p (x ∷ xs) = let rest = select p xs in if p x then x ∷ rest else rest

  -- `find`.
  abbrev pub find : (A → Bool) → List A → Option A
  find p [] = none
  find p (x ∷ xs) = let rest = find p xs in if p x then some x else rest

  -- Drops `undefined` entries, as `filter(Boolean)` over objects does.
  abbrev pub somes : List (Option A) → List A
  somes [] = []
  somes (none ∷ xs) = somes xs
  somes (some x ∷ xs) = x ∷ somes xs

  pub length-append : (xs ys : List A) → length (xs ++ ys) ≡ length xs + length ys
  length-append [] ys = omega arith
  length-append (x ∷ xs) ys = omega (arith, length-append xs ys)

  pub length-take : (n : ℕ) (xs : List A) → length (take n xs) ≡ min n (length xs)
  length-take zero xs = omega arith
  length-take (suc n) [] = omega arith
  length-take (suc n) (x ∷ xs) = omega (arith, length-take n xs)

  pub length-drop : (n : ℕ) (xs : List A) → length (drop n xs) ≡ length xs - n
  length-drop zero xs = omega arith
  length-drop (suc n) [] = omega arith
  length-drop (suc n) (x ∷ xs) = omega (arith, length-drop n xs)

  pub length-select-le : (p : A → Bool) (xs : List A) → length (select p xs) ≤ length xs
  length-select-le p [] = omega arith
  length-select-le p (x ∷ xs) = ground (arith, length-select-le p xs)

  pub take_all : (n : ℕ) (xs : List A) → length xs ≤ n → take n xs ≡ xs
  take_all zero [] h = refl
  take_all zero (x ∷ xs) h = absurd (omega arith)
  take_all (suc n) [] h = refl
  take_all (suc n) (x ∷ xs) h = ap (◌∷◌ x) (take_all n xs (omega arith))

-- The n numbers from `first` on.
abbrev pub count_from : (first n : ℕ) → List ℕ
count_from first zero = []
count_from first (suc n) = first ∷ count_from (suc first) n

pub length-count_from : (first n : ℕ) → length (count_from first n) ≡ n
length-count_from first zero = refl
length-count_from first (suc n) = ap suc (length-count_from (suc first) n)

module _ {ℓ} {A : Type ℓ} where
  -- What a list of optional values holds, unless one is missing.
  abbrev pub all_some : List (Option A) → Option (List A)
  all_some [] = some []
  all_some (none ∷ xs) = none
  all_some (some x ∷ xs) = Option.map (◌∷◌ x) (all_some xs)

  -- `array[i] = a` for an index in range.
  abbrev pub set_elem : ℕ → A → List A → List A
  set_elem i a [] = []
  set_elem zero a (x ∷ xs) = a ∷ xs
  set_elem (suc i) a (x ∷ xs) = x ∷ set_elem i a xs

  pub get_elem?-set_elem_self :
      (i : ℕ) (a b : A) (xs : List A)
      → get_elem? xs i ≡ some a
      → get_elem? (set_elem i b xs) i ≡ some b
  get_elem?-set_elem_self i a b [] e = cc e
  get_elem?-set_elem_self zero a b (x ∷ xs) e = refl
  get_elem?-set_elem_self (suc i) a b (x ∷ xs) e = get_elem?-set_elem_self i a b xs e

  pub get_elem?-set_elem_ne :
      (i j : ℕ) (b : A) (xs : List A) → i ≢ j → get_elem? (set_elem i b xs) j ≡ get_elem? xs j
  get_elem?-set_elem_ne i j b [] h = refl
  get_elem?-set_elem_ne zero zero b (x ∷ xs) h = absurd (h refl)
  get_elem?-set_elem_ne zero (suc j) b (x ∷ xs) h = refl
  get_elem?-set_elem_ne (suc i) zero b (x ∷ xs) h = refl
  get_elem?-set_elem_ne (suc i) (suc j) b (x ∷ xs) h =
      get_elem?-set_elem_ne i j b xs (λ e. h (ap suc e))

  -- What is read after a write is what was written, or what was there before.
  pub set_elem-cases :
      (i j : ℕ) (a b c : A) (xs : List A)
      → get_elem? xs i ≡ some a
      → get_elem? (set_elem i b xs) j ≡ some c
      → ((i ≡ j) × (c ≡ b)) ⊎ (get_elem? xs j ≡ some c)
  set_elem-cases i j a b c [] ea ec = absurd (cc ec)
  set_elem-cases zero zero a b c (x ∷ xs) ea ec = inl (refl, cc ec)
  set_elem-cases zero (suc j) a b c (x ∷ xs) ea ec = inr ec
  set_elem-cases (suc i) zero a b c (x ∷ xs) ea ec = inr ec
  set_elem-cases (suc i) (suc j) a b c (x ∷ xs) ea ec = elim (set_elem-cases i j a b c xs ea ec) [
    | inl (e, f) ↦ inl (ap suc e, f)
    | inr e ↦ inr e
  ]

  -- A write leaves an element that differs from the one it replaces.
  pub get_elem?-set_elem_other :
      (i j : ℕ) (a b c : A) (xs : List A)
      → get_elem? xs i ≡ some a
      → a ≢ b
      → get_elem? xs j ≡ some b
      → get_elem? (set_elem i c xs) j ≡ some b
  get_elem?-set_elem_other i j a b c xs ea ne eb =
      get_elem?-set_elem_ne i j c xs (λ e. ne (cc (ap (get_elem? xs) e, ea, eb))) ∙ eb

  pub length-set_elem : (i : ℕ) (a : A) (xs : List A) → length (set_elem i a xs) ≡ length xs
  length-set_elem i a [] = refl
  length-set_elem zero a (x ∷ xs) = refl
  length-set_elem (suc i) a (x ∷ xs) = ap suc (length-set_elem i a xs)

  -- An index in range has an element, and the other indices have none.
  pub get_elem?-in : (xs : List A) (i : ℕ) → i < length xs → (a : A) × (get_elem? xs i ≡ some a)
  get_elem?-in [] i h = absurd (omega arith)
  get_elem?-in (x ∷ xs) zero h = (x, refl)
  get_elem?-in (x ∷ xs) (suc i) h = get_elem?-in xs i (omega arith)

module _ {ℓ κ} {A : Type ℓ} {B : Type κ} where
  abbrev pub flat_map : (A → List B) → List A → List B
  flat_map f [] = []
  flat_map f (x ∷ xs) = f x ++ flat_map f xs

  pub length-map : (f : A → B) (xs : List A) → length (map f xs) ≡ length xs
  length-map f [] = refl
  length-map f (x ∷ xs) = ap suc (length-map f xs)

  pub get_elem?-map :
      (f : A → B) (xs : List A) (i : ℕ) → get_elem? (map f xs) i ≡ Option.map f (get_elem? xs i)
  get_elem?-map f [] i = refl
  get_elem?-map f (x ∷ xs) zero = refl
  get_elem?-map f (x ∷ xs) (suc i) = get_elem?-map f xs i

  -- Where every image is there, so is the list of them.
  pub all_some-map :
      (f : A → Option B) (xs : List A)
      → ((x : A) → (b : B) × (f x ≡ some b))
      → (ys : List B) × (all_some (map f xs) ≡ some ys) × (map f xs ≡ map some ys)
  all_some-map f [] h = ([], refl, refl)
  all_some-map f (x ∷ xs) h =
      let (b, e) = h x in
      let (ys, all, same) = all_some-map f xs h in
      (
        b ∷ ys,
        ap₂ (λ o rest. all_some (o ∷ rest)) e same
            ∙ ap (Option.map (◌∷◌ b)) (ap all_some (sym same) ∙ all),
        ap₂ ◌∷◌ e same,
      )

pub get_elem?-count_from :
    (first n i : ℕ) → i < n → get_elem? (count_from first n) i ≡ some (first + i)
get_elem?-count_from first zero i h = absurd (omega arith)
get_elem?-count_from first (suc n) zero h = ap some (omega arith)
get_elem?-count_from first (suc n) (suc i) h =
    get_elem?-count_from (suc first) n i (omega arith) ∙ ap some (omega arith)
