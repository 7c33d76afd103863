-- ===== src/Seeding/Shuffle.antt =====
-- `shuffleInPlace` and `sampleCandidateFiles`.
use mathlib.Core.List.{Perm}
use mathlib.Core.List.Perm
use mathlib.Core.Option
use cvranking.Prelude.{
  ℕ, zero, suc, ◌+◌, ◌-◌, ◌≤◌, ◌<◌, ◌≡◌, refl, ap, ◌∙◌, inl, inr, Bool-cases, ◌==◌, ==_iff, Option,
  none, some, Option-cases, List, [], ◌∷◌, map, length, get_elem?, get_elem?-in, set_elem,
  length-set_elem, get_elem?-set_elem_self, get_elem?-set_elem_ne, get_elem?-map, length-map, arith,
}
use cvranking.Prelude.Options.{◌>>=◌}
use cvranking.Js.Number.Random.{random_below, random_below-lt}

module _ {A : Type 0} where
  -- `[array[i], array[j]] = [array[j], array[i]]`, where the right side is read first. An index out of
  -- range would put `undefined` into the array, for which this gives `none`.
  unfoldable pub exchange : ℕ → ℕ → Option A → Option A → List A → Option (List A)
  exchange i j (some a) (some b) xs = some (set_elem j a (set_elem i b xs))
  exchange i j _ _ xs = none

  unfoldable pub swap_elems : ℕ → ℕ → List A → Option (List A)
  unfolding exchange
  swap_elems i j xs = exchange i j (get_elem? xs i) (get_elem? xs j) xs

  set_elem-perm :
      (i : ℕ) (a b : A) (xs : List A)
      → get_elem? xs i ≡ some a
      → Perm (a ∷ set_elem i b xs) (b ∷ xs)
  set_elem-perm i a b [] e = cc e
  set_elem-perm zero a b (x ∷ xs) e = let f : x ≡ a = cc e in rw (← f) (Perm.swap b x xs)
  set_elem-perm (suc i) a b (x ∷ xs) e =
      Perm.trans (Perm.swap x a (set_elem i b xs))
        (Perm.trans (Perm.cons x (set_elem-perm i a b xs e)) (Perm.swap b x xs))

  -- After the first write, the second index still holds what was read from it.
  read_back :
      (i j : ℕ) (a b : A) (xs : List A)
      → get_elem? xs i ≡ some a
      → get_elem? xs j ≡ some b
      → get_elem? (set_elem i b xs) j ≡ some b
  read_back i j a b xs ea eb = elim (Bool-cases (i == j)) [
    | inl e ↦ rw (← (==_iff i j).0 e) (get_elem?-set_elem_self i a b xs ea)
    | inr e ↦ get_elem?-set_elem_ne i j b xs (ground arith) ∙ eb
  ]

  -- The elements of `xs`, each as often as there, in some order.
  pub record IsShuffled (xs : List A) (result : Option (List A)) : Type 0 where
    pub elems : List A
    pub returned : result ≡ some elems
    pub perm : Perm elems xs
    pub same_length : length elems ≡ length xs

  swap_elems-IsShuffled :
      (i j : ℕ) (xs : List A) → i < length xs → j < length xs → IsShuffled xs (swap_elems i j xs)
  unfolding swap_elems
  swap_elems-IsShuffled i j xs hi hj =
      let (a, ea) = get_elem?-in xs i hi in
      let (b, eb) = get_elem?-in xs j hj in
      record {
        elems = set_elem j a (set_elem i b xs);
        returned = rw (ea, eb) refl;
        perm = Perm.cons_inv (
            Perm.trans (set_elem-perm j b a (set_elem i b xs) (read_back i j a b xs ea eb))
              (set_elem-perm i a b xs ea));
        same_length = length-set_elem j a (set_elem i b xs) ∙ length-set_elem i b xs;
      }

-- The calls of `Math.random` are numbered, and `random` gives the bits that each one returns.
module _ (random : ℕ → ℕ) where
  -- The loop from an index down to 1, with the number of the next call.
  unfoldable pub shuffle_from : {A : Type 0} → ℕ → ℕ → List A → Option (List A)
  shuffle_from zero call xs = some xs
  shuffle_from (suc i) call xs = do
    ys ← swap_elems (suc i) (random_below (random call) (suc i + 1)) xs
    shuffle_from i (suc call) ys

  unfoldable pub shuffle_in_place : {A : Type 0} → ℕ → List A → Option (List A)
  shuffle_in_place call xs = shuffle_from (length xs - 1) call xs

  shuffle_from-IsShuffled :
      {A : Type 0} (i call : ℕ) (xs : List A)
      → i ≤ length xs - 1
      → IsShuffled xs (shuffle_from i call xs)
  unfolding shuffle_from
  shuffle_from-IsShuffled zero call xs h = record {
    elems = xs;
    returned = refl;
    perm = Perm.refl xs;
    same_length = refl;
  }
  shuffle_from-IsShuffled (suc i) call xs h =
      let j = random_below (random call) (suc i + 1) in
      let below : j < suc i + 1 = random_below-lt (random call) (suc i + 1) (omega arith) in
      let s = swap_elems-IsShuffled (suc i) j xs (omega (arith, h)) (omega (arith, h, below)) in
      let r = shuffle_from-IsShuffled i (suc call) s.elems (omega (arith, h, s.same_length)) in
      record {
        elems = r.elems;
        returned = rw s.returned r.returned;
        perm = Perm.trans r.perm s.perm;
        same_length = r.same_length ∙ s.same_length;
      }

  -- Whatever `Math.random` gives, shuffling reads and writes in range, and keeps the elements, each as
  -- often as it was there.
  pub shuffle_in_place-IsShuffled :
      {A : Type 0} (call : ℕ) (xs : List A) → IsShuffled xs (shuffle_in_place call xs)
  unfolding shuffle_in_place
  shuffle_in_place-IsShuffled call xs =
      shuffle_from-IsShuffled (length xs - 1) call xs (omega arith)

-- Shuffling sees no element: it commutes with a function on the elements.
module _ {A B : Type 0} (f : A → B) where
  map-set_elem :
      (i : ℕ) (a : A) (xs : List A) → map f (set_elem i a xs) ≡ set_elem i (f a) (map f xs)
  map-set_elem i a [] = refl
  map-set_elem zero a (x ∷ xs) = refl
  map-set_elem (suc i) a (x ∷ xs) = ap (◌∷◌ (f x)) (map-set_elem i a xs)

  exchange-map :
      (i j : ℕ) (a b : Option A) (xs : List A)
      → exchange i j (Option.map f a) (Option.map f b) (map f xs)
        ≡ Option.map (map f) (exchange i j a b xs)
  unfolding exchange
  exchange-map i j none b xs = refl
  exchange-map i j (some a) none xs = refl
  exchange-map i j (some a) (some b) xs =
      rw (map-set_elem j a (set_elem i b xs), map-set_elem i b xs) refl

  swap_elems-map :
      (i j : ℕ) (xs : List A) → swap_elems i j (map f xs) ≡ Option.map (map f) (swap_elems i j xs)
  unfolding swap_elems
  swap_elems-map i j xs =
      rw (get_elem?-map f xs i, get_elem?-map f xs j)
        (exchange-map i j (get_elem? xs i) (get_elem? xs j) xs)

  module _ (random : ℕ → ℕ) where
    shuffle_from-map :
        (i call : ℕ) (xs : List A)
        → shuffle_from random i call (map f xs) ≡ Option.map (map f) (shuffle_from random i call xs)
    unfolding shuffle_from
    shuffle_from-map zero call xs = refl
    shuffle_from-map (suc i) call xs =
        let j = random_below (random call) (suc i + 1) in
        rw (swap_elems-map (suc i) j xs) (elim (Option-cases (swap_elems (suc i) j xs)) [
          | inl e ↦ rw e refl
          | inr (ys, e) ↦ rw e (shuffle_from-map i (suc call) ys)
        ])

    pub shuffle_in_place-map :
        (call : ℕ) (xs : List A)
        → shuffle_in_place random call (map f xs)
          ≡ Option.map (map f) (shuffle_in_place random call xs)
    unfolding shuffle_in_place
    shuffle_in_place-map call xs = rw (length-map f xs) (shuffle_from-map (length xs - 1) call xs)
