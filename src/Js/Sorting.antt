-- ===== src/Js/Sorting.antt =====
-- `Array.prototype.sort` with a comparator: the language requires a stable sort, so the result is
-- fixed by the comparator where that is a total preorder.
use mathlib.Core.List.{Perm}
use mathlib.Core.List.Perm
use cvranking.Prelude.{
  suc, length, ◌≡◌, ◌≢◌, refl, Bool, true, false, List, [], ◌∷◌, arith, if◌then◌else◌, All,
  Bool-cases, inl, inr,
}
use cvranking.Js.Number.{Sign, positive}

-- The comparator puts its first argument after its second one.
abbrev is_positive : Sign → Bool
is_positive positive = true
is_positive _ = false

module _ {A : Type 0} (compare : A → A → Sign) where
  pub insert : A → List A → List A
  insert x [] = x ∷ []
  insert x (y ∷ ys) =
      let rest = insert x ys in if is_positive (compare x y) then y ∷ rest else x ∷ y ∷ ys

  unfoldable pub sort : List A → List A
  unfolding insert
  sort [] = []
  sort (x ∷ xs) = insert x (sort xs)

  -- Every element compares as not after the later ones.
  abbrev pub IsSorted : List A → Type 0
  IsSorted [] = Unit
  IsSorted (x ∷ xs) = All (λ y. compare x y ≢ positive) xs × IsSorted xs

  -- What a comparator must satisfy, on the elements at hand, for `sort` to be determined.
  pub record IsPreorder (P : A → Type 0) : Type 0 where
    pub trans :
        (x y z : A)
        → P x
        → P y
        → P z
        → compare x y ≢ positive
        → compare y z ≢ positive
        → compare x z ≢ positive
    pub total : (x y : A) → P x → P y → compare x y ≡ positive → compare y x ≢ positive

  insert-perm : (x : A) (xs : List A) → Perm (insert x xs) (x ∷ xs)
  unfolding insert
  insert-perm x [] = Perm.refl (x ∷ [])
  insert-perm x (y ∷ ys) = elim (Bool-cases (is_positive (compare x y))) [
    | inl e ↦ rw e (Perm.trans (Perm.cons y (insert-perm x ys)) (Perm.swap x y ys))
    | inr e ↦ rw e (Perm.refl _)
  ]

  pub sort-perm : (xs : List A) → Perm (sort xs) xs
  unfolding sort
  sort-perm [] = Perm.refl []
  sort-perm (x ∷ xs) = Perm.trans (insert-perm x (sort xs)) (Perm.cons x (sort-perm xs))

  length-insert : (x : A) (xs : List A) → length (insert x xs) ≡ suc (length xs)
  unfolding insert
  length-insert x [] = refl
  length-insert x (y ∷ ys) = ground (arith, length-insert x ys)

  pub length-sort : (xs : List A) → length (sort xs) ≡ length xs
  unfolding sort
  length-sort [] = refl
  length-sort (x ∷ xs) = omega (arith, length-insert x (sort xs), length-sort xs)

  pub All-insert {κ} : (P : A → Type κ) (x : A) (xs : List A) → P x → All P xs → All P (insert x xs)
  unfolding insert
  All-insert P x [] p h = (p, tt)
  All-insert P x (y ∷ ys) p (q, h) = ground (arith, All-insert P x ys p h)

  pub All-sort {κ} : (P : A → Type κ) (xs : List A) → All P xs → All P (sort xs)
  unfolding sort
  All-sort P [] h = tt
  All-sort P (x ∷ xs) (p, h) = All-insert P x (sort xs) p (All-sort P xs h)

  module _ (P : A → Type 0) (o : IsPreorder P) where
    All-after :
        (x y : A) (zs : List A)
        → P x
        → P y
        → All P zs
        → compare x y ≢ positive
        → All (λ z. compare y z ≢ positive) zs
        → All (λ z. compare x z ≢ positive) zs
    All-after x y [] px py pz h k = tt
    All-after x y (z ∷ zs) px py (pz, pzs) h (q, k) =
        (o.trans x y z px py pz h q, All-after x y zs px py pzs h k)

    insert-IsSorted : (x : A) (xs : List A) → P x → All P xs → IsSorted xs → IsSorted (insert x xs)
    unfolding insert
    insert-IsSorted x [] px pxs h = (tt, tt)
    insert-IsSorted x (y ∷ ys) px (py, pys) (p, h) = elim (Bool-cases (is_positive (compare x y))) [
      | inl e ↦ rw e (
        All-insert (λ z. compare y z ≢ positive) x ys (o.total x y px py (ground arith)) p,
        insert-IsSorted x ys px pys h,
      )
      | inr e ↦
          let before : compare x y ≢ positive = ground arith in
          rw e ((before, All-after x y ys px py pys before p), (p, h))
    ]

    pub sort-IsSorted : (xs : List A) → All P xs → IsSorted (sort xs)
    unfolding sort
    sort-IsSorted [] h = tt
    sort-IsSorted (x ∷ xs) (p, h) =
        insert-IsSorted x (sort xs) p (All-sort P xs h) (sort-IsSorted xs h)
