-- ===== src/Seeding/Sample.antt =====
-- `sampleCandidateFiles`: a pool is shuffled once and then cycled through.
use mathlib.Core.List.{Perm}
use mathlib.Core.Option
use native.Mathlib.Nat.{mod-lt}
use cvranking.Prelude.{
  ℕ, zero, suc, ◌+◌, ◌%◌, ◌<◌, ◌≡◌, refl, sym, ap, ◌∙◌, Option, none, some, Option-cases, inl, inr,
  List, [], ◌∷◌, map, length, get_elem?, get_elem?-in, get_elem?-map, get_elem?-count_from,
  length-map, count_from, length-count_from, all_some, all_some-map, arith,
}
use cvranking.Prelude.Options.{◌>>=◌}
use cvranking.Seeding.Shuffle.{shuffle_in_place, shuffle_in_place-map, shuffle_in_place-IsShuffled}

module _ {A : Type 0} where
  -- `pool[order[index % order.length]]`.
  unfoldable pub pick : List A → List ℕ → ℕ → Option A
  pick pool order index = do slot ← get_elem? order (index % length order); get_elem? pool slot

  map-get_elem?-cons :
      (x : A) (xs : List A) (first n : ℕ)
      → map (get_elem? (x ∷ xs)) (count_from (suc first) n)
        ≡ map (get_elem? xs) (count_from first n)
  map-get_elem?-cons x xs first zero = refl
  map-get_elem?-cons x xs first (suc n) =
      ap (◌∷◌ (get_elem? xs first)) (map-get_elem?-cons x xs (suc first) n)

  -- Reading every index of an array gives its elements.
  read_all : (xs : List A) → map (get_elem? xs) (count_from 0 (length xs)) ≡ map some xs
  read_all [] = refl
  read_all (x ∷ xs) = ap (◌∷◌ (some x)) (map-get_elem?-cons x xs 0 (length xs) ∙ read_all xs)

  pick_lem :
      (pool shuffled : List A) (order : List ℕ) (index : ℕ)
      → map (get_elem? pool) order ≡ map some shuffled
      → 0 < length shuffled
      → (a : A) × (pick pool order index ≡ some a)
        × (get_elem? shuffled (index % length shuffled) ≡ some a)
  unfolding pick
  pick_lem pool shuffled order index e h =
      let same : length order ≡ length shuffled =
        sym (length-map (get_elem? pool) order) ∙ ap length e ∙ length-map some shuffled in
      let slot_in : index % length order < length order = mod-lt index (omega (arith, same, h)) in
      let (slot, es) = get_elem?-in order (index % length order) slot_in in
      let (a, ea) = get_elem?-in shuffled (index % length shuffled) (mod-lt index h) in
      let read : some (get_elem? pool slot) ≡ some (some a) =
        sym (
          get_elem?-map (get_elem? pool) order (index % length order)
          ∙ ap (Option.map (get_elem? pool)) es)
        ∙ ap (λ l. get_elem? l (index % length order)) e
        ∙ get_elem?-map some shuffled (index % length order)
        ∙ ap (Option.map some) (ap (λ n. get_elem? shuffled (index % n)) same ∙ ea) in
      (a, rw es (cc read), ea)

  element_at :
      (f : ℕ → Option A) (files : List A) (count index : ℕ) (a : A)
      → map f (count_from 0 count) ≡ map some files
      → index < count
      → f index ≡ some a
      → get_elem? files index ≡ some a
  element_at f files count index a e h ea =
      let from_zero : 0 + index ≡ index = omega arith in
      let read : Option.map some (get_elem? files index) ≡ some (some a) =
        sym (get_elem?-map some files index)
        ∙ ap (λ l. get_elem? l index) (sym e)
        ∙ get_elem?-map f (count_from 0 count) index
        ∙ ap (Option.map f) (get_elem?-count_from 0 count index h)
        ∙ ap (λ n. some (f n)) from_zero
        ∙ ap some ea in
      elim (Option-cases (get_elem? files index)) [
        | inl missing ↦ cc (rw missing at read)
        | inr (b, found) ↦ found ∙ cc (rw found at read)
      ]

  -- The numbers of files asked for, each from the shuffled pool, which starts again at its end.
  pub record IsSample (pool : List A) (count : ℕ) (result : Option (List A)) : Type 0 where
    pub files : List A
    pub shuffled : List A
    pub returned : result ≡ some files
    pub perm : Perm shuffled pool
    pub size : length files ≡ count
    pub cycled :
        (index : ℕ)
        → index < count
        → get_elem? files index ≡ get_elem? shuffled (index % length pool)

module _ (random : ℕ → ℕ) {A : Type 0} where
  unfoldable pub sample_candidate_files : ℕ → Option (List A) → ℕ → Option (List A)
  sample_candidate_files call none count = some []
  sample_candidate_files call (some []) count = some []
  sample_candidate_files call (some (file ∷ files)) count = do
    order ← shuffle_in_place random call (count_from 0 (length (file ∷ files)))
    all_some (map (pick (file ∷ files) order) (count_from 0 count))

  -- The order of the indices that a shuffle gives, read in the pool, is a shuffle of the pool.
  order_reads :
      (call : ℕ) (pool shuffled : List A) (order : List ℕ)
      → shuffle_in_place random call pool ≡ some shuffled
      → shuffle_in_place random call (count_from 0 (length pool)) ≡ some order
      → map (get_elem? pool) order ≡ map some shuffled
  order_reads call pool shuffled order ep eo =
      let indices = count_from 0 (length pool) in
      let through : Option.map (map (get_elem? pool)) (shuffle_in_place random call indices)
          ≡ Option.map (map some) (shuffle_in_place random call pool) =
        sym (shuffle_in_place-map (get_elem? pool) random call indices)
        ∙ ap (shuffle_in_place random call) (read_all pool)
        ∙ shuffle_in_place-map some random call pool in
      cc (rw (ep, eo) at through)

  -- A sample of a pool that is not empty has as many files as asked for: the pool in a random order,
  -- each candidate as often as it is there, and then the same order again.
  pub sample_candidate_files-IsSample :
      (call : ℕ) (file : A) (rest : List A) (count : ℕ)
      → IsSample (file ∷ rest) count (sample_candidate_files call (some (file ∷ rest)) count)
  unfolding sample_candidate_files
  sample_candidate_files-IsSample call file rest count =
      let pool = file ∷ rest in
      let s = shuffle_in_place-IsShuffled random call pool in
      let o = shuffle_in_place-IsShuffled random call (count_from 0 (length pool)) in
      let reads = order_reads call pool s.elems o.elems s.returned o.returned in
      let picked =
        λ (index : ℕ). pick_lem pool s.elems o.elems index reads (omega (arith, s.same_length)) in
      let (files, e, f) =
        all_some-map (pick pool o.elems) (count_from 0 count)
          (λ index. ((picked index).0, (picked index).1)) in
      record {
        files = files;
        shuffled = s.elems;
        returned = rw o.returned e;
        perm = s.perm;
        size =
            sym (length-map some files)
            ∙ ap length (sym f)
            ∙ length-map _ (count_from 0 count)
            ∙ length-count_from 0 count;
        cycled = λ index h.
            let (a, ea, eb) = picked index in
            element_at (pick pool o.elems) files count index a f h ea
            ∙ sym eb
            ∙ ap (λ n. get_elem? s.elems (index % n)) s.same_length;
      }
