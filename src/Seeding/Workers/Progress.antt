-- ===== src/Seeding/Workers/Progress.antt =====
-- `mapWithConcurrency` comes to an end.
use cvranking.Prelude.{
  ℕ, zero, suc, ◌+◌, ◌*◌, ◌-◌, ◌≤◌, ◌<◌, min, ◌≡◌, refl, ap, ◌⊎◌, inl, inr, Option, none, some,
  List, [], ◌∷◌, length, get_elem?, set_elem, All, arith,
}
use native.Mathlib.Decide.{dec_lt}
use cvranking.Seeding.Workers.{
  Worker, looping, waiting, returned, thrown, Pool, replicate, mapped, pool_start, settle, Step,
  take, quit, settled, Reaches, start, later,
}

-- The steps that a worker can take without a new item.
weight : Worker → ℕ
weight looping = 1
weight (waiting _) = 2
weight returned = 0
weight (thrown _) = 0

total : List Worker → ℕ
unfolding weight
total [] = 0
total (w ∷ ws) = weight w + total ws

total-set_elem :
    (i : ℕ) (a b : Worker) (ws : List Worker)
    → get_elem? ws i ≡ some a
    → total (set_elem i b ws) + weight a ≡ total ws + weight b
unfolding total
total-set_elem i a b [] e = cc e
total-set_elem zero a b (w ∷ ws) e =
    let same : weight w ≡ weight a = ap weight (cc e) in omega (arith, same)
total-set_elem (suc i) a b (w ∷ ws) e = omega (arith, total-set_elem i a b ws e)

-- A worker that has returned or thrown takes no further step.
abbrev pub IsSettled : Worker → Type 0
IsSettled w = (w ≡ returned) ⊎ ((current : ℕ) × (w ≡ thrown current))

module _ {A B : Type 0} (items : List A) (mapper : A → ℕ → Option B) where
  measure : Pool B → ℕ
  unfolding total
  measure p = 2 * (length items - p.cursor) + total p.workers

  measure-settle :
      (p : Pool B) (i current : ℕ) (outcome : Option B)
      → get_elem? p.workers i ≡ some (waiting current)
      → measure (settle items mapper i current outcome p) < measure p
  unfolding measure settle weight
  measure-settle p i current none e =
      omega (arith, total-set_elem i (waiting current) (thrown current) p.workers e)
  measure-settle p i current (some value) e =
      omega (arith, total-set_elem i (waiting current) looping p.workers e)

  step-measure : (p q : Pool B) → Step items mapper p q → measure q < measure p
  unfolding measure weight
  step-measure p q (take i e h) =
      omega (arith, h, total-set_elem i looping (waiting p.cursor) p.workers e)
  step-measure p q (quit i e h) = omega (arith, total-set_elem i looping returned p.workers e)
  step-measure p q (settled i current e) =
      measure-settle p i current (mapped items mapper current) e

  total-replicate : (n : ℕ) → total (replicate n looping) ≡ n
  unfolding total weight
  total-replicate zero = refl
  total-replicate (suc n) = omega (arith, total-replicate n)

  steps_left :
      (limit steps : ℕ) (p : Pool B)
      → Reaches items mapper limit steps p
      → steps + measure p ≤ 2 * length items + min limit (length items)
  unfolding measure pool_start
  steps_left limit _ p start = omega (arith, total-replicate (min limit (length items)))
  steps_left limit _ q (later {p} {steps = steps} r step) =
      omega (arith, steps_left limit steps p r, step-measure p q step)

  -- What can be done from the state on: a step, or nothing, where no worker is left that waits.
  worker_can :
      (p : Pool B) (i : ℕ) (w : Worker)
      → get_elem? p.workers i ≡ some w
      → ((q : Pool B) × Step items mapper p q) ⊎ IsSettled w
  worker_can p i looping e = elim (dec_lt p.cursor (length items)) [
    | yes h ↦ inl (_, take i e h)
    | no h ↦ inl (_, quit i e (omega (arith, h)))
  ]
  worker_can p i (waiting current) e = inl (_, settled i current e)
  worker_can p i returned e = inr (inl refl)
  worker_can p i (thrown current) e = inr (inr (current, refl))

  workers_can :
      (p : Pool B) (ws : List Worker)
      → ((i : ℕ) (w : Worker)
          → get_elem? ws i ≡ some w
          → ((q : Pool B) × Step items mapper p q) ⊎ IsSettled w)
      → ((q : Pool B) × Step items mapper p q) ⊎ All IsSettled ws
  workers_can p [] h = inr tt
  workers_can p (w ∷ ws) h = elim (h 0 w refl) [
    | inl step ↦ inl step
    | inr done ↦ elim (workers_can p ws (λ i v e. h (suc i) v e)) [
      | inl step ↦ inl step
      | inr rest ↦ inr (done, rest)
    ]
  ]

  -- The workers take at most two steps for each item and one for each worker, and as long as a
  -- worker has neither returned nor thrown, a step is possible.
  pub map_with_concurrency-ends :
      (limit steps : ℕ) (p : Pool B)
      → Reaches items mapper limit steps p
      → (steps ≤ 2 * length items + min limit (length items))
        × (((q : Pool B) × Step items mapper p q) ⊎ All IsSettled p.workers)
  map_with_concurrency-ends limit steps p r =
      (omega (arith, steps_left limit steps p r), workers_can p p.workers (worker_can p))
