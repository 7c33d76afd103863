-- ===== src/Seeding/Workers.antt =====
-- `mapWithConcurrency`: workers that share a cursor and an array of results, in any order in which the
-- calls of the mapper settle.
pub mod Safety
pub mod Progress
use cvranking.Prelude.{
  ℕ, zero, suc, ◌+◌, ◌*◌, ◌-◌, ◌≤◌, ◌<◌, min, ◌≡◌, ◌≢◌, refl, sym, ap, ◌∙◌, ◌⊎◌, inl, inr,
  Bool-cases, ◌==◌, ==_iff, Option, none, some, Option-cases, List, [], ◌∷◌, map, length, get_elem?,
  get_elem?-in, set_elem, length-set_elem, get_elem?-set_elem_self, get_elem?-set_elem_ne,
  count_from, length-count_from, all_some, All, arith,
}
use cvranking.Prelude.Options.{◌>>=◌}

-- A worker is at the test of its loop, waits for the mapper at an index, has returned, or has thrown
-- the error of the mapper.
pub data Worker : Type 0 where
  looping : Worker
  waiting : (current : ℕ) → Worker
  returned : Worker
  thrown : (current : ℕ) → Worker

pub record Pool (B : Type 0) : Type 0 where
  pub cursor : ℕ
  pub workers : List Worker
  pub results : List (Option B)

abbrev pub replicate {ℓ} : {A : Type ℓ} → ℕ → A → List A
replicate zero a = []
replicate (suc n) a = a ∷ replicate n a

module _ {A B : Type 0} (items : List A) (mapper : A → ℕ → Option B) where
  -- What the mapper gives at an index, where `none` is a throw. It is called once at each index.
  unfoldable pub mapped : ℕ → Option B
  mapped current = do item ← get_elem? items current; mapper item current

  unfoldable pub pool_start : (limit : ℕ) → Pool B
  pool_start limit = record {
    cursor = 0;
    workers = replicate (min limit (length items)) looping;
    results = replicate (length items) none;
  }

  -- What the worker does when its call at an index settles.
  unfoldable pub settle : ℕ → ℕ → Option B → Pool B → Pool B
  settle i current (some value) p = record p {
    workers = set_elem i looping p.workers;
    results = set_elem current (some value) p.results;
  }
  settle i current none p = record p { workers = set_elem i (thrown current) p.workers }

  pub data Step (p : Pool B) : Pool B → Type 0 where
    take :
        (i : ℕ)
        → get_elem? p.workers i ≡ some looping
        → p.cursor < length items
        → Step p
            (record p { cursor = suc p.cursor; workers = set_elem i (waiting p.cursor) p.workers })
    quit :
        (i : ℕ)
        → get_elem? p.workers i ≡ some looping
        → length items ≤ p.cursor
        → Step p (record p { workers = set_elem i returned p.workers })
    settled :
        (i current : ℕ)
        → get_elem? p.workers i ≡ some (waiting current)
        → Step p (settle i current (mapped current) p)

  -- The states that are reached from the start, by the number of steps.
  pub data Reaches (limit : ℕ) : ℕ → Pool B → Type 0 where
    start : Reaches limit 0 (pool_start limit)
    later :
        {p q : Pool B} {steps : ℕ} → Reaches limit steps p → Step p q → Reaches limit (suc steps) q
