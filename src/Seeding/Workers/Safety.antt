-- ===== src/Seeding/Workers/Safety.antt =====
-- What the workers of `mapWithConcurrency` leave in the results.
use cvranking.Prelude.{
  ℕ, zero, suc, ◌≤◌, ◌<◌, min, ◌≡◌, refl, sym, ap, ◌∙◌, inl, inr, Bool-cases, ◌==◌, ==_iff, Option,
  none, some, List, [], ◌∷◌, map, length, get_elem?, get_elem?-in, length-map, set_elem,
  set_elem-cases, length-set_elem, get_elem?-set_elem_self, get_elem?-set_elem_ne,
  get_elem?-set_elem_other, All, arith,
}
use cvranking.Seeding.Workers.{
  Worker, looping, waiting, returned, thrown, Pool, replicate, mapped, pool_start, settle, Step,
  take, quit, settled, Reaches, start, later,
}

module _ {A B : Type 0} (items : List A) (mapper : A → ℕ → Option B) where
  -- A result is written, or a worker waits for it or has thrown over it.
  pub data IsCovered (p : Pool B) (k : ℕ) : Type 0 where
    written : (b : B) → get_elem? p.results k ≡ some (some b) → IsCovered p k
    held : (i : ℕ) → get_elem? p.workers i ≡ some (waiting k) → IsCovered p k
    lost : (i : ℕ) → get_elem? p.workers i ≡ some (thrown k) → IsCovered p k

  pub record IsSound (p : Pool B) : Type 0 where
    pub size : length p.results ≡ length items
    pub bounded : p.cursor ≤ length items
    pub sound :
        (k : ℕ) (b : B) → get_elem? p.results k ≡ some (some b) → mapped items mapper k ≡ some b
    pub begun : (i k : ℕ) → get_elem? p.workers i ≡ some (waiting k) → k < p.cursor
    pub covered : (k : ℕ) → k < p.cursor → IsCovered p k
    pub finished : (i : ℕ) → get_elem? p.workers i ≡ some returned → length items ≤ p.cursor

  length-replicate : {C : Type 0} (n : ℕ) (c : C) → length (replicate n c) ≡ n
  length-replicate zero c = refl
  length-replicate (suc n) c = ap suc (length-replicate n c)

  get_elem?-replicate :
      {C : Type 0} (n : ℕ) (c d : C) (i : ℕ) → get_elem? (replicate n c) i ≡ some d → d ≡ c
  get_elem?-replicate zero c d i e = cc e
  get_elem?-replicate (suc n) c d zero e = cc e
  get_elem?-replicate (suc n) c d (suc i) e = get_elem?-replicate n c d i e

  pool_start-IsSound : (limit : ℕ) → IsSound (pool_start items mapper limit)
  unfolding pool_start
  pool_start-IsSound limit = record {
    size = length-replicate (length items) none;
    bounded = omega arith;
    sound = λ k b e. cc (get_elem?-replicate (length items) none (some b) k e);
    begun = λ i k e. cc (get_elem?-replicate (min limit (length items)) looping (waiting k) i e);
    covered = λ k h. absurd (omega (arith, h));
    finished = λ i e. cc (get_elem?-replicate (min limit (length items)) looping returned i e);
  }

  -- A step of the worker i that leaves the results keeps what the other workers cover.
  IsCovered-set_elem :
      (p q : Pool B) (i k : ℕ) (w : Worker)
      → get_elem? p.workers i ≡ some looping
      → q.workers ≡ set_elem i w p.workers
      → q.results ≡ p.results
      → IsCovered p k
      → IsCovered q k
  IsCovered-set_elem p q i k w e ew er (written b f) = written b (ap (λ rs. get_elem? rs k) er ∙ f)
  IsCovered-set_elem p q i k w e ew er (held j f) = held j (
      ap (λ ws. get_elem? ws j) ew
      ∙ get_elem?-set_elem_other i j looping (waiting k) w p.workers e (λ ne. cc ne) f)
  IsCovered-set_elem p q i k w e ew er (lost j f) = lost j (
      ap (λ ws. get_elem? ws j) ew
      ∙ get_elem?-set_elem_other i j looping (thrown k) w p.workers e (λ ne. cc ne) f)

  take-IsSound :
      (p : Pool B) (i : ℕ)
      → get_elem? p.workers i ≡ some looping
      → p.cursor < length items
      → IsSound p
      → IsSound
          (record p { cursor = suc p.cursor; workers = set_elem i (waiting p.cursor) p.workers })
  take-IsSound p i e h s = record {
    size = s.size;
    bounded = h;
    sound = s.sound;
    begun = λ j k f.
        elim (set_elem-cases i j looping (waiting p.cursor) (waiting k) p.workers e f) [
          | inl (_, g) ↦ let same : k ≡ p.cursor = cc g in omega (arith, same)
          | inr g ↦ let old = s.begun j k g in omega (arith, old)
        ];
    covered = λ k below. elim (Bool-cases (k == p.cursor)) [
      | inl same ↦ held i (
          get_elem?-set_elem_self i looping (waiting p.cursor) p.workers e
          ∙ ap (λ n. some (waiting n)) (sym ((==_iff k p.cursor).0 same)))
      | inr other ↦
          IsCovered-set_elem p _ i k (waiting p.cursor) e refl refl
            (s.covered k (ground (arith, below)))
    ];
    finished = λ j f. elim (set_elem-cases i j looping (waiting p.cursor) returned p.workers e f) [
      | inl (_, g) ↦ cc g
      | inr g ↦ let old = s.finished j g in omega (arith, old)
    ];
  }

  quit-IsSound :
      (p : Pool B) (i : ℕ)
      → get_elem? p.workers i ≡ some looping
      → length items ≤ p.cursor
      → IsSound p
      → IsSound (record p { workers = set_elem i returned p.workers })
  quit-IsSound p i e h s = record {
    size = s.size;
    bounded = s.bounded;
    sound = s.sound;
    begun = λ j k f. elim (set_elem-cases i j looping returned (waiting k) p.workers e f) [
      | inl (_, g) ↦ cc g
      | inr g ↦ s.begun j k g
    ];
    covered = λ k below. IsCovered-set_elem p _ i k returned e refl refl (s.covered k below);
    finished = λ j f. h;
  }

  settle_some-IsSound :
      (p : Pool B) (i current : ℕ) (value : B)
      → get_elem? p.workers i ≡ some (waiting current)
      → mapped items mapper current ≡ some value
      → IsSound p
      → IsSound (record p {
        workers = set_elem i looping p.workers;
        results = set_elem current (some value) p.results;
      })
  settle_some-IsSound p i current value e m s =
      let begun = s.begun i current e in
      let (old, eo) = get_elem?-in p.results current (omega (arith, begun, s.bounded, s.size)) in
      record {
        size = length-set_elem current (some value) p.results ∙ s.size;
        bounded = s.bounded;
        sound = λ k b f. elim (set_elem-cases current k old (some value) (some b) p.results eo f) [
          | inl (same, g) ↦ ap (mapped items mapper) (sym same) ∙ cc (m, g)
          | inr g ↦ s.sound k b g
        ];
        begun = λ j k f.
            elim (set_elem-cases i j (waiting current) looping (waiting k) p.workers e f) [
              | inl (_, g) ↦ cc g
              | inr g ↦ s.begun j k g
            ];
        covered = λ k below. elim (Bool-cases (k == current)) [
          | inl same ↦ written value (
              ap (get_elem? (set_elem current (some value) p.results)) ((==_iff k current).0 same)
              ∙ get_elem?-set_elem_self current old (some value) p.results eo)
          | inr ne ↦ elim (s.covered k below) [
            | written b f ↦
                written b
                  (get_elem?-set_elem_ne current k (some value) p.results (ground arith) ∙ f)
            | held j f ↦ held j (
                get_elem?-set_elem_other i j (waiting current) (waiting k) looping p.workers e
                  (λ same. ground arith) f)
            | lost j f ↦ lost j (
                get_elem?-set_elem_other i j (waiting current) (thrown k) looping p.workers e
                  (λ same. cc same) f)
          ]
        ];
        finished = λ j f.
            elim (set_elem-cases i j (waiting current) looping returned p.workers e f) [
              | inl (_, g) ↦ cc g
              | inr g ↦ s.finished j g
            ];
      }

  settle_none-IsSound :
      (p : Pool B) (i current : ℕ)
      → get_elem? p.workers i ≡ some (waiting current)
      → IsSound p
      → IsSound (record p { workers = set_elem i (thrown current) p.workers })
  settle_none-IsSound p i current e s = record {
    size = s.size;
    bounded = s.bounded;
    sound = s.sound;
    begun = λ j k f.
        elim (set_elem-cases i j (waiting current) (thrown current) (waiting k) p.workers e f) [
          | inl (_, g) ↦ cc g
          | inr g ↦ s.begun j k g
        ];
    covered = λ k below. elim (Bool-cases (k == current)) [
      | inl same ↦ lost i (
          get_elem?-set_elem_self i (waiting current) (thrown current) p.workers e
          ∙ ap (λ n. some (thrown n)) (sym ((==_iff k current).0 same)))
      | inr ne ↦ elim (s.covered k below) [
        | written b f ↦ written b f
        | held j f ↦ held j (
            get_elem?-set_elem_other i j (waiting current) (waiting k) (thrown current) p.workers e
              (λ same. ground arith) f)
        | lost j f ↦ lost j (
            get_elem?-set_elem_other i j (waiting current) (thrown k) (thrown current) p.workers e
              (λ same. cc same) f)
      ]
    ];
    finished = λ j f.
        elim (set_elem-cases i j (waiting current) (thrown current) returned p.workers e f) [
          | inl (_, g) ↦ cc g
          | inr g ↦ s.finished j g
        ];
  }

  settle-IsSound :
      (p : Pool B) (i current : ℕ) (outcome : Option B)
      → get_elem? p.workers i ≡ some (waiting current)
      → mapped items mapper current ≡ outcome
      → IsSound p
      → IsSound (settle items mapper i current outcome p)
  unfolding settle
  settle-IsSound p i current none e m s = settle_none-IsSound p i current e s
  settle-IsSound p i current (some value) e m s = settle_some-IsSound p i current value e m s

  step-IsSound : (p q : Pool B) → Step items mapper p q → IsSound p → IsSound q
  step-IsSound p q (take i e h) s = take-IsSound p i e h s
  step-IsSound p q (quit i e h) s = quit-IsSound p i e h s
  step-IsSound p q (settled i current e) s =
      settle-IsSound p i current (mapped items mapper current) e refl s

  pub Reaches-IsSound :
      (limit steps : ℕ) (p : Pool B) → Reaches items mapper limit steps p → IsSound p
  Reaches-IsSound limit _ p start = pool_start-IsSound limit
  Reaches-IsSound limit _ q (later {p} {steps = steps} r step) =
      step-IsSound p q step (Reaches-IsSound limit steps p r)

  length-workers-settle :
      (p : Pool B) (i current : ℕ) (outcome : Option B)
      → length (settle items mapper i current outcome p).workers ≡ length p.workers
  unfolding settle
  length-workers-settle p i current none = length-set_elem i (thrown current) p.workers
  length-workers-settle p i current (some value) = length-set_elem i looping p.workers

  pub step-length : (p q : Pool B) → Step items mapper p q → length q.workers ≡ length p.workers
  step-length p q (take i e h) = length-set_elem i (waiting p.cursor) p.workers
  step-length p q (quit i e h) = length-set_elem i returned p.workers
  step-length p q (settled i current e) =
      length-workers-settle p i current (mapped items mapper current)

  pub Reaches-length :
      (limit steps : ℕ) (p : Pool B)
      → Reaches items mapper limit steps p
      → length p.workers ≡ min limit (length items)
  unfolding pool_start
  Reaches-length limit _ p start = length-replicate (min limit (length items)) looping
  Reaches-length limit _ q (later {p} {steps = steps} r step) =
      step-length p q step ∙ Reaches-length limit steps p r

  all_returned :
      (ws : List Worker) (i : ℕ) (w : Worker)
      → All (λ w. w ≡ returned) ws
      → get_elem? ws i ≡ some w
      → w ≡ returned
  all_returned [] i w h e = cc e
  all_returned (x ∷ ws) zero w (h, _) e = cc (e, h)
  all_returned (x ∷ ws) (suc i) w (_, h) e = all_returned ws i w h e

  first_worker :
      (ws : List Worker)
      → 0 < length ws
      → All (λ w. w ≡ returned) ws
      → get_elem? ws 0 ≡ some returned
  first_worker [] h k = absurd (omega arith)
  first_worker (w ∷ ws) h (e, _) = ap some e

  covered_value :
      (p : Pool B) (k : ℕ)
      → All (λ w. w ≡ returned) p.workers
      → IsCovered p k
      → (b : B) × (get_elem? p.results k ≡ some (some b))
  covered_value p k h (written b e) = (b, e)
  covered_value p k h (held i e) = cc (all_returned p.workers i (waiting k) h e)
  covered_value p k h (lost i e) = cc (all_returned p.workers i (thrown k) h e)

  values_of :
      (rs : List (Option B))
      → ((k : ℕ) → k < length rs → (b : B) × (get_elem? rs k ≡ some (some b)))
      → (values : List B) × (rs ≡ map some values)
  values_of [] h = ([], refl)
  values_of (r ∷ rs) h =
      let (b, e) = h 0 (omega arith) in
      let (values, f) = values_of rs (λ k below. h (suc k) (omega (arith, below))) in
      (b ∷ values, cc (e, f))

  some_of_map :
      (values : List B) (k : ℕ) (b : B)
      → get_elem? (map some values) k ≡ some (some b)
      → get_elem? values k ≡ some b
  some_of_map [] k b e = cc e
  some_of_map (v ∷ values) zero b e = cc e
  some_of_map (v ∷ values) (suc k) b e = some_of_map values k b e

  -- The values of the mapper, in the order of the items.
  pub record IsMapped (p : Pool B) : Type 0 where
    pub values : List B
    pub results : p.results ≡ map some values
    pub size : length values ≡ length items
    pub each : (k : ℕ) → k < length items → get_elem? values k ≡ mapped items mapper k

  -- However the calls of the mapper interleave: when all workers have returned, every call has given
  -- a value, and the results are these values, in the order of the items.
  pub map_with_concurrency-IsMapped :
      (limit steps : ℕ) (p : Pool B)
      → 0 < limit
      → Reaches items mapper limit steps p
      → All (λ w. w ≡ returned) p.workers
      → IsMapped p
  map_with_concurrency-IsMapped limit steps p positive r h =
      let s = Reaches-IsSound limit steps p r in
      let workers = Reaches-length limit steps p r in
      let over : (k : ℕ) → k < length items → k < p.cursor = λ k below.
        let none_left =
          s.finished 0 (first_worker p.workers (omega (arith, workers, below, positive)) h) in
        omega (arith, below, none_left) in
      let value =
        λ (k : ℕ) (below : k < length items). covered_value p k h (s.covered k (over k below)) in
      let (values, e) = values_of p.results (λ k below. value k (omega (arith, below, s.size))) in
      record {
        values = values;
        results = e;
        size = sym (length-map some values) ∙ ap length (sym e) ∙ s.size;
        each = λ k below.
            let (b, f) = value k below in
            some_of_map values k b (ap (λ rs. get_elem? rs k) (sym e) ∙ f) ∙ sym (s.sound k b f);
      }
