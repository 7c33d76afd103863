-- ===== src/Store/Refinement.antt =====
-- What the store promises, as a function of the jobs saved so far: under an id, the newest job saved
-- under it, as long as fewer than 30 other ids have been saved since.
use cvranking.Prelude.{
  ℕ, zero, suc, ◌-◌, ◌≡◌, refl, sym, ap, ◌∙◌, Bool, true, false, not, ◌||◌, Option, none, some,
  List, [], ◌∷◌, take, select, length, arith, Has, Distinct, Bool-cases, inl, inr, ltb,
  if◌then◌else◌,
}
use cvranking.Js.Text.{Text, text_eq, text_eq_iff}
use cvranking.Host.{Host, World}
use cvranking.Store.Types.{StoredJob}
use cvranking.Store.{find_job, with_job, save_job, get_job}
use cvranking.Store.Laws.{ids, others, not-Has-others, Distinct-ids-select, Has-ids-take}
use cvranking.Store.Persistence.{jobs_of, jobs_of-save_job, get_job-jobs_of}

abbrev pub known : Text → List Text → Bool
known id [] = false
known id (other ∷ rest) = text_eq other id || known id rest

abbrev with_id : Text → List Text → List Text
with_id id seen = if known id seen then seen else id ∷ seen

-- The newest save of an id in a history, newest first, where `seen` are the ids saved later.
abbrev pub newest : List Text → Text → List StoredJob → Option StoredJob
newest seen id [] = none
newest seen id (job ∷ older) =
    let rest = newest (with_id job.id seen) id older in
    if text_eq job.id id then if ltb (length seen) 30 then some job else none else rest

-- The jobs of a history without the superseded ones.
latest : List StoredJob → List StoredJob
latest [] = []
latest (job ∷ older) = job ∷ others job.id (latest older)

latest-Distinct : (history : List StoredJob) → Distinct (ids (latest history))
unfolding latest
latest-Distinct [] = tt
latest-Distinct (job ∷ older) = (
  not-Has-others job.id (latest older),
  Distinct-ids-select _ (latest older) (latest-Distinct older),
)

others_absent : (id : Text) (jobs : List StoredJob) → ¬ Has id (ids jobs) → others id jobs ≡ jobs
others_absent id [] h = refl
others_absent id (job ∷ jobs) h = ground (arith, text_eq_iff job.id id, others_absent id jobs)

take-take : (n : ℕ) (jobs : List StoredJob) → take n (take n jobs) ≡ take n jobs
take-take zero jobs = refl
take-take (suc n) [] = refl
take-take (suc n) (job ∷ jobs) = ap (◌∷◌ job) (take-take n jobs)

-- One job more than is kept makes up for the job that a save removes.
take-others-take :
    (n : ℕ) (id : Text) (jobs : List StoredJob)
    → Distinct (ids jobs)
    → take n (others id (take (suc n) jobs)) ≡ take n (others id jobs)
take-others-take zero id jobs d = refl
take-others-take (suc n) id [] d = refl
take-others-take (suc n) id (job ∷ jobs) (m, d) = elim (Bool-cases (text_eq job.id id)) [
  | inl e ↦
      let absent : ¬ Has id (ids jobs) = ground (arith, text_eq_iff job.id id) in
      rw
        (
          e,
          others_absent id jobs absent,
          others_absent id (take (suc n) jobs) (λ h. absent (Has-ids-take (suc n) id jobs h)),
        )
        (take-take (suc n) jobs)
  | inr e ↦ rw e (ap (◌∷◌ job) (take-others-take n id jobs d))
]

with_job-latest :
    (job : StoredJob) (older : List StoredJob)
    → with_job job (take 30 (latest older)) ≡ take 30 (latest (job ∷ older))
unfolding with_job latest
with_job-latest job older =
    ap (◌∷◌ job) (take-others-take 29 job.id (latest older) (latest-Distinct older))

-- The jobs whose ids are not among those given.
unseen : List Text → List StoredJob → List StoredJob
unseen seen jobs = select (λ job. not (known job.id seen)) jobs

unseen-cons :
    (id : Text) (seen : List Text) (jobs : List StoredJob)
    → unseen (id ∷ seen) jobs ≡ unseen seen (others id jobs)
unfolding unseen
unseen-cons id seen [] = refl
unseen-cons id seen (job ∷ jobs) =
    ground (arith, unseen-cons id seen jobs, text_eq_iff id job.id, text_eq_iff job.id id)

known_eq : (a b : Text) (seen : List Text) → a ≡ b → known a seen ≡ known b seen
known_eq a b seen e = ap (λ id. known id seen) e

unseen-known :
    (id : Text) (seen : List Text) (jobs : List StoredJob)
    → known id seen ≡ true
    → unseen seen (others id jobs) ≡ unseen seen jobs
unfolding unseen
unseen-known id seen [] h = refl
unseen-known id seen (job ∷ jobs) h =
    ground (arith, unseen-known id seen jobs h, text_eq_iff job.id id, known_eq job.id id seen)

find_job-take :
    (n : ℕ) (id : Text) (job : StoredJob) (jobs : List StoredJob)
    → find_job id (take n (job ∷ jobs)) ≡ (
        if text_eq job.id id
        then if ltb 0 n then some job else none
        else find_job id (take (n - 1) jobs))
unfolding find_job
find_job-take zero id job jobs = ground arith
find_job-take (suc n) id job jobs = ground arith

room_eq : (n : ℕ) → ltb 0 (30 - n) ≡ ltb n 30
room_eq n = ground arith

less_room : (n : ℕ) → 30 - n - 1 ≡ 30 - suc n
less_room n = omega arith

find_job-nil : (n : ℕ) (id : Text) → find_job id (take n []) ≡ none
unfolding find_job
find_job-nil zero id = refl
find_job-nil (suc n) id = refl

unseen-nil : (jobs : List StoredJob) → unseen [] jobs ≡ jobs
unfolding unseen
unseen-nil [] = refl
unseen-nil (job ∷ jobs) = ap (◌∷◌ job) (unseen-nil jobs)

find_job-unseen :
    (seen : List Text) (id : Text) (history : List StoredJob)
    → known id seen ≡ false
    → find_job id (take (30 - length seen) (unseen seen (latest history))) ≡ newest seen id history
unfolding unseen latest
find_job-unseen seen id [] h = find_job-nil (30 - length seen) id
find_job-unseen seen id (job ∷ older) h = elim (Bool-cases (known job.id seen)) [
  | inl e ↦
      let other : text_eq job.id id ≡ false =
        ground (arith, text_eq_iff job.id id, known_eq job.id id seen) in
      rw (e, other, unseen-known job.id seen (latest older) e) (find_job-unseen seen id older h)
  | inr e ↦
      let rest = find_job-unseen (job.id ∷ seen) id older in
      rw
        (
          e,
          ← unseen-cons job.id seen (latest older),
          find_job-take (30 - length seen) id job (unseen (job.id ∷ seen) (latest older)),
          room_eq (length seen),
          less_room (length seen),
        )
        (ground (arith, rest))
]

module _ (host : Host) where
  -- The saves of a history, the oldest of them first.
  abbrev pub save_all : List StoredJob → World → World
  save_all [] w = w
  save_all (job ∷ older) w = save_job host job (save_all older w)

  jobs_of-save_all :
      (history : List StoredJob) (w : World)
      → jobs_of host w ≡ []
      → jobs_of host (save_all history w) ≡ take 30 (latest history)
  unfolding latest
  jobs_of-save_all [] w e = e
  jobs_of-save_all (job ∷ older) w e =
      rw (jobs_of-save_job host job (save_all older w), jobs_of-save_all older w e)
        (with_job-latest job older)

  -- Over an empty store, whatever was saved and whatever happens on disk: under an id, the newest job
  -- saved under it is found, as long as fewer than 30 other ids have been saved since, and else no job.
  pub get_job-save_all :
      (history : List StoredJob) (w : World) (id : Text)
      → jobs_of host w ≡ []
      → (get_job host id (save_all history w)).0 ≡ newest [] id history
  get_job-save_all history w id e =
      get_job-jobs_of host id (save_all history w)
      ∙ ap (find_job id) (jobs_of-save_all history w e)
      ∙ ap (λ jobs. find_job id (take 30 jobs)) (sym (unseen-nil (latest history)))
      ∙ find_job-unseen [] id history refl
