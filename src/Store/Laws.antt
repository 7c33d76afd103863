-- ===== src/Store/Laws.antt =====
-- The list of jobs that the store keeps.
use cvranking.Prelude.{
  ℕ, zero, suc, ◌≤◌, ◌<◌, ◌≡◌, ◌≢◌, refl, sym, ap, ◌∙◌, Bool, not, some, List, [], ◌∷◌, map, take,
  select, length, length-take, length-select-le, arith, Has, Distinct, Bool-cases, inl, inr,
  take_all,
}
use mathlib.Core.Option
use cvranking.Js.Text.{Text, text_eq, text_eq_iff, text_eq_refl}
use cvranking.Store.Types.{StoredJob}
use cvranking.Store.{strip_job, find_job, with_job}

abbrev pub ids : List StoredJob → List Text
ids jobs = map (λ job. job.id) jobs

-- No two jobs share an id, and there are 30 at most.
pub record IsValid (jobs : List StoredJob) : Type 0 where
  pub distinct : Distinct (ids jobs)
  pub bounded : length jobs ≤ 30

abbrev pub others : Text → List StoredJob → List StoredJob
others id jobs = select (λ item. not (text_eq item.id id)) jobs

pub not-Has-others : (id : Text) (jobs : List StoredJob) → ¬ Has id (ids (others id jobs))
not-Has-others id [] h = h
not-Has-others id (job ∷ jobs) h = ground (arith, text_eq_iff job.id id, not-Has-others id jobs)

Has-ids-select :
    (p : StoredJob → Bool) (id : Text) (jobs : List StoredJob)
    → Has id (ids (select p jobs))
    → Has id (ids jobs)
Has-ids-select p id [] h = h
Has-ids-select p id (job ∷ jobs) h = ground (arith, Has-ids-select p id jobs)

pub Distinct-ids-select :
    (p : StoredJob → Bool) (jobs : List StoredJob)
    → Distinct (ids jobs)
    → Distinct (ids (select p jobs))
Distinct-ids-select p [] h = tt
Distinct-ids-select p (job ∷ jobs) (n, h) = elim (Bool-cases (p job)) [
  | inl e ↦ rw e ((λ has. n (Has-ids-select p job.id jobs has)), Distinct-ids-select p jobs h)
  | inr e ↦ rw e (Distinct-ids-select p jobs h)
]

pub Has-ids-take :
    (n : ℕ) (id : Text) (jobs : List StoredJob) → Has id (ids (take n jobs)) → Has id (ids jobs)
Has-ids-take zero id jobs h = absurd h
Has-ids-take (suc n) id [] h = h
Has-ids-take (suc n) id (job ∷ jobs) (inl e) = inl e
Has-ids-take (suc n) id (job ∷ jobs) (inr h) = inr (Has-ids-take n id jobs h)

Distinct-ids-take :
    (n : ℕ) (jobs : List StoredJob) → Distinct (ids jobs) → Distinct (ids (take n jobs))
Distinct-ids-take zero jobs h = tt
Distinct-ids-take (suc n) [] h = tt
Distinct-ids-take (suc n) (job ∷ jobs) (m, h) =
    ((λ has. m (Has-ids-take n job.id jobs has)), Distinct-ids-take n jobs h)

pub with_job-IsValid :
    (job : StoredJob) (jobs : List StoredJob) → IsValid jobs → IsValid (with_job job jobs)
unfolding with_job
with_job-IsValid job jobs v = record {
  distinct =
      Distinct-ids-take 30 (job ∷ others job.id jobs)
        (not-Has-others job.id jobs, Distinct-ids-select _ jobs v.distinct);
  bounded = omega (arith, length-take 30 (job ∷ others job.id jobs));
}

pub find_job-with_job_self :
    (job : StoredJob) (jobs : List StoredJob) → find_job job.id (with_job job jobs) ≡ some job
unfolding find_job with_job
find_job-with_job_self job jobs = rw (text_eq_refl job.id)

pub find_job-id :
    (id : Text) (jobs : List StoredJob) (job : StoredJob)
    → find_job id jobs ≡ some job
    → job.id ≡ id
unfolding find_job
find_job-id id [] job e = cc e
find_job-id id (first ∷ jobs) job e = elim (Bool-cases (text_eq first.id id)) [
  | inl f ↦
      let same : first ≡ job = cc (rw f at e) in
      ap (λ (j : StoredJob). j.id) (sym same) ∙ (text_eq_iff first.id id).0 f
  | inr f ↦ find_job-id id jobs job (rw f at e)
]

find_job-others :
    (id other : Text) (jobs : List StoredJob)
    → id ≢ other
    → find_job other (others id jobs) ≡ find_job other jobs
unfolding find_job
find_job-others id other [] h = refl
find_job-others id other (job ∷ jobs) h =
    ground (arith, text_eq_iff job.id id, text_eq_iff job.id other, find_job-others id other jobs h)

find_job-cons_ne :
    (job : StoredJob) (jobs : List StoredJob) (other : Text)
    → job.id ≢ other
    → find_job other (job ∷ jobs) ≡ find_job other jobs
unfolding find_job
find_job-cons_ne job jobs other h = ground (arith, text_eq_iff job.id other)

-- While there is room, saving a job leaves what is found under another id.
pub find_job-with_job_ne :
    (job : StoredJob) (jobs : List StoredJob) (other : Text)
    → job.id ≢ other
    → length jobs < 30
    → find_job other (with_job job jobs) ≡ find_job other jobs
unfolding with_job
find_job-with_job_ne job jobs other h room =
    rw
      (take_all 30 (job ∷ others job.id jobs)
        (omega (arith, length-select-le (λ (item : StoredJob). not (text_eq item.id job.id)) jobs)))
      (find_job-cons_ne job (others job.id jobs) other h ∙ find_job-others job.id other jobs h)

pub find_job-strip :
    (id : Text) (jobs : List StoredJob)
    → find_job id (map strip_job jobs) ≡ Option.map strip_job (find_job id jobs)
unfolding find_job strip_job
find_job-strip id [] = refl
find_job-strip id (job ∷ jobs) = ground (arith, find_job-strip id jobs)
