-- ===== src/Pages/Shell/Workspace/Settling.antt =====
-- How seeding the workspace ends.
use cvranking.Prelude.{
  ℕ, suc, ◌≡◌, refl, ap, ◌++◌, false, Option, none, some, List, [], ◌∷◌, length,
}
use cvranking.Js.Text.{Text, units}
use cvranking.Host.{Host, World, UploadedFile}
use cvranking.Host.Action.{Thrown, Result, ok, throw, Action, continue}
use cvranking.Host.Keeps.{Keeps, Keeps-lift, Keeps-bind}
use cvranking.Pages.Requests.{job_of, problem_message}
use cvranking.Pages.Shell.{Shell, shell_form, begin_tool, import_form, fail_tool, end_tool}
use cvranking.Pages.Shell.Workspace.{
  JobFixture, FixtureSet, Fixtures, value_of, fetch_files, job_or_error, submit, create_form,
  rank_form, seed_set, set_status, seed_sets, seed_manifest, seed_finish, seed_workspace,
}
use cvranking.Routes.{Body, Form}
use cvranking.Routes.Validity.{post_route-WorldIsValid}
use cvranking.Store.Persistence.{WorldIsValid}
use cvranking.Store.Types.{StoredJob}

-- What holds whether there is a result or a throw.
on_result_of :
    {A X : Type 0} (P : X → Type 0) (r : Result A) (f : A → X) (g : Thrown → X)
    → ((a : A) → r ≡ ok a → P (f a))
    → ((e : Thrown) → r ≡ throw e → P (g e))
    → P (elim r [ ok a ↦ f a | throw e ↦ g e ])
on_result_of P (ok a) f g h k = h a refl
on_result_of P (throw e) f g h k = k e refl

-- What is shown and where the browser is, by what was thrown, if anything.
abbrev pub error_after : Option Thrown → Text
error_after none = []
error_after (some e) = problem_message e

abbrev pub location_after : Option Thrown → Option Text → Option Text
location_after none location = some (units "/jobs")
location_after (some e) location = location

-- What holds of an action that has not thrown, by what its first part has returned.
continue-ok :
    {A B : Type 0} (P : Result B × World → Type 0) (r : Result A) (f : A → Action B) (w : World)
    (b : B)
    → (continue r f w).0 ≡ ok b
    → ((a : A) → r ≡ ok a → (f a w).0 ≡ ok b → P (f a w))
    → P (continue r f w)
continue-ok P (ok a) f w b e k = k a refl e
continue-ok P (throw t) f w b e k = absurd (cc e)

pair-ok : {B : Type 0} (out : Result B × World) (b : B) → out.0 ≡ ok b → out ≡ (ok b, out.1)
pair-ok (r, w) b e = ap (λ r. (r, w)) e

module _ (host : Host) (fixtures : Fixtures) where
  -- A set is seeded: its job is created, its CVs are uploaded to it, and it is ranked, and the server has
  -- answered each of these with success.
  pub record IsSeededSet (set : FixtureSet) (w w' : World) : Type 0 where
    pub config : JobFixture
    pub files : List UploadedFile
    pub created_body : Body
    pub job : StoredJob
    pub uploaded_body : Body
    pub ranked_body : Body
    pub loaded :
        value_of fixtures.json_error
          (units "Không tải được JD " ++ (set.name ++ units "."))
          (fixtures.job_config set.job_config_path)
        ≡ ok config
    pub created : (submit host (create_form config) w).0 ≡ ok created_body
    pub fetched : fetch_files fixtures set.cvs ≡ ok files
    pub is_job : job_of created_body ≡ some job
    pub uploaded :
        (submit host (import_form job.id files) (submit host (create_form config) w).1).0
        ≡ ok uploaded_body
    pub ranking :
        submit host
          (rank_form job.id)
          (submit host (import_form job.id files) (submit host (create_form config) w).1).1
        ≡ (ok ranked_body, w')

  -- The sets are seeded one after the other: all of them, or up to the first that throws.
  pub data SeedRun : List FixtureSet → World → Option Thrown → World → Type 0 where
    all_seeded : (w : World) → SeedRun [] w none w
    set_seeded :
        (set : FixtureSet) (sets : List FixtureSet) (w w' w'' : World) (e : Option Thrown)
        → IsSeededSet set w w'
        → SeedRun sets w' e w''
        → SeedRun (set ∷ sets) w e w''
    set_failed :
        (set : FixtureSet) (sets : List FixtureSet) (w : World) (e : Thrown)
        → (seed_set host fixtures set w).0 ≡ throw e
        → SeedRun (set ∷ sets) w (some e) (seed_set host fixtures set w).1

  abbrev pub reset : World → Result Body × World
  reset w = submit host (shell_form (units "reset_store")) w

  -- The manifest is loaded, then the store is reset, then the sets are seeded; what throws ends it.
  pub data SeedOutcome (manifest : Result (List FixtureSet)) (w : World)
      : Option Thrown → World → Type 0 where
    no_manifest : (e : Thrown) → manifest ≡ throw e → SeedOutcome manifest w (some e) w
    reset_refused :
        (sets : List FixtureSet) (e : Thrown)
        → manifest ≡ ok sets
        → (reset w).0 ≡ throw e
        → SeedOutcome manifest w (some e) (reset w).1
    sets_run :
        (sets : List FixtureSet) (body : Body) (e : Option Thrown) (w' : World)
        → manifest ≡ ok sets
        → (reset w).0 ≡ ok body
        → SeedRun sets (reset w).1 e w'
        → SeedOutcome manifest w e w'

  -- The handler is over with an outcome, the store is valid, and the tools show what was thrown, or else
  -- the browser is sent to the jobs.
  pub record IsSettled (manifest : Result (List FixtureSet)) (before after : Shell) (w w' : World)
      : Type 0 where
    pub thrown : Option Thrown
    pub outcome : SeedOutcome manifest w thrown w'
    pub error : after.tool_error ≡ error_after thrown
    pub location : after.location ≡ location_after thrown before.location
    pub busy : after.tool_busy ≡ false
    pub valid : WorldIsValid w'

  submit-Keeps : (form : Form) → Keeps WorldIsValid (submit host form)
  unfolding submit
  submit-Keeps form = record { at = post_route-WorldIsValid host form }

  job_or_error-ok :
      (message : Text) (found : Option StoredJob) (job : StoredJob)
      → job_or_error message found ≡ ok job
      → found ≡ some job
  unfolding job_or_error
  job_or_error-ok message none job e = cc e
  job_or_error-ok message (some found) job e = cc e

  seed_set-IsSeededSet :
      (set : FixtureSet) (w : World) (body : Body)
      → (seed_set host fixtures set w).0 ≡ ok body
      → IsSeededSet set w (seed_set host fixtures set w).1
  unfolding seed_set
  seed_set-IsSeededSet set w body e =
      let P = λ (out : Result Body × World). IsSeededSet set w out.1 in
      continue-ok P _ _ _ body e (λ config loaded e.
        continue-ok P _ _ _ body e (λ created_body created e.
          continue-ok P _ _ _ body e (λ files fetched e. continue-ok P _ _ _ body e (λ job is_job e.
            continue-ok P _ _ _ body e (λ uploaded_body uploaded e. record {
              config = config;
              files = files;
              created_body = created_body;
              job = job;
              uploaded_body = uploaded_body;
              ranked_body = body;
              loaded = loaded;
              created = created;
              fetched = fetched;
              is_job = job_or_error-ok fixtures.type_error (job_of created_body) job is_job;
              uploaded = uploaded;
              ranking = pair-ok _ body e;
            })))))

  seed_set-Keeps : (set : FixtureSet) → Keeps WorldIsValid (seed_set host fixtures set)
  unfolding seed_set
  seed_set-Keeps set = Keeps-bind _ _ (Keeps-lift _) (λ job.
      Keeps-bind _ _ (submit-Keeps (create_form job)) (λ created.
        Keeps-bind _ _ (Keeps-lift (fetch_files fixtures set.cvs)) (λ files.
          Keeps-bind _ _ (Keeps-lift (job_or_error fixtures.type_error (job_of created))) (λ stored.
            Keeps-bind _ _ (submit-Keeps (import_form stored.id files))
              (λ _. submit-Keeps (rank_form stored.id))))))

  -- How a run of the sets ends, with a valid store.
  abbrev Runs : List FixtureSet → World → Option Thrown × World → Type 0
  Runs sets w (e, w') = SeedRun sets w e w' × WorldIsValid w'

  seed_sets-Runs :
      (index total : ℕ) (sets : List FixtureSet) (status : Text) (w : World)
      → WorldIsValid w
      → Runs sets w (seed_sets host fixtures index total sets status w).1
  unfolding seed_sets
  seed_sets-Runs index total [] status w h = (all_seeded w, h)
  seed_sets-Runs index total (set ∷ sets) status w h =
      let w' = (seed_set host fixtures set w).1 in
      let shown = set_status host fixtures index total set in
      let h' = (seed_set-Keeps set).at w h in
      on_result_of (λ (run : Text × (Option Thrown × World)). Runs (set ∷ sets) w run.1)
        (seed_set host fixtures set w).0
        (λ body. seed_sets host fixtures (suc index) total sets shown w')
        (λ e. (shown, (some e, w')))
        (λ body e.
          let (run, valid) = seed_sets-Runs (suc index) total sets shown w' h' in
          (set_seeded set sets w w' _ _ (seed_set-IsSeededSet set w body e) run, valid))
        (λ e thrown. (set_failed set sets w e thrown, h'))

  abbrev Ends : Result (List FixtureSet) → World → Option Thrown × World → Type 0
  Ends manifest w (e, w') = SeedOutcome manifest w e w' × WorldIsValid w'

  seed_manifest-Ends :
      (manifest : Result (List FixtureSet)) (status : Text) (w : World)
      → WorldIsValid w
      → Ends manifest w (seed_manifest host fixtures manifest status w).1
  unfolding seed_manifest
  seed_manifest-Ends (throw e) status w h = (no_manifest e refl, h)
  seed_manifest-Ends (ok sets) status w h =
      let w' = (reset w).1 in
      let h' = (submit-Keeps (shell_form (units "reset_store"))).at w h in
      on_result_of (λ (run : Text × (Option Thrown × World)). Ends (ok sets) w run.1) (reset w).0
        (λ body. seed_sets host fixtures 0 (length sets) sets status w')
        (λ e. (status, (some e, w')))
        (λ body cleared.
          let (run, valid) = seed_sets-Runs 0 (length sets) sets status w' h' in
          (sets_run sets body _ _ refl cleared run, valid))
        (λ e thrown. (reset_refused sets e refl thrown, h'))

  seed_finish-IsSettled :
      (manifest : Result (List FixtureSet)) (w : World) (run : Text × (Option Thrown × World))
      (before shell : Shell)
      → shell.tool_error ≡ []
      → shell.location ≡ before.location
      → Ends manifest w run.1
      → IsSettled manifest before
          (seed_finish host fixtures run shell).0
          w
          (seed_finish host fixtures run shell).1
  unfolding seed_finish fail_tool end_tool
  seed_finish-IsSettled manifest w (status, (some e, w')) before shell clear place (outcome, h) =
      record {
        thrown = some e;
        outcome = outcome;
        error = refl;
        location = place;
        busy = refl;
        valid = h;
      }
  seed_finish-IsSettled manifest w (status, (none, w')) before shell clear place (outcome, h) =
      record {
        thrown = none;
        outcome = outcome;
        error = clear;
        location = refl;
        busy = refl;
        valid = h;
      }

  -- Seeding the workspace ends with the tools no longer busy and with a valid store. Where the manifest
  -- cannot be loaded, the server is as before. Otherwise the store is reset first, and then the sets are
  -- seeded one after the other, each in the state that the one before has left, up to the end or to the
  -- first that throws. What is thrown is shown, and the browser stays where it is; where nothing is thrown,
  -- no error is shown and the browser is sent to the list of jobs.
  pub seed_workspace-IsSettled :
      (shell : Shell) (w : World)
      → WorldIsValid w
      → IsSettled
          (value_of fixtures.json_error (units "Không tải được bộ dữ liệu mẫu.") fixtures.manifest)
          shell
          (seed_workspace host fixtures shell w).0
          w
          (seed_workspace host fixtures shell w).1
  unfolding seed_workspace begin_tool
  seed_workspace-IsSettled shell w h =
      seed_finish-IsSettled _ w _ shell (begin_tool _ shell) refl refl (seed_manifest-Ends _ _ w h)
