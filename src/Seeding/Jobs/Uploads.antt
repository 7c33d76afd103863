-- ===== src/Seeding/Jobs/Uploads.antt =====
-- `seedJob` brings all its files to the job, against the limit of 50 files that the route has.
use mathlib.Core.List.{append_assoc}
use cvranking.Prelude.{
  ◌++◌, length-append, ℕ, zero, suc, ◌+◌, ◌-◌, ◌≤◌, ◌<◌, min, ◌≡◌, refl, sym, ap, ◌∙◌, true,
  Bool-cases, inl, inr, Option, some, List, [], ◌∷◌, map, length, length-map, get_elem?,
  get_elem?-in, count_from, all_some, ltb, ltb→lt, arith,
}
use cvranking.Js.Text.{Text, text_eq, units, trim}
use cvranking.Host.{Host, World}
use cvranking.Host.Action.{ok}
use cvranking.Pages.Requests.{form_value}
use cvranking.Routes.{
  post_route, dispatch, action_of, answer_of, Body, uploaded, upload_action, count_ready,
}
use cvranking.Routes.Laws.{IsUploaded, upload_action-IsUploaded}
use cvranking.Store.{get_job}
use cvranking.Store.Laws.{find_job-id}
use cvranking.Store.Persistence.{jobs_of, get_job-jobs_of}
use cvranking.Store.Types.{StoredCv, StoredJob}
use cvranking.Upload.{UploadResponse}
use cvranking.Seeding.Candidates.{CandidateFile}
use cvranking.Seeding.Jobs.{
  Outcome, form_payload, post_form, to_upload, upload_form, batch_files, post_batch, upload_batch,
  accepted_of, upload_batches,
}

-- Indices in range have files.
read_range :
    (files : List CandidateFile) (start n : ℕ)
    → start + n ≤ length files
    → (read : List CandidateFile) × (all_some (map (get_elem? files) (count_from start n))
        ≡ some read)
      × (length read ≡ n)
read_range files start zero h = ([], refl, refl)
read_range files start (suc n) h =
    let (file, e) = get_elem?-in files start (omega (arith, h)) in
    let (read, f, g) = read_range files (suc start) n (omega (arith, h)) in
    (file ∷ read, rw (e, f) refl, ap suc g)

module _ (host : Host) (text_of : Text → Option Text) where
  -- A request to upload gets the answer of the action, under the trimmed id.
  post_upload :
      (job_id : Text) (files : List cvranking.Host.UploadedFile) (w : World)
      → trim (form_value job_id) ≡ job_id
      → post_route host (upload_form host text_of job_id files) w
        ≡ (answer_of (upload_action host job_id files w).0, (upload_action host job_id files w).1)
  unfolding post_route dispatch action_of upload_form form_value text_eq units
  post_upload job_id files w e = rw e refl

  stored-id :
      (id : Text) (w : World) (job : StoredJob) → (get_job host id w).0 ≡ some job → job.id ≡ id
  stored-id id w job e = find_job-id id (jobs_of host w) job (sym (get_job-jobs_of host id w) ∙ e)

  -- What the loop leaves: it has returned, and the job has a new CV for each file in front of its own.
  pub record IsSeeded (job_id : Text) (job : StoredJob) (more accepted : ℕ)
      (result : Option (Outcome ℕ)) : Type 0 where
    pub total : ℕ
    pub world : World
    pub updated : StoredJob
    pub returned : result ≡ some (ok total, world)
    pub stored : (get_job host job_id world).0 ≡ some updated
    pub added : List StoredCv
    pub cvs : updated.cvs ≡ added ++ job.cvs
    pub files : length added ≡ more
    pub counted : count_ready updated.cvs + accepted ≡ count_ready job.cvs + total
    pub requirements : updated.requirements ≡ job.requirements

  -- A batch whose files are there is answered as the action answers.
  upload_batch_lem :
      (job_id : Text) (start stop : ℕ) (files batch : List CandidateFile) (job : StoredJob)
      (w : World)
      → trim (form_value job_id) ≡ job_id
      → batch_files host text_of start stop files ≡ some batch
      → (u : IsUploaded host
          (map (to_upload host text_of) batch)
          job
          (upload_action host job_id (map (to_upload host text_of) batch) w))
      → upload_batch host text_of job_id start stop files w ≡ (
        ok (uploaded u.updated u.upload),
        (upload_action host job_id (map (to_upload host text_of) batch) w).1,
      )
  unfolding upload_batch post_batch post_form answer_of form_payload
  upload_batch_lem job_id start stop files batch job w t read u =
      rw (read, post_upload job_id (map (to_upload host text_of) batch) w t, u.answered) refl

  -- The files of one more batch, and then those of the rest.
  IsSeeded-after :
      (job_id : Text) (job next : StoredJob) (fresh : List StoredCv)
      (sent more accepted new left : ℕ) (whole result : Option (Outcome ℕ))
      → whole ≡ result
      → left ≡ sent + more
      → next.cvs ≡ fresh ++ job.cvs
      → length fresh ≡ sent
      → count_ready next.cvs ≡ count_ready job.cvs + new
      → next.requirements ≡ job.requirements
      → IsSeeded job_id next more (accepted + new) result
      → IsSeeded job_id job left accepted whole
  IsSeeded-after job_id job next fresh sent more accepted new left whole result e split cvs files
        counted requirements s =
      record {
        total = s.total;
        world = s.world;
        updated = s.updated;
        returned = e ∙ s.returned;
        stored = s.stored;
        added = s.added ++ fresh;
        cvs = s.cvs ∙ ap (◌++◌ s.added) cvs ∙ sym (append_assoc s.added fresh job.cvs);
        files = omega (arith, length-append s.added fresh, s.files, files, split);
        counted = omega (arith, s.counted, counted);
        requirements = s.requirements ∙ requirements;
      }

  upload_batches_next :
      (fuel : ℕ) (job_id : Text) (start accepted : ℕ) (files : List CandidateFile) (w w' : World)
      (updated : StoredJob) (upload : UploadResponse)
      → ltb start (length files) ≡ true
      → upload_batch host text_of job_id start (min (start + 50) (length files)) files w
        ≡ (ok (uploaded updated upload), w')
      → upload_batches host text_of (suc fuel) job_id start accepted files w
        ≡ upload_batches host text_of fuel job_id (start + 50) (accepted + upload.accepted) files w'
  unfolding upload_batches accepted_of
  upload_batches_next fuel job_id start accepted files w w' updated upload more step =
      rw (more, step, upload_batches)
        (ap
          (λ (sent : Outcome Body).
            upload_batches host text_of fuel job_id (start + 50) (accepted + upload.accepted) files
              sent.1)
          step)

  upload_batches-IsSeeded :
      (fuel : ℕ) (job_id : Text) (start accepted : ℕ) (files : List CandidateFile) (job : StoredJob)
      (w : World)
      → trim (form_value job_id) ≡ job_id
      → (get_job host job_id w).0 ≡ some job
      → length files < start + fuel
      → 0 < fuel
      → IsSeeded job_id job
          (length files - start)
          accepted
          (upload_batches host text_of fuel job_id start accepted files w)
  unfolding upload_batches accepted_of
  upload_batches-IsSeeded zero job_id start accepted files job w t found h p =
      absurd (omega (arith, p))
  upload_batches-IsSeeded (suc fuel) job_id start accepted files job w t found h p =
      elim (Bool-cases (ltb start (length files))) [
        | inr done ↦
            let none_left : length files - start ≡ 0 = ground arith in
            rw (done, none_left, upload_batches)
              (record {
                total = accepted;
                world = w;
                updated = job;
                returned = refl;
                stored = found;
                added = [];
                cvs = refl;
                files = omega arith;
                counted = omega arith;
                requirements = refl;
              })
        | inl more ↦
            let stop = min (start + 50) (length files) in
            let before = ltb→lt start (length files) more in
            let (batch, read, size) =
              read_range files start (stop - start) (omega (arith, before)) in
            let sent = map (to_upload host text_of) batch in
            let size' : length sent ≡ stop - start =
              length-map (to_upload host text_of) batch ∙ size in
            let u =
              upload_action-IsUploaded host job_id sent w job found (omega (arith, size', before))
                (omega (arith, size')) in
            let sent_all : length files - start ≡ length sent + (length files - (start + 50)) =
              omega (arith, size', before) in
            let fresh_all : length u.fresh ≡ length sent =
              omega (arith, u.total, ap length u.cvs, length-append u.fresh job.cvs) in
            let step =
              upload_batch_lem job_id start stop files batch job w t (unfold batch_files in read)
                u in
            let saved : (get_job host job_id (upload_action host job_id sent w).1).0
                ≡ some u.updated =
              ap (λ id. (get_job host id (upload_action host job_id sent w).1).0)
                (sym (stored-id job_id w job found))
              ∙ u.saved in
            IsSeeded-after job_id job u.updated u.fresh (length sent) (length files - (start + 50))
              accepted u.upload.accepted (length files - start) _ _
              (upload_batches_next fuel job_id start accepted files w _ u.updated u.upload more
                step)
              sent_all u.cvs fresh_all (sym u.counted ∙ u.accepted) u.requirements
              (upload_batches-IsSeeded fuel job_id (start + 50) (accepted + u.upload.accepted) files
                u.updated _ t saved (omega (arith, h)) (omega (arith, h, before)))
      ]

  -- `seedJob` uploads the files in batches that the route accepts: when the job is stored under an id
  -- that is read as it is sent, no request is refused, and in the end the stored job has as many new CVs
  -- as there are files, in front of those it had, and as many more of them are ready as were counted as
  -- accepted.
  pub upload_batches-all :
      (job_id : Text) (files : List CandidateFile) (job : StoredJob) (w : World)
      → trim (form_value job_id) ≡ job_id
      → (get_job host job_id w).0 ≡ some job
      → IsSeeded job_id job
          (length files)
          0
          (upload_batches host text_of (suc (length files)) job_id 0 0 files w)
  upload_batches-all job_id files job w t found =
      let all : length files - 0 ≡ length files = omega arith in
      mathlib.Core.Path.subst
        (λ n.
          IsSeeded job_id job n 0
            (upload_batches host text_of (suc (length files)) job_id 0 0 files w))
        all
        (upload_batches-IsSeeded (suc (length files)) job_id 0 0 files job w t found (omega arith)
          (omega arith))
