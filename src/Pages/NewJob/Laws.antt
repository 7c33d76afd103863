-- ===== src/Pages/NewJob/Laws.antt =====
-- What the page of a new job and the server reach together.
use cvranking.Prelude.{
  ◌+◌, min, List, ◌≤◌, ◌<◌, ◌≡◌, refl, true, false, none, some, [], ◌∷◌, ◌++◌, length, ltb, arith,
}
use cvranking.Js.Text.{Text, units, text_eq, trim, truthy, or_else}
use cvranking.Js.Text.Laws.{trim_idem}
use cvranking.Host.{Host, World, tick}
use cvranking.Host.Action.{ok}
use cvranking.Assistant.{post, history_of}
use cvranking.Assistant.Laws.{added_turns, IsAsked, IsEdited, post-IsEdited}
use cvranking.Assistant.Types.{
  AssistantHost, AssistantTurn, AssistantState, AssistantRequest, AssistantResponse,
}
use cvranking.Pages.NewJob.{
  NewJobPage, create_jd_start, create_jd_finish, open_job, send_create, create_jd, ask_start,
  ask_finish, take_reply, send_question, ask_jd_assistant,
}
use cvranking.Pages.Requests.{
  form_value, received, payload_of, payload_if, submit_demo_form, job_of,
}
use cvranking.Ranking.{create_job, parse_and_store, store_new_job, default_title, service_failure}
use cvranking.Routes.{
  Form, json, created, post_route, dispatch, action_of, create_action, answer_of,
}
use cvranking.Store.{get_job}
use cvranking.Store.Persistence.{get_job-save_job_self}
use cvranking.Store.Types.{StoredJob, JobParseResult}
use cvranking.Upload.{fetched_json}

-- The title and the description as the server reads them.
abbrev pub sent_title : NewJobPage → Text
sent_title page = trim (form_value (or_else (trim page.title) (units "Untitled role")))

abbrev pub sent_jd : NewJobPage → Text
sent_jd page = trim (form_value (trim page.jd))

-- The server has stored a new job with the description and what was parsed from it.
pub record IsNewJob (host : Host) (its_title its_text : Text) (parsed : JobParseResult)
    (job : StoredJob) (w : World) : Type 0 where
  pub title : job.title ≡ or_else its_title default_title
  pub description : job.description ≡ its_text
  pub requirements : job.requirements ≡ parsed.requirements
  pub cvs : job.cvs ≡ []
  pub saved : (get_job host job.id w).0 ≡ some job

module _ (host : Host) where
  store_new_job-IsNewJob :
      (title description : Text) (parsed : JobParseResult) (w : World)
      → (job : StoredJob) × ((store_new_job host title description parsed w).0 ≡ ok job)
        × IsNewJob host title description parsed job
            (store_new_job host title description parsed w).1
  unfolding store_new_job
  store_new_job-IsNewJob title description parsed w = (
    _,
    refl,
    record {
      title = refl;
      description = refl;
      requirements = refl;
      cvs = refl;
      saved = get_job-save_job_self host _ _;
    },
  )

  -- The service parses the description when it is asked.
  abbrev pub Parses : (title description : Text) → JobParseResult → World → Type 0
  Parses title description parsed w =
      fetched_json host service_failure
        (host.parse_job w.calls (or_else title default_title) description)
      ≡ ok parsed

  create_action-IsNewJob :
      (title description : Text) (parsed : JobParseResult) (w : World)
      → 20 ≤ length description
      → Parses title description parsed w
      → (job : StoredJob) × ((create_action host title description w).0 ≡ ok (json (created job)))
        × IsNewJob host title description parsed job (create_action host title description w).1
  unfolding create_action create_job parse_and_store
  create_action-IsNewJob title description parsed w long parses =
      let long' : ltb (length description) 20 ≡ false = ground arith in
      let (job, returned, new) = store_new_job-IsNewJob title description parsed (tick w) in
      (job, rw (long', parses, returned) refl, rw (long', parses, returned) new)

  -- The form of a new job, as the server reads it.
  abbrev create_form : NewJobPage → Form
  create_form page = record {
    action = some (form_value (units "create_job"));
    title = some (form_value (or_else (trim page.title) (units "Untitled role")));
    jd = some (form_value (trim page.jd));
    job_id = none;
    files = [];
  }

  dispatch-create :
      (page : NewJobPage) (w : World)
      → dispatch host (create_form page) w ≡ create_action host (sent_title page) (sent_jd page) w
  unfolding dispatch action_of form_value text_eq units
  dispatch-create page w = refl

  -- The page has been sent to the page of a job, with no error.
  pub record IsOpened (job : StoredJob) (page : NewJobPage) : Type 0 where
    pub location : page.location ≡ some (units "/jobs/" ++ job.id)
    pub error : page.error ≡ []
    pub creating : page.creating ≡ false

  finish-IsOpened :
      (type_error : Text) (job : StoredJob) (page : NewJobPage)
      → page.error ≡ []
      → IsOpened job (create_jd_finish type_error (received (json (created job))) page)
  unfolding create_jd_finish submit_demo_form payload_of payload_if job_of open_job
  finish-IsOpened type_error job page clear = record {
    location = refl;
    error = clear;
    creating = refl;
  }

  -- Where the trimmed description has 20 units, also as the server reads it, and the service parses it,
  -- creating a job ends on the page of a job that the server has stored under its id, with the title,
  -- the description and the requirements parsed from it, and without CVs.
  pub create_jd-IsOpened :
      (type_error : Text) (page : NewJobPage) (parsed : JobParseResult) (w : World)
      → 20 ≤ length (trim page.jd)
      → 20 ≤ length (sent_jd page)
      → Parses (sent_title page) (sent_jd page) parsed w
      → (job : StoredJob) × IsOpened job (create_jd host type_error page w).0
        × IsNewJob host
            (sent_title page)
            (sent_jd page)
            parsed
            job
            (create_jd host type_error page w).1
  unfolding create_jd create_jd_start send_create post_route
  create_jd-IsOpened type_error page parsed w long sent parses =
      let long' : ltb (length (trim page.jd)) 20 ≡ false = ground arith in
      let (job, returned, new) =
        create_action-IsNewJob (sent_title page) (sent_jd page) parsed w sent parses in
      (
        job,
        rw (long', dispatch-create page w, returned)
            (unfold answer_of in finish-IsOpened type_error job _ refl),
        rw (long', dispatch-create page w) new,
      )

filled : (s : Text) → 0 < length s → truthy s ≡ true
filled [] h = absurd (omega arith)
filled (c ∷ s) h = refl

module _ (host : AssistantHost) where
  -- The page shows the last reply of the thread that it continues.
  pub record IsAnswered (instruction : Text) (before : NewJobPage) (s : AssistantState)
      (page : NewJobPage) (t : AssistantState) : Type 0 where
    pub thread : page.assistant_thread_id ≡ before.assistant_thread_id
    pub earlier : List AssistantTurn
    pub history :
        history_of host before.assistant_thread_id s
          ++ added_turns (trim instruction) page.assistant_reply
        ≡ earlier ++ history_of host before.assistant_thread_id t
    pub kept :
        length (history_of host before.assistant_thread_id t)
        ≡ min 12 (length (history_of host before.assistant_thread_id s) + 2)
    pub jd : page.jd ≡ before.jd
    pub instruction_cleared : page.assistant_instruction ≡ []
    pub busy : page.assistant_busy ≡ false

  finish-IsAnswered :
      (instruction : Text) (page : NewJobPage) (s : AssistantState)
      (answer : AssistantResponse × AssistantState)
      → IsEdited host page.assistant_thread_id (trim instruction) s answer
      → IsAnswered instruction page s
          (ask_finish
            (received answer.0)
            (record page { error = []; notice = []; assistant_busy = true }))
          answer.1
  unfolding ask_finish take_reply
  finish-IsAnswered instruction page s answer e = rw e.answered (record {
    thread = refl;
    earlier = e.earlier;
    history = e.history;
    kept = e.kept;
    jd = refl;
    instruction_cleared = refl;
    busy = refl;
  })

  -- A question in a thread, about a description of 20 and with an instruction of 2 units, both trimmed,
  -- is answered: the page stays in the thread, which is what it was with the trimmed instruction and the
  -- shown reply behind it, cut to the last 12 turns; the description is as it was, and the input is
  -- cleared.
  pub ask_jd_assistant-IsAnswered :
      (instruction : Text) (page : NewJobPage) (s : AssistantState)
      → truthy page.assistant_thread_id ≡ true
      → 20 ≤ length (trim page.jd)
      → 2 ≤ length (trim instruction)
      → IsAnswered instruction page s
          (ask_jd_assistant host instruction page s).0
          (ask_jd_assistant host instruction page s).1
  unfolding ask_jd_assistant ask_start send_question
  ask_jd_assistant-IsAnswered instruction page s thread long told =
      let request : AssistantRequest = record {
        thread_id = some page.assistant_thread_id;
        title = some page.title;
        jd = some page.jd;
        message = some (trim instruction);
      } in
      let asks : IsAsked host request = record {
        jd = long;
        message = rw (trim_idem instruction) told;
      } in
      let edits = post-IsEdited host request s page.assistant_thread_id asks refl thread in
      rw (filled (trim instruction) (omega arith), thread)
        (finish-IsAnswered instruction page s (post host (ok request) s)
          (rw (trim_idem instruction) at edits))
