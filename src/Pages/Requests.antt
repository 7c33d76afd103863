-- ===== src/Pages/Requests.antt =====
-- The requests of frontend/lib/demo-ranking.ts, over the server's answers.
use cvranking.Prelude.{
  ℕ, Bool, true, false, ◌&&◌, Option, none, some, [], ◌∷◌, ◌==◌, leb, if◌then◌else◌,
}
use cvranking.Js.Text.{Text, units}
use cvranking.Host.Action.{Thrown, demo_problem, error, other, Result, ok, throw}
use cvranking.Routes.{Body, detail, created, uploaded, ranked, ranked_once, Response}
use cvranking.Store.Types.{StoredJob}

-- A `fetch` throws an error with a message, or brings the server's answer.
pub data Reply {ℓ} (A : Type ℓ) : Type ℓ where
  lost : (message : Text) → Reply A
  received : A → Reply A

-- What a text of a `FormData` becomes on its way: each line end is a carriage return with a line feed.
unfoldable pub form_value : Text → Text
form_value [] = []
form_value (c ∷ []) = if c == 10 then 13 ∷ 10 ∷ [] else if c == 13 then 13 ∷ 10 ∷ [] else c ∷ []
form_value (c ∷ d ∷ s) =
    let rest = form_value (d ∷ s) in
    if c == 10
    then 13 ∷ 10 ∷ rest
    else if c == 13
    then (if d == 10 then rest else 13 ∷ 10 ∷ rest)
    else c ∷ rest

-- `response.ok`.
abbrev pub is_ok : ℕ → Bool
is_ok status = leb 200 status && leb status 299

-- `payload.detail ?? fallback`.
unfoldable pub detail_of : Body → Text → Text
detail_of (detail message) fallback = message
detail_of _ fallback = fallback

-- `error instanceof Error ? error.message : "…"`.
unfoldable pub problem_message : Thrown → Text
problem_message (demo_problem status message) = message
problem_message (error message) = message
problem_message other = units "Không thể xử lý request."

-- The payload, or the server's detail where the status is no success.
unfoldable pub payload_if : (is_success : Bool) → (fallback : Text) → Body → Result Body
payload_if true fallback body = ok body
payload_if false fallback body = throw (error (detail_of body fallback))

unfoldable pub payload_of : (fallback : Text) → Reply Response → Result Body
payload_of fallback (lost message) = throw (error message)
payload_of fallback (received response) = payload_if (is_ok response.status) fallback response.body

unfoldable pub submit_demo_form : Reply Response → Result Body
submit_demo_form reply = payload_of (units "Không thể xử lý request.") reply

unfoldable pub load_cv_document : Reply Response → Result Body
load_cv_document reply = payload_of (units "Không tải được file preview.") reply

unfoldable pub load_store : Reply Response → Result Body
load_store (lost message) = throw (error message)
load_store (received response) =
    if is_ok response.status
    then ok response.body
    else throw (error (units "Không tải được kho JD/CV."))

-- `result.job`, where the payload has one.
unfoldable pub job_of : Body → Option StoredJob
job_of (created job) = some job
job_of (uploaded job upload) = some job
job_of (ranked job run status) = some job
job_of (ranked_once upload run saved_job job) = some job
job_of _ = none
