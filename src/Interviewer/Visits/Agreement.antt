-- ===== src/Interviewer/Visits/Agreement.antt =====
-- What the page and the speech service name after the page has been left.
use cvranking.Js.Text.{Text}
use cvranking.Interviewer.Visits.{Visits}
