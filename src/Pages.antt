-- ===== src/Pages.antt =====
-- The pages of the front end that work on jobs, and their requests to the server.
pub mod Requests
pub mod NewJob
pub mod JobList
pub mod Job
pub mod Shell
