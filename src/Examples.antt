-- ===== src/Examples.antt =====
-- Small inputs at which the theorems are applied.
mod Data
mod Rerank
mod Server
mod Assistant
mod Pages
mod Seeding
mod Interviewer
mod Shell
