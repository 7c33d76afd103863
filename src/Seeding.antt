-- ===== src/Seeding.antt =====
-- scripts/lib/candidate-generator.mjs and the job seeding of scripts/seed-ranking-variety.mjs: the
-- scripts that fill a running server with candidates.
pub mod Shuffle
pub mod Sample
pub mod Workers
pub mod Resume
pub mod Wrap
pub mod Sources
pub mod Candidates
pub mod Profiles
pub mod Names
pub mod Pdf
pub mod Files
pub mod Jobs
