-- ===== src/Rerank.antt =====
-- The AI reranking of frontend/app/api/ranking-test/route.ts.
pub mod Types
pub mod Values
pub mod Merge
pub mod Keys
pub mod Input
pub mod Providers
