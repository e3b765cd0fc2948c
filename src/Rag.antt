-- ===== src/Rag.antt =====
-- The projects that are indexed for retrieval.
pub mod Project
pub mod Store
pub mod Migrations
mod Tests
