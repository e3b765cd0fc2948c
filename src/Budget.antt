-- ===== src/Budget.antt =====
-- apps/web/src/lib/token-budget.ts: how the context window of a model is shared out.
pub mod Estimate
pub mod History
pub mod Output
pub mod Params
mod Tests
