-- ===== src/Engine.antt =====
-- imads-core/src/core/engine.rs: the engine's helper functions, the start of a run and the
-- processing of completed work.
pub mod Levels
pub mod Audit
pub mod Start
pub mod Candidate
pub mod Steps
pub mod Materialize
pub mod Truth
pub mod Dispatch
pub mod Store
pub mod Ready
pub mod Tuning
pub mod State
pub mod Batches
pub mod Run
pub mod Search
pub mod Defaults
pub mod Main
pub mod Examples
pub mod Tests
