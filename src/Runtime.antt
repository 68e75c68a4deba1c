-- ===== src/Runtime.antt =====
-- The runtime of crates/comptrol-core/src/lib.rs: the path of every action from the request to its
-- result.
pub mod Types
pub mod Risks
pub mod Journal
pub mod Policy
pub mod Routes
pub mod Idempotency
pub mod State
pub mod Gates
pub mod Operate
pub mod Dispatch
pub mod Admission
pub mod Safety
pub mod WriteAhead
pub mod Once
pub mod Replay
pub mod RunsOnce
pub mod Reuse
pub mod Answers
pub mod Kept
pub mod Keyed
pub mod Nested
pub mod Crash
pub mod Examples
