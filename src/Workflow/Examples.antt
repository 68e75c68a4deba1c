-- ===== src/Workflow/Examples.antt =====
-- Fixtures and runs of the workflow crate, crates/comptrol-workflow/src/lib.rs.
pub mod Values
mod Runs
mod Batches
mod Promotions
