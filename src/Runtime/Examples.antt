-- ===== src/Runtime/Examples.antt =====
-- Concrete runs of the runtime of crates/comptrol-core/src/lib.rs.
pub mod Fixtures
pub mod Runs
pub mod Nested
pub mod Installs
pub mod Restarts
