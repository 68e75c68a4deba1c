-- ===== src/Consent/Examples.antt =====
-- Fixtures and runs of the consent crate, crates/comptrol-consent/src.
mod Wire
mod Fixtures
mod Chains
mod Gates
mod Approvals
