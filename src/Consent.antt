-- ===== src/Consent.antt =====
-- crates/comptrol-consent/src/lib.rs: the risk ladder and the decisions of the consent broker.
pub mod Scopes
pub mod Store
pub mod HumanAction
pub mod Examples
use comptrol.Base.{ℕ, ◌≤◌, String, Bool, leb, ltb}

pub data Risk : Type 0 where
  r0 r1 r2 r3 : Risk

-- The derived order of the variants.
abbrev pub risk_rank : Risk → ℕ
risk_rank r0 = 0
risk_rank r1 = 1
risk_rank r2 = 2
risk_rank r3 = 3

abbrev pub risk_exceeds : Risk → Risk → Bool
risk_exceeds risk most = ltb (risk_rank most) (risk_rank risk)

pub data ConsentDecision : Type 0 where
  allowed : String → ConsentDecision
  denied : String → ConsentDecision
