-- ===== src/Runtime/Policy.antt =====
-- `Policy` of crates/comptrol-core/src/lib.rs: the ceiling on risk and the intents that the
-- environment allows. The set of intents is a list of which only membership is used.
pub mod Environment
pub mod Switches
use comptrol.Base.{
  String, Bool, ◌||◌, not, some, List, [], ◌∷◌, str_append, Result, ok, err, ensure,
}
use comptrol.Runtime.Types.{Risk, risk_exceeds, ComptrolError}
use comptrol.Runtime.Risks.{one_of}

pub record Policy : Type 0 where
  pub allow_sandbox_writes : Bool
  pub allow_desktop_notify : Bool
  pub allow_app_launch : Bool
  pub max_risk : Risk
  pub allowed_intents : List String

-- `Policy::authorize`
unfoldable pub policy_authorize : Policy → String → Risk → Result ComptrolError (Unit {0})
policy_authorize policy intent risk =
    ensure (not (risk_exceeds risk policy.max_risk || not (one_of policy.allowed_intents intent)))
      (record {
        code = "policy_denied";
        message = str_append "Policy denied intent " intent;
        recovery = some "Change local policy outside the agent tool channel";
      })
