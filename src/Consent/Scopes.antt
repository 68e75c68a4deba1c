-- ===== src/Consent/Scopes.antt =====
-- crates/comptrol-consent/src/scopes.rs: who granted, and how far a grant reaches.
pub mod Coverage
use comptrol.Base.{
  ℕ, String, Bool, true, false, not, Option, none, some, ◌==◌, eq_string, eq_option, if◌then◌else◌,
}
use comptrol.Consent.{Risk, risk_exceeds}

pub data GrantSubject : Type 0 where
  local_user : GrantSubject
  user_instruction : String → GrantSubject

abbrev pub may_persist : GrantSubject → Bool
may_persist local_user = true
may_persist (user_instruction digest) = false

pub data ConsentLifetime : Type 0 where
  session : ConsentLifetime
  until : ℕ → ConsentLifetime

pub record ConsentScope : Type 0 where
  pub app_id : Option String
  pub resource : Option String
  pub intent : Option String
  pub max_risk : Option Risk
  pub lifetime : Option ConsentLifetime

-- `if let Some(pinned) = &self.intent && pinned != intent`
intent_refused : Option String → String → Bool
intent_refused none intent = false
intent_refused (some pinned) intent = not (pinned == intent)

-- `if let Some(max) = self.max_risk && risk > max`
risk_refused : Option Risk → Risk → Bool
risk_refused none risk = false
risk_refused (some most) risk = risk_exceeds risk most

-- `if let Some(expected) = &self.resource && resource != Some(expected)`
resource_refused : Option String → Option String → Bool
resource_refused none resource = false
resource_refused (some expected) resource = not (resource == some expected)

unfoldable pub covers : ConsentScope → String → Risk → Option String → Bool
unfolding intent_refused risk_refused resource_refused
covers scope intent risk resource =
    if intent_refused scope.intent intent
    then false
    else if risk_refused scope.max_risk risk
    then false
    else if resource_refused scope.resource resource
    then false
    else true
