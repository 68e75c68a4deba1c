-- ===== src/Consent/Scopes/Coverage.antt =====
-- What `covers` of scopes.rs decides.
use comptrol.Base.{◌≡◌, refl, ◌↔◌, ◌≤◌, String, true, false, Option, none, some, arith, eq_iff}
use comptrol.Consent.{Risk, risk_rank}
use comptrol.Consent.Scopes.{ConsentScope, covers, intent_refused, risk_refused, resource_refused}

-- A dimension is left open or holds exactly the value asked for.
abbrev pub Matches : Option String → Option String → Type 0
Matches none asked = Unit
Matches (some pinned) asked = asked ≡ some pinned

abbrev pub Within : Option Risk → Risk → Type 0
Within none risk = Unit
Within (some most) risk = risk_rank risk ≤ risk_rank most

pub record Covers (scope : ConsentScope) (intent : String) (risk : Risk) (resource : Option String)
    : Type 0 where
  pub intent_ok : Matches scope.intent (some intent)
  pub risk_ok : Within scope.max_risk risk
  pub resource_ok : Matches scope.resource resource

intent_lem : (o : Option String) (i : String) → (intent_refused o i ≡ false) ↔ Matches o (some i)
unfolding intent_refused
intent_lem none i = ((λ h. tt), λ h. refl)
intent_lem (some p) i = ((λ h. ground (arith, eq_iff p i)), λ h. ground (arith, eq_iff p i))

risk_lem : (o : Option Risk) (r : Risk) → (risk_refused o r ≡ false) ↔ Within o r
unfolding risk_refused
risk_lem none r = ((λ h. tt), λ h. refl)
risk_lem (some m) r = ((λ h. ground arith), λ h. ground arith)

resource_lem : (o a : Option String) → (resource_refused o a ≡ false) ↔ Matches o a
unfolding resource_refused
resource_lem none a = ((λ h. tt), λ h. refl)
resource_lem (some p) none = ((λ h. cc), λ h. cc)
resource_lem (some p) (some a) =
    ((λ h. ground (arith, eq_iff a p)), λ h. ground (arith, eq_iff a p))

-- `covers` answers true exactly when the intent and the resource are the pinned ones, where they
-- are pinned, and the risk is at most the ceiling, where there is one.
pub covers_iff :
    (scope : ConsentScope) (intent : String) (risk : Risk) (resource : Option String)
    → (covers scope intent risk resource ≡ true) ↔ Covers scope intent risk resource
unfolding covers
covers_iff scope intent risk resource = (
  (λ h. record {
    intent_ok = (intent_lem scope.intent intent).0 (ground arith);
    risk_ok = (risk_lem scope.max_risk risk).0 (ground arith);
    resource_ok = (resource_lem scope.resource resource).0 (ground arith);
  }),
  λ h. ground (
    arith,
    (intent_lem scope.intent intent).1 h.intent_ok,
    (risk_lem scope.max_risk risk).1 h.risk_ok,
    (resource_lem scope.resource resource).1 h.resource_ok,
  ),
)
