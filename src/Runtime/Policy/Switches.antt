-- ===== src/Runtime/Policy/Switches.antt =====
-- What must be switched on before the policy of crates/comptrol-core/src/lib.rs allows an action.
use comptrol.Base.{
  ◌≤◌, ◌≡◌, refl, ap, ◌∙◌, inl, inr, String, Bool, true, false, ◌&&◌, ◌||◌, List, [], ◌∷◌, ◌++◌,
  ◌==◌, eq_string, any, ok, arith, Bool-cases,
}
use comptrol.Runtime.Types.{Risk, r2, level, risk_exceeds}
use comptrol.Runtime.Risks.{one_of}
use comptrol.Runtime.Policy.{Policy, policy_authorize}
use comptrol.Runtime.Policy.Environment.{
  EnvGates, Switch, switches, default_policy, flip, flip_all, from_gates,
}

any-append :
    {A : Type 0} (p : A → Bool) (xs ys : List A) → any p (xs ++ ys) ≡ (any p xs || any p ys)
any-append p [] ys = refl
any-append p (x ∷ xs) ys = ground (arith, any-append p xs ys)

or_assoc : (a b c : Bool) → ((a || b) || c) ≡ (a || (b || c))
or_assoc true b c = refl
or_assoc false b c = refl

flip-allowed :
    (policy : Policy) (s : Switch) (intent : String)
    → one_of (flip policy s).allowed_intents intent
      ≡ (one_of policy.allowed_intents intent || (one_of s.intents intent && s.on))
flip-allowed policy s intent = elim (Bool-cases s.on) [
  | inl on ↦
      rw on (any-append (λ name. name == intent) policy.allowed_intents s.intents ∙ ground arith)
  | inr off ↦ rw off (ground arith)
]

-- An intent that the switches let through is let through before them or added by one that is on.
flip_all-allowed :
    (policy : Policy) (ss : List Switch) (intent : String)
    → one_of (flip_all policy ss).allowed_intents intent
      ≡ (one_of policy.allowed_intents intent || any (λ s. one_of s.intents intent && s.on) ss)
unfolding flip_all
flip_all-allowed policy [] intent = ground arith
flip_all-allowed policy (s ∷ ss) intent =
    flip_all-allowed (flip policy s) ss intent
    ∙ ap (λ b. b || any (λ t. one_of t.intents intent && t.on) ss) (flip-allowed policy s intent)
    ∙ or_assoc (one_of policy.allowed_intents intent) (one_of s.intents intent && s.on)
        (any (λ t. one_of t.intents intent && t.on) ss)

-- A ceiling above R2 comes from before the switches or from one that is on.
flip-max_risk :
    (policy : Policy) (s : Switch)
    → risk_exceeds (flip policy s).max_risk r2 ≡ true
    → (risk_exceeds policy.max_risk r2 || (risk_exceeds s.ceiling r2 && s.on)) ≡ true
flip-max_risk policy s e = elim (Bool-cases s.on) [
  | inr off ↦ rw off (ground (arith, rw off at e))
  | inl on ↦ elim (Bool-cases s.assigns) [
    | inl set ↦ rw on (ground (arith, rw (on, set) at e))
    | inr raised ↦ elim (Bool-cases (risk_exceeds policy.max_risk s.ceiling)) [
      | inl above ↦ rw on (ground (arith, rw (on, raised, above) at e))
      | inr below ↦ rw on (ground (arith, rw (on, raised, below) at e))
    ]
  ]
]

flip_all-max_risk :
    (policy : Policy) (ss : List Switch)
    → risk_exceeds (flip_all policy ss).max_risk r2 ≡ true
    → (risk_exceeds policy.max_risk r2 || any (λ s. risk_exceeds s.ceiling r2 && s.on) ss) ≡ true
unfolding flip_all
flip_all-max_risk policy [] e = ground arith
flip_all-max_risk policy (s ∷ ss) e =
    let above = flip_all-max_risk (flip policy s) ss e in
    elim (Bool-cases (risk_exceeds (flip policy s).max_risk r2)) [
      | inl here ↦
          or_more (risk_exceeds policy.max_risk r2) (risk_exceeds s.ceiling r2 && s.on)
            (any (λ t. risk_exceeds t.ceiling r2 && t.on) ss) (flip-max_risk policy s here)
      | inr not_here ↦
          or_skip (risk_exceeds policy.max_risk r2) (risk_exceeds s.ceiling r2 && s.on)
            (any (λ t. risk_exceeds t.ceiling r2 && t.on) ss) (rw not_here at above)
    ]
  where
    or_more : (a b c : Bool) → (a || b) ≡ true → (a || (b || c)) ≡ true
    or_more a b c h = ground arith

    or_skip : (a b c : Bool) → c ≡ true → (a || (b || c)) ≡ true
    or_skip a b c h = ground arith

authorize-below :
    (policy : Policy) (intent : String) (risk : Risk)
    → policy_authorize policy intent risk ≡ ok tt
    → level risk ≤ level policy.max_risk
unfolding policy_authorize
authorize-below policy intent risk e = ground arith

exceeds_below :
    (a b c : Risk) → risk_exceeds a c ≡ true → level a ≤ level b → risk_exceeds b c ≡ true
exceeds_below a b c e h = ground arith

or_nothing : (b : Bool) → (b || false) ≡ b
or_nothing true = refl
or_nothing false = refl

or_end :
    (a b c d e f : Bool)
    → (a || (b || (c || (d || (e || (f || false)))))) ≡ true
    → (a || (b || (c || (d || (e || f))))) ≡ true
or_end a b c d e f h = ground arith

-- The switches that put the ceiling above R2.
abbrev pub opens_high_risk : EnvGates → Bool
opens_high_risk gates =
    gates.app_close
    || (gates.software_install
        || (gates.commands
            || (gates.all_intents
                || ((gates.adapters && gates.high_consequence_adapters)
                    || (gates.mail_send && gates.adapters)))))

-- No action above R2 without a switch: the policy of the environment authorizes a risk above R2 only
-- if the switch for closing applications, for installing software, for commands, for all intents, or
-- with the one for adapters the one for high consequences or for sending mail, is on.
pub high_risk_needs_switch :
    (gates : EnvGates) (intent : String) (risk : Risk)
    → policy_authorize (from_gates gates) intent risk ≡ ok tt
    → risk_exceeds risk r2 ≡ true
    → opens_high_risk gates ≡ true
unfolding from_gates switches
high_risk_needs_switch gates intent risk e high =
    let above =
      exceeds_below risk (from_gates gates).max_risk r2 high
        (authorize-below (from_gates gates) intent risk e) in
    let some_on = flip_all-max_risk default_policy (switches gates) above in
    or_end gates.app_close gates.software_install gates.commands gates.all_intents
      (gates.adapters && gates.high_consequence_adapters) (gates.mail_send && gates.adapters)
      some_on

-- Exactly these switches let through the intents with the gravest effects: the switch for commands
-- alone lets through "command.run", the one for installing software "software.install", the one for
-- closing applications "app.close", the one for settings "settings.set", the one for sandbox writes
-- "filesystem.write"; and "mail.send" is let through by the one for all intents, or by the one for
-- adapters with the one for high consequences or for sending mail.
pub grave_intents_switch :
    (gates : EnvGates)
    → let allows = one_of (from_gates gates).allowed_intents in
      (allows "command.run" ≡ gates.commands)
      × (allows "software.install" ≡ gates.software_install)
      × (allows "app.close" ≡ gates.app_close)
      × (allows "settings.set" ≡ gates.settings)
      × (allows "filesystem.write" ≡ gates.sandbox_writes)
      × (allows "mail.send" ≡ (
          gates.all_intents
          || ((gates.adapters && gates.high_consequence_adapters)
              || (gates.mail_send && gates.adapters))))
unfolding from_gates switches
grave_intents_switch gates =
    let reach = flip_all-allowed default_policy (switches gates) in
    (
      reach "command.run" ∙ or_nothing gates.commands,
      reach "software.install" ∙ or_nothing gates.software_install,
      reach "app.close" ∙ or_nothing gates.app_close,
      reach "settings.set" ∙ or_nothing gates.settings,
      reach "filesystem.write" ∙ or_nothing gates.sandbox_writes,
      reach "mail.send"
          ∙ ap
              (λ b. gates.all_intents || ((gates.adapters && gates.high_consequence_adapters) || b))
              (or_nothing (gates.mail_send && gates.adapters)),
    )
