-- ===== src/Runtime/Safety.antt =====
-- What `operate` of crates/comptrol-core/src/lib.rs lets happen. The world is what the executors of
-- the intents act on, and a browser in it; a world that differs after a call by more than the start
-- of a browser means that an executor ran.
use comptrol.Base.{
  ◌≡◌, ◌≢◌, subst, sym, Bool-cases, ◌↔◌, refl, ◌⊎◌, inl, inr, String, Bool, List, [], ◌∷◌, All,
  ◌==◌, eq_iff, true, false, Option, none, some, eq_string, eq_option, any, Has, get, contains_key,
  values, ok, ensure_last_iff, seq_iff, Result-cases, arith,
}
use comptrol.Consent.Store.{ConsentGrant, ConsentStore}
use comptrol.Consent.Store.Gate.{Permits, authorize_sound}
use comptrol.Runtime.Types.{mutation, OperationRequest, ActionResult, mutation-risk_max}
use comptrol.Runtime.Risks.{one_of, effective_risk, classify, risk_or}
use comptrol.Runtime.State.{Runtime, Host, Moment}
use comptrol.Runtime.Gates.{
  Reply, other_request, identify, replay_gate, to_consent_risk, consent_resource,
  consent_gate_applies,
}
use comptrol.Runtime.Operate.{admit}
use comptrol.Runtime.Dispatch.{
  intent_needs_browser, operate, operation_id_of, refresh_policy, settle, after_gate,
  admit_and_carry_out, carry_out,
}
use comptrol.Runtime.Admission.{IsAdmitted, admit_iff}

one_of-each :
    (test : String → Bool) (names : List String) (name : String)
    → All (λ n. test n ≡ false) names
    → one_of names name ≡ true
    → test name ≡ false
one_of-each test [] name h e = absurd (cc)
one_of-each test (n ∷ names) name h e = elim (Bool-cases (n == name)) [
  | inl hit ↦ subst (λ k. test k ≡ false) ((eq_iff n name).0 hit) h.0
  | inr miss ↦ one_of-each test names name h.1 (rw miss at e)
]

-- No intent behind the consent gate is a browser intent.
gated-no_browser :
    (intent : String) → consent_gate_applies intent ≡ true → intent_needs_browser intent ≡ false
unfolding consent_gate_applies intent_needs_browser
gated-no_browser intent gated =
    one_of-each intent_needs_browser
      ("software.install" ∷ "software.update" ∷ "software.uninstall" ∷ "settings.set"
        ∷ "settings.write" ∷ "software.launch_after_install" ∷ [])
      intent (refl, (refl, (refl, (refl, (refl, (refl, tt)))))) gated

module _ {V F W : Type 0} (h : Host V F W) where
  -- Nothing is known of the key that ends the call: no result to replay, no conflict, and no record
  -- of another request.
  abbrev pub IsNew : Runtime V F → OperationRequest V → Option String → Type 0
  IsNew rt request none = Unit
  IsNew rt request (some key) =
      (get rt.cache.idempotent key ≡ none)
      × (contains_key rt.cache.conflicts key ≡ false)
      × (any (other_request h key (h.digests.request_fingerprint request))
            (values rt.operations.records)
          ≡ false)

  replay_gate-none :
      (rt : Runtime V F) (request : OperationRequest V) (operation_id key : String)
      (o : Option (ActionResult V))
      → (replay_gate h rt request operation_id key o ≡ ok tt) ↔ (o ≡ none)
  unfolding replay_gate
  replay_gate-none rt request operation_id key none = ((λ e. refl), λ e. refl)
  replay_gate-none rt request operation_id key (some previous) = ((λ e. ground (arith, e)), λ e. cc)

  pub identify_iff :
      (rt : Runtime V F) (request : OperationRequest V) (operation_id : String)
      (key : Option String)
      → (identify h rt request operation_id key ≡ ok tt) ↔ IsNew rt request key
  unfolding identify
  identify_iff rt request operation_id none = ((λ e. tt), λ e. refl)
  identify_iff rt request operation_id (some key) =
      let previous = get rt.cache.idempotent key in
      let (there, back) = replay_gate-none rt request operation_id key previous in
      (
        (λ e.
            let (fresh, free) =
              (seq_iff (replay_gate h rt request operation_id key previous) _).0 e in
            let passes = (ensure_last_iff _ _).0 free in
            (there fresh, ground (arith, passes), ground (arith, passes))),
        λ (fresh, calm, same).
            (seq_iff (replay_gate h rt request operation_id key previous) _).1
              (back fresh, rw (calm, same) refl),
      )

  -- The identity of the call and the runtime that the gates see, with its policy refreshed.
  abbrev pub id_of : Moment V F → Runtime V F → OperationRequest V → String
  id_of m rt request = (operation_id_of h m rt request.idempotency_key).0

  abbrev pub numbered : Moment V F → Runtime V F → OperationRequest V → Runtime V F
  numbered m rt request = (operation_id_of h m rt request.idempotency_key).1

  abbrev pub entered : Moment V F → Runtime V F → OperationRequest V → W → Runtime V F
  entered m rt request world = (refresh_policy h m (numbered m rt request) request world).0

  -- The world that the later gates and the executor see.
  abbrev pub started : Moment V F → Runtime V F → OperationRequest V → W → W
  started m rt request world = (refresh_policy h m (numbered m rt request) request world).1

  -- What a call may do to the world without an executor: nothing, or the start of a browser for a
  -- browser intent.
  abbrev pub Untouched : OperationRequest V → W → W → Type 0
  Untouched request world after =
      (after ≡ world)
      ⊎ ((intent_needs_browser request.intent ≡ true) × (after ≡ (h.ensure_browser world).1))

  abbrev pub Executed : OperationRequest V → W → W → Type 0
  Executed request world after = ¬ Untouched request world after

  refresh-Untouched :
      (m : Moment V F) (rt : Runtime V F) (request : OperationRequest V) (world : W)
      → Untouched request world (refresh_policy h m rt request world).1
  unfolding refresh_policy
  refresh-Untouched m rt request world = elim (Bool-cases (intent_needs_browser request.intent)) [
    | inl browser ↦ rw browser (inr (refl, refl))
    | inr other ↦ rw other (inl refl)
  ]

  pub started-Untouched :
      (m : Moment V F) (rt : Runtime V F) (request : OperationRequest V) (world : W)
      → Untouched request world (started m rt request world)
  started-Untouched m rt request world = refresh-Untouched m (numbered m rt request) request world

  settle-world :
      (m : Moment V F) (rt : Runtime V F) (request : OperationRequest V) (world : W)
      (reply : Reply V)
      → (settle h m rt request world reply).1.1 ≡ world
  unfolding settle
  settle-world m rt request world (Reply.returned result) = refl
  settle-world m rt request world (Reply.remembered result) = refl

  -- A call either passes all gates, and then carries the request out, or leaves the world alone but
  -- for the start of a browser.
  pub operate-cases :
      (m : Moment V F) (rt : Runtime V F) (request : OperationRequest V) (world : W)
      → (IsNew (numbered m rt request) request request.idempotency_key
          × IsAdmitted h m (entered m rt request world) request
          × (operate h m rt request world
              ≡ carry_out h m
                  (entered m rt request world)
                  request
                  (id_of m rt request)
                  (started m rt request world)))
        ⊎ Untouched request world (operate h m rt request world).1.1
  unfolding operate after_gate admit_and_carry_out
  operate-cases m rt request world =
      let world' = started m rt request world in
      elim (Result-cases
        (identify h (numbered m rt request) request (id_of m rt request) request.idempotency_key)) [
          | inr (reply, stop) ↦
              inr (inl (rw stop (settle-world m (numbered m rt request) request world reply)))
          | inl (done, pass) ↦
              elim (Result-cases
                (admit h m (entered m rt request world) request (id_of m rt request))) [
                  | inr (reply, stop) ↦ inr (
                      rw (pass, stop)
                        (subst (Untouched request world)
                          (sym (settle-world m (entered m rt request world) request world' reply))
                          (started-Untouched m rt request world)))
                  | inl (done', pass') ↦ inl (
                    (identify_iff _ _ _ _).0 pass,
                    (admit_iff h m _ request _).0 pass',
                    rw (pass, pass') refl,
                  )
                ]
        ]

  -- No executor runs past a gate: if a call changes the world by more than the start of a browser
  -- for a browser intent, then nothing was known of its key that ends the call, and the request was
  -- admitted, by the policy as the call refreshed it.
  pub moved-IsAdmitted :
      (m : Moment V F) (rt : Runtime V F) (request : OperationRequest V) (world : W)
      → Executed request world (operate h m rt request world).1.1
      → IsNew (numbered m rt request) request request.idempotency_key
        × IsAdmitted h m (entered m rt request world) request
  moved-IsAdmitted m rt request world moved = elim (operate-cases m rt request world) [
    | inl (fresh, admitted, same) ↦ (fresh, admitted)
    | inr still ↦ absurd (moved still)
  ]

  pub mutation_classified :
      (request : OperationRequest V)
      → mutation (classify request.intent) ≡ true
      → mutation (effective_risk request) ≡ true
  unfolding effective_risk
  mutation_classified request e =
      mutation-risk_max (classify request.intent) (risk_or request.risk) e

  -- The stop latch stops: while it is engaged, a request whose intent is classified above R0 changes
  -- nothing in the world but for the start of a browser, and that only for a browser intent, whatever
  -- risk the caller states.
  pub stop_latch_holds :
      (m : Moment V F) (rt : Runtime V F) (request : OperationRequest V) (world : W)
      → m.stop_engaged ≡ true
      → mutation (classify request.intent) ≡ true
      → Untouched request world (operate h m rt request world).1.1
  stop_latch_holds m rt request world engaged mutates = elim (operate-cases m rt request world) [
    | inr still ↦ still
    | inl (fresh, admitted, same) ↦
        absurd (cc (admitted.running (mutation_classified request mutates), engaged))
  ]

  -- A dry run changes nothing in the world but for the start of a browser.
  pub dry_run_is_dry :
      (m : Moment V F) (rt : Runtime V F) (request : OperationRequest V) (world : W)
      → request.dry_run ≡ true
      → Untouched request world (operate h m rt request world).1.1
  dry_run_is_dry m rt request world dry = elim (operate-cases m rt request world) [
    | inr still ↦ still
    | inl (fresh, admitted, same) ↦ absurd (cc (admitted.real, dry))
  ]

  -- An action that needs consent has it: if a call for an intent behind the consent gate, classified
  -- above R0, changes the world, then the consent store holds a grant for that intent, not expired at
  -- the time of the call, whose scope covers the intent, its effective risk and its target.
  pub moved-Permits :
      (m : Moment V F) (rt : Runtime V F) (request : OperationRequest V) (world : W)
      → consent_gate_applies request.intent ≡ true
      → mutation (classify request.intent) ≡ true
      → (operate h m rt request world).1.1 ≢ world
      → (store : ConsentStore) × ((entered m rt request world).consent ≡ some store)
        × (g : ConsentGrant) × Has g store.grants
        × Permits m.consent_ms request.intent request.intent
            (to_consent_risk (effective_risk request))
            (consent_resource request.target)
            g
  moved-Permits m rt request world gated mutates moved =
      let (fresh, admitted) = moved-IsAdmitted m rt request world (λ u. elim u [
        | inl still ↦ moved still
        | inr (browser, e) ↦ cc (browser, gated-no_browser request.intent gated)
      ]) in
      let (store, there, grant_id, e) =
        admitted.consented (mutation_classified request mutates) gated in
      let (g, held, named, permits) = authorize_sound store _ _ _ _ _ grant_id e in
      (store, there, g, held, permits)
