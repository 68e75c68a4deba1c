-- ===== src/Runtime/Admission.antt =====
-- What the gates of `operate` demand before anything runs.
use comptrol.Base.{
  ◌≤◌, ◌≡◌, ap, ◌↔◌, refl, inl, inr, String, true, false, not, ◌&&◌, Option, none, some, find,
  is_some, values, Result, ok, err, ensure_iff, ensure_last_iff, seq_iff, arith, Bool-cases,
  Option-cases,
}
use comptrol.Consent.Store.{ConsentStore, authorize}
use comptrol.Consent.{ConsentDecision, allowed, denied}
use comptrol.Runtime.Types.{level, mutation, OperationRequest}
use comptrol.Runtime.Risks.{effective_risk, one_of}
use comptrol.Runtime.Policy.{policy_authorize}
use comptrol.Runtime.Journal.{DurableOperation, is_open}
use comptrol.Runtime.State.{Runtime, Host, Moment}
use comptrol.Runtime.Gates.{
  same_key, unknown_gate, open_record, policy_gate, schema_gate, consent_covers,
  consent_gate_applies, known_posture, to_consent_risk, consent_resource, is_allowed,
}
use comptrol.Runtime.Operate.{admit}

is_some-some : {A : Type 0} (o : Option A) → is_some o ≡ true → (a : A) × (o ≡ some a)
is_some-some none h = cc
is_some-some (some a) h = (a, refl)

module _ {V F W : Type 0} (h : Host V F W) (m : Moment V F) (rt : Runtime V F)
    (request : OperationRequest V) where
  -- The first record of the key, in the order of the map, does not say that the operation may have
  -- happened without an answer.
  abbrev pub NotOpen : Option String → Type 0
  NotOpen none = Unit
  NotOpen (some key) =
      (r : DurableOperation V)
      → find (same_key h key) (values rt.operations.records) ≡ some r
      → is_open r.state ≡ false

  -- The store of the runtime allows the request.
  abbrev pub HasConsent : Type 0
  HasConsent =
      (store : ConsentStore) × (rt.consent ≡ some store)
      × (grant_id : String) × (authorize store m.consent_ms request.intent request.intent
            (to_consent_risk (effective_risk request)) (consent_resource request.target)
          ≡ allowed grant_id)

  pub record IsAdmitted : Type 0 where
    pub posture : known_posture request.background ≡ true
    pub not_open : NotOpen request.idempotency_key
    pub running : mutation (effective_risk request) ≡ true → m.stop_engaged ≡ false
    pub within : level (effective_risk request) ≤ level rt.policy.max_risk
    pub listed : one_of rt.policy.allowed_intents request.intent ≡ true
    pub valid : h.validate_params request.intent request.params ≡ ok tt
    pub consented :
        mutation (effective_risk request) ≡ true
        → consent_gate_applies request.intent ≡ true
        → HasConsent
    pub real : request.dry_run ≡ false
    pub routed :
        (route : String) × ((h.route_plan request rt.route_history rt.policy).selected ≡ some route)

  unknown_gate_iff : (key : Option String) → (unknown_gate h rt request key ≡ ok tt) ↔ NotOpen key
  unfolding unknown_gate open_record
  unknown_gate_iff none = ((λ e. tt), λ n. refl)
  unknown_gate_iff (some key) =
      elim (Option-cases (find (same_key h key) (values rt.operations.records))) [
        | inl missing ↦ rw missing ((λ e r found. cc), λ n. refl)
        | inr (r, there) ↦ rw there (
          (λ e s found. let free : is_open r.state ≡ false = ground arith in cc),
          λ n. ground (arith, n r refl),
        )
      ]

  policy_gate_iff :
      (operation_id : String)
      → (policy_gate h request operation_id
            (policy_authorize rt.policy request.intent (effective_risk request))
          ≡ ok tt)
        ↔ ((level (effective_risk request) ≤ level rt.policy.max_risk)
            × (one_of rt.policy.allowed_intents request.intent ≡ true))
  unfolding policy_gate policy_authorize
  policy_gate_iff operation_id = ground arith

  schema_gate_iff :
      (operation_id : String) (checked : Result String (Unit {0}))
      → (schema_gate h request operation_id checked ≡ ok tt) ↔ (checked ≡ ok tt)
  unfolding schema_gate
  schema_gate_iff operation_id (ok tt) = ((λ e. refl), λ e. refl)
  schema_gate_iff operation_id (err message) = ((λ e. cc), λ e. cc)

  is_allowed_iff :
      (d : ConsentDecision) → (is_allowed d ≡ true) ↔ ((grant_id : String) × (d ≡ allowed grant_id))
  is_allowed_iff (allowed grant_id) = ((λ e. (grant_id, refl)), λ g. refl)
  is_allowed_iff (denied reason) = ((λ e. cc), λ g. cc (g.1))

  consent_covers_iff :
      (consent : Option ConsentStore)
      → (consent_covers h consent m.consent_ms request (effective_risk request) ≡ true) ↔ (
          (store : ConsentStore) × (consent ≡ some store)
          × (grant_id : String) × (authorize store m.consent_ms request.intent request.intent
                (to_consent_risk (effective_risk request))
                (consent_resource request.target)
              ≡ allowed grant_id))
  unfolding consent_covers
  consent_covers_iff none = ((λ e. cc), λ (store, none_there, grant_id, e). cc)
  consent_covers_iff (some store) =
      let (there, back) = is_allowed_iff (
        authorize store m.consent_ms request.intent request.intent
          (to_consent_risk (effective_risk request)) (consent_resource request.target)) in
      (
        (λ e. let (grant_id, e') = there e in (store, refl, grant_id, e')),
        λ (s, same, grant_id, e). back (grant_id, cc),
      )

  consent_gate_iff :
      (not (
          (mutation (effective_risk request) && consent_gate_applies request.intent)
          && not (consent_covers h rt.consent m.consent_ms request (effective_risk request)))
        ≡ true)
      ↔ (mutation (effective_risk request) ≡ true
          → consent_gate_applies request.intent ≡ true
          → HasConsent)
  consent_gate_iff =
      let (there, back) = consent_covers_iff rt.consent in
      (
        (λ e mutates applies. there (ground (arith, mutates, applies))),
        λ f. elim (Bool-cases (mutation (effective_risk request))) [
          | inr reads ↦ rw reads refl
          | inl mutates ↦ elim (Bool-cases (consent_gate_applies request.intent)) [
            | inr open_to_all ↦ rw (mutates, open_to_all) refl
            | inl applies ↦ rw (mutates, applies, back (f mutates applies)) refl
          ]
        ],
      )

  stop_passes :
      (mutation (effective_risk request) ≡ true → m.stop_engaged ≡ false)
      → not (mutation (effective_risk request) && m.stop_engaged) ≡ true
  stop_passes f = elim (Bool-cases (mutation (effective_risk request))) [
    | inl mutates ↦ rw (mutates, f mutates) refl
    | inr reads ↦ rw reads refl
  ]

  -- A request is admitted exactly when its background posture is known, the first record of its key
  -- in the journal, if it has a key and the journal such a record, is not open, its effective risk is
  -- R0 or the stop latch is not engaged, the policy lists the intent and its ceiling is not below the
  -- effective risk, the parameters are valid, a grant in the consent store allows it where a mutation
  -- needs consent, it is no dry run, and there is a route for it.
  pub admit_iff : (operation_id : String) → (admit h m rt request operation_id ≡ ok tt) ↔ IsAdmitted
  unfolding admit
  admit_iff operation_id = (
    (λ e.
        let (known, e1) = (ensure_iff _ _ _).0 e in
        let (free, e2) = (seq_iff (unknown_gate h rt request request.idempotency_key) _).0 e1 in
        let (going, e3) = (ensure_iff _ _ _).0 e2 in
        let (policed, e4) =
          (seq_iff
              (policy_gate h request operation_id
                (policy_authorize rt.policy request.intent (effective_risk request)))
              _).0
            e3 in
        let (checked, e5) =
          (seq_iff
              (schema_gate h request operation_id (h.validate_params request.intent request.params))
              _).0
            e4 in
        let (agreed, e6) = (ensure_iff _ _ _).0 e5 in
        let (wet, e7) = (ensure_iff (not request.dry_run) _ _).0 e6 in
        let (within, listed) = (policy_gate_iff operation_id).0 policed in
        record {
          posture = known;
          not_open = (unknown_gate_iff request.idempotency_key).0 free;
          running = λ mutates. ground (arith, going, mutates);
          within = within;
          listed = listed;
          valid = (schema_gate_iff operation_id _).0 checked;
          consented = consent_gate_iff.0 agreed;
          real = ground (arith, wet);
          routed =
              is_some-some (h.route_plan request rt.route_history rt.policy).selected
                ((ensure_last_iff _ _).0 e7);
        }),
    λ a. (ensure_iff _ _ _).1 (
      a.posture,
      (seq_iff (unknown_gate h rt request request.idempotency_key) _).1 (
        (unknown_gate_iff request.idempotency_key).1 a.not_open,
        (ensure_iff _ _ _).1 (
          stop_passes a.running,
          (seq_iff
                (policy_gate h request operation_id
                  (policy_authorize rt.policy request.intent (effective_risk request)))
                _).1
              (
                (policy_gate_iff operation_id).1 (a.within, a.listed),
                (seq_iff
                      (schema_gate h request operation_id
                        (h.validate_params request.intent request.params))
                      _).1
                    (
                      (schema_gate_iff operation_id _).1 a.valid,
                      (ensure_iff _ _ _).1 (
                        consent_gate_iff.1 a.consented,
                        (ensure_iff _ _ _).1 (
                          ground (arith, a.real),
                          (ensure_last_iff _ _).1 (ap is_some a.routed.1),
                        ),
                      ),
                    ),
              ),
        ),
      ),
    ),
  )
