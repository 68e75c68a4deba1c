-- ===== src/Runtime/Once.antt =====
-- Why `operate` of crates/comptrol-core/src/lib.rs does not run a mutation twice under one
-- idempotency key.
use comptrol.Base.{
  ◌≡◌, ◌≢◌, refl, ap, subst, ◌∙◌, ◌⊎◌, inl, inr, String, true, false, not, ◌&&◌, Option, none, some,
  eq_string, eq_option, find, get, contains_key, values, is_blank, Bool-cases,
}
use comptrol.Runtime.Types.{OperationRequest, ActionResult}
use comptrol.Runtime.Journal.{DurableOperation, is_open}
use comptrol.Runtime.Journal.Keys.{IsKeyed, find-IsKeyed}
use comptrol.Runtime.State.{Runtime, Host, Moment, Executor}
use comptrol.Runtime.Gates.{same_key}
use comptrol.Runtime.Operate.{is_unknown, needs_reconciliation}
use comptrol.Runtime.Dispatch.{
  operate, intent_needs_browser, operation_id_of, refresh_policy, run_executor,
}
use comptrol.Runtime.Admission.{NotOpen}
use comptrol.Runtime.Safety.{operate-cases, Untouched, entered, id_of, numbered, IsNew}

module _ {V F W : Type 0} (h : Host V F W) where
  -- An executor answers a request under the identity of the operation and keeps the records of the
  -- journal named by their keys. One that does not call the runtime again does both, and so does one
  -- that calls it for other requests.
  pub record KeepsKeys (request : OperationRequest V) (execute : Executor V F W) : Type 0 where
    pub same_id :
        (rt : Runtime V F) (id : String) (world : W)
        → (execute rt request id world).0.operation_id ≡ id
    pub keyed :
        (rt : Runtime V F) (id : String) (world : W)
        → IsKeyed rt.operations.records
        → IsKeyed (execute rt request id world).1.0.operations.records

  -- An executor that also leaves alone what the runtime knows of the key of the request, where the
  -- records of the journal are named by their keys.
  pub record LeavesKey (request : OperationRequest V) (key : String) (execute : Executor V F W)
      : Type 0 where
    pub keeps : KeepsKeys request execute
    pub same_record :
        (rt : Runtime V F) (world : W)
        → IsKeyed rt.operations.records
        → get (execute rt request key world).1.0.operations.records key
          ≡ get rt.operations.records key
    pub same_conflict :
        (rt : Runtime V F) (world : W)
        → IsKeyed rt.operations.records
        → contains_key (execute rt request key world).1.0.cache.conflicts key
          ≡ contains_key rt.cache.conflicts key

  -- The result tells of its delivery, where it asks for reconciliation, that it is unknown.
  abbrev pub IsSettled : ActionResult V → Type 0
  IsSettled result = needs_reconciliation result.recovery ≡ true → is_unknown result.delivery ≡ true

  -- The executor of the request's intent, if there is one, has the property.
  abbrev pub OfIntent : OperationRequest V → (Executor V F W → Type 0) → Type 0
  OfIntent request P =
      (execute : Executor V F W) → h.executor request.intent ≡ some execute → P execute

  pub run_executor-KeepsKeys :
      (request : OperationRequest V) (o : Option (Executor V F W))
      → ((execute : Executor V F W) → o ≡ some execute → KeepsKeys request execute)
      → KeepsKeys request (run_executor h o)
  unfolding run_executor
  run_executor-KeepsKeys request none p = record {
    same_id = λ rt id world. refl;
    keyed = λ rt id world k. k;
  }
  run_executor-KeepsKeys request (some execute) p =
      let q = p execute refl in record { same_id = q.same_id; keyed = q.keyed }

  pub run_executor-LeavesKey :
      (request : OperationRequest V) (key : String) (o : Option (Executor V F W))
      → ((execute : Executor V F W) → o ≡ some execute → LeavesKey request key execute)
      → LeavesKey request key (run_executor h o)
  unfolding run_executor
  run_executor-LeavesKey request key none p = record {
    keeps = run_executor-KeepsKeys request none (λ execute e. absurd (cc));
    same_record = λ rt world k. refl;
    same_conflict = λ rt world k. refl;
  }
  run_executor-LeavesKey request key (some execute) p =
      let q = p execute refl in
      record {
        keeps = run_executor-KeepsKeys request (some execute) (λ other e. (p other e).keeps);
        same_record = q.same_record;
        same_conflict = q.same_conflict;
      }

  operation_id_of-named :
      (m : Moment V F) (rt : Runtime V F) (key : String)
      → is_blank key ≡ false
      → operation_id_of h m rt (some key) ≡ (key, rt)
  unfolding operation_id_of
  operation_id_of-named m rt key named = rw named refl

  pub numbered-named :
      (m : Moment V F) (rt : Runtime V F) (request : OperationRequest V) (key : String)
      → request.idempotency_key ≡ some key
      → is_blank key ≡ false
      → (id_of h m rt request ≡ key) × (numbered h m rt request ≡ rt)
  numbered-named m rt request key keyed named =
      let both = ap (operation_id_of h m rt) keyed ∙ operation_id_of-named m rt key named in
      (ap (λ p. p.0) both, ap (λ p. p.1) both)

  pub refresh-operations :
      (m : Moment V F) (rt : Runtime V F) (request : OperationRequest V) (world : W)
      → ((refresh_policy h m rt request world).0.operations ≡ rt.operations)
        × ((refresh_policy h m rt request world).0.cache ≡ rt.cache)
  unfolding refresh_policy
  refresh-operations m rt request world = elim (Bool-cases (intent_needs_browser request.intent)) [
    | inr other ↦ rw other (refl, refl)
    | inl browser ↦ elim (Bool-cases ((h.ensure_browser world).0 && not m.browser_gate_was_open)) [
      | inl opened ↦ rw (browser, opened) (refl, refl)
      | inr as_before ↦ rw (browser, as_before) (refl, refl)
    ]
  ]

  -- A key that is bound or a record that is open ends the next call.
  pub bound_stays :
      (m : Moment V F) (rt : Runtime V F) (request : OperationRequest V) (key : String) (world : W)
      → request.idempotency_key ≡ some key
      → is_blank key ≡ false
      → (get rt.cache.idempotent key ≢ none) ⊎ (contains_key rt.cache.conflicts key ≡ true)
      → Untouched h request world (operate h m rt request world).1.1
  bound_stays m rt request key world keyed named bound = elim (operate-cases h m rt request world) [
    | inr still ↦ still
    | inl (fresh, admitted, same) ↦
        let (_, rt_same) = numbered-named m rt request key keyed named in
        let new =
          subst (λ k. IsNew h rt request k) keyed
            (subst (λ r. IsNew h r request request.idempotency_key) rt_same fresh) in
        elim bound [ inl there ↦ absurd (there new.0) | inr clash ↦ absurd (cc (new.1, clash)) ]
  ]

  pub open_stays :
      (m : Moment V F) (rt : Runtime V F) (request : OperationRequest V) (key : String) (world : W)
      (r : DurableOperation V)
      → request.idempotency_key ≡ some key
      → is_blank key ≡ false
      → IsKeyed rt.operations.records
      → get rt.operations.records key ≡ some r
      → r.idempotency_key ≡ some key
      → is_open r.state ≡ true
      → Untouched h request world (operate h m rt request world).1.1
  open_stays m rt request key world r keyed named h_keyed there k is_under_way =
      elim (operate-cases h m rt request world) [
        | inr still ↦ still
        | inl (fresh, admitted, same) ↦
            let (_, rt_same) = numbered-named m rt request key keyed named in
            let same_ops : (entered h m rt request world).operations ≡ rt.operations =
              (refresh-operations m (numbered h m rt request) request world).0
              ∙ ap (λ x. x.operations) rt_same in
            let free =
              subst (λ o. NotOpen h m (entered h m rt request world) request o) keyed
                admitted.not_open in
            let found = find-IsKeyed rt.operations.records key r h_keyed named there k in
            absurd (
              cc (
                free r (ap (λ j. find (same_key h key) (values j.records)) same_ops ∙ found),
                is_under_way,
              ))
      ]
