-- ===== src/Runtime/Replay.antt =====
-- What `remember` of crates/comptrol-core/src/lib.rs leaves for the next call with the same key.
use comptrol.Base.{
  ◌≡◌, ◌≢◌, refl, sym, ap, subst, ◌∙◌, ◌⊎◌, inl, inr, String, true, false, Option, none, some,
  eq_string, eq_option, Map, get, insert, contains_key, Bool-cases, get-insert_same,
  contains_key-insert, eq_iff, arith,
}
use comptrol.Runtime.Types.{
  OperationRequest, ActionResult, ComptrolError, DeliveryState, VerificationState, delivery_unknown,
  delivered, not_dispatched, delivery_refused,
}
use comptrol.Runtime.Risks.{effective_risk}
use comptrol.Runtime.Journal.{
  DurableOperation, OperationJournal, is_open, prepared, authorized, dispatched, unknown, record_of,
  complete_operation, completed_state, prepare, mark_authorized, mark_dispatched, and_then,
}
use comptrol.Runtime.Journal.Keys.{IsKeyed, write-IsKeyed, update-IsKeyed, and_then-IsKeyed}
use comptrol.Runtime.Journal.Writes.{write-cases}
use comptrol.Runtime.Idempotency.{
  IdempotencyCache, cache_idempotency, cache_keyed, poison, store_result, differs,
}
use comptrol.Runtime.State.{Runtime, Host, Moment}
use comptrol.Runtime.Operate.{remember, is_unknown, needs_reconciliation}
use comptrol.Runtime.Dispatch.{write_ahead, timed}

-- A result is kept for the key, or the key is poisoned.
abbrev pub IsBound : {V : Type 0} → IdempotencyCache V → String → Type 0
IsBound cache key = (get cache.idempotent key ≢ none) ⊎ (contains_key cache.conflicts key ≡ true)

cache-IsBound :
    {V : Type 0} (cache : IdempotencyCache V) (key fingerprint : String) (result : ActionResult V)
    → contains_key cache.conflicts key ≡ false
    → IsBound (cache_idempotency cache (some key) (some fingerprint) result) key
unfolding cache_idempotency cache_keyed poison store_result
cache-IsBound cache key fingerprint result calm =
    elim (Bool-cases (differs (get cache.fingerprints key) fingerprint)) [
      | inl other ↦ inr (
          rw other (ground (arith, eq_iff key key, contains_key-insert cache.conflicts key key tt)))
      | inr same ↦ inl (rw (same, calm) (λ e. cc (get-insert_same cache.idempotent key result)))
    ]

unknown-state :
    (d : DeliveryState) (v : VerificationState) (e : Option ComptrolError)
    → is_unknown d ≡ true
    → completed_state d v e ≡ unknown
unfolding completed_state
unknown-state delivery_unknown v e u = refl
unknown-state delivered v e u = absurd (cc)
unknown-state not_dispatched v e u = absurd (cc)
unknown-state delivery_refused v e u = absurd (cc)

module _ {V F W : Type 0} (h : Host V F W) where
  pub timed-same :
      (m : Moment V F) (r : ActionResult V) (o : Option (Map V))
      → ((timed h m r o).delivery ≡ r.delivery)
        × ((timed h m r o).recovery ≡ r.recovery)
        × ((timed h m r o).operation_id ≡ r.operation_id)
  unfolding timed
  timed-same m r none = (refl, refl, refl)
  timed-same m r (some fields) = (refl, refl, refl)

  pub remember-IsBound :
      (m : Moment V F) (rt : Runtime V F) (request : OperationRequest V) (result : ActionResult V)
      (key : String)
      → request.idempotency_key ≡ some key
      → is_unknown result.delivery ≡ false
      → needs_reconciliation result.recovery ≡ false
      → contains_key rt.cache.conflicts key ≡ false
      → IsBound (remember h m rt request result).cache key
  unfolding remember
  remember-IsBound m rt request result key keyed known settled calm =
      rw (known, settled)
        (subst
          (λ k.
            IsBound
              (cache_idempotency rt.cache k (some (h.digests.request_fingerprint request)) result)
              key)
          (sym keyed)
          (cache-IsBound rt.cache key (h.digests.request_fingerprint request) result calm))

  abbrev last_record : OperationRequest V → ActionResult V → DurableOperation V
  last_record request result =
      record_of h.digests request result.operation_id (effective_risk request)
        (completed_state result.delivery result.verification result.error) (some result)

  pub remember-IsKeyed :
      (m : Moment V F) (rt : Runtime V F) (request : OperationRequest V) (result : ActionResult V)
      (key : String)
      → request.idempotency_key ≡ some key
      → result.operation_id ≡ key
      → IsKeyed rt.operations.records
      → IsKeyed (remember h m rt request result).operations.records
  unfolding remember complete_operation
  remember-IsKeyed m rt request result key keyed id h_keyed =
      write-IsKeyed m.complete_answer rt.operations (last_record request result) (λ j e b. id ∙ cc)
        h_keyed

  -- An operation without a known answer stays open.
  pub remember-open :
      (m : Moment V F) (rt : Runtime V F) (request : OperationRequest V) (result : ActionResult V)
      (key : String) (r : DurableOperation V)
      → request.idempotency_key ≡ some key
      → result.operation_id ≡ key
      → is_unknown result.delivery ≡ true
      → get rt.operations.records key ≡ some r
      → r.idempotency_key ≡ some key
      → is_open r.state ≡ true
      → (s : DurableOperation V) × (get (remember h m rt request result).operations.records key
          ≡ some s)
        × (s.idempotency_key ≡ some key)
        × (is_open s.state ≡ true)
  unfolding remember complete_operation
  remember-open m rt request result key r keyed id lost there k is_under_way =
      let last = last_record request result in
      elim (write-cases m.complete_answer rt.operations last) [
        | inl done ↦
            let found =
              subst (λ i. get (insert rt.operations.records result.operation_id last) i ≡ some last)
                id (get-insert_same rt.operations.records result.operation_id last) in
            (
              last,
              ap (λ x. get x key) done ∙ found,
              keyed,
              ap is_open (unknown-state result.delivery result.verification result.error lost),
            )
        | inr kept ↦ (r, ap (λ x. get x key) kept ∙ there, k, is_under_way)
      ]

  pub write_ahead-IsKeyed :
      (m : Moment V F) (journal : OperationJournal V) (request : OperationRequest V) (key : String)
      → request.idempotency_key ≡ some key
      → IsKeyed journal.records
      → IsKeyed (write_ahead h m journal request key).journal.records
  unfolding write_ahead prepare mark_authorized mark_dispatched
  write_ahead-IsKeyed m journal request key keyed h_keyed =
      let first = prepare h.digests m.prepare_answer journal request key (effective_risk request) in
      let p =
        write-IsKeyed m.prepare_answer journal
          (record_of h.digests request key (effective_risk request) prepared none) (λ j e b. cc)
          h_keyed in
      and_then-IsKeyed (and_then first (λ j. mark_authorized m.authorized_answer j key))
        (λ j. mark_dispatched m.dispatched_answer j key)
        (and_then-IsKeyed first (λ j. mark_authorized m.authorized_answer j key) p
          (λ j k. update-IsKeyed m.authorized_answer j key authorized k))
        (λ j k. update-IsKeyed m.dispatched_answer j key dispatched k)
