-- ===== src/Runtime/Nested.antt =====
-- The calls of `operate` that an executor of crates/comptrol-core/src/lib.rs makes for the steps of a
-- workflow, a recipe or a speculative batch have no idempotency key; what such a call leaves alone.
use comptrol.Base.{
  ◌≡◌, ◌≢◌, refl, sym, ap, subst, ◌∙◌, inl, inr, String, Bool, Option, none, eq_string, ◌==◌,
  eq_iff, get, get-insert, contains_key, Result, ok, err, Bool-cases, Option-cases,
}
use comptrol.Runtime.Types.{OperationRequest, ActionResult}
use comptrol.Runtime.Risks.{effective_risk}
use comptrol.Runtime.Journal.{
  DurableOperation, OperationJournal, JournalWrite, WriteAnswer, DurableState, record_of, prepared,
  authorized, dispatched, prepare, mark_authorized, mark_dispatched, and_then, complete_operation,
  write_operation, update_operation, update_found, in_state,
}
use comptrol.Runtime.Journal.Keys.{IsKeyed, NamedByKey, write-IsKeyed, get-NamedByKey}
use comptrol.Runtime.Journal.Writes.{write-cases}
use comptrol.Runtime.Idempotency.{cache_idempotency}
use comptrol.Runtime.State.{Runtime, Host, Moment}
use comptrol.Runtime.Operate.{remember, is_unknown, needs_reconciliation}
use comptrol.Runtime.Dispatch.{operate, write_ahead, run_executor, record_outcome}
use comptrol.Runtime.Safety.{id_of}
use comptrol.Runtime.Once.{OfIntent, KeepsKeys, run_executor-KeepsKeys, refresh-operations}
use comptrol.Runtime.Kept.{IsKept, operate-kept}
use comptrol.Runtime.Keyed.{numbered-operations}

module _ {V : Type 0} (key : String) (held : Option (DurableOperation V)) where
  -- The records are named by their keys, and the key has what it had.
  abbrev pub Holds : OperationJournal V → Type 0
  Holds j = IsKeyed j.records × (get j.records key ≡ held)

  write-Holds :
      (a : WriteAnswer) (j : OperationJournal V) (r : DurableOperation V)
      → NamedByKey r
      → r.operation_id ≢ key
      → Holds j
      → Holds (write_operation a j r).journal
  write-Holds a j r named apart (k, there) = (
    write-IsKeyed a j r named k,
    elim (write-cases a j r) [
      | inr kept ↦ ap (λ x. get x key) kept ∙ there
      | inl done ↦ elim (Bool-cases (r.operation_id == key)) [
        | inl same ↦ absurd (apart ((eq_iff r.operation_id key).0 same))
        | inr other ↦
            ap (λ x. get x key) done ∙ get-insert j.records r.operation_id key r ∙ rw other there
      ]
    ],
  )

  update-Holds :
      (a : WriteAnswer) (j : OperationJournal V) (id : String) (state : DurableState)
      → id ≢ key
      → Holds j
      → Holds (update_operation a j id (in_state state)).journal
  unfolding update_operation update_found
  update-Holds a j id state apart (k, there) = elim (Option-cases (get j.records id)) [
    | inl missing ↦ rw missing (k, there)
    | inr (r, found) ↦
        let (at_id, named) = get-NamedByKey j.records id r k found in
        rw found (write-Holds a j (in_state state r) named (λ e. apart (sym at_id ∙ e)) (k, there))
  ]

  and_then-Holds :
      (w : JournalWrite V) (next : OperationJournal V → JournalWrite V)
      (answer : Result String (Unit {0}))
      → w.answer ≡ answer
      → Holds w.journal
      → ((j : OperationJournal V) → Holds j → Holds (next j).journal)
      → Holds (and_then w next).journal
  and_then-Holds w next (ok tt) same h k = rw same (k w.journal h)
  and_then-Holds w next (err message) same h k = rw same h

module _ {V F W : Type 0} (h : Host V F W) (m : Moment V F) (request : OperationRequest V)
    (keyless : request.idempotency_key ≡ none) (key : String) (held : Option (DurableOperation V))
    (poisoned : Bool) where
  abbrev pub HoldsKey : Runtime V F → Type 0
  HoldsKey rt = Holds key held rt.operations × (contains_key rt.cache.conflicts key ≡ poisoned)

  remember-cache :
      (rt : Runtime V F) (result : ActionResult V)
      → (remember h m rt request result).cache ≡ rt.cache
  unfolding remember cache_idempotency
  remember-cache rt result = elim (Bool-cases (is_unknown result.delivery)) [
    | inl lost ↦ rw lost refl
    | inr known ↦ elim (Bool-cases (needs_reconciliation result.recovery)) [
      | inl asks ↦ rw (known, asks) refl
      | inr settled ↦ rw (known, settled, keyless) refl
    ]
  ]

  remember-HoldsKey :
      (rt : Runtime V F) (result : ActionResult V)
      → result.operation_id ≢ key
      → HoldsKey rt
      → HoldsKey (remember h m rt request result)
  unfolding remember complete_operation
  remember-HoldsKey rt result apart (holds, calm) = (
    write-Holds key held m.complete_answer rt.operations _ (λ j e named. absurd (cc (keyless, e)))
        apart holds,
    ap (λ c. contains_key c.conflicts key) (remember-cache rt result) ∙ calm,
  )

  write_ahead-Holds :
      (journal : OperationJournal V) (id : String)
      → id ≢ key
      → Holds key held journal
      → Holds key held (write_ahead h m journal request id).journal
  unfolding write_ahead prepare mark_authorized mark_dispatched
  write_ahead-Holds journal id apart holds =
      let first = prepare h.digests m.prepare_answer journal request id (effective_risk request) in
      let p =
        write-Holds key held m.prepare_answer journal
          (record_of h.digests request id (effective_risk request) prepared none)
          (λ j e named. absurd (cc (keyless, e))) apart holds in
      let second = and_then first (λ j. mark_authorized m.authorized_answer j id) in
      and_then-Holds key held second (λ j. mark_dispatched m.dispatched_answer j id) second.answer
        refl
        (and_then-Holds key held first (λ j. mark_authorized m.authorized_answer j id) first.answer
          refl p (λ j c. update-Holds key held m.authorized_answer j id authorized apart c))
        (λ j c. update-Holds key held m.dispatched_answer j id dispatched apart c)

  -- An executor that keeps all this too.
  pub record KeepsKey : Type 0 where
    pub keeps : OfIntent h request (KeepsKeys h request)
    pub runs :
        (rt : Runtime V F) (id : String) (world : W)
        → HoldsKey rt
        → HoldsKey (run_executor h (h.executor request.intent) rt request id world).1.0

  HoldsKey-IsKept : KeepsKey → IsKept h m request (λ id. id ≢ key) HoldsKey
  unfolding record_outcome
  HoldsKey-IsKept k = record {
    remembers = remember-HoldsKey;
    writes = λ rt id apart p. (write_ahead-Holds rt.operations id apart p.0, p.1);
    outcomes = λ rt result p. p;
    runs = λ rt id world apart p. k.runs rt id world p;
    names = (run_executor-KeepsKeys h request (h.executor request.intent) k.keeps).same_id;
    numbers = λ rt p.
        let (o, c) = numbered-operations h m request rt request.idempotency_key in
        (subst (Holds key held) (sym o) p.0, ap (λ x. contains_key x.conflicts key) c ∙ p.1);
    refreshes = λ rt world p.
        let (o, c) = refresh-operations h m rt request world in
        (subst (Holds key held) (sym o) p.0, ap (λ x. contains_key x.conflicts key) c ∙ p.1);
  }

  -- A call without a key, whose identity is not the key, leaves alone what the runtime knows of the
  -- key.
  pub operate-HoldsKey :
      (rt : Runtime V F) (world : W)
      → KeepsKey
      → id_of h m rt request ≢ key
      → IsKeyed rt.operations.records
      → get rt.operations.records key ≡ held
      → contains_key rt.cache.conflicts key ≡ poisoned
      → HoldsKey (operate h m rt request world).1.0
  operate-HoldsKey rt world k apart keyed there calm =
      operate-kept h m request (λ id. id ≢ key) HoldsKey (HoldsKey-IsKept k) rt world apart
        ((keyed, there), calm)
