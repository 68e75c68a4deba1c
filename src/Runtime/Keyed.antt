-- ===== src/Runtime/Keyed.antt =====
-- The records of the journal stay named by their keys under `operate` of
-- crates/comptrol-core/src/lib.rs.
use comptrol.Base.{
  ◌≡◌, refl, sym, subst, inl, inr, String, false, Option, none, some, is_blank, eq_string,
  eq_option, Bool-cases,
}
use comptrol.Runtime.Types.{OperationRequest, ActionResult}
use comptrol.Runtime.Risks.{effective_risk}
use comptrol.Runtime.Journal.{
  OperationJournal, record_of, prepared, authorized, dispatched, prepare, mark_authorized,
  mark_dispatched, and_then, complete_operation,
}
use comptrol.Runtime.Journal.Keys.{IsKeyed, write-IsKeyed, update-IsKeyed, and_then-IsKeyed}
use comptrol.Runtime.State.{Runtime, Host, Moment}
use comptrol.Runtime.Operate.{remember}
use comptrol.Runtime.Dispatch.{
  operate, write_ahead, record_outcome, operation_id_of, next_operation_id,
}
use comptrol.Runtime.Once.{
  OfIntent, KeepsKeys, run_executor-KeepsKeys, numbered-named, refresh-operations,
}
use comptrol.Runtime.Kept.{IsKept, operate-kept}

module _ {V F W : Type 0} (h : Host V F W) (m : Moment V F) (request : OperationRequest V) where
  -- An identity that the request may have.
  abbrev pub NamesRequest : String → Type 0
  NamesRequest id = (k : String) → request.idempotency_key ≡ some k → is_blank k ≡ false → id ≡ k

  remember-IsKeyed :
      (rt : Runtime V F) (result : ActionResult V)
      → NamesRequest result.operation_id
      → IsKeyed rt.operations.records
      → IsKeyed (remember h m rt request result).operations.records
  unfolding remember complete_operation
  remember-IsKeyed rt result names k = write-IsKeyed m.complete_answer rt.operations _ names k

  write_ahead-IsKeyed :
      (journal : OperationJournal V) (id : String)
      → NamesRequest id
      → IsKeyed journal.records
      → IsKeyed (write_ahead h m journal request id).journal.records
  unfolding write_ahead prepare mark_authorized mark_dispatched
  write_ahead-IsKeyed journal id names k =
      let first = prepare h.digests m.prepare_answer journal request id (effective_risk request) in
      let p =
        write-IsKeyed m.prepare_answer journal
          (record_of h.digests request id (effective_risk request) prepared none) names k in
      and_then-IsKeyed (and_then first (λ j. mark_authorized m.authorized_answer j id))
        (λ j. mark_dispatched m.dispatched_answer j id)
        (and_then-IsKeyed first (λ j. mark_authorized m.authorized_answer j id) p
          (λ j c. update-IsKeyed m.authorized_answer j id authorized c))
        (λ j c. update-IsKeyed m.dispatched_answer j id dispatched c)

  pub numbered-operations :
      (rt : Runtime V F) (key : Option String)
      → ((operation_id_of h m rt key).1.operations ≡ rt.operations)
        × ((operation_id_of h m rt key).1.cache ≡ rt.cache)
  unfolding operation_id_of next_operation_id
  numbered-operations rt none = (refl, refl)
  numbered-operations rt (some key) = elim (Bool-cases (is_blank key)) [
    | inl blank ↦ rw blank (refl, refl)
    | inr named ↦ rw named (refl, refl)
  ]

  pub IsKeyed-IsKept :
      OfIntent h request (KeepsKeys h request)
      → IsKept h m request NamesRequest (λ rt. IsKeyed rt.operations.records)
  unfolding record_outcome
  IsKeyed-IsKept keeps =
      let p = run_executor-KeepsKeys h request (h.executor request.intent) keeps in
      record {
        remembers = remember-IsKeyed;
        writes = λ rt id names k. write_ahead-IsKeyed rt.operations id names k;
        outcomes = λ rt result k. k;
        runs = λ rt id world names k. p.keyed rt id world k;
        names = p.same_id;
        numbers = λ rt k.
            subst (λ j. IsKeyed j.records) (sym (numbered-operations rt request.idempotency_key).0)
              k;
        refreshes = λ rt world k.
            subst (λ j. IsKeyed j.records) (sym (refresh-operations h m rt request world).0) k;
      }

  -- The journal stays named by its keys: a call keeps it so that each record stands under its
  -- identity, once, and that the identity of a record whose key is not blank is the key, if the
  -- executor of the intent, should there be one, keeps it so and answers under the identity that it
  -- is given.
  pub operate-IsKeyed :
      (rt : Runtime V F) (world : W)
      → OfIntent h request (KeepsKeys h request)
      → IsKeyed rt.operations.records
      → IsKeyed (operate h m rt request world).1.0.operations.records
  operate-IsKeyed rt world keeps k =
      operate-kept h m request NamesRequest (λ rt. IsKeyed rt.operations.records)
        (IsKeyed-IsKept keeps) rt world
        (λ key keyed named. (numbered-named h m rt request key keyed named).0) k
