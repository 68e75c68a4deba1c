-- ===== src/Runtime/RunsOnce.antt =====
-- Why `operate` of crates/comptrol-core/src/lib.rs runs a mutation once under its key.
use comptrol.Base.{
  ◌≡◌, refl, sym, ap, subst, ◌∙◌, inl, inr, String, true, false, some, eq_string, eq_option, get,
  contains_key, is_blank, Bool-cases,
}
use comptrol.Runtime.Types.{mutation, OperationRequest, ActionResult}
use comptrol.Runtime.Risks.{classify}
use comptrol.Runtime.Journal.{DurableOperation, is_open}
use comptrol.Runtime.Journal.Keys.{IsKeyed}
use comptrol.Runtime.Journal.Writes.{dispatched_record, write_ahead-IsWritten, IsWritten-get}
use comptrol.Runtime.State.{Runtime, Host, Moment}
use comptrol.Runtime.Operate.{remember, is_unknown, needs_reconciliation}
use comptrol.Runtime.Dispatch.{
  operate, write_ahead, dispatch, run_executor, with_timing, timed, finish, record_outcome,
}
use comptrol.Runtime.Safety.{
  Untouched, Executed, started, entered, id_of, numbered, IsNew, mutation_classified,
}
use comptrol.Runtime.WriteAhead.{moved-cases, ahead}
use comptrol.Runtime.Once.{
  OfIntent, LeavesKey, IsSettled, run_executor-LeavesKey, numbered-named, refresh-operations,
  bound_stays, open_stays,
}
use comptrol.Runtime.Replay.{
  timed-same, remember-IsBound, remember-IsKeyed, remember-open, write_ahead-IsKeyed,
}

module _ {V F W : Type 0} (h : Host V F W) where
  -- What a dispatched operation leaves ends the next call with its key.
  remembered_stays :
      (m later : Moment V F) (rt : Runtime V F) (request : OperationRequest V) (key : String)
      (raw : ActionResult V) (next : W) (r : DurableOperation V)
      → request.idempotency_key ≡ some key
      → is_blank key ≡ false
      → raw.operation_id ≡ key
      → (needs_reconciliation raw.recovery ≡ true → is_unknown raw.delivery ≡ true)
      → contains_key rt.cache.conflicts key ≡ false
      → IsKeyed rt.operations.records
      → get rt.operations.records key ≡ some r
      → r.idempotency_key ≡ some key
      → is_open r.state ≡ true
      → Untouched h request next
          (operate h later
            (remember h m
              (record_outcome h m rt (with_timing h m raw))
              request
              (with_timing h m raw))
            request
            next).1.1
  unfolding record_outcome with_timing
  remembered_stays m later rt request key raw next r keyed named id lost_only calm h_keyed there k
        is_under_way =
      let result = timed h m raw (h.json.as_object raw.data_value) in
      let rt1 : Runtime V F = record_outcome h m rt result in
      let (d, c, i) = timed-same h m raw (h.json.as_object raw.data_value) in
      elim (Bool-cases (is_unknown raw.delivery)) [
        | inl lost ↦
            let (s, found, s_key, s_open) =
              remember-open h m rt1 request result key r keyed (i ∙ id) (ap is_unknown d ∙ lost)
                there k is_under_way in
            open_stays h later (remember h m rt1 request result) request key next s keyed named
              (remember-IsKeyed h m rt1 request result key keyed (i ∙ id) h_keyed) found s_key
              s_open
        | inr known ↦
            let settled : needs_reconciliation raw.recovery ≡ false =
              elim (Bool-cases (needs_reconciliation raw.recovery)) [
                | inl asks ↦ absurd (cc (lost_only asks, known))
                | inr fine ↦ fine
              ] in
            bound_stays h later (remember h m rt1 request result) request key next keyed named (
              remember-IsBound h m rt1 request result key keyed (ap is_unknown d ∙ known)
                (ap needs_reconciliation c ∙ settled) calm)
      ]

  -- A mutation runs once. If a call with an idempotency key that is not blank, for an intent
  -- classified above R0, has changed the world by more than the start of a browser, then the same
  -- request changes nothing again but for the start of a browser, and that only for a browser intent,
  -- whatever the next call sees, and whatever the file system answers to the last write of the first:
  -- if the records of the journal are named by their keys, the executor of the intent, where there is
  -- one, given such a journal leaves alone what the runtime knows of the key and keeps the records so
  -- named, and answers under the identity of the operation, and the first result does not ask for
  -- reconciliation of a delivery that is known.
  pub mutation_runs_once :
      (m later : Moment V F) (rt : Runtime V F) (request : OperationRequest V) (key : String)
      (world next : W)
      → OfIntent h request (LeavesKey h request key)
      → request.idempotency_key ≡ some key
      → is_blank key ≡ false
      → mutation (classify request.intent) ≡ true
      → IsKeyed rt.operations.records
      → IsSettled h (operate h m rt request world).0
      → Executed h request world (operate h m rt request world).1.1
      → Untouched h request next
          (operate h later (operate h m rt request world).1.0 request next).1.1
  unfolding dispatch finish record_outcome with_timing
  mutation_runs_once m later rt request key world next leaves keyed named mutates h_keyed settled
        moved =
      let (fresh, written, same) =
        moved-cases h m rt request world (mutation_classified h request mutates) moved in
      let (id_key, rt_same) = numbered-named h m rt request key keyed named in
      let (kept_ops, kept_cache) = refresh-operations h m (numbered h m rt request) request world in
      let p = run_executor-LeavesKey h request key (h.executor request.intent) leaves in
      let rt_a : Runtime V F = record (entered h m rt request world) {
        operations = ahead h m rt request world;
      } in
      let world_a = started h m rt request world in
      let run = run_executor h (h.executor request.intent) in
      let out = run rt_a request key world_a in
      let same_out = same ∙ ap (λ i. dispatch h m rt_a request i world_a) id_key in
      let (d, c, i) = timed-same h m out.0 (h.json.as_object out.0.data_value) in
      let lost_only : IsSettled h out.0 = λ asks.
        sym (ap (λ o. is_unknown o.0.delivery) same_out ∙ ap is_unknown d)
        ∙ settled (
            ap (λ o. needs_reconciliation o.0.recovery) same_out
            ∙ ap needs_reconciliation c
            ∙ asks) in
      let new = subst (λ k. IsNew h (numbered h m rt request) request k) keyed fresh in
      let same_ops = kept_ops ∙ ap (λ x. x.operations) rt_same in
      let journal = (entered h m rt request world).operations in
      let j_keyed =
        subst (λ x. IsKeyed (write_ahead h m journal request x).journal.records) (sym id_key)
          (write_ahead-IsKeyed h m journal request key keyed
            (subst (λ j. IsKeyed j.records) (sym same_ops) h_keyed)) in
      let calm =
        p.same_conflict rt_a world_a j_keyed
        ∙ ap (λ x. contains_key x.conflicts key) kept_cache
        ∙ new.1 in
      let o_keyed = p.keeps.keyed rt_a key world_a j_keyed in
      let (before, whole, w) =
        write_ahead-IsWritten h m journal request (id_of h m rt request) written in
      let r = dispatched_record h m journal request (id_of h m rt request) in
      let there =
        p.same_record rt_a world_a j_keyed
        ∙ subst (λ x. get rt_a.operations.records x ≡ some r) id_key (IsWritten-get before _ _ w) in
      subst (λ o. Untouched h request next (operate h later o.1.0 request next).1.1) (sym same_out)
        (remembered_stays m later out.1.0 request key out.0 next r keyed named
          (p.keeps.same_id rt_a key world_a) lost_only calm o_keyed there keyed refl)
