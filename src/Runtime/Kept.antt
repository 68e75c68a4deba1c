-- ===== src/Runtime/Kept.antt =====
-- What a call of `operate` in crates/comptrol-core/src/lib.rs keeps of the runtime: all that its parts
-- keep.
use comptrol.Base.{◌≡◌, refl, sym, subst, ◌∙◌, inl, inr, String, some, Result, ok, err, Bool-cases}
use comptrol.Runtime.Types.{OperationRequest, ActionResult, mutation}
use comptrol.Runtime.Risks.{effective_risk}
use comptrol.Runtime.Journal.{JournalWrite}
use comptrol.Runtime.State.{Runtime, Host, Moment}
use comptrol.Runtime.Gates.{Reply, returned, remembered, Gate, refuse}
use comptrol.Runtime.Operate.{remember}
use comptrol.Runtime.Dispatch.{
  operate, settle, after_gate, admit_and_carry_out, carry_out, dispatch_written, dispatch,
  write_ahead, run_executor, finish, record_outcome, with_timing, refresh_policy,
}
use comptrol.Runtime.Safety.{id_of, numbered, entered, started}
use comptrol.Runtime.Replay.{timed-same}
use comptrol.Runtime.Answers.{Answers, Under, admit-Under, identify-Under}

module _ {V F W : Type 0} (h : Host V F W) (m : Moment V F) (request : OperationRequest V)
    (Fits : String → Type 0) (P : Runtime V F → Type 0) where
  -- Each part of a call keeps `P`, under an identity that fits.
  pub record IsKept : Type 0 where
    pub remembers :
        (rt : Runtime V F) (result : ActionResult V)
        → Fits result.operation_id
        → P rt
        → P (remember h m rt request result)
    pub writes :
        (rt : Runtime V F) (id : String)
        → Fits id
        → P rt
        → P (record rt { operations = (write_ahead h m rt.operations request id).journal })
    pub outcomes :
        (rt : Runtime V F) (result : ActionResult V) → P rt → P (record_outcome h m rt result)
    pub runs :
        (rt : Runtime V F) (id : String) (world : W)
        → Fits id
        → P rt
        → P (run_executor h (h.executor request.intent) rt request id world).1.0
    pub names :
        (rt : Runtime V F) (id : String) (world : W)
        → (run_executor h (h.executor request.intent) rt request id world).0.operation_id ≡ id
    pub numbers : (rt : Runtime V F) → P rt → P (numbered h m rt request)
    pub refreshes :
        (rt : Runtime V F) (world : W) → P rt → P (refresh_policy h m rt request world).0

  module _ (k : IsKept) where
    settle-kept :
        (rt : Runtime V F) (world : W) (id : String) (reply : Reply V)
        → Fits id
        → Answers h m request id reply
        → P rt
        → P (settle h m rt request world reply).1.0
    unfolding settle
    settle-kept rt world id (returned result) fits a p = p
    settle-kept rt world id (remembered result) fits a p =
        k.remembers rt result (subst Fits (sym a) fits) p

    after_gate-kept :
        (rt : Runtime V F) (world : W) (id : String) (next : ActionResult V × (Runtime V F × W))
        (g : Gate V)
        → Fits id
        → Under h m request id g
        → P rt
        → P next.1.0
        → P (after_gate h m rt request world next g).1.0
    unfolding after_gate Under
    after_gate-kept rt world id next (ok done) fits u p q = q
    after_gate-kept rt world id next (err reply) fits u p q = settle-kept rt world id reply fits u p

    dispatch-kept :
        (rt : Runtime V F) (world : W) (id : String)
        → Fits id
        → P rt
        → P (dispatch h m rt request id world).1.0
    unfolding dispatch finish with_timing
    dispatch-kept rt world id fits p =
        let out = run_executor h (h.executor request.intent) rt request id world in
        let (_, _, i) = timed-same h m out.0 (h.json.as_object out.0.data_value) in
        k.remembers (record_outcome h m out.1.0 (with_timing h m out.0)) (with_timing h m out.0)
          (subst Fits (sym (i ∙ k.names rt id world)) fits)
          (k.outcomes out.1.0 (with_timing h m out.0) (k.runs rt id world fits p))

    written-kept :
        (rt : Runtime V F) (world : W) (id : String) (w : JournalWrite V)
        (answer : Result String (Unit {0}))
        → w.answer ≡ answer
        → Fits id
        → P (record rt { operations = w.journal })
        → P (dispatch_written h m rt request id world w).1.0
    unfolding dispatch_written
    written-kept rt world id w (ok tt) same fits p =
        rw same (dispatch-kept (record rt { operations = w.journal }) world id fits p)
    written-kept rt world id w (err message) same fits p = rw same (
        settle-kept (record rt { operations = w.journal }) world id
          (refuse h.json request id "recovery_unavailable" message
            (some "Repair the local operation journal before allowing mutations"))
          fits refl p)

    carry_out-kept :
        (rt : Runtime V F) (world : W) (id : String)
        → Fits id
        → P rt
        → P (carry_out h m rt request id world).1.0
    unfolding carry_out
    carry_out-kept rt world id fits p = elim (Bool-cases (mutation (effective_risk request))) [
      | inl mutates ↦ rw mutates (
          written-kept rt world id (write_ahead h m rt.operations request id) _ refl fits
            (k.writes rt id fits p))
      | inr reads ↦ rw reads (dispatch-kept rt world id fits p)
    ]

    pub operate-kept :
        (rt : Runtime V F) (world : W)
        → Fits (id_of h m rt request)
        → P rt
        → P (operate h m rt request world).1.0
    unfolding operate admit_and_carry_out
    operate-kept rt world fits p =
        let id = id_of h m rt request in
        let rt1 = numbered h m rt request in
        let world2 = started h m rt request world in
        let rt2 = entered h m rt request world in
        let p1 = k.numbers rt p in
        let p2 = k.refreshes rt1 world p1 in
        after_gate-kept rt1 world id _ _ fits
          (identify-Under h m request rt1 id request.idempotency_key) p1
          (after_gate-kept rt2 world2 id _ _ fits (admit-Under h m request rt2 id) p2
            (carry_out-kept rt2 world2 id fits p2))
