-- ===== src/Runtime/WriteAhead.antt =====
-- The write-ahead rule of `operate` in crates/comptrol-core/src/lib.rs.
use comptrol.Base.{
  ◌≡◌, ◌≢◌, refl, sym, inl, inr, ◌∙◌, ap, subst, String, true, Option, none, some, List, [], ◌∷◌,
  ◌++◌, get, Result, ok, err,
}
use comptrol.Base.LineLog.{joined}
use comptrol.Runtime.Types.{mutation, OperationRequest}
use comptrol.Runtime.Risks.{effective_risk, classify}
use comptrol.Runtime.Journal.{OperationJournal, JournalWrite, DurableOperation}
use comptrol.Runtime.Journal.Writes.{dispatched_record, write_ahead-IsWritten, IsWritten-get}
use comptrol.Runtime.State.{Runtime, Host, Moment}
use comptrol.Runtime.Dispatch.{operate, carry_out, dispatch, dispatch_written, write_ahead, settle}
use comptrol.Runtime.Safety.{
  operate-cases, Untouched, Executed, started, started-Untouched, entered, id_of, numbered, IsNew,
  mutation_classified,
}

module _ {V F W : Type 0} (h : Host V F W) where
  dispatch_written-moved :
      (m : Moment V F) (rt : Runtime V F) (request : OperationRequest V) (operation_id : String)
      (world : W) (w : JournalWrite V) (answer : Result String (Unit {0}))
      → w.answer ≡ answer
      → (dispatch_written h m rt request operation_id world w).1.1 ≢ world
      → (w.answer ≡ ok tt)
        × (dispatch_written h m rt request operation_id world w
            ≡ dispatch h m (record rt { operations = w.journal }) request operation_id world)
  unfolding dispatch_written settle
  dispatch_written-moved m rt request operation_id world w (ok tt) same moved = (same, rw same refl)
  dispatch_written-moved m rt request operation_id world w (err message) same moved =
      absurd (moved (rw same refl))

  -- The journal as the executor of a mutation finds it.
  abbrev pub ahead : Moment V F → Runtime V F → OperationRequest V → W → OperationJournal V
  ahead m rt request world =
      (write_ahead h m (entered h m rt request world).operations request
        (id_of h m rt request)).journal

  -- What is known when a call with a mutation changes the world by more than a browser start.
  pub moved-cases :
      (m : Moment V F) (rt : Runtime V F) (request : OperationRequest V) (world : W)
      → mutation (effective_risk request) ≡ true
      → Executed h request world (operate h m rt request world).1.1
      → IsNew h (numbered h m rt request) request request.idempotency_key
        × ((write_ahead h m
              (entered h m rt request world).operations
              request
              (id_of h m rt request)).answer
            ≡ ok tt)
        × (operate h m rt request world
            ≡ dispatch h m
                (record (entered h m rt request world) { operations = ahead m rt request world })
                request
                (id_of h m rt request)
                (started h m rt request world))
  unfolding carry_out
  moved-cases m rt request world mutates moved = elim (operate-cases h m rt request world) [
    | inr still ↦ absurd (moved still)
    | inl (fresh, admitted, same) ↦
        let same' = same ∙ rw mutates refl in
        let (written, dispatched) =
          dispatch_written-moved m (entered h m rt request world) request (id_of h m rt request)
            (started h m rt request world)
            (write_ahead h m (entered h m rt request world).operations request
              (id_of h m rt request))
            _ refl
            (λ still. moved (
              subst (Untouched h request world) (sym (ap (λ o. o.1.1) same' ∙ still))
                (started-Untouched h m rt request world))) in
        (fresh, written, same' ∙ dispatched)
  ]

  -- A mutation is written ahead: if a call for an intent classified above R0 changes the world by more
  -- than the start of a browser for a browser intent, then its executor ran, in the world behind that
  -- start, with a journal that records the operation as dispatched, in memory and as the last line of
  -- the file, written out to its end.
  pub mutation_written_ahead :
      (m : Moment V F) (rt : Runtime V F) (request : OperationRequest V) (world : W)
      → mutation (classify request.intent) ≡ true
      → Executed h request world (operate h m rt request world).1.1
      → let operation_id = id_of h m rt request in
        let r = dispatched_record h m rt.operations request operation_id in
        (journal : OperationJournal V) × (operate h m rt request world
          ≡ dispatch h m
              (record (entered h m rt request world) { operations = journal })
              request
              operation_id
              (started h m rt request world))
        × (get journal.records operation_id ≡ some r)
        × (journal.log.tail ≡ none)
        × (lines : List (Option (DurableOperation V))) × (journal.log.lines ≡ lines ++ some r ∷ [])
  mutation_written_ahead m rt request world mutates moved =
      let (fresh, written, same) =
        moved-cases m rt request world (mutation_classified h request mutates) moved in
      let (before, whole, w) =
        write_ahead-IsWritten h m (entered h m rt request world).operations request
          (id_of h m rt request) written in
      (
        ahead m rt request world,
        same,
        IsWritten-get before _ _ w,
        w.whole,
        before.log.lines,
        w.lines
            ∙ ap
                (λ t.
                  before.log.lines
                  ++ joined t (dispatched_record h m rt.operations request (id_of h m rt request))
                    ∷ [])
                whole,
      )
