-- ===== src/Runtime/Journal/Writes.antt =====
-- What a write of the operation journal that is answered as done leaves in memory and in the file,
-- and the write-ahead chain of `operate` in crates/comptrol-core/src/lib.rs.
use comptrol.Base.{
  ◌≡◌, refl, sym, subst, ◌⊎◌, inl, inr, String, none, some, [], ◌∷◌, ◌++◌, get, insert, Result, ok,
  err, get-insert_same,
}
use comptrol.Base.LineLog.{AppendOutcome, refused, partial, unterminated, appended, joined}
use comptrol.Runtime.Types.{OperationRequest}
use comptrol.Runtime.Risks.{effective_risk}
use comptrol.Runtime.Journal.{
  DurableOperation, OperationJournal, JournalWrite, WriteAnswer, DurableState, dispatched,
  authorized, prepared, record_of, write_operation, after_write, and_then, update_operation,
  update_found, in_state, prepare, mark_authorized, mark_dispatched,
}
use comptrol.Runtime.State.{Host, Moment}
use comptrol.Runtime.Dispatch.{write_ahead}

module _ {V : Type 0} where
  -- The journal `w` is `j` with one record written, in memory and as the last line of the file.
  pub record IsWritten (j w : OperationJournal V) (r : DurableOperation V) : Type 0 where
    pub held : w.records ≡ insert j.records r.operation_id r
    pub whole : w.log.tail ≡ none
    pub lines : w.log.lines ≡ j.log.lines ++ joined j.log.tail r ∷ []

  write_outcome :
      (outcome : AppendOutcome) (message : String) (j : OperationJournal V) (r : DurableOperation V)
      → (write_operation (record { outcome = outcome; message = message }) j r).answer ≡ ok tt
      → IsWritten j
          (write_operation (record { outcome = outcome; message = message }) j r).journal
          r
  unfolding write_operation after_write
  write_outcome refused message j r e = absurd (cc)
  write_outcome partial message j r e = absurd (cc)
  write_outcome unterminated message j r e = absurd (cc)
  write_outcome appended message j r e = record { held = refl; whole = refl; lines = refl }

  write_outcome-cases :
      (outcome : AppendOutcome) (message : String) (j : OperationJournal V) (r : DurableOperation V)
      → let w = (write_operation (record { outcome = outcome; message = message }) j r).journal in
        (w.records ≡ insert j.records r.operation_id r) ⊎ (w.records ≡ j.records)
  unfolding write_operation after_write
  write_outcome-cases refused message j r = inr refl
  write_outcome-cases partial message j r = inr refl
  write_outcome-cases unterminated message j r = inr refl
  write_outcome-cases appended message j r = inl refl

  -- Whatever a write answers, the records have the new one, or are as before.
  pub write-cases :
      (a : WriteAnswer) (j : OperationJournal V) (r : DurableOperation V)
      → let w = (write_operation a j r).journal in
        (w.records ≡ insert j.records r.operation_id r) ⊎ (w.records ≡ j.records)
  write-cases a j r = write_outcome-cases a.outcome a.message j r

  pub write-IsWritten :
      (a : WriteAnswer) (j : OperationJournal V) (r : DurableOperation V)
      → (write_operation a j r).answer ≡ ok tt
      → IsWritten j (write_operation a j r).journal r
  write-IsWritten a j r e = write_outcome a.outcome a.message j r e

  update-IsWritten :
      (a : WriteAnswer) (j : OperationJournal V) (operation_id : String) (state : DurableState)
      (r : DurableOperation V)
      → get j.records operation_id ≡ some r
      → (update_operation a j operation_id (in_state state)).answer ≡ ok tt
      → IsWritten j (update_operation a j operation_id (in_state state)).journal (in_state state r)
  unfolding update_operation update_found
  update-IsWritten a j operation_id state r there e =
      rw there (write-IsWritten a j (in_state state r) (rw there at e))

  and_then-answer :
      (w : JournalWrite V) (next : OperationJournal V → JournalWrite V)
      (answer : Result String (Unit {0}))
      → w.answer ≡ answer
      → (and_then w next).answer ≡ ok tt
      → (w.answer ≡ ok tt) × (and_then w next ≡ next w.journal) × ((next w.journal).answer ≡ ok tt)
  and_then-answer w next (ok tt) same e = (same, rw same refl, rw same at e)
  and_then-answer w next (err message) same e = absurd (cc (rw same at e))

  pub and_then-ok :
      (w : JournalWrite V) (next : OperationJournal V → JournalWrite V)
      → (and_then w next).answer ≡ ok tt
      → (w.answer ≡ ok tt) × (and_then w next ≡ next w.journal) × ((next w.journal).answer ≡ ok tt)
  and_then-ok w next e = and_then-answer w next w.answer refl e

  pub IsWritten-get :
      (j w : OperationJournal V) (r : DurableOperation V)
      → IsWritten j w r
      → get w.records r.operation_id ≡ some r
  IsWritten-get j w r h = rw h.held (get-insert_same j.records r.operation_id r)

module _ {V F W : Type 0} (h : Host V F W) (m : Moment V F) (journal : OperationJournal V)
    (request : OperationRequest V) (operation_id : String) where
  -- The record that a mutation leaves before it is dispatched.
  abbrev pub dispatched_record : DurableOperation V
  dispatched_record =
      record_of h.digests request operation_id (effective_risk request) dispatched none

  -- The journal after the first two writes.
  abbrev staged : OperationJournal V
  staged =
      (and_then
        (prepare h.digests m.prepare_answer journal request operation_id (effective_risk request))
        (λ j. mark_authorized m.authorized_answer j operation_id)).journal

  pub write_ahead-IsWritten :
      (write_ahead h m journal request operation_id).answer ≡ ok tt
      → (before : OperationJournal V) × (before.log.tail ≡ none)
        × IsWritten before (write_ahead h m journal request operation_id).journal dispatched_record
  unfolding write_ahead prepare mark_authorized mark_dispatched
  write_ahead-IsWritten e =
      let first = record_of h.digests request operation_id (effective_risk request) prepared none in
      let (both, same, last) =
        and_then-ok _ (λ j. mark_dispatched m.dispatched_answer j operation_id) e in
      let (one, same', two) =
        and_then-ok
          (prepare h.digests m.prepare_answer journal request operation_id (effective_risk request))
          (λ j. mark_authorized m.authorized_answer j operation_id) both in
      let wp = write-IsWritten m.prepare_answer journal first one in
      let wa =
        update-IsWritten m.authorized_answer _ operation_id authorized first
          (IsWritten-get _ _ first wp) two in
      let there =
        subst (λ w. get w.journal.records operation_id ≡ some (in_state authorized first))
          (sym same') (IsWritten-get _ _ (in_state authorized first) wa) in
      let wd =
        update-IsWritten m.dispatched_answer _ operation_id dispatched (in_state authorized first)
          there last in
      (
        staged,
        subst (λ w. w.journal.log.tail ≡ none) (sym same') wa.whole,
        subst (λ w. IsWritten staged w.journal dispatched_record) (sym same) wd,
      )
