-- ===== src/Runtime/Journal/Reopen.antt =====
-- `OperationJournal::open` of crates/comptrol-core/src/lib.rs, and what a restart makes of the
-- operations that were under way.
use comptrol.Base.{
  ℕ, length, String, Option, none, some, List, [], ◌∷◌, Map, insert, values, keep, Result, ok, err,
  if◌then◌else◌, eq_string,
}
use comptrol.Base.LineLog.{Log, all_lines}
use comptrol.Runtime.Journal.{
  DurableState, unknown, interrupted, DurableOperation, OperationJournal, WriteAnswer, JournalWrite,
  write_operation, in_state, is_dispatched, is_pending,
}

abbrev pub interrupted_state : DurableState → DurableState
interrupted_state state = if is_dispatched state then unknown else interrupted

module _ {V : Type 0} where
  unfoldable pub read_operations :
      List (Option (DurableOperation V)) → Map (DurableOperation V) → Map (DurableOperation V)
  read_operations [] records = records
  read_operations (none ∷ lines) records = read_operations lines records
  read_operations (some r ∷ lines) records = read_operations lines (insert records r.operation_id r)

  unfoldable pub after_interrupt :
      JournalWrite V
      → Result String (OperationJournal V) × Log (DurableOperation V)
      → Result String (OperationJournal V) × Log (DurableOperation V)
  after_interrupt w rest = elim w.answer [ ok done ↦ rest | err e ↦ (err e, w.journal.log) ]

  -- The loop over the pending records; the first error ends it. `answers` counts the writes.
  unfoldable pub interrupt_all :
      (ℕ → WriteAnswer)
      → OperationJournal V
      → List (DurableOperation V)
      → Result String (OperationJournal V) × Log (DurableOperation V)
  unfolding write_operation after_interrupt
  interrupt_all answers journal [] = (ok journal, journal.log)
  interrupt_all answers journal (r ∷ rs) =
      let w =
        write_operation (answers (length rs)) journal (in_state (interrupted_state r.state) r) in
      let rest = interrupt_all answers w.journal rs in after_interrupt w rest

  -- `OperationJournal::open` on a file that can be read: the journal or the error, and the file.
  unfoldable pub open_journal :
      (ℕ → WriteAnswer)
      → Log (DurableOperation V)
      → Result String (OperationJournal V) × Log (DurableOperation V)
  unfolding read_operations interrupt_all
  open_journal answers log =
      let records = read_operations (all_lines log) [] in
      interrupt_all answers (record { records = records; log = log })
        (keep (λ r. is_pending r.state) (values records))
