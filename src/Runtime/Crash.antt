-- ===== src/Runtime/Crash.antt =====
-- A crash of the runtime of crates/comptrol-core/src/lib.rs behind the write-ahead record.
use comptrol.Base.{
  ◌≡◌, refl, sym, ap, subst, ◌∙◌, String, false, Option, none, some, List, [], ◌∷◌, ◌++◌, Map, get,
  insert, All, ok, ℕ, get-insert_same, is_blank,
}
use comptrol.Base.LineLog.{Log, all_lines}
use comptrol.Runtime.Types.{OperationRequest}
use comptrol.Runtime.Journal.{DurableOperation, WriteAnswer, dispatched}
use comptrol.Runtime.Journal.Keys.{NamedByKey}
use comptrol.Runtime.Journal.Reopen.{read_operations, open_journal}
use comptrol.Runtime.Journal.Restart.{NamedLine, open_journal-IsUnderWay}
use comptrol.Runtime.State.{Runtime, Host, Moment}
use comptrol.Runtime.Dispatch.{operate}
use comptrol.Runtime.Safety.{Untouched}
use comptrol.Runtime.Once.{open_stays}

module _ {V : Type 0} where
  read-append :
      (lines : List (Option (DurableOperation V))) (r : DurableOperation V)
      (m : Map (DurableOperation V))
      → read_operations (lines ++ some r ∷ []) m ≡ insert (read_operations lines m) r.operation_id r
  unfolding read_operations
  read-append [] r m = refl
  read-append (none ∷ lines) r m = read-append lines r m
  read-append (some s ∷ lines) r m = read-append lines r (insert m s.operation_id s)

  All-append_one :
      (lines : List (Option (DurableOperation V))) (x : Option (DurableOperation V))
      → All NamedLine lines
      → NamedLine x
      → All NamedLine (lines ++ x ∷ [])
  All-append_one [] x h p = (p, tt)
  All-append_one (l ∷ lines) x h p = (h.0, All-append_one lines x h.1 p)

module _ {V F W : Type 0} (h : Host V F W) where
  -- A crash does not repeat a mutation. If the file of the journal ends in a whole line with the
  -- record of an operation as dispatched, as it does when the executor of a mutation starts, and its
  -- other lines are named by their keys, then behind a restart that opens the file a request with the
  -- key of that record, if it is not blank, changes nothing in the world but for the start of a browser,
  -- and that only for a browser intent.
  pub crash_not_repeated :
      (answers : ℕ → WriteAnswer) (log : Log (DurableOperation V))
      (lines : List (Option (DurableOperation V))) (r : DurableOperation V) (key : String)
      (m : Moment V F) (rt : Runtime V F) (request : OperationRequest V) (world : W)
      → log.lines ≡ lines ++ some r ∷ []
      → log.tail ≡ none
      → All NamedLine lines
      → r.operation_id ≡ key
      → r.idempotency_key ≡ some key
      → r.state ≡ dispatched
      → (open_journal answers log).0 ≡ ok rt.operations
      → request.idempotency_key ≡ some key
      → is_blank key ≡ false
      → Untouched h request world (operate h m rt request world).1.1
  crash_not_repeated answers log lines r key m rt request world ends whole named id of_key was
        opened keyed unblank =
      let every : all_lines log ≡ lines ++ some r ∷ [] = rw whole ends in
      let mine : NamedByKey r = λ k e b. id ∙ cc in
      let last =
        ap (λ x. get (read_operations x []) key) every
        ∙ ap (λ x. get x key) (read-append lines r [])
        ∙ subst (λ k. get (insert (read_operations lines []) r.operation_id r) k ≡ some r) id
            (get-insert_same (read_operations lines []) r.operation_id r) in
      let u =
        open_journal-IsUnderWay key answers log r rt.operations
          (subst (All NamedLine) (sym every) (All-append_one lines (some r) named mine)) last of_key
          was opened in
      open_stays h m rt request key world u.found keyed unblank u.keyed u.there u.of_key u.under_way
