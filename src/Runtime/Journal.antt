-- ===== src/Runtime/Journal.antt =====
-- `OperationJournal` of crates/comptrol-core/src/lib.rs: the write_operation-ahead record of operations. Each
-- write answers with what the file system does; the records in memory follow the file only when the
-- line is written. The order of the records stands for the order in which the map is walked.
pub mod Reopen
pub mod Writes
pub mod Keys
pub mod Restart
use comptrol.Base.{
  ℕ, length, Bool, true, false, ◌&&◌, ◌||◌, String, Option, none, some, List, [], ◌∷◌, Map, get,
  insert, values, keep, is_some, Result, ok, err, eq_string, if◌then◌else◌,
}
use comptrol.Base.LineLog.{Log, AppendOutcome, all_lines, append_json}
use comptrol.Runtime.Types.{
  Risk, Target, OperationRequest, ActionResult, DeliveryState, not_dispatched, delivered,
  delivery_refused, delivery_unknown, VerificationState, verified, verification_failed,
  ComptrolError,
}
use comptrol.Runtime.Risks.{effective_risk}

pub data DurableState : Type 0 where
  prepared authorized dispatched observed verified_state committed failed interrupted complete
        unknown rollback_pending rolled_back reconciled :
      DurableState

pub record DurableOperation (V : Type 0) : Type 0 where
  pub operation_id : String
  pub idempotency_key : Option String
  pub request_fingerprint : Option String
  pub intent : String
  pub risk : Risk
  pub target : Option Target
  pub state : DurableState
  pub metadata : V
  pub result : Option (ActionResult V)

pub record OperationJournal (V : Type 0) : Type 0 where
  pub records : Map (DurableOperation V)
  pub log : Log (DurableOperation V)

-- What the file system answers to one write, with the text of the error if it is one.
pub record WriteAnswer : Type 0 where
  pub outcome : AppendOutcome
  pub message : String

-- Whether the code knows that the effect may have happened.
abbrev pub is_open : DurableState → Bool
is_open dispatched = true
is_open unknown = true
is_open _ = false

abbrev pub is_dispatched : DurableState → Bool
is_dispatched dispatched = true
is_dispatched _ = false

abbrev pub is_pending : DurableState → Bool
is_pending prepared = true
is_pending authorized = true
is_pending dispatched = true
is_pending _ = false

abbrev pub is_complete : DurableState → Bool
is_complete committed = true
is_complete observed = true
is_complete complete = true
is_complete failed = true
is_complete rolled_back = true
is_complete reconciled = true
is_complete _ = false

-- What a call that writes leaves behind.
pub record JournalWrite (V : Type 0) : Type 0 where
  pub answer : Result String (Unit {0})
  pub journal : OperationJournal V

-- The state that `complete` records of a result.
unfoldable pub completed_state :
    DeliveryState → VerificationState → Option ComptrolError → DurableState
completed_state delivery_unknown v e = unknown
completed_state delivery_refused v e = failed
completed_state delivered verified none = committed
completed_state delivered verification_failed e = failed
completed_state delivered v e = observed
completed_state not_dispatched v e = failed

-- `serde_json` of the request with its effective risk under SHA-256, and `operation_metadata`.
pub record Digests (V : Type 0) : Type 0 where
  pub request_fingerprint : OperationRequest V → String
  pub operation_metadata : OperationRequest V → V

module _ {V : Type 0} where
  unfoldable pub after_write :
      OperationJournal V
      → DurableOperation V
      → Result String (Unit {0}) × Log (DurableOperation V)
      → JournalWrite V
  after_write journal r (ok done, log) = record {
    answer = ok tt;
    journal = record { records = insert journal.records r.operation_id r; log = log };
  }
  after_write journal r (err e, log) = record {
    answer = err e;
    journal = record journal { log = log };
  }

  unfoldable pub write_operation :
      WriteAnswer → OperationJournal V → DurableOperation V → JournalWrite V
  unfolding after_write
  write_operation a journal r =
      after_write journal r (append_json a.message a.outcome journal.log r)

  unfoldable pub update_found :
      WriteAnswer
      → OperationJournal V
      → (DurableOperation V → DurableOperation V)
      → Option (DurableOperation V)
      → JournalWrite V
  unfolding write_operation
  update_found a journal mutate none = record {
    answer = err "operation not found";
    journal = journal;
  }
  update_found a journal mutate (some r) = write_operation a journal (mutate r)

  unfoldable pub update_operation :
      WriteAnswer
      → OperationJournal V
      → String
      → (DurableOperation V → DurableOperation V)
      → JournalWrite V
  unfolding update_found
  update_operation a journal operation_id mutate =
      update_found a journal mutate (get journal.records operation_id)

  -- `and_then` of one write and the next.
  abbrev pub and_then : JournalWrite V → (OperationJournal V → JournalWrite V) → JournalWrite V
  and_then w next = elim w.answer [ ok done ↦ next w.journal | err message ↦ w ]

  abbrev pub in_state : DurableState → DurableOperation V → DurableOperation V
  in_state state r = record r { state = state }

  -- `OperationJournal::authorized` and `OperationJournal::dispatched`
  unfoldable pub mark_authorized : WriteAnswer → OperationJournal V → String → JournalWrite V
  unfolding update_operation
  mark_authorized a journal operation_id =
      update_operation a journal operation_id (in_state authorized)

  unfoldable pub mark_dispatched : WriteAnswer → OperationJournal V → String → JournalWrite V
  unfolding update_operation
  mark_dispatched a journal operation_id =
      update_operation a journal operation_id (in_state dispatched)

  abbrev pub record_of :
      Digests V
      → OperationRequest V
      → String
      → Risk
      → DurableState
      → Option (ActionResult V)
      → DurableOperation V
  record_of d request operation_id risk state result = record {
    operation_id = operation_id;
    idempotency_key = request.idempotency_key;
    request_fingerprint = some (d.request_fingerprint request);
    intent = request.intent;
    risk = risk;
    target = request.target;
    state = state;
    metadata = d.operation_metadata request;
    result = result;
  }

  unfoldable pub prepare :
      Digests V
      → WriteAnswer
      → OperationJournal V
      → OperationRequest V
      → String
      → Risk
      → JournalWrite V
  unfolding write_operation
  prepare d a journal request operation_id risk =
      write_operation a journal (record_of d request operation_id risk prepared none)

  unfoldable pub complete_operation :
      Digests V
      → WriteAnswer
      → OperationJournal V
      → OperationRequest V
      → ActionResult V
      → JournalWrite V
  unfolding write_operation completed_state
  complete_operation d a journal request result = write_operation a journal (
      record_of d request result.operation_id (effective_risk request)
        (completed_state result.delivery result.verification result.error) (some result))

  -- `OperationJournal::reconciled`
  unfoldable pub mark_reconciled :
      WriteAnswer → OperationJournal V → DurableOperation V → ActionResult V → JournalWrite V
  unfolding write_operation
  mark_reconciled a journal operation result =
      write_operation a journal (record operation { state = reconciled; result = some result })

  -- `OperationJournal::completed`
  abbrev pub is_completed : DurableOperation V → Bool
  is_completed r = is_some r.result && is_complete r.state

  unfoldable pub completed : OperationJournal V → List (DurableOperation V)
  completed journal = keep is_completed (values journal.records)
