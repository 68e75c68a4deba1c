-- ===== src/Consent/HumanAction.antt =====
-- crates/comptrol-consent/src/human_action.rs: operations that wait for an approval which only the
-- user can give. The clock and the answer of the file system are arguments of each call; a state
-- file is modelled by the state that it deserializes to, if it does.
pub mod Approval
use comptrol.Base.{
  ℕ, ◌+◌, ◌%◌, ◌^◌, String, str_append, Bool, true, false, ◌&&◌, Option, none, some, List, [], ◌∷◌,
  ◌==◌, eq_string, if◌then◌else◌, keep, all, any, find, Map, get, insert, values, decimal,
}

pub data ChallengeKind : Type 0 where
  native_authentication : String → ChallengeKind
  permission_grant : String → String → ChallengeKind
  privilege_agent : String → ChallengeKind
  browser_consent : String → ChallengeKind
  extension_install : String → ChallengeKind

pub record HumanActionChallenge : Type 0 where
  pub kind : ChallengeKind
  pub reason : String
  pub target : Option String
  pub requested_change : Option String
  pub prompt_location : String
  pub agent_must_not_enter_secret : Bool

pub record HumanActionRequest : Type 0 where
  pub id : String
  pub operation_id : String
  pub intent : String
  pub challenge : HumanActionChallenge
  pub created_at_ms : ℕ

pub data HumanActionResolution : Type 0 where
  approved declined timed_out : HumanActionResolution

pub record PendingHumanAction : Type 0 where
  pub request : HumanActionRequest
  pub resolution : Option HumanActionResolution
  pub resolved_at_ms : Option ℕ

pub record BrokerState : Type 0 where
  pub pending : Map PendingHumanAction
  pub sequence : ℕ

pub record HumanActionBroker : Type 0 where
  pub state : BrokerState
  pub open state use *
  pub path : Option String

-- What a state file deserializes to; `none` is a file that is absent or does not parse.
abbrev pub Disk : Type 0
Disk = Option BrokerState

abbrev pub new : HumanActionBroker
new = record { state = record { pending = []; sequence = 0 }; path = none }

loaded : Disk → BrokerState
loaded none = record { pending = []; sequence = 0 }
loaded (some state) = state

-- `with_path` and `load`
pub with_path : String → Disk → HumanActionBroker
unfolding loaded
with_path path disk = record { state = loaded disk; path = some path }

-- `save` ignores errors: the write succeeds, changes nothing, or leaves a file that does not parse.
pub data SaveOutcome : Type 0 where
  saved unchanged garbled : SaveOutcome

written : SaveOutcome → BrokerState → Disk → Disk
written saved state disk = some state
written unchanged state disk = disk
written garbled state disk = none

pub save : SaveOutcome → HumanActionBroker → Disk → Disk
unfolding written
save outcome broker disk = elim broker.path [
  | none ↦ disk
  | some path ↦ written outcome broker.state disk
]

-- The counter is a `u64`.
pub next_sequence : ℕ → ℕ
next_sequence n = (n + 1) % 2 ^ 64

-- `format!("human-{operation_id}-{}", self.sequence)`
unfoldable pub request_id : String → ℕ → String
request_id operation_id sequence =
    str_append "human-" (str_append operation_id (str_append "-" (decimal sequence)))

make_request : String → String → HumanActionChallenge → ℕ → ℕ → HumanActionRequest
unfolding request_id
make_request operation_id intent challenge sequence now = record {
  id = request_id operation_id sequence;
  operation_id = operation_id;
  intent = intent;
  challenge = challenge;
  created_at_ms = now;
}

abbrev pub unresolved : HumanActionRequest → PendingHumanAction
unresolved request = record { request = request; resolution = none; resolved_at_ms = none }

unfoldable pub request_action :
    HumanActionBroker
    → String
    → String
    → HumanActionChallenge
    → ℕ
    → HumanActionBroker × HumanActionRequest
unfolding make_request next_sequence
request_action broker operation_id intent challenge now =
    let sequence = next_sequence broker.sequence in
    let request = make_request operation_id intent challenge sequence now in
    (
      record broker {
        state = record {
          pending = insert broker.pending request.id (unresolved request);
          sequence = sequence;
        };
      },
      request,
    )

-- The new broker, and whether the request was known; only then is the state saved.
unfoldable pub resolve :
    HumanActionBroker → String → HumanActionResolution → ℕ → HumanActionBroker × Bool
resolve broker request_id resolution now = elim (get broker.pending request_id) [
  | none ↦ (broker, false)
  | some pending ↦ (
    record broker {
      state = record broker.state {
        pending =
            insert broker.pending request_id
              (record pending { resolution = some resolution; resolved_at_ms = some now });
      };
    },
    true,
  )
]

abbrev pub of_operation : String → PendingHumanAction → Bool
of_operation operation_id pending = pending.request.operation_id == operation_id

abbrev pub is_open : PendingHumanAction → Bool
is_open pending = elim pending.resolution [ none ↦ true | some r ↦ false ]

abbrev pub is_approved : PendingHumanAction → Bool
is_approved pending = elim pending.resolution [
  | none ↦ false
  | some r ↦ elim r [ approved ↦ true | _ ↦ false ]
]

pub pending_for_operation : HumanActionBroker → String → Option PendingHumanAction
pending_for_operation broker operation_id =
    find (λ p. of_operation operation_id p && is_open p) (values broker.pending)

pub all_pending : HumanActionBroker → List PendingHumanAction
all_pending broker = values broker.pending

unfoldable pub may_resume : HumanActionBroker → String → Bool
may_resume broker operation_id =
    all is_approved (keep (of_operation operation_id) (values broker.pending))
    && any (of_operation operation_id) (values broker.pending)

-- A client's calls, each with what the clock and the file system answer, and a restart of the
-- process, which reads the state file.
pub data Call : Type 0 where
  requests : String → String → HumanActionChallenge → ℕ → SaveOutcome → Call
  resolves : String → HumanActionResolution → ℕ → SaveOutcome → Call
  restarts : String → Call

pub record World : Type 0 where
  pub broker : HumanActionBroker
  pub disk : Disk

pub step : World → Call → World
unfolding request_action resolve save with_path
step w (requests operation_id intent challenge now outcome) =
    let (broker', request) = request_action w.broker operation_id intent challenge now in
    record { broker = broker'; disk = save outcome broker' w.disk }
step w (resolves id resolution now outcome) =
    let (broker', known) = resolve w.broker id resolution now in
    record { broker = broker'; disk = if known then save outcome broker' w.disk else w.disk }
step w (restarts path) = record w { broker = with_path path w.disk }

pub run : World → List Call → World
run w [] = w
run w (c ∷ cs) = run (step w c) cs
