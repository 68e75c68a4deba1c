-- ===== src/Events.antt =====
-- `EventBus` of crates/comptrol-core/src/events.rs. The lock is held for the whole of each call, so
-- a call takes the old state and returns the new one. A subscriber is what its channel has received
-- and whether its receiver still exists. The clock is an argument of the call. The readers that `emit`
-- notifies are in Wait.
pub mod Replay
pub mod Wait
pub mod Examples
use comptrol.Base.{
  ℕ, ◌+◌, ◌%◌, ◌^◌, max, String, Bool, true, false, ◌&&◌, Option, none, some, List, [], ◌∷◌, ◌++◌,
  ◌==◌, eq_string, ltb, if◌then◌else◌, length, keep, find, last,
}
use comptrol.Json.{Json}

pub record Event (V : Type 0) : Type 0 where
  pub sequence : ℕ
  pub kind : String
  pub payload : V
  pub emitted_at_ms : ℕ

pub record Subscriber (V : Type 0) : Type 0 where
  pub connected : Bool
  pub received : List (Event V)

pub record EventBus (V : Type 0) : Type 0 where
  pub capacity : ℕ
  pub next_sequence : ℕ
  pub events : List (Event V)
  pub subscribers : List (Subscriber V)

-- What a caller emits, with the reading of the clock.
pub record Emission (V : Type 0) : Type 0 where
  pub kind : String
  pub payload : V
  pub now : ℕ

unfoldable pub new_bus : {V : Type 0} → ℕ → EventBus V
new_bus capacity = record {
  capacity = max capacity 1;
  next_sequence = 0;
  events = [];
  subscribers = [];
}

-- `while state.events.len() > state.capacity { state.events.pop_front(); }`
unfoldable pub trim : {A : Type 0} → ℕ → List A → List A
trim capacity [] = []
trim capacity (x ∷ xs) =
    let rest = trim capacity xs in if ltb capacity (length (x ∷ xs)) then rest else x ∷ xs

-- `subscribers.retain(|subscriber| subscriber.send(event.clone()).is_ok())`
unfoldable pub deliver : {V : Type 0} → Event V → List (Subscriber V) → List (Subscriber V)
deliver event [] = []
deliver event (s ∷ ss) =
    let rest = deliver event ss in
    if s.connected then record s { received = s.received ++ event ∷ [] } ∷ rest else rest

-- The filter of `since` and the test of `wait_for`: behind the cursor, and of the kind asked for.
abbrev pub of_kind : {V : Type 0} → Option String → Event V → Bool
of_kind none event = true
of_kind (some expected) event = expected == event.kind

abbrev pub wanted : {V : Type 0} → ℕ → Option String → Event V → Bool
wanted sequence kind event = ltb sequence event.sequence && of_kind kind event

unfoldable pub since : {V : Type 0} → EventBus V → ℕ → Option String → List (Event V)
since bus sequence kind =
    keep (of_kind kind) (keep (λ event. ltb sequence event.sequence) bus.events)

unfoldable pub subscribe : {V : Type 0} → EventBus V → EventBus V
subscribe bus = record bus {
  subscribers = bus.subscribers ++ record { connected = true; received = [] } ∷ [];
}

module _ {V : Type 0} (json : Json V) where
  -- The event that `emit` returns in place of a new one.
  unfoldable pub repeated : Option (Event V) → Emission V → Option (Event V)
  repeated none e = none
  repeated (some previous) e =
      if previous.kind == e.kind && json.same previous.payload e.payload
      then some previous
      else none

  abbrev pub event_of : ℕ → Emission V → Event V
  event_of sequence e = record {
    sequence = sequence;
    kind = e.kind;
    payload = e.payload;
    emitted_at_ms = e.now;
  }

  -- The counter has 64 bits.
  unfoldable pub push : EventBus V → Emission V → Event V × EventBus V
  unfolding trim deliver
  push bus e =
      let sequence = (bus.next_sequence + 1) % 2 ^ 64 in
      let event = event_of sequence e in
      (
        event,
        record {
          capacity = bus.capacity;
          next_sequence = sequence;
          events = trim bus.capacity (bus.events ++ event ∷ []);
          subscribers = deliver event bus.subscribers;
        },
      )

  unfoldable pub emit_or : EventBus V → Emission V → Option (Event V) → Event V × EventBus V
  unfolding push
  emit_or bus e none = push bus e
  emit_or bus e (some previous) = (previous, bus)

  unfoldable pub emit : EventBus V → Emission V → Event V × EventBus V
  unfolding repeated emit_or
  emit bus e = emit_or bus e (repeated (last bus.events) e)

  unfoldable pub emit_all : EventBus V → List (Emission V) → List (Event V) × EventBus V
  unfolding emit
  emit_all bus [] = ([], bus)
  emit_all bus (e ∷ es) =
      let (event, bus') = emit bus e in
      let (events, bus'') = emit_all bus' es in (event ∷ events, bus'')
