-- ===== src/Events/Wait.antt =====
-- `wait_for` of events.rs and the condition variable that `emit` notifies. A reader is a call of
-- `wait_for`; the lock is held from one wait to the next, so each of its turns is one step. A wait may
-- end by a notification, by its time or for no reason, as the condition variable allows; whether the
-- time is over and whether the deadline is past when the clock is read are arguments of the turn. A
-- poisoned lock is left out.
pub mod Wakes
use comptrol.Base.{
  ℕ, ◌≡◌, ◌≢◌, ◌<◌, refl, sym, ap, subst, ◌∙◌, ◌⊎◌, inl, inr, String, Bool, true, false, Option,
  none, some, List, [], ◌∷◌, ◌++◌, eq_string, eq_iff, if◌then◌else◌, find, last, Has, find-Has,
  Has-find, Has-append, arith, Bool-cases, Option-cases,
}
use comptrol.Json.{Json}
use comptrol.Events.{Event, EventBus, Emission, new_bus, wanted, repeated, push, emit, emit_or}

-- Blocked on the condition variable, notified, or back with an answer.
pub data Status (V : Type 0) : Type 0 where
  sleeping : Status V
  notified : Status V
  returned : Option (Event V) → Status V

pub record Reader (V : Type 0) : Type 0 where
  pub sequence : ℕ
  pub kind : Option String
  pub status : Status V

pub record Monitor (V : Type 0) : Type 0 where
  pub bus : EventBus V
  pub readers : List (Reader V)

module _ {V : Type 0} where
  -- The test that `wait_for` makes each time that it holds the lock.
  abbrev pub look : EventBus V → ℕ → Option String → Option (Event V)
  look bus sequence kind = find (wanted sequence kind) bus.events

  -- What is found is returned; otherwise the call goes on.
  abbrev pub found_or : Option (Event V) → Status V → Status V
  found_or none otherwise = otherwise
  found_or (some event) otherwise = returned (some event)

  -- The loop up to its wait.
  unfoldable pub wait_loop : EventBus V → ℕ → Option String → Bool → Status V
  wait_loop bus sequence kind deadline_passed =
      found_or (look bus sequence kind) (if deadline_passed then returned none else sleeping)

  -- The call up to its first wait.
  unfoldable pub wait_for : EventBus V → ℕ → Option String → Bool → Bool → Status V
  unfolding wait_loop
  wait_for bus sequence kind timeout_is_zero deadline_passed =
      found_or (look bus sequence kind)
        (if timeout_is_zero then returned none else wait_loop bus sequence kind deadline_passed)

  -- The end of a wait, up to the next one.
  unfoldable pub wait_ends : EventBus V → ℕ → Option String → Bool → Bool → Status V
  unfolding wait_loop
  wait_ends bus sequence kind timed_out deadline_passed =
      if timed_out
      then returned (look bus sequence kind)
      else wait_loop bus sequence kind deadline_passed

  -- A reader that gets the lock back; one that has returned is no longer there.
  abbrev pub turn_of : EventBus V → Bool → Bool → ℕ → Option String → Status V → Status V
  turn_of bus timed_out deadline_passed sequence kind (returned answer) = returned answer
  turn_of bus timed_out deadline_passed sequence kind sleeping =
      wait_ends bus sequence kind timed_out deadline_passed
  turn_of bus timed_out deadline_passed sequence kind notified =
      wait_ends bus sequence kind timed_out deadline_passed

  abbrev pub wake : Status V → Status V
  wake sleeping = notified
  wake notified = notified
  wake (returned answer) = returned answer

  -- `self.notification.notify_all()`
  unfoldable pub notify_all : List (Reader V) → List (Reader V)
  notify_all [] = []
  notify_all (r ∷ rs) = record r { status = wake r.status } ∷ notify_all rs

  -- `emit` with its notification, which a repeated event does not reach.
  unfoldable pub emit_or_repeat : Json V → Monitor V → Emission V → Option (Event V) → Monitor V
  emit_or_repeat json mon e (some previous) = mon
  emit_or_repeat json mon e none = record {
    bus = (push json mon.bus e).1;
    readers = notify_all mon.readers;
  }

  unfoldable pub emit_notifying : Json V → Monitor V → Emission V → Monitor V
  unfolding emit_or_repeat
  emit_notifying json mon e = emit_or_repeat json mon e (repeated json (last mon.bus.events) e)

-- What can happen at the lock: an event is emitted, a reader calls, or a wait of a reader ends.
pub data Step {V : Type 0} (json : Json V) : Monitor V → Monitor V → Type 0 where
  emits : {mon : Monitor V} (e : Emission V) → Step json mon (emit_notifying json mon e)
  calls :
      {mon : Monitor V} (sequence : ℕ) (kind : Option String) (zero_time late : Bool)
      → Step json mon (record mon {
        readers =
            record {
              sequence = sequence;
              kind = kind;
              status = wait_for mon.bus sequence kind zero_time late;
            }
            ∷ mon.readers;
      })
  ends :
      (bus : EventBus V) (before after : List (Reader V)) (r : Reader V) (timed_out late : Bool)
      → Step json
          (record { bus = bus; readers = before ++ r ∷ after })
          (record {
            bus = bus;
            readers =
                before
                ++ record r { status = turn_of bus timed_out late r.sequence r.kind r.status }
                  ∷ after;
          })

-- The states of a bus that begins with no event and no reader.
pub data Reachable {V : Type 0} (json : Json V) (capacity : ℕ) : Monitor V → Type 0 where
  begins : Reachable json capacity (record { bus = new_bus capacity; readers = [] })
  goes_on :
      {mon next : Monitor V}
      → Reachable json capacity mon
      → Step json mon next
      → Reachable json capacity next
