-- ===== src/Events/Examples.antt =====
-- A bus that keeps two events, and a reader that waits.
use comptrol.Base.{
  Bool, false, ◌≡◌, ◌≤◌, refl, inl, inr, String, false, some, List, [], ◌∷◌, keep, length, ltb,
  arith,
}
use comptrol.Workflow.Examples.Values.{Value, words, json}
use comptrol.Events.{
  repeated, push, trim, deliver, Event, Emission, emit_all, new_bus, trim, since, of_kind,
}
use comptrol.Events.Replay.{log_emit_all, bus_refines_log, since_complete}
use comptrol.Events.Wait.{
  Reader, Monitor, notified, returned, wait_for, wait_loop, turn_of, notify_all, emit_or_repeat,
  emit_notifying, emits, calls, Reachable, begins, goes_on,
}
use comptrol.Events.Wait.Wakes.{wanted_wakes, IsWanted}

abbrev said : String → String → Emission Value
said kind text = record { kind = kind; payload = words text; now = 3 }

-- The second repeats the first, and so is no event of its own.
abbrev four : List (Emission Value)
four = said "opened" "a" ∷ said "opened" "a" ∷ said "closed" "a" ∷ said "opened" "b" ∷ []

bus_refines_log_example :
    ((emit_all json (new_bus 2) four).0 ≡ (log_emit_all json [] four).0)
    × ((emit_all json (new_bus 2) four).1.events ≡ trim 2 (log_emit_all json [] four).1)
    × ((emit_all json (new_bus 2) four).1.next_sequence ≡ length (log_emit_all json [] four).1)
bus_refines_log_example = bus_refines_log json 2 four (omega arith)

three_events : (emit_all json (new_bus 2) four).1.next_sequence ≤ 3
unfolding emit_all new_bus
three_events = omega arith

since_complete_example :
    since (emit_all json (new_bus 2) four).1 1 (some "opened")
    ≡ keep
        (of_kind (some "opened"))
        (keep (λ event. ltb 1 event.sequence) (log_emit_all json [] four).1)
since_complete_example = since_complete json 2 four 1 (some "opened") (omega arith) three_events

abbrev first_event : Event Value
first_event = record { sequence = 1; kind = "opened"; payload = words "a"; emitted_at_ms = 3 }

abbrev woken_reader : Reader Value
woken_reader = record { sequence = 0; kind = some "opened"; status = notified }

abbrev woken : Monitor Value
woken = record {
  bus = record { capacity = 2; next_sequence = 1; events = first_event ∷ []; subscribers = [] };
  readers = woken_reader ∷ [];
}

-- A reader calls before anything is emitted, sleeps, and then an event is emitted.
woken_reached : Reachable json 2 woken
unfolding new_bus wait_for wait_loop emit_notifying emit_or_repeat repeated push trim deliver
    notify_all
woken_reached =
    goes_on (goes_on begins (calls 0 (some "opened") false false)) (emits (said "opened" "a"))

wanted_wakes_example :
    (b : Event Value) × ((timed_out late : Bool)
      → turn_of woken.bus timed_out late 0 (some "opened") notified ≡ returned (some b))
    × IsWanted 0 (some "opened") b
wanted_wakes_example =
    wanted_wakes json 2 woken woken_reader first_event woken_reached (inl refl) (inl refl)
      (omega arith, inr refl)
