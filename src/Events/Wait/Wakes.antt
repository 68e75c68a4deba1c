-- ===== src/Events/Wait/Wakes.antt =====
-- Readers of the bus of events.rs that wait are woken.
use comptrol.Base.{
  ℕ, ◌≡◌, ◌≢◌, ◌<◌, refl, sym, ap, subst, ◌∙◌, ◌⊎◌, inl, inr, String, Bool, true, false, Option,
  none, some, List, [], ◌∷◌, ◌++◌, eq_string, eq_iff, last, Has, find-Has, Has-find, Has-append,
  arith, Option-cases,
}
use comptrol.Json.{Json}
use comptrol.Events.{Event, EventBus, Emission, wanted, repeated, emit, emit_or}
use comptrol.Events.Wait.{
  Status, sleeping, notified, returned, Reader, Monitor, look, wait_loop, wait_for, wait_ends,
  turn_of, wake, notify_all, emit_or_repeat, emit_notifying, Step, emits, calls, ends, Reachable,
  begins, goes_on,
}

module _ {V : Type 0} where
  abbrev pub IsWanted : ℕ → Option String → Event V → Type 0
  IsWanted sequence kind event =
      (sequence < event.sequence) × ((kind ≡ none) ⊎ (kind ≡ some event.kind))

  wanted-IsWanted :
      (sequence : ℕ) (kind : Option String) (event : Event V)
      → wanted sequence kind event ≡ true
      → IsWanted sequence kind event
  wanted-IsWanted sequence none event h = (ground (arith, h), inl refl)
  wanted-IsWanted sequence (some k) event h =
      (ground (arith, h), inr (ground (arith, h, eq_iff k event.kind)))

  IsWanted-wanted :
      (sequence : ℕ) (kind : Option String) (event : Event V)
      → IsWanted sequence kind event
      → wanted sequence kind event ≡ true
  IsWanted-wanted sequence none event h = ground (arith, h)
  IsWanted-wanted sequence (some k) event (later, inl any) = absurd (cc)
  IsWanted-wanted sequence (some k) event (later, inr e) =
      ground (arith, later, e, eq_iff k event.kind)

  look-IsWanted :
      (bus : EventBus V) (sequence : ℕ) (kind : Option String) (event : Event V)
      → look bus sequence kind ≡ some event
      → IsWanted sequence kind event
  look-IsWanted bus sequence kind event e =
      wanted-IsWanted sequence kind event (find-Has (wanted sequence kind) event bus.events e).1

  -- A reader that sleeps has nothing to find.
  abbrev Rested : EventBus V → Reader V → Type 0
  Rested bus r = r.status ≡ sleeping → look bus r.sequence r.kind ≡ none

  wait_loop-rested :
      (bus : EventBus V) (sequence : ℕ) (kind : Option String) (late : Bool)
      → wait_loop bus sequence kind late ≡ sleeping
      → look bus sequence kind ≡ none
  unfolding wait_loop
  wait_loop-rested bus sequence kind late e = elim (Option-cases (look bus sequence kind)) [
    | inl nothing ↦ nothing
    | inr (event, there) ↦ absurd (cc (rw there at e))
  ]

  wait_for-rested :
      (bus : EventBus V) (sequence : ℕ) (kind : Option String) (zero_time late : Bool)
      → wait_for bus sequence kind zero_time late ≡ sleeping
      → look bus sequence kind ≡ none
  unfolding wait_for
  wait_for-rested bus sequence kind zero_time late e =
      elim (Option-cases (look bus sequence kind)) [
        | inl nothing ↦ nothing
        | inr (event, there) ↦ absurd (cc (rw there at e))
      ]

  wait_ends-rested :
      (bus : EventBus V) (sequence : ℕ) (kind : Option String) (timed_out late : Bool)
      → wait_ends bus sequence kind timed_out late ≡ sleeping
      → look bus sequence kind ≡ none
  unfolding wait_ends
  wait_ends-rested bus sequence kind true late e = absurd (cc)
  wait_ends-rested bus sequence kind false late e = wait_loop-rested bus sequence kind late e

  turn_of-rested :
      (bus : EventBus V) (timed_out late : Bool) (sequence : ℕ) (kind : Option String)
      (status : Status V)
      → turn_of bus timed_out late sequence kind status ≡ sleeping
      → look bus sequence kind ≡ none
  turn_of-rested bus timed_out late sequence kind (returned answer) e = absurd (cc)
  turn_of-rested bus timed_out late sequence kind sleeping e =
      wait_ends-rested bus sequence kind timed_out late e
  turn_of-rested bus timed_out late sequence kind notified e =
      wait_ends-rested bus sequence kind timed_out late e

  wake-awake : (status : Status V) → wake status ≢ sleeping
  wake-awake sleeping e = cc
  wake-awake notified e = cc
  wake-awake (returned answer) e = cc

  abbrev AllRested : EventBus V → List (Reader V) → Type 0
  AllRested bus readers = (r : Reader V) → Has r readers → Rested bus r

  notify_all-awake :
      (rs : List (Reader V)) (r : Reader V) → Has r (notify_all rs) → r.status ≢ sleeping
  unfolding notify_all
  notify_all-awake [] r there e = elim there [ ]
  notify_all-awake (q ∷ rs) r (inl same) e = wake-awake q.status (sym (ap (λ x. x.status) same) ∙ e)
  notify_all-awake (q ∷ rs) r (inr later) e = notify_all-awake rs r later e

module _ {V : Type 0} (json : Json V) where
  -- What the model adds to `emit` does not touch the bus.
  emit_notifying-bus :
      (mon : Monitor V) (e : Emission V) → (emit_notifying json mon e).bus ≡ (emit json mon.bus e).1
  unfolding emit_notifying emit_or_repeat emit emit_or
  emit_notifying-bus mon e = elim (Option-cases (repeated json (last mon.bus.events) e)) [
    | inl fresh ↦ rw fresh refl
    | inr (previous, again) ↦ rw again refl
  ]

  emit-AllRested :
      (mon : Monitor V) (e : Emission V) (o : Option (Event V))
      → AllRested mon.bus mon.readers
      → AllRested (emit_or_repeat json mon e o).bus (emit_or_repeat json mon e o).readers
  unfolding emit_or_repeat
  emit-AllRested mon e (some previous) h = h
  emit-AllRested mon e none h =
      λ r there asleep. absurd (notify_all-awake mon.readers r there asleep)

  replaced-AllRested :
      (bus : EventBus V) (before after : List (Reader V)) (r q : Reader V)
      → AllRested bus (before ++ r ∷ after)
      → Rested bus q
      → AllRested bus (before ++ q ∷ after)
  replaced-AllRested bus before after r q h rested = λ p there.
      elim ((Has-append p before (q ∷ after)).0 there) [
        | inl early ↦ h p ((Has-append p before (r ∷ after)).1 (inl early))
        | inr (inl same) ↦ subst (Rested bus) (sym same) rested
        | inr (inr later) ↦ h p ((Has-append p before (r ∷ after)).1 (inr (inr later)))
      ]

  Step-AllRested :
      {mon next : Monitor V}
      → Step json mon next
      → AllRested mon.bus mon.readers
      → AllRested next.bus next.readers
  unfolding emit_notifying
  Step-AllRested (emits {mon = mon} e) h =
      emit-AllRested mon e (repeated json (last mon.bus.events) e) h
  Step-AllRested (calls {mon = mon} sequence kind zero_time late) h = λ r there. elim there [
    | inl same ↦
        subst (Rested mon.bus) (sym same) (wait_for-rested mon.bus sequence kind zero_time late)
    | inr before ↦ h r before
  ]
  Step-AllRested (ends bus before after r timed_out late) h =
      replaced-AllRested bus before after r
        (record r { status = turn_of bus timed_out late r.sequence r.kind r.status }) h
        (turn_of-rested bus timed_out late r.sequence r.kind r.status)

  Reachable-AllRested :
      (capacity : ℕ) {mon : Monitor V} → Reachable json capacity mon → AllRested mon.bus mon.readers
  Reachable-AllRested capacity begins = λ r there. elim there [ ]
  Reachable-AllRested capacity (goes_on reached step) =
      Step-AllRested step (Reachable-AllRested capacity reached)

  ends_found :
      (bus : EventBus V) (sequence : ℕ) (kind : Option String) (timed_out late : Bool)
      (event : Event V)
      → look bus sequence kind ≡ some event
      → wait_ends bus sequence kind timed_out late ≡ returned (some event)
  unfolding wait_ends wait_loop
  ends_found bus sequence kind true late event e = rw e refl
  ends_found bus sequence kind false late event e = rw e refl

  -- What an event behind the cursor means for a call of `wait_for` in each of its states.
  abbrev pub Answered : EventBus V → ℕ → Option String → Status V → Type 0
  Answered bus sequence kind (returned answer) = Unit
  Answered bus sequence kind sleeping = ⊥
  Answered bus sequence kind notified =
      (b : Event V) × ((timed_out late : Bool)
        → turn_of bus timed_out late sequence kind notified ≡ returned (some b))
      × IsWanted sequence kind b

  found-Answered :
      (bus : EventBus V) (r : Reader V) (event : Event V) (status : Status V)
      → r.status ≡ status
      → Rested bus r
      → look bus r.sequence r.kind ≡ some event
      → Answered bus r.sequence r.kind status
  found-Answered bus r event sleeping is rested e = cc (rested is, e)
  found-Answered bus r event notified is rested e = (
    event,
    (λ timed_out late. ends_found bus r.sequence r.kind timed_out late event e),
    look-IsWanted bus r.sequence r.kind event e,
  )
  found-Answered bus r event (returned answer) is rested e = tt

  -- A waiting reader is woken. In every state that a new bus can come to, by events emitted, calls of
  -- `wait_for` and ends of their waits in any order, if an event behind a reader's cursor and of the
  -- kind that it asks for is on the bus, then the reader has returned, or it has been notified, and a
  -- turn that it takes in that state returns an event behind its cursor and of that kind, the same
  -- whether or not its time is over by then.
  pub wanted_wakes :
      (capacity : ℕ) (mon : Monitor V) (r : Reader V) (event : Event V)
      → Reachable json capacity mon
      → Has r mon.readers
      → Has event mon.bus.events
      → IsWanted r.sequence r.kind event
      → Answered mon.bus r.sequence r.kind r.status
  wanted_wakes capacity mon r event reached there on_bus w =
      let (found, e) =
        Has-find (wanted r.sequence r.kind) event mon.bus.events on_bus
          (IsWanted-wanted r.sequence r.kind event w) in
      found-Answered mon.bus r found r.status refl (Reachable-AllRested capacity reached r there) e
