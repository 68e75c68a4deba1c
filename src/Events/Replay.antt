-- ===== src/Events/Replay.antt =====
-- The event bus of events.rs against an abstract log that keeps every event.
use comptrol.Base.{
  ℕ, ◌+◌, ◌%◌, ◌^◌, ◌≤◌, ◌<◌, max, ◌≡◌, refl, sym, ap, ◌∙◌, inl, inr, String, false, Option, none,
  some, List, [], ◌∷◌, ◌++◌, eq_string, ltb, length, keep, last, length-append, arith, Bool-cases,
  Option-cases,
}
use comptrol.Json.{Json}
use comptrol.Events.{
  Event, EventBus, Emission, new_bus, trim, of_kind, since, repeated, event_of, push, emit, emit_or,
  emit_all,
}

module _ {A : Type 0} where
  trim_short : (c : ℕ) (xs : List A) → length xs ≤ c → trim c xs ≡ xs
  unfolding trim
  trim_short c [] h = refl
  trim_short c (x ∷ xs) h = ground (arith, h)

  -- A queue that is cut after each push is the end of the queue that is never cut.
  trim-trim : (c : ℕ) (xs : List A) (y : A) → trim c (trim c xs ++ y ∷ []) ≡ trim c (xs ++ y ∷ [])
  unfolding trim
  trim-trim c [] y = refl
  trim-trim c (x ∷ xs) y = elim (Bool-cases (ltb c (length (x ∷ xs)))) [
    | inl long ↦ ground (arith, trim-trim c xs y, length-append xs (y ∷ []))
    | inr short ↦ rw short refl
  ]

  last-trim : (c : ℕ) (xs : List A) → 1 ≤ c → last (trim c xs) ≡ last xs
  unfolding trim
  last-trim c [] h = refl
  last-trim c (x ∷ []) h = ground (arith, h)
  last-trim c (x ∷ y ∷ ys) h = elim (Bool-cases (ltb c (length (x ∷ y ∷ ys)))) [
    | inl long ↦ rw long (last-trim c (y ∷ ys) h)
    | inr short ↦ rw short refl
  ]

  pub length-trim-le : (c : ℕ) (xs : List A) → length (trim c xs) ≤ c
  unfolding trim
  length-trim-le c [] = omega arith
  length-trim-le c (x ∷ xs) = ground (arith, length-trim-le c xs)

module _ {V : Type 0} (json : Json V) where
  -- The log that forgets nothing: an event that repeats the last one is not new, and the events are
  -- numbered from one.
  log_or : List (Event V) → Emission V → Option (Event V) → Event V × List (Event V)
  log_or log e none = let event = event_of json (length log + 1) e in (event, log ++ event ∷ [])
  log_or log e (some previous) = (previous, log)

  pub log_emit : List (Event V) → Emission V → Event V × List (Event V)
  unfolding log_or
  log_emit log e = log_or log e (repeated json (last log) e)

  unfoldable pub log_emit_all : List (Event V) → List (Emission V) → List (Event V) × List (Event V)
  unfolding log_emit
  log_emit_all log [] = ([], log)
  log_emit_all log (e ∷ es) =
      let (event, log') = log_emit log e in
      let (events, log'') = log_emit_all log' es in (event ∷ events, log'')

  -- The bus holds the end of the log, and its counter is the length of the log.
  pub record Refines (bus : EventBus V) (log : List (Event V)) : Type 0 where
    pub positive : 1 ≤ bus.capacity
    pub kept : bus.events ≡ trim bus.capacity log
    pub counted : bus.next_sequence ≡ length log

  emit-Refines :
      (bus : EventBus V) (log : List (Event V)) (e : Emission V)
      → length log + 1 < 2 ^ 64
      → Refines bus log
      → ((emit json bus e).0 ≡ (log_emit log e).0)
        × Refines (emit json bus e).1 (log_emit log e).1
        × ((emit json bus e).1.capacity ≡ bus.capacity)
        × (length (log_emit log e).1 ≤ length log + 1)
  unfolding emit push log_emit log_or emit_or
  emit-Refines bus log e small r =
      let same : last bus.events ≡ last log =
        ap last r.kept ∙ last-trim bus.capacity log r.positive in
      let number : (bus.next_sequence + 1) % 2 ^ 64 ≡ length log + 1 =
        omega (arith, small, r.counted) in
      elim (Option-cases (repeated json (last log) e)) [
        | inl new ↦
            rw (same, new, number)
              (
                refl,
                record {
                  positive = r.positive;
                  kept = rw r.kept (trim-trim bus.capacity log _);
                  counted = sym (length-append log _);
                },
                refl,
                omega (arith, length-append log (event_of json (length log + 1) e ∷ [])),
              )
        | inr (previous, again) ↦ rw (same, again) (refl, r, refl, omega arith)
      ]

  emit_all-Refines :
      (bus : EventBus V) (log : List (Event V)) (es : List (Emission V))
      → length log + length es < 2 ^ 64
      → Refines bus log
      → ((emit_all json bus es).0 ≡ (log_emit_all log es).0)
        × Refines (emit_all json bus es).1 (log_emit_all log es).1
        × ((emit_all json bus es).1.capacity ≡ bus.capacity)
  unfolding emit_all log_emit_all
  emit_all-Refines bus log [] small r = (refl, r, refl)
  emit_all-Refines bus log (e ∷ es) small r =
      let (same, r', cap, short) = emit-Refines bus log e (omega (arith, small)) r in
      let (rest, r'', cap') =
        emit_all-Refines (emit json bus e).1 (log_emit log e).1 es (omega (arith, small, short))
          r' in
      (rw (same, rest) refl, r'', cap' ∙ cap)

  -- The bus refines the log: whatever is emitted to a new bus, as long as the counter of 64 bits is
  -- not exhausted, each call answers with the event that the log gives it, the bus holds the last
  -- events of the log up to its capacity, which is at least one, and its counter is their number.
  pub bus_refines_log :
      (capacity : ℕ) (es : List (Emission V))
      → length es < 2 ^ 64
      → ((emit_all json (new_bus capacity) es).0 ≡ (log_emit_all [] es).0)
        × ((emit_all json (new_bus capacity) es).1.events
            ≡ trim (max capacity 1) (log_emit_all [] es).1)
        × ((emit_all json (new_bus capacity) es).1.next_sequence ≡ length (log_emit_all [] es).1)
  unfolding new_bus trim
  bus_refines_log capacity es small =
      let (same, r, cap) = emit_all-Refines (new_bus capacity) [] es (omega (arith, small)) fresh in
      (same, r.kept ∙ ap (λ c. trim c (log_emit_all [] es).1) cap, r.counted)
    where
      fresh : Refines (new_bus capacity) []
      fresh = record { positive = omega arith; kept = refl; counted = refl }

-- The events of a log are numbered by their positions.
abbrev pub Numbered : {V : Type 0} → ℕ → List (Event V) → Type 0
Numbered n [] = Unit
Numbered n (e ∷ es) = (e.sequence ≡ n + 1) × Numbered (n + 1) es

Numbered-append :
    {V : Type 0} (n : ℕ) (log : List (Event V)) (e : Event V)
    → Numbered n log
    → e.sequence ≡ n + length log + 1
    → Numbered n (log ++ e ∷ [])
Numbered-append n [] e h s = (omega (arith, s), tt)
Numbered-append n (x ∷ xs) e h s = (h.0, Numbered-append (n + 1) xs e h.1 (omega (arith, s)))

-- What is cut off lies at or before a cursor that is no more than the capacity behind.
keep-trim :
    {V : Type 0} (c n cursor : ℕ) (log : List (Event V))
    → Numbered n log
    → n + length log ≤ cursor + c
    → keep (λ event. ltb cursor event.sequence) (trim c log)
      ≡ keep (λ event. ltb cursor event.sequence) log
unfolding trim
keep-trim c n cursor [] h near = refl
keep-trim c n cursor (x ∷ xs) h near = elim (Bool-cases (ltb c (length (x ∷ xs)))) [
  | inl long ↦
      let seen : ltb cursor x.sequence ≡ false = ground (arith, h.0, near, long) in
      rw (long, seen) (keep-trim c (n + 1) cursor xs h.1 (omega (arith, near)))
  | inr short ↦ rw short refl
]

module _ {V : Type 0} (json : Json V) where
  log_emit-Numbered :
      (log : List (Event V)) (e : Emission V) → Numbered 0 log → Numbered 0 (log_emit json log e).1
  unfolding log_emit log_or
  log_emit-Numbered log e h = elim (Option-cases (repeated json (last log) e)) [
    | inl new ↦ rw new (Numbered-append 0 log (event_of json (length log + 1) e) h (omega arith))
    | inr (previous, again) ↦ rw again h
  ]

  pub log_emit_all-Numbered :
      (log : List (Event V)) (es : List (Emission V))
      → Numbered 0 log
      → Numbered 0 (log_emit_all json log es).1
  unfolding log_emit_all
  log_emit_all-Numbered log [] h = h
  log_emit_all-Numbered log (e ∷ es) h =
      log_emit_all-Numbered (log_emit json log e).1 es (log_emit-Numbered log e h)

  -- A reader misses nothing: asked behind a cursor that is no more than the capacity behind the
  -- counter, the bus answers with all events of the log that are behind the cursor and of the kind
  -- asked for, in their order, although it has dropped others.
  pub since_complete :
      (capacity : ℕ) (es : List (Emission V)) (cursor : ℕ) (kind : Option String)
      → length es < 2 ^ 64
      → (emit_all json (new_bus capacity) es).1.next_sequence ≤ cursor + max capacity 1
      → since (emit_all json (new_bus capacity) es).1 cursor kind
        ≡ keep
            (of_kind kind)
            (keep (λ event. ltb cursor event.sequence) (log_emit_all json [] es).1)
  unfolding since
  since_complete capacity es cursor kind small near =
      let (_, kept, counted) = bus_refines_log json capacity es small in
      let numbered = log_emit_all-Numbered [] es tt in
      rw kept (
        ap (keep (of_kind kind)) (
          keep-trim (max capacity 1) 0 cursor (log_emit_all json [] es).1 numbered
            (omega (arith, near, counted))))
