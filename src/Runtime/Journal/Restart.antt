-- ===== src/Runtime/Journal/Restart.antt =====
-- What `OperationJournal::open` makes of an operation that was dispatched when the runtime stopped.
use comptrol.Base.{
  ℕ, length, ◌≡◌, refl, sym, ap, subst, ◌∙◌, inl, inr, String, true, Option, none, some, List, [],
  ◌∷◌, ◌==◌, eq_string, eq_iff, Map, get, insert, values, keep, Has, All, Has-keep, Result, ok, err,
  Bool-cases, get-insert, get-contains_key,
}
use comptrol.Base.LineLog.{Log, all_lines}
use comptrol.Runtime.Journal.{
  DurableOperation, OperationJournal, JournalWrite, WriteAnswer, dispatched, is_open, is_pending,
  write_operation, in_state,
}
use comptrol.Runtime.Journal.Keys.{IsKeyed, NamedByKey, insert-IsKeyed, write-IsKeyed}
use comptrol.Runtime.Journal.Writes.{write-IsWritten}
use comptrol.Runtime.Journal.Reopen.{
  read_operations, interrupted_state, interrupt_all, after_interrupt, open_journal,
}

pub some-injective : {A : Type 0} {a b : A} → some a ≡ some b → a ≡ b
some-injective e = cc

module _ {V : Type 0} where
  abbrev pub NamedLine : Option (DurableOperation V) → Type 0
  NamedLine none = Unit
  NamedLine (some r) = NamedByKey r

  read-IsKeyed :
      (lines : List (Option (DurableOperation V))) (m : Map (DurableOperation V))
      → All NamedLine lines
      → IsKeyed m
      → IsKeyed (read_operations lines m)
  unfolding read_operations
  read-IsKeyed [] m n h = h
  read-IsKeyed (none ∷ lines) m n h = read-IsKeyed lines m n.1 h
  read-IsKeyed (some r ∷ lines) m n h =
      read-IsKeyed lines (insert m r.operation_id r) n.1 (insert-IsKeyed m r n.0 h)

  -- A record of the map is the one under its identity.
  pub Has-IsKeyed :
      (m : Map (DurableOperation V)) (r : DurableOperation V)
      → IsKeyed m
      → Has r (values m)
      → (get m r.operation_id ≡ some r) × NamedByKey r
  Has-IsKeyed [] r h there = elim there [ ]
  Has-IsKeyed ((id, w) ∷ m) r h (inl same) =
      let first : (id == r.operation_id) ≡ true =
        (eq_iff id r.operation_id).1 (sym h.0 ∙ ap (λ s. s.operation_id) (sym same)) in
      (rw first (ap some (sym same)), subst NamedByKey (sym same) h.1)
  Has-IsKeyed ((id, w) ∷ m) r h (inr later) =
      let (found, named) = Has-IsKeyed m r h.3 later in
      elim (Bool-cases (id == r.operation_id)) [
        | inr miss ↦ (rw miss found, named)
        | inl hit ↦
            let same : id ≡ r.operation_id = (eq_iff id r.operation_id).0 hit in
            absurd (cc (get-contains_key m r.operation_id r found, h.2, same))
      ]

  -- A record under way for the key, in a journal of named records.
  pub record IsUnderWay (key : String) (j : OperationJournal V) : Type 0 where
    pub keyed : IsKeyed j.records
    pub found : DurableOperation V
    pub there : get j.records key ≡ some found
    pub of_key : found.idempotency_key ≡ some key
    pub under_way : is_open found.state ≡ true

  -- What the loop may still write.
  Pending : String → List (DurableOperation V) → Type 0
  Pending key rs =
      (r : DurableOperation V)
      → Has r rs
      → NamedByKey r
        × (r.operation_id ≡ key → (r.idempotency_key ≡ some key) × (r.state ≡ dispatched))

  interrupt_one :
      (key : String) (a : WriteAnswer) (j : OperationJournal V) (r : DurableOperation V)
      → NamedByKey r
      → (r.operation_id ≡ key → (r.idempotency_key ≡ some key) × (r.state ≡ dispatched))
      → IsUnderWay key j
      → (write_operation a j (in_state (interrupted_state r.state) r)).answer ≡ ok tt
      → IsUnderWay key (write_operation a j (in_state (interrupted_state r.state) r)).journal
  interrupt_one key a j r named mine u written =
      let s = in_state (interrupted_state r.state) r in
      let w = write-IsWritten a j s written in
      let k = write-IsKeyed a j s named u.keyed in
      elim (Bool-cases (r.operation_id == key)) [
        | inr other ↦ record {
          keyed = k;
          found = u.found;
          there =
              ap (λ x. get x key) w.held
              ∙ get-insert j.records r.operation_id key s
              ∙ rw other u.there;
          of_key = u.of_key;
          under_way = u.under_way;
        }
        | inl same ↦
            let (of_key, was) = mine ((eq_iff r.operation_id key).0 same) in
            record {
              keyed = k;
              found = s;
              there =
                  ap (λ x. get x key) w.held
                  ∙ get-insert j.records r.operation_id key s
                  ∙ rw same refl;
              of_key = of_key;
              under_way = ap (λ x. is_open (interrupted_state x)) was;
            }
      ]

  after_interrupt-ok :
      (w : JournalWrite V) (answer : Result String (Unit {0}))
      (rest : Result String (OperationJournal V) × Log (DurableOperation V))
      (j : OperationJournal V)
      → w.answer ≡ answer
      → (after_interrupt w rest).0 ≡ ok j
      → (w.answer ≡ ok tt) × (rest.0 ≡ ok j)
  unfolding after_interrupt
  after_interrupt-ok w (ok tt) rest j same e = (same, rw same at e)
  after_interrupt-ok w (err message) rest j same e = absurd (cc (rw same at e))

  interrupt_all-IsUnderWay :
      (key : String) (answers : ℕ → WriteAnswer) (j : OperationJournal V)
      (rs : List (DurableOperation V)) (opened : OperationJournal V)
      → Pending key rs
      → IsUnderWay key j
      → (interrupt_all answers j rs).0 ≡ ok opened
      → IsUnderWay key opened
  unfolding interrupt_all Pending
  interrupt_all-IsUnderWay key answers j [] opened p u e = subst (IsUnderWay key) (cc) u
  interrupt_all-IsUnderWay key answers j (r ∷ rs) opened p u e =
      let w = write_operation (answers (length rs)) j (in_state (interrupted_state r.state) r) in
      let (written, rest) =
        after_interrupt-ok w w.answer (interrupt_all answers w.journal rs) opened refl e in
      let (named, mine) = p r (inl refl) in
      interrupt_all-IsUnderWay key answers w.journal rs opened (λ s m. p s (inr m))
        (interrupt_one key (answers (length rs)) j r named mine u written) rest

  -- A dispatched operation is open after a restart: if every line of the file that parses is named by
  -- its key, and what is read has an operation of a key in the state dispatched, then a journal that
  -- opens has a record of that key that is open, under that key.
  pub open_journal-IsUnderWay :
      (key : String) (answers : ℕ → WriteAnswer) (log : Log (DurableOperation V))
      (r : DurableOperation V) (opened : OperationJournal V)
      → All NamedLine (all_lines log)
      → get (read_operations (all_lines log) []) key ≡ some r
      → r.idempotency_key ≡ some key
      → r.state ≡ dispatched
      → (open_journal answers log).0 ≡ ok opened
      → IsUnderWay key opened
  unfolding open_journal Pending
  open_journal-IsUnderWay key answers log r opened lines there of_key was e =
      let records = read_operations (all_lines log) [] in
      let k = read-IsKeyed (all_lines log) [] lines tt in
      interrupt_all-IsUnderWay key answers (record { records = records; log = log })
        (keep (λ s. is_pending s.state) (values records)) opened
        (λ s m.
          let (held, pending) = (Has-keep (λ s. is_pending s.state) s (values records)).0 m in
          let (found, named) = Has-IsKeyed records s k held in
          (
            named,
            λ same.
                let equal : r ≡ s =
                  some-injective (sym there ∙ ap (get records) (sym same) ∙ found) in
                subst (λ x. (x.idempotency_key ≡ some key) × (x.state ≡ dispatched)) equal
                  (of_key, was),
          ))
        (record {
          keyed = k;
          found = r;
          there = there;
          of_key = of_key;
          under_way = ap is_open was;
        })
        e
