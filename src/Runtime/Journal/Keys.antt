-- ===== src/Runtime/Journal/Keys.antt =====
-- The records of the operation journal by idempotency key: the operation of a key that is not blank
-- has the key as its identity, so at most one record has the key.
use comptrol.Base.{
  ◌≡◌, refl, sym, ap, subst, ◌∙◌, inl, inr, String, true, false, some, [], ◌∷◌, ◌==◌, eq_string,
  eq_option, eq_iff, option_beq_iff, Map, get, insert, contains_key, values, find, Result, ok, err,
  Bool-cases, Option-cases, contains_key-insert, is_blank, arith,
}
use comptrol.Base.LineLog.{AppendOutcome, refused, partial, unterminated, appended}
use comptrol.Runtime.Journal.{
  DurableOperation, OperationJournal, JournalWrite, WriteAnswer, DurableState, write_operation,
  after_write, update_operation, update_found, in_state, and_then,
}

module _ {V : Type 0} where
  -- The identity of a record whose key is not blank is its key.
  abbrev pub NamedByKey : DurableOperation V → Type 0
  NamedByKey r = (k : String) → r.idempotency_key ≡ some k → is_blank k ≡ false → r.operation_id ≡ k

  abbrev pub IsKeyed : Map (DurableOperation V) → Type 0
  IsKeyed [] = Unit
  IsKeyed ((id, r) ∷ m) =
      (r.operation_id ≡ id) × NamedByKey r × (contains_key m id ≡ false) × IsKeyed m

  pub insert-IsKeyed :
      (m : Map (DurableOperation V)) (r : DurableOperation V)
      → NamedByKey r
      → IsKeyed m
      → IsKeyed (insert m r.operation_id r)
  insert-IsKeyed [] r n h = (refl, n, refl, tt)
  insert-IsKeyed ((id, w) ∷ m) r n h = elim (Bool-cases (id == r.operation_id)) [
    | inl hit ↦
        let same : id ≡ r.operation_id = ground (arith, hit, eq_iff id r.operation_id) in
        rw hit (refl, n, subst (λ i. contains_key m i ≡ false) same h.2, h.3)
    | inr miss ↦
        let absent : contains_key (insert m r.operation_id r) id ≡ false = ground (
          arith,
          miss,
          h.2,
          eq_iff id r.operation_id,
          eq_iff r.operation_id id,
          contains_key-insert m r.operation_id id r,
        ) in
        rw miss (h.0, h.1, absent, insert-IsKeyed m r n h.3)
  ]

  pub get-NamedByKey :
      (m : Map (DurableOperation V)) (id : String) (r : DurableOperation V)
      → IsKeyed m
      → get m id ≡ some r
      → (r.operation_id ≡ id) × NamedByKey r
  get-NamedByKey [] id r h e = absurd (cc)
  get-NamedByKey ((j, w) ∷ m) id r h e = elim (Bool-cases (j == id)) [
    | inl hit ↦
        let same : w ≡ r = ground arith in
        let at_id : j ≡ id = ground (arith, hit, eq_iff j id) in
        subst (λ s. (s.operation_id ≡ id) × NamedByKey s) same (h.0 ∙ at_id, h.1)
    | inr miss ↦ get-NamedByKey m id r h.3 (rw miss at e)
  ]

  -- The search by key finds the record of that identity.
  pub find-IsKeyed :
      (m : Map (DurableOperation V)) (key : String) (r : DurableOperation V)
      → IsKeyed m
      → is_blank key ≡ false
      → get m key ≡ some r
      → r.idempotency_key ≡ some key
      → find (λ s. s.idempotency_key == some key) (values m) ≡ some r
  find-IsKeyed [] key r h named e k = absurd (cc)
  find-IsKeyed ((j, w) ∷ m) key r h named e k = elim (Bool-cases (w.idempotency_key == some key)) [
    | inl hit ↦
        let at_key : j ≡ key =
          sym h.0 ∙ h.1 key ((option_beq_iff w.idempotency_key (some key)).0 hit) named in
        let first : (j == key) ≡ true = (eq_iff j key).1 at_key in rw hit (rw first at e)
    | inr miss ↦ elim (Bool-cases (j == key)) [
      | inl first ↦
          let same : w ≡ r = ground arith in
          absurd (
            cc (
              (option_beq_iff w.idempotency_key (some key)).1
                  (ap (λ s. s.idempotency_key) same ∙ k),
              miss,
            ))
      | inr later ↦ rw miss (find-IsKeyed m key r h.3 named (rw later at e) k)
    ]
  ]

  write_outcome-IsKeyed :
      (outcome : AppendOutcome) (message : String) (j : OperationJournal V) (r : DurableOperation V)
      → NamedByKey r
      → IsKeyed j.records
      → IsKeyed
          (write_operation (record { outcome = outcome; message = message }) j r).journal.records
  unfolding write_operation after_write
  write_outcome-IsKeyed refused message j r n h = h
  write_outcome-IsKeyed partial message j r n h = h
  write_outcome-IsKeyed unterminated message j r n h = h
  write_outcome-IsKeyed appended message j r n h = insert-IsKeyed j.records r n h

  pub write-IsKeyed :
      (a : WriteAnswer) (j : OperationJournal V) (r : DurableOperation V)
      → NamedByKey r
      → IsKeyed j.records
      → IsKeyed (write_operation a j r).journal.records
  write-IsKeyed a j r n h = write_outcome-IsKeyed a.outcome a.message j r n h

  pub update-IsKeyed :
      (a : WriteAnswer) (j : OperationJournal V) (id : String) (state : DurableState)
      → IsKeyed j.records
      → IsKeyed (update_operation a j id (in_state state)).journal.records
  unfolding update_operation update_found
  update-IsKeyed a j id state h = elim (Option-cases (get j.records id)) [
    | inl missing ↦ rw missing h
    | inr (r, there) ↦
        rw there (write-IsKeyed a j (in_state state r) (get-NamedByKey j.records id r h there).1 h)
  ]

  and_then_answer-IsKeyed :
      (w : JournalWrite V) (next : OperationJournal V → JournalWrite V)
      (answer : Result String (Unit {0}))
      → w.answer ≡ answer
      → IsKeyed w.journal.records
      → IsKeyed (next w.journal).journal.records
      → IsKeyed (and_then w next).journal.records
  and_then_answer-IsKeyed w next (ok tt) same h k = rw same k
  and_then_answer-IsKeyed w next (err message) same h k = rw same h

  pub and_then-IsKeyed :
      (w : JournalWrite V) (next : OperationJournal V → JournalWrite V)
      → IsKeyed w.journal.records
      → ((j : OperationJournal V) → IsKeyed j.records → IsKeyed (next j).journal.records)
      → IsKeyed (and_then w next).journal.records
  and_then-IsKeyed w next h k = and_then_answer-IsKeyed w next w.answer refl h (k w.journal h)
