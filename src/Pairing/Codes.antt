-- ===== src/Pairing/Codes.antt =====
-- Codes of pairing.rs are accepted once.
use comptrol.Base.{
  find-Has, ℕ, ◌≡◌, refl, ap, ◌⊎◌, inl, inr, String, Bool, true, false, some, List, [], ◌∷◌, ◌==◌,
  eq_string, eq_iff, eq_option, leb, find, Map, insert, values, ok, err, arith, Bool-cases,
  Option-cases,
}
use comptrol.Pairing.Types.{
  PairingRecord, PairingStore, PairingError, already_accepted, code_revoked, code_expired,
}
use comptrol.Pairing.Logs.{
  Log, AppendOutcome, refused, partial, unterminated, appended, write, write_result, after_append,
}
use comptrol.Pairing.{has_token, accepted_form, accepting, accept}

-- Every record stands under its own id.
abbrev pub Keyed : Map PairingRecord → Type 0
Keyed [] = Unit
Keyed ((k, r) ∷ m) = (k ≡ r.pairing_id) × Keyed m

Keyed-insert :
    (m : Map PairingRecord) (r : PairingRecord) → Keyed m → Keyed (insert m r.pairing_id r)
Keyed-insert [] r h = (refl, tt)
Keyed-insert ((k, q) ∷ m) r h = elim (Bool-cases (k == r.pairing_id)) [
  | inl same ↦ rw same (refl, h.1)
  | inr other ↦ rw other (h.0, Keyed-insert m r h.1)
]

-- A record that is found and replaced by one that passes the test too is the one that is found.
find-insert :
    (test : PairingRecord → Bool) (m : Map PairingRecord) (r q : PairingRecord)
    → Keyed m
    → find test (values m) ≡ some r
    → q.pairing_id ≡ r.pairing_id
    → test q ≡ true
    → find test (values (insert m q.pairing_id q)) ≡ some q
find-insert test [] r q keyed found id good = absurd (cc)
find-insert test ((k, p) ∷ m) r q keyed found id good = elim (Bool-cases (k == q.pairing_id)) [
  | inl same ↦ rw (same, good)
  | inr other ↦ elim (Bool-cases (test p)) [
    | inl hit ↦
        let same : p ≡ r = cc (rw hit at found) in
        absurd (
          ground (
            arith,
            eq_iff k q.pairing_id,
            keyed.0,
            id,
            ap (λ (x : PairingRecord). x.pairing_id) same,
          ))
    | inr miss ↦ rw (other, miss) (find-insert test m r q keyed.1 (rw miss at found) id good)
  ]
]

pub write-records :
    {A : Type 0} (outcome : AppendOutcome) (store : PairingStore) (log : Log PairingRecord)
    (q : PairingRecord) (a b : A)
    → (write outcome store log q a).answer ≡ ok b
    → (write outcome store log q a).store.records ≡ insert store.records q.pairing_id q
unfolding write after_append
write-records refused store log q a b e = absurd (cc)
write-records partial store log q a b e = absurd (cc)
write-records unterminated store log q a b e = absurd (cc)
write-records appended store log q a b e = refl

module _ (hash : String → String) where
  accepting-cases :
      (p : PairingRecord) (now : ℕ)
      → ((accepting hash (some p) now ≡ ok (accepted_form hash p, accepted_form hash p))
          × (p.revoked ≡ false))
        ⊎ ((e : PairingError) × (accepting hash (some p) now ≡ err e))
  unfolding accepting
  accepting-cases p now = elim (Bool-cases p.revoked) [
    | inl gone ↦ inr (code_revoked, rw gone refl)
    | inr live ↦ elim (Bool-cases p.accepted) [
      | inl used ↦ inr (already_accepted, rw (live, used) refl)
      | inr unused ↦ elim (Bool-cases (leb p.expires_at_ms now)) [
        | inl late ↦ inr (code_expired, rw (live, unused, late) refl)
        | inr alive ↦ inl (rw (live, unused, alive) refl, live)
      ]
    ]
  ]

  accept_done :
      (store : PairingStore) (log : Log PairingRecord) (outcome : AppendOutcome) (token : String)
      (now : ℕ) (p r : PairingRecord)
      → find (has_token hash token) (values store.records) ≡ some p
      → (accept hash outcome store log token now).answer ≡ ok r
      → ((accept hash outcome store log token now).store.records
          ≡ insert store.records p.pairing_id (accepted_form hash p))
        × (p.revoked ≡ false)
  unfolding accept write_result
  accept_done store log outcome token now p r found e = elim (accepting-cases p now) [
    | inl (passed, live) ↦ (
      rw (found, passed)
          (write-records outcome store log (accepted_form hash p) (accepted_form hash p) r
            (rw (found, passed) at e)),
      live,
    )
    | inr (why, blocked) ↦ absurd (cc (rw (found, blocked) at e))
  ]

  accept_refused :
      (store : PairingStore) (log : Log PairingRecord) (outcome : AppendOutcome) (token : String)
      (now : ℕ) (p : PairingRecord)
      → find (has_token hash token) (values store.records) ≡ some p
      → p.revoked ≡ false
      → p.accepted ≡ true
      → (accept hash outcome store log token now).answer ≡ err already_accepted
  unfolding accept accepting write_result
  accept_refused store log outcome token now p found live used = rw (found, live, used) refl

  find-token :
      (token : String) (rs : List PairingRecord) (p : PairingRecord)
      → find (has_token hash token) rs ≡ some p
      → has_token hash token p ≡ true
  find-token token rs p found = (find-Has (has_token hash token) p rs found).1

  -- In a store that keeps every record under its own id a code is accepted once: after a call of
  -- `accept` that goes through, the next call with the same code is refused as already accepted,
  -- whenever it is made.
  pub accept_once :
      (store : PairingStore) (log : Log PairingRecord) (outcome again : AppendOutcome)
      (token : String) (now later : ℕ) (r : PairingRecord)
      → Keyed store.records
      → (accept hash outcome store log token now).answer ≡ ok r
      → let after = accept hash outcome store log token now in
        (accept hash again after.store after.log token later).answer ≡ err already_accepted
  unfolding accept accepting write_result
  accept_once store log outcome again token now later r keyed e =
      elim (Option-cases (find (has_token hash token) (values store.records))) [
        | inl none_found ↦ absurd (cc (rw none_found at e))
        | inr (p, found) ↦
            let (records, live) = accept_done store log outcome token now p r found e in
            accept_refused (accept hash outcome store log token now).store
              (accept hash outcome store log token now).log again token later (accepted_form hash p)
              (rw records (
                find-insert (has_token hash token) store.records p (accepted_form hash p) keyed
                  found refl (find-token token (values store.records) p found)))
              live refl
      ]
