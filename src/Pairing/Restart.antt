-- ===== src/Pairing/Restart.antt =====
-- What is read back of the records of pairing.rs after a restart.
use comptrol.Base.{
  ℕ, ◌≡◌, refl, ◌∙◌, String, true, Option, none, some, List, [], ◌∷◌, ◌++◌, eq_string, eq_option,
  find, All, Map, get, insert, values, Result, ok, err,
}
use comptrol.Pairing.Types.{PairingRecord, PairingStore, PairingError, ReplayNonce}
use comptrol.Pairing.Logs.{
  Written, Log, AppendOutcome, refused, partial, unterminated, appended, read_records,
  open_pairings, write, write_result, after_append,
}
use comptrol.Pairing.{
  bound, bind_identity, revoking, revoke, created, create, has_token, accepting, accept,
}

-- The calls that write records, each with what the host answers.
pub data Call : Type 0 where
  creates : AppendOutcome → Option (List ℕ) → List String → Option ℕ → Option String → ℕ → Call
  accepts : AppendOutcome → String → ℕ → Call
  binds : AppendOutcome → String → String → Call
  revokes : AppendOutcome → String → Call

pub record World : Type 0 where
  pub store : PairingStore
  pub log : Log PairingRecord

module _ (hash : String → String) where
  abbrev left : {A : Type 0} → Written A → World
  left w = record { store = w.store; log = w.log }

  pub step : World → Call → World
  unfolding create accept bind_identity revoke
  step w (creates outcome random scopes ttl_ms fingerprint now) =
      left (create hash outcome w.store w.log random scopes ttl_ms fingerprint now)
  step w (accepts outcome token now) = left (accept hash outcome w.store w.log token now)
  step w (binds outcome pairing_id fingerprint) =
      left (bind_identity outcome w.store w.log pairing_id fingerprint)
  step w (revokes outcome pairing_id) = left (revoke outcome w.store w.log pairing_id)

  pub run : World → List Call → World
  run w [] = w
  run w (c ∷ cs) = run (step w c) cs

read_records-append :
    (xs ys : List (Option PairingRecord)) (m : Map PairingRecord)
    → read_records (xs ++ ys) m ≡ read_records ys (read_records xs m)
unfolding read_records
read_records-append [] ys m = refl
read_records-append (none ∷ xs) ys m = read_records-append xs ys m
read_records-append (some r ∷ xs) ys m = read_records-append xs ys (insert m r.pairing_id r)

-- The file ends with a whole line, and its lines give the records in memory.
record IsSynced (w : World) : Type 0 where
  whole : w.log.tail ≡ none
  same : read_records w.log.lines [] ≡ w.store.records

-- A write that is done or refused, but not torn.
abbrev pub Clean : AppendOutcome → Type 0
Clean refused = Unit
Clean appended = Unit
Clean partial = ⊥
Clean unterminated = ⊥

abbrev pub CleanCall : Call → Type 0
CleanCall (creates outcome random scopes ttl_ms fingerprint now) = Clean outcome
CleanCall (accepts outcome token now) = Clean outcome
CleanCall (binds outcome pairing_id fingerprint) = Clean outcome
CleanCall (revokes outcome pairing_id) = Clean outcome

write-IsSynced :
    {A : Type 0} (outcome : AppendOutcome) (w : World) (r : PairingRecord) (a : A)
    → Clean outcome
    → IsSynced w
    → IsSynced (record {
      store = (write outcome w.store w.log r a).store;
      log = (write outcome w.store w.log r a).log;
    })
unfolding write after_append read_records
write-IsSynced refused w r a c h = record { whole = h.whole; same = h.same }
write-IsSynced appended w r a c h = record {
  whole = refl;
  same = rw h.whole (read_records-append w.log.lines (some r ∷ []) [] ∙ rw h.same refl);
}
write-IsSynced partial w r a c h = elim c [ ]
write-IsSynced unterminated w r a c h = elim c [ ]

write_result-IsSynced :
    {A : Type 0} (outcome : AppendOutcome) (w : World) (r : Result PairingError (PairingRecord × A))
    → Clean outcome
    → IsSynced w
    → IsSynced (record {
      store = (write_result outcome w.store w.log r).store;
      log = (write_result outcome w.store w.log r).log;
    })
unfolding write_result
write_result-IsSynced outcome w (ok (r, a)) c h = write-IsSynced outcome w r a c h
write_result-IsSynced outcome w (err e) c h = record { whole = h.whole; same = h.same }

module _ (hash : String → String) where
  step-IsSynced : (w : World) (c : Call) → CleanCall c → IsSynced w → IsSynced (step hash w c)
  unfolding step create accept bind_identity revoke
  step-IsSynced w (creates outcome random scopes ttl_ms fingerprint now) c h =
      write_result-IsSynced outcome w (created hash random scopes ttl_ms fingerprint now) c h
  step-IsSynced w (accepts outcome token now) c h =
      write_result-IsSynced outcome w
        (accepting hash (find (has_token hash token) (values w.store.records)) now) c h
  step-IsSynced w (binds outcome pairing_id fingerprint) c h =
      write_result-IsSynced outcome w (bound (get w.store.records pairing_id) fingerprint) c h
  step-IsSynced w (revokes outcome pairing_id) c h =
      write_result-IsSynced outcome w (revoking (get w.store.records pairing_id)) c h

  run-IsSynced :
      (w : World) (cs : List Call) → All CleanCall cs → IsSynced w → IsSynced (run hash w cs)
  unfolding run
  run-IsSynced w [] c h = h
  run-IsSynced w (call ∷ cs) c h =
      run-IsSynced (step hash w call) cs c.1 (step-IsSynced w call c.0 h)

abbrev pub fresh_world : World
fresh_world = record {
  store = record { records = []; replay_cache = [] };
  log = record { lines = []; tail = none };
}

IsSynced-reopen :
    (w : World) (nonces : Log ReplayNonce) (now : ℕ)
    → IsSynced w
    → (open_pairings w.log nonces now).records ≡ w.store.records
unfolding open_pairings
IsSynced-reopen w nonces now h = rw h.whole h.same

-- A restart gives the records back: after any calls from an empty store and an empty file in which
-- every append is done or refused, opening the file gives the records that are in memory.
pub restart_reads_back :
    (hash : String → String) (cs : List Call) (nonces : Log ReplayNonce) (now : ℕ)
    → All CleanCall cs
    → (open_pairings (run hash fresh_world cs).log nonces now).records
      ≡ (run hash fresh_world cs).store.records
unfolding read_records
restart_reads_back hash cs nonces now c =
    IsSynced-reopen (run hash fresh_world cs) nonces now
      (run-IsSynced hash fresh_world cs c (record { whole = refl; same = refl }))

-- A revocation of a pairing in the store, behind a torn line, is lost: it is answered as done, but
-- what is read after a restart is what the whole lines before the torn one say.
pub torn_line_loses_revocation :
    (store : PairingStore) (log : Log PairingRecord) (pairing_id : String) (r : PairingRecord)
    (torn : Option PairingRecord) (nonces : Log ReplayNonce) (now : ℕ)
    → log.tail ≡ some torn
    → get store.records pairing_id ≡ some r
    → ((revoke appended store log pairing_id).answer ≡ ok (record r { revoked = true }))
      × ((open_pairings (revoke appended store log pairing_id).log nonces now).records
          ≡ read_records log.lines [])
unfolding revoke write after_append open_pairings revoking write_result read_records
torn_line_loses_revocation store log pairing_id r torn nonces now tail there =
    rw (there, tail) (refl, read_records-append log.lines (none ∷ []) [])
