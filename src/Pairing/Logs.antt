-- ===== src/Pairing/Logs.antt =====
-- The two files of pairing.rs: how a line is appended, what the lines are read as, and `write`.
use comptrol.Base.{
  ℕ, ◌-◌, Bool, Option, none, some, List, [], ◌∷◌, eq_string, eq_option, ltb, if◌then◌else◌, Map,
  insert, Result, ok, err,
}
pub use comptrol.Base.LineLog.{
  Log, AppendOutcome, refused, partial, unterminated, appended, all_lines, joined, append_json,
}
use comptrol.Pairing.Types.{
  PairingError, PairingRecord, PairingStore, ReplayNonce, io, nonce_ttl_ms,
}

abbrev pub append_line :
    {R : Type 0} → AppendOutcome → Log R → R → Result PairingError (Unit {0}) × Log R
append_line = append_json io

unfoldable pub read_records : List (Option PairingRecord) → Map PairingRecord → Map PairingRecord
read_records [] records = records
read_records (none ∷ lines) records = read_records lines records
read_records (some r ∷ lines) records = read_records lines (insert records r.pairing_id r)

abbrev pub fresh : ℕ → ReplayNonce → Bool
fresh now nonce = ltb (now - nonce.created_at_ms) nonce_ttl_ms

unfoldable pub read_nonces : ℕ → List (Option ReplayNonce) → Map ReplayNonce → Map ReplayNonce
read_nonces now [] cache = cache
read_nonces now (none ∷ lines) cache = read_nonces now lines cache
read_nonces now (some nonce ∷ lines) cache =
    let kept = read_nonces now lines (insert cache nonce.nonce_hash nonce) in
    let skipped = read_nonces now lines cache in if fresh now nonce then kept else skipped

unfoldable pub open_pairings : Log PairingRecord → Log ReplayNonce → ℕ → PairingStore
unfolding read_records read_nonces
open_pairings log nonces now = record {
  records = read_records (all_lines log) [];
  replay_cache = read_nonces now (all_lines nonces) [];
}

-- What a call that writes a record leaves behind: its answer, the store and the file of records.
pub record Written (A : Type 0) : Type 0 where
  pub answer : Result PairingError A
  pub store : PairingStore
  pub log : Log PairingRecord

-- After the line is written: only then is the record in memory.
unfoldable pub after_append :
    {A : Type 0}
    → PairingStore
    → PairingRecord
    → A
    → Result PairingError (Unit {0}) × Log PairingRecord
    → Written A
after_append store r a (ok done, log) = record {
  answer = ok a;
  store = record store { records = insert store.records r.pairing_id r };
  log = log;
}
after_append store r a (err e, log) = record { answer = err e; store = store; log = log }

unfoldable pub write :
    {A : Type 0} → AppendOutcome → PairingStore → Log PairingRecord → PairingRecord → A → Written A
unfolding after_append
write outcome store log r a = after_append store r a (append_line outcome log r)

-- A call that comes to a record to write, or to an error.
unfoldable pub write_result :
    {A : Type 0}
    → AppendOutcome
    → PairingStore
    → Log PairingRecord
    → Result PairingError (PairingRecord × A)
    → Written A
unfolding write
write_result outcome store log (ok (r, a)) = write outcome store log r a
write_result outcome store log (err e) = record { answer = err e; store = store; log = log }
