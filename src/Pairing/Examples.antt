-- ===== src/Pairing/Examples.antt =====
-- Runs of the pairing store, crates/comptrol-core/src/pairing.rs.
use comptrol.Base.{
  ◌≡◌, ◌≢◌, ◌↔◌, refl, String, str_append, true, false, none, some, List, [], ◌∷◌, ok, err, arith,
  get,
}
use comptrol.Pairing.Types.{
  PairingRecord, PairingStore, pairing_revoked, already_accepted, ReplayNonce,
}
use comptrol.Pairing.Logs.{Log, appended, refused, partial, open_pairings, read_records}
use comptrol.Pairing.Normalize.{hex, normalize_scopes}
use comptrol.Pairing.{accept, revoke, bind_identity, verify_mtls_identity, create, new_pairing}
use comptrol.Pairing.Restart.{
  Call, creates, accepts, binds, revokes, run, fresh_world, restart_reads_back,
  torn_line_loses_revocation,
}
use comptrol.Pairing.Codes.{accept_once}
use comptrol.Pairing.Access.{IsAuthorized, verify_iff, revoke_shuts_out}
use comptrol.Pairing.Nonces.{record_nonce, nonce_once}

abbrev hash : String → String
hash s = str_append "#" s

abbrev phone : PairingRecord
phone = record {
  pairing_id = "pair-0a";
  token_hash = "#0a0b";
  scopes = "observe" ∷ "terminal" ∷ [];
  created_at_ms = 1000;
  expires_at_ms = 301000;
  accepted = false;
  revoked = false;
  identity_fingerprint = some "ff00";
}

abbrev store : PairingStore
store = record { records = ("pair-0a", phone) ∷ []; replay_cache = [] }

abbrev log : Log PairingRecord
log = record { lines = some phone ∷ []; tail = none }

abbrev no_nonces : Log ReplayNonce
no_nonces = record { lines = []; tail = none }

abbrev calls : List Call
calls =
    creates appended (some (10 ∷ 11 ∷ [])) ("observe" ∷ []) none none 1000
    ∷ accepts appended "0a0b" 2000
    ∷ binds refused "pair-0a0b" "ff00"
    ∷ revokes appended "pair-0a0b"
    ∷ []

restart_reads_back_example :
    (open_pairings (run hash fresh_world calls).log no_nonces 5000).records
    ≡ (run hash fresh_world calls).store.records
restart_reads_back_example = restart_reads_back hash calls no_nonces 5000 (tt, (tt, (tt, (tt, tt))))

abbrev torn_log : Log PairingRecord
torn_log = record log { tail = some none }

torn_line_loses_revocation_example :
    ((revoke appended store torn_log "pair-0a").answer ≡ ok (record phone { revoked = true }))
    × ((open_pairings (revoke appended store torn_log "pair-0a").log no_nonces 5000).records
        ≡ read_records (some phone ∷ []) [])
torn_line_loses_revocation_example =
    torn_line_loses_revocation store torn_log "pair-0a" phone none no_nonces 5000 refl refl

accepted_phone :
    (accept hash appended store log "0a0b" 2000).answer ≡ ok (record phone { accepted = true })
unfolding accept
accepted_phone = refl

accept_once_example :
    (accept hash refused
      (accept hash appended store log "0a0b" 2000).store
      (accept hash appended store log "0a0b" 2000).log
      "0a0b"
      3000).answer
    ≡ err already_accepted
accept_once_example =
    accept_once hash store log appended refused "0a0b" 2000 3000 (record phone { accepted = true })
      (refl, tt) accepted_phone

verify_iff_example :
    (verify_mtls_identity store "pair-0a" "ff00" ("observe" ∷ []) 2000 ≡ ok phone)
    ↔ ((get store.records "pair-0a" ≡ some phone) × IsAuthorized "ff00" ("observe" ∷ []) 2000 phone)
verify_iff_example = verify_iff store "pair-0a" "ff00" ("observe" ∷ []) 2000 phone

revoked_phone : (revoke appended store log "pair-0a").answer ≡ ok (record phone { revoked = true })
unfolding revoke
revoked_phone = refl

revoke_shuts_out_example :
    (verify_mtls_identity
        (revoke appended store log "pair-0a").store
        "pair-0a"
        "ff00"
        ("observe" ∷ [])
        2000
      ≡ err pairing_revoked)
    × ((bind_identity appended
          (revoke appended store log "pair-0a").store
          (revoke appended store log "pair-0a").log
          "pair-0a"
          "ff00").answer
        ≡ err pairing_revoked)
revoke_shuts_out_example =
    revoke_shuts_out appended appended store log "pair-0a" "ff00" ("observe" ∷ []) 2000 phone
      (record phone { revoked = true }) refl refl revoked_phone

first_use : (record_nonce hash partial store no_nonces "n1" "pair-0a" 1000).answer ≢ ok false
unfolding record_nonce
first_use h = absurd (cc)

nonce_once_example :
    (record_nonce hash appended
      (record_nonce hash partial store no_nonces "n1" "pair-0a" 1000).store
      (record_nonce hash partial store no_nonces "n1" "pair-0a" 1000).nonces
      "n1"
      "pair-0b"
      90000).answer
    ≡ ok false
nonce_once_example =
    nonce_once hash partial appended store no_nonces "n1" "pair-0a" "pair-0b" 1000 90000 first_use
      (omega arith)

normal :
    normalize_scopes ("terminal" ∷ "observe" ∷ "terminal" ∷ []) ≡ ok ("terminal" ∷ "observe" ∷ [])
unfolding normalize_scopes
normal = refl

abbrev laptop : PairingRecord
laptop = new_pairing hash (10 ∷ 11 ∷ []) ("observe" ∷ []) (some 5) none 1000

makes :
    (create hash appended store log
      (some (10 ∷ 11 ∷ []))
      ("observe" ∷ [])
      (some 5)
      none
      1000).answer
    ≡ ok (laptop, hex (10 ∷ 11 ∷ []))
unfolding create
makes = refl
