-- ===== src/Pairing.antt =====
-- crates/comptrol-core/src/pairing.rs: pairing codes of remote clients, their records, and the cache
-- of nonces. SHA-256 is the parameter `hash`; the clock, the random bytes and what the file system
-- answers to a write are arguments of each call. `record_nonce` stands in Nonces, and sequences of
-- calls in Restart, the files in Logs, the scopes of a new code in Normalize. Reading the files never fails here.
pub mod Types
pub mod Logs
pub mod Normalize
pub mod Restart
pub mod Codes
pub mod Access
pub mod Scopes
pub mod Nonces
pub mod Examples
use comptrol.Base.{
  length, keep, is_some, ℕ, zero, suc, ◌+◌, ◌-◌, ◌^◌, min, max, String, str_append, Bool, true,
  false, not, ◌&&◌, Option, none, some, List, [], ◌∷◌, ◌++◌, ◌==◌, eq_string, eq_option, leb, ltb,
  if◌then◌else◌, any, find, is_empty, Map, get, insert, values, contains_key, hex_pad,
  saturating_add, Result, ok, err, ◌>>=◌, ◌>>◌, ensure, ok_or,
}
use comptrol.Pairing.Types.{
  PairingError, PairingRecord, PairingStore, ReplayNonce, already_accepted, code_expired,
  code_not_found, code_revoked, default_ttl_ms, fingerprint_mismatch, io, max_ttl_ms, no_scope,
  nonce_ttl_ms, not_accepted, pairing_expired, pairing_not_found, pairing_revoked,
  scope_not_authorized, unknown_scope,
}
use comptrol.Pairing.Logs.{
  AppendOutcome, Log, Written, after_append, all_lines, append_line, appended, fresh, joined,
  open_pairings, partial, read_nonces, read_records, refused, unterminated, write, write_result,
}
use comptrol.Pairing.Normalize.{
  allowed_scopes, auto_scopes, has, hex, normalize_from, normalize_scopes, take_bytes, ttl_of,
  u128_max,
}

-- The answer to a client that shows its certificate, but for the scopes.
pub check_identity : Option PairingRecord → String → ℕ → Result PairingError PairingRecord
check_identity none fingerprint now = err pairing_not_found
check_identity (some r) fingerprint now =
    ensure (not r.revoked) pairing_revoked
    >> (ensure r.accepted not_accepted
        >> (ensure (not (leb r.expires_at_ms now)) pairing_expired
            >> (ensure (r.identity_fingerprint == some fingerprint) fingerprint_mismatch >> ok r)))

pub check_scopes : PairingRecord → List String → Result PairingError PairingRecord
check_scopes r [] = ok r
check_scopes r (scope ∷ rest) =
    ensure (has r.scopes scope) (scope_not_authorized scope) >> check_scopes r rest

pub verify_mtls_identity :
    PairingStore → String → String → List String → ℕ → Result PairingError PairingRecord
unfolding check_identity check_scopes
verify_mtls_identity store pairing_id fingerprint scopes now =
    check_identity (get store.records pairing_id) fingerprint now >>= λ r. check_scopes r scopes

abbrev pub trusted : String → ℕ → PairingRecord → Bool
trusted fingerprint now r =
    r.identity_fingerprint == some fingerprint
    && (r.accepted && (not r.revoked && ltb now r.expires_at_ms))

pub list : PairingStore → List PairingRecord
list store = values store.records

pub identity_bound_count : PairingStore → ℕ
identity_bound_count store =
    length (keep (λ r. is_some r.identity_fingerprint) (values store.records))

pub find_by_fingerprint : PairingStore → String → ℕ → Option PairingRecord
find_by_fingerprint store fingerprint now = find (trusted fingerprint now) (values store.records)

pub bound : Option PairingRecord → String → Result PairingError (PairingRecord × Unit {0})
bound none fingerprint = err pairing_not_found
bound (some r) fingerprint =
    ensure (not r.revoked) pairing_revoked
    >> ok (record r { identity_fingerprint = some fingerprint }, tt)

pub bind_identity :
    AppendOutcome → PairingStore → Log PairingRecord → String → String → Written (Unit {0})
unfolding bound write_result
bind_identity outcome store log pairing_id fingerprint =
    write_result outcome store log (bound (get store.records pairing_id) fingerprint)

abbrev revoked_form : PairingRecord → PairingRecord
revoked_form r = record r { revoked = true }

pub revoking : Option PairingRecord → Result PairingError (PairingRecord × PairingRecord)
revoking none = err pairing_not_found
revoking (some r) = ok (revoked_form r, revoked_form r)

pub revoke : AppendOutcome → PairingStore → Log PairingRecord → String → Written PairingRecord
unfolding revoking write_result
revoke outcome store log pairing_id =
    write_result outcome store log (revoking (get store.records pairing_id))

module _ (hash : String → String) where
  -- The record that `create` makes from 32 random bytes.
  pub new_pairing : List ℕ → List String → Option ℕ → Option String → ℕ → PairingRecord
  unfolding ttl_of
  new_pairing token scopes ttl_ms fingerprint now = record {
    pairing_id = str_append "pair-" (hex (take_bytes 8 token));
    token_hash = hash (hex token);
    scopes = scopes;
    created_at_ms = now;
    expires_at_ms = saturating_add u128_max now (ttl_of ttl_ms);
    accepted = false;
    revoked = false;
    identity_fingerprint = fingerprint;
  }

  -- `none` is a source of random bytes that fails.
  pub created :
      Option (List ℕ)
      → List String
      → Option ℕ
      → Option String
      → ℕ
      → Result PairingError (PairingRecord × (PairingRecord × String))
  unfolding new_pairing normalize_scopes
  created none scopes ttl_ms fingerprint now = err io
  created (some token) scopes ttl_ms fingerprint now = normalize_scopes scopes >>= λ normalized.
      ok (
        new_pairing token normalized ttl_ms fingerprint now,
        (new_pairing token normalized ttl_ms fingerprint now, hex token),
      )

  pub create :
      AppendOutcome
      → PairingStore
      → Log PairingRecord
      → Option (List ℕ)
      → List String
      → Option ℕ
      → Option String
      → ℕ
      → Written (PairingRecord × String)
  unfolding created write_result
  create outcome store log random scopes ttl_ms fingerprint now =
      write_result outcome store log (created random scopes ttl_ms fingerprint now)

  abbrev pub has_token : String → PairingRecord → Bool
  has_token token r = r.token_hash == hash token

  abbrev pub accepted_form : PairingRecord → PairingRecord
  accepted_form r = record r { accepted = true }

  pub accepting : Option PairingRecord → ℕ → Result PairingError (PairingRecord × PairingRecord)
  accepting none now = err code_not_found
  accepting (some r) now =
      ensure (not r.revoked) code_revoked
      >> (ensure (not r.accepted) already_accepted
          >> (ensure (not (leb r.expires_at_ms now)) code_expired
              >> ok (accepted_form r, accepted_form r)))

  pub accept : AppendOutcome → PairingStore → Log PairingRecord → String → ℕ → Written PairingRecord
  unfolding accepting write_result
  accept outcome store log token now =
      write_result outcome store log (accepting (find (has_token token) (values store.records)) now)

  -- Creates a code for a known certificate and accepts it at once.
  pub auto_pair :
      AppendOutcome
      → AppendOutcome
      → PairingStore
      → Log PairingRecord
      → Option (List ℕ)
      → String
      → ℕ
      → ℕ
      → Written PairingRecord
  unfolding create accept
  auto_pair outcome outcome' store log random fingerprint now now' =
      let c = create outcome store log random auto_scopes none (some fingerprint) now in
      elim c.answer [
        | err e ↦ record { answer = err e; store = c.store; log = c.log }
        | ok made ↦ accept outcome' c.store c.log made.1 now'
      ]
