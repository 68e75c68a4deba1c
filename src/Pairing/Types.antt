-- ===== src/Pairing/Types.antt =====
-- The constants, records and errors of crates/comptrol-core/src/pairing.rs.
use comptrol.Base.{ℕ, String, Bool, Option, List, eq_string, eq_option, Map}

abbrev pub default_ttl_ms : ℕ
default_ttl_ms = 300000

abbrev pub max_ttl_ms : ℕ
max_ttl_ms = 86400000

abbrev pub nonce_ttl_ms : ℕ
nonce_ttl_ms = 120000

pub record PairingRecord : Type 0 where
  pub pairing_id : String
  pub token_hash : String
  pub scopes : List String
  pub created_at_ms : ℕ
  pub expires_at_ms : ℕ
  pub accepted : Bool
  pub revoked : Bool
  pub identity_fingerprint : Option String

pub record ReplayNonce : Type 0 where
  pub nonce_hash : String
  pub created_at_ms : ℕ
  pub pairing_id : String

-- The kinds and messages of the `io::Error` values.
pub data PairingError : Type 0 where
  io pairing_not_found pairing_revoked not_accepted pairing_expired fingerprint_mismatch :
      PairingError
  scope_not_authorized : String → PairingError
  unknown_scope no_scope : PairingError
  code_not_found code_revoked already_accepted code_expired : PairingError

pub record PairingStore : Type 0 where
  pub records : Map PairingRecord
  pub replay_cache : Map ReplayNonce
