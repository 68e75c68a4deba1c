-- ===== src/Pairing/Normalize.antt =====
-- Scopes, bytes and lifetimes of a new pairing in pairing.rs: `normalize_scopes`, `hex` and the TTL.
use comptrol.Base.{
  ℕ, zero, suc, ◌-◌, ◌^◌, min, max, String, str_append, Bool, not, Option, none, some, List, [],
  ◌∷◌, ◌++◌, ◌==◌, eq_string, eq_option, if◌then◌else◌, any, is_empty, hex_pad, Result, ok, err,
}
use comptrol.Pairing.Types.{PairingError, default_ttl_ms, max_ttl_ms, no_scope, unknown_scope}

abbrev pub has : List String → String → Bool
has scopes scope = any (λ s. s == scope) scopes

abbrev pub allowed_scopes : List String
allowed_scopes =
    "observe" ∷ "accessibility_read" ∷ "semantic_input" ∷ "raw_input" ∷ "focus" ∷ "file_read"
    ∷ "file_write" ∷ "terminal" ∷ []

-- The scopes of `auto_pair`.
abbrev pub auto_scopes : List String
auto_scopes =
    "file_read" ∷ "file_write" ∷ "accessibility_read" ∷ "terminal" ∷ "semantic_input" ∷ "observe"
    ∷ []

-- The loop of `normalize_scopes`, from the scopes normalized so far.
unfoldable pub normalize_from : List String → List String → Result PairingError (List String)
normalize_from normalized [] = if is_empty normalized then err no_scope else ok normalized
normalize_from normalized (scope ∷ rest) =
    let skipped = normalize_from normalized rest in
    let pushed = normalize_from (normalized ++ scope ∷ []) rest in
    if not (has allowed_scopes scope)
    then err unknown_scope
    else if has normalized scope
    then skipped
    else pushed

unfoldable pub normalize_scopes : List String → Result PairingError (List String)
unfolding normalize_from
normalize_scopes scopes = normalize_from [] scopes

abbrev pub hex : List ℕ → String
hex [] = ""
hex (byte ∷ bytes) = str_append (hex_pad 2 byte) (hex bytes)

abbrev pub take_bytes : ℕ → List ℕ → List ℕ
take_bytes zero bytes = []
take_bytes (suc n) [] = []
take_bytes (suc n) (byte ∷ bytes) = byte ∷ take_bytes n bytes

-- `ttl_ms.unwrap_or(DEFAULT_TTL_MS).clamp(1_000, MAX_TTL_MS)`
unfoldable pub ttl_of : Option ℕ → ℕ
ttl_of none = min (max default_ttl_ms 1000) max_ttl_ms
ttl_of (some ttl) = min (max ttl 1000) max_ttl_ms

abbrev pub u128_max : ℕ
u128_max = 2 ^ 128 - 1
