-- ===== src/Runtime/Idempotency.antt =====
-- The results that the runtime of crates/comptrol-core/src/lib.rs keeps for replay: the fields
-- `idempotent`, `idempotency_fingerprints` and `idempotency_conflicts` of `Runtime` as one record,
-- `cache_idempotency`, and the loop that fills them from the journal when the runtime is built. The
-- set of conflicts is a map to the unit.
pub mod Conflicts
pub mod Reload
use comptrol.Base.{
  Bool, false, not, String, Option, none, some, List, [], ◌∷◌, ◌==◌, eq_string, if◌then◌else◌, Map,
  get, insert, remove, contains_key,
}
use comptrol.Runtime.Types.{ActionResult}
use comptrol.Runtime.Journal.{DurableOperation, OperationJournal, completed}

pub record IdempotencyCache (V : Type 0) : Type 0 where
  pub idempotent : Map (ActionResult V)
  pub fingerprints : Map String
  pub conflicts : Map (Unit {0})

-- `is_some_and(|existing| existing != fingerprint)`
abbrev pub differs : Option String → String → Bool
differs none fingerprint = false
differs (some existing) fingerprint = not (existing == fingerprint)

module _ {V : Type 0} where
  abbrev pub empty_cache : IdempotencyCache V
  empty_cache = record { idempotent = []; fingerprints = []; conflicts = [] }

  -- A key that is bound to a different or unverifiable request.
  unfoldable pub poison : IdempotencyCache V → String → IdempotencyCache V
  poison cache key = record {
    idempotent = remove cache.idempotent key;
    fingerprints = remove cache.fingerprints key;
    conflicts = insert cache.conflicts key tt;
  }

  unfoldable pub store_result :
      IdempotencyCache V → String → String → ActionResult V → IdempotencyCache V
  store_result cache key fingerprint result = record cache {
    idempotent = insert cache.idempotent key result;
    fingerprints = insert cache.fingerprints key fingerprint;
  }

  unfoldable pub cache_keyed :
      IdempotencyCache V → String → String → ActionResult V → IdempotencyCache V
  unfolding poison store_result
  cache_keyed cache key fingerprint result =
      if differs (get cache.fingerprints key) fingerprint
      then poison cache key
      else if not (contains_key cache.conflicts key)
      then store_result cache key fingerprint result
      else cache

  -- `Runtime::cache_idempotency`
  unfoldable pub cache_idempotency :
      IdempotencyCache V → Option String → Option String → ActionResult V → IdempotencyCache V
  unfolding cache_keyed poison
  cache_idempotency cache none fingerprint result = cache
  cache_idempotency cache (some key) none result = poison cache key
  cache_idempotency cache (some key) (some fingerprint) result =
      cache_keyed cache key fingerprint result

  -- One turn of the loop in `Runtime::new`, which looks at the conflicts first.
  unfoldable pub reload_one :
      IdempotencyCache V
      → Option String
      → Option String
      → Option (ActionResult V)
      → IdempotencyCache V
  unfolding poison store_result
  reload_one cache (some key) (some fingerprint) (some result) =
      if contains_key cache.conflicts key
      then cache
      else if differs (get cache.fingerprints key) fingerprint
      then poison cache key
      else store_result cache key fingerprint result
  reload_one cache (some key) none (some result) = poison cache key
  reload_one cache _ _ _ = cache

  unfoldable pub reload_from : IdempotencyCache V → List (DurableOperation V) → IdempotencyCache V
  unfolding reload_one
  reload_from cache [] = cache
  reload_from cache (r ∷ rs) =
      reload_from (reload_one cache r.idempotency_key r.request_fingerprint r.result) rs

  unfoldable pub reload : OperationJournal V → IdempotencyCache V
  unfolding reload_from
  reload journal = reload_from empty_cache (completed journal)
