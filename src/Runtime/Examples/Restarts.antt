-- ===== src/Runtime/Examples/Restarts.antt =====
-- A runtime that was built from a journal with a completed operation.
use comptrol.Base.{
  get, contains_key, eq_string, ℕ, ◌≡◌, ◌≢◌, refl, String, true, false, none, some, [], ◌∷◌,
  is_blank, eq_iff,
}
use comptrol.Workflow.Examples.Values.{Value, json, nothing}
use comptrol.Runtime.Types.{ActionResult, r1}
use comptrol.Runtime.Journal.{DurableOperation, committed, completed}
use comptrol.Runtime.Idempotency.{IdempotencyCache, cache_idempotency, empty_cache, reload}
use comptrol.Runtime.Idempotency.Conflicts.{
  IsConsistent, empty-IsConsistent, cache_idempotency-IsConsistent,
}
use comptrol.Runtime.State.{Runtime}
use comptrol.Runtime.Gates.{replayed, idempotency_conflict}
use comptrol.Runtime.Dispatch.{operate}
use comptrol.Runtime.Reuse.{IsCompleted, completed_replays, changed_request_refused}
use comptrol.Runtime.Examples.Fixtures.{host, moment, idle, asking, done_result}

abbrev write_done : ActionResult Value
write_done = done_result (asking "filesystem.write" false) "key-1"

abbrev kept_write : DurableOperation Value
kept_write = record {
  operation_id = "key-1";
  idempotency_key = some "key-1";
  request_fingerprint = some "v1:filesystem.write";
  intent = "filesystem.write";
  risk = r1;
  target = none;
  state = committed;
  metadata = nothing;
  result = some write_done;
}

abbrev rebuilt : Runtime Value ℕ
rebuilt = record idle {
  operations = record {
    records = ("key-1", kept_write) ∷ [];
    log = record { lines = some kept_write ∷ []; tail = none };
  };
  cache = record {
    idempotent = ("key-1", write_done) ∷ [];
    fingerprints = ("key-1", "v1:filesystem.write") ∷ [];
    conflicts = [];
  };
}

is_rebuilt : rebuilt.cache ≡ reload rebuilt.operations
unfolding reload completed
is_rebuilt = refl

key_named : is_blank "key-1" ≡ false
unfolding is_blank
key_named = refl

write-IsCompleted :
    (intent : String)
    → IsCompleted host
        (moment false)
        rebuilt
        (asking intent false)
        "key-1"
        "v1:filesystem.write"
        write_done
        kept_write
write-IsCompleted intent = record {
  keyed = refl;
  named = key_named;
  rebuilt = is_rebuilt;
  records = (refl, (λ k e b. cc), refl, tt);
  there = refl;
  of_key = refl;
  of_request = refl;
  answered = refl;
  complete = refl;
}

completed_replays_example :
    operate host (moment false) rebuilt (asking "filesystem.write" false) []
    ≡ (replayed json write_done, (rebuilt, []))
completed_replays_example =
    completed_replays host (moment false) rebuilt (asking "filesystem.write" false) "key-1"
      "v1:filesystem.write" write_done kept_write [] (write-IsCompleted "filesystem.write") refl

false-true : false ≢ true
false-true e = cc

other_fingerprint :
    "v1:filesystem.write" ≢ host.digests.request_fingerprint (asking "software.install" false)
other_fingerprint e = absurd (false-true ((eq_iff "v1:filesystem.write" "v1:software.install").1 e))

changed_request_refused_example :
    operate host (moment false) rebuilt (asking "software.install" false) []
    ≡ (idempotency_conflict json (asking "software.install" false) "key-1", (rebuilt, []))
changed_request_refused_example =
    changed_request_refused host (moment false) rebuilt (asking "software.install" false) "key-1"
      "v1:filesystem.write" write_done kept_write [] (write-IsCompleted "software.install")
      other_fingerprint

-- A key that is poisoned, for want of a fingerprint.
abbrev poisoned : IdempotencyCache Value
poisoned = cache_idempotency empty_cache (some "key-1") none write_done

poisoned-IsConsistent : IsConsistent poisoned
poisoned-IsConsistent =
    (cache_idempotency-IsConsistent empty_cache (some "key-1") none write_done empty-IsConsistent).0

cache_idempotency-IsConsistent_example :
    let after = cache_idempotency poisoned (some "key-1") (some "v1:filesystem.write") write_done in
    IsConsistent after
    × ((k : String)
        → contains_key poisoned.conflicts k ≡ true
        → (contains_key after.conflicts k ≡ true) × (get after.idempotent k ≡ none))
cache_idempotency-IsConsistent_example =
    cache_idempotency-IsConsistent poisoned (some "key-1") (some "v1:filesystem.write") write_done
      poisoned-IsConsistent
