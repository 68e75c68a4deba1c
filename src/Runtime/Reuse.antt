-- ===== src/Runtime/Reuse.antt =====
-- What `operate` of crates/comptrol-core/src/lib.rs answers, after a restart, to a request with the
-- key of a completed operation.
use comptrol.Base.{
  ◌≡◌, ◌≢◌, refl, sym, ap, ◌∙◌, String, true, false, some, ◌==◌, eq_string, eq_option,
  option_beq_iff, get, is_blank, err, Bool-cases, inl, inr,
}
use comptrol.Runtime.Types.{OperationRequest, ActionResult}
use comptrol.Runtime.Journal.{DurableOperation, is_complete}
use comptrol.Runtime.Journal.Keys.{IsKeyed}
use comptrol.Runtime.Journal.Restart.{some-injective}
use comptrol.Runtime.Idempotency.{reload}
use comptrol.Runtime.Idempotency.Reload.{view, reload-IsLoaded}
use comptrol.Runtime.State.{Runtime, Host, Moment}
use comptrol.Runtime.Gates.{returned, replayed, idempotency_conflict, identify, replay_gate}
use comptrol.Runtime.Dispatch.{operate, after_gate, settle}
use comptrol.Runtime.Safety.{id_of, numbered}
use comptrol.Runtime.Once.{numbered-named}

module _ {V F W : Type 0} (h : Host V F W) (m : Moment V F) (rt : Runtime V F)
    (request : OperationRequest V) (key fingerprint : String) (result : ActionResult V) where
  -- The runtime was built from a journal that holds the completed operation of the key.
  pub record IsCompleted (r : DurableOperation V) : Type 0 where
    pub keyed : request.idempotency_key ≡ some key
    pub named : is_blank key ≡ false
    pub rebuilt : rt.cache ≡ reload rt.operations
    pub records : IsKeyed rt.operations.records
    pub there : get rt.operations.records key ≡ some r
    pub of_key : r.idempotency_key ≡ some key
    pub of_request : r.request_fingerprint ≡ some fingerprint
    pub answered : r.result ≡ some result
    pub complete : is_complete r.state ≡ true

  view-IsCompleted :
      (r : DurableOperation V)
      → IsCompleted r
      → view key rt.cache ≡ (some result, (some fingerprint, false))
  view-IsCompleted r c =
      ap (view key) c.rebuilt
      ∙ reload-IsLoaded key fingerprint result rt.operations r c.records c.named c.there c.of_key
          c.of_request c.answered c.complete

  ends_with :
      (world : W) (answer : ActionResult V) (id : String)
      → request.idempotency_key ≡ some key
      → is_blank key ≡ false
      → ((id : String) → id ≡ key → identify h rt request id (some key) ≡ err (returned answer))
      → operate h m rt request world ≡ (answer, (rt, world))
  unfolding operate after_gate settle
  ends_with world answer id keyed named stop =
      let (id_key, rt_same) = numbered-named h m rt request key keyed named in
      let stops : identify h (numbered h m rt request) request (id_of h m rt request)
            request.idempotency_key
          ≡ err (returned answer) =
        ap (identify h (numbered h m rt request) request (id_of h m rt request)) keyed
        ∙ ap (λ x. identify h x request (id_of h m rt request) (some key)) rt_same
        ∙ stop (id_of h m rt request) id_key in
      rw stops (ap (λ x. (answer, (x, world))) rt_same)

  -- A completed operation is replayed after a restart: where the runtime was built from a journal of
  -- named records that holds the completed operation of a key that is not blank, and its cache is as
  -- it was built, the same request with that key is answered with the recorded result, marked as a replay, and nothing else changes.
  pub completed_replays :
      (r : DurableOperation V) (world : W)
      → IsCompleted r
      → fingerprint ≡ h.digests.request_fingerprint request
      → operate h m rt request world ≡ (replayed h.json result, (rt, world))
  unfolding identify replay_gate
  completed_replays r world c same =
      let v = view-IsCompleted r c in
      let there = ap (λ x. x.0) v in
      let prints = ap (λ x. x.1.0) v ∙ ap some same in
      let calm = ap (λ x. x.1.1) v in
      let equal : (get rt.cache.fingerprints key == some (h.digests.request_fingerprint request))
          ≡ true =
        (option_beq_iff (get rt.cache.fingerprints key)
            (some (h.digests.request_fingerprint request))).1
          prints in
      ends_with world (replayed h.json result) key c.keyed c.named
        (λ id e. rw (there, calm, equal) refl)

  -- A changed request does not pass under the key of a completed operation after a restart: where the
  -- runtime was built from a journal of named records that holds the completed operation of a key that
  -- is not blank, and its cache is as it was built, a request with that key and another fingerprint is
  -- refused as an idempotency conflict, and nothing else changes.
  pub changed_request_refused :
      (r : DurableOperation V) (world : W)
      → IsCompleted r
      → fingerprint ≢ h.digests.request_fingerprint request
      → operate h m rt request world ≡ (idempotency_conflict h.json request key, (rt, world))
  unfolding identify replay_gate
  changed_request_refused r world c changed =
      let v = view-IsCompleted r c in
      let there = ap (λ x. x.0) v in
      let calm = ap (λ x. x.1.1) v in
      let differ : (get rt.cache.fingerprints key == some (h.digests.request_fingerprint request))
          ≡ false =
        elim (Bool-cases
          (get rt.cache.fingerprints key == some (h.digests.request_fingerprint request))) [
            | inr no_match ↦ no_match
            | inl match_ ↦ absurd (
                changed (
                  some-injective (
                    sym (ap (λ x. x.1.0) v)
                    ∙ (option_beq_iff (get rt.cache.fingerprints key)
                          (some (h.digests.request_fingerprint request))).0
                        match_)))
          ] in
      ends_with world (idempotency_conflict h.json request key) key c.keyed c.named (λ id e.
        rw (there, calm, differ)
          (ap (λ i. err (returned (idempotency_conflict h.json request i))) e))
