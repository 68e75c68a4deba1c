-- ===== src/Runtime/Idempotency/Conflicts.antt =====
-- The poisoned keys of the idempotency cache of crates/comptrol-core/src/lib.rs.
use comptrol.Base.{
  ◌≡◌, ◌↔◌, refl, sym, ◌∙◌, inl, inr, String, true, false, Option, none, some, List, [], ◌∷◌, ◌==◌,
  eq_string, eq_iff, get, insert, contains_key, Bool-cases, get-insert, get-remove, arith,
  contains_key-insert,
}
use comptrol.Runtime.Types.{ActionResult}
use comptrol.Runtime.Journal.{DurableOperation}
use comptrol.Runtime.Idempotency.{
  IdempotencyCache, empty_cache, poison, store_result, differs, cache_keyed, cache_idempotency,
  reload_one, reload_from,
}

module _ {V : Type 0} where
  -- A key has a result exactly if it has a fingerprint, and a poisoned key has neither.
  pub record IsConsistent (cache : IdempotencyCache V) : Type 0 where
    pub paired :
        (key : String) → (get cache.idempotent key ≡ none) ↔ (get cache.fingerprints key ≡ none)
    pub apart :
        (key : String) → contains_key cache.conflicts key ≡ true → get cache.idempotent key ≡ none

  pub empty-IsConsistent : IsConsistent empty_cache
  empty-IsConsistent = record { paired = λ key. ((λ e. refl), λ e. refl); apart = λ key e. refl }

  poison-IsConsistent :
      (cache : IdempotencyCache V) (key : String)
      → IsConsistent cache
      → IsConsistent (poison cache key)
  unfolding poison
  poison-IsConsistent cache key c = record {
    paired = λ k. elim (Bool-cases (key == k)) [
      | inl same ↦
          let gone = get-remove cache.idempotent key k ∙ rw same refl in
          let gone' = get-remove cache.fingerprints key k ∙ rw same refl in
          ((λ e. gone'), λ e. gone)
      | inr other ↦
          let kept = get-remove cache.idempotent key k ∙ rw other refl in
          let kept' = get-remove cache.fingerprints key k ∙ rw other refl in
          ((λ e. kept' ∙ (c.paired k).0 (sym kept ∙ e)), λ e. kept ∙ (c.paired k).1 (sym kept' ∙ e))
    ];
    apart = λ k e. elim (Bool-cases (key == k)) [
      | inl same ↦ get-remove cache.idempotent key k ∙ rw same refl
      | inr other ↦
          let was = contains_key-insert cache.conflicts key k tt ∙ rw other refl in
          get-remove cache.idempotent key k ∙ rw other (c.apart k (sym was ∙ e))
    ];
  }

  store-IsConsistent :
      (cache : IdempotencyCache V) (key fingerprint : String) (result : ActionResult V)
      → contains_key cache.conflicts key ≡ false
      → IsConsistent cache
      → IsConsistent (store_result cache key fingerprint result)
  unfolding store_result
  store-IsConsistent cache key fingerprint result calm c = record {
    paired = λ k. elim (Bool-cases (key == k)) [
      | inl same ↦
          let set : get (insert cache.idempotent key result) k ≡ some result =
            get-insert cache.idempotent key k result ∙ rw same refl in
          let set' : get (insert cache.fingerprints key fingerprint) k ≡ some fingerprint =
            get-insert cache.fingerprints key k fingerprint ∙ rw same refl in
          ((λ e. absurd (cc (set, e))), λ e. absurd (cc (set', e)))
      | inr other ↦
          let kept = get-insert cache.idempotent key k result ∙ rw other refl in
          let kept' = get-insert cache.fingerprints key k fingerprint ∙ rw other refl in
          ((λ e. kept' ∙ (c.paired k).0 (sym kept ∙ e)), λ e. kept ∙ (c.paired k).1 (sym kept' ∙ e))
    ];
    apart = λ k e. elim (Bool-cases (key == k)) [
      | inl same ↦ let at_key : key ≡ k = (eq_iff key k).0 same in absurd (cc (calm, e, at_key))
      | inr other ↦ get-insert cache.idempotent key k result ∙ rw other (c.apart k e)
    ];
  }

  cache-IsConsistent :
      (cache : IdempotencyCache V) (key fingerprint : Option String) (result : ActionResult V)
      → IsConsistent cache
      → IsConsistent (cache_idempotency cache key fingerprint result)
  unfolding cache_idempotency cache_keyed
  cache-IsConsistent cache none fingerprint result c = c
  cache-IsConsistent cache (some key) none result c = poison-IsConsistent cache key c
  cache-IsConsistent cache (some key) (some fingerprint) result c =
      elim (Bool-cases (differs (get cache.fingerprints key) fingerprint)) [
        | inl other ↦ rw other (poison-IsConsistent cache key c)
        | inr same ↦ elim (Bool-cases (contains_key cache.conflicts key)) [
          | inl bad ↦ rw (same, bad) c
          | inr calm ↦ rw (same, calm) (store-IsConsistent cache key fingerprint result calm c)
        ]
      ]

  poison-conflicts :
      (cache : IdempotencyCache V) (key k : String)
      → contains_key cache.conflicts k ≡ true
      → contains_key (poison cache key).conflicts k ≡ true
  unfolding poison
  poison-conflicts cache key k was =
      contains_key-insert cache.conflicts key k tt ∙ ground (arith, was)

  cache-conflicts :
      (cache : IdempotencyCache V) (key fingerprint : Option String) (result : ActionResult V)
      (k : String)
      → contains_key cache.conflicts k ≡ true
      → contains_key (cache_idempotency cache key fingerprint result).conflicts k ≡ true
  unfolding cache_idempotency cache_keyed store_result
  cache-conflicts cache none fingerprint result k was = was
  cache-conflicts cache (some key) none result k was = poison-conflicts cache key k was
  cache-conflicts cache (some key) (some fingerprint) result k was =
      elim (Bool-cases (differs (get cache.fingerprints key) fingerprint)) [
        | inl other ↦ rw other (poison-conflicts cache key k was)
        | inr same ↦ elim (Bool-cases (contains_key cache.conflicts key)) [
          | inl bad ↦ rw (same, bad) was
          | inr calm ↦ rw (same, calm) was
        ]
      ]

  -- A poisoned key stays poisoned and without a result, and the cache stays consistent: no poisoned
  -- key has a result, and a key has a result exactly if it has the fingerprint of a request. So it is
  -- whatever result is offered to a consistent cache, with or without a key and a fingerprint.
  pub cache_idempotency-IsConsistent :
      (cache : IdempotencyCache V) (key fingerprint : Option String) (result : ActionResult V)
      → IsConsistent cache
      → let after = cache_idempotency cache key fingerprint result in
        IsConsistent after
        × ((k : String)
            → contains_key cache.conflicts k ≡ true
            → (contains_key after.conflicts k ≡ true) × (get after.idempotent k ≡ none))
  cache_idempotency-IsConsistent cache key fingerprint result c =
      let after = cache-IsConsistent cache key fingerprint result c in
      (
        after,
        λ k was.
            let still = cache-conflicts cache key fingerprint result k was in
            (still, after.apart k still),
      )

  reload_one-IsConsistent :
      (cache : IdempotencyCache V) (key fingerprint : Option String)
      (result : Option (ActionResult V))
      → IsConsistent cache
      → IsConsistent (reload_one cache key fingerprint result)
  unfolding reload_one
  reload_one-IsConsistent cache (some key) (some fingerprint) (some result) c =
      elim (Bool-cases (contains_key cache.conflicts key)) [
        | inl bad ↦ rw bad c
        | inr calm ↦ elim (Bool-cases (differs (get cache.fingerprints key) fingerprint)) [
          | inl other ↦ rw (calm, other) (poison-IsConsistent cache key c)
          | inr same ↦ rw (calm, same) (store-IsConsistent cache key fingerprint result calm c)
        ]
      ]
  reload_one-IsConsistent cache (some key) none (some result) c = poison-IsConsistent cache key c
  reload_one-IsConsistent cache (some key) (some fingerprint) none c = c
  reload_one-IsConsistent cache (some key) none none c = c
  reload_one-IsConsistent cache none fingerprint result c = c

  pub reload_from-IsConsistent :
      (cache : IdempotencyCache V) (rs : List (DurableOperation V))
      → IsConsistent cache
      → IsConsistent (reload_from cache rs)
  unfolding reload_from
  reload_from-IsConsistent cache [] c = c
  reload_from-IsConsistent cache (r ∷ rs) c =
      reload_from-IsConsistent (reload_one cache r.idempotency_key r.request_fingerprint r.result)
        rs (reload_one-IsConsistent cache r.idempotency_key r.request_fingerprint r.result c)
