-- ===== src/Runtime/Idempotency/Reload.antt =====
-- What the reload of the idempotency cache in crates/comptrol-core/src/lib.rs keeps of a completed
-- operation.
use comptrol.Base.{
  ◌≡◌, ◌≢◌, refl, sym, ap, ◌∙◌, subst, ◌⊎◌, inl, inr, String, Bool, true, false, Option, none, some,
  List, [], ◌∷◌, ◌==◌, eq_string, eq_option, eq_iff, option_beq_iff, get, contains_key, values,
  keep, Has, Has-keep, get-Has, Bool-cases, get-insert, get-remove, contains_key-insert, arith,
  is_blank,
}
use comptrol.Runtime.Types.{ActionResult}
use comptrol.Runtime.Journal.{
  DurableOperation, OperationJournal, completed, is_complete, is_completed,
}
use comptrol.Runtime.Journal.Keys.{IsKeyed}
use comptrol.Runtime.Journal.Restart.{Has-IsKeyed, some-injective}
use comptrol.Runtime.Idempotency.{
  IdempotencyCache, empty_cache, poison, store_result, differs, reload_one, reload_from, reload,
}

module _ {V : Type 0} (key : String) where
  -- What the cache says of the key.
  abbrev pub view : IdempotencyCache V → Option (ActionResult V) × (Option String × Bool)
  view cache =
      (get cache.idempotent key, (get cache.fingerprints key, contains_key cache.conflicts key))

  poison-other :
      (cache : IdempotencyCache V) (k : String)
      → (k == key) ≡ false
      → view (poison cache k) ≡ view cache
  unfolding poison
  poison-other cache k other =
      rw
        (
          get-remove cache.idempotent k key,
          get-remove cache.fingerprints k key,
          contains_key-insert cache.conflicts k key tt,
          other,
        )
        refl

  store-other :
      (cache : IdempotencyCache V) (k fingerprint : String) (result : ActionResult V)
      → (k == key) ≡ false
      → view (store_result cache k fingerprint result) ≡ view cache
  unfolding store_result
  store-other cache k fingerprint result other =
      rw
        (
          get-insert cache.idempotent k key result,
          get-insert cache.fingerprints k key fingerprint,
          other,
        )
        refl

  reload_one-other :
      (cache : IdempotencyCache V) (k fingerprint : Option String)
      (result : Option (ActionResult V))
      → k ≢ some key
      → view (reload_one cache k fingerprint result) ≡ view cache
  unfolding reload_one
  reload_one-other cache none fingerprint result other = refl
  reload_one-other cache (some k) none none other = refl
  reload_one-other cache (some k) (some f) none other = refl
  reload_one-other cache (some k) none (some result) other =
      poison-other cache k (ground (arith, eq_iff k key, other))
  reload_one-other cache (some k) (some f) (some result) other =
      let differ : (k == key) ≡ false = ground (arith, eq_iff k key, other) in
      elim (Bool-cases (contains_key cache.conflicts k)) [
        | inl bad ↦ rw bad refl
        | inr calm ↦ elim (Bool-cases (differs (get cache.fingerprints k) f)) [
          | inl clash ↦ rw (calm, clash) (poison-other cache k differ)
          | inr fine ↦ rw (calm, fine) (store-other cache k f result differ)
        ]
      ]

module _ {V : Type 0} (key fingerprint : String) (result : ActionResult V) where
  abbrev IsLoaded : IdempotencyCache V → Type 0
  IsLoaded cache = view key cache ≡ (some result, (some fingerprint, false))

  -- The key is not poisoned and has no other fingerprint.
  abbrev IsReady : IdempotencyCache V → Type 0
  IsReady cache =
      (contains_key cache.conflicts key ≡ false)
      × (differs (get cache.fingerprints key) fingerprint ≡ false)

  IsLoaded-IsReady : (cache : IdempotencyCache V) → IsLoaded cache → IsReady cache
  IsLoaded-IsReady cache l = (
    ap (λ v. v.1.1) l,
    ap (λ v. differs v.1.0 fingerprint) l ∙ ground (arith, eq_iff fingerprint fingerprint),
  )

  reload_one-mine :
      (cache : IdempotencyCache V)
      → IsReady cache
      → IsLoaded (reload_one cache (some key) (some fingerprint) (some result))
  unfolding reload_one store_result
  reload_one-mine cache (calm, fine) =
      let same : (key == key) ≡ true = (eq_iff key key).1 refl in
      rw
        (
          calm,
          fine,
          get-insert cache.idempotent key key result,
          get-insert cache.fingerprints key key fingerprint,
          same,
          calm,
        )
        refl

  IsReady-view : (c d : IdempotencyCache V) → view key d ≡ view key c → IsReady c → IsReady d
  IsReady-view c d same (calm, fine) =
      (ap (λ v. v.1.1) same ∙ calm, ap (λ v. differs v.1.0 fingerprint) same ∙ fine)

  reload_from-IsLoaded :
      (cache : IdempotencyCache V) (rs : List (DurableOperation V)) (r : DurableOperation V)
      → r.idempotency_key ≡ some key
      → r.request_fingerprint ≡ some fingerprint
      → r.result ≡ some result
      → ((s : DurableOperation V) → Has s rs → s.idempotency_key ≡ some key → s ≡ r)
      → IsReady cache
      → Has r rs ⊎ IsLoaded cache
      → IsLoaded (reload_from cache rs)
  unfolding reload_from
  reload_from-IsLoaded cache [] r k f e only ready (inl none_there) = elim none_there [ ]
  reload_from-IsLoaded cache [] r k f e only ready (inr loaded) = loaded
  reload_from-IsLoaded cache (s ∷ rs) r k f e only ready there =
      let next = reload_one cache s.idempotency_key s.request_fingerprint s.result in
      elim (Bool-cases (s.idempotency_key == some key)) [
        | inl mine ↦
            let same : s ≡ r =
              only s (inl refl) ((option_beq_iff s.idempotency_key (some key)).0 mine) in
            let loaded : IsLoaded next =
              subst
                (λ x. IsLoaded (reload_one cache x.idempotency_key x.request_fingerprint x.result))
                (sym same) (rw (k, f, e) (reload_one-mine cache ready)) in
            reload_from-IsLoaded next rs r k f e (λ x m. only x (inr m))
              (IsLoaded-IsReady next loaded) (inr loaded)
        | inr other ↦
            let differ : s.idempotency_key ≢ some key =
              λ q. cc ((option_beq_iff s.idempotency_key (some key)).1 q, other) in
            let kept =
              reload_one-other key cache s.idempotency_key s.request_fingerprint s.result differ in
            reload_from-IsLoaded next rs r k f e (λ x m. only x (inr m))
              (IsReady-view cache next kept ready)
              (elim there [
                | inl (inl first) ↦ absurd (differ (ap (λ x. x.idempotency_key) (sym first) ∙ k))
                | inl (inr later) ↦ inl later
                | inr loaded ↦ inr (kept ∙ loaded)
              ])
      ]

  -- What the reload gives for the key of a completed record in a journal of named records.
  pub reload-IsLoaded :
      (journal : OperationJournal V) (r : DurableOperation V)
      → IsKeyed journal.records
      → is_blank key ≡ false
      → get journal.records key ≡ some r
      → r.idempotency_key ≡ some key
      → r.request_fingerprint ≡ some fingerprint
      → r.result ≡ some result
      → is_complete r.state ≡ true
      → view key (reload journal) ≡ (some result, (some fingerprint, false))
  unfolding reload completed
  reload-IsLoaded journal r h named there k f e complete =
      let (_, back) = Has-keep is_completed r (values journal.records) in
      reload_from-IsLoaded empty_cache (keep is_completed (values journal.records)) r k f e
        (λ s m q.
          let held = ((Has-keep is_completed s (values journal.records)).0 m).0 in
          let (found, by_key) = Has-IsKeyed journal.records s h held in
          some-injective (sym found ∙ ap (get journal.records) (by_key key q named) ∙ there))
        (refl, refl) (inl (back (get-Has journal.records key r there, rw (e, complete) refl)))
