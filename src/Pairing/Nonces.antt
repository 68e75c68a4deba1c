-- ===== src/Pairing/Nonces.antt =====
-- The replay cache of pairing.rs: a nonce is taken once while it is fresh.
use comptrol.Base.{
  Bool, Result, ok, ◌>>◌, ◌-◌, if◌then◌else◌, insert, contains_key, Map, ℕ, ◌-◌, ◌<◌, ◌≡◌, ◌≢◌,
  refl, ◌⊎◌, inl, inr, String, true, false, [], ◌∷◌, ◌==◌, eq_string, eq_iff, Map, insert,
  contains_key, ok, arith, Bool-cases,
}
use comptrol.Pairing.Types.{PairingStore, PairingError, ReplayNonce, nonce_ttl_ms}
use comptrol.Pairing.Logs.{Log, AppendOutcome, append_line, fresh}

module _ (hash : String → String) where
  -- What `record_nonce` leaves behind; the answer is whether the nonce is new.
  pub record Recorded : Type 0 where
    pub answer : Result PairingError Bool
    pub store : PairingStore
    pub nonces : Log ReplayNonce

  abbrev pub remember : PairingStore → Map ReplayNonce → PairingStore
  remember store cache = record store { replay_cache = cache }

  pub record_fresh :
      AppendOutcome → PairingStore → Log ReplayNonce → Map ReplayNonce → ReplayNonce → Recorded
  record_fresh outcome store nonces cache entry =
      let (saved, nonces') = append_line outcome nonces entry in
      record {
        answer = saved >> ok true;
        store = remember store (insert cache entry.nonce_hash entry);
        nonces = nonces';
      }

  -- `retain` over the cache.
  abbrev pub still_fresh : ℕ → Map ReplayNonce → Map ReplayNonce
  still_fresh now [] = []
  still_fresh now ((key, nonce) ∷ cache) =
      if fresh now nonce then (key, nonce) ∷ still_fresh now cache else still_fresh now cache

  unfoldable pub record_nonce :
      AppendOutcome → PairingStore → Log ReplayNonce → String → String → ℕ → Recorded
  unfolding record_fresh
  record_nonce outcome store nonces nonce pairing_id now =
      let cache = still_fresh now store.replay_cache in
      if contains_key cache (hash nonce)
      then record { answer = ok false; store = remember store cache; nonces = nonces }
      else record_fresh outcome store nonces cache
          (record { nonce_hash = hash nonce; created_at_ms = now; pairing_id = pairing_id })

-- A cache that holds a fresh entry at a key still holds one after the stale entries are dropped.
abbrev HasFresh : ℕ → String → Map ReplayNonce → Type 0
HasFresh now key [] = ⊥
HasFresh now key ((k, nonce) ∷ cache) =
    ((k ≡ key) × (fresh now nonce ≡ true)) ⊎ HasFresh now key cache

module _ (hash : String → String) where
  HasFresh-kept :
      (now : ℕ) (key : String) (cache : Map ReplayNonce)
      → HasFresh now key cache
      → contains_key (still_fresh hash now cache) key ≡ true
  HasFresh-kept now key [] h = elim h [ ]
  HasFresh-kept now key ((k, nonce) ∷ cache) h = elim (Bool-cases (fresh now nonce)) [
    | inl good ↦ elim h [
      | inl (same, _) ↦ rw good (ground (arith, eq_iff k key, same))
      | inr later ↦ rw good (ground (arith, HasFresh-kept now key cache later))
    ]
    | inr stale ↦ elim h [
      | inl (_, good) ↦ absurd (cc)
      | inr later ↦ rw stale (HasFresh-kept now key cache later)
    ]
  ]

  HasFresh-insert :
      (now : ℕ) (key : String) (cache : Map ReplayNonce) (nonce : ReplayNonce)
      → fresh now nonce ≡ true
      → HasFresh now key (insert cache key nonce)
  HasFresh-insert now key [] nonce good = inl (refl, good)
  HasFresh-insert now key ((k, old) ∷ cache) nonce good = elim (Bool-cases (k == key)) [
    | inl same ↦ rw same (inl (refl, good))
    | inr other ↦ rw other (inr (HasFresh-insert now key cache nonce good))
  ]

  -- A nonce is taken once: unless the first call answers that it was seen before, the next call
  -- with it within 120,000 ms answers that it was seen before, for any pairing, and whether or not
  -- the first call reached the file.
  pub nonce_once :
      (outcome again : AppendOutcome) (store : PairingStore) (nonces : Log ReplayNonce)
      (nonce pairing_id other : String) (now later : ℕ)
      → (record_nonce hash outcome store nonces nonce pairing_id now).answer ≢ ok false
      → later - now < nonce_ttl_ms
      → let first = record_nonce hash outcome store nonces nonce pairing_id now in
        (record_nonce hash again first.store first.nonces nonce other later).answer ≡ ok false
  unfolding record_nonce record_fresh
  nonce_once outcome again store nonces nonce pairing_id other now later unseen soon =
      elim (Bool-cases (contains_key (still_fresh hash now store.replay_cache) (hash nonce))) [
        | inl seen ↦ absurd (unseen (rw seen refl))
        | inr new ↦
            rw
              (
                new,
                HasFresh-kept later (hash nonce) _ (
                    HasFresh-insert later (hash nonce) (still_fresh hash now store.replay_cache)
                      (record {
                        nonce_hash = hash nonce;
                        created_at_ms = now;
                        pairing_id = pairing_id;
                      })
                      (ground arith)),
              )
              refl
      ]
