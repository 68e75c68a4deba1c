-- ===== src/Pairing/Scopes.antt =====
-- The record that `create` of pairing.rs makes.
use comptrol.Base.{
  ℕ, ◌+◌, ◌≤◌, ◌≡◌, ◌≢◌, ◌↔◌, refl, sym, ap, subst, ◌⊎◌, inl, inr, String, true, false, Option,
  none, some, List, [], ◌∷◌, ◌++◌, ◌==◌, eq_string, eq_iff, Has, Has-append, any_iff, ok, arith,
  Bool-cases, Result-cases,
}
use comptrol.Pairing.Types.{PairingRecord, PairingStore, max_ttl_ms}
use comptrol.Pairing.Logs.{
  Log, AppendOutcome, write, write_result, after_append, refused, partial, unterminated, appended,
}
use comptrol.Pairing.Normalize.{
  has, allowed_scopes, normalize_from, normalize_scopes, hex, ttl_of, u128_max,
}
use comptrol.Pairing.{new_pairing, created, create}

-- The scopes of a record: some, known ones only, and just those that were asked for.
pub record IsNormal (asked scopes : List String) : Type 0 where
  pub some_scope : scopes ≢ []
  pub known : (scope : String) → Has scope scopes → has allowed_scopes scope ≡ true
  pub as_asked : (scope : String) → Has scope scopes ↔ Has scope asked

record Progress (normalized rest scopes : List String) : Type 0 where
  some_scope : scopes ≢ []
  known : (scope : String) → Has scope rest → has allowed_scopes scope ≡ true
  kept : (scope : String) → Has scope scopes ↔ (Has scope normalized ⊎ Has scope rest)

has-Has : (scopes : List String) (scope : String) → has scopes scope ≡ true → Has scope scopes
has-Has scopes scope h =
    let (s, m, e) = (any_iff (λ s. s == scope) scopes).0 h in
    subst (λ x. Has x scopes) ((eq_iff s scope).0 e) m

-- A scope joins the known ones at the front of what is left.
known-cons :
    (scope : String) (rest : List String)
    → has allowed_scopes scope ≡ true
    → ((s : String) → Has s rest → has allowed_scopes s ≡ true)
    → (s : String) → Has s (scope ∷ rest)
    → has allowed_scopes s ≡ true
known-cons scope rest good more s m = elim m [
  | inl here ↦ subst (λ x. has allowed_scopes x ≡ true) (sym here) good
  | inr later ↦ more s later
]

Progress-skip :
    (scope : String) (normalized rest scopes : List String)
    → has allowed_scopes scope ≡ true
    → Has scope normalized
    → Progress normalized rest scopes
    → Progress normalized (scope ∷ rest) scopes
Progress-skip scope normalized rest scopes good old h = record {
  some_scope = h.some_scope;
  known = known-cons scope rest good h.known;
  kept = λ s. (
    (λ m. elim ((h.kept s).0 m) [ inl a ↦ inl a | inr b ↦ inr (inr b) ]),
    λ m. (h.kept s).1 (elim m [
      | inl a ↦ inl a
      | inr b ↦ elim b [
        | inl here ↦ inl (subst (λ x. Has x normalized) (sym here) old)
        | inr later ↦ inr later
      ]
    ]),
  );
}

Progress-push :
    (scope : String) (normalized rest scopes : List String)
    → has allowed_scopes scope ≡ true
    → Progress (normalized ++ scope ∷ []) rest scopes
    → Progress normalized (scope ∷ rest) scopes
Progress-push scope normalized rest scopes good h = record {
  some_scope = h.some_scope;
  known = known-cons scope rest good h.known;
  kept = λ s.
      let (there, back) = Has-append s normalized (scope ∷ []) in
      (
        (λ m. elim ((h.kept s).0 m) [
          | inl a ↦ elim (there a) [
            | inl old ↦ inl old
            | inr new ↦ elim new [ inl here ↦ inr (inl here) | inr none_left ↦ absurd none_left ]
          ]
          | inr b ↦ inr (inr b)
        ]),
        λ m. (h.kept s).1 (elim m [
          | inl a ↦ inl (back (inl a))
          | inr b ↦ elim b [ inl here ↦ inl (back (inr (inl here))) | inr later ↦ inr later ]
        ]),
      );
}

normalize_from-Progress :
    (normalized rest scopes : List String)
    → normalize_from normalized rest ≡ ok scopes
    → Progress normalized rest scopes
unfolding normalize_from
normalize_from-Progress [] [] scopes e = absurd (cc)
normalize_from-Progress (n ∷ ns) [] scopes e =
    let same : n ∷ ns ≡ scopes = cc in
    rw (sym same) (record {
      some_scope = λ h. absurd (cc);
      known = λ s m. elim m [ ];
      kept = λ s. ((λ m. inl m), λ m. elim m [ inl a ↦ a | inr b ↦ elim b [ ] ]);
    })
normalize_from-Progress normalized (scope ∷ rest) scopes e =
    elim (Bool-cases (has allowed_scopes scope)) [
      | inr bad ↦ absurd (cc (rw bad at e))
      | inl good ↦ elim (Bool-cases (has normalized scope)) [
        | inl old ↦
            Progress-skip scope normalized rest scopes good (has-Has normalized scope old)
              (normalize_from-Progress normalized rest scopes (rw (good, old) at e))
        | inr new ↦
            Progress-push scope normalized rest scopes good
              (normalize_from-Progress (normalized ++ scope ∷ []) rest scopes (rw (good, new) at e))
      ]
    ]

-- `normalize_scopes` gives the scopes asked for, which are known ones and at least one.
pub normalize_scopes-IsNormal :
    (asked scopes : List String) → normalize_scopes asked ≡ ok scopes → IsNormal asked scopes
unfolding normalize_scopes
normalize_scopes-IsNormal asked scopes e =
    let h = normalize_from-Progress [] asked scopes e in
    record {
      some_scope = h.some_scope;
      known = λ s m. elim ((h.kept s).0 m) [ inl a ↦ elim a [ ] | inr b ↦ h.known s b ];
      as_asked = λ s. (
        (λ m. elim ((h.kept s).0 m) [ inl a ↦ elim a [ ] | inr b ↦ b ]),
        λ m. (h.kept s).1 (inr m),
      );
    }

write-answer :
    {A : Type 0} (outcome : AppendOutcome) (store : PairingStore) (log : Log PairingRecord)
    (q : PairingRecord) (a b : A)
    → (write outcome store log q a).answer ≡ ok b
    → a ≡ b
unfolding write after_append
write-answer refused store log q a b e = absurd (cc)
write-answer partial store log q a b e = absurd (cc)
write-answer unterminated store log q a b e = absurd (cc)
write-answer appended store log q a b e = cc

ttl_of-bounds : (ttl_ms : Option ℕ) → (1000 ≤ ttl_of ttl_ms) × (ttl_of ttl_ms ≤ max_ttl_ms)
unfolding ttl_of
ttl_of-bounds none = (omega arith, omega arith)
ttl_of-bounds (some ttl) = (omega arith, omega arith)

-- The facts of a record that `create` makes, whatever it answers.
new_pairing-facts :
    (hash : String → String) (token : List ℕ) (scopes : List String) (ttl_ms : Option ℕ)
    (fingerprint : Option String) (now : ℕ)
    → now + max_ttl_ms ≤ u128_max
    → let r = new_pairing hash token scopes ttl_ms fingerprint now in
      (now + 1000 ≤ r.expires_at_ms) × (r.expires_at_ms ≤ now + max_ttl_ms)
unfolding new_pairing
new_pairing-facts hash token scopes ttl_ms fingerprint now early =
    let (low, high) = ttl_of-bounds ttl_ms in (omega arith, omega arith)

-- A new code that can be used has known scopes, just those asked for, is not accepted yet, and
-- expires between one second and one day after it was made, unless the clock is at its end.
pub create-IsNormal :
    (hash : String → String) (outcome : AppendOutcome) (store : PairingStore)
    (log : Log PairingRecord) (token : List ℕ) (asked : List String) (ttl_ms : Option ℕ)
    (fingerprint : Option String) (now : ℕ) (r : PairingRecord) (code : String)
    → now + max_ttl_ms ≤ u128_max
    → (create hash outcome store log (some token) asked ttl_ms fingerprint now).answer
      ≡ ok (r, code)
    → IsNormal asked r.scopes
      × (r.accepted ≡ false)
      × (r.token_hash ≡ hash code)
      × (now + 1000 ≤ r.expires_at_ms)
      × (r.expires_at_ms ≤ now + max_ttl_ms)
unfolding create created write_result new_pairing
create-IsNormal hash outcome store log token asked ttl_ms fingerprint now r code early e =
    elim (Result-cases (normalize_scopes asked)) [
      | inr (why, refused_by) ↦ absurd (cc (rw refused_by at e))
      | inl (scopes, normal) ↦
          let made = new_pairing hash token scopes ttl_ms fingerprint now in
          let same : (made, hex token) ≡ (r, code) =
            write-answer outcome store log made (made, hex token) (r, code) (rw normal at e) in
          let record_is : made ≡ r = ap (λ (x : PairingRecord × String). x.0) same in
          let code_is : hex token ≡ code = ap (λ (x : PairingRecord × String). x.1) same in
          let (low, high) = new_pairing-facts hash token scopes ttl_ms fingerprint now early in
          rw (sym record_is, sym code_is)
            (normalize_scopes-IsNormal asked scopes normal, refl, refl, low, high)
    ]
