-- ===== src/Pairing/Access.antt =====
-- Who is let in by the pairings of pairing.rs, and that a revocation shuts out.
use comptrol.Base.{
  ℕ, ◌<◌, ◌≡◌, ◌↔◌, refl, sym, ap, subst, ◌∙◌, inl, inr, String, true, false, some, List, [], ◌∷◌,
  ◌==◌, eq_string, eq_iff, eq_option, option_beq_iff, Has, any_iff, Map, get, get-insert, ok, err,
  ensure_iff, arith, Option-cases, Result-cases,
}
use comptrol.Pairing.Codes.{write-records}
use comptrol.Pairing.Types.{PairingRecord, PairingStore, pairing_revoked}
use comptrol.Pairing.Logs.{Log, AppendOutcome, write_result}
use comptrol.Pairing.Normalize.{has}
use comptrol.Pairing.{
  check_identity, check_scopes, verify_mtls_identity, bind_identity, revoking, revoke,
}

-- What a client must show: a pairing that is accepted, neither revoked nor expired, with the
-- fingerprint of its certificate and all the scopes it asks for.
pub record IsAuthorized (fingerprint : String) (scopes : List String) (now : ℕ) (r : PairingRecord)
    : Type 0 where
  pub live : r.revoked ≡ false
  pub in_use : r.accepted ≡ true
  pub unexpired : now < r.expires_at_ms
  pub identity : r.identity_fingerprint ≡ some fingerprint
  pub in_scope : (scope : String) → Has scope scopes → Has scope r.scopes

has_iff : (scopes : List String) (scope : String) → (has scopes scope ≡ true) ↔ Has scope scopes
has_iff scopes scope =
    let (there, back) = any_iff (λ s. s == scope) scopes in
    (
      (λ h. let (s, m, e) = there h in subst (λ x. Has x scopes) ((eq_iff s scope).0 e) m),
      λ m. back (scope, m, (eq_iff scope scope).1 refl),
    )

check_scopes_iff :
    (r : PairingRecord) (scopes : List String) (q : PairingRecord)
    → (check_scopes r scopes ≡ ok q)
      ↔ ((r ≡ q) × ((scope : String) → Has scope scopes → Has scope r.scopes))
unfolding check_scopes
check_scopes_iff r [] q = ((λ h. (cc, λ scope m. elim m [ ])), λ h. ap ok h.0)
check_scopes_iff r (scope ∷ rest) q =
    let (there, back) = check_scopes_iff r rest q in
    (
      (λ h.
          let (first, others) = (ensure_iff _ _ _).0 h in
          let (same, more) = there others in
          (
            same,
            λ s m. elim m [
              | inl here ↦ subst (λ x. Has x r.scopes) (sym here) ((has_iff r.scopes scope).0 first)
              | inr later ↦ more s later
            ],
          )),
      λ h.
          (ensure_iff _ _ _).1
            ((has_iff r.scopes scope).1 (h.1 scope (inl refl)), back (h.0, λ s m. h.1 s (inr m))),
    )

identity_iff :
    (q r : PairingRecord) (fingerprint : String) (now : ℕ)
    → (check_identity (some q) fingerprint now ≡ ok r) ↔ (
        (q ≡ r)
        × (q.revoked ≡ false)
        × (q.accepted ≡ true)
        × (now < q.expires_at_ms)
        × (q.identity_fingerprint ≡ some fingerprint))
unfolding check_identity
identity_iff q r fingerprint now =
    let same = option_beq_iff q.identity_fingerprint (some fingerprint) in
    (
      (λ h. (
        ground (arith, h),
        ground (arith, h),
        ground (arith, h),
        ground (arith, h),
        same.0 (ground (arith, h)),
      )),
      λ h. ground (arith, h.0, h.1, h.2, h.3, same.1 h.4),
    )

-- A client is let in exactly with a pairing in the store that is accepted, neither revoked nor
-- expired, bound to its certificate, and granted every scope it asks for.
pub verify_iff :
    (store : PairingStore) (pairing_id fingerprint : String) (scopes : List String) (now : ℕ)
    (r : PairingRecord)
    → (verify_mtls_identity store pairing_id fingerprint scopes now ≡ ok r)
      ↔ ((get store.records pairing_id ≡ some r) × IsAuthorized fingerprint scopes now r)
unfolding verify_mtls_identity
verify_iff store pairing_id fingerprint scopes now r = (
  (λ h. elim (Option-cases (get store.records pairing_id)) [
    | inl gone ↦ absurd (cc (rw (gone, check_identity) at h))
    | inr (q, there) ↦ elim (Result-cases (check_identity (some q) fingerprint now)) [
      | inr (e, refused_by) ↦ absurd (cc (rw (there, refused_by) at h))
      | inl (p, passed) ↦
          let (same, live, used, alive, named) = (identity_iff q p fingerprint now).0 passed in
          let (whole, covered) = (check_scopes_iff p scopes r).0 (rw (there, passed) at h) in
          (
            there ∙ ap some (same ∙ whole),
            subst (IsAuthorized fingerprint scopes now) (same ∙ whole) (record {
              live = live;
              in_use = used;
              unexpired = alive;
              identity = named;
              in_scope =
                  λ s m. subst (λ (x : PairingRecord). Has s x.scopes) (sym same) (covered s m);
            }),
          )
    ]
  ]),
  λ h.
      let passed =
        (identity_iff r r fingerprint now).1
          (refl, h.1.live, h.1.in_use, h.1.unexpired, h.1.identity) in
      rw (h.0, passed) ((check_scopes_iff r scopes r).1 (refl, h.1.in_scope)),
)

revoked_record :
    (outcome : AppendOutcome) (store : PairingStore) (log : Log PairingRecord) (pairing_id : String)
    (r q : PairingRecord)
    → get store.records pairing_id ≡ some r
    → r.pairing_id ≡ pairing_id
    → (revoke outcome store log pairing_id).answer ≡ ok q
    → get (revoke outcome store log pairing_id).store.records pairing_id
      ≡ some (record r { revoked = true })
unfolding revoke revoking write_result
revoked_record outcome store log pairing_id r q there keyed done =
    let gone : PairingRecord = record r { revoked = true } in
    let records = write-records outcome store log gone gone q (rw there at done) in
    rw there (
      ap (λ (m : Map PairingRecord). get m pairing_id) records
      ∙ get-insert store.records r.pairing_id pairing_id gone
      ∙ ground (arith, eq_iff r.pairing_id pairing_id, keyed))

-- A revocation that goes through, of a record kept under its own id, shuts the pairing out at once:
-- whatever certificate and scopes a client shows, it is told that the pairing is revoked, and no
-- certificate can be bound to it.
pub revoke_shuts_out :
    (outcome again : AppendOutcome) (store : PairingStore) (log : Log PairingRecord)
    (pairing_id fingerprint : String) (scopes : List String) (now : ℕ) (r q : PairingRecord)
    → get store.records pairing_id ≡ some r
    → r.pairing_id ≡ pairing_id
    → (revoke outcome store log pairing_id).answer ≡ ok q
    → let after = revoke outcome store log pairing_id in
      (verify_mtls_identity after.store pairing_id fingerprint scopes now ≡ err pairing_revoked)
      × ((bind_identity again after.store after.log pairing_id fingerprint).answer
          ≡ err pairing_revoked)
unfolding verify_mtls_identity bind_identity write_result check_identity
revoke_shuts_out outcome again store log pairing_id fingerprint scopes now r q there keyed done =
    rw (revoked_record outcome store log pairing_id r q there keyed done) (refl, refl)
