-- ===== src/Consent/Store/Gate.antt =====
-- The authorization gate of store.rs: what `authorize` allows, and what `revoke` takes away.
use comptrol.Base.{
  ℕ, ◌≡◌, ◌≢◌, ◌↔◌, refl, sym, ap, subst, ◌∙◌, ◌⊎◌, inl, inr, String, Bool, false, not, Option,
  some, List, [], ◌∷◌, ◌==◌, eq_string, eq_iff, arith, keep, find, Has, Bool-cases, Option-cases,
  Has-keep, Has-find, find-Has, length, nat_eq,
}
use comptrol.Consent.{Risk, allowed}
use comptrol.Consent.Scopes.{covers}
use comptrol.Consent.Scopes.Coverage.{Covers, covers_iff}
use comptrol.Consent.Store.{
  ConsentGrant, ConsentStore, Codec, File, WriteOutcome, expired, active, for_capability, decide,
  authorize, revoke, rechain, survivors, grant_digest,
}

-- A grant that allows the request: of the capability, alive, and with a scope that covers it.
pub record Permits (now : ℕ) (capability intent : String) (risk : Risk) (resource : Option String)
    (g : ConsentGrant) : Type 0 where
  pub capability_eq : g.capability ≡ capability
  pub alive : expired g now ≡ false
  pub in_scope : Covers g.scope intent risk resource

module _ (s : ConsentStore) (now : ℕ) (capability intent : String) (risk : Risk)
    (resource : Option String) where
  abbrev asks : ConsentGrant → Bool
  asks g = covers g.scope intent risk resource

  Has-active :
      (g : ConsentGrant)
      → Has g (active s now (some capability))
        ↔ (Has g s.grants × (g.capability ≡ capability) × (expired g now ≡ false))
  unfolding active for_capability
  Has-active g =
      let (there, back) =
        Has-keep (for_capability (some capability)) g (keep (λ x. not (expired x now)) s.grants) in
      let (there', back') = Has-keep (λ x. not (expired x now)) g s.grants in
      (
        (λ h. ground (arith, there h, there', eq_iff g.capability capability)),
        λ h. ground (arith, back, back', eq_iff g.capability capability),
      )

  -- What the gate allows, a grant in the store permits: one of the capability asked for, not
  -- expired, whose scope covers the intent, the risk and the resource; and the answer names it.
  pub authorize_sound :
      (gid : String)
      → authorize s now capability intent risk resource ≡ allowed gid
      → (g : ConsentGrant) × Has g s.grants
        × (g.id ≡ gid)
        × Permits now capability intent risk resource g
  unfolding authorize decide
  authorize_sound gid e = elim (Option-cases (find asks (active s now (some capability)))) [
    | inl missing ↦ absurd (ground arith)
    | inr (g, found) ↦
        let (member, covered) = find-Has asks g (active s now (some capability)) found in
        let (held, cap, live) = (Has-active g).0 member in
        (
          g,
          held,
          ground arith,
          record { capability_eq = cap; alive = live; in_scope = (covers_iff _ _ _ _).0 covered },
        )
  ]

  -- The gate allows whatever a grant in the store permits, so a refusal means that none does.
  pub authorize_complete :
      (g : ConsentGrant)
      → Has g s.grants
      → Permits now capability intent risk resource g
      → (gid : String) × (authorize s now capability intent risk resource ≡ allowed gid)
  unfolding authorize decide
  authorize_complete g held permit =
      let member = (Has-active g).1 (held, permit.capability_eq, permit.alive) in
      let (b, found) =
        Has-find asks g (active s now (some capability)) member
          ((covers_iff _ _ _ _).1 permit.in_scope) in
      (b.id, rw found)

-- Chaining a record anew changes its chain and its digest only.
record SameTerms (g h : ConsentGrant) : Type 0 where
  same_id : g.id ≡ h.id
  same_capability : g.capability ≡ h.capability
  same_scope : g.scope ≡ h.scope

module _ (c : Codec) where
  rechain_from :
      (p : String) (gs : List ConsentGrant) (g : ConsentGrant)
      → Has g (rechain c p gs).0
      → (h : ConsentGrant) × Has h gs × SameTerms g h
  unfolding rechain
  rechain_from p [] g has = elim has [ ]
  rechain_from p (x ∷ xs) g (inl e) = (
    x,
    inl refl,
    record {
      same_id = ap (λ (y : ConsentGrant). y.id) e;
      same_capability = ap (λ (y : ConsentGrant). y.capability) e;
      same_scope = ap (λ (y : ConsentGrant). y.scope) e;
    },
  )
  rechain_from p (x ∷ xs) g (inr later) =
      let (h, has, same) = rechain_from (grant_digest c (record x { chain = p })) xs g later in
      (h, inr has, same)

  rechain_to :
      (p : String) (gs : List ConsentGrant) (h : ConsentGrant)
      → Has h gs
      → (g : ConsentGrant) × Has g (rechain c p gs).0 × SameTerms g h
  unfolding rechain
  rechain_to p [] h has = elim has [ ]
  rechain_to p (x ∷ xs) h (inl e) =
      let linked : ConsentGrant = record x { chain = p } in
      (
        record linked { digest = grant_digest c linked },
        inl refl,
        record {
          same_id = ap (λ (y : ConsentGrant). y.id) (sym e);
          same_capability = ap (λ (y : ConsentGrant). y.capability) (sym e);
          same_scope = ap (λ (y : ConsentGrant). y.scope) (sym e);
        },
      )
  rechain_to p (x ∷ xs) h (inr later) =
      let (g, has, same) = rechain_to (grant_digest c (record x { chain = p })) xs h later in
      (g, inr has, same)

  module _ (w : WriteOutcome) (s : ConsentStore) (f : File) (gid : String) where
    abbrev kept : List ConsentGrant
    kept = survivors gid s.grants

    -- The grants after `revoke` are the survivors, in their old form or chained anew.
    revoke_grants :
        ((revoke c w s f gid).store.grants ≡ kept)
        ⊎ ((revoke c w s f gid).store.grants ≡ (rechain c "" kept).0)
    unfolding revoke
    revoke_grants = elim (Bool-cases (nat_eq (length s.grants) (length kept))) [
      | inl same ↦ inl (rw same)
      | inr fewer ↦ inr (rw fewer)
    ]

    revoke_from :
        (g : ConsentGrant)
        → Has g (revoke c w s f gid).store.grants
        → (h : ConsentGrant) × Has h kept × SameTerms g h
    revoke_from g has = elim revoke_grants [
      | inl e ↦ (
        g,
        subst (Has g) e has,
        record { same_id = refl; same_capability = refl; same_scope = refl },
      )
      | inr e ↦ rechain_from "" kept g (subst (Has g) e has)
    ]

    revoke_to :
        (h : ConsentGrant)
        → Has h kept
        → (g : ConsentGrant) × Has g (revoke c w s f gid).store.grants × SameTerms g h
    revoke_to h has = elim revoke_grants [
      | inl e ↦ (
        h,
        subst (Has h) (sym e) has,
        record { same_id = refl; same_capability = refl; same_scope = refl },
      )
      | inr e ↦
          let (g, there, same) = rechain_to "" kept h has in (g, subst (Has g) (sym e) there, same)
    ]

    module _ (now : ℕ) (capability intent : String) (risk : Risk) (resource : Option String) where
      -- After a revocation the gate never answers with the revoked id, whatever is asked, at
      -- whatever time, and whatever the file system answered.
      pub revoke_denies :
          authorize (revoke c w s f gid).store now capability intent risk resource ≢ allowed gid
      revoke_denies e =
          let (g, held, named, _) = authorize_sound _ now capability intent risk resource gid e in
          let (h, has, same) = revoke_from g held in
          let (_, other) = (Has-keep (λ x. not (x.id == gid)) h s.grants).0 has in
          ground (arith, same.same_id, eq_iff h.id gid)

      -- A revocation takes nothing else away: what a grant of another id permitted is still allowed.
      pub revoke_keeps :
          (g : ConsentGrant)
          → Has g s.grants
          → g.id ≢ gid
          → Permits now capability intent risk resource g
          → (x : String) × (authorize (revoke c w s f gid).store now capability intent risk resource
              ≡ allowed x)
      unfolding expired
      revoke_keeps g held other permit =
          let stays =
            (Has-keep (λ x. not (x.id == gid)) g s.grants).1
              (held, ground (arith, eq_iff g.id gid)) in
          let (h, has, same) = revoke_to g stays in
          authorize_complete _ now capability intent risk resource h has (record {
            capability_eq = same.same_capability ∙ permit.capability_eq;
            alive = rw same.same_scope permit.alive;
            in_scope =
                subst (λ scope. Covers scope intent risk resource) (sym same.same_scope)
                  permit.in_scope;
          })
