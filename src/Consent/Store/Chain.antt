-- ===== src/Consent/Store/Chain.antt =====
-- The digest chain of store.rs: what `open` accepts, and that the store keeps it whole.
use comptrol.Base.{
  ℕ, suc, ◌≡◌, ◌≢◌, refl, sym, subst, ◌∙◌, inl, inr, String, false, Option, some, List, [], ◌∷◌,
  ◌++◌, append-nil, append_assoc, ◌==◌, eq_string, eq_iff, arith, Bool-cases, Option-cases,
  is_blank, ok, not, length, nat_eq, nat_eq_iff, keep-eq_self,
}
use comptrol.Consent.{Risk}
use comptrol.Consent.Scopes.{ConsentScope, GrantSubject, local_user, user_instruction}
use comptrol.Consent.Store.{
  ConsentGrant, ConsentStore, Codec, File, missing, unreadable, content, WriteOutcome,
  GrantConditions, grant_digest, load, open_store, encode, new_grant, grant, rechain, revoke,
  empty_store, survivors, or_default,
}

-- Each record names the digest of the one before it, and carries its own, which is not empty.
abbrev pub Chained : Codec → String → List ConsentGrant → Type 0
Chained c previous [] = Unit
Chained c previous (g ∷ gs) =
    (g.chain ≡ previous)
    × (g.digest ≡ grant_digest c g)
    × ((g.digest == "") ≡ false)
    × Chained c g.digest gs

abbrev pub head_of : String → List ConsentGrant → String
head_of previous [] = previous
head_of previous (g ∷ gs) = head_of g.digest gs

pub record IsValid (c : Codec) (s : ConsentStore) : Type 0 where
  pub linked : Chained c "" s.grants
  pub head_last : s.head ≡ head_of "" s.grants

-- What the store relies on: a digest is never empty, and the JSON of a grant is one line that is
-- not blank and reads back as the grant.
pub record CodecLaws (c : Codec) : Type 0 where
  pub digest_nonempty : (s : String) → c.sha256_hex s ≢ ""
  pub reads_back :
      (g : ConsentGrant) (line : String) → c.to_json g ≡ some line → c.from_json line ≡ some g
  pub not_blank :
      (g : ConsentGrant) (line : String) → c.to_json g ≡ some line → is_blank line ≡ false

pub Chained-append :
    (c : Codec) (p : String) (xs ys : List ConsentGrant)
    → Chained c p xs
    → Chained c (head_of p xs) ys
    → Chained c p (xs ++ ys)
Chained-append c p [] ys hx hy = hy
Chained-append c p (x ∷ xs) ys hx hy = (hx.0, hx.1, hx.2, Chained-append c x.digest xs ys hx.3 hy)

pub Chained-prefix :
    (c : Codec) (p : String) (xs ys : List ConsentGrant) → Chained c p (xs ++ ys) → Chained c p xs
Chained-prefix c p [] ys h = tt
Chained-prefix c p (x ∷ xs) ys h = (h.0, h.1, h.2, Chained-prefix c x.digest xs ys h.3)

pub head_of-append :
    (p : String) (xs ys : List ConsentGrant) → head_of p (xs ++ ys) ≡ head_of (head_of p xs) ys
head_of-append p [] ys = refl
head_of-append p (x ∷ xs) ys = head_of-append x.digest xs ys

-- The loop state of `open`: the grants read so far are chained, and both heads are their last digest.
module _ (c : Codec) where
  extend-IsValid :
      (s : ConsentStore) (g : ConsentGrant)
      → IsValid c s
      → g.chain ≡ s.head
      → g.digest ≡ grant_digest c g
      → (g.digest == "") ≡ false
      → IsValid c (record s { head = g.digest; grants = s.grants ++ g ∷ [] })
  extend-IsValid s g v ch dg ne = record {
    linked = Chained-append c "" s.grants (g ∷ []) v.linked (ch ∙ v.head_last, dg, ne, tt);
    head_last = sym (head_of-append "" s.grants (g ∷ []));
  }

  -- A record that `open` passes names the previous digest and carries its own.
  load_accepts :
      (i : ℕ) (s : ConsentStore) (line : String) (lines : List String) (t : ConsentStore)
      (g : ConsentGrant)
      → is_blank line ≡ false
      → c.from_json line ≡ some g
      → load c s.head i s (line ∷ lines) ≡ ok t
      → (g.chain ≡ s.head)
        × (g.digest ≡ grant_digest c g)
        × ((g.digest == "") ≡ false)
        × (load c g.digest (suc i) (record s { head = g.digest; grants = s.grants ++ g ∷ [] }) lines
            ≡ ok t)
  unfolding load
  load_accepts i s line lines t g used good h =
      ground (arith, eq_iff g.chain s.head, eq_iff g.digest (grant_digest c g), eq_iff g.digest "")

  load-IsValid :
      (i : ℕ) (s : ConsentStore) (lines : List String) (t : ConsentStore)
      → IsValid c s
      → load c s.head i s lines ≡ ok t
      → IsValid c t
  unfolding load
  load-IsValid i s [] t v h = subst (IsValid c) (cc) v
  load-IsValid i s (line ∷ lines) t v h = elim (Bool-cases (is_blank line)) [
    | inl skip ↦ load-IsValid (suc i) s lines t v (rw skip at h)
    | inr used ↦ elim (Option-cases (c.from_json line)) [
      | inl bad ↦ absurd (ground arith)
      | inr (g, good) ↦
          let (ch, dg, ne, rest) = load_accepts i s line lines t g used good h in
          load-IsValid (suc i) (record s { head = g.digest; grants = s.grants ++ g ∷ [] }) lines t
            (extend-IsValid s g v ch dg ne) rest
    ]
  ]

  -- What `open` accepts is a chain: every record names the digest of the one before, carries the
  -- digest of its own content, and the head is the last digest.
  pub open_store-IsValid :
      (path : String) (file : File) (s : ConsentStore) → open_store c path file ≡ ok s → IsValid c s
  unfolding open_store
  open_store-IsValid path missing s h =
      subst (IsValid c) {x = empty_store path} (cc) (record { linked = tt; head_last = refl })
  open_store-IsValid path unreadable s h = absurd (cc)
  open_store-IsValid path (content lines) s h =
      load-IsValid 0 (empty_store path) lines s (record { linked = tt; head_last = refl }) h

  encode_head :
      (g : ConsentGrant) (gs : List ConsentGrant) (lines : List String)
      → encode c (g ∷ gs) ≡ some lines
      → (line : String) × (rest : List String) × (c.to_json g ≡ some line)
        × (encode c gs ≡ some rest)
        × (lines ≡ line ∷ rest)
  unfolding encode
  encode_head g gs lines h = elim (Option-cases (c.to_json g)) [
    | inl e ↦ absurd (ground arith)
    | inr (line, e) ↦ elim (Option-cases (encode c gs)) [
      | inl e' ↦ absurd (ground arith)
      | inr (rest, e') ↦ (line, rest, e, e', ground arith)
    ]
  ]

  module _ (laws : CodecLaws c) where
    load-encode :
        (gs : List ConsentGrant) (i : ℕ) (s : ConsentStore) (lines : List String)
        → Chained c s.head gs
        → encode c gs ≡ some lines
        → load c s.head i s lines
          ≡ ok (record s { head = head_of s.head gs; grants = s.grants ++ gs })
    unfolding load encode
    load-encode [] i s lines ch e =
        let none_left : lines ≡ [] = ground arith in rw (none_left, append-nil) refl
    load-encode (g ∷ gs) i s lines ch e =
        let (line, rest, json, tail, split) = encode_head g gs lines e in
        let s' : ConsentStore = record s { head = g.digest; grants = s.grants ++ g ∷ [] } in
        let ih = load-encode gs (suc i) s' rest ch.3 tail in
        rw split (
          ground (
            arith,
            ih,
            laws.not_blank g line json,
            laws.reads_back g line json,
            ch.0,
            ch.1,
            ch.2,
            eq_iff g.chain s.head,
            eq_iff g.digest (grant_digest c g),
            append_assoc s.grants (g ∷ []) gs,
          ))

    -- Under a codec with the laws that the store relies on, a file that holds the grants of a
    -- store with a whole chain opens as the very same store: its grants, in order, and its head. So
    -- do the grants whose lifetime is a session: the file keeps them and they outlive the process.
    pub reopen :
        (s : ConsentStore) (lines : List String)
        → IsValid c s
        → encode c s.grants ≡ some lines
        → open_store c s.path (content lines) ≡ ok s
    unfolding open_store
    reopen s lines v e =
        rw (load-encode s.grants 0 (empty_store s.path) lines v.linked e) (rw (← v.head_last))

    digest_filled : (g : ConsentGrant) → (grant_digest c g == "") ≡ false
    unfolding grant_digest
    digest_filled g =
        let text : String = or_default (c.to_json (record g { digest = "" })) in
        ground (arith, eq_iff (c.sha256_hex text) "", laws.digest_nonempty text)

    -- Under a codec with the laws that the store relies on, `grant` keeps a whole chain whole, on
    -- every branch: whoever grants, and whatever the file system answers.
    pub grant-IsValid :
        (w : WriteOutcome) (s : ConsentStore) (f : File) (capability : String)
        (scope : ConsentScope) (subject : GrantSubject) (risk : Risk)
        (conditions : Option GrantConditions) (now_id now : ℕ)
        → IsValid c s
        → IsValid c (grant c w s f capability scope subject risk conditions now_id now).store
    unfolding grant new_grant
    grant-IsValid w s f capability scope local_user risk conditions now_id now v =
        extend-IsValid s (new_grant c s.head capability scope local_user risk conditions now_id now)
          v refl refl
          (digest_filled
            (new_grant c s.head capability scope local_user risk conditions now_id now))
    grant-IsValid w s f capability scope (user_instruction d) risk conditions now_id now v = v

    rechain-Chained :
        (p : String) (gs : List ConsentGrant)
        → Chained c p (rechain c p gs).0 × ((rechain c p gs).1 ≡ head_of p (rechain c p gs).0)
    unfolding rechain grant_digest
    rechain-Chained p [] = (tt, refl)
    rechain-Chained p (g ∷ gs) =
        let linked : ConsentGrant = record g { chain = p } in
        let (ih, last) = rechain-Chained (grant_digest c linked) gs in
        ((refl, refl, digest_filled linked, ih), last)

    -- Under a codec with the laws that the store relies on, `revoke` keeps a whole chain whole,
    -- whether it finds the grant and whatever the file system answers.
    pub revoke-IsValid :
        (w : WriteOutcome) (s : ConsentStore) (f : File) (grant_id : String)
        → IsValid c s
        → IsValid c (revoke c w s f grant_id).store
    unfolding revoke
    revoke-IsValid w s f grant_id v =
        elim (Bool-cases (nat_eq (length s.grants) (length (survivors grant_id s.grants)))) [
          | inl same ↦ rw same (
              rw (keep-eq_self (λ g. not (g.id == grant_id)) s.grants ((nat_eq_iff _ _).0 same))
                (record { linked = v.linked; head_last = v.head_last }))
          | inr fewer ↦
              let (linked, last) = rechain-Chained "" (survivors grant_id s.grants) in
              rw fewer (record { linked = linked; head_last = last })
        ]
