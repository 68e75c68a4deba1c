-- ===== src/Consent/Store/Commitment.antt =====
-- What the digest chain of store.rs detects, and what it does not.
use mathlib.Core.List.{reverse_aux, reverse, reverse-reverse}
use comptrol.Base.{
  ◌≡◌, refl, sym, ap, subst, ◌∙◌, String, false, some, List, [], ◌∷◌, ◌++◌, ◌==◌, eq_string, eq_iff,
  arith, ok,
}
use comptrol.Consent.Store.{
  ConsentGrant, ConsentStore, Codec, File, content, grant_digest, open_store, encode,
}
use comptrol.Consent.Store.Chain.{
  Chained, Chained-prefix, head_of, IsValid, CodecLaws, open_store-IsValid, reopen,
}

-- A perfect hash, and JSON that never fails on a grant.
pub record CollisionFree (c : Codec) : Type 0 where
  pub hash_injective : (a b : String) → c.sha256_hex a ≡ c.sha256_hex b → a ≡ b
  pub serializes : (g : ConsentGrant) → (line : String) × (c.to_json g ≡ some line)

module _ (c : Codec) where
  -- The chain read from its newest record.
  abbrev newest : List ConsentGrant → String
  newest [] = ""
  newest (g ∷ gs) = g.digest

  abbrev Backward : List ConsentGrant → Type 0
  Backward [] = Unit
  Backward (g ∷ gs) =
      (g.chain ≡ newest gs)
      × (g.digest ≡ grant_digest c g)
      × ((g.digest == "") ≡ false)
      × Backward gs

  Backward-reverse_aux :
      (gs older : List ConsentGrant)
      → Chained c (newest older) gs
      → Backward older
      → Backward (reverse_aux gs older)
        × (newest (reverse_aux gs older) ≡ head_of (newest older) gs)
  Backward-reverse_aux [] older h b = (b, refl)
  Backward-reverse_aux (g ∷ gs) older h b =
      Backward-reverse_aux gs (g ∷ older) h.3 (h.0, h.1, h.2, b)

  module _ (laws : CodecLaws c) (free : CollisionFree c) where
    -- Equal digests come from records that differ in their digest field at most.
    cleared_eq :
        (g h : ConsentGrant)
        → grant_digest c g ≡ grant_digest c h
        → record g { digest = "" } ≡ record h { digest = "" }
    unfolding grant_digest
    cleared_eq g h e =
        let g' : ConsentGrant = record g { digest = "" } in
        let h' : ConsentGrant = record h { digest = "" } in
        let (a, ea) = free.serializes g' in
        let (b, eb) = free.serializes h' in
        let same : a ≡ b = ground (arith, free.hash_injective a b) in
        cc (laws.reads_back g' a ea, laws.reads_back h' b eb)

    grant_eq :
        (g h : ConsentGrant)
        → g.digest ≡ grant_digest c g
        → h.digest ≡ grant_digest c h
        → g.digest ≡ h.digest
        → g ≡ h
    grant_eq g h dg dh e =
        let same = cleared_eq g h (sym dg ∙ e ∙ dh) in λ i. record (same i) { digest = e i }

    Backward-eq :
        (gs hs : List ConsentGrant) → Backward gs → Backward hs → newest gs ≡ newest hs → gs ≡ hs
    Backward-eq [] [] b b' e = refl
    Backward-eq [] (h ∷ hs) b b' e = absurd (ground (arith, eq_iff h.digest ""))
    Backward-eq (g ∷ gs) [] b b' e = absurd (ground (arith, eq_iff g.digest ""))
    Backward-eq (g ∷ gs) (h ∷ hs) b b' e =
        let same = grant_eq g h b.1 b'.1 e in
        let older =
          Backward-eq gs hs b.3 b'.3 (sym b.0 ∙ ap (λ (x : ConsentGrant). x.chain) same ∙ b'.0) in
        cc (same, older)

    chain_eq :
        (gs hs : List ConsentGrant)
        → Chained c "" gs
        → Chained c "" hs
        → head_of "" gs ≡ head_of "" hs
        → gs ≡ hs
    chain_eq gs hs ch ch' e =
        let (b, n) = Backward-reverse_aux gs [] ch tt in
        let (b', n') = Backward-reverse_aux hs [] ch' tt in
        sym (reverse-reverse gs)
        ∙ ap reverse (Backward-eq _ _ b b' (n ∙ e ∙ sym n'))
        ∙ reverse-reverse hs

    -- The head commits to the whole history: two files that open, at any two paths, with the same
    -- head hold the same grants in the same order, if the hash has no collisions and JSON never
    -- fails and reads back.
    pub head_commits :
        (p q : String) (f k : File) (s t : ConsentStore)
        → open_store c p f ≡ ok s
        → open_store c q k ≡ ok t
        → s.head ≡ t.head
        → s.grants ≡ t.grants
    head_commits p q f k s t es et e =
        let vs = open_store-IsValid c p f s es in
        let vt = open_store-IsValid c q k t et in
        chain_eq s.grants t.grants vs.linked vt.linked (sym vs.head_last ∙ e ∙ vt.head_last)

  -- Under a codec with the laws that the store relies on, the file of a store with a whole chain,
  -- cut off behind any of its records, still opens without an error as the shorter store: the loss
  -- of the newest records is not detected.
  pub truncated_opens :
      (laws : CodecLaws c) (s : ConsentStore) (kept lost : List ConsentGrant) (lines : List String)
      → IsValid c s
      → s.grants ≡ kept ++ lost
      → encode c kept ≡ some lines
      → open_store c s.path (content lines)
        ≡ ok (record { path = s.path; grants = kept; head = head_of "" kept })
  truncated_opens laws s kept lost lines v e enc =
      reopen c laws (record { path = s.path; grants = kept; head = head_of "" kept }) lines
        (record {
          linked = Chained-prefix c "" kept lost (subst (Chained c "") e v.linked);
          head_last = refl;
        })
        enc
