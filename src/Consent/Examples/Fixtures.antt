-- ===== src/Consent/Examples/Fixtures.antt =====
-- A concrete codec for crates/comptrol-consent/src/store.rs with the laws that the store relies on, and
-- a store with two grants.
use Prim.Native.Char.{char}
use comptrol.Base.{
  ℕ, ◌≡◌, refl, subst, String, Bool, true, false, Option, none, some, List, [], ◌∷◌, is_blank,
}
use comptrol.Consent.{Risk, r0, r1, r2, r3}
use comptrol.Consent.Scopes.{
  GrantSubject, local_user, user_instruction, ConsentLifetime, session, until, ConsentScope,
}
use comptrol.Consent.Store.{
  HashInput, text, GrantConditions, ConsentGrant, Codec, ConsentStore, new_grant, empty_store,
}
use comptrol.Consent.Store.Chain.{CodecLaws}
use comptrol.Consent.Store.Commitment.{CollisionFree}
use comptrol.Consent.Examples.Wire.{
  Wire, wire_bool, wire_text, wire_nat, wire_option, wire_list, wire_retract, wire_pair, continue,
}

abbrev risk_bits : Risk → Bool × Bool
risk_bits r0 = (false, false)
risk_bits r1 = (false, true)
risk_bits r2 = (true, false)
risk_bits r3 = (true, true)

abbrev bits_risk : Bool × Bool → Risk
bits_risk (false, false) = r0
bits_risk (false, true) = r1
bits_risk (true, false) = r2
bits_risk (true, true) = r3

pub bits_risk-bits : (r : Risk) → bits_risk (risk_bits r) ≡ r
bits_risk-bits r0 = refl
bits_risk-bits r1 = refl
bits_risk-bits r2 = refl
bits_risk-bits r3 = refl

abbrev wire_risk : Wire Risk
wire_risk = wire_retract (wire_pair wire_bool wire_bool) risk_bits bits_risk bits_risk-bits

abbrev subject_text : GrantSubject → Option String
subject_text local_user = none
subject_text (user_instruction digest) = some digest

abbrev text_subject : Option String → GrantSubject
text_subject none = local_user
text_subject (some digest) = user_instruction digest

pub text_subject-text : (s : GrantSubject) → text_subject (subject_text s) ≡ s
text_subject-text local_user = refl
text_subject-text (user_instruction digest) = refl

abbrev wire_subject : Wire GrantSubject
wire_subject = wire_retract (wire_option wire_text) subject_text text_subject text_subject-text

abbrev lifetime_end : ConsentLifetime → Option ℕ
lifetime_end session = none
lifetime_end (until expires) = some expires

abbrev end_lifetime : Option ℕ → ConsentLifetime
end_lifetime none = session
end_lifetime (some expires) = until expires

pub end_lifetime-end : (l : ConsentLifetime) → end_lifetime (lifetime_end l) ≡ l
end_lifetime-end session = refl
end_lifetime-end (until expires) = refl

abbrev wire_lifetime : Wire ConsentLifetime
wire_lifetime = wire_retract (wire_option wire_nat) lifetime_end end_lifetime end_lifetime-end

abbrev wire_scope : Wire ConsentScope
wire_scope =
    wire_retract
      (wire_pair (wire_option wire_text) (
        wire_pair (wire_option wire_text) (
          wire_pair (wire_option wire_text)
            (wire_pair (wire_option wire_risk) (wire_option wire_lifetime)))))
      (λ s. (s.app_id, (s.resource, (s.intent, (s.max_risk, s.lifetime)))))
      (λ (a, (r, (i, (m, l)))). record {
        app_id = a;
        resource = r;
        intent = i;
        max_risk = m;
        lifetime = l;
      })
      (λ s. refl)

abbrev wire_conditions : Wire GrantConditions
wire_conditions =
    wire_retract
      (wire_pair (wire_option wire_text)
        (wire_pair (wire_option wire_text) (wire_option (wire_list wire_text))))
      (λ c. (c.publisher, (c.version, c.requires)))
      (λ (p, (v, r)). record { publisher = p; version = v; requires = r }) (λ c. refl)

abbrev wire_grant : Wire ConsentGrant
wire_grant =
    wire_retract
      (wire_pair wire_text (
        wire_pair wire_text (
          wire_pair wire_scope (
            wire_pair wire_subject (
              wire_pair wire_risk (
                wire_pair wire_nat (
                  wire_pair (wire_option wire_conditions)
                    (wire_pair wire_bool (wire_pair wire_text wire_text)))))))))
      (λ g. (
        g.id,
        (
          g.capability,
          (
            g.scope,
            (
              g.subject,
              (g.risk, (g.granted_at_ms, (g.conditions, (g.revocable, (g.chain, g.digest))))),
            ),
          ),
        ),
      ))
      (λ (i, (c, (s, (u, (r, (t, (n, (v, (h, d))))))))). record {
        id = i;
        capability = c;
        scope = s;
        subject = u;
        risk = r;
        granted_at_ms = t;
        conditions = n;
        revocable = v;
        chain = h;
        digest = d;
      })
      (λ g. refl)

-- A line starts with a brace.
abbrev pub line_of : ConsentGrant → String
line_of g = String.◌∷◌ (char 123 tt) (wire_grant.print g "")

abbrev grant_of : String → Option ConsentGrant
grant_of String.[] = none
grant_of (String.◌∷◌ brace s) = continue (wire_grant.parse s) (λ g r. some g)

grant_of-line : (g : ConsentGrant) → grant_of (line_of g) ≡ some g
grant_of-line g = rw (wire_grant.undone g "")

-- A number for the id: of an empty store, or of any other.
abbrev pub id_number : List HashInput → ℕ
id_number (text String.[] ∷ inputs) = 1
id_number _ = 2

abbrev pub codec : Codec
codec = record {
  sha256_hex = λ s. String.◌∷◌ (char 104 tt) s;
  sha256_u64 = id_number;
  to_json = λ g. some (line_of g);
  from_json = grant_of;
  scope_json = λ s. some (wire_scope.print s "");
}

line_of_reads_back :
    (g : ConsentGrant) (line : String) → some (line_of g) ≡ some line → grant_of line ≡ some g
line_of_reads_back g line h =
    let e : line_of g ≡ line = cc in subst (λ l. grant_of l ≡ some g) e (grant_of-line g)

line_of_not_blank :
    (g : ConsentGrant) (line : String) → some (line_of g) ≡ some line → is_blank line ≡ false
unfolding is_blank
line_of_not_blank g line h = let e : line_of g ≡ line = cc in subst (λ l. is_blank l ≡ false) e refl

pub codec-CodecLaws : CodecLaws codec
codec-CodecLaws = record {
  digest_nonempty = λ s h. absurd (cc);
  reads_back = line_of_reads_back;
  not_blank = line_of_not_blank;
}

pub codec-CollisionFree : CollisionFree codec
codec-CollisionFree = record { hash_injective = λ a b h. cc; serializes = λ g. (line_of g, refl) }

abbrev pub write_scope : ConsentScope
write_scope = record {
  app_id = none;
  resource = some "/home/ada/notes";
  intent = some "write_file";
  max_risk = some r2;
  lifetime = some (until 50);
}

abbrev pub read_scope : ConsentScope
read_scope = record {
  app_id = none;
  resource = none;
  intent = none;
  max_risk = some r1;
  lifetime = some session;
}

abbrev pub first_grant : ConsentGrant
first_grant = new_grant codec "" "fs.write" write_scope local_user r2 none 10 11

abbrev pub second_grant : ConsentGrant
second_grant = new_grant codec first_grant.digest "fs.read" read_scope local_user r1 none 20 21

-- A store after two calls of `grant`.
abbrev pub two_grants : ConsentStore
two_grants = record {
  path = "consent.jsonl";
  grants = first_grant ∷ second_grant ∷ [];
  head = second_grant.digest;
}

abbrev pub empty : ConsentStore
empty = empty_store "consent.jsonl"
