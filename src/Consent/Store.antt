-- ===== src/Consent/Store.antt =====
-- crates/comptrol-consent/src/store.rs: the durable store of consent grants, each record chained to
-- the one before it by a digest. SHA-256 and serde_json are the parameter `Codec`; the clock and
-- what the file system does are arguments of each call.
pub mod Chain
pub mod Commitment
pub mod Gate
use comptrol.Base.{
  ℕ, suc, String, str_append, Bool, true, false, not, ◌&&◌, ◌||◌, Option, none, some, List, [], ◌∷◌,
  ◌++◌, ◌==◌, eq_string, leb, nat_eq, if◌then◌else◌, keep, find, length, is_blank, hex_pad, Result,
  ok, err, ◌>>=◌, ◌>>◌, ensure, ok_or,
}
use comptrol.Consent.{Risk, ConsentDecision, allowed, denied}
use comptrol.Consent.Scopes.{
  ConsentScope, ConsentLifetime, session, until, GrantSubject, may_persist, covers,
}

pub data StoreError : Type 0 where
  io json : StoreError
  tampered : ℕ → StoreError
  agent_grant_rejected : StoreError

pub record GrantConditions : Type 0 where
  pub publisher : Option String
  pub version : Option String
  pub requires : Option (List String)

pub record ConsentGrant : Type 0 where
  pub id : String
  pub capability : String
  pub scope : ConsentScope
  pub subject : GrantSubject
  pub risk : Risk
  pub granted_at_ms : ℕ
  pub conditions : Option GrantConditions
  pub revocable : Bool
  pub chain : String
  pub digest : String

-- What is fed to a hasher that is not text.
pub data HashInput : Type 0 where
  text : String → HashInput
  millis : ℕ → HashInput

-- sha2 and serde_json: the lower-case hexadecimal SHA-256 of a text, the first eight bytes of the
-- SHA-256 of several inputs as a little-endian number, and the JSON of grants and scopes.
pub record Codec : Type 0 where
  pub sha256_hex : String → String
  pub sha256_u64 : List HashInput → ℕ
  pub to_json : ConsentGrant → Option String
  pub from_json : String → Option ConsentGrant
  pub scope_json : ConsentScope → Option String

abbrev pub or_default : Option String → String
or_default none = ""
or_default (some s) = s

-- `ConsentGrant::digest`
unfoldable pub grant_digest : Codec → ConsentGrant → String
grant_digest c grant = c.sha256_hex (or_default (c.to_json (record grant { digest = "" })))

until_passed : Option ConsentLifetime → ℕ → Bool
until_passed none now = false
until_passed (some session) now = false
until_passed (some (until expires)) now = leb expires now

unfoldable pub expired : ConsentGrant → ℕ → Bool
unfolding until_passed
expired grant now = until_passed grant.scope.lifetime now

pub record ConsentStore : Type 0 where
  pub path : String
  pub grants : List ConsentGrant
  pub head : String

-- The file behind a store: absent, or its lines.
pub data File : Type 0 where
  missing : File
  unreadable : File
  content : List String → File

pub load : Codec → String → ℕ → ConsentStore → List String → Result StoreError ConsentStore
load c previous index store [] = ok store
load c previous index store (line ∷ lines) =
    let skip = load c previous (suc index) store lines in
    if is_blank line then skip else (do
      grant ← ok_or (c.from_json line) json
      ensure (not (grant.digest == "" || not (grant.digest == grant_digest c grant)))
          (tampered index)
      ensure (grant.chain == previous) (tampered index)
      load c grant.digest (suc index)
          (record store { head = grant.digest; grants = store.grants ++ grant ∷ [] }) lines)

abbrev pub empty_store : String → ConsentStore
empty_store path = record { path = path; grants = []; head = "" }

pub open_store : Codec → String → File → Result StoreError ConsentStore
open_store c path missing = ok (empty_store path)
open_store c path unreadable = err io
open_store c path (content lines) = load c "" 0 (empty_store path) lines

-- How the file system answers one `persist`: the directory cannot be made, the write fails and
-- leaves the file as the host chooses, or the write succeeds.
pub data WriteOutcome : Type 0 where
  no_directory : WriteOutcome
  torn : File → WriteOutcome
  written : WriteOutcome

unfoldable pub encode : Codec → List ConsentGrant → Option (List String)
encode c [] = some []
encode c (g ∷ gs) = elim (c.to_json g) [
  | none ↦ none
  | some line ↦ elim (encode c gs) [ none ↦ none | some lines ↦ some (line ∷ lines) ]
]

write_lines : WriteOutcome → Option (List String) → File → Result StoreError (Unit {0}) × File
write_lines no_directory lines file = (err io, file)
write_lines outcome none file = (err json, file)
write_lines (torn left) (some lines) file = (err io, left)
write_lines written (some lines) file = (ok tt, content lines)

pub persist : Codec → WriteOutcome → ConsentStore → File → Result StoreError (Unit {0}) × File
unfolding write_lines
persist c outcome store file = write_lines outcome (encode c store.grants) file

-- What a call that writes leaves behind: its answer, the store in memory and the file.
pub record Outcome (A : Type 0) : Type 0 where
  pub answer : Result StoreError A
  pub store : ConsentStore
  pub file : File

-- `format!("grant-{:016x}", …)`; `now` is the reading that goes into the hash.
grant_id : Codec → String → String → ConsentScope → ℕ → String
grant_id c head capability scope now = str_append "grant-" (
    hex_pad 16 (
      c.sha256_u64
        (text head ∷ text capability ∷ text (or_default (c.scope_json scope)) ∷ millis now ∷ [])))

-- The record that `grant` appends. The clock is read twice, for the id and for `granted_at_ms`.
unfoldable pub new_grant :
    Codec
    → String
    → String
    → ConsentScope
    → GrantSubject
    → Risk
    → Option GrantConditions
    → ℕ
    → ℕ
    → ConsentGrant
unfolding grant_id grant_digest
new_grant c head capability scope subject risk conditions now_id now = record draft {
  digest = grant_digest c draft;
}
  where
    draft : ConsentGrant
    draft = record {
      id = grant_id c head capability scope now_id;
      capability = capability;
      scope = scope;
      subject = subject;
      risk = risk;
      granted_at_ms = now;
      conditions = conditions;
      revocable = true;
      chain = head;
      digest = "";
    }

append_grant : Codec → WriteOutcome → ConsentStore → File → ConsentGrant → Outcome ConsentGrant
unfolding persist
append_grant c outcome store file g =
    let store' : ConsentStore = record store { grants = store.grants ++ g ∷ []; head = g.digest } in
    let (saved, file') = persist c outcome store' file in
    record { answer = saved >> ok g; store = store'; file = file' }

pub grant :
    Codec
    → WriteOutcome
    → ConsentStore
    → File
    → String
    → ConsentScope
    → GrantSubject
    → Risk
    → Option GrantConditions
    → ℕ
    → ℕ
    → Outcome ConsentGrant
unfolding append_grant
grant c outcome store file capability scope subject risk conditions now_id now =
    if not (may_persist subject)
    then record { answer = err agent_grant_rejected; store = store; file = file }
    else append_grant c outcome store file
        (new_grant c store.head capability scope subject risk conditions now_id now)

-- The loop of `revoke` that chains the surviving grants anew: it returns the grants and the head.
rechain : Codec → String → List ConsentGrant → List ConsentGrant × String
rechain c head [] = ([], head)
rechain c head (g ∷ gs) =
    let linked : ConsentGrant = record g { chain = head } in
    let sealed : ConsentGrant = record linked { digest = grant_digest c linked } in
    let (rest, last) = rechain c sealed.digest gs in (sealed ∷ rest, last)

abbrev pub survivors : String → List ConsentGrant → List ConsentGrant
survivors grant_id = keep (λ g. not (g.id == grant_id))

pub revoke : Codec → WriteOutcome → ConsentStore → File → String → Outcome Bool
unfolding rechain persist
revoke c outcome store file grant_id =
    let kept = survivors grant_id store.grants in
    if nat_eq (length store.grants) (length kept)
    then record { answer = ok false; store = record store { grants = kept }; file = file }
    else (let (grants', head') = rechain c "" kept in
        let store' : ConsentStore = record store { grants = grants'; head = head' } in
        let (saved, file') = persist c outcome store' file in
        record { answer = saved >> ok true; store = store'; file = file' })

for_capability : Option String → ConsentGrant → Bool
for_capability none g = true
for_capability (some capability) g = g.capability == capability

unfoldable pub active : ConsentStore → ℕ → Option String → List ConsentGrant
unfolding for_capability
active store now capability =
    keep (for_capability capability) (keep (λ grant. not (expired grant now)) store.grants)

decide : String → String → Option ConsentGrant → ConsentDecision
decide capability intent (some grant) = allowed grant.id
decide capability intent none =
    denied
      (str_append "no active consent grant covers " (str_append capability (str_append "/" intent)))

unfoldable pub authorize :
    ConsentStore → ℕ → String → String → Risk → Option String → ConsentDecision
unfolding active decide
authorize store now capability intent risk resource =
    decide capability intent
      (find (λ grant. covers grant.scope intent risk resource) (active store now (some capability)))
