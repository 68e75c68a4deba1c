-- ===== src/Workflow/Examples/Values.antt =====
-- Concrete JSON values, and a workflow that reads, checks, acts twice in a loop, and returns.
use comptrol.Base.{
  ℕ, subst, ◌≡◌, ◌↔◌, refl, String, Bool, true, false, ◌&&◌, Option, none, some, List, [], ◌∷◌,
  ◌==◌, eq_string, eq_iff, nat_eq, Map, get, if◌then◌else◌, arith, ok,
}
use comptrol.Json.{Json}
use comptrol.Workflow.{Workflow, observe, act, verify, loop, parallel_read, return}
use comptrol.Workflow.Executor.{WorkflowExecutor}

-- An object is a chain of entries that ends in `no_entries`.
pub data Value : Type 0 where
  nothing no_entries : Value
  words : String → Value
  amount : ℕ → Value
  flag : Bool → Value
  entry : String → Value → Value → Value

abbrev flag_same : Bool → Bool → Bool
flag_same true b = b
flag_same false true = false
flag_same false false = true

abbrev pub same : Value → Value → Bool
same nothing nothing = true
same no_entries no_entries = true
same (words s) (words t) = s == t
same (amount m) (amount n) = nat_eq m n
same (flag a) (flag b) = flag_same a b
same (entry k v r) (entry j u q) = k == j && (same v u && same r q)
same _ _ = false

abbrev pub object : Map Value → Value
object [] = no_entries
object ((k, v) ∷ m) = entry k v (object m)

abbrev pub member : Value → String → Option Value
member (entry k v r) key = if k == key then some v else member r key
member _ key = none

pub member-object : (m : Map Value) (key : String) → member (object m) key ≡ get m key
member-object [] key = refl
member-object ((k, v) ∷ m) key = rw (member-object m key)

abbrev pub is_nothing : Value → Bool
is_nothing nothing = true
is_nothing _ = false

abbrev pub is_words : Value → Bool
is_words (words s) = true
is_words _ = false

abbrev pub is_amount : Value → Bool
is_amount (amount n) = true
is_amount _ = false

abbrev pub is_flag : Value → Bool
is_flag (flag b) = true
is_flag _ = false

abbrev pub entries : Value → Map Value
entries (entry k v r) = (k, v) ∷ entries r
entries _ = []

abbrev pub as_object : Value → Option (Map Value)
as_object no_entries = some []
as_object (entry k v r) = some (entries (entry k v r))
as_object _ = none

abbrev pub as_bool : Value → Option Bool
as_bool (flag b) = some b
as_bool _ = none

same_self : (v : Value) → same v v ≡ true
same_self nothing = refl
same_self no_entries = refl
same_self (words s) = ground (arith, eq_iff s s)
same_self (amount n) = ground arith
same_self (flag b) = ground arith
same_self (entry k v r) = ground (arith, eq_iff k k, same_self v, same_self r)

same_sound : (a b : Value) → same a b ≡ true → a ≡ b
same_sound nothing nothing h = refl
same_sound no_entries no_entries h = refl
same_sound (words s) (words t) h = ground (arith, eq_iff s t)
same_sound (amount m) (amount n) h = ground arith
same_sound (flag a) (flag b) h = ground arith
same_sound (entry k v r) (entry j u q) h =
    ground (arith, eq_iff k j, same_sound v u, same_sound r q)
same_sound _ _ h = absurd (cc)

pub same_iff : (a b : Value) → (same a b ≡ true) ↔ (a ≡ b)
same_iff a b = (same_sound a b, λ h. subst (λ c. same a c ≡ true) h (same_self a))

abbrev pub json : Json Value
json = record {
  null = nothing;
  of_string = words;
  of_bool = flag;
  object = object;
  as_object = as_object;
  as_bool = as_bool;
  is_null = is_nothing;
  is_string = is_words;
  is_number = is_amount;
  is_boolean = is_flag;
  member = member;
  same = same;
  same_iff = same_iff;
  member_object = member-object;
}

abbrev pub press : Value
press = object (("key", words "Enter") ∷ [])

-- Reads the screen, checks it, presses a key twice, and returns the last value.
abbrev pub form : Workflow Value
form = record {
  id = "form";
  version = 3;
  intent = "submit the form";
  parameters = record { name = "key"; parameter_type = "string"; sensitive = false } ∷ [];
  fingerprint = "f00d";
  start = "look";
  nodes =
      ("again", loop "press" (some "done") 2)
      ∷ ("check", verify (words "ready") (some "again"))
      ∷ ("done", return nothing)
      ∷ ("look", observe "read_screen" (some "check"))
      ∷ ("press", act "press_key" press (some "again"))
      ∷ [];
}

-- A read of a node that is not there.
abbrev pub ghost : Workflow Value
ghost = record form { start = "gather"; nodes = ("gather", parallel_read ("ghost" ∷ []) none) ∷ [] }

-- The host logs the intents; its checks pass, and nothing is cancelled.
abbrev pub host : WorkflowExecutor Value (List String)
host = record {
  action = λ log intent params. (ok (words intent), intent ∷ log);
  verifier = λ log criterion value. (true, log);
  waiter = λ log event timeout_ms. (ok tt, log);
  is_cancelled = λ log. (false, log);
  max_steps = 20;
}
