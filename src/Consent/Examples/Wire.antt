-- ===== src/Consent/Examples/Wire.antt =====
-- A concrete stand-in for SHA-256 and serde_json under crates/comptrol-consent/src/store.rs: texts
-- that read back, and a hash without collisions.
use Prim.Native.Char.{Char, char, code}
use comptrol.Base.{
  ℕ, zero, suc, ◌≡◌, refl, String, Bool, true, false, Option, none, some, List, [], ◌∷◌, nat_eq,
  if◌then◌else◌,
}

abbrev pub one : Char
one = char 49 tt

abbrev pub stop : Char
stop = char 48 tt

abbrev pub is_one : Char → Bool
is_one c = nat_eq (code c) 49

-- A printer in front of a text, and the parser that undoes it.
pub record Wire (A : Type 0) : Type 0 where
  pub print : A → String → String
  pub parse : String → Option (A × String)
  pub undone : (a : A) (s : String) → parse (print a s) ≡ some (a, s)

abbrev pub continue : {A B : Type 0} → Option (A × String) → (A → String → Option B) → Option B
continue none f = none
continue (some (a, s)) f = f a s

abbrev pub print_bool : Bool → String → String
print_bool true s = String.◌∷◌ one s
print_bool false s = String.◌∷◌ stop s

abbrev pub parse_bool : String → Option (Bool × String)
parse_bool String.[] = none
parse_bool (String.◌∷◌ c s) = some (is_one c, s)

pub undo_bool : (b : Bool) (s : String) → parse_bool (print_bool b s) ≡ some (b, s)
undo_bool true s = refl
undo_bool false s = refl

abbrev pub wire_bool : Wire Bool
wire_bool = record { print = print_bool; parse = parse_bool; undone = undo_bool }

abbrev pub print_text : String → String → String
print_text String.[] s = String.◌∷◌ stop s
print_text (String.◌∷◌ c t) s = String.◌∷◌ one (String.◌∷◌ c (print_text t s))

abbrev pub parse_text : String → Option (String × String)
parse_text String.[] = none
parse_text (String.◌∷◌ m String.[]) = if is_one m then none else some ("", "")
parse_text (String.◌∷◌ m (String.◌∷◌ c s)) =
    let rest = continue (parse_text s) (λ t r. some (String.◌∷◌ c t, r)) in
    if is_one m then rest else some ("", String.◌∷◌ c s)

pub undo_text : (t s : String) → parse_text (print_text t s) ≡ some (t, s)
undo_text String.[] String.[] = refl
undo_text String.[] (String.◌∷◌ c s) = refl
undo_text (String.◌∷◌ c t) s = rw (undo_text t s)

abbrev pub wire_text : Wire String
wire_text = record { print = print_text; parse = parse_text; undone = undo_text }

abbrev pub print_nat : ℕ → String → String
print_nat zero s = String.◌∷◌ stop s
print_nat (suc n) s = String.◌∷◌ one (print_nat n s)

abbrev pub parse_nat : String → Option (ℕ × String)
parse_nat String.[] = none
parse_nat (String.◌∷◌ m s) =
    let rest = continue (parse_nat s) (λ n r. some (suc n, r)) in
    if is_one m then rest else some (0, s)

pub undo_nat : (n : ℕ) (s : String) → parse_nat (print_nat n s) ≡ some (n, s)
undo_nat zero s = refl
undo_nat (suc n) s = rw (undo_nat n s)

abbrev pub wire_nat : Wire ℕ
wire_nat = record { print = print_nat; parse = parse_nat; undone = undo_nat }

module _ {A : Type 0} (w : Wire A) where
  abbrev pub print_option : Option A → String → String
  print_option none s = String.◌∷◌ stop s
  print_option (some a) s = String.◌∷◌ one (w.print a s)

  abbrev pub parse_option : String → Option (Option A × String)
  parse_option String.[] = none
  parse_option (String.◌∷◌ m s) =
      if is_one m then continue (w.parse s) (λ a r. some (some a, r)) else some (none, s)

  pub undo_option : (o : Option A) (s : String) → parse_option (print_option o s) ≡ some (o, s)
  undo_option none s = refl
  undo_option (some a) s = rw (w.undone a s)

  abbrev pub wire_option : Wire (Option A)
  wire_option = record { print = print_option; parse = parse_option; undone = undo_option }

  -- The number of items comes first, so that the parser counts down.
  abbrev pub items : List A → ℕ
  items [] = 0
  items (a ∷ rest) = suc (items rest)

  abbrev pub print_items : List A → String → String
  print_items [] s = s
  print_items (a ∷ rest) s = w.print a (print_items rest s)

  abbrev pub parse_items : ℕ → String → Option (List A × String)
  parse_items zero s = some ([], s)
  parse_items (suc n) s =
      continue (w.parse s) (λ a r. continue (parse_items n r) (λ rest q. some (a ∷ rest, q)))

  pub undo_items :
      (rest : List A) (s : String) → parse_items (items rest) (print_items rest s) ≡ some (rest, s)
  undo_items [] s = refl
  undo_items (a ∷ rest) s = rw (w.undone a (print_items rest s), undo_items rest s)

  abbrev pub wire_list : Wire (List A)
  wire_list = record {
    print = λ rest s. print_nat (items rest) (print_items rest s);
    parse = λ s. continue (parse_nat s) parse_items;
    undone = λ rest s. rw (undo_nat (items rest) (print_items rest s)) (undo_items rest s);
  }

  abbrev pub wire_retract :
      {B : Type 0} (to : B → A) (back : A → B) → ((b : B) → back (to b) ≡ b) → Wire B
  wire_retract to back law = record {
    print = λ b s. w.print (to b) s;
    parse = λ s. continue (w.parse s) (λ a r. some (back a, r));
    undone = λ b s. rw (w.undone (to b) s, law b);
  }

  abbrev pub wire_pair : {B : Type 0} → Wire B → Wire (A × B)
  wire_pair v = record {
    print = λ p s. w.print p.0 (v.print p.1 s);
    parse = λ s. continue (w.parse s) (λ a r. continue (v.parse r) (λ b q. some ((a, b), q)));
    undone = λ p s. rw (w.undone p.0 (v.print p.1 s), v.undone p.1 s);
  }
