-- ===== src/Base/Maps.antt =====
-- `HashMap` and `BTreeMap` with text keys, as association lists. A lookup takes the first entry of a
-- key and an insertion replaces it in place, so a key that was inserted stands once. The order of
-- the list stands for the order in which the map is walked.
use Prim.Native.String.{String}
use mathlib.Core.Path.{◌≡◌, refl, sym, subst}
use mathlib.Core.Logic.{inl, inr}
use mathlib.Core.Bool.{Bool, true, false}
use mathlib.Core.List.{List, [], ◌∷◌}
use mathlib.Core.Option.{Option, none, some}
use native.Mathlib.Omega.{arith}
use text.Mathlib.TextEquality.{eq_iff}
use comptrol.Base.Lists.{All, Has}
use comptrol.Base.Tests.{◌==◌, eq_string, Bool-cases, if◌then◌else◌}

abbrev pub Map {ℓ} : Type ℓ → Type ℓ
Map V = List (String × V)

module _ {ℓ} {V : Type ℓ} where
  abbrev pub get : Map V → String → Option V
  get [] k = none
  get ((j, v) ∷ m) k = if j == k then some v else get m k

  abbrev pub insert : Map V → String → V → Map V
  insert [] k v = (k, v) ∷ []
  insert ((j, w) ∷ m) k v = if j == k then (k, v) ∷ m else (j, w) ∷ insert m k v

  abbrev pub remove : Map V → String → Map V
  remove [] k = []
  remove ((j, v) ∷ m) k = if j == k then remove m k else (j, v) ∷ remove m k

  abbrev pub contains_key : Map V → String → Bool
  contains_key [] k = false
  contains_key ((j, v) ∷ m) k = if j == k then true else contains_key m k

  abbrev pub values : Map V → List V
  values [] = []
  values ((j, v) ∷ m) = v ∷ values m

  pub get-insert :
      (m : Map V) (k j : String) (v : V)
      → get (insert m k v) j ≡ (if k == j then some v else get m j)
  get-insert [] k j v = refl
  get-insert ((i, w) ∷ m) k j v =
      ground (arith, eq_iff k j, eq_iff i k, eq_iff i j, get-insert m k j v)

  pub get-insert_same : (m : Map V) (k : String) (v : V) → get (insert m k v) k ≡ some v
  get-insert_same m k v = ground (arith, eq_iff k k, get-insert m k k v)

  pub get-remove :
      (m : Map V) (k j : String) → get (remove m k) j ≡ (if k == j then none else get m j)
  get-remove [] k j = ground (arith)
  get-remove ((i, w) ∷ m) k j = ground (arith, eq_iff k j, eq_iff i k, eq_iff i j, get-remove m k j)

  pub contains_key-insert :
      (m : Map V) (k j : String) (v : V)
      → contains_key (insert m k v) j ≡ (if k == j then true else contains_key m j)
  contains_key-insert [] k j v = refl
  contains_key-insert ((i, w) ∷ m) k j v =
      ground (arith, eq_iff k j, eq_iff i k, eq_iff i j, contains_key-insert m k j v)

  pub contains_key-get :
      (m : Map V) (k : String) → contains_key m k ≡ true → (v : V) × (get m k ≡ some v)
  contains_key-get [] k h = cc
  contains_key-get ((i, w) ∷ m) k h = elim (Bool-cases (i == k)) [
    | inl hit ↦ (w, rw hit)
    | inr miss ↦ rw miss (contains_key-get m k (rw miss at h))
  ]

  pub get-contains_key :
      (m : Map V) (k : String) (v : V) → get m k ≡ some v → contains_key m k ≡ true
  get-contains_key [] k v h = cc
  get-contains_key ((i, w) ∷ m) k v h = ground (arith, eq_iff i k, get-contains_key m k v)

module _ {V : Type 0} where
  pub Has-insert : (m : Map V) (k : String) (v : V) → Has v (values (insert m k v))
  Has-insert [] k v = inl refl
  Has-insert ((j, w) ∷ m) k v = ground (arith, Has-insert m k v)

  pub All-insert {κ} :
      (P : V → Type κ) (m : Map V) (k : String) (v : V)
      → All P (values m)
      → P v
      → All P (values (insert m k v))
  All-insert P [] k v h hv = (hv, tt)
  All-insert P ((j, w) ∷ m) k v h hv = elim (Bool-cases (j == k)) [
    | inl hit ↦ rw hit (hv, h.1)
    | inr miss ↦ rw miss (h.0, All-insert P m k v h.1 hv)
  ]

  pub All-get {κ} :
      (P : V → Type κ) (m : Map V) (k : String) (v : V) → All P (values m) → get m k ≡ some v → P v
  All-get P [] k v h e = absurd (cc)
  All-get P ((j, w) ∷ m) k v h e = elim (Bool-cases (j == k)) [
    | inl hit ↦ let same : w ≡ v = ground arith in subst P same h.0
    | inr miss ↦ All-get P m k v h.1 (rw miss at e)
  ]

-- What holds of every member holds of one.
pub All-Has {κ} : {A : Type 0} (P : A → Type κ) (a : A) (xs : List A) → All P xs → Has a xs → P a
All-Has P a [] h m = elim m [ ]
All-Has P a (x ∷ xs) h (inl e) = subst P (sym e) h.0
All-Has P a (x ∷ xs) h (inr later) = All-Has P a xs h.1 later

pub get-Has : {V : Type 0} (m : Map V) (k : String) (v : V) → get m k ≡ some v → Has v (values m)
get-Has [] k v e = absurd (cc)
get-Has ((j, w) ∷ m) k v e = elim (Bool-cases (j == k)) [
  | inl hit ↦ inl (ground arith)
  | inr miss ↦ inr (get-Has m k v (rw miss at e))
]
