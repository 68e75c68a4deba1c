-- ===== src/Base/Lists.antt =====
-- Lists measured by native numbers, Boolean filters and searches over lists, and the predicates
-- that the components state of lists.
use Prim.Native.Nat.{ℕ, zero, suc, ◌+◌, ◌≤◌}
use mathlib.Core.Path.{◌≡◌, refl, ap}
use mathlib.Core.Logic.{◌⊎◌, ◌↔◌, inl, inr}
use mathlib.Core.Bool.{Bool, true, false, ◌&&◌, ◌||◌}
use mathlib.Core.List.{List, [], ◌∷◌, ◌++◌}
use mathlib.Core.Option.{Option, none, some}
use native.Mathlib.Omega.{arith}
use comptrol.Base.Tests.{if◌then◌else◌, Bool-cases}

module _ {ℓ} {A : Type ℓ} where
  abbrev pub length : List A → ℕ
  length [] = 0
  length (x ∷ xs) = suc (length xs)

  pub length-append : (xs ys : List A) → length (xs ++ ys) ≡ length xs + length ys
  length-append [] ys = omega arith
  length-append (x ∷ xs) ys = omega (arith, length-append xs ys)

  -- `iter().filter(p)`, `iter().all(p)`, `iter().any(p)` and `iter().find(p)`.
  abbrev pub keep : (A → Bool) → List A → List A
  keep p [] = []
  keep p (x ∷ xs) = if p x then x ∷ keep p xs else keep p xs

  abbrev pub all : (A → Bool) → List A → Bool
  all p [] = true
  all p (x ∷ xs) = p x && all p xs

  abbrev pub any : (A → Bool) → List A → Bool
  any p [] = false
  any p (x ∷ xs) = p x || any p xs

  abbrev pub find : (A → Bool) → List A → Option A
  find p [] = none
  find p (x ∷ xs) = if p x then some x else find p xs

  abbrev pub is_empty : List A → Bool
  is_empty [] = true
  is_empty (x ∷ xs) = false

-- A predicate of every member, by recursion, which the tactics read and build.
abbrev pub All {ℓ κ} : {A : Type ℓ} → (A → Type κ) → List A → Type κ
All P [] = Unit
All P (x ∷ xs) = P x × All P xs

-- Membership with the position kept.
abbrev pub Has : {A : Type 0} → A → List A → Type 0
Has a [] = ⊥
Has a (x ∷ xs) = (a ≡ x) ⊎ Has a xs

module _ {ℓ} {A : Type ℓ} (p : A → Bool) where
  pub length-keep-le : (xs : List A) → length (keep p xs) ≤ length xs
  length-keep-le [] = omega arith
  length-keep-le (x ∷ xs) = ground (arith, length-keep-le xs)

  -- A filter that loses no length loses nothing.
  pub keep-eq_self : (xs : List A) → length xs ≡ length (keep p xs) → keep p xs ≡ xs
  keep-eq_self [] h = refl
  keep-eq_self (x ∷ xs) h = ground (arith, length-keep-le xs, keep-eq_self xs)

module _ {A : Type 0} (p : A → Bool) where
  pub Has-keep : (a : A) (xs : List A) → Has a (keep p xs) ↔ (Has a xs × (p a ≡ true))
  Has-keep a [] = ((λ h. elim h [ ]), λ h. elim h.0 [ ])
  Has-keep a (x ∷ xs) =
      let (there, back) = Has-keep a xs in
      elim (Bool-cases (p x)) [
        | inl hit ↦ rw hit ((λ h. ground (arith, there)), λ h. ground (arith, back))
        | inr miss ↦ rw miss ((λ h. ground (arith, there)), λ h. ground (arith, back))
      ]

  pub find-Has : (a : A) (xs : List A) → find p xs ≡ some a → Has a xs × (p a ≡ true)
  find-Has a [] e = absurd (cc)
  find-Has a (x ∷ xs) e = ground (arith, find-Has a xs)

  pub Has-find : (a : A) (xs : List A) → Has a xs → p a ≡ true → (b : A) × (find p xs ≡ some b)
  Has-find a [] h e = elim h [ ]
  Has-find a (x ∷ xs) h e = elim (Bool-cases (p x)) [
    | inl hit ↦ (x, rw hit)
    | inr miss ↦ elim h [
      | inl same ↦ absurd (cc (ap p same))
      | inr later ↦ rw miss (Has-find a xs later e)
    ]
  ]

module _ {A : Type 0} (p : A → Bool) where
  pub all_iff : (xs : List A) → (all p xs ≡ true) ↔ ((a : A) → Has a xs → p a ≡ true)
  all_iff [] = ((λ h a m. elim m [ ]), λ h. refl)
  all_iff (x ∷ xs) =
      let (there, back) = all_iff xs in
      (
        (λ h a m. elim m [
          | inl e ↦ rw e (ground arith)
          | inr later ↦ there (ground arith) a later
        ]),
        λ h. ground (arith, h x (inl refl), back (λ a m. h a (inr m))),
      )

  pub any_iff : (xs : List A) → (any p xs ≡ true) ↔ ((a : A) × Has a xs × (p a ≡ true))
  any_iff [] = ((λ h. absurd (cc)), λ h. elim h.1 [ ])
  any_iff (x ∷ xs) =
      let (there, back) = any_iff xs in
      (
        (λ h. elim (Bool-cases (p x)) [
          | inl hit ↦ (x, inl refl, hit)
          | inr miss ↦ let (a, m, e) = there (ground arith) in (a, inr m, e)
        ]),
        λ h.
            let (a, m, e) = h in
            elim m [
              | inl same ↦ rw (← same, e) refl
              | inr later ↦ ground (arith, back (a, later, e))
            ],
      )

  pub all-false : (a : A) (xs : List A) → Has a xs → p a ≡ false → all p xs ≡ false
  all-false a xs m e = elim (Bool-cases (all p xs)) [
    | inl yes_all ↦ absurd (cc ((all_iff xs).0 yes_all a m))
    | inr other ↦ other
  ]

pub Has-append : {A : Type 0} (a : A) (xs ys : List A) → Has a (xs ++ ys) ↔ (Has a xs ⊎ Has a ys)
Has-append a [] ys = ((λ h. inr h), λ h. elim h [ inl none_here ↦ elim none_here [ ] | inr r ↦ r ])
Has-append a (x ∷ xs) ys =
    let (there, back) = Has-append a xs ys in
    (
      (λ h. elim h [
        | inl e ↦ inl (inl e)
        | inr m ↦ elim (there m) [ inl l ↦ inl (inr l) | inr r ↦ inr r ]
      ]),
      λ h. elim h [
        | inl l ↦ elim l [ inl e ↦ inl e | inr m ↦ inr (back (inl m)) ]
        | inr r ↦ inr (back (inr r))
      ],
    )

module _ {ℓ} {A : Type ℓ} where
  abbrev pub get_elem? : List A → ℕ → Option A
  get_elem? [] i = none
  get_elem? (x ∷ xs) zero = some x
  get_elem? (x ∷ xs) (suc i) = get_elem? xs i

  abbrev pub drop : ℕ → List A → List A
  drop zero xs = xs
  drop (suc n) [] = []
  drop (suc n) (x ∷ xs) = drop n xs

  -- `back()` of a queue.
  abbrev pub last : List A → Option A
  last [] = none
  last (x ∷ []) = some x
  last (x ∷ y ∷ ys) = last (y ∷ ys)
