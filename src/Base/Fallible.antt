-- ===== src/Base/Fallible.antt =====
-- Rust's `Result`, its error first so that one error type serves a chain.
use mathlib.Core.Path.{◌≡◌, refl}
use mathlib.Core.Bool.{Bool, true, false}
use mathlib.Core.Option.{Option, none, some}
use mathlib.Core.Logic.{◌↔◌, ◌⊎◌, inl, inr}

pub data Result {ℓ} (E : Type 0) (A : Type ℓ) : Type ℓ where
  ok : A → Result E A
  err : E → Result E A

infixl 5 ◌>>=◌ ◌>>◌
abbrev pub ◌>>=◌ {ℓ κ} :
    {E : Type 0} {A : Type ℓ} {B : Type κ} → Result E A → (A → Result E B) → Result E B
ok a >>= f = f a
err e >>= f = err e

abbrev pub ◌>>◌ {ℓ} : {E : Type 0} {B : Type ℓ} → Result E (Unit {0}) → Result E B → Result E B
m >> k = m >>= λ _. k

-- `if !b { return Err(e); }`
abbrev pub ensure : {E : Type 0} → Bool → E → Result E (Unit {0})
ensure true e = ok tt
ensure false e = err e

-- `ok_or(e)`
abbrev pub ok_or {ℓ} : {E : Type 0} {A : Type ℓ} → Option A → E → Result E A
ok_or none e = err e
ok_or (some a) e = ok a

pub Result-cases {ℓ} :
    {E : Type 0} {A : Type ℓ} (r : Result E A) → ((a : A) × (r ≡ ok a)) ⊎ ((e : E) × (r ≡ err e))
Result-cases (ok a) = inl (a, refl)
Result-cases (err e) = inr (e, refl)

-- A guarded chain succeeds exactly when the guard passes and the rest succeeds.
pub ensure_iff {ℓ} :
    {E : Type 0} {A : Type ℓ} {a : A} (b : Bool) (e : E) (k : Result E A)
    → ((ensure b e >> k) ≡ ok a) ↔ ((b ≡ true) × (k ≡ ok a))
ensure_iff true e k = ((λ h. (refl, h)), λ h. h.1)
ensure_iff false e k = ((λ h. absurd (cc)), λ h. absurd (cc))

pub seq_iff {ℓ} :
    {E : Type 0} {A : Type ℓ} {a : A} (m : Result E (Unit {0})) (k : Result E A)
    → ((m >> k) ≡ ok a) ↔ ((m ≡ ok tt) × (k ≡ ok a))
seq_iff (ok tt) k = ((λ h. (refl, h)), λ h. h.1)
seq_iff (err e) k = ((λ h. absurd (cc)), λ h. absurd (cc))

pub ensure_last_iff : {E : Type 0} (b : Bool) (e : E) → (ensure b e ≡ ok tt) ↔ (b ≡ true)
ensure_last_iff true e = ((λ h. refl), λ h. refl)
ensure_last_iff false e = ((λ h. absurd (cc)), λ h. absurd (cc))
