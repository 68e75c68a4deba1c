-- ===== src/Workflow/Speculative/Report/Shape.antt =====
-- The shape of a list of step outcomes: numbered in order, and stopped at a step.
use comptrol.Base.{
  ℕ, zero, suc, ◌+◌, ◌≡◌, ◌≢◌, refl, ap, subst, Bool, true, false, List, [], ◌∷◌, ◌++◌, arith,
  length, drop, All, if◌then◌else◌,
}
use comptrol.Workflow.Speculative.{
  SpeculativeStep, StepState, succeeded, not_run, SpeculativeStepOutcome,
}

abbrev pub was_executed : StepState → Bool
was_executed not_run = false
was_executed _ = true

module _ {V : Type 0} where
  -- How many steps were executed, whether they succeeded or not.
  abbrev pub executed_count : List (SpeculativeStepOutcome V) → ℕ
  executed_count [] = 0
  executed_count (o ∷ os) =
      if was_executed o.state then suc (executed_count os) else executed_count os

  -- One outcome for each step, in order, with its position from `i` and its intent.
  abbrev pub Numbered : ℕ → List (SpeculativeStep V) → List (SpeculativeStepOutcome V) → Type 0
  Numbered i [] [] = Unit
  Numbered i [] (o ∷ os) = ⊥
  Numbered i (p ∷ ps) [] = ⊥
  Numbered i (p ∷ ps) (o ∷ os) = (o.index ≡ i) × (o.intent ≡ p.intent) × Numbered (suc i) ps os

  abbrev pub HasSucceeded : SpeculativeStepOutcome V → Type 0
  HasSucceeded o = o.state ≡ succeeded

  abbrev pub WasNotRun : SpeculativeStepOutcome V → Type 0
  WasNotRun o = o.state ≡ not_run

  -- The first `k` steps succeeded, the next did not, and none behind it was run.
  abbrev pub StoppedAt : ℕ → List (SpeculativeStepOutcome V) → Type 0
  StoppedAt k [] = ⊥
  StoppedAt zero (o ∷ os) = (o.state ≢ succeeded) × All WasNotRun os
  StoppedAt (suc k) (o ∷ os) = HasSucceeded o × StoppedAt k os

  pub Numbered-length :
      (i : ℕ) (ps : List (SpeculativeStep V)) (os : List (SpeculativeStepOutcome V))
      → Numbered i ps os
      → length ps ≡ length os
  Numbered-length i [] [] h = refl
  Numbered-length i [] (o ∷ os) h = elim h [ ]
  Numbered-length i (p ∷ ps) [] h = elim h [ ]
  Numbered-length i (p ∷ ps) (o ∷ os) h = ap suc (Numbered-length (suc i) ps os h.2)

  pub Numbered-append :
      (i j : ℕ) (ps qs : List (SpeculativeStep V)) (os rs : List (SpeculativeStepOutcome V))
      → j ≡ i + length os
      → Numbered i ps os
      → Numbered j qs rs
      → Numbered i (ps ++ qs) (os ++ rs)
  Numbered-append i j [] qs [] rs e h k =
      let same : j ≡ i = omega arith in subst (λ n. Numbered n qs rs) same k
  Numbered-append i j [] qs (o ∷ os) rs e h k = elim h [ ]
  Numbered-append i j (p ∷ ps) qs [] rs e h k = elim h [ ]
  Numbered-append i j (p ∷ ps) qs (o ∷ os) rs e h k =
      (h.0, h.1, Numbered-append (suc i) j ps qs os rs (omega arith) h.2 k)

  pub drop-append :
      (xs ys : List (SpeculativeStep V)) (n : ℕ) → length xs ≡ n → drop n (xs ++ ys) ≡ ys
  drop-append [] ys zero e = refl
  drop-append [] ys (suc n) e = absurd (omega arith)
  drop-append (x ∷ xs) ys zero e = absurd (omega arith)
  drop-append (x ∷ xs) ys (suc n) e = drop-append xs ys n (omega arith)

  pub StoppedAt-append :
      (done rest : List (SpeculativeStepOutcome V)) (k : ℕ)
      → All HasSucceeded done
      → length done ≡ k
      → StoppedAt 0 rest
      → StoppedAt k (done ++ rest)
  StoppedAt-append [] rest zero h e s = s
  StoppedAt-append [] rest (suc k) h e s = absurd (omega arith)
  StoppedAt-append (o ∷ os) rest zero h e s = absurd (omega arith)
  StoppedAt-append (o ∷ os) rest (suc k) h e s =
      (h.0, StoppedAt-append os rest k h.1 (omega arith) s)

  pub All-snoc :
      (done : List (SpeculativeStepOutcome V)) (o : SpeculativeStepOutcome V)
      → All HasSucceeded done
      → HasSucceeded o
      → All HasSucceeded (done ++ o ∷ [])
  All-snoc [] o h ho = (ho, tt)
  All-snoc (x ∷ xs) o h ho = (h.0, All-snoc xs o h.1 ho)
