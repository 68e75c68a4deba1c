-- ===== src/Workflow/Speculative/Report/Plan.antt =====
-- The reconcile plan of a stopped batch.
use mathlib.Core.List.{reverse, reverse_aux, reverse_aux-append}
use comptrol.Base.{
  ℕ, zero, suc, ◌+◌, ◌≡◌, ◌≢◌, refl, ap, ◌∙◌, List, [], ◌∷◌, ◌++◌, map, append-nil, arith, length,
  All,
}
use comptrol.Json.{Json}
use comptrol.Workflow.Speculative.{SpeculativeStep, not_run, SpeculativeStepOutcome, plan_for}

-- The positions i + n - 1 down to i.
abbrev pub down : ℕ → ℕ → List ℕ
down i zero = []
down i (suc n) = (i + n) ∷ down i n

down_snoc : (i n : ℕ) (xs : List ℕ) → down (suc i) n ++ i ∷ xs ≡ down i (suc n) ++ xs
down_snoc i zero xs = let e : i + 0 ≡ i = omega arith in rw e
down_snoc i (suc n) xs = let e : suc i + n ≡ i + suc n = omega arith in rw (e, down_snoc i n xs)

-- The outcomes of executed steps, numbered from `i`.
abbrev pub Executed : {V : Type 0} → ℕ → List (SpeculativeStepOutcome V) → Type 0
Executed i [] = Unit
Executed i (o ∷ os) = (o.index ≡ i) × (o.state ≢ not_run) × Executed (suc i) os

module _ {V : Type 0} (json : Json V) (planned : List (SpeculativeStep V)) where
  abbrev pub positions : List (SpeculativeStepOutcome V) → List ℕ
  positions os = map (λ e. e.index) (plan_for json planned os)

  skip_not_run :
      (os acc : List (SpeculativeStepOutcome V))
      → All (λ o. o.state ≡ not_run) os
      → plan_for json planned (reverse_aux os acc) ≡ plan_for json planned acc
  skip_not_run [] acc h = refl
  skip_not_run (o ∷ os) acc h = skip_not_run os (o ∷ acc) h.1 ∙ (unfold plan_for in rw h.0)

  one_entry :
      (o : SpeculativeStepOutcome V) (os : List (SpeculativeStepOutcome V))
      → o.state ≢ not_run
      → positions (o ∷ os) ≡ o.index ∷ positions os
  unfolding plan_for
  one_entry o os h = ground arith

  positions-reverse_aux :
      (i : ℕ) (os acc : List (SpeculativeStepOutcome V))
      → Executed i os
      → positions (reverse_aux os acc) ≡ down i (length os) ++ positions acc
  positions-reverse_aux i [] acc h = refl
  positions-reverse_aux i (o ∷ os) acc h =
      positions-reverse_aux (suc i) os (o ∷ acc) h.2
      ∙ ap (λ xs. down (suc i) (length os) ++ xs)
          (one_entry o acc h.1 ∙ ap (λ n. n ∷ positions acc) h.0)
      ∙ down_snoc i (length os) (positions acc)

  -- Executed steps, then steps not run: the plan goes through the executed ones, newest first.
  pub positions-reverse :
      (os rest : List (SpeculativeStepOutcome V))
      → Executed 0 os
      → All (λ o. o.state ≡ not_run) rest
      → positions (reverse (os ++ rest)) ≡ down 0 (length os)
  unfolding plan_for
  positions-reverse os rest h r =
      ap positions (reverse_aux-append os rest [])
      ∙ ap (map (λ e. e.index)) (skip_not_run rest (reverse_aux os []) r)
      ∙ positions-reverse_aux 0 os [] h
      ∙ append-nil (down 0 (length os))
