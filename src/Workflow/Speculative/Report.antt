-- ===== src/Workflow/Speculative/Report.antt =====
-- What the report of a speculative batch says of its steps.
pub mod Shape
pub mod Plan
use comptrol.Base.{
  ℕ, zero, suc, ◌+◌, ◌≤◌, ◌≡◌, ◌≢◌, refl, sym, ap, subst, ◌∙◌, ◌⊎◌, inl, inr, String, Bool, true,
  false, Option, none, some, List, [], ◌∷◌, ◌++◌, append-nil, append_assoc, arith, length,
  length-append, drop, All, Bool-cases, Result, ok, err, if◌then◌else◌,
}
use mathlib.Core.List.{reverse, map}
use comptrol.Json.{Json}
use comptrol.Workflow.Speculative.{
  SpeculativeStep, StepState, succeeded, failed, postcondition_failed, not_run,
  SpeculativeStepOutcome, SpeculativeOutcome, Callbacks, Attempt, not_run_from, fail_speculative,
  judge, act_on, attempt, check_postcondition, must_stop, steps_from, run_speculative, plan_for,
}
use Shape.{
  Numbered, HasSucceeded, WasNotRun, StoppedAt, Numbered-length, Numbered-append, drop-append,
  StoppedAt-append, All-snoc,
}

module _ {V : Type 0} (json : Json V) where
  Numbered-not_run_from :
      (i : ℕ) (ps : List (SpeculativeStep V)) → Numbered i ps (not_run_from json i ps)
  unfolding not_run_from
  Numbered-not_run_from i [] = tt
  Numbered-not_run_from i (p ∷ ps) = (refl, refl, Numbered-not_run_from (suc i) ps)

  All-not_run_from :
      (i : ℕ) (ps : List (SpeculativeStep V)) → All WasNotRun (not_run_from json i ps)
  unfolding not_run_from
  All-not_run_from i [] = tt
  All-not_run_from i (p ∷ ps) = (refl, All-not_run_from (suc i) ps)

  -- The report of a batch that stopped: what was done, and every other step as not run.
  steps_eq :
      (before rest : List (SpeculativeStep V)) (done : List (SpeculativeStepOutcome V)) (k : ℕ)
      → Numbered 0 before done
      → (fail_speculative json done (before ++ rest) k).steps
        ≡ done ++ not_run_from json (length done) rest
  unfolding fail_speculative
  steps_eq before rest done k h =
      ap (λ ps. done ++ not_run_from json (length done) ps)
        (drop-append before rest (length done) (Numbered-length 0 before done h))

  fail-Numbered :
      (before rest : List (SpeculativeStep V)) (done : List (SpeculativeStepOutcome V)) (k : ℕ)
      → Numbered 0 before done
      → Numbered 0 (before ++ rest) (fail_speculative json done (before ++ rest) k).steps
  fail-Numbered before rest done k h =
      subst (Numbered 0 (before ++ rest)) (sym (steps_eq before rest done k h)) (
        Numbered-append 0 (length done) before rest done (not_run_from json (length done) rest)
          (omega arith) h (Numbered-not_run_from (length done) rest))

  -- A complete report: all steps succeeded and nothing is to be undone; or the batch stopped at a
  -- step that did not succeed.
  abbrev pub Told : List (SpeculativeStep V) → SpeculativeOutcome V → Type 0
  Told planned r =
      ((r.completed ≡ true)
        × (r.failed_at ≡ none)
        × (r.reconcile_plan ≡ [])
        × All HasSucceeded r.steps)
      ⊎ ((r.completed ≡ false)
          × (r.reconcile_plan ≡ plan_for json planned (reverse r.steps))
          × ((k : ℕ) × (r.failed_at ≡ some k) × StoppedAt k r.steps))

  module _ {W : Type 0} (c : Callbacks V W) where
    -- An attempt reports its own step; it goes on exactly if the step succeeded.
    record Fair (index : ℕ) (step : SpeculativeStep V) (a : Attempt json c) : Type 0 where
      at : a.outcome.index ≡ index
      named : a.outcome.intent ≡ step.intent
      onward : a.goes_on ≡ true → a.outcome.state ≡ succeeded
      stopped : a.goes_on ≡ false → a.outcome.state ≢ succeeded

    judge-Fair :
        (index : ℕ) (step : SpeculativeStep V) (result : V) (p : Option Bool × W)
        → Fair index step (judge json c index step result p)
    unfolding judge
    judge-Fair index step result (none, world) = record {
      at = refl;
      named = refl;
      onward = λ e. refl;
      stopped = λ e. cc;
    }
    judge-Fair index step result (some true, world) = record {
      at = refl;
      named = refl;
      onward = λ e. refl;
      stopped = λ e. cc;
    }
    judge-Fair index step result (some false, world) = record {
      at = refl;
      named = refl;
      onward = λ e. cc;
      stopped = λ e f. cc;
    }

    act_on-Fair :
        (index : ℕ) (step : SpeculativeStep V) (r : Result String V × W)
        → Fair index step (act_on json c index step r)
    unfolding act_on
    act_on-Fair index step (ok result, world) =
        judge-Fair index step result (check_postcondition json c step.postcondition result world)
    act_on-Fair index step (err message, world) = record {
      at = refl;
      named = refl;
      onward = λ e. cc;
      stopped = λ e f. cc;
    }

    attempt-Fair :
        (index : ℕ) (step : SpeculativeStep V) (world : W)
        → Fair index step (attempt json c index step world)
    unfolding attempt
    attempt-Fair index step world =
        act_on-Fair index step (c.action world index step.intent step.params)

    fail-Told :
        (planned before rest : List (SpeculativeStep V)) (done : List (SpeculativeStepOutcome V))
        (k : ℕ)
        → planned ≡ before ++ rest
        → Numbered 0 before done
        → StoppedAt k (done ++ not_run_from json (length done) rest)
        → let r = fail_speculative json done planned k in
          Numbered 0 planned r.steps × Told planned r
    fail-Told planned before rest done k e h s =
        subst (λ ps. let r = fail_speculative json done ps k in Numbered 0 ps r.steps × Told ps r)
          (sym e)
          (
            fail-Numbered before rest done k h,
            inr (
              unfold fail_speculative in refl,
              unfold fail_speculative in refl,
              (
                k,
                unfold fail_speculative in refl,
                subst (StoppedAt k) (sym (steps_eq before rest done k h)) s,
              ),
            ),
          )

    stop_here :
        (index : ℕ) (step : SpeculativeStep V) (rest : List (SpeculativeStep V))
        (done : List (SpeculativeStepOutcome V))
        → All HasSucceeded done
        → length done ≡ index
        → StoppedAt index (done ++ not_run_from json (length done) (step ∷ rest))
    unfolding not_run_from
    stop_here index step rest done ok_so_far n =
        StoppedAt-append done (not_run_from json (length done) (step ∷ rest)) index ok_so_far n
          ((λ e. cc), All-not_run_from (suc (length done)) rest)

    stop_after :
        (index : ℕ) (o : SpeculativeStepOutcome V) (rest : List (SpeculativeStep V))
        (done : List (SpeculativeStepOutcome V))
        → All HasSucceeded done
        → length done ≡ index
        → o.state ≢ succeeded
        → StoppedAt index ((done ++ o ∷ []) ++ not_run_from json (length (done ++ o ∷ [])) rest)
    stop_after index o rest done ok_so_far n bad =
        subst (StoppedAt index)
          (sym (append_assoc done (o ∷ []) (not_run_from json (length (done ++ o ∷ [])) rest)))
          (StoppedAt-append done (o ∷ not_run_from json (length (done ++ o ∷ [])) rest) index
            ok_so_far n (bad, All-not_run_from (length (done ++ o ∷ [])) rest))

    steps_from-Told :
        (planned before rest : List (SpeculativeStep V)) (done : List (SpeculativeStepOutcome V))
        (deadline index : ℕ) (world : W)
        → planned ≡ before ++ rest
        → Numbered 0 before done
        → All HasSucceeded done
        → length done ≡ index
        → let r = (steps_from json c planned deadline index rest done world).0 in
          Numbered 0 planned r.steps × Told planned r
    unfolding steps_from
    steps_from-Told planned before [] done deadline index world e h s n = (
      subst (λ ps. Numbered 0 ps done) (sym (e ∙ append-nil before)) h,
      inl (refl, refl, refl, s),
    )
    steps_from-Told planned before (step ∷ rest) done deadline index world e h s n =
        let (stop, world') = must_stop json c deadline world in
        let a = attempt json c index step world' in
        let fair = attempt-Fair index step world' in
        let e' : planned ≡ (before ++ step ∷ []) ++ rest =
          e ∙ sym (append_assoc before (step ∷ []) rest) in
        let h' : Numbered 0 (before ++ step ∷ []) (done ++ a.outcome ∷ []) =
          Numbered-append 0 index before (step ∷ []) done (a.outcome ∷ []) (omega arith) h
            (fair.at, fair.named, tt) in
        elim (Bool-cases stop) [
          | inl halt ↦ rw halt (
              fail-Told planned before (step ∷ rest) done index e h
                (stop_here index step rest done s n))
          | inr onward ↦ rw onward (elim (Bool-cases a.goes_on) [
            | inl good ↦ rw good (
                steps_from-Told planned (before ++ step ∷ []) rest (done ++ a.outcome ∷ []) deadline
                  (suc index) a.world e' h' (All-snoc done a.outcome s (fair.onward good))
                  (omega (arith, length-append done (a.outcome ∷ []))))
            | inr bad ↦ rw bad (
                fail-Told planned (before ++ step ∷ []) rest (done ++ a.outcome ∷ []) index e' h'
                  (stop_after index a.outcome rest done s n (fair.stopped bad)))
          ])
        ]

    -- A batch reports every planned step once, in order, with its position and intent. Either all
    -- steps succeeded, the batch is completed and there is nothing to undo; or it is not completed,
    -- and there is a position such that all steps before it succeeded, the step there did not (it
    -- failed, failed its postcondition, or was not run), and no step behind it was run.
    pub speculative_report :
        (steps : List (SpeculativeStep V)) (deadline_ms : ℕ) (world : W)
        → let r = (run_speculative json c steps deadline_ms world).0 in
          Numbered 0 steps r.steps × Told steps r
    unfolding run_speculative
    speculative_report steps deadline_ms world =
        steps_from-Told steps [] steps [] ((c.now world).0 + deadline_ms) 0 (c.now world).1 refl tt
          tt refl
