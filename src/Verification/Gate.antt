-- ===== src/Verification/Gate.antt =====
-- When a report, and a report behind a finish gate, counts as verified.
use comptrol.Base.{
  ◌≡◌, ◌≢◌, ◌↔◌, refl, sym, ap, subst, append-nil, ◌∙◌, ◌⊎◌, inl, inr, Bool, true, false, not, List,
  [], ◌∷◌, ◌++◌, arith, keep, any, Has, Bool-cases, all_iff, any_iff, Has-keep, Has-append,
}
use comptrol.Verification.{
  VerificationReport, VerificationCriterion, failed, has_passed, is_required, final_state, finalize,
  is_verified, apply_finish_gate,
}

module _ {V : Type 0} where
  -- Every criterion has passed, and there is one.
  pub record AllPassed (cs : List (VerificationCriterion V)) : Type 0 where
    pub some_criterion : cs ≢ []
    pub each : (c : VerificationCriterion V) → Has c cs → c.passed ≡ true

  -- A required criterion has not passed.
  abbrev pub RequiredFailure : List (VerificationCriterion V) → Type 0
  RequiredFailure cs =
      (c : VerificationCriterion V) × Has c cs × (c.required ≡ true) × (c.passed ≡ false)

  any_failure :
      (cs : List (VerificationCriterion V))
      → (any (λ c. not (has_passed c)) (keep is_required cs) ≡ true) ↔ RequiredFailure cs
  any_failure cs =
      let (there, back) =
        any_iff (λ (c : VerificationCriterion V). not (has_passed c)) (keep is_required cs) in
      (
        (λ h.
            let (c, m, e) = there h in
            let (held, req) = (Has-keep is_required c cs).0 m in (c, held, req, ground arith)),
        λ h. let (c, m, req, e) = h in back (c, (Has-keep is_required c cs).1 (m, req), rw e refl),
      )

  no_failure : (cs : List (VerificationCriterion V)) → AllPassed cs → ¬ RequiredFailure cs
  no_failure cs h f = let (c, m, req, e) = f in cc (h.each c m)

  abbrev fails : List (VerificationCriterion V) → Bool
  fails cs = any (λ c. not (has_passed c)) (keep is_required cs)

  -- A report is final as verified exactly when it has a criterion and all its criteria passed.
  pub verified_iff :
      (r : VerificationReport V) → (is_verified (finalize r) ≡ true) ↔ AllPassed r.criteria
  unfolding is_verified finalize
  verified_iff r = go r.criteria
    where
      go :
          (cs : List (VerificationCriterion V))
          → (is_verified (record r { state = final_state cs }) ≡ true) ↔ AllPassed cs
      go [] = ((λ h. absurd (cc)), λ h. absurd (h.some_criterion refl))
      go (c ∷ cs) =
          let (there, back) = all_iff has_passed (c ∷ cs) in
          (
            (λ h. record { some_criterion = λ e. cc; each = there (ground arith) }),
            λ h. elim (Bool-cases (fails (c ∷ cs))) [
              | inl bad ↦ absurd (no_failure (c ∷ cs) h ((any_failure (c ∷ cs)).0 bad))
              | inr good ↦ ground (arith, back h.each)
            ],
          )

  -- A report is final as failed exactly when a required criterion has not passed.
  pub failed_iff :
      (r : VerificationReport V) → ((finalize r).state ≡ failed) ↔ RequiredFailure r.criteria
  unfolding finalize
  failed_iff r = go r.criteria
    where
      go : (cs : List (VerificationCriterion V)) → (final_state cs ≡ failed) ↔ RequiredFailure cs
      go [] = ((λ h. absurd (cc)), λ h. elim h.1 [ ])
      go (c ∷ cs) =
          let (there, back) = any_failure (c ∷ cs) in
          ((λ h. there (ground arith)), λ h. ground (arith, back h))

  RequiredFailure-append :
      (cs ds : List (VerificationCriterion V))
      → RequiredFailure (cs ++ ds) ↔ (RequiredFailure cs ⊎ RequiredFailure ds)
  RequiredFailure-append cs ds = (
    (λ h.
        let (c, m, req, e) = h in
        elim ((Has-append c cs ds).0 m) [
          | inl l ↦ inl (c, l, req, e)
          | inr r ↦ inr (c, r, req, e)
        ]),
    λ h. elim h [
      | inl f ↦ let (c, m, req, e) = f in (c, (Has-append c cs ds).1 (inl m), req, e)
      | inr f ↦ let (c, m, req, e) = f in (c, (Has-append c cs ds).1 (inr m), req, e)
    ],
  )

  -- Behind a finish gate an action counts as verified exactly when there is a criterion on either
  -- side and all criteria of both sides passed, and as failed exactly when a required criterion of
  -- either side has not passed. The level is the gate's.
  pub gate_decides :
      (action gate : VerificationReport V)
      → ((is_verified (apply_finish_gate action gate) ≡ true)
          ↔ AllPassed (action.criteria ++ gate.criteria))
        × (((apply_finish_gate action gate).state ≡ failed)
            ↔ (RequiredFailure action.criteria ⊎ RequiredFailure gate.criteria))
        × ((apply_finish_gate action gate).level ≡ gate.level)
  unfolding apply_finish_gate
  gate_decides action gate =
      let joined : VerificationReport V = record action {
        evidence = action.evidence ++ gate.evidence;
        criteria = action.criteria ++ gate.criteria;
        level = gate.level;
      } in
      let (there, back) = failed_iff joined in
      let (split, join) = RequiredFailure-append action.criteria gate.criteria in
      (verified_iff joined, ((λ h. split (there h)), λ h. back (join h)), refl)

  -- A gate with no criteria of its own does not stop an action: if the action has a criterion and
  -- all of them passed, required or not, the result is verified.
  pub empty_gate_verifies :
      (action gate : VerificationReport V)
      → gate.criteria ≡ []
      → AllPassed action.criteria
      → is_verified (apply_finish_gate action gate) ≡ true
  empty_gate_verifies action gate none_there h = (gate_decides action gate).0.1 (
      subst AllPassed
        (sym (append-nil action.criteria) ∙ ap (λ cs. action.criteria ++ cs) (sym none_there)) h)
