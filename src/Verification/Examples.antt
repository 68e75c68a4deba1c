-- ===== src/Verification/Examples.antt =====
-- A verified action and two finish gates, for crates/comptrol-verification/src/lib.rs.
use comptrol.Base.{◌≡◌, ◌↔◌, ◌⊎◌, refl, inl, inr, String, true, false, [], ◌∷◌, ◌++◌, sym, subst}
use comptrol.Verification.{
  VerificationReport, VerificationCriterion, surface_state, independent_outcome, not_attempted,
  failed, browser_dom, independent_fixture, is_verified, apply_finish_gate,
}
use comptrol.Verification.Gate.{AllPassed, RequiredFailure, gate_decides}

abbrev title_seen : VerificationCriterion String
title_seen = record {
  id = "title";
  required = true;
  expected = "Saved";
  observed = "Saved";
  passed = true;
  source = browser_dom;
}

abbrev file_missing : VerificationCriterion String
file_missing = record {
  id = "file";
  required = true;
  expected = "note.txt";
  observed = "";
  passed = false;
  source = independent_fixture;
}

abbrev action : VerificationReport String
action = record {
  level = surface_state;
  state = not_attempted;
  criteria = title_seen ∷ [];
  evidence = [];
}

abbrev gate : VerificationReport String
gate = record {
  level = independent_outcome;
  state = not_attempted;
  criteria = file_missing ∷ [];
  evidence = [];
}

abbrev empty_gate : VerificationReport String
empty_gate = record gate { criteria = [] }

gate_decides_example :
    ((is_verified (apply_finish_gate action gate) ≡ true)
      ↔ AllPassed (action.criteria ++ gate.criteria))
    × (((apply_finish_gate action gate).state ≡ failed)
        ↔ (RequiredFailure action.criteria ⊎ RequiredFailure gate.criteria))
    × ((apply_finish_gate action gate).level ≡ gate.level)
gate_decides_example = gate_decides action gate

action-AllPassed : AllPassed action.criteria
action-AllPassed = record {
  some_criterion = λ h. absurd (cc);
  each = λ c has. elim has [ inl e ↦ subst (λ d. d.passed ≡ true) (sym e) refl | inr h ↦ absurd h ];
}
