-- ===== src/Verification.antt =====
-- crates/comptrol-verification/src/lib.rs: verification reports, how a report is finalized, and the
-- finish gate. A JSON value is an element of the type `V`: the code only carries it along.
pub mod Gate
pub mod Examples
use comptrol.Base.{
  String, Bool, true, false, not, Option, List, [], ◌∷◌, ◌++◌, if◌then◌else◌, keep, all, any,
  is_empty,
}

pub data VerificationLevel : Type 0 where
  no_level delivery surface_state application_state : VerificationLevel
  persisted_artifact independent_outcome : VerificationLevel

pub data VerificationSource : Type 0 where
  browser_dom browser_accessibility browser_network native_accessibility : VerificationSource
  app_adapter file_system document_backend independent_fixture : VerificationSource

pub data VerificationState : Type 0 where
  not_attempted verified unverified failed : VerificationState

pub record VerificationCriterion (V : Type 0) : Type 0 where
  pub id : String
  pub required : Bool
  pub expected : V
  pub observed : V
  pub passed : Bool
  pub source : VerificationSource

pub record VerificationEvidence (V : Type 0) : Type 0 where
  pub source : VerificationSource
  pub kind : String
  pub reference : Option String
  pub details : V

pub record VerificationReport (V : Type 0) : Type 0 where
  pub level : VerificationLevel
  pub state : VerificationState
  pub criteria : List (VerificationCriterion V)
  pub evidence : List (VerificationEvidence V)

module _ {V : Type 0} where
  abbrev pub is_required : VerificationCriterion V → Bool
  is_required c = c.required

  abbrev pub has_passed : VerificationCriterion V → Bool
  has_passed c = c.passed

  -- The state that `finalize` computes from the criteria.
  pub final_state : List (VerificationCriterion V) → VerificationState
  final_state criteria =
      if is_empty criteria
      then unverified
      else if any (λ c. not (has_passed c)) (keep is_required criteria)
      then failed
      else if all has_passed criteria
      then verified
      else unverified

  pub finalize : VerificationReport V → VerificationReport V
  unfolding final_state
  finalize report = record report { state = final_state report.criteria }

  pub is_verified : VerificationReport V → Bool
  is_verified report = elim report.state [ verified ↦ true | _ ↦ false ]

  pub apply_finish_gate : VerificationReport V → VerificationReport V → VerificationReport V
  unfolding finalize
  apply_finish_gate action gate = finalize (record action {
    evidence = action.evidence ++ gate.evidence;
    criteria = action.criteria ++ gate.criteria;
    level = gate.level;
  })

pub new_report : (V : Type 0) → VerificationLevel → VerificationReport V
new_report V level = record { level = level; state = not_attempted; criteria = []; evidence = [] }
