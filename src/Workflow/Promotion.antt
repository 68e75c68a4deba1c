-- ===== src/Workflow/Promotion.antt =====
-- Promotion, repair and the host store of promoted workflows, of crates/comptrol-workflow/src/lib.rs,
-- and `lift_parameter`. The file of the host store is modelled by what it deserializes to.
pub mod Gates
pub mod Store
use comptrol.Base.{
  ℕ, String, str_append, Bool, true, false, not, ◌&&◌, ◌||◌, Option, none, some, List, [], ◌∷◌,
  ◌==◌, eq_string, ltb, max, u32_max, saturating_add, decimal, if◌then◌else◌, Map, get, insert,
  Result, ok, err, ◌>>=◌, ◌>>◌, ensure,
}
use comptrol.Json.{Json}
use comptrol.Workflow.{Workflow, WorkflowParameter}
use comptrol.Workflow.Validate.{validate_workflow}

pub record ReplayEvidence : Type 0 where
  pub clean_fixture : Bool
  pub independent_verification : Bool
  pub verified_runs : ℕ
  pub fingerprint : String

pub data PromotionError : Type 0 where
  not_clean not_independently_verified too_few_verified_runs : PromotionError
  fingerprint_mismatch : PromotionError

abbrev bool_eq : Bool → Bool → Bool
bool_eq true b = b
bool_eq false b = not b

abbrev pub parameter_beq : WorkflowParameter → WorkflowParameter → Bool
parameter_beq p q =
    p.name == q.name && (p.parameter_type == q.parameter_type && bool_eq p.sensitive q.sensitive)

-- `==` of two lists of parameters.
abbrev pub parameters_beq : List WorkflowParameter → List WorkflowParameter → Bool
parameters_beq [] [] = true
parameters_beq [] (q ∷ qs) = false
parameters_beq (p ∷ ps) [] = false
parameters_beq (p ∷ ps) (q ∷ qs) = parameter_beq p q && parameters_beq ps qs

-- The id `{id}-{what}-v{version}`.
pub versioned_id : String → String → ℕ → String
versioned_id id what version =
    str_append id (str_append "-" (str_append what (str_append "-v" (decimal version))))

module _ {V : Type 0} where
  -- The promoted workflow: a copy with the next version and an id of its own.
  unfoldable pub promoted : Workflow V → Workflow V
  unfolding versioned_id
  promoted candidate =
      let version = saturating_add u32_max candidate.version 1 in
      record candidate { version = version; id = versioned_id candidate.id "promoted" version }

  unfoldable pub promote_candidate :
      Workflow V → ReplayEvidence → ℕ → Result PromotionError (Workflow V)
  unfolding promoted
  promote_candidate candidate evidence minimum =
      ensure evidence.clean_fixture not_clean
      >> (ensure evidence.independent_verification not_independently_verified
          >> (ensure (not (ltb evidence.verified_runs (max minimum 1))) too_few_verified_runs
              >> (ensure (evidence.fingerprint == candidate.fingerprint) fingerprint_mismatch
                  >> ok (promoted candidate))))

  -- The repaired workflow: the replacement under the next version of the original.
  unfoldable pub repaired : Workflow V → Workflow V → Workflow V
  unfolding versioned_id
  repaired original replacement =
      let version = saturating_add u32_max original.version 1 in
      record replacement { version = version; id = versioned_id original.id "repaired" version }

  unfoldable pub repair_candidate : Json V → Workflow V → Workflow V → Result String (Workflow V)
  unfolding repaired
  repair_candidate json original replacement =
      validate_workflow json replacement
      >> (ensure
            (not (
              not (original.intent == replacement.intent)
              || not (parameters_beq original.parameters replacement.parameters)))
            "repaired workflow changed intent or parameter schema"
          >> ok (repaired original replacement))

  -- The parameter, and the fields that the template keeps.
  pub lift_parameter : Json V → Map V → String → String → String → Option WorkflowParameter × Map V
  lift_parameter json params field name parameter_type = elim (get params field) [
    | none ↦ (none, params)
    | some value ↦
        if not (json.is_string value) && (not (json.is_number value) && not (json.is_boolean value))
        then (none, params)
        else (
          some (record { name = name; parameter_type = parameter_type; sensitive = true }),
          insert params field (json.object (("param", json.of_string name) ∷ [])),
        )
  ]
