-- ===== src/Workflow/Promotion/Gates.antt =====
-- What promotion and repair of a workflow demand, and what they keep.
use Prim.Native.String.append
use comptrol.Base.{
  ℕ, ◌+◌, ◌≤◌, ◌≡◌, ◌≢◌, ◌↔◌, refl, sym, ◌∙◌, ◌⊎◌, String, str_append, true, some, List, [], ◌∷◌,
  eq_string, eq_iff, min, u32_max, ok, ensure_iff, arith, Map, get, insert, get-insert,
}
use comptrol.Json.{Json}
use comptrol.Workflow.{Workflow, WorkflowParameter}
use comptrol.Workflow.Validate.{validate_workflow}
use comptrol.Workflow.Validate.Wellformed.{IsValid, validate_iff}
use comptrol.Workflow.Promotion.{
  ReplayEvidence, parameter_beq, parameters_beq, promote_candidate, repair_candidate, promoted,
  repaired, lift_parameter, versioned_id,
}

append-ne : (s t : String) → s ≢ "" → str_append s t ≢ ""
append-ne String.[] t h = absurd (h refl)
append-ne (String.◌∷◌ c s) t h = rw append.cons (λ e. cc)

parameter_beq_iff : (p q : WorkflowParameter) → (parameter_beq p q ≡ true) ↔ (p ≡ q)
parameter_beq_iff p q = (
  (λ h. ground (arith, eq_iff p.name q.name, eq_iff p.parameter_type q.parameter_type)),
  λ h. ground (arith, eq_iff p.name q.name, eq_iff p.parameter_type q.parameter_type),
)

parameters_beq_iff : (ps qs : List WorkflowParameter) → (parameters_beq ps qs ≡ true) ↔ (ps ≡ qs)
parameters_beq_iff [] [] = ((λ h. refl), λ h. refl)
parameters_beq_iff [] (q ∷ qs) = ((λ h. cc), λ h. cc)
parameters_beq_iff (p ∷ ps) [] = ((λ h. cc), λ h. cc)
parameters_beq_iff (p ∷ ps) (q ∷ qs) =
    let (there, back) = parameters_beq_iff ps qs in
    (
      (λ h. ground (arith, parameter_beq_iff p q, there)),
      λ h. ground (arith, parameter_beq_iff p q, back),
    )

-- What the evidence must show.
pub record IsProven {V : Type 0} (candidate : Workflow V) (evidence : ReplayEvidence) (minimum : ℕ)
    : Type 0 where
  pub clean : evidence.clean_fixture ≡ true
  pub independent : evidence.independent_verification ≡ true
  pub enough_runs : minimum ≤ evidence.verified_runs
  pub one_run : 1 ≤ evidence.verified_runs
  pub same_fingerprint : evidence.fingerprint ≡ candidate.fingerprint

module _ {V : Type 0} where
  promote-ok :
      (candidate : Workflow V) (evidence : ReplayEvidence) (minimum : ℕ) (w : Workflow V)
      → promote_candidate candidate evidence minimum ≡ ok w
      → IsProven candidate evidence minimum × (promoted candidate ≡ w)
  unfolding promote_candidate
  promote-ok candidate evidence minimum w h =
      let same = eq_iff evidence.fingerprint candidate.fingerprint in
      (
        record {
          clean = ground (arith, h);
          independent = ground (arith, h);
          enough_runs = ground (arith, h);
          one_run = ground (arith, h);
          same_fingerprint = ground (arith, h, same);
        },
        ground (arith, h),
      )

  -- Promotion goes through exactly for proven evidence: a clean fixture, independent verification,
  -- at least the minimum of verified runs and at least one, and the candidate's own fingerprint.
  pub promote_iff :
      (candidate : Workflow V) (evidence : ReplayEvidence) (minimum : ℕ)
      → ((w : Workflow V) × (promote_candidate candidate evidence minimum ≡ ok w))
        ↔ IsProven candidate evidence minimum
  unfolding promote_candidate
  promote_iff candidate evidence minimum = (
    (λ (w, h). (promote-ok candidate evidence minimum w h).0),
    λ h. (
      promoted candidate,
      (ensure_iff _ _ _).1 (
        h.clean,
        (ensure_iff _ _ _).1 (
          h.independent,
          (ensure_iff _ _ _).1 (
            ground (arith, h.enough_runs, h.one_run),
            (ensure_iff _ _ _).1
                ((eq_iff evidence.fingerprint candidate.fingerprint).1 h.same_fingerprint, refl),
          ),
        ),
      ),
    ),
  )

  -- A valid workflow stays valid under the next version and another id that is not empty.
  renamed-IsValid :
      (json : Json V) (w : Workflow V) (version : ℕ) (id : String)
      → IsValid json w
      → version ≢ 0
      → id ≢ ""
      → IsValid json (record w { version = version; id = id })
  renamed-IsValid json w version id v positive named = record {
    version_positive = positive;
    id_named = named;
    intent_named = v.intent_named;
    start_there = v.start_there;
    code_free = v.code_free;
    nodes_valid = v.nodes_valid;
  }

  -- What is promoted from a valid candidate is a valid workflow with the graph, the intent, the
  -- parameters and the fingerprint of the candidate, and one version more, up to the largest.
  pub promoted-IsValid :
      (json : Json V) (candidate : Workflow V) (evidence : ReplayEvidence) (minimum : ℕ)
      (w : Workflow V)
      → IsValid json candidate
      → promote_candidate candidate evidence minimum ≡ ok w
      → IsValid json w
        × (w.nodes ≡ candidate.nodes)
        × (w.intent ≡ candidate.intent)
        × (w.parameters ≡ candidate.parameters)
        × (w.fingerprint ≡ candidate.fingerprint)
        × (w.version ≡ min (candidate.version + 1) u32_max)
  unfolding promoted versioned_id
  promoted-IsValid json candidate evidence minimum w v e =
      let (proven, same) = promote-ok candidate evidence minimum w e in
      rw (sym same) (
        renamed-IsValid json candidate _ _ v (λ z. ground arith)
            (append-ne candidate.id _ v.id_named),
        refl,
        refl,
        refl,
        refl,
        ground arith,
      )

  -- A repair that goes through, of an original with an id, is a valid workflow with the graph of
  -- the replacement, and the intent and the parameters of the original.
  pub repaired-IsValid :
      (json : Json V) (original replacement w : Workflow V)
      → original.id ≢ ""
      → repair_candidate json original replacement ≡ ok w
      → IsValid json w
        × (w.nodes ≡ replacement.nodes)
        × (w.intent ≡ original.intent)
        × (w.parameters ≡ original.parameters)
  unfolding repair_candidate repaired versioned_id
  repaired-IsValid json original replacement w named e =
      let accepted : validate_workflow json replacement ≡ ok tt = ground (arith, e) in
      let w_is : repaired original replacement ≡ w = ground (arith, e, accepted) in
      rw (sym w_is) (
        renamed-IsValid json replacement _ _ ((validate_iff json replacement).0 accepted)
            (λ z. ground arith) (append-ne original.id _ named),
        refl,
        ground (arith, eq_iff original.intent replacement.intent),
        ground (arith, parameters_beq_iff original.parameters replacement.parameters),
      )

  -- The object that takes the place of a lifted field.
  abbrev placeholder : Json V → String → V
  placeholder json name = json.object (("param", json.of_string name) ∷ [])

  placeholder-param :
      (json : Json V) (name : String)
      → json.member (placeholder json name) "param" ≡ some (json.of_string name)
  placeholder-param json name =
      json.member_object (("param", json.of_string name) ∷ []) "param"
      ∙ ground (arith, eq_iff "param" "param")

  -- A value that can be lifted: a string, a number or a Boolean.
  abbrev pub IsScalar : Json V → V → Type 0
  IsScalar json value =
      (json.is_string value ≡ true)
      ⊎ ((json.is_number value ≡ true) ⊎ (json.is_boolean value ≡ true))

  lift_parameter-scalar :
      (json : Json V) (params : Map V) (field name parameter_type : String) (value : V)
      → get params field ≡ some value
      → IsScalar json value
      → lift_parameter json params field name parameter_type ≡ (
        some (record { name = name; parameter_type = parameter_type; sensitive = true }),
        insert params field (placeholder json name),
      )
  unfolding lift_parameter
  lift_parameter-scalar json params field name parameter_type value there scalar =
      ground (arith, there, scalar)

  -- Lifting a field that is there and is a string, a number or a Boolean makes a sensitive parameter
  -- of the given name and type, puts an object whose `param` is that name in the place of the field,
  -- and keeps every other field.
  pub lift_parameter_lem :
      (json : Json V) (params : Map V) (field name parameter_type : String) (value : V)
      (other : String)
      → get params field ≡ some value
      → IsScalar json value
      → other ≢ field
      → ((lift_parameter json params field name parameter_type).0
          ≡ some (record { name = name; parameter_type = parameter_type; sensitive = true }))
        × ((place : V) × (get (lift_parameter json params field name parameter_type).1 field
              ≡ some place)
            × (json.member place "param" ≡ some (json.of_string name)))
        × (get (lift_parameter json params field name parameter_type).1 other ≡ get params other)
  lift_parameter_lem json params field name parameter_type value other there scalar apart =
      rw (lift_parameter-scalar json params field name parameter_type value there scalar) (
        refl,
        (
          placeholder json name,
          get-insert params field field (placeholder json name)
              ∙ ground (arith, eq_iff field field),
          placeholder-param json name,
        ),
        get-insert params field other (placeholder json name)
            ∙ ground (arith, eq_iff field other, apart),
      )
