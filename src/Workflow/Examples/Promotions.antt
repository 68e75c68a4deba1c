-- ===== src/Workflow/Examples/Promotions.antt =====
-- Promotion and repair of the form workflow.
use comptrol.Base.{err, ◌+◌, ◌≡◌, ◌≢◌, ◌↔◌, refl, String, true, [], ◌∷◌, Map, min, u32_max, ok}
use comptrol.Workflow.{Workflow, contains_executable_code, code_values, has_code_key, node_edges}
use comptrol.Workflow.Validate.{validate_workflow, unsafe_bound}
use comptrol.Workflow.Validate.Wellformed.{IsValid, validate_iff}
use comptrol.Workflow.Promotion.{
  ReplayEvidence, promote_candidate, repair_candidate, promoted, repaired,
}
use comptrol.Workflow.Promotion.Gates.{IsProven, promote_iff, promoted-IsValid}
use comptrol.Workflow.Promotion.Store.{HostFile, holds, host_io, replaced, not_replaced, put}
use comptrol.Workflow.Examples.Values.{Value, words, json, form}

abbrev evidence : ReplayEvidence
evidence = record {
  clean_fixture = true;
  independent_verification = true;
  verified_runs = 4;
  fingerprint = "f00d";
}

abbrev repair : Workflow Value
repair = record form { id = "draft"; start = "check" }

promote_iff_example :
    ((w : Workflow Value) × (promote_candidate form evidence 3 ≡ ok w)) ↔ IsProven form evidence 3
promote_iff_example = promote_iff form evidence 3

form-IsValid : IsValid json form
unfolding validate_workflow contains_executable_code code_values has_code_key unsafe_bound
    node_edges
form-IsValid = (validate_iff json form).0 refl

promotes : promote_candidate form evidence 3 ≡ ok (promoted form)
unfolding promote_candidate
promotes = refl

promoted-IsValid_example :
    IsValid json (promoted form)
    × ((promoted form).nodes ≡ form.nodes)
    × ((promoted form).intent ≡ form.intent)
    × ((promoted form).parameters ≡ form.parameters)
    × ((promoted form).fingerprint ≡ form.fingerprint)
    × ((promoted form).version ≡ min (form.version + 1) u32_max)
promoted-IsValid_example =
    promoted-IsValid json form evidence 3 (promoted form) form-IsValid promotes

repairs : repair_candidate json form repair ≡ ok (repaired form repair)
unfolding repair_candidate validate_workflow contains_executable_code code_values has_code_key
    unsafe_bound node_edges
repairs = refl

form_named : form.id ≢ ""
form_named h = absurd (cc)

key_apart : ◌≢◌ {A = String} "modifier" "key"
key_apart h = absurd (cc)

abbrev press_params : Map Value
press_params = ("key", words "Enter") ∷ ("modifier", words "Shift") ∷ []

abbrev empty_host : HostFile Value
empty_host = holds []

puts : (put json replaced empty_host form).0 ≡ ok tt
unfolding put validate_workflow contains_executable_code code_values has_code_key unsafe_bound
    node_edges
puts = refl

other_id : ◌≢◌ {A = String} "other" "form"
other_id h = absurd (cc)

fails : (put json not_replaced empty_host form).0 ≡ err host_io
unfolding put validate_workflow contains_executable_code code_values has_code_key unsafe_bound
    node_edges
fails = refl
