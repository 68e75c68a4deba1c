-- ===== src/Workflow/Promotion/Store.antt =====
-- `WorkflowHostStore` of crates/comptrol-workflow/src/lib.rs: the file of promoted workflows. The file is
-- modelled by what it deserializes to, and what the file system answers is an argument of each call.
use comptrol.Base.{
  ◌≡◌, ◌≢◌, refl, ap, ◌∙◌, inl, inr, String, Option, some, [], eq_string, eq_iff, Map, get, insert,
  get-insert, Result, ok, err, ◌>>=◌, Result-cases, arith,
}
use comptrol.Json.{Json}
use comptrol.Workflow.{Workflow}
use comptrol.Workflow.Validate.{validate_workflow}
use comptrol.Workflow.Validate.Wellformed.{IsValid, validate_iff}

-- An error of the file system or of the deserializer, or the message of a refused workflow.
pub data HostError : Type 0 where
  host_io : HostError
  refused_workflow : String → HostError

pub data HostFile (V : Type 0) : Type 0 where
  absent corrupt : HostFile V
  holds : Map (Workflow V) → HostFile V

-- `open`: the directory cannot be made, the first write fails and leaves a part, or all goes well.
pub data OpenOutcome : Type 0 where
  no_directory torn_write opened : OpenOutcome

-- `put`: the new file is not written whole, or not renamed; or it takes the place of the old one.
pub data PutOutcome : Type 0 where
  not_replaced replaced : PutOutcome

module _ {V : Type 0} where
  pub open_host : OpenOutcome → HostFile V → Result HostError (Unit {0}) × HostFile V
  open_host no_directory file = (err host_io, file)
  open_host torn_write absent = (err host_io, corrupt)
  open_host opened absent = (ok tt, holds [])
  open_host torn_write corrupt = (ok tt, corrupt)
  open_host opened corrupt = (ok tt, corrupt)
  open_host torn_write (holds m) = (ok tt, holds m)
  open_host opened (holds m) = (ok tt, holds m)

  pub load_host : HostFile V → Result HostError (Map (Workflow V))
  load_host absent = err host_io
  load_host corrupt = err host_io
  load_host (holds m) = ok m

  pub get_workflow : HostFile V → String → Result HostError (Option (Workflow V))
  unfolding load_host
  get_workflow file id = load_host file >>= λ m. ok (get m id)

  replace :
      PutOutcome
      → HostFile V
      → Workflow V
      → Result HostError (Map (Workflow V))
      → Result HostError (Unit {0}) × HostFile V
  replace outcome file w (err e) = (err e, file)
  replace not_replaced file w (ok m) = (err host_io, file)
  replace replaced file w (ok m) = (ok tt, holds (insert m w.id w))

  put_checked :
      PutOutcome
      → HostFile V
      → Workflow V
      → Result String (Unit {0})
      → Result HostError (Unit {0}) × HostFile V
  unfolding replace load_host
  put_checked outcome file w (err message) = (err (refused_workflow message), file)
  put_checked outcome file w (ok passed) = replace outcome file w (load_host file)

  unfoldable pub put :
      Json V → PutOutcome → HostFile V → Workflow V → Result HostError (Unit {0}) × HostFile V
  unfolding put_checked
  put json outcome file w = put_checked outcome file w (validate_workflow json w)

  replace-ok :
      (outcome : PutOutcome) (file : HostFile V) (w : Workflow V) (other : String)
      → (replace outcome file w (load_host file)).0 ≡ ok tt
      → other ≢ w.id
      → (get_workflow (replace outcome file w (load_host file)).1 w.id ≡ ok (some w))
        × (get_workflow (replace outcome file w (load_host file)).1 other ≡ get_workflow file other)
  unfolding replace load_host get_workflow
  replace-ok outcome absent w other done apart = absurd (cc)
  replace-ok outcome corrupt w other done apart = absurd (cc)
  replace-ok not_replaced (holds m) w other done apart = absurd (cc)
  replace-ok replaced (holds m) w other done apart = (
    ap ok (get-insert m w.id w.id w ∙ ground (arith, eq_iff w.id w.id)),
    ap ok (get-insert m w.id other w ∙ ground (arith, eq_iff w.id other, apart)),
  )

  -- A workflow that is put with success is valid, is what its id gets from then on, and leaves
  -- what every other id gets as it was.
  pub put_stores :
      (json : Json V) (outcome : PutOutcome) (file : HostFile V) (w : Workflow V) (other : String)
      → (put json outcome file w).0 ≡ ok tt
      → other ≢ w.id
      → IsValid json w
        × (get_workflow (put json outcome file w).1 w.id ≡ ok (some w))
        × (get_workflow (put json outcome file w).1 other ≡ get_workflow file other)
  unfolding put put_checked
  put_stores json outcome file w other done apart = elim (Result-cases (validate_workflow json w)) [
    | inl (passed, e) ↦
        let (mine, others) = replace-ok outcome file w other (rw e at done) apart in
        ((validate_iff json w).0 e, rw e mine, rw e others)
    | inr (message, e) ↦ absurd (cc (rw e at done))
  ]

  replace-err :
      (outcome : PutOutcome) (file : HostFile V) (w : Workflow V) (e : HostError)
      → (replace outcome file w (load_host file)).0 ≡ err e
      → (replace outcome file w (load_host file)).1 ≡ file
  unfolding replace load_host
  replace-err outcome absent w e failed = refl
  replace-err outcome corrupt w e failed = refl
  replace-err not_replaced (holds m) w e failed = refl
  replace-err replaced (holds m) w e failed = absurd (cc)

  -- A workflow that is not put changes nothing: whatever the error, the file is as it was.
  pub put_fails_clean :
      (json : Json V) (outcome : PutOutcome) (file : HostFile V) (w : Workflow V) (e : HostError)
      → (put json outcome file w).0 ≡ err e
      → (put json outcome file w).1 ≡ file
  unfolding put put_checked
  put_fails_clean json outcome file w e failed = elim (Result-cases (validate_workflow json w)) [
    | inl (passed, p) ↦ rw p (replace-err outcome file w e (rw p at failed))
    | inr (message, p) ↦ rw p refl
  ]
