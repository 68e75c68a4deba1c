-- ===== src/Consent/HumanAction/Approval.antt =====
-- When the broker of human_action.rs lets an operation resume.
use comptrol.Base.{
  ℕ, ◌≡◌, ◌≢◌, subst, ◌↔◌, refl, sym, ◌∙◌, ◌⊎◌, inl, inr, String, Bool, true, false, ◌&&◌, none,
  some, List, [], ◌∷◌, eq_string, eq_iff, arith, keep, Has, All, get, values, Bool-cases,
  Option-cases, all_iff, any_iff, Has-keep, Has-insert, All-insert, All-Has, find-Has, Has-find,
  all-false,
}
use comptrol.Consent.HumanAction.{
  HumanActionChallenge, HumanActionResolution, approved, declined, timed_out, PendingHumanAction,
  HumanActionBroker, BrokerState, Disk, SaveOutcome, request_action, resolve, save, with_path,
  of_operation, is_open, is_approved, pending_for_operation, may_resume, Call, requests, resolves,
  restarts, World, step, run, new, unresolved,
}

is_approved_iff : (p : PendingHumanAction) → (is_approved p ≡ true) ↔ (p.resolution ≡ some approved)
is_approved_iff p = ((λ h. ground arith), λ h. ground arith)

-- An operation may resume exactly when it has a request, and every request of it is approved.
pub may_resume_iff :
    (b : HumanActionBroker) (op : String)
    → (may_resume b op ≡ true) ↔ (
        ((p : PendingHumanAction)
          → Has p (values b.pending)
          → p.request.operation_id ≡ op
          → p.resolution ≡ some approved)
        × ((p : PendingHumanAction) × Has p (values b.pending) × (p.request.operation_id ≡ op)))
unfolding may_resume
may_resume_iff b op =
    let mine = keep (of_operation op) (values b.pending) in
    let (every, every') = all_iff is_approved mine in
    let (some_of, some_of') = any_iff (of_operation op) (values b.pending) in
    (
      (λ h. (
        (λ p m e. (is_approved_iff p).0 (
            every (ground arith) p
              ((Has-keep (of_operation op) p (values b.pending)).1 (m, (eq_iff _ _).1 e)))),
        let (p, m, e) = some_of (ground arith) in (p, m, (eq_iff _ _).0 e),
      )),
      λ h.
          let (p, m, e) = h.1 in
          ground (
            arith,
            some_of' (p, m, (eq_iff _ _).1 e),
            every' (λ q mq.
                let (there, of_op) = (Has-keep (of_operation op) q (values b.pending)).0 mq in
                (is_approved_iff q).1 (h.0 q there ((eq_iff _ _).0 of_op))),
          ),
    )

is_open_iff : (p : PendingHumanAction) → (is_open p ≡ true) ↔ (p.resolution ≡ none)
is_open_iff p = ((λ h. ground arith), λ h. ground arith)

open_not_approved : (p : PendingHumanAction) → p.resolution ≡ none → is_approved p ≡ false
open_not_approved p h = ground arith

-- An open request of an operation keeps it from resuming, and `pending_for_operation` finds an
-- open request of that operation.
pub open_blocks :
    (b : HumanActionBroker) (op : String) (p : PendingHumanAction)
    → Has p (values b.pending)
    → p.request.operation_id ≡ op
    → p.resolution ≡ none
    → (may_resume b op ≡ false)
      × ((q : PendingHumanAction) × (pending_for_operation b op ≡ some q)
          × (q.request.operation_id ≡ op)
          × (q.resolution ≡ none))
unfolding may_resume pending_for_operation
open_blocks b op p m e unres =
    let of_op = (eq_iff p.request.operation_id op).1 e in
    let mine = (Has-keep (of_operation op) p (values b.pending)).1 (m, of_op) in
    let blocked = all-false is_approved p _ mine (open_not_approved p unres) in
    let test : PendingHumanAction → Bool = λ x. of_operation op x && is_open x in
    let (q, found) =
      Has-find test p (values b.pending) m (ground (arith, of_op, (is_open_iff p).1 unres)) in
    let (_, passes) = find-Has test q (values b.pending) found in
    (
      rw blocked,
      (
        q,
        found,
        (eq_iff q.request.operation_id op).0 (ground arith),
        (is_open_iff q).0 (ground arith),
      ),
    )

-- A request that was just made is open, so its operation may not resume.
pub request_blocks :
    (b : HumanActionBroker) (op intent : String) (challenge : HumanActionChallenge) (now : ℕ)
    → let b' = (request_action b op intent challenge now).0 in
      (may_resume b' op ≡ false)
      × ((p : PendingHumanAction) × (pending_for_operation b' op ≡ some p)
          × (p.request.operation_id ≡ op)
          × (p.resolution ≡ none))
unfolding request_action
request_blocks b op intent challenge now =
    let (b', request) = request_action b op intent challenge now in
    open_blocks b' op (unresolved request) (Has-insert b.pending request.id (unresolved request))
      refl refl

-- A response other than the user's approval.
abbrev pub NotApproving : Call → Type 0
NotApproving (resolves id approved now outcome) = ⊥
NotApproving _ = Unit

abbrev Unapproved : BrokerState → Type 0
Unapproved state = All (λ p. is_approved p ≡ false) (values state.pending)

record Waiting (w : World) : Type 0 where
  in_memory : Unapproved w.broker.state
  on_disk : (state : BrokerState) → w.disk ≡ some state → Unapproved state

save-cases :
    (outcome : SaveOutcome) (b : HumanActionBroker) (disk : Disk)
    → (save outcome b disk ≡ disk)
      ⊎ ((save outcome b disk ≡ some b.state) ⊎ (save outcome b disk ≡ none))
unfolding save
save-cases outcome b disk = ground arith

save-Unapproved :
    (outcome : SaveOutcome) (b : HumanActionBroker) (disk : Disk) (state : BrokerState)
    → Unapproved b.state
    → ((t : BrokerState) → disk ≡ some t → Unapproved t)
    → save outcome b disk ≡ some state
    → Unapproved state
save-Unapproved outcome b disk state hb hd e = elim (save-cases outcome b disk) [
  | inl same ↦ hd state (sym same ∙ e)
  | inr (inl new_state) ↦ let eq : b.state ≡ state = cc in subst Unapproved eq hb
  | inr (inr gone) ↦ absurd (cc)
]

resolve-Unapproved :
    (b : HumanActionBroker) (id : String) (r : HumanActionResolution) (now : ℕ)
    → r ≢ approved
    → Unapproved b.state
    → Unapproved (resolve b id r now).0.state
unfolding resolve
resolve-Unapproved b id r now n h = elim (Option-cases (get b.pending id)) [
  | inl missing ↦ rw (missing, resolve) h
  | inr (p, found) ↦
      rw (found, resolve)
        (All-insert (λ q. is_approved q ≡ false) b.pending id
          (record p { resolution = some r; resolved_at_ms = some now }) h (ground arith))
]

restart-Unapproved :
    (path : String) (disk : Disk)
    → ((t : BrokerState) → disk ≡ some t → Unapproved t)
    → Unapproved (with_path path disk).state
unfolding with_path
restart-Unapproved path none h = tt
restart-Unapproved path (some state) h = h state refl

not_approving :
    (id : String) (r : HumanActionResolution) (now : ℕ) (outcome : SaveOutcome)
    → NotApproving (resolves id r now outcome)
    → r ≢ approved
not_approving id approved now outcome n = elim n [ ]
not_approving id declined now outcome n = λ e. cc
not_approving id timed_out now outcome n = λ e. cc

step-Waiting : (w : World) (c : Call) → NotApproving c → Waiting w → Waiting (step w c)
unfolding step
step-Waiting w (requests op intent challenge now outcome) n h =
    let (b', request) = request_action w.broker op intent challenge now in
    let mem =
      All-insert (λ p. is_approved p ≡ false) w.broker.pending request.id (unresolved request)
        h.in_memory refl in
    record {
      in_memory = mem;
      on_disk = λ state e. save-Unapproved outcome b' w.disk state mem h.on_disk e;
    }
step-Waiting w (resolves id r now outcome) n h =
    let (b', known) = resolve w.broker id r now in
    let mem = resolve-Unapproved w.broker id r now (not_approving id r now outcome n) h.in_memory in
    record {
      in_memory = mem;
      on_disk = λ state e. elim (Bool-cases known) [
        | inl found ↦ save-Unapproved outcome b' w.disk state mem h.on_disk (rw found at e)
        | inr missing ↦ h.on_disk state (rw missing at e)
      ];
    }
step-Waiting w (restarts path) n h = record {
  in_memory = restart-Unapproved path w.disk h.on_disk;
  on_disk = h.on_disk;
}

run-Waiting : (w : World) (cs : List Call) → All NotApproving cs → Waiting w → Waiting (run w cs)
unfolding run
run-Waiting w [] n h = h
run-Waiting w (c ∷ cs) n h = run-Waiting (step w c) cs n.1 (step-Waiting w c n.0 h)

-- The broker never approves by itself: after any calls and restarts in which no request is resolved
-- as approved, no operation may resume, from a broker and a disk that are empty.
pub never_auto_approves :
    (cs : List Call) (op : String)
    → All NotApproving cs
    → may_resume (run (record { broker = new; disk = none }) cs).broker op ≡ false
never_auto_approves cs op n =
    let w : World = run (record { broker = new; disk = none }) cs in
    let quiet =
      run-Waiting (record { broker = new; disk = none }) cs n
        (record { in_memory = tt; on_disk = λ t e. absurd (cc) }) in
    elim (Bool-cases (may_resume w.broker op)) [
      | inl resumes ↦
          let (every, (p, m, e)) = (may_resume_iff w.broker op).0 resumes in
          let not_yet =
            All-Has (λ q. is_approved q ≡ false) p (values w.broker.pending) quiet.in_memory m in
          absurd (ground (arith, every p m e, not_yet))
      | inr blocked ↦ blocked
    ]
