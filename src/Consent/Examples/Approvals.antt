-- ===== src/Consent/Examples/Approvals.antt =====
-- The broker of human actions with one operation that waits.
use comptrol.Base.{decimal, ◌≡◌, refl, true, false, none, some, List, [], ◌∷◌, eq_string}
use comptrol.Consent.HumanAction.{
  HumanActionChallenge, native_authentication, HumanActionBroker, HumanActionRequest, request_id,
  new, request_action, resolve, may_resume, Call, requests, resolves, restarts, run, approved,
  declined, saved, unchanged, garbled, unresolved,
}
use comptrol.Consent.HumanAction.Approval.{never_auto_approves}

abbrev challenge : HumanActionChallenge
challenge = record {
  kind = native_authentication "polkit";
  reason = "install a driver";
  target = none;
  requested_change = none;
  prompt_location = "desktop";
  agent_must_not_enter_secret = true;
}

abbrev request : HumanActionRequest
request = record {
  id = "human-op-1";
  operation_id = "op";
  intent = "install";
  challenge = challenge;
  created_at_ms = 5;
}

-- One request of the operation `op`, open.
abbrev waiting : HumanActionBroker
waiting = record {
  state = record { pending = ("human-op-1", unresolved request) ∷ []; sequence = 1 };
  path = none;
}

-- The same request, approved.
abbrev settled : HumanActionBroker
settled = record {
  state = record {
    pending =
        (
          "human-op-1",
          record { request = request; resolution = some approved; resolved_at_ms = some 9 },
        )
        ∷ [];
    sequence = 1;
  };
  path = none;
}

settled_resumes : may_resume settled "op" ≡ true
unfolding may_resume
settled_resumes = refl

made : (request_action new "op" "install" challenge 5).0 ≡ waiting
unfolding request_action decimal request_id
made = refl

approves : resolve waiting "human-op-1" approved 9 ≡ (settled, true)
unfolding resolve
approves = refl

abbrev calls : List Call
calls =
    requests "op" "install" challenge 5 saved
    ∷ resolves "human-op-1" declined 7 unchanged
    ∷ restarts "state.json"
    ∷ requests "op" "install" challenge 9 garbled
    ∷ []

never_auto_approves_example :
    may_resume (run (record { broker = new; disk = none }) calls).broker "op" ≡ false
never_auto_approves_example = never_auto_approves calls "op" (tt, (tt, (tt, (tt, tt))))
