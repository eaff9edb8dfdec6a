-- ===== src/A2a/Tests.antt =====
-- Runs of the task machine, and its theorems at concrete inputs.
use square.Base.{
  arith, eq_iff, ℕ, ◌≡◌, refl, ◌↔◌, true, none, some, List, [], ◌∷◌, String, string_eq,
}
use square.Base.JsMap
use square.Base.JsMap.{IsKeyed}
use square.A2a.States.{
  delivered, failed, submit, complete, provider_may_call, is_disposable_task_state,
}
use square.A2a.States.Laws.{provider_may_call_iff}
use square.A2a.Machine.{
  TaskMachine, TaskRecord, Params, new_machine, create, accept, deliver, cancel, get, sweep,
  transition, created, TransitionError,
}
use square.A2a.Machine.Transition.{Moves, Wf}
use square.A2a.Machine.Calls.{
  Call, create_call, accept_call, deliver_call, fail_call, cancel_call, forget_call, sweep_call,
  perform, perform_all, perform-Moves,
}
use square.A2a.Machine.Complete.{perform_all-new_machine}
use square.A2a.Machine.Delivered.{delivered_survives}

provider_may_call_iff_example :
    (provider_may_call failed complete ≡ true) ↔ ((failed ≡ delivered) × (complete ≡ submit))
provider_may_call_iff_example = provider_may_call_iff failed complete

abbrev params : String → Params
params id = record {
  id = id;
  capability = "translate";
  input = "hello";
  caller_did = "did:aip:1";
  job_id = "42";
}

abbrev script : List (Call × ℕ)
script =
    (create_call (params "a"), 10)
    ∷ (accept_call "a", 20)
    ∷ (create_call (params "b"), 30)
    ∷ (deliver_call "a" "0xwork" none, 40)
    ∷ (cancel_call "b", 50)
    ∷ []

abbrev ended : TaskMachine
ended = perform_all new_machine script

abbrev work : TaskRecord
work = record (created (params "a") 10) {
  state = delivered;
  deliverable = some "0xwork";
  updated_at = 40;
}

final_record : get ended "a" ≡ some work
unfolding perform_all perform create accept deliver cancel transition get JsMap.get JsMap.set
final_record = refl

stale_count : (sweep ended 60).0 ≡ 1
unfolding perform_all perform create accept deliver cancel transition get JsMap.get JsMap.set sweep
    is_disposable_task_state
stale_count = refl

perform-Moves_example : Moves (get ended "a") (get (perform ended (sweep_call 100) 60) "a")
perform-Moves_example =
    perform-Moves ended (sweep_call 100) 60 "a" (perform_all-new_machine script).keyed

perform_all-new_machine_example : Wf (perform_all new_machine script)
perform_all-new_machine_example = perform_all-new_machine script

abbrev later : List (Call × ℕ)
later = (sweep_call 1000, 60) ∷ (fail_call "a" "late", 70) ∷ (forget_call "b", 80) ∷ []

delivered_survives_example : get (perform_all ended later) "a" ≡ some work
delivered_survives_example =
    delivered_survives later ended "a" work (perform_all-new_machine script)
      (tt, (tt, ((λ e. ground (arith, eq_iff "b" "a")), tt))) final_record refl

abbrev missing : TransitionError
missing = record { task_id = "z"; from = none; attempted = "accept" }
