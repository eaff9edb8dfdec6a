-- ===== src/A2a/Machine/Calls.antt =====
-- The public calls of the task machine, one after another (packages/a2a/src/task-machine.ts).
use square.Base.{
  ℕ, refl, inl, inr, Option, none, some, List, [], ◌∷◌, String, string_eq, arith, eq_iff, ◌==◌,
  Option-cases, Bool-cases,
}
use square.Base.JsMap
use square.Base.JsMap.{JsMap, IsKeyed, get_self, get-set, get-delete, set-IsKeyed, delete-IsKeyed}
use square.A2a.States.{
  submitted, working, delivered, failed, cancelled, is_terminal_task_state,
  is_disposable_task_state,
}
use square.A2a.Machine.{
  TaskRecord, TaskMachine, Params, created, create, accept, deliver, fail, cancel, forget, get,
  write_deliverable, sweep, is_stale, store,
}
use square.A2a.Machine.Transition.{
  accepts, delivers, fails_working, fails_submitted, cancels, Moves, stays, born, dropped,
  transition-Moves_at, Keeps, Allows,
}
use square.A2a.Machine.Sweep.{kept, sweep_lem}

pub data Call : Type 0 where
  create_call : Params → Call
  accept_call : String → Call
  deliver_call : String → String → Option String → Call
  fail_call : String → String → Call
  cancel_call : String → Call
  forget_call : String → Call
  sweep_call : ℕ → Call

-- The machine after a call at a time, whether the call threw or not.
unfoldable pub perform : TaskMachine → Call → ℕ → TaskMachine
perform m (create_call p) now = (create m p now).1
perform m (accept_call id) now = (accept m id now).1
perform m (deliver_call id d r) now = (deliver m id d r now).1
perform m (fail_call id r) now = (fail m id r now).1
perform m (cancel_call id) now = (cancel m id now).1
perform m (forget_call id) now = (forget m id).1
perform m (sweep_call before) now = (sweep m before).1

unfoldable pub perform_all : TaskMachine → List (Call × ℕ) → TaskMachine
perform_all m [] = m
perform_all m ((c, now) ∷ cs) = perform_all (perform m c now) cs

write_deliverable-Keeps : (d : String) (r : Option String) → Keeps (write_deliverable d r)
write_deliverable-Keeps d none t = (refl, refl, refl)
write_deliverable-Keeps d (some r) t = (refl, refl, refl)

create-Moves :
    (m : TaskMachine) (p : Params) (now : ℕ) (j : String)
    → Moves (get m j) (get (create m p now).1 j)
unfolding create get store
create-Moves m p now j = elim (Option-cases (JsMap.get p.id m.tasks)) [
  | inr (t, found) ↦ stays (ground arith)
  | inl missing ↦ elim (Bool-cases (p.id == j)) [
    | inl same ↦
        born (created p now) (ground (arith, eq_iff p.id j))
          (ground (arith, get-set p.id j (created p now) m.tasks)) refl
    | inr other ↦ stays (ground (arith, get-set p.id j (created p now) m.tasks))
  ]
]

forget-Moves : (m : TaskMachine) (id j : String) → Moves (get m j) (get (forget m id).1 j)
unfolding forget get
forget-Moves m id j = elim (Option-cases (JsMap.get id m.tasks)) [
  | inl missing ↦ stays (ground arith)
  | inr (t, found) ↦ elim (Bool-cases (is_terminal_task_state t.state)) [
    | inr live ↦ stays (ground arith)
    | inl over ↦ elim (Bool-cases (id == j)) [
      | inl same ↦
          dropped t (ground (arith, eq_iff id j)) (ground (arith, get-delete id j m.tasks)) over
      | inr other ↦ stays (ground (arith, get-delete id j m.tasks))
    ]
  ]
]

kept-Moves : (before : ℕ) (o : Option TaskRecord) → Moves o (kept before o)
kept-Moves before none = stays refl
kept-Moves before (some t) = elim (Bool-cases (is_stale t before)) [
  | inl stale ↦ dropped t refl (rw stale) (unfold is_stale is_disposable_task_state in ground arith)
  | inr fresh ↦ stays (rw fresh)
]

accept-Allows : Allows (submitted ∷ []) working
accept-Allows submitted h = accepts
accept-Allows _ h = ground arith

deliver-Allows : Allows (working ∷ []) delivered
deliver-Allows working h = delivers
deliver-Allows _ h = ground arith

fail-Allows : Allows (submitted ∷ working ∷ []) failed
fail-Allows submitted h = fails_submitted
fail-Allows working h = fails_working
fail-Allows _ h = ground arith

cancel-Allows : Allows (submitted ∷ []) cancelled
cancel-Allows submitted h = cancels
cancel-Allows _ h = ground arith

deliver-Moves :
    (m : TaskMachine) (id d : String) (r : Option String) (now : ℕ) (j : String)
    → Moves (get m j) (get (deliver m id d r now).1 j)
unfolding deliver
deliver-Moves m id d r now j = elim (Bool-cases (d == "")) [
  | inl empty ↦ stays (ground arith)
  | inr full ↦
      rw full (transition-Moves_at m id _ _ _ _ now deliver-Allows (write_deliverable-Keeps d r) j)
]

-- Whatever the call, each task stays as it is, or is created in SUBMITTED, or follows one edge of
-- the documented diagram keeping its id and its job, or leaves the machine in a terminal state.
pub perform-Moves :
    (m : TaskMachine) (c : Call) (now : ℕ) (j : String)
    → IsKeyed m.tasks
    → Moves (get m j) (get (perform m c now) j)
unfolding perform accept fail cancel
perform-Moves m (create_call p) now j k = create-Moves m p now j
perform-Moves m (accept_call id) now j k =
    transition-Moves_at m id _ _ _ _ now accept-Allows (λ t. (refl, refl, refl)) j
perform-Moves m (deliver_call id d r) now j k = deliver-Moves m id d r now j
perform-Moves m (fail_call id r) now j k =
    transition-Moves_at m id _ _ _ _ now fail-Allows (λ t. (refl, refl, refl)) j
perform-Moves m (cancel_call id) now j k =
    transition-Moves_at m id _ _ _ _ now cancel-Allows (λ t. (refl, refl, refl)) j
perform-Moves m (forget_call id) now j k = forget-Moves m id j
perform-Moves m (sweep_call before) now j k =
    rw ((sweep_lem m before k).0 j) (kept-Moves before (get m j))
