-- ===== src/A2a/Machine.antt =====
-- packages/a2a/src/task-machine.ts: the task lifecycle as a state machine.
pub mod Transition
pub mod Calls
pub mod Sweep
pub mod Complete
pub mod Delivered
use square.Base.{
  ℕ, zero, suc, ◌+◌, Bool, true, false, not, ◌&&◌, Option, none, some, List, [], ◌∷◌, ◌++◌, String,
  ltb, if◌then◌else◌, ◌==◌, string_eq, length,
}
use square.Base.JsMap
use square.Base.JsMap.{JsMap}
use square.A2a.States.{
  TaskState, submitted, working, delivered, failed, cancelled, includes, task_beq,
  is_terminal_task_state, is_disposable_task_state,
}

-- The times are in milliseconds; the code keeps them as ISO texts, which name the same instants.
pub record TaskRecord : Type 0 where
  pub id : String
  pub capability : String
  pub input : String
  pub caller_did : String
  pub job_id : String
  pub state : TaskState
  pub deliverable : Option String
  pub reference : Option String
  pub reason : Option String
  pub created_at : ℕ
  pub updated_at : ℕ

pub record TransitionError : Type 0 where
  pub task_id : String
  pub from : Option TaskState
  pub attempted : String

pub data Result {ℓ} (A : Type ℓ) : Type ℓ where
  ok : A → Result A
  err : TransitionError → Result A

-- What every listener hears: the record as it stands, and the state before.
abbrev pub Notice : Type 0
Notice = TaskRecord × Option TaskState

pub record TaskMachine : Type 0 where
  pub tasks : JsMap String TaskRecord
  pub emitted : List Notice

abbrev pub new_machine : TaskMachine
new_machine = record { tasks = []; emitted = [] }

abbrev pub Outcome : Type 0
Outcome = Result TaskRecord × TaskMachine

fail_with : TaskMachine → String → Option TaskState → String → Outcome
fail_with m id from attempted =
    (err (record { task_id = id; from = from; attempted = attempted }), m)

-- The write to the record, after which `apply` writes what the new state carries.
pub moved : TaskRecord → TaskState → ℕ → (TaskRecord → TaskRecord) → TaskRecord
moved task to now apply = apply (record task { state = to; updated_at = now })

pub store : TaskMachine → String → TaskRecord → Option TaskState → TaskMachine
store m id task previous = record {
  tasks = JsMap.set id task m.tasks;
  emitted = m.emitted ++ (task, previous) ∷ [];
}

unfoldable pub transition :
    TaskMachine
    → String
    → List TaskState
    → TaskState
    → String
    → (TaskRecord → TaskRecord)
    → ℕ
    → Outcome
unfolding fail_with moved store
transition m id from to attempted apply now = elim (JsMap.get id m.tasks) [
  | none ↦ fail_with m id none attempted
  | some task ↦
      if not (includes task_beq from task.state)
      then fail_with m id (some task.state) attempted
      else (ok (moved task to now apply), store m id (moved task to now apply) (some task.state))
]

pub record Params : Type 0 where
  pub id : String
  pub capability : String
  pub input : String
  pub caller_did : String
  pub job_id : String

abbrev pub created : Params → ℕ → TaskRecord
created p now = record {
  id = p.id;
  capability = p.capability;
  input = p.input;
  caller_did = p.caller_did;
  job_id = p.job_id;
  state = submitted;
  deliverable = none;
  reference = none;
  reason = none;
  created_at = now;
  updated_at = now;
}

unfoldable pub create : TaskMachine → Params → ℕ → Outcome
unfolding fail_with store
create m p now = elim (JsMap.get p.id m.tasks) [
  | some existing ↦ fail_with m p.id (some existing.state) "create (id already used)"
  | none ↦ (ok (created p now), store m p.id (created p now) none)
]

unfoldable pub accept : TaskMachine → String → ℕ → Outcome
accept m id now = transition m id (submitted ∷ []) working "accept" (λ t. t) now

-- `if (reference !== undefined) task.reference = reference`
abbrev pub write_deliverable : String → Option String → TaskRecord → TaskRecord
write_deliverable d none t = record t { deliverable = some d }
write_deliverable d (some r) t = record t { deliverable = some d; reference = some r }

unfoldable pub deliver : TaskMachine → String → String → Option String → ℕ → Outcome
unfolding fail_with
deliver m id d r now =
    if d == ""
    then fail_with m id (some working) "deliver (empty deliverable)"
    else transition m id (working ∷ []) delivered "deliver" (write_deliverable d r) now

abbrev pub write_reason : String → TaskRecord → TaskRecord
write_reason r t = record t { reason = some r }

unfoldable pub fail : TaskMachine → String → String → ℕ → Outcome
fail m id r now = transition m id (submitted ∷ working ∷ []) failed "fail" (write_reason r) now

unfoldable pub cancel : TaskMachine → String → ℕ → Outcome
cancel m id now = transition m id (submitted ∷ []) cancelled "cancel" (λ t. t) now

unfoldable pub get : TaskMachine → String → Option TaskRecord
get m id = JsMap.get id m.tasks

pub list : TaskMachine → List TaskRecord
list m = JsMap.values m.tasks

unfoldable pub forget : TaskMachine → String → Outcome
unfolding fail_with
forget m id = elim (JsMap.get id m.tasks) [
  | none ↦ fail_with m id none "forget"
  | some task ↦
      if not (is_terminal_task_state task.state)
      then fail_with m id (some task.state) "forget"
      else (ok task, record m { tasks = JsMap.delete id m.tasks })
]

unfoldable pub is_stale : TaskRecord → ℕ → Bool
is_stale t before = is_disposable_task_state t.state && ltb t.updated_at before

-- The loop of `sweep` over the entries: those that stay, and how many go.
sweep_entries : JsMap String TaskRecord → ℕ → JsMap String TaskRecord × ℕ
sweep_entries [] before = ([], 0)
sweep_entries ((id, t) ∷ m) before =
    let rest = sweep_entries m before in
    if is_stale t before then (rest.0, rest.1 + 1) else ((id, t) ∷ rest.0, rest.1)

unfoldable pub sweep : TaskMachine → ℕ → ℕ × TaskMachine
unfolding sweep_entries is_stale
sweep m before = let s = sweep_entries m.tasks before in (s.1, record m { tasks = s.0 })
