-- ===== src/A2a/Machine/Sweep.antt =====
-- What `sweep` takes (packages/a2a/src/task-machine.ts).
use square.Base.{
  ℕ, ◌+◌, ◌≡◌, refl, Option, none, some, [], ◌∷◌, String, string_eq, length, if◌then◌else◌, arith,
  eq_iff,
}
use square.Base.JsMap
use square.Base.JsMap.{JsMap, IsKeyed}
use square.A2a.Machine.{TaskRecord, TaskMachine, sweep_entries, is_stale, sweep, get}

-- What is left of one entry.
abbrev pub kept : ℕ → Option TaskRecord → Option TaskRecord
kept before none = none
kept before (some t) = if is_stale t before then none else some t

get-sweep_entries :
    (m : JsMap String TaskRecord) (before : ℕ) (id : String)
    → IsKeyed m
    → JsMap.get id (sweep_entries m before).0 ≡ kept before (JsMap.get id m)
unfolding sweep_entries JsMap.get
get-sweep_entries [] before id h = refl
get-sweep_entries ((j, t) ∷ m) before id h =
    ground (arith, eq_iff j id, get-sweep_entries m before id)

sweep_entries-IsKeyed :
    (m : JsMap String TaskRecord) (before : ℕ) → IsKeyed m → IsKeyed (sweep_entries m before).0
unfolding sweep_entries
sweep_entries-IsKeyed [] before h = tt
sweep_entries-IsKeyed ((j, t) ∷ m) before h =
    ground (arith, get-sweep_entries m before j, sweep_entries-IsKeyed m before)

sweep_entries-length :
    (m : JsMap String TaskRecord) (before : ℕ)
    → (sweep_entries m before).1 + length (sweep_entries m before).0 ≡ length m
unfolding sweep_entries
sweep_entries-length [] before = omega arith
sweep_entries-length ((j, t) ∷ m) before = ground (arith, sweep_entries-length m before)

-- In a machine whose task ids are distinct, `sweep` removes exactly the disposable tasks last
-- updated before the given time, leaves every other task as it is, and returns how many it removed.
pub sweep_lem :
    (m : TaskMachine) (before : ℕ)
    → IsKeyed m.tasks
    → ((id : String) → get (sweep m before).1 id ≡ kept before (get m id))
      × ((sweep m before).0 + length (sweep m before).1.tasks ≡ length m.tasks)
unfolding sweep get
sweep_lem m before h =
    (λ id. get-sweep_entries m.tasks before id h, sweep_entries-length m.tasks before)

pub sweep-IsKeyed :
    (m : TaskMachine) (before : ℕ) → IsKeyed m.tasks → IsKeyed (sweep m before).1.tasks
unfolding sweep
sweep-IsKeyed m before h = sweep_entries-IsKeyed m.tasks before h
