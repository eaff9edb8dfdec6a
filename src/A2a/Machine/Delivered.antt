-- ===== src/A2a/Machine/Delivered.antt =====
-- What happens to a delivered task, and to a machine that refuses (packages/a2a/src/task-machine.ts).
use square.Base.{
  ℕ, ◌≡◌, refl, ◌≢◌, inl, inr, Option, some, List, [], ◌∷◌, String, string_eq, arith, eq_iff, ◌==◌,
  Option-cases, Bool-cases, All, ◌∙◌,
}
use square.Base.JsMap
use square.Base.JsMap.{JsMap, IsKeyed, get_self, get-set, get-delete, set-IsKeyed, delete-IsKeyed}
use square.A2a.States.{working, delivered, is_disposable_task_state}
use square.A2a.Machine.{
  TaskRecord, TaskMachine, TransitionError, err, Params, created, transition, create, accept,
  deliver, fail, cancel, forget, get, is_stale, store,
}
use square.A2a.Machine.Transition.{Wf, transition_barred}
use square.A2a.Machine.Sweep.{sweep_lem}
use square.A2a.Machine.Calls.{
  Call, create_call, accept_call, deliver_call, fail_call, cancel_call, forget_call, sweep_call,
  perform, perform_all,
}
use square.A2a.Machine.Complete.{perform-Wf}

-- Not `forget id`.
abbrev pub IsNotForget : String → Call → Type 0
IsNotForget id (forget_call j) = j ≢ id
IsNotForget id _ = Unit

create_kept :
    (m : TaskMachine) (p : Params) (now : ℕ) (id : String) (t : TaskRecord)
    → get m id ≡ some t
    → get (create m p now).1 id ≡ some t
unfolding create get store
create_kept m p now id t h = elim (Option-cases (JsMap.get p.id m.tasks)) [
  | inr (u, found) ↦ ground arith
  | inl missing ↦ ground (arith, eq_iff p.id id, get-set p.id id (created p now) m.tasks)
]

forget_kept :
    (m : TaskMachine) (j id : String) (t : TaskRecord)
    → j ≢ id
    → get m id ≡ some t
    → get (forget m j).1 id ≡ some t
unfolding forget get
forget_kept m j id t n h = ground (arith, eq_iff j id, get-delete j id m.tasks)

deliver_kept :
    (m : TaskMachine) (j d : String) (r : Option String) (now : ℕ) (id : String) (t : TaskRecord)
    → get m id ≡ some t
    → t.state ≡ delivered
    → get (deliver m j d r now).1 id ≡ some t
unfolding deliver
deliver_kept m j d r now id t h s = elim (Bool-cases (d == "")) [
  | inl empty ↦ rw empty h
  | inr full ↦ rw full (transition_barred m j _ _ _ _ now id t h (rw s))
]

delivered_kept :
    (m : TaskMachine) (c : Call) (now : ℕ) (id : String) (t : TaskRecord)
    → IsKeyed m.tasks
    → IsNotForget id c
    → get m id ≡ some t
    → t.state ≡ delivered
    → get (perform m c now) id ≡ some t
unfolding perform accept fail cancel
delivered_kept m (create_call p) now id t k n h s = create_kept m p now id t h
delivered_kept m (accept_call j) now id t k n h s = transition_barred m j _ _ _ _ now id t h (rw s)
delivered_kept m (deliver_call j d r) now id t k n h s = deliver_kept m j d r now id t h s
delivered_kept m (fail_call j r) now id t k n h s = transition_barred m j _ _ _ _ now id t h (rw s)
delivered_kept m (cancel_call j) now id t k n h s = transition_barred m j _ _ _ _ now id t h (rw s)
delivered_kept m (forget_call j) now id t k n h s = forget_kept m j id t n h
delivered_kept m (sweep_call before) now id t k n h s =
    (sweep_lem m before k).0 id ∙ rw h (unfold is_stale is_disposable_task_state in ground arith)

-- In a machine with distinct task ids, a delivered task survives every sequence of calls that does
-- not `forget` it, its record unchanged: the deliverable is never lost to `sweep` or overwritten.
pub delivered_survives :
    (cs : List (Call × ℕ)) (m : TaskMachine) (id : String) (t : TaskRecord)
    → Wf m
    → All (λ c. IsNotForget id c.0) cs
    → get m id ≡ some t
    → t.state ≡ delivered
    → get (perform_all m cs) id ≡ some t
unfolding perform_all
delivered_survives [] m id t w n h s = h
delivered_survives ((c, now) ∷ cs) m id t w (n, ns) h s =
    delivered_survives cs (perform m c now) id t (perform-Wf m c now w) ns
      (delivered_kept m c now id t w.keyed n h s) s

-- A delivery with an empty deliverable is refused in every machine and changes nothing; the error
-- reports WORKING as the task's state, also where the task is in another state or does not exist.
pub deliver_empty :
    (m : TaskMachine) (id : String) (r : Option String) (now : ℕ)
    → deliver m id "" r now ≡ (
      err (record { task_id = id; from = some working; attempted = "deliver (empty deliverable)" }),
      m,
    )
unfolding deliver
deliver_empty m id r now = refl

-- Every refused call leaves the machine as it was.
pub refused_unchanged :
    (m : TaskMachine) (id : String) (now : ℕ) (e : TransitionError)
    → ((p : Params) → (create m p now).0 ≡ err e → (create m p now).1 ≡ m)
      × ((accept m id now).0 ≡ err e → (accept m id now).1 ≡ m)
      × ((d : String) (r : Option String)
          → (deliver m id d r now).0 ≡ err e
          → (deliver m id d r now).1 ≡ m)
      × ((r : String) → (fail m id r now).0 ≡ err e → (fail m id r now).1 ≡ m)
      × ((cancel m id now).0 ≡ err e → (cancel m id now).1 ≡ m)
      × ((forget m id).0 ≡ err e → (forget m id).1 ≡ m)
unfolding create accept deliver fail cancel forget transition
refused_unchanged m id now e = (
  (λ p h. ground arith),
  (λ h. ground arith),
  (λ d r h. ground arith),
  (λ r h. ground arith),
  (λ h. ground arith),
  (λ h. ground arith),
)
