-- ===== src/A2a/Machine/Complete.antt =====
-- Records are complete whenever they are seen (packages/a2a/src/task-machine.ts).
use square.Base.{
  ℕ, ◌≡◌, inl, inr, false, Option, none, some, List, [], ◌∷◌, String, string_eq, arith, eq_iff,
  ◌==◌, Option-cases, Bool-cases, sym, ◌∙◌,
}
use square.Base.JsMap
use square.Base.JsMap.{JsMap, IsKeyed, get_self, get-set, get-delete, set-IsKeyed, delete-IsKeyed}
use square.A2a.States.{delivered, is_terminal_task_state}
use square.A2a.Machine.{
  TaskRecord, TaskMachine, Params, created, create, accept, deliver, fail, cancel, forget, get,
  write_deliverable, sweep, new_machine, moved,
}
use square.A2a.Machine.Transition.{Wf, IsComplete, transition-Wf, store-Wf}
use square.A2a.Machine.Sweep.{kept, sweep_lem, sweep-IsKeyed}
use square.A2a.Machine.Calls.{
  Call, create_call, accept_call, deliver_call, fail_call, cancel_call, forget_call, sweep_call,
  perform, perform_all,
}

create-Wf : (m : TaskMachine) (p : Params) (now : ℕ) → Wf m → Wf (create m p now).1
unfolding create
create-Wf m p now w = elim (Option-cases (JsMap.get p.id m.tasks)) [
  | inr (t, found) ↦ rw (found, create) w
  | inl missing ↦
      rw (missing, create)
        (store-Wf m p.id (created p now) none w ((λ e. ground arith), (λ e. ground arith)))
]

delivered-IsComplete :
    (d : String) (r : Option String) (now : ℕ) (t : TaskRecord)
    → (d == "") ≡ false
    → IsComplete (moved t delivered now (write_deliverable d r))
unfolding moved
delivered-IsComplete d none now t full = (λ e. (λ n. cc, λ n. ground (arith, eq_iff d "")), λ e. cc)
delivered-IsComplete d (some _) now t full =
    (λ e. (λ n. cc, λ n. ground (arith, eq_iff d "")), λ e. cc)

deliver-Wf :
    (m : TaskMachine) (id d : String) (r : Option String) (now : ℕ)
    → Wf m
    → Wf (deliver m id d r now).1
unfolding deliver
deliver-Wf m id d r now w = elim (Bool-cases (d == "")) [
  | inl empty ↦ rw empty w
  | inr full ↦
      rw full (transition-Wf m id _ _ _ _ now w (λ t c. delivered-IsComplete d r now t full))
]

-- Dropping entries keeps a machine well formed.
smaller-Wf :
    (m : TaskMachine) (tasks : JsMap String TaskRecord)
    → Wf m
    → IsKeyed tasks
    → ((id : String) (t : TaskRecord) → JsMap.get id tasks ≡ some t → JsMap.get id m.tasks ≡ some t)
    → Wf (record m { tasks = tasks })
smaller-Wf m tasks w k sub = record {
  keyed = k;
  complete = λ id t h. w.complete id t (sub id t h);
  heard = w.heard;
}

kept_sub :
    (before : ℕ) (o : Option TaskRecord) (t : TaskRecord) → kept before o ≡ some t → o ≡ some t
kept_sub before o t h = ground arith

sweep-Wf : (m : TaskMachine) (before : ℕ) → Wf m → Wf (sweep m before).1
unfolding sweep get
sweep-Wf m before w =
    smaller-Wf m _ w (sweep-IsKeyed m before w.keyed)
      (λ id t h. kept_sub before _ t (sym ((sweep_lem m before w.keyed).0 id) ∙ h))

forget-Wf : (m : TaskMachine) (id : String) → Wf m → Wf (forget m id).1
unfolding forget
forget-Wf m id w = elim (Option-cases (JsMap.get id m.tasks)) [
  | inl missing ↦ rw (missing, forget) w
  | inr (t, found) ↦ elim (Bool-cases (is_terminal_task_state t.state)) [
    | inr live ↦ rw (found, forget) (rw live w)
    | inl over ↦
        rw (found, forget)
          (rw over (
            smaller-Wf m _ w (delete-IsKeyed id m.tasks w.keyed)
              (λ j u h. ground (arith, get-delete id j m.tasks))))
  ]
]

-- Every task of a machine that starts empty is complete after any calls, and so was every task
-- that a listener heard of: a delivered one has a deliverable that is not empty, a failed one its
-- reason.
pub perform-Wf : (m : TaskMachine) (c : Call) (now : ℕ) → Wf m → Wf (perform m c now)
unfolding perform accept fail cancel moved
perform-Wf m (create_call p) now w = create-Wf m p now w
perform-Wf m (accept_call id) now w = transition-Wf m id _ _ _ _ now w (λ t c. (λ e. cc, λ e. cc))
perform-Wf m (deliver_call id d r) now w = deliver-Wf m id d r now w
perform-Wf m (fail_call id r) now w = transition-Wf m id _ _ _ _ now w (λ t c. (λ e. cc, λ e n. cc))
perform-Wf m (cancel_call id) now w = transition-Wf m id _ _ _ _ now w (λ t c. (λ e. cc, λ e. cc))
perform-Wf m (forget_call id) now w = forget-Wf m id w
perform-Wf m (sweep_call before) now w = sweep-Wf m before w

pub perform_all-Wf : (cs : List (Call × ℕ)) (m : TaskMachine) → Wf m → Wf (perform_all m cs)
unfolding perform_all
perform_all-Wf [] m w = w
perform_all-Wf ((c, now) ∷ cs) m w = perform_all-Wf cs (perform m c now) (perform-Wf m c now w)

-- Whatever calls a new machine takes, its task ids are distinct; every task in it, and every
-- record that a listener was handed, is complete: a delivered one has a deliverable that is not
-- empty, and a failed one its reason.
pub perform_all-new_machine : (cs : List (Call × ℕ)) → Wf (perform_all new_machine cs)
unfolding JsMap.get
perform_all-new_machine cs =
    perform_all-Wf cs new_machine (record { keyed = tt; complete = λ id t h. cc; heard = tt })
