-- ===== src/A2a/Machine/Transition.antt =====
-- One transition of the task machine (packages/a2a/src/task-machine.ts, `transition`).
use square.Base.{
  ◌∙◌, ℕ, ◌≡◌, ◌≢◌, ◌⊎◌, inl, inr, true, false, Option, none, some, List, [], ◌∷◌, String,
  string_eq, arith, eq_iff, ◌==◌, Option-cases, Bool-cases, All, All-append, subst, some_eq,
  some_eq,
}
use square.Base.JsMap
use square.Base.JsMap.{JsMap, IsKeyed, get_self, get-set, get-delete, set-IsKeyed, delete-IsKeyed}
use square.A2a.States.{
  TaskState, submitted, working, delivered, failed, cancelled, includes, task_beq,
  is_terminal_task_state,
}
use square.A2a.Machine.{
  moved, store, Outcome, TaskRecord, TaskMachine, TransitionError, err, transition, get,
}

-- The diagram of the module's header comment.
pub data Edge : TaskState → TaskState → Type 0 where
  accepts : Edge submitted working
  delivers : Edge working delivered
  fails_working : Edge working failed
  fails_submitted : Edge submitted failed
  cancels : Edge submitted cancelled

-- How the record under one id may change.
pub data Moves (before after : Option TaskRecord) : Type 0 where
  stays : after ≡ before → Moves before after
  born :
      (t : TaskRecord) → before ≡ none → after ≡ some t → t.state ≡ submitted → Moves before after
  steps :
      (t u : TaskRecord)
      → before ≡ some t
      → after ≡ some u
      → Edge t.state u.state
      → u.id ≡ t.id
      → u.job_id ≡ t.job_id
      → Moves before after
  dropped :
      (t : TaskRecord)
      → before ≡ some t
      → after ≡ none
      → is_terminal_task_state t.state ≡ true
      → Moves before after

-- A delivered task has its deliverable, and a failed one its reason.
abbrev pub IsComplete : TaskRecord → Type 0
IsComplete t =
    (t.state ≡ delivered → (t.deliverable ≢ none) × (t.deliverable ≢ some ""))
    × (t.state ≡ failed → t.reason ≢ none)

pub record Wf (m : TaskMachine) : Type 0 where
  pub keyed : IsKeyed m.tasks
  pub complete : (id : String) (t : TaskRecord) → JsMap.get id m.tasks ≡ some t → IsComplete t
  pub heard : All (λ n. IsComplete n.0) m.emitted

-- A complete record may be stored and announced.
pub store-Wf :
    (m : TaskMachine) (id : String) (u : TaskRecord) (previous : Option TaskState)
    → Wf m
    → IsComplete u
    → Wf (store m id u previous)
unfolding store
store-Wf m id u previous w c = record {
  keyed = set-IsKeyed id u m.tasks w.keyed;
  complete = λ j t e. elim (Bool-cases (id == j)) [
    | inl same ↦
        let f : some u ≡ some t = ground (arith, get-set id j u m.tasks) in
        subst IsComplete (some_eq f) c
    | inr other ↦ w.complete j t (ground (arith, get-set id j u m.tasks))
  ];
  heard = All-append (λ n. IsComplete n.0) m.emitted ((u, previous) ∷ []) w.heard (c, tt);
}

-- What `apply` leaves alone.
abbrev pub Keeps : (TaskRecord → TaskRecord) → Type 0
Keeps apply =
    (t : TaskRecord)
    → ((apply t).state ≡ t.state) × ((apply t).id ≡ t.id) × ((apply t).job_id ≡ t.job_id)

abbrev pub Allows : List TaskState → TaskState → Type 0
Allows from to = (s : TaskState) → includes task_beq from s ≡ true → Edge s to

module _ (m : TaskMachine) (id : String) (from : List TaskState) (to : TaskState)
    (attempted : String) (apply : TaskRecord → TaskRecord) (now : ℕ) where
  abbrev outcome : Outcome
  outcome = transition m id from to attempted apply now

  pub transition-error : (e : TransitionError) → outcome.0 ≡ err e → outcome.1 ≡ m
  unfolding transition
  transition-error e h = ground arith

  transition-get_ne : (j : String) → (id == j) ≡ false → get outcome.1 j ≡ get m j
  unfolding transition get
  transition-get_ne j h = elim (Option-cases (JsMap.get id m.tasks)) [
    | inl missing ↦ ground arith
    | inr (t, found) ↦ ground (arith, get-set id j (moved t to now apply) m.tasks)
  ]

  transition-Moves : Allows from to → Keeps apply → Moves (get m id) (get outcome.1 id)
  unfolding transition get
  transition-Moves allows keeps = elim (Option-cases (JsMap.get id m.tasks)) [
    | inl missing ↦ stays (ground arith)
    | inr (t, found) ↦
        let u : TaskRecord = moved t to now apply in
        let w = record t { state = to; updated_at = now } in
        elim (Bool-cases (includes task_beq from t.state)) [
          | inl allowed ↦
              steps t u found (ground (arith, get_self id u m.tasks))
                (rw ((keeps w).0) (allows t.state allowed)) (keeps w).1 (keeps w).2
          | inr barred ↦ stays (ground arith)
        ]
  ]

  pub transition-Moves_at :
      Allows from to → Keeps apply → (j : String) → Moves (get m j) (get outcome.1 j)
  transition-Moves_at allows keeps j = elim (Bool-cases (id == j)) [
    | inl same ↦
        subst (λ k. Moves (get m k) (get outcome.1 k)) ((eq_iff id j).0 same)
          (transition-Moves allows keeps)
    | inr other ↦ stays (transition-get_ne j other)
  ]

  -- A task that may not take this transition is left as it is.
  pub transition_barred :
      (j : String) (t : TaskRecord)
      → get m j ≡ some t
      → includes task_beq from t.state ≡ false
      → get outcome.1 j ≡ some t
  transition_barred j t h barred = elim (Bool-cases (id == j)) [
    | inr other ↦ transition-get_ne j other ∙ h
    | inl same ↦ unfold transition get in ground (arith, eq_iff id j)
  ]

  transition-state :
      (outcome.1 ≡ m)
      ⊎ ((t : TaskRecord) × (JsMap.get id m.tasks ≡ some t)
          × (outcome.1 ≡ store m id (moved t to now apply) (some t.state)))
  unfolding transition
  transition-state = elim (Option-cases (JsMap.get id m.tasks)) [
    | inl missing ↦ inl (ground arith)
    | inr (t, found) ↦ elim (Bool-cases (includes task_beq from t.state)) [
      | inl allowed ↦ inr (t, found, ground arith)
      | inr barred ↦ inl (ground arith)
    ]
  ]

  pub transition-Wf :
      Wf m → ((t : TaskRecord) → IsComplete t → IsComplete (moved t to now apply)) → Wf outcome.1
  transition-Wf w keeps = elim transition-state [
    | inl same ↦ rw same w
    | inr (t, found, e) ↦
        rw e
          (store-Wf m id (moved t to now apply) (some t.state) w (keeps t (w.complete id t found)))
  ]
