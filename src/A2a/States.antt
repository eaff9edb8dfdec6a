-- ===== src/A2a/States.antt =====
-- packages/a2a/src/states.ts: task states, job statuses, and the mapping between them.
pub mod Laws
use square.Base.{
  ℕ, Bool, true, false, ◌≡◌, ◌↔◌, Option, none, some, List, [], ◌∷◌, nat_beq, arith, Eq, ◌==◌, any,
  ap, if◌then◌else◌, map, refl, inl, inr, ◌⊎◌, String,
}

pub data TaskState : Type 0 where
  submitted working delivered failed cancelled : TaskState

pub data JobStatus : Type 0 where
  open_job funded submitted_job completed rejected expired : JobStatus

pub data JobAction : Type 0 where
  set_budget fund submit complete reject claim_refund : JobAction

pub record StateMapping : Type 0 where
  pub task : TaskState
  pub expects : JobStatus
  pub provider_action : Option JobAction

-- Comparison by `===`, through the position in the declaration.
abbrev task_index : TaskState → ℕ
task_index submitted = 0
task_index working = 1
task_index delivered = 2
task_index failed = 3
task_index cancelled = 4

abbrev action_index : JobAction → ℕ
action_index set_budget = 0
action_index fund = 1
action_index submit = 2
action_index complete = 3
action_index reject = 4
action_index claim_refund = 5

abbrev pub status_code : JobStatus → ℕ
status_code open_job = 0
status_code funded = 1
status_code submitted_job = 2
status_code completed = 3
status_code rejected = 4
status_code expired = 5

abbrev pub task_beq : TaskState → TaskState → Bool
task_beq a b = nat_beq (task_index a) (task_index b)

abbrev pub action_beq : JobAction → JobAction → Bool
action_beq a b = nat_beq (action_index a) (action_index b)

abbrev pub status_beq : JobStatus → JobStatus → Bool
status_beq a b = nat_beq (status_code a) (status_code b)

pub task_beq_iff : (a b : TaskState) → (task_beq a b ≡ true) ↔ (a ≡ b)
task_beq_iff a b = ground arith

pub action_beq_iff : (a b : JobAction) → (action_beq a b ≡ true) ↔ (a ≡ b)
action_beq_iff a b = ground arith

-- `list.includes(x)`
abbrev pub includes {ℓ} : {A : Type ℓ} → (A → A → Bool) → List A → A → Bool
includes beq xs x = any (λ y. beq y x) xs

abbrev pub provider_job_actions : List JobAction
provider_job_actions = submit ∷ []

abbrev pub evaluator_only_job_actions : List JobAction
evaluator_only_job_actions = complete ∷ reject ∷ []

-- The table without its notes.
abbrev pub state_mapping : List StateMapping
state_mapping =
    record { task = submitted; expects = funded; provider_action = none }
    ∷ record { task = working; expects = funded; provider_action = none }
    ∷ record { task = delivered; expects = funded; provider_action = some submit }
    ∷ record { task = failed; expects = funded; provider_action = none }
    ∷ record { task = cancelled; expects = funded; provider_action = none }
    ∷ []

-- `STATE_MAPPING.find((m) => m.task === task)`
unfoldable pub find_row : List StateMapping → TaskState → Option StateMapping
find_row [] t = none
find_row (m ∷ ms) t = if task_beq m.task t then some m else find_row ms t

unfoldable pub provider_may_call : TaskState → JobAction → Bool
unfolding find_row
provider_may_call t a =
    if includes action_beq provider_job_actions a
    then (elim (find_row state_mapping t) [
      | none ↦ false
      | some row ↦ elim row.provider_action [ none ↦ false | some b ↦ action_beq b a ]
    ])
    else false

-- `none` where the code throws on an unknown state.
unfoldable pub expected_job_status : TaskState → Option JobStatus
unfolding find_row
expected_job_status t = elim (find_row state_mapping t) [
  | none ↦ none
  | some row ↦ some row.expects
]

abbrev pub terminal_task_states : List TaskState
terminal_task_states = delivered ∷ failed ∷ cancelled ∷ []

unfoldable pub is_terminal_task_state : TaskState → Bool
is_terminal_task_state t = includes task_beq terminal_task_states t

unfoldable pub is_disposable_task_state : TaskState → Bool
unfolding find_row is_terminal_task_state
is_disposable_task_state t =
    if is_terminal_task_state t
    then (elim (find_row state_mapping t) [
      | none ↦ false
      | some row ↦ elim row.provider_action [ none ↦ true | some b ↦ false ]
    ])
    else false

abbrev pub terminal_job_statuses : List JobStatus
terminal_job_statuses = completed ∷ rejected ∷ expired ∷ []

unfoldable pub is_terminal_job_status : JobStatus → Bool
is_terminal_job_status s = includes status_beq terminal_job_statuses s
