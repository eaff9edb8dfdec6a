-- ===== src/A2a/States/Laws.antt =====
-- What a provider may do on chain, state by state (packages/a2a/src/states.ts).
use square.Base.{◌≡◌, ◌↔◌, true, false, arith}
use square.A2a.States.{
  TaskState, JobAction, submitted, working, delivered, failed, cancelled, submit, provider_may_call,
  is_terminal_task_state, is_disposable_task_state,
}

-- The only call that a provider may make in any state is `submit`, and only in DELIVERED.
pub provider_may_call_iff :
    (t : TaskState) (a : JobAction)
    → (provider_may_call t a ≡ true) ↔ ((t ≡ delivered) × (a ≡ submit))
unfolding provider_may_call
provider_may_call_iff t a = (λ h. ground arith, λ h. ground arith)

-- The record of a task may be dropped unasked exactly when the task is terminal and its state
-- authorises no call of the provider's at all.
pub is_disposable_iff :
    (t : TaskState)
    → (is_disposable_task_state t ≡ true)
      ↔ ((is_terminal_task_state t ≡ true) × ((a : JobAction) → provider_may_call t a ≡ false))
unfolding is_disposable_task_state provider_may_call is_terminal_task_state
is_disposable_iff submitted = (λ h. ground arith, λ h. ground arith)
is_disposable_iff working = (λ h. ground arith, λ h. ground arith)
is_disposable_iff delivered = (λ h. ground arith, λ h. ground (arith, h.1 submit))
is_disposable_iff failed = (λ h. (ground arith, λ a. ground arith), λ h. ground arith)
is_disposable_iff cancelled = (λ h. (ground arith, λ a. ground arith), λ h. ground arith)
