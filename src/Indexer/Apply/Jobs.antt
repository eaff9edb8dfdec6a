-- ===== src/Indexer/Apply/Jobs.antt =====
-- A job stays in the state of services/indexer/src/reducer.ts, under its own id.
use square.Base.{
  ℕ, ◌≡◌, ◌≢◌, refl, sym, ◌∙◌, ap, subst, none, some, List, [], ◌∷◌, inl, inr, Option-cases,
  Bool-cases, ◌==◌, arith, nat_eq, nat_beq_iff, get_or,
}
use square.Base.JsMap
use square.Base.JsMap.{get-set}
use square.Indexer.State.{JobState, IndexerState}
use square.Indexer.Events.{
  KernelEvent, job_created, job_described, provider_set, budget_set, job_funded, fees_snapshotted,
  job_submitted, submission_timed, job_completed, payout_routed, job_rejected, job_expired,
  payout_unresolvable, hook_failed_event, payment_released, refunded, evaluator_fee_paid,
  platform_fee_accrued, withdrawn, KeeperEvent, windows_configured, dispute_raised,
  decision_applied, ArbitrationEvent, arbiters_updated, dispute_opened, vote_cast, decision_reached,
  bond_settled, bond_withdrawn, MarketEvent, claim_listed, claim_bought, claim_cancelled, HookEvent,
  reputation_write_failed_event, validation_write_failed_event, release_unconfirmed_event,
  agent_bound, ModuleEvent, EventBody, kernel, keeper, arbitration, market, hook, compliance,
  SquareEvent,
}
use square.Indexer.Reducer.{
  credit, quiet, notify, submission, timed, new_job, on_job, apply_kernel, close_dispute,
  arbitration_ledger,
}
use square.Base.Int.{pos}
use square.Indexer.Apply.{
  apply_keeper, apply_arbitration, apply_market, apply_hook, apply_module, apply_body, apply_event,
  reduce,
}
use square.Indexer.Apply.After.{
  after, First-cases, stopped, went, on_dispute-jobs, on_listing-jobs, close_dispute-jobs,
}

-- Every job is under its id.
abbrev pub IsIndexed : IndexerState → Type 0
IsIndexed s = (id : ℕ) (j : JobState) → JsMap.get id s.jobs ≡ some j → j.job_id ≡ id

-- What an event does to the jobs.
data JobsStep (s next : IndexerState) : Type 0 where
  same : next.jobs ≡ s.jobs → JobsStep s next
  wrote :
      (id : ℕ) (j : JobState)
      → next.jobs ≡ JsMap.set id j s.jobs
      → (IsIndexed s → j.job_id ≡ id)
      → JobsStep s next

on_job-JobsStep :
    (s t : IndexerState) (id block : ℕ) (f : JobState → JobState)
    → t.jobs ≡ s.jobs
    → ((j : JobState) → (f j).job_id ≡ j.job_id)
    → JobsStep s (after s (on_job t id block f))
unfolding after on_job
on_job-JobsStep s t id block f unchanged keeps = elim (Option-cases (JsMap.get id t.jobs)) [
  | inl missing ↦ same (ground arith)
  | inr (j, found) ↦
      wrote id (record (f j) { updated_block = block }) (ground arith)
        (λ indexed. keeps j ∙ indexed id j (ap (JsMap.get id) (sym unchanged) ∙ found))
]

submission-JobsStep :
    (s : IndexerState) (id submitted_at expired_at block : ℕ)
    → JobsStep s (after s (submission s id submitted_at expired_at block))
unfolding after submission
submission-JobsStep s id submitted_at expired_at block = elim (Option-cases (JsMap.get id s.jobs)) [
  | inl missing ↦ same (ground arith)
  | inr (j, found) ↦
      wrote id (record (timed s.windows submitted_at expired_at j) { updated_block = block })
        (ground arith) (λ indexed. indexed id j found)
]

kernel-JobsStep :
    (s : IndexerState) (e : KernelEvent) (block : ℕ) → JobsStep s (after s (apply_kernel s e block))
unfolding after apply_kernel quiet notify credit new_job
kernel-JobsStep s (job_created a b c d e f) block = wrote a _ refl (λ indexed. refl)
kernel-JobsStep s (job_described a b c) block = on_job-JobsStep s s a block _ refl (λ j. refl)
kernel-JobsStep s (provider_set a b) block = on_job-JobsStep s s a block _ refl (λ j. refl)
kernel-JobsStep s (budget_set a b) block = on_job-JobsStep s s a block _ refl (λ j. refl)
kernel-JobsStep s (job_funded a b) block = on_job-JobsStep s s a block _ refl (λ j. refl)
kernel-JobsStep s (fees_snapshotted a b c d) block = on_job-JobsStep s s a block _ refl (λ j. refl)
kernel-JobsStep s (job_submitted a b) block = on_job-JobsStep s s a block _ refl (λ j. refl)
kernel-JobsStep s (submission_timed a b c) block = submission-JobsStep s a b c block
kernel-JobsStep s (job_completed a b) block = on_job-JobsStep s s a block _ refl (λ j. refl)
kernel-JobsStep s (payout_routed a b c) block = on_job-JobsStep s s a block _ refl (λ j. refl)
kernel-JobsStep s (job_rejected a b) block = on_job-JobsStep s s a block _ refl (λ j. refl)
kernel-JobsStep s (job_expired a) block = on_job-JobsStep s s a block _ refl (λ j. refl)
kernel-JobsStep s (payout_unresolvable a) block = on_job-JobsStep s s a block _ refl (λ j. refl)
kernel-JobsStep s (hook_failed_event a b c) block = same refl
kernel-JobsStep s (payment_released a b) block = same refl
kernel-JobsStep s (refunded a b) block = same refl
kernel-JobsStep s (evaluator_fee_paid a b) block = same refl
kernel-JobsStep s (platform_fee_accrued a b) block = same refl
kernel-JobsStep s (withdrawn a b) block = same refl
kernel-JobsStep s KernelEvent.other block = same refl

arbitration-jobs :
    (s : IndexerState) (e : ArbitrationEvent) (block : ℕ)
    → (after s (apply_arbitration s e block)).jobs ≡ s.jobs
unfolding after apply_arbitration quiet credit
arbitration-jobs s (arbiters_updated a b c) block = refl
arbitration-jobs s (dispute_opened a b c d e f) block = refl
arbitration-jobs s (vote_cast a b c) block = on_dispute-jobs s a block _
arbitration-jobs s (decision_reached a b c) block = on_dispute-jobs s a block _
arbitration-jobs s (bond_settled a b c) block =
    close_dispute-jobs (credit s arbitration_ledger b (pos c)) a block
arbitration-jobs s (bond_withdrawn a b) block = refl
arbitration-jobs s ArbitrationEvent.other block = refl

keeper-JobsStep :
    (s : IndexerState) (e : KeeperEvent) (block : ℕ) → JobsStep s (after s (apply_keeper s e block))
unfolding after apply_keeper quiet
keeper-JobsStep s (windows_configured a b c) block = same refl
keeper-JobsStep s (dispute_raised a) block = on_job-JobsStep s s a block _ refl (λ j. refl)
keeper-JobsStep s (decision_applied a) block =
    on_job-JobsStep s (close_dispute s a block) a block _ (close_dispute-jobs s a block) (λ j. refl)
keeper-JobsStep s KeeperEvent.other block = same refl

market-jobs :
    (s : IndexerState) (e : MarketEvent) (block : ℕ)
    → (after s (apply_market s e block)).jobs ≡ s.jobs
unfolding after apply_market quiet
market-jobs s (claim_listed a b c d) block = refl
market-jobs s (claim_bought a b) block = on_listing-jobs s a _ _
market-jobs s (claim_cancelled a) block = on_listing-jobs s a _ _
market-jobs s MarketEvent.other block = refl

hook-JobsStep :
    (s : IndexerState) (e : HookEvent) (block : ℕ) → JobsStep s (after s (apply_hook s e block))
unfolding after apply_hook quiet notify
hook-JobsStep s (reputation_write_failed_event a b) block = same refl
hook-JobsStep s (validation_write_failed_event a b) block = same refl
hook-JobsStep s (release_unconfirmed_event a b c) block = same refl
hook-JobsStep s (agent_bound a b) block = on_job-JobsStep s s a block _ refl (λ j. refl)
hook-JobsStep s HookEvent.other block = same refl

module-jobs : (s : IndexerState) (e : ModuleEvent) → (after s (apply_module s e)).jobs ≡ s.jobs
unfolding after apply_module quiet notify
module-jobs s e = ground arith

body-JobsStep :
    (s : IndexerState) (b : EventBody) (block : ℕ) → JobsStep s (after s (apply_body s b block))
unfolding apply_body
body-JobsStep s (kernel e) block = kernel-JobsStep s e block
body-JobsStep s (keeper e) block = keeper-JobsStep s e block
body-JobsStep s (arbitration e) block = same (arbitration-jobs s e block)
body-JobsStep s (market e) block = same (market-jobs s e block)
body-JobsStep s (hook e) block = hook-JobsStep s e block
body-JobsStep s (compliance e) block = same (module-jobs s e)

event-JobsStep :
    (s next : IndexerState) (e : SquareEvent) → after s (apply_event s e) ≡ next → JobsStep s next
unfolding apply_event
event-JobsStep s next e eq =
    subst (λ q. JobsStep s q) eq (body-JobsStep s e.body (get_or e.block_number 0))

JobsStep-IsIndexed : (s next : IndexerState) → JobsStep s next → IsIndexed s → IsIndexed next
JobsStep-IsIndexed s next (same eq) indexed =
    λ id j found. indexed id j (ap (JsMap.get id) (sym eq) ∙ found)
JobsStep-IsIndexed s next (wrote k v eq own) indexed = λ id j found. elim (Bool-cases (k == id)) [
  | inl here ↦ ground (arith, eq, own indexed, nat_beq_iff k id, get-set k id v s.jobs)
  | inr elsewhere ↦ indexed id j (ground (arith, eq, get-set k id v s.jobs))
]

JobsStep-known :
    (s next : IndexerState) (id : ℕ)
    → JobsStep s next
    → JsMap.get id s.jobs ≢ none
    → JsMap.get id next.jobs ≢ none
JobsStep-known s next id (same eq) known = λ gone. known (ap (JsMap.get id) (sym eq) ∙ gone)
JobsStep-known s next id (wrote k v eq own) known =
    λ gone. ground (arith, eq, get-set k id v s.jobs)

-- A run of events, also one that throws, leaves every job under its own id.
pub reduce-IsIndexed :
    (es : List SquareEvent) (s : IndexerState) → IsIndexed s → IsIndexed (reduce es s).state
unfolding reduce
reduce-IsIndexed [] s indexed = indexed
reduce-IsIndexed (e ∷ es) s indexed = elim (First-cases e es s) [
  | stopped x eq stays threw_x ↦ subst IsIndexed (sym stays) indexed
  | went next eq quiet_eq goes thrown_same ↦
      subst IsIndexed (sym goes)
        (reduce-IsIndexed es next (JobsStep-IsIndexed s next (event-JobsStep s next e eq) indexed))
]

-- A job that the state knows is never forgotten by a run of events.
pub reduce-known :
    (es : List SquareEvent) (s : IndexerState) (id : ℕ)
    → JsMap.get id s.jobs ≢ none
    → JsMap.get id (reduce es s).state.jobs ≢ none
unfolding reduce
reduce-known [] s id known = known
reduce-known (e ∷ es) s id known = elim (First-cases e es s) [
  | stopped x eq stays threw_x ↦ subst (λ t. JsMap.get id t.jobs ≢ none) (sym stays) known
  | went next eq quiet_eq goes thrown_same ↦
      subst (λ t. JsMap.get id t.jobs ≢ none) (sym goes)
        (reduce-known es next id (JobsStep-known s next id (event-JobsStep s next e eq) known))
]
