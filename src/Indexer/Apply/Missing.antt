-- ===== src/Indexer/Apply/Missing.antt =====
-- What services/indexer/src/reducer.ts throws on an event.
use square.Base.{ℕ, ◌≡◌, refl, Option, none, some, arith, nat_eq, get_or}
use square.Base.JsMap
use square.Indexer.State.{
  JobState, DisputeState, ListingState, IndexerState, ReducerError, unknown_job, unknown_dispute,
  unlisted_purchase, unlisted_cancellation,
}
use square.Indexer.Events.{
  KernelEvent, job_created, job_described, provider_set, budget_set, job_funded, fees_snapshotted,
  job_submitted, submission_timed, job_completed, payout_routed, job_rejected, job_expired,
  payout_unresolvable, hook_failed_event, payment_released, refunded, evaluator_fee_paid,
  platform_fee_accrued, withdrawn, KeeperEvent, windows_configured, dispute_raised,
  decision_applied, ArbitrationEvent, arbiters_updated, dispute_opened, vote_cast, decision_reached,
  bond_settled, bond_withdrawn, MarketEvent, claim_listed, claim_bought, claim_cancelled, HookEvent,
  reputation_write_failed_event, validation_write_failed_event, release_unconfirmed_event,
  agent_bound, ModuleEvent, EventBody, kernel, keeper, arbitration, market, hook, compliance,
  SquareEvent,
}
use square.Indexer.Reducer.{
  quiet, notify, submission, on_job, on_dispute, apply_kernel, close_dispute,
}
use square.Indexer.Apply.{
  apply_keeper, apply_arbitration, apply_market, apply_hook, apply_module, apply_body, apply_event,
  on_listing,
}
use square.Indexer.Apply.After.{threw, close_dispute-jobs}

-- What an event needs in the state: nothing, or the entry it writes to.
pub data Need : Type 0 where
  nothing : Need
  job_entry dispute_entry : ℕ → Need
  listing_entry : ℕ → ReducerError → Need

unfoldable pub kernel_need : KernelEvent → Need
kernel_need (job_described a b c) = job_entry a
kernel_need (provider_set a b) = job_entry a
kernel_need (budget_set a b) = job_entry a
kernel_need (job_funded a b) = job_entry a
kernel_need (fees_snapshotted a b c d) = job_entry a
kernel_need (job_submitted a b) = job_entry a
kernel_need (submission_timed a b c) = job_entry a
kernel_need (job_completed a b) = job_entry a
kernel_need (payout_routed a b c) = job_entry a
kernel_need (job_rejected a b) = job_entry a
kernel_need (job_expired a) = job_entry a
kernel_need (payout_unresolvable a) = job_entry a
kernel_need e = nothing

unfoldable pub keeper_need : KeeperEvent → Need
keeper_need (dispute_raised a) = job_entry a
keeper_need (decision_applied a) = job_entry a
keeper_need e = nothing

unfoldable pub arbitration_need : ArbitrationEvent → Need
arbitration_need (vote_cast a b c) = dispute_entry a
arbitration_need (decision_reached a b c) = dispute_entry a
arbitration_need e = nothing

unfoldable pub market_need : MarketEvent → Need
market_need (claim_bought a b) = listing_entry a (unlisted_purchase a)
market_need (claim_cancelled a) = listing_entry a (unlisted_cancellation a)
market_need e = nothing

unfoldable pub hook_need : HookEvent → Need
hook_need (agent_bound a b) = job_entry a
hook_need e = nothing

unfoldable pub need : EventBody → Need
need (kernel e) = kernel_need e
need (keeper e) = keeper_need e
need (arbitration e) = arbitration_need e
need (market e) = market_need e
need (hook e) = hook_need e
need (compliance e) = nothing

absent {ℓ} : {A : Type ℓ} → ReducerError → Option A → Option ReducerError
absent x none = some x
absent x (some a) = none

unfoldable pub missing : IndexerState → Need → Option ReducerError
unfolding absent
missing s nothing = none
missing s (job_entry id) = absent (unknown_job id) (JsMap.get id s.jobs)
missing s (dispute_entry id) = absent (unknown_dispute id) (JsMap.get id s.disputes)
missing s (listing_entry id x) = absent x (JsMap.get id s.listings)

threw-on_job :
    (s t : IndexerState) (id block : ℕ) (f : JobState → JobState)
    → t.jobs ≡ s.jobs
    → threw (on_job t id block f) ≡ missing s (job_entry id)
unfolding threw on_job missing absent
threw-on_job s t id block f unchanged = ground arith

threw-submission :
    (s : IndexerState) (id submitted_at expired_at block : ℕ)
    → threw (submission s id submitted_at expired_at block) ≡ missing s (job_entry id)
unfolding threw submission missing absent
threw-submission s id submitted_at expired_at block = ground arith

threw-on_dispute :
    (s : IndexerState) (id block : ℕ) (f : DisputeState → DisputeState)
    → threw (on_dispute s id block f) ≡ missing s (dispute_entry id)
unfolding threw on_dispute missing absent
threw-on_dispute s id block f = ground arith

threw-on_listing :
    (s : IndexerState) (id : ℕ) (x : ReducerError) (f : ListingState → ListingState)
    → threw (on_listing s id x f) ≡ missing s (listing_entry id x)
unfolding threw on_listing missing absent quiet
threw-on_listing s id x f = ground arith

threw-apply_kernel :
    (s : IndexerState) (e : KernelEvent) (block : ℕ)
    → threw (apply_kernel s e block) ≡ missing s (kernel_need e)
unfolding threw apply_kernel quiet notify kernel_need missing
threw-apply_kernel s (job_created a b c d e f) block = refl
threw-apply_kernel s (job_described a b c) block = threw-on_job s s a block _ refl
threw-apply_kernel s (provider_set a b) block = threw-on_job s s a block _ refl
threw-apply_kernel s (budget_set a b) block = threw-on_job s s a block _ refl
threw-apply_kernel s (job_funded a b) block = threw-on_job s s a block _ refl
threw-apply_kernel s (fees_snapshotted a b c d) block = threw-on_job s s a block _ refl
threw-apply_kernel s (job_submitted a b) block = threw-on_job s s a block _ refl
threw-apply_kernel s (submission_timed a b c) block = threw-submission s a b c block
threw-apply_kernel s (job_completed a b) block = threw-on_job s s a block _ refl
threw-apply_kernel s (payout_routed a b c) block = threw-on_job s s a block _ refl
threw-apply_kernel s (job_rejected a b) block = threw-on_job s s a block _ refl
threw-apply_kernel s (job_expired a) block = threw-on_job s s a block _ refl
threw-apply_kernel s (payout_unresolvable a) block = threw-on_job s s a block _ refl
threw-apply_kernel s (hook_failed_event a b c) block = refl
threw-apply_kernel s (payment_released a b) block = refl
threw-apply_kernel s (refunded a b) block = refl
threw-apply_kernel s (evaluator_fee_paid a b) block = refl
threw-apply_kernel s (platform_fee_accrued a b) block = refl
threw-apply_kernel s (withdrawn a b) block = refl
threw-apply_kernel s KernelEvent.other block = refl

threw-apply_keeper :
    (s : IndexerState) (e : KeeperEvent) (block : ℕ)
    → threw (apply_keeper s e block) ≡ missing s (keeper_need e)
unfolding threw apply_keeper quiet keeper_need missing
threw-apply_keeper s (windows_configured a b c) block = refl
threw-apply_keeper s (dispute_raised a) block = threw-on_job s s a block _ refl
threw-apply_keeper s (decision_applied a) block =
    threw-on_job s (close_dispute s a block) a block _ (close_dispute-jobs s a block)
threw-apply_keeper s KeeperEvent.other block = refl

threw-apply_arbitration :
    (s : IndexerState) (e : ArbitrationEvent) (block : ℕ)
    → threw (apply_arbitration s e block) ≡ missing s (arbitration_need e)
unfolding threw apply_arbitration quiet arbitration_need missing
threw-apply_arbitration s (arbiters_updated a b c) block = refl
threw-apply_arbitration s (dispute_opened a b c d e f) block = refl
threw-apply_arbitration s (vote_cast a b c) block = threw-on_dispute s a block _
threw-apply_arbitration s (decision_reached a b c) block = threw-on_dispute s a block _
threw-apply_arbitration s (bond_settled a b c) block = refl
threw-apply_arbitration s (bond_withdrawn a b) block = refl
threw-apply_arbitration s ArbitrationEvent.other block = refl

threw-apply_market :
    (s : IndexerState) (e : MarketEvent) (block : ℕ)
    → threw (apply_market s e block) ≡ missing s (market_need e)
unfolding threw apply_market quiet market_need missing
threw-apply_market s (claim_listed a b c d) block = refl
threw-apply_market s (claim_bought a b) block = threw-on_listing s a _ _
threw-apply_market s (claim_cancelled a) block = threw-on_listing s a _ _
threw-apply_market s MarketEvent.other block = refl

threw-apply_hook :
    (s : IndexerState) (e : HookEvent) (block : ℕ)
    → threw (apply_hook s e block) ≡ missing s (hook_need e)
unfolding threw apply_hook quiet notify hook_need missing
threw-apply_hook s (reputation_write_failed_event a b) block = refl
threw-apply_hook s (validation_write_failed_event a b) block = refl
threw-apply_hook s (release_unconfirmed_event a b c) block = refl
threw-apply_hook s (agent_bound a b) block = threw-on_job s s a block _ refl
threw-apply_hook s HookEvent.other block = refl

threw-apply_module : (s : IndexerState) (e : ModuleEvent) → threw (apply_module s e) ≡ none
unfolding threw apply_module quiet notify
threw-apply_module s e = ground arith

threw-apply_body :
    (s : IndexerState) (b : EventBody) (block : ℕ)
    → threw (apply_body s b block) ≡ missing s (need b)
unfolding apply_body need missing
threw-apply_body s (kernel e) block = threw-apply_kernel s e block
threw-apply_body s (keeper e) block = threw-apply_keeper s e block
threw-apply_body s (arbitration e) block = threw-apply_arbitration s e block
threw-apply_body s (market e) block = threw-apply_market s e block
threw-apply_body s (hook e) block = threw-apply_hook s e block
threw-apply_body s (compliance e) block = threw-apply_module s e

-- An event throws exactly when the job, the dispute or the listing that it writes to is not in the
-- state, and what it throws names that entry; every other event succeeds.
pub threw-apply_event :
    (s : IndexerState) (e : SquareEvent) → threw (apply_event s e) ≡ missing s (need e.body)
unfolding apply_event
threw-apply_event s e = threw-apply_body s e.body (get_or e.block_number 0)
