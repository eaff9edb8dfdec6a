-- ===== src/Indexer/Apply/Written.antt =====
-- services/indexer/src/reducer.ts: what an event does to the entries of the ledger.
use square.Base.{ℕ, ◌≡◌, refl, ap, sym, subst, ◌∙◌, none, Text, text_eq, get_or, arith}
use square.Base.JsMap
use square.Base.JsMap.{get-set, IsKeyed, set-IsKeyed}
use square.Base.Int.{ℤ, pos, neg}
use square.Indexer.State.{Address, IndexerState, Ledger}
use square.Indexer.Events.{
  KernelEvent, job_created, job_described, provider_set, budget_set, job_funded, fees_snapshotted,
  job_submitted, submission_timed, job_completed, payout_routed, job_rejected, job_expired,
  payout_unresolvable, hook_failed_event, payment_released, refunded, evaluator_fee_paid,
  platform_fee_accrued, withdrawn, ArbitrationEvent, arbiters_updated, dispute_opened, vote_cast,
  decision_reached, bond_settled, bond_withdrawn, EventBody, kernel, keeper, arbitration, market,
  hook, compliance, SquareEvent,
}
use square.Indexer.Reducer.{
  LedgerContract, square_job, arbitration_ledger, ledger_key, credit, quiet, notify, apply_kernel,
}
use square.Indexer.Apply.{apply_arbitration, apply_body, apply_event}
use square.Indexer.Apply.After.{after, on_job-ledger, on_dispute-ledger, close_dispute-ledger}
use square.Indexer.Apply.Ledger.{
  keeper-ledger, market-ledger, hook-ledger, module-ledger, on_submission-ledger,
}

-- A ledger that an event leaves, or writes one entry of.
pub data Written (old new : Ledger) : Type 0 where
  left : new ≡ old → Written old new
  written : (key : Text) (amount : ℤ) → new ≡ JsMap.set key amount old → Written old new

credit-Written :
    (s : IndexerState) (contract : LedgerContract) (account : Address) (delta : ℤ)
    → Written s.ledger (credit s contract account delta).ledger
unfolding credit
credit-Written s contract account delta = written (ledger_key contract account) _ refl

kernel-Written :
    (s : IndexerState) (e : KernelEvent) (block : ℕ)
    → Written s.ledger (after s (apply_kernel s e block)).ledger
unfolding after apply_kernel quiet notify
kernel-Written s (job_created a b c d e f) block = left refl
kernel-Written s (job_described a b c) block = left (on_job-ledger s a block _)
kernel-Written s (provider_set a b) block = left (on_job-ledger s a block _)
kernel-Written s (budget_set a b) block = left (on_job-ledger s a block _)
kernel-Written s (job_funded a b) block = left (on_job-ledger s a block _)
kernel-Written s (fees_snapshotted a b c d) block = left (on_job-ledger s a block _)
kernel-Written s (job_submitted a b) block = left (on_job-ledger s a block _)
kernel-Written s (submission_timed a b c) block = left (on_submission-ledger s a b c block)
kernel-Written s (job_completed a b) block = left (on_job-ledger s a block _)
kernel-Written s (payout_routed a b c) block = left (on_job-ledger s a block _)
kernel-Written s (job_rejected a b) block = left (on_job-ledger s a block _)
kernel-Written s (job_expired a) block = left (on_job-ledger s a block _)
kernel-Written s (payout_unresolvable a) block = left (on_job-ledger s a block _)
kernel-Written s (hook_failed_event a b c) block = left refl
kernel-Written s (payment_released a b) block = credit-Written s square_job a (pos b)
kernel-Written s (refunded a b) block = credit-Written s square_job a (pos b)
kernel-Written s (evaluator_fee_paid a b) block = credit-Written s square_job a (pos b)
kernel-Written s (platform_fee_accrued a b) block = credit-Written s square_job a (pos b)
kernel-Written s (withdrawn a b) block = credit-Written s square_job a (neg b)
kernel-Written s KernelEvent.other block = left refl

arbitration-Written :
    (s : IndexerState) (e : ArbitrationEvent) (block : ℕ)
    → Written s.ledger (after s (apply_arbitration s e block)).ledger
unfolding after apply_arbitration quiet
arbitration-Written s (arbiters_updated a b c) block = left refl
arbitration-Written s (dispute_opened a b c d e f) block = left refl
arbitration-Written s (vote_cast a b c) block = left (on_dispute-ledger s a block _)
arbitration-Written s (decision_reached a b c) block = left (on_dispute-ledger s a block _)
arbitration-Written s (bond_settled a b c) block =
    subst (Written s.ledger)
      (sym (close_dispute-ledger (credit s arbitration_ledger b (pos c)) a block))
      (credit-Written s arbitration_ledger b (pos c))
arbitration-Written s (bond_withdrawn a b) block = credit-Written s arbitration_ledger a (neg b)
arbitration-Written s ArbitrationEvent.other block = left refl

body-Written :
    (s : IndexerState) (b : EventBody) (block : ℕ)
    → Written s.ledger (after s (apply_body s b block)).ledger
unfolding apply_body
body-Written s (kernel e) block = kernel-Written s e block
body-Written s (keeper e) block = left (keeper-ledger s e block)
body-Written s (arbitration e) block = arbitration-Written s e block
body-Written s (market e) block = left (market-ledger s e block)
body-Written s (hook e) block = left (hook-ledger s e block)
body-Written s (compliance e) block = left (module-ledger s e)

pub event-Written :
    (s : IndexerState) (e : SquareEvent) → Written s.ledger (after s (apply_event s e)).ledger
unfolding apply_event
event-Written s e = body-Written s e.body (get_or e.block_number 0)

-- No entry is lost.
pub Written-kept :
    (key : Text) (old new : Ledger)
    → Written old new
    → JsMap.get key new ≡ none
    → JsMap.get key old ≡ none
Written-kept key old new (left same) gone = ap (JsMap.get key) (sym same) ∙ gone
Written-kept key old new (written k amount same) gone = ground (arith, get-set k key amount old)

pub Written-IsKeyed : (old new : Ledger) → Written old new → IsKeyed old → IsKeyed new
Written-IsKeyed old new (left same) keyed = subst IsKeyed (sym same) keyed
Written-IsKeyed old new (written k amount same) keyed =
    subst IsKeyed (sym same) (set-IsKeyed k amount old keyed)
