-- ===== src/Indexer/Apply/Ledger.antt =====
-- The ledger of services/indexer/src/reducer.ts is the sum of what the events moved.
use square.Base.{
  ℕ, ◌≡◌, refl, ap, sym, ◌∙◌, none, List, [], ◌∷◌, Text, text_beq, text_beq_iff, text_eq, get_or,
  if◌then◌else◌, arith,
}
use square.Base.JsMap
use square.Base.JsMap.{get-set}
use square.Base.Int.{ℤ, pos, neg, ◌+ℤ◌, +ℤ_assoc, +ℤ_zero}
use square.Indexer.State.{Address, IndexerState}
use square.Indexer.Events.{
  KernelEvent, job_created, job_described, provider_set, budget_set, job_funded, fees_snapshotted,
  job_submitted, submission_timed, job_completed, payout_routed, job_rejected, job_expired,
  payout_unresolvable, hook_failed_event, payment_released, refunded, evaluator_fee_paid,
  platform_fee_accrued, withdrawn, KeeperEvent, windows_configured, dispute_raised,
  decision_applied, ArbitrationEvent, arbiters_updated, dispute_opened, vote_cast, decision_reached,
  bond_settled, bond_withdrawn, MarketEvent, claim_listed, claim_bought, claim_cancelled, HookEvent,
  reputation_write_failed_event, validation_write_failed_event, release_unconfirmed_event,
  agent_bound, ModuleEvent, EventBody, kernel, keeper, arbitration, market, hook, compliance,
  SquareEvent,
}
use square.Indexer.Reducer.{
  LedgerContract, square_job, arbitration_ledger, ledger_key, credit, quiet, notify, submission,
  apply_kernel, close_dispute,
}
use square.Indexer.Apply.{
  apply_keeper, apply_arbitration, apply_market, apply_hook, apply_module, apply_body, apply_event,
  reduce,
}
use square.Indexer.Apply.After.{
  after, First-cases, stopped, went, on_job-ledger, on_job_kept, on_dispute-ledger,
  on_listing-ledger, close_dispute-ledger,
}

unfoldable pub balance : Text → IndexerState → ℤ
balance key s = get_or (JsMap.get key s.ledger) (pos 0)

abbrev moved : Text → LedgerContract → Address → ℤ → ℤ
moved key contract account delta =
    if text_beq (ledger_key contract account) key then delta else pos 0

-- What an event moves into the balance under a key.
unfoldable pub kernel_moves : KernelEvent → Text → ℤ
kernel_moves (payment_released provider amount) key = moved key square_job provider (pos amount)
kernel_moves (refunded client amount) key = moved key square_job client (pos amount)
kernel_moves (evaluator_fee_paid evaluator amount) key = moved key square_job evaluator (pos amount)
kernel_moves (platform_fee_accrued treasury amount) key = moved key square_job treasury (pos amount)
kernel_moves (withdrawn account amount) key = moved key square_job account (neg amount)
kernel_moves e key = pos 0

unfoldable pub arbitration_moves : ArbitrationEvent → Text → ℤ
arbitration_moves (bond_settled id to amount) key = moved key arbitration_ledger to (pos amount)
arbitration_moves (bond_withdrawn account amount) key =
    moved key arbitration_ledger account (neg amount)
arbitration_moves e key = pos 0

unfoldable pub moves : EventBody → Text → ℤ
moves (kernel e) key = kernel_moves e key
moves (arbitration e) key = arbitration_moves e key
moves e key = pos 0

unfoldable pub total_moved : List SquareEvent → Text → ℤ
total_moved [] key = pos 0
total_moved (e ∷ es) key = moves e.body key +ℤ total_moved es key

same_balance :
    (key : Text) (s next : IndexerState) → next.ledger ≡ s.ledger → balance key next ≡ balance key s
unfolding balance
same_balance key s next same = ap (λ l. get_or (JsMap.get key l) (pos 0)) same

still :
    (key : Text) (s next : IndexerState)
    → next.ledger ≡ s.ledger
    → balance key next ≡ balance key s +ℤ pos 0
unfolding balance
still key s next same = same_balance key s next same ∙ sym (+ℤ_zero (balance key s))

credit-balance :
    (key : Text) (s : IndexerState) (contract : LedgerContract) (account : Address) (delta : ℤ)
    → balance key (credit s contract account delta)
      ≡ balance key s +ℤ moved key contract account delta
unfolding balance credit
credit-balance key s contract account delta = ground (
  arith,
  get-set (ledger_key contract account) key
      (get_or (JsMap.get (ledger_key contract account) s.ledger) (pos 0) +ℤ delta) s.ledger,
  text_beq_iff (ledger_key contract account) key,
  +ℤ_zero (balance key s),
)

pub on_submission-ledger :
    (s : IndexerState) (id submitted_at expired_at block : ℕ)
    → (after s (submission s id submitted_at expired_at block)).ledger ≡ s.ledger
unfolding after submission
on_submission-ledger s id submitted_at expired_at block = ground arith

kernel-balance :
    (key : Text) (s : IndexerState) (e : KernelEvent) (block : ℕ)
    → balance key (after s (apply_kernel s e block)) ≡ balance key s +ℤ kernel_moves e key
unfolding after apply_kernel quiet notify kernel_moves
kernel-balance key s (job_created a b c d e f) block = still key s _ refl
kernel-balance key s (job_described a b c) block = still key s _ (on_job-ledger s a block _)
kernel-balance key s (provider_set a b) block = still key s _ (on_job-ledger s a block _)
kernel-balance key s (budget_set a b) block = still key s _ (on_job-ledger s a block _)
kernel-balance key s (job_funded a b) block = still key s _ (on_job-ledger s a block _)
kernel-balance key s (fees_snapshotted a b c d) block = still key s _ (on_job-ledger s a block _)
kernel-balance key s (job_submitted a b) block = still key s _ (on_job-ledger s a block _)
kernel-balance key s (submission_timed a b c) block =
    still key s _ (on_submission-ledger s a b c block)
kernel-balance key s (job_completed a b) block = still key s _ (on_job-ledger s a block _)
kernel-balance key s (payout_routed a b c) block = still key s _ (on_job-ledger s a block _)
kernel-balance key s (job_rejected a b) block = still key s _ (on_job-ledger s a block _)
kernel-balance key s (job_expired a) block = still key s _ (on_job-ledger s a block _)
kernel-balance key s (payout_unresolvable a) block = still key s _ (on_job-ledger s a block _)
kernel-balance key s (hook_failed_event a b c) block = still key s _ refl
kernel-balance key s (payment_released a b) block = credit-balance key s square_job a (pos b)
kernel-balance key s (refunded a b) block = credit-balance key s square_job a (pos b)
kernel-balance key s (evaluator_fee_paid a b) block = credit-balance key s square_job a (pos b)
kernel-balance key s (platform_fee_accrued a b) block = credit-balance key s square_job a (pos b)
kernel-balance key s (withdrawn a b) block = credit-balance key s square_job a (neg b)
kernel-balance key s KernelEvent.other block = still key s _ refl

arbitration-balance :
    (key : Text) (s : IndexerState) (e : ArbitrationEvent) (block : ℕ)
    → balance key (after s (apply_arbitration s e block)) ≡ balance key s +ℤ arbitration_moves e key
unfolding after apply_arbitration quiet arbitration_moves
arbitration-balance key s (arbiters_updated a b c) block = still key s _ refl
arbitration-balance key s (dispute_opened a b c d e f) block = still key s _ refl
arbitration-balance key s (vote_cast a b c) block = still key s _ (on_dispute-ledger s a block _)
arbitration-balance key s (decision_reached a b c) block =
    still key s _ (on_dispute-ledger s a block _)
arbitration-balance key s (bond_settled a b c) block =
    same_balance key (credit s arbitration_ledger b (pos c)) _
      (close_dispute-ledger (credit s arbitration_ledger b (pos c)) a block)
    ∙ credit-balance key s arbitration_ledger b (pos c)
arbitration-balance key s (bond_withdrawn a b) block =
    credit-balance key s arbitration_ledger a (neg b)
arbitration-balance key s ArbitrationEvent.other block = still key s _ refl

pub keeper-ledger :
    (s : IndexerState) (e : KeeperEvent) (block : ℕ)
    → (after s (apply_keeper s e block)).ledger ≡ s.ledger
unfolding after apply_keeper quiet
keeper-ledger s (windows_configured a b c) block = refl
keeper-ledger s (dispute_raised a) block = on_job-ledger s a block _
keeper-ledger s (decision_applied a) block =
    on_job_kept s (close_dispute s a block) a block _ (close_dispute-ledger s a block)
keeper-ledger s KeeperEvent.other block = refl

pub market-ledger :
    (s : IndexerState) (e : MarketEvent) (block : ℕ)
    → (after s (apply_market s e block)).ledger ≡ s.ledger
unfolding after apply_market quiet
market-ledger s (claim_listed a b c d) block = refl
market-ledger s (claim_bought a b) block = on_listing-ledger s a _ _
market-ledger s (claim_cancelled a) block = on_listing-ledger s a _ _
market-ledger s MarketEvent.other block = refl

pub hook-ledger :
    (s : IndexerState) (e : HookEvent) (block : ℕ)
    → (after s (apply_hook s e block)).ledger ≡ s.ledger
unfolding after apply_hook quiet notify
hook-ledger s (reputation_write_failed_event a b) block = refl
hook-ledger s (validation_write_failed_event a b) block = refl
hook-ledger s (release_unconfirmed_event a b c) block = refl
hook-ledger s (agent_bound a b) block = on_job-ledger s a block _
hook-ledger s HookEvent.other block = refl

pub module-ledger :
    (s : IndexerState) (e : ModuleEvent) → (after s (apply_module s e)).ledger ≡ s.ledger
unfolding after apply_module quiet notify
module-ledger s e = ground arith

body-balance :
    (key : Text) (s : IndexerState) (b : EventBody) (block : ℕ)
    → balance key (after s (apply_body s b block)) ≡ balance key s +ℤ moves b key
unfolding apply_body moves
body-balance key s (kernel e) block = kernel-balance key s e block
body-balance key s (keeper e) block = still key s _ (keeper-ledger s e block)
body-balance key s (arbitration e) block = arbitration-balance key s e block
body-balance key s (market e) block = still key s _ (market-ledger s e block)
body-balance key s (hook e) block = still key s _ (hook-ledger s e block)
body-balance key s (compliance e) block = still key s _ (module-ledger s e)

event-balance :
    (key : Text) (s next : IndexerState) (e : SquareEvent)
    → after s (apply_event s e) ≡ next
    → balance key next ≡ balance key s +ℤ moves e.body key
unfolding apply_event
event-balance key s next e eq =
    ap (balance key) (sym eq) ∙ body-balance key s e.body (get_or e.block_number 0)

-- A run of events that throws nothing changes the balance under every key by the total of the amounts
-- that its events moved there: credits for releases, refunds, fees and settled bonds, less withdrawals.
pub reduce-balance :
    (key : Text) (es : List SquareEvent) (s : IndexerState)
    → (reduce es s).thrown ≡ none
    → balance key (reduce es s).state ≡ balance key s +ℤ total_moved es key
unfolding reduce total_moved
reduce-balance key [] s fine = sym (+ℤ_zero (balance key s))
reduce-balance key (e ∷ es) s fine = elim (First-cases e es s) [
  | stopped x eq same threw_x ↦ ground arith
  | went next eq quiet_eq same thrown_same ↦
      ap (balance key) same
      ∙ reduce-balance key es next (sym thrown_same ∙ fine)
      ∙ ap (λ b. b +ℤ total_moved es key) (event-balance key s next e eq)
      ∙ +ℤ_assoc (balance key s) (moves e.body key) (total_moved es key)
]
