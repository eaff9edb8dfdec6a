-- ===== src/Indexer/Reducer.antt =====
-- services/indexer/src/reducer.ts: what each event does to the state.
use square.Base.{
  ℕ, ◌+◌, true, false, Option, none, some, List, [], ◌∷◌, ◌++◌, map, Text, codes, text_eq, nat_eq,
  to_lower_case, get_or, leb, nat_beq, if◌then◌else◌, ◌==◌, length,
}
use mathlib.Core.Option
use mathlib.Core.List.{reverse}
use square.Base.JsMap
use square.Base.JsMap.{JsMap}
use square.Base.Int.{ℤ, pos, neg, ◌+ℤ◌}
use square.Indexer.State.{
  Address, JobState, DisputeState, WindowState, IndexerState, ReducerNotice, windows_missing,
  hook_failed, unknown_job, unknown_dispute, Result, ok, err,
}
use square.Indexer.JobStatus
use square.Indexer.Events.{
  KernelEvent, job_created, job_described, provider_set, budget_set, job_funded, fees_snapshotted,
  job_submitted, submission_timed, job_completed, payout_routed, job_rejected, job_expired,
  payout_unresolvable, hook_failed_event, payment_released, refunded, evaluator_fee_paid,
  platform_fee_accrued, withdrawn,
}

-- The state, and the notices given so far.
abbrev pub Reduced : Type 0
Reduced = Result (IndexerState × List ReducerNotice)

pub data LedgerContract : Type 0 where
  square_job arbitration_ledger : LedgerContract

abbrev pub contract_name : LedgerContract → Text
contract_name square_job = codes "SquareJob"
contract_name arbitration_ledger = codes "Arbitration"

unfoldable pub ledger_key : LedgerContract → Address → Text
ledger_key contract account = contract_name contract ++ (b':' ∷ to_lower_case account)

-- The scan from the newest window down, over the reversed list.
newest_from : List WindowState → ℕ → Option WindowState
newest_from [] at = none
newest_from (w ∷ ws) at = if leb w.effective_from at then some w else newest_from ws at

first_window : List WindowState → Option WindowState
first_window [] = none
first_window (w ∷ ws) = some w

unfoldable pub window_for : List WindowState → ℕ → Option WindowState
unfolding newest_from first_window
window_for windows at = elim (newest_from (reverse windows) at) [
  | some w ↦ some w
  | none ↦ first_window windows
]

abbrev zero_address : Address
zero_address = codes "0x0000000000000000000000000000000000000000"

unfoldable pub nullable : Address → Option Address
nullable address = if to_lower_case address == zero_address then none else some address

unfoldable pub credit : IndexerState → LedgerContract → Address → ℤ → IndexerState
credit s contract account delta =
    let key = ledger_key contract account in
    record s { ledger = JsMap.set key (get_or (JsMap.get key s.ledger) (pos 0) +ℤ delta) s.ledger }

unfoldable pub quiet : IndexerState → Reduced
quiet s = ok (s, [])

unfoldable pub notify : IndexerState → ReducerNotice → Reduced
notify s n = ok (s, n ∷ [])

abbrev pub put_job : IndexerState → ℕ → JobState → IndexerState
put_job s id job = record s { jobs = JsMap.set id job s.jobs }

-- `requireJob`, the writes to the job, and its `updatedBlock`.
unfoldable pub on_job : IndexerState → ℕ → ℕ → (JobState → JobState) → Reduced
on_job s id block f = elim (JsMap.get id s.jobs) [
  | none ↦ err (unknown_job id)
  | some job ↦ ok (put_job s id (record (f job) { updated_block = block }), [])
]

abbrev pub put_dispute : IndexerState → ℕ → DisputeState → IndexerState
put_dispute s id d = record s { disputes = JsMap.set id d s.disputes }

unfoldable pub on_dispute : IndexerState → ℕ → ℕ → (DisputeState → DisputeState) → Reduced
on_dispute s id block f = elim (JsMap.get id s.disputes) [
  | none ↦ err (unknown_dispute id)
  | some d ↦ ok (put_dispute s id (record (f d) { updated_block = block }), [])
]

-- A dispute is closed where there is one.
unfoldable pub close_dispute : IndexerState → ℕ → ℕ → IndexerState
close_dispute s id block = elim (JsMap.get id s.disputes) [
  | none ↦ s
  | some d ↦ put_dispute s id (record d { closed = true; updated_block = block })
]

unfoldable pub new_job : ℕ → Address → Address → Address → Address → ℕ → ℕ → JobState
new_job id client provider evaluator hook_address expired_at block = record {
  job_id = id;
  client = client;
  provider = nullable provider;
  evaluator = evaluator;
  hook = nullable hook_address;
  description = [];
  budget = 0;
  status = JobStatus.open_job;
  expired_at = expired_at;
  created_at = 0;
  funded_at = none;
  submitted_at = none;
  challenge_end = none;
  platform_fee_bp = none;
  evaluator_fee_bp = none;
  deliverable = none;
  payee = none;
  provider_bps = none;
  reason = none;
  disputed = false;
  agent_id = none;
  refund_reason = none;
  updated_block = block;
}

-- `stripNullCharacters` of packages/data/src/codec.ts on a text.
unfoldable pub strip_null_characters : Text → Text
strip_null_characters t = map (λ c. if nat_beq c 0 then 65533 else c) t

-- The writes of `SubmissionTimed`.
abbrev pub timed : List WindowState → ℕ → ℕ → JobState → JobState
timed windows submitted_at expired_at job = record job {
  submitted_at = some submitted_at;
  expired_at = expired_at;
  challenge_end =
      Option.map (λ w. submitted_at + w.challenge_window) (window_for windows submitted_at);
}

-- The notice about missing windows comes once the job is known.
unfoldable pub submission : IndexerState → ℕ → ℕ → ℕ → ℕ → Reduced
submission s id submitted_at expired_at block = elim (JsMap.get id s.jobs) [
  | none ↦ err (unknown_job id)
  | some job ↦ ok (
    put_job s id (record (timed s.windows submitted_at expired_at job) { updated_block = block }),
    if nat_beq (length s.windows) 0 then windows_missing job.job_id submitted_at ∷ [] else [],
  )
]

unfoldable pub apply_kernel : IndexerState → KernelEvent → ℕ → Reduced
apply_kernel s (job_created id client provider evaluator hook_address expired_at) block =
    quiet (put_job s id (new_job id client provider evaluator hook_address expired_at block))
apply_kernel s (job_described id description created_at) block =
    on_job s id block
      (λ j. record j { description = strip_null_characters description; created_at = created_at })
apply_kernel s (provider_set id provider) block =
    on_job s id block (λ j. record j { provider = some provider })
apply_kernel s (budget_set id amount) block = on_job s id block (λ j. record j { budget = amount })
apply_kernel s (job_funded id amount) block =
    on_job s id block (λ j. record j { status = JobStatus.funded; budget = amount })
apply_kernel s (fees_snapshotted id platform evaluator funded_at) block = on_job s id block (λ j.
    record j {
      platform_fee_bp = some platform;
      evaluator_fee_bp = some evaluator;
      funded_at = some funded_at;
    })
apply_kernel s (job_submitted id deliverable) block =
    on_job s id block
      (λ j. record j { status = JobStatus.submitted; deliverable = some deliverable })
apply_kernel s (submission_timed id submitted_at expired_at) block =
    submission s id submitted_at expired_at block
apply_kernel s (job_completed id reason) block =
    on_job s id block (λ j. record j { status = JobStatus.completed; reason = some reason })
apply_kernel s (payout_routed id payee provider_bps) block =
    on_job s id block (λ j. record j { payee = some payee; provider_bps = some provider_bps })
apply_kernel s (job_rejected id reason) block =
    on_job s id block (λ j. record j { status = JobStatus.rejected; reason = some reason })
apply_kernel s (job_expired id) block =
    on_job s id block (λ j. record j { status = JobStatus.expired })
apply_kernel s (payout_unresolvable id) block =
    on_job s id block (λ j. record j { refund_reason = some (codes "payoutUnresolvable") })
apply_kernel s (hook_failed_event id address selector) block =
    notify s (hook_failed id address selector)
apply_kernel s (payment_released provider amount) block =
    quiet (credit s square_job provider (pos amount))
apply_kernel s (refunded client amount) block = quiet (credit s square_job client (pos amount))
apply_kernel s (evaluator_fee_paid evaluator amount) block =
    quiet (credit s square_job evaluator (pos amount))
apply_kernel s (platform_fee_accrued treasury amount) block =
    quiet (credit s square_job treasury (pos amount))
apply_kernel s (withdrawn account amount) block = quiet (credit s square_job account (neg amount))
apply_kernel s KernelEvent.other block = quiet s
