-- ===== src/Keeper/Tests.antt =====
-- Runs of the keeper's decisions, and its theorems at concrete inputs.
use square.Base.{ℕ, ◌≤◌, ◌≡◌, refl, ◌≢◌, ◌↔◌, true, false, some, none, List, [], ◌∷◌, arith, get_or}
use square.Keeper.Decide.{
  KeeperCandidate, KeeperEconomics, finalize, finalize_decided, lapse, skip, keeper_fee,
  gas_cost_in_usdc, profitable, minimum_profitable_budget, decide, decide_all, oldest_pending_age,
  window_open,
}
use square.Keeper.Decide.Actions.{
  fee_of, Pays, HasPassed, decide-finalize_iff, decide-finalize_decided_iff, decide_stable,
}
use square.Keeper.Budget.{
  required, minimum_profitable_budget-IsLeast, minimum_profitable_budget-exact,
  minimum_profitable_budget-unprofitable,
}
use square.Keeper.Gas
use square.Keeper.Gas.{
  GasAssumption, gas_assumption, GasAssumptionOptions, record_receipt, assumed, seen, source,
  receipts,
}
use square.Keeper.Gas.Window.{last_of, positive, record_all, record_all-window}

abbrev submitted_job : KeeperCandidate
submitted_job = record {
  job_id = 7;
  status = 2;
  disputed = false;
  challenge_end = some 100;
  budget = 5000000;
  evaluator_fee_bp = some 100;
  decided_outcome = none;
  dispute_closed = false;
  resolve_by = none;
  expired_at = some 1000;
  client = none;
  provider_bps = none;
}

abbrev decided_job : KeeperCandidate
decided_job = record submitted_job { disputed = true; decided_outcome = some 1 }

abbrev stuck_job : KeeperCandidate
stuck_job = record submitted_job { disputed = true; resolve_by = some 150 }

abbrev economics : KeeperEconomics
economics = record {
  gas_price_wei = 20000000000;
  finalize_gas = 560000;
  finalize_decided_gas = 610000;
  minimum_margin_bps = 1000;
}

decide_open_run : decide submitted_job 100 economics ≡ finalize 7 50000 11200
unfolding decide keeper_fee gas_cost_in_usdc profitable
decide_open_run = refl

decide_early_run : decide submitted_job 99 economics ≡ skip 7 window_open
unfolding decide keeper_fee gas_cost_in_usdc profitable
decide_early_run = refl

decide_all_run :
    decide_all (decided_job ∷ stuck_job ∷ []) 200 economics
    ≡ finalize_decided 7 50000 12200 ∷ lapse 7 150 ∷ []
unfolding decide_all decide keeper_fee gas_cost_in_usdc profitable
decide_all_run = refl

decide-finalize_iff_example : (decide submitted_job 100 economics ≡ finalize 7 50000 11200) ↔ (
    (submitted_job.status ≡ 2)
    × (submitted_job.disputed ≡ false)
    × HasPassed submitted_job.challenge_end 100
    × Pays 50000 11200 economics.minimum_margin_bps
    × (7 ≡ submitted_job.job_id)
    × (50000 ≡ fee_of submitted_job)
    × (11200 ≡ gas_cost_in_usdc economics.gas_price_wei economics.finalize_gas))
decide-finalize_iff_example = decide-finalize_iff submitted_job 100 economics 7 50000 11200

decide-finalize_decided_iff_example :
    (decide decided_job 100 economics ≡ finalize_decided 7 50000 12200) ↔ (
      (decided_job.status ≡ 2)
      × (decided_job.disputed ≡ true)
      × (get_or decided_job.decided_outcome 0 ≢ 0)
      × (get_or decided_job.decided_outcome 0 ≢ 2)
      × (decided_job.dispute_closed ≡ false)
      × Pays 50000 12200 economics.minimum_margin_bps
      × (7 ≡ decided_job.job_id)
      × (50000 ≡ fee_of decided_job)
      × (12200 ≡ gas_cost_in_usdc economics.gas_price_wei economics.finalize_decided_gas))
decide-finalize_decided_iff_example =
    decide-finalize_decided_iff decided_job 100 economics 7 50000 12200

decide_stable_example : decide submitted_job 300 economics ≡ decide submitted_job 100 economics
unfolding decide keeper_fee gas_cost_in_usdc profitable
decide_stable_example = decide_stable submitted_job 100 300 economics (omega arith) (λ h. h)

oldest_run : oldest_pending_age (submitted_job ∷ decided_job ∷ []) 130 ≡ 30
unfolding oldest_pending_age
oldest_run = refl

abbrev waiting : List KeeperCandidate
waiting = submitted_job ∷ decided_job ∷ []

least_run : minimum_profitable_budget 100 20000000000 560000 1000 ≡ some 1232000
unfolding minimum_profitable_budget gas_cost_in_usdc
least_run = refl

minimum_profitable_budget-IsLeast_example :
    (1232000 ≤ 2000000) ↔ (required 20000000000 560000 1000 ≤ keeper_fee 2000000 100)
minimum_profitable_budget-IsLeast_example =
    minimum_profitable_budget-IsLeast 100 20000000000 560000 1000 1232000 least_run 2000000

minimum_profitable_budget-exact_example :
    (profitable (keeper_fee 1120000 100) (gas_cost_in_usdc 20000000000 560000) 0 ≡ true)
    ↔ (1120000 ≤ 1120000)
unfolding minimum_profitable_budget gas_cost_in_usdc
minimum_profitable_budget-exact_example =
    minimum_profitable_budget-exact 100 20000000000 560000 1120000 refl 1120000

minimum_profitable_budget-unprofitable_example :
    (least : ℕ) × (minimum_profitable_budget 50 1000000000000 3 1000 ≡ some least)
    × (profitable (keeper_fee least 50) (gas_cost_in_usdc 1000000000000 3) 1000 ≡ false)
unfolding gas_cost_in_usdc
minimum_profitable_budget-unprofitable_example =
    minimum_profitable_budget-unprofitable 50 1000000000000 3 1000 (omega arith) (omega arith)
      (omega arith)

abbrev fresh : GasAssumption
fresh = record { pinned = false; keep = 2; constant = λ a. 1000; window = λ a. [] }

gas_run : assumed (record_all fresh Gas.finalize (10 ∷ 0 ∷ 20 ∷ 31 ∷ [])) Gas.finalize ≡ 26
unfolding assumed record_all record_receipt Gas.average Gas.push_sample
gas_run = refl

record_all-window_example :
    (record_all fresh Gas.finalize (10 ∷ 0 ∷ 20 ∷ 31 ∷ [])).window Gas.finalize
    ≡ last_of 2 (positive (10 ∷ 0 ∷ 20 ∷ 31 ∷ []))
record_all-window_example =
    record_all-window fresh Gas.finalize (10 ∷ 0 ∷ 20 ∷ 31 ∷ []) refl (omega arith) refl

abbrev sampled : GasAssumption
sampled = record fresh { window = λ a. 20 ∷ 31 ∷ [] }
