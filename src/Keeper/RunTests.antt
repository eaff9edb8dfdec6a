-- ===== src/Keeper/RunTests.antt =====
-- Ticks, failures, holds and sweeps (services/keeper/src/run.ts).
use square.Base.{
  ℕ, ◌+◌, ◌≡◌, refl, true, false, none, some, List, [], ◌∷◌, codes, arith, leb, if◌then◌else◌,
  nat_eq, All, map,
}
use square.Base.JsMap
use square.Indexer.State.{JobState}
use square.Indexer.JobStatus
use square.Keeper.Decide.{KeeperCandidate}
use square.Keeper.Gas.{GasAssumption}
use square.Keeper.JobState.{KeeperJobState, new_row, held_for, proof_stale}
use square.Keeper.Retry.{
  RetryState, ActionName, Keeper, default_retry_policy, is_blocked, restore_give_ups, given_up,
}
use square.Keeper.Chain.{
  Chain, Mirror, sent, row_of, is_due, would_refuse, list_expired_with_agent, decidable,
}
use square.Keeper.Holds.{HoldRule, Examined, cleared, held_back, first_refusal, cleared_by_holds}
use square.Keeper.Holds.Grace.{examined, cleared_by_holds-grace}
use square.Keeper.Report.{KeeperOptions}
use square.Keeper.Tick.{tick}
use square.Keeper.Gas.{SettlementAction}
use square.Keeper.Settle.{
  send_candidate, screening_of, send_cleared, settle_job, settled_job, failed_call,
}
use square.Keeper.Holds.{rules_of}
use square.Keeper.Retry.{append}
use square.Base.{includes}
use square.Keeper.Report.{
  Pass, empty_report, with_keeper, forget_retry, skip_job, not_yet_on_chain,
  refused_for_want_of_a_proof,
}
use square.Keeper.Chain.{threw}
use square.Keeper.Expiries.{sweep_expiries}
use square.Keeper.Expiries.Drained.{sweep_expiries-drains}
use square.Keeper.Blocked.{IsSpared}
use square.Keeper.Blocked.Whole.{tick-IsSpared}
use square.Keeper.Failures.{
  note_failures, IsNoted, note_failures-IsNoted, restore_give_ups-IsSpared,
}

abbrev options : KeeperOptions
options = record {
  evaluator = codes "0xe";
  minimum_margin_bps = 0;
  gated = false;
  proof_grace_seconds = 3600;
  policy = default_retry_policy;
  screen = none;
}

-- Every job is submitted, undisputed and past its window, and every call is mined.
abbrev open_chain : Chain
open_chain = record {
  gas_price_wei = 1;
  job = λ id. record {
    status = 2;
    budget = 1000000;
    evaluator_fee_bp = 100;
    expired_at = 100000;
    client = codes "0xc";
  };
  is_disputed = λ id. false;
  dispute = λ id. record {
    outcome = 0;
    resolve_by = 0;
    provider_bps = 0;
    disputed_at = 0;
    bond_settled = false;
  };
  challenge_ends_at = λ id. 50;
  send = λ call id. sent 560000 10000;
  proof_state = λ id. some decidable;
  release = λ id. none;
  preview = λ id payee amount client proof. some would_refuse;
  recorded = λ id. false;
}

abbrev submitted_job : ℕ → JobState
submitted_job id = record {
  job_id = id;
  client = codes "0xc";
  provider = some (codes "0xd");
  evaluator = codes "0xE";
  hook = none;
  description = [];
  budget = 1000000;
  status = JobStatus.submitted;
  expired_at = 100000;
  created_at = 0;
  funded_at = some 1;
  submitted_at = some 2;
  challenge_end = some 50;
  platform_fee_bp = some 0;
  evaluator_fee_bp = some 100;
  deliverable = none;
  payee = none;
  provider_bps = none;
  reason = none;
  disputed = false;
  agent_id = some 4;
  refund_reason = none;
  updated_block = 9;
}

abbrev mirror : Mirror
mirror = record { jobs = (7, submitted_job 7) ∷ (8, submitted_job 8) ∷ []; disputes = [] }

abbrev no_gas : GasAssumption
no_gas = record { pinned = true; keep = 5; constant = λ a. 560000; window = λ a. [] }

abbrev keeper : Keeper
keeper = record {
  retries = [];
  journaled_skips = [];
  warned_near_expiry = [];
  gas = no_gas;
  rows = [];
  actions = [];
}

abbrev waiting : RetryState
waiting = record { attempts = 1; next_attempt_at = 160; gave_up = false; journaled = [] }

abbrev waiting_keeper : Keeper
waiting_keeper = record keeper { retries = (7, waiting) ∷ [] }

waiting_found : JsMap.get 7 waiting_keeper.retries ≡ some waiting
unfolding JsMap.get
waiting_found = refl

waiting_blocked : is_blocked 120 (some waiting) ≡ true
unfolding is_blocked
waiting_blocked = refl

tick-IsSpared_example : IsSpared 7 waiting (tick options mirror open_chain 120 waiting_keeper)
tick-IsSpared_example =
    tick-IsSpared options mirror open_chain 120 waiting_keeper 7 waiting waiting_found
      waiting_blocked

abbrev late : ActionName × List ℕ × ℕ
late = (ActionName.finalize, codes "reverted", 100)

note_failures-IsNoted_example : IsNoted default_retry_policy 7 2 300 (
    note_failures default_retry_policy 7
      (late ∷ (ActionName.finalize, codes "reverted", 300) ∷ [])
      keeper)
unfolding JsMap.get
note_failures-IsNoted_example =
    note_failures-IsNoted default_retry_policy 7 (late ∷ []) ActionName.finalize (codes "reverted")
      300 keeper refl

abbrev old_row : KeeperJobState
old_row = record new_row { finalize_gave_up = true }

abbrev old_keeper : Keeper
old_keeper = record keeper { rows = (8, old_row) ∷ [] }

old_row_found : JsMap.get 8 old_keeper.rows ≡ some old_row
unfolding JsMap.get
old_row_found = refl

restore_give_ups-IsSpared_example :
    IsSpared 8
      (given_up default_retry_policy)
      (tick options mirror open_chain 120 (restore_give_ups default_retry_policy old_keeper))
restore_give_ups-IsSpared_example =
    restore_give_ups-IsSpared options mirror open_chain 120 old_keeper 8 old_row refl old_row_found
      refl

abbrev stale_rule : HoldRule
stale_rule = record {
  reason = proof_stale;
  grace_seconds = some 3600;
  examine = λ c. Examined.refuses;
}

abbrev candidate : KeeperCandidate
candidate = record {
  job_id = 7;
  status = 2;
  disputed = false;
  challenge_end = some 50;
  budget = 1000000;
  evaluator_fee_bp = some 100;
  decided_outcome = none;
  dispute_closed = false;
  resolve_by = none;
  expired_at = some 100000;
  client = some (codes "0xc");
  provider_bps = some 10000;
}

stale_refuses : first_refusal (stale_rule ∷ []) candidate ≡ some stale_rule
unfolding first_refusal
stale_refuses = refl

never_held : held_for proof_stale (row_of [] 7).held_reason ≡ false
unfolding JsMap.get
never_held = refl

cleared_by_holds-grace_example :
    (cleared_by_holds
      (stale_rule ∷ [])
      candidate
      3699
      (examined (stale_rule ∷ []) candidate (100 ∷ 160 ∷ []) [])).0
    ≡ (if leb (100 + 3600) 3699 then cleared else held_back proof_stale)
cleared_by_holds-grace_example =
    cleared_by_holds-grace (stale_rule ∷ []) stale_rule 3600 candidate 100 (160 ∷ []) 3699 []
      stale_refuses refl never_held

abbrev expired_mirror : Mirror
expired_mirror = record {
  jobs = (7, record (submitted_job 7) { status = JobStatus.expired }) ∷ [];
  disputes = [];
}

sweep_expiries-drains_example :
    All
      (λ id.
        is_due 120
          (row_of (sweep_expiries options 25 expired_mirror open_chain 120 keeper).keeper.rows id)
        ≡ false)
      (map (λ j. j.job_id) (list_expired_with_agent expired_mirror [] (codes "0xe") 25 120))
sweep_expiries-drains_example =
    sweep_expiries-drains options 25 expired_mirror open_chain 120 keeper (omega arith)
      (omega arith)

abbrev before_send : Pass
before_send = record { keeper = waiting_keeper; report = empty_report }

-- A mined call ends the job's backoff.
send_runs :
    (send_candidate options open_chain 200 none
      (candidate, SettlementAction.finalize)
      before_send).keeper.retries
    ≡ []
unfolding send_candidate screening_of send_cleared rules_of cleared_by_holds settle_job settled_job
    with_keeper append forget_retry JsMap.delete
send_runs = refl

reverting_chain : Chain
reverting_chain = record open_chain {
  send = λ call id. threw (codes "execution reverted: WindowOpen()");
}

-- A call that comes too early is no failure.
early_runs :
    (send_candidate options reverting_chain 200 none
      (candidate, SettlementAction.finalize)
      before_send).keeper
    ≡ waiting_keeper
unfolding send_candidate screening_of send_cleared rules_of cleared_by_holds settle_job with_keeper
    skip_job failed_call not_yet_on_chain refused_for_want_of_a_proof includes reverting_chain
early_runs = refl
