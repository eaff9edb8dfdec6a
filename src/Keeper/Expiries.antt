-- ===== src/Keeper/Expiries.antt =====
-- services/keeper/src/run.ts: the sweep that records expired jobs.
pub mod Drained
use square.Base.{
  ℕ, ◌+◌, Bool, ◌||◌, some, List, [], ◌∷◌, ◌++◌, map, Text, take, leb, if◌then◌else◌, length,
}
use square.Base.JsMap
use square.Keeper.JobState.{mark_expiry_recorded, bump_expiry_attempts, schedule_expiry_retry}
use square.Keeper.Retry.{
  ActionName, KeeperActionInput, KeeperRetryPolicy, Keeper, plain_action, append, backoff_seconds,
  give_up_reason,
}
use square.Keeper.Chain.{Chain, Mirror, record_expiry_call, sent, threw, list_expired_with_agent}
use square.Keeper.Report.{KeeperOptions}

pub record ExpirySweepReport : Type 0 where
  pub scanned : ℕ
  pub recorded : List ℕ
  pub already_recorded : List ℕ
  pub failed : List ℕ
  pub gave_up : List ℕ

pub record Sweep : Type 0 where
  pub keeper : Keeper
  pub report : ExpirySweepReport

expiry_reason : Bool → ℕ → Text → Text
expiry_reason gave_up attempts message =
    if gave_up then give_up_reason attempts message else take 200 message

unfoldable pub note_expiry_failure : KeeperRetryPolicy → ℕ → Text → ℕ → Sweep → Sweep
unfolding expiry_reason
note_expiry_failure policy id message now s =
    let (attempts, bumped) = bump_expiry_attempts id s.keeper.rows in
    let gave_up = leb policy.give_up_after attempts in
    let rows = schedule_expiry_retry id (now + backoff_seconds policy attempts) gave_up bumped in
    let row = record (plain_action id ActionName.record_expiry) {
      reason = some (expiry_reason gave_up attempts message);
      gave_up = gave_up;
    } in
    record {
      keeper = record s.keeper {
        rows = rows;
        actions =
            if gave_up || leb attempts policy.max_journal_rows_per_job
            then s.keeper.actions ++ row ∷ []
            else s.keeper.actions;
      };
      report =
          if gave_up
          then record s.report { gave_up = s.report.gave_up ++ id ∷ [] }
          else record s.report { failed = s.report.failed ++ id ∷ [] };
    }

-- A row of the journal for an expiry that is on the chain, and the mark that ends the asking.
unfoldable pub expiry_done : ℕ → KeeperActionInput → Keeper → Keeper
expiry_done id row k = append row (record k { rows = mark_expiry_recorded id k.rows })

unfoldable pub sweep_job : KeeperOptions → Chain → ℕ → ℕ → Sweep → Sweep
sweep_job o chain now id s =
    if chain.recorded id
    then record {
      keeper = expiry_done id (plain_action id ActionName.record_expiry) s.keeper;
      report = record s.report { already_recorded = s.report.already_recorded ++ id ∷ [] };
    }
    else elim (chain.send record_expiry_call id) [
      | sent gas fee ↦ record {
        keeper =
            expiry_done id
              (record (plain_action id ActionName.record_expiry) { gas_used = some gas }) s.keeper;
        report = record s.report { recorded = s.report.recorded ++ id ∷ [] };
      }
      | threw message ↦ note_expiry_failure o.policy id message now s
    ]

unfoldable pub sweep_jobs : KeeperOptions → Chain → ℕ → List ℕ → Sweep → Sweep
sweep_jobs o chain now [] s = s
sweep_jobs o chain now (id ∷ ids) s = sweep_jobs o chain now ids (sweep_job o chain now id s)

unfoldable pub sweep_expiries : KeeperOptions → ℕ → Mirror → Chain → ℕ → Keeper → Sweep
sweep_expiries o batch_size mirror chain now k =
    let ids =
      map (λ j. j.job_id) (list_expired_with_agent mirror k.rows o.evaluator batch_size now) in
    sweep_jobs o chain now ids (record {
      keeper = k;
      report = record {
        scanned = length ids;
        recorded = [];
        already_recorded = [];
        failed = [];
        gave_up = [];
      };
    })
