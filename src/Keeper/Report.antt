-- ===== src/Keeper/Report.antt =====
-- services/keeper/src/run.ts: what a tick reports, and its helpers. The log lines and the metrics are left
-- out. A read outside the hold rules that throws ends the tick there, which is not modelled.
use square.Base.{
  ℕ, ◌+◌, Bool, Option, none, some, List, [], ◌∷◌, ◌++◌, Text, codes, includes, any, nat_beq,
  if◌then◌else◌, nat_eq, get_or,
}
use square.Base.JsMap
use square.Base.JsMap.{JsMap}
use square.Indexer.State.{Address, JobState}
use square.Keeper.Decide.{KeeperEconomics, SkipReason, keeper_fee, gas_cost_in_usdc, profitable}
use square.Keeper.Gas.{SettlementAction, assumed}
use square.Keeper.JobState.{HoldReason, mark_unprofitable_journaled}
use square.Keeper.Retry.{KeeperRetryPolicy, ActionName, Keeper, plain_action, append}
use square.Keeper.Chain.{Chain, Screening}

pub data NotYetOnChain : Type 0 where
  window_open not_lapsed : NotYetOnChain

pub data TickSkip : Type 0 where
  not_worth : SkipReason → TickSkip
  gave_up backoff unscreened : TickSkip
  held_as : HoldReason → TickSkip
  not_yet : NotYetOnChain → TickSkip

pub record TickReport : Type 0 where
  pub finalized : List ℕ
  pub applied : List ℕ
  pub lapsed : List ℕ
  pub bonds_settled : List ℕ
  pub skipped : List (ℕ × TickSkip)
  pub held : List (ℕ × HoldReason)
  pub near_expiry : List ℕ
  pub pending : ℕ
  pub unprofitable_jobs : ℕ
  pub oldest_pending_age_seconds : ℕ

abbrev pub empty_report : TickReport
empty_report = record {
  finalized = [];
  applied = [];
  lapsed = [];
  bonds_settled = [];
  skipped = [];
  held = [];
  near_expiry = [];
  pending = 0;
  unprofitable_jobs = 0;
  oldest_pending_age_seconds = 0;
}

-- What the keeper is given. `screen` is `screenPayees`: the outcomes by job, or the error's message.
pub data Screened : Type 0 where
  outcomes : JsMap ℕ Screening → Screened
  screen_threw : Text → Screened

pub record KeeperOptions : Type 0 where
  pub evaluator : Address
  pub minimum_margin_bps : ℕ
  pub gated : Bool
  pub proof_grace_seconds : ℕ
  pub policy : KeeperRetryPolicy
  pub screen : Option (List ℕ → Screened)

-- The keeper and the report so far.
pub record Pass : Type 0 where
  pub keeper : Keeper
  pub report : TickReport

unfoldable pub not_yet_on_chain : Text → Option NotYetOnChain
not_yet_on_chain message =
    if includes (codes "WindowOpen") message
    then some window_open
    else if includes (codes "NotLapsed") message
    then some not_lapsed
    else none

unfoldable pub refused_for_want_of_a_proof : Text → Bool
refused_for_want_of_a_proof message = includes (codes "ProofRequired") message

unfoldable pub skip_job : ℕ → TickSkip → Pass → Pass
skip_job id why p = record p {
  report = record p.report { skipped = p.report.skipped ++ (id, why) ∷ [] };
}

unfoldable pub with_keeper : (Keeper → Keeper) → Pass → Pass
with_keeper f p = record p { keeper = f p.keeper }

-- `retries.delete`.
unfoldable pub forget_retry : ℕ → Keeper → Keeper
forget_retry id k = record k { retries = JsMap.delete id k.retries }

unfoldable pub economics : KeeperOptions → Chain → Keeper → KeeperEconomics
economics o chain k = record {
  gas_price_wei = chain.gas_price_wei;
  finalize_gas = assumed k.gas SettlementAction.finalize;
  finalize_decided_gas = assumed k.gas SettlementAction.finalize_decided;
  minimum_margin_bps = o.minimum_margin_bps;
}

unfoldable pub profitable_in_mirror : JobState → KeeperEconomics → Bool
profitable_in_mirror row e =
    profitable (keeper_fee row.budget (get_or row.evaluator_fee_bp 0))
      (gas_cost_in_usdc e.gas_price_wei e.finalize_gas) e.minimum_margin_bps

unfoldable pub journal_unprofitable_once : ℕ → Keeper → Keeper
journal_unprofitable_once id k =
    if any (λ j. nat_beq j id) k.journaled_skips
    then k
    else let (first_ever, rows) = mark_unprofitable_journaled id k.rows in
      let noted = record k { rows = rows; journaled_skips = k.journaled_skips ++ id ∷ [] } in
      if first_ever
      then append
          (record (plain_action id ActionName.skipped) { reason = some (codes "unprofitable") })
          noted
      else noted

unfoldable pub note_unprofitable : ℕ → Pass → Pass
note_unprofitable id p =
    with_keeper (journal_unprofitable_once id)
      (record p { report = record p.report { unprofitable_jobs = p.report.unprofitable_jobs + 1 } })

unfoldable pub note_near_expiry : ℕ → Bool → Pass → Pass
note_near_expiry id near p =
    if near
    then record p {
      report = record p.report { near_expiry = p.report.near_expiry ++ id ∷ [] };
      keeper = record p.keeper {
        warned_near_expiry =
            if any (λ j. nat_beq j id) p.keeper.warned_near_expiry
            then p.keeper.warned_near_expiry
            else p.keeper.warned_near_expiry ++ id ∷ [];
      };
    }
    else p
