-- ===== src/Keeper/Decide.antt =====
-- services/keeper/src/decide.ts: which settlement call, if any, a job is worth.
pub mod Actions
pub mod Pending
use square.Base.{
  ℕ, ◌+◌, ◌-◌, ◌*◌, ◌/◌, Bool, true, false, not, ◌&&◌, ◌||◌, Option, none, some, List, [], ◌∷◌, map,
  ltb, leb, nat_beq, if◌then◌else◌, Text, get_or,
}

abbrev pub full_bps : ℕ
full_bps = 10000

abbrev pub native_to_usdc_divisor : ℕ
native_to_usdc_divisor = 1000000000000

abbrev pub expiry_warning_seconds : ℕ
expiry_warning_seconds = 86400

-- An absent optional field and `null` are both `none`: the code reads them by `?? null`.
pub record KeeperCandidate : Type 0 where
  pub job_id : ℕ
  pub status : ℕ
  pub disputed : Bool
  pub challenge_end : Option ℕ
  pub budget : ℕ
  pub evaluator_fee_bp : Option ℕ
  pub decided_outcome : Option ℕ
  pub dispute_closed : Bool
  pub resolve_by : Option ℕ
  pub expired_at : Option ℕ
  pub client : Option Text
  pub provider_bps : Option ℕ

pub record KeeperEconomics : Type 0 where
  pub gas_price_wei : ℕ
  pub finalize_gas : ℕ
  pub finalize_decided_gas : ℕ
  pub minimum_margin_bps : ℕ

pub data SkipReason : Type 0 where
  window_open disputed unprofitable not_submitted awaiting_decision : SkipReason

pub data KeeperAction : Type 0 where
  finalize : ℕ → ℕ → ℕ → KeeperAction
  finalize_decided : ℕ → ℕ → ℕ → KeeperAction
  lapse : ℕ → ℕ → KeeperAction
  skip : ℕ → SkipReason → KeeperAction

-- `left > 0n && left <= EXPIRY_WARNING_SECONDS`, where `left` may be negative.
pub expiry_is_near : KeeperCandidate → ℕ → Bool
expiry_is_near c now = elim c.expired_at [
  | none ↦ false
  | some at ↦ ltb now at && leb (at - now) expiry_warning_seconds
]

unfoldable pub keeper_fee : ℕ → ℕ → ℕ
keeper_fee budget fee_bp = budget * fee_bp / full_bps

unfoldable pub gas_cost_in_usdc : ℕ → ℕ → ℕ
gas_cost_in_usdc price gas = price * gas / native_to_usdc_divisor

unfoldable pub profitable : ℕ → ℕ → ℕ → Bool
profitable fee cost margin = leb (cost * (full_bps + margin)) (fee * full_bps)

unfoldable pub minimum_profitable_budget : ℕ → ℕ → ℕ → ℕ → Option ℕ
minimum_profitable_budget fee_bp price gas margin =
    if leb fee_bp 0
    then none
    else (let required = gas_cost_in_usdc price gas * (full_bps + margin) / full_bps in
        let budget = required * full_bps / fee_bp in
        some (if ltb (budget * fee_bp) (required * full_bps) then budget + 1 else budget))

-- The branch of `decide` for a disputed job.
decide_disputed : KeeperCandidate → ℕ → KeeperEconomics → ℕ → KeeperAction
decide_disputed c now e fee =
    let outcome = get_or c.decided_outcome 0 in
    if nat_beq outcome 0
    then (elim c.resolve_by [
      | none ↦ skip c.job_id awaiting_decision
      | some by ↦ if leb by now then lapse c.job_id by else skip c.job_id awaiting_decision
    ])
    else (if nat_beq outcome 2 || c.dispute_closed
        then skip c.job_id disputed
        else (let cost = gas_cost_in_usdc e.gas_price_wei e.finalize_decided_gas in
            if not (profitable fee cost e.minimum_margin_bps)
            then skip c.job_id unprofitable
            else finalize_decided c.job_id fee cost))

-- The rest of `decide`, for a job without a dispute.
decide_open : KeeperCandidate → ℕ → KeeperEconomics → ℕ → KeeperAction
decide_open c now e fee = elim c.challenge_end [
  | none ↦ skip c.job_id window_open
  | some end ↦
      if ltb now end
      then skip c.job_id window_open
      else (let cost = gas_cost_in_usdc e.gas_price_wei e.finalize_gas in
          if not (profitable fee cost e.minimum_margin_bps)
          then skip c.job_id unprofitable
          else finalize c.job_id fee cost)
]

unfoldable pub decide : KeeperCandidate → ℕ → KeeperEconomics → KeeperAction
unfolding decide_disputed decide_open
decide c now e =
    if not (nat_beq c.status 2)
    then skip c.job_id not_submitted
    else (let fee = keeper_fee c.budget (get_or c.evaluator_fee_bp 0) in
        if c.disputed then decide_disputed c now e fee else decide_open c now e fee)

unfoldable pub decide_all : List KeeperCandidate → ℕ → KeeperEconomics → List KeeperAction
decide_all cs now e = map (λ c. decide c now e) cs

-- One round of the loop of `oldestPendingAge`.
age_of : KeeperCandidate → ℕ → ℕ → ℕ
age_of c now oldest =
    if not (nat_beq c.status 2) || c.disputed then oldest else (elim c.challenge_end [
      | none ↦ oldest
      | some end ↦
          if ltb now end then oldest else (if ltb oldest (now - end) then now - end else oldest)
    ])

oldest_from : ℕ → List KeeperCandidate → ℕ → ℕ
oldest_from oldest [] now = oldest
oldest_from oldest (c ∷ cs) now = oldest_from (age_of c now oldest) cs now

unfoldable pub oldest_pending_age : List KeeperCandidate → ℕ → ℕ
unfolding oldest_from age_of
oldest_pending_age cs now = oldest_from 0 cs now
