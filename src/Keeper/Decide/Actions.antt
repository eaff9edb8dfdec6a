-- ===== src/Keeper/Decide/Actions.antt =====
-- When the keeper acts (services/keeper/src/decide.ts, `decide`).
use square.Base.{ℕ, ◌*◌, ◌+◌, ◌≤◌, ◌≡◌, ◌≢◌, ◌↔◌, true, false, some, none, Option, arith, get_or}
use square.Keeper.Decide.{
  KeeperCandidate, KeeperEconomics, KeeperAction, finalize, finalize_decided, lapse, skip, full_bps,
  keeper_fee, gas_cost_in_usdc, profitable, decide,
}

abbrev pub fee_of : KeeperCandidate → ℕ
fee_of c = keeper_fee c.budget (get_or c.evaluator_fee_bp 0)

-- The fee covers the cost with the margin.
abbrev pub Pays : ℕ → ℕ → ℕ → Type 0
Pays fee cost margin = cost * (full_bps + margin) ≤ fee * full_bps

-- A time that is known and not in the future.
abbrev pub HasPassed : Option ℕ → ℕ → Type 0
HasPassed none now = ⊥
HasPassed (some t) now = t ≤ now

-- The call `finalize` is chosen exactly for a submitted, undisputed job whose challenge window
-- has closed and whose fee covers the gas with the margin; it carries that fee and that cost.
pub decide-finalize_iff :
    (c : KeeperCandidate) (now : ℕ) (e : KeeperEconomics) (j fee cost : ℕ)
    → (decide c now e ≡ finalize j fee cost) ↔ (
        (c.status ≡ 2)
        × (c.disputed ≡ false)
        × HasPassed c.challenge_end now
        × Pays fee cost e.minimum_margin_bps
        × (j ≡ c.job_id)
        × (fee ≡ fee_of c)
        × (cost ≡ gas_cost_in_usdc e.gas_price_wei e.finalize_gas))
unfolding decide profitable
decide-finalize_iff c now e j fee cost = (λ h. ground arith, λ h. ground arith)

-- The call `finalizeDecided` is chosen exactly for a submitted, disputed job with a decided
-- outcome that is not 2, whose dispute is open and whose fee covers the gas with the margin.
pub decide-finalize_decided_iff :
    (c : KeeperCandidate) (now : ℕ) (e : KeeperEconomics) (j fee cost : ℕ)
    → (decide c now e ≡ finalize_decided j fee cost) ↔ (
        (c.status ≡ 2)
        × (c.disputed ≡ true)
        × (get_or c.decided_outcome 0 ≢ 0)
        × (get_or c.decided_outcome 0 ≢ 2)
        × (c.dispute_closed ≡ false)
        × Pays fee cost e.minimum_margin_bps
        × (j ≡ c.job_id)
        × (fee ≡ fee_of c)
        × (cost ≡ gas_cost_in_usdc e.gas_price_wei e.finalize_decided_gas))
unfolding decide profitable
decide-finalize_decided_iff c now e j fee cost = (λ h. ground arith, λ h. ground arith)

-- The call `lapse` is chosen exactly for a submitted, disputed, undecided job whose resolution
-- deadline has passed, whatever the gas costs.
pub decide-lapse_iff :
    (c : KeeperCandidate) (now : ℕ) (e : KeeperEconomics) (j by : ℕ)
    → (decide c now e ≡ lapse j by) ↔ (
        (c.status ≡ 2)
        × (c.disputed ≡ true)
        × (get_or c.decided_outcome 0 ≡ 0)
        × (c.resolve_by ≡ some by)
        × (by ≤ now)
        × (j ≡ c.job_id))
unfolding decide
decide-lapse_iff c now e j by = (λ h. ground arith, λ h. ground arith)

abbrev IsSkip : KeeperAction → Type 0
IsSkip (skip j r) = Unit
IsSkip _ = ⊥

-- What the keeper decides to do at one time it still decides later: waiting never turns a call
-- into a skip, nor one call into another.
pub decide_stable :
    (c : KeeperCandidate) (now later : ℕ) (e : KeeperEconomics)
    → now ≤ later
    → ¬ (IsSkip (decide c now e))
    → decide c later e ≡ decide c now e
unfolding decide
decide_stable c now later e h n = ground arith
