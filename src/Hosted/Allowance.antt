-- ===== src/Hosted/Allowance.antt =====
-- packages/hosted/src/allowance.ts: PolicyAllowance. What the chain answers is an argument: the policy,
-- what was spent today, and the status of every job.
pub mod Laws
use square.Base.{
  ℕ, ◌+◌, ◌-◌, Bool, true, false, not, ◌&&◌, Option, none, some, List, [], ◌∷◌, nat_eq, nat_beq,
  any, ltb, leb, sum, if◌then◌else◌, length,
}
use square.Base.JsMap
use square.Base.JsMap.{JsMap, keys, values}

pub record AllowanceView : Type 0 where
  pub policy : Bool
  pub daily_limit : ℕ
  pub spent_today : ℕ
  pub in_flight : ℕ
  pub available : ℕ

pub record PolicyAllowance : Type 0 where
  pub max_per_job : Option ℕ
  pub in_flight : JsMap ℕ ℕ

-- `policyOf`, `spentToday` and `getJobRecord` of the client; `committed` is false where the
-- registry's commitment is zero.
pub record Chain : Type 0 where
  pub committed : Bool
  pub daily_limit : ℕ
  pub spent_today : ℕ
  pub status_of : ℕ → ℕ

-- Completed, Rejected, Expired.
abbrev pub terminal : List ℕ
terminal = 3 ∷ 4 ∷ 5 ∷ []

unfoldable pub funded : PolicyAllowance → ℕ → ℕ → PolicyAllowance
funded a job_id budget = record a { in_flight = JsMap.set job_id budget a.in_flight }

unfoldable pub restore : PolicyAllowance → JsMap ℕ ℕ → PolicyAllowance
restore a [] = a
restore a ((job_id, budget) ∷ jobs) = restore (funded a job_id budget) jobs

unfoldable pub is_settled : Chain → ℕ → Bool
is_settled chain job_id = any (λ t. nat_beq (chain.status_of job_id) t) terminal

-- The loop over the keys that there are when it begins.
settle_keys : Chain → List ℕ → JsMap ℕ ℕ → JsMap ℕ ℕ
settle_keys chain [] m = m
settle_keys chain (k ∷ ks) m =
    settle_keys chain ks (if is_settled chain k then JsMap.delete k m else m)

unfoldable pub settle : Chain → PolicyAllowance → PolicyAllowance
unfolding settle_keys
settle chain a = record a { in_flight = settle_keys chain (keys a.in_flight) a.in_flight }

-- `remaining > 0n ? remaining : 0n` is the subtraction on natural numbers.
unfoldable pub view : Chain → PolicyAllowance → AllowanceView × PolicyAllowance
view chain a =
    let b = settle chain a in
    let reserved = sum (values b.in_flight) in
    let daily_limit = if chain.committed then chain.daily_limit else 0 in
    (
      record {
        policy = chain.committed;
        daily_limit = daily_limit;
        spent_today = chain.spent_today;
        in_flight = reserved;
        available = daily_limit - chain.spent_today - reserved;
      },
      b,
    )

-- Why an amount is refused. The code gives a text for people.
pub data Refusal : Type 0 where
  above_job_limit no_policy above_available : Refusal

exceeds : ℕ → Option ℕ → Bool
exceeds amount none = false
exceeds amount (some most) = ltb most amount

unfoldable pub admit : Chain → PolicyAllowance → ℕ → Option Refusal × PolicyAllowance
unfolding exceeds
admit chain a amount =
    let (v, b) = view chain a in
    if exceeds amount a.max_per_job
    then (some above_job_limit, a)
    else if not v.policy
    then (some no_policy, b)
    else if ltb v.available amount
    then (some above_available, b)
    else (none, b)
