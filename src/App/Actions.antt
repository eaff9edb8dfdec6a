-- ===== src/App/Actions.antt =====
-- app/src/lib/actions.ts: which calls are open at a time. Whether two addresses are equal is an
-- argument, the chain library's `isAddressEqual`.
use square.Base.{ℕ, ◌+◌, Bool, true, false, not, ◌&&◌, leb, ltb, nat_beq, if◌then◌else◌, Text}
use square.Base.Int.{ℤ, pos, negsuc, sub_ℕ}
use square.Indexer.JobStatus

pub record JobSummary : Type 0 where
  pub client : Text
  pub provider : Text
  pub evaluator : Text
  pub status : ℕ
  pub budget : ℕ
  pub expired_at : ℕ
  pub settlement_horizon : ℕ
  pub challenge_end : ℕ
  pub disputed : Bool

-- A deadline may lie before zero.
unfoldable pub submit_deadline : JobSummary → ℤ
submit_deadline job = sub_ℕ job.expired_at job.settlement_horizon

is_by : ℕ → ℤ → Bool
is_by now (pos end) = leb now end
is_by now (negsuc end) = false

unfoldable pub submit_available : JobSummary → ℕ → Bool
unfolding is_by
submit_available job now =
    nat_beq job.status JobStatus.funded && ltb now job.expired_at && is_by now (submit_deadline job)

unfoldable pub challenge_window_closed : ℕ → ℕ → Bool
challenge_window_closed challenge_end now = ltb 0 challenge_end && leb challenge_end now

pub record ExpiryFloor : Type 0 where
  pub at : ℕ
  pub horizon : ℕ
  pub margin : ℕ

unfoldable pub minimum_expiry : ℕ → ℕ → ExpiryFloor
minimum_expiry now settlement_horizon =
    let margin = settlement_horizon in
    record { at = now + settlement_horizon + margin; horizon = settlement_horizon; margin = margin }

module _ (is_address_equal : Text → Text → Bool) where
  unfoldable pub keeper_evaluates : JobSummary → Text → Bool
  keeper_evaluates job keeper = is_address_equal job.evaluator keeper

  unfoldable pub refund_available : JobSummary → Text → ℕ → Bool
  refund_available job keeper now =
      if ltb now job.expired_at
      then false
      else if nat_beq job.status JobStatus.funded
      then true
      else nat_beq job.status JobStatus.submitted && not (keeper_evaluates job keeper)

  unfoldable pub dispute_available : JobSummary → Text → ℕ → Bool
  dispute_available job keeper now =
      nat_beq job.status JobStatus.submitted
      && keeper_evaluates job keeper
      && not (challenge_window_closed job.challenge_end now)
