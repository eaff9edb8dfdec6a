-- ===== src/Keeper/Retry.antt =====
-- services/keeper/src/run.ts: the keeper's memory, and what it makes of failures.
use square.Base.{
  ℕ, ◌+◌, ◌-◌, ◌*◌, ◌^◌, Bool, true, false, not, ◌&&◌, ◌||◌, Option, none, some, List, [], ◌∷◌,
  ◌++◌, Text, codes, decimal, text_beq, ltb, leb, if◌then◌else◌, nat_eq, get_or, length, take, any,
}
use square.Base.JsMap
use square.Base.JsMap.{JsMap}
use square.Keeper.Gas.{GasAssumption}
use square.Keeper.JobState.{Rows, list_finalize_gave_up, mark_finalize_gave_up}

pub record KeeperRetryPolicy : Type 0 where
  pub base_delay_seconds : ℕ
  pub max_delay_seconds : ℕ
  pub give_up_after : ℕ
  pub max_journal_rows_per_job : ℕ

abbrev pub default_retry_policy : KeeperRetryPolicy
default_retry_policy = record {
  base_delay_seconds = 60;
  max_delay_seconds = 3600;
  give_up_after = 6;
  max_journal_rows_per_job = 3;
}

-- The markers of what was journaled are kept in a `Set`.
pub record RetryState : Type 0 where
  pub attempts : ℕ
  pub next_attempt_at : ℕ
  pub gave_up : Bool
  pub journaled : List Text

-- packages/data/src/repositories/keeperActions.ts.
pub data ActionName : Type 0 where
  finalize finalize_decided lapse settle_bond record_expiry skipped : ActionName

-- A row without its hash and its time.
pub record KeeperActionInput : Type 0 where
  pub job_id : ℕ
  pub action : ActionName
  pub gas_used : Option ℕ
  pub fee_earned : Option ℕ
  pub reason : Option Text
  pub gave_up : Bool

abbrev pub plain_action : ℕ → ActionName → KeeperActionInput
plain_action id action = record {
  job_id = id;
  action = action;
  gas_used = none;
  fee_earned = none;
  reason = none;
  gave_up = false;
}

-- What the keeper holds, with its rows in the database: `rows` of keeper_job_state, `actions` of
-- keeper_actions, the newest last.
pub record Keeper : Type 0 where
  pub retries : JsMap ℕ RetryState
  pub journaled_skips : List ℕ
  pub warned_near_expiry : List ℕ
  pub gas : GasAssumption
  pub rows : Rows
  pub actions : List KeeperActionInput

unfoldable pub append : KeeperActionInput → Keeper → Keeper
append a k = record k { actions = k.actions ++ a ∷ [] }

unfoldable pub backoff_seconds : KeeperRetryPolicy → ℕ → ℕ
backoff_seconds policy attempts =
    let scaled = policy.base_delay_seconds * 2 ^ (attempts - 1) in
    if ltb policy.max_delay_seconds scaled then policy.max_delay_seconds else scaled

abbrev pub no_retry : ℕ → RetryState
no_retry now = record { attempts = 0; next_attempt_at = now; gave_up = false; journaled = [] }

-- The retry state after one more failure, before its marker.
unfoldable pub failed_once : KeeperRetryPolicy → ℕ → RetryState → RetryState
failed_once policy now state = record state {
  attempts = state.attempts + 1;
  gave_up = leb policy.give_up_after (state.attempts + 1);
  next_attempt_at = now + backoff_seconds policy (state.attempts + 1);
}

unfoldable pub marker_of : RetryState → Text → Text
marker_of state message = if state.gave_up then codes "gaveUp" else take 120 message

-- Whether a failure gets a row of the journal.
unfoldable pub is_journaled_now : KeeperRetryPolicy → RetryState → Text → Bool
is_journaled_now policy state message =
    not (any (λ m. text_beq m (marker_of state message)) state.journaled)
    && (state.gave_up || ltb (length state.journaled) policy.max_journal_rows_per_job)

unfoldable pub give_up_reason : ℕ → Text → Text
give_up_reason attempts message =
    take 200 (codes "gave up after " ++ decimal attempts ++ codes " attempts: " ++ message)

unfoldable pub reason_of : RetryState → Text → Text
reason_of state message =
    if state.gave_up then give_up_reason state.attempts message else take 200 message

unfoldable pub marked : KeeperRetryPolicy → RetryState → Text → RetryState
marked policy state message =
    if is_journaled_now policy state message
    then record state { journaled = state.journaled ++ marker_of state message ∷ [] }
    else state

unfoldable pub note_failure : KeeperRetryPolicy → ℕ → ActionName → Text → ℕ → Keeper → Keeper
note_failure policy id action message now k =
    let state = failed_once policy now (get_or (JsMap.get id k.retries) (no_retry now)) in
    let row = record (plain_action id action) {
      reason = some (reason_of state message);
      gave_up = state.gave_up;
    } in
    record k {
      retries = JsMap.set id (marked policy state message) k.retries;
      actions = if is_journaled_now policy state message then k.actions ++ row ∷ [] else k.actions;
      rows = if state.gave_up then mark_finalize_gave_up id k.rows else k.rows;
    }

unfoldable pub given_up : KeeperRetryPolicy → RetryState
given_up policy = record {
  attempts = policy.give_up_after;
  next_attempt_at = 0;
  gave_up = true;
  journaled = [];
}

unfoldable pub restore_all : KeeperRetryPolicy → List ℕ → JsMap ℕ RetryState → JsMap ℕ RetryState
restore_all policy [] retries = retries
restore_all policy (id ∷ ids) retries = restore_all policy ids (elim (JsMap.get id retries) [
  | some state ↦ retries
  | none ↦ JsMap.set id (given_up policy) retries
])

unfoldable pub restore_give_ups : KeeperRetryPolicy → Keeper → Keeper
restore_give_ups policy k = record k {
  retries = restore_all policy (list_finalize_gave_up k.rows) k.retries;
}

-- Whether a job is given up, or its next attempt is still to come.
unfoldable pub is_blocked : ℕ → Option RetryState → Bool
is_blocked now none = false
is_blocked now (some r) = r.gave_up || ltb now r.next_attempt_at
