-- ===== src/Keeper/Failures.antt =====
-- services/keeper/src/run.ts: failures in a row, and the give-ups that a restart restores.
use square.Base.{
  ℕ, ◌+◌, ◌-◌, ◌*◌, ◌^◌, min, ◌≡◌, refl, ap, sym, subst, ◌∙◌, inl, inr, true, Bool, none, some,
  List, [], ◌∷◌, ◌++◌, arith, length, leb, ltb, nat_beq, nat_eq, if◌then◌else◌, any, Bool-cases,
  Option-cases, ◌||◌, Text, get_or,
}
use square.Base.JsMap
use square.Base.JsMap.{JsMap, get-set, get_self}
use square.Base.Sort.{insert, sort}
use square.Keeper.JobState.{
  Rows, KeeperJobState, mark_finalize_gave_up, list_finalize_gave_up, ids_where,
}
use square.Keeper.Retry.{
  KeeperRetryPolicy, RetryState, ActionName, Keeper, backoff_seconds, failed_once, marked,
  note_failure, restore_all, restore_give_ups, is_blocked, no_retry, given_up,
}
use square.Keeper.Chain.{Chain, Mirror, row_of}
use square.Keeper.Report.{KeeperOptions}
use square.Keeper.Tick.{tick}
use square.Keeper.Blocked.{IsSpared}
use square.Keeper.Blocked.Whole.{tick-IsSpared}

-- A failure: the call, the message and the time.
abbrev Failure : Type 0
Failure = ActionName × Text × ℕ

unfoldable pub note_failures : KeeperRetryPolicy → ℕ → List Failure → Keeper → Keeper
note_failures policy id [] k = k
note_failures policy id ((action, message, now) ∷ fs) k =
    note_failures policy id fs (note_failure policy id action message now k)

abbrev attempts_of : ℕ → Keeper → ℕ
attempts_of id k = elim (JsMap.get id k.retries) [ none ↦ 0 | some r ↦ r.attempts ]

-- What a failure leaves of a job.
pub record IsNoted (policy : KeeperRetryPolicy) (id attempts now : ℕ) (k : Keeper) : Type 0 where
  pub retry : RetryState
  pub found : JsMap.get id k.retries ≡ some retry
  pub counted : retry.attempts ≡ attempts
  pub given : retry.gave_up ≡ leb policy.give_up_after attempts
  pub waits :
      retry.next_attempt_at
      ≡ now + min policy.max_delay_seconds (policy.base_delay_seconds * 2 ^ (attempts - 1))
  pub kept : retry.gave_up ≡ true → (row_of k.rows id).finalize_gave_up ≡ true

marked_rest :
    (policy : KeeperRetryPolicy) (state : RetryState) (message : Text)
    → ((marked policy state message).attempts ≡ state.attempts)
      × ((marked policy state message).gave_up ≡ state.gave_up)
      × ((marked policy state message).next_attempt_at ≡ state.next_attempt_at)
unfolding marked
marked_rest policy state message = (ground arith, ground arith, ground arith)

backoff_seconds_lem :
    (policy : KeeperRetryPolicy) (attempts : ℕ)
    → backoff_seconds policy attempts
      ≡ min policy.max_delay_seconds (policy.base_delay_seconds * 2 ^ (attempts - 1))
unfolding backoff_seconds
backoff_seconds_lem policy attempts = ground arith

previous_attempts :
    (id now : ℕ) (k : Keeper)
    → (get_or (JsMap.get id k.retries) (no_retry now)).attempts ≡ attempts_of id k
previous_attempts id now k = ground arith

kept_row :
    (policy : KeeperRetryPolicy) (id : ℕ) (rows : Rows) (gave_up : Bool)
    → gave_up ≡ true
    → (row_of (if gave_up then mark_finalize_gave_up id rows else rows) id).finalize_gave_up ≡ true
unfolding mark_finalize_gave_up
kept_row policy id rows gave_up yes_gave_up =
    rw (yes_gave_up, get_self id (record (row_of rows id) { finalize_gave_up = true }) rows) refl

note_failure-IsNoted :
    (policy : KeeperRetryPolicy) (id : ℕ) (action : ActionName) (message : Text) (now : ℕ)
    (k : Keeper)
    → IsNoted policy id (attempts_of id k + 1) now (note_failure policy id action message now k)
unfolding note_failure failed_once mark_finalize_gave_up
note_failure-IsNoted policy id action message now k =
    let state = failed_once policy now (get_or (JsMap.get id k.retries) (no_retry now)) in
    let rest = marked_rest policy state message in
    let attempts = previous_attempts id now k in
    record {
      retry = marked policy state message;
      found = get_self id (marked policy state message) k.retries;
      counted = rest.0 ∙ ap (λ n. n + 1) attempts;
      given = rest.1 ∙ ap (λ n. leb policy.give_up_after (n + 1)) attempts;
      waits =
          rest.2
          ∙ ap (λ n. now + backoff_seconds policy (n + 1)) attempts
          ∙ ap (λ d. now + d) (backoff_seconds_lem policy (attempts_of id k + 1));
      kept = λ gave_up. kept_row policy id k.rows _ (sym rest.1 ∙ gave_up);
    }

-- A failure counts on.
noted_attempts :
    (policy : KeeperRetryPolicy) (id : ℕ) (action : ActionName) (message : Text) (now : ℕ)
    (k : Keeper)
    → attempts_of id (note_failure policy id action message now k) ≡ attempts_of id k + 1
noted_attempts policy id action message now k =
    let noted = note_failure-IsNoted policy id action message now k in
    ap (λ o. elim o as (λ x. ℕ) [ none ↦ 0 | some r ↦ r.attempts ]) noted.found ∙ noted.counted

note_failures_from :
    (policy : KeeperRetryPolicy) (id : ℕ) (fs : List Failure) (action : ActionName) (message : Text)
    (now start : ℕ) (k : Keeper)
    → attempts_of id k ≡ start
    → IsNoted policy id
        (start + length fs + 1)
        now
        (note_failures policy id (fs ++ (action, message, now) ∷ []) k)
unfolding note_failures
note_failures_from policy id [] action message now start k here =
    subst (λ n. IsNoted policy id n now (note_failure policy id action message now k))
      (ap (λ n. n + 1) here ∙ omega arith) (note_failure-IsNoted policy id action message now k)
note_failures_from policy id ((a, m, t) ∷ fs) action message now start k here =
    subst
      (λ n. IsNoted policy id n now (
        note_failures policy id (fs ++ (action, message, now) ∷ [])
          (note_failure policy id a m t k)))
      (omega arith)
      (note_failures_from policy id fs action message now (start + 1)
        (note_failure policy id a m t k) (noted_attempts policy id a m t k ∙ ap (λ n. n + 1) here))

-- Failures of a job in a row, from none: the attempts are counted, the job is given up once there are as many
-- as the policy says and not before, which its row in the database then says too, and the next attempt comes
-- the base delay after the last failure, doubled with every failure before it and capped.
pub note_failures-IsNoted :
    (policy : KeeperRetryPolicy) (id : ℕ) (fs : List Failure) (action : ActionName) (message : Text)
    (now : ℕ) (k : Keeper)
    → JsMap.get id k.retries ≡ none
    → IsNoted policy id
        (length fs + 1)
        now
        (note_failures policy id (fs ++ (action, message, now) ∷ []) k)
note_failures-IsNoted policy id fs action message now k fresh =
    subst
      (λ n. IsNoted policy id n now (note_failures policy id (fs ++ (action, message, now) ∷ []) k))
      (omega arith) (note_failures_from policy id fs action message now 0 k (ground (arith, fresh)))

-- The ids of the rows that pass.
listed :
    (test : KeeperJobState → Bool) (id : ℕ) (row : KeeperJobState) (rows : Rows)
    → JsMap.get id rows ≡ some row
    → test row ≡ true
    → any (λ j. nat_beq j id) (ids_where test rows) ≡ true
unfolding ids_where JsMap.get
listed test id row [] found passes = ground arith
listed test id row ((j, other) ∷ rows) found passes = elim (Bool-cases (nat_beq j id)) [
  | inl same ↦ ground (arith, found, passes, same)
  | inr next ↦ ground (arith, listed test id row rows (ground (arith, found, next)) passes)
]

any-insert :
    (test : ℕ → Bool) (x : ℕ) (xs : List ℕ) → any test (insert ltb x xs) ≡ (test x || any test xs)
unfolding insert
any-insert test x [] = refl
any-insert test x (y ∷ ys) = ground (arith, any-insert test x ys)

any-sort : (test : ℕ → Bool) (xs : List ℕ) → any test (sort ltb xs) ≡ any test xs
unfolding sort
any-sort test [] = refl
any-sort test (x ∷ xs) = any-insert test x (sort ltb xs) ∙ ap (λ b. test x || b) (any-sort test xs)

-- A give-up that is there stays.
restore_all_kept :
    (policy : KeeperRetryPolicy) (ids : List ℕ) (id : ℕ) (r : RetryState)
    (retries : JsMap ℕ RetryState)
    → JsMap.get id retries ≡ some r
    → JsMap.get id (restore_all policy ids retries) ≡ some r
unfolding restore_all
restore_all_kept policy [] id r retries found = found
restore_all_kept policy (j ∷ ids) id r retries found =
    restore_all_kept policy ids id r _ (elim (Option-cases (JsMap.get j retries)) [
      | inl gone ↦ rw (gone) (ground (arith, get-set j id (given_up policy) retries, found, gone))
      | inr (s, there) ↦ rw (there) found
    ])

restore_all_lem :
    (policy : KeeperRetryPolicy) (ids : List ℕ) (id : ℕ) (retries : JsMap ℕ RetryState)
    → JsMap.get id retries ≡ none
    → any (λ j. nat_beq j id) ids ≡ true
    → JsMap.get id (restore_all policy ids retries) ≡ some (given_up policy)
unfolding restore_all
restore_all_lem policy [] id retries fresh there = ground arith
restore_all_lem policy (j ∷ ids) id retries fresh there = elim (Bool-cases (nat_beq j id)) [
  | inl same ↦
      restore_all_kept policy ids id (given_up policy) _
        (ground (arith, same, fresh, get-set j id (given_up policy) retries))
  | inr other ↦
      restore_all_lem policy ids id _
        (ground (arith, other, fresh, get-set j id (given_up policy) retries))
        (ground (arith, there, other))
]

-- A fresh process that has restored the give-ups of the database makes no call for a job that an earlier
-- process gave up on, whatever a tick meets.
pub restore_give_ups-IsSpared :
    (o : KeeperOptions) (mirror : Mirror) (chain : Chain) (now : ℕ) (k : Keeper) (id : ℕ)
    (row : KeeperJobState)
    → k.retries ≡ []
    → JsMap.get id k.rows ≡ some row
    → row.finalize_gave_up ≡ true
    → IsSpared id (given_up o.policy) (tick o mirror chain now (restore_give_ups o.policy k))
unfolding restore_give_ups list_finalize_gave_up given_up is_blocked JsMap.get
restore_give_ups-IsSpared o mirror chain now k id row fresh found gave_up =
    tick-IsSpared o mirror chain now (restore_give_ups o.policy k) id (given_up o.policy)
      (restore_all_lem o.policy (list_finalize_gave_up k.rows) id k.retries
        (ap (JsMap.get id) fresh)
        (any-sort (λ j. nat_beq j id) (ids_where (λ r. r.finalize_gave_up) k.rows)
          ∙ listed (λ r. r.finalize_gave_up) id row k.rows found gave_up))
      refl
