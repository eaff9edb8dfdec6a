-- ===== src/Keeper/Expiries/Drained.antt =====
-- services/keeper/src/run.ts: what a sweep leaves to be swept.
use square.Base.{
  ℕ, ◌+◌, ◌-◌, ◌≤◌, ◌<◌, ◌≡◌, ◌≢◌, refl, ap, subst, ◌∙◌, inl, inr, true, false, Bool, some, List,
  [], ◌∷◌, arith, leb, nat_eq, nat_beq, nat_beq_iff, Bool-cases, All, map, Text,
}
use native.Mathlib.Nat.{one-le-mul, one-le-pow}
use square.Base.JsMap
use square.Base.JsMap.{get-set, get_self}
use square.Keeper.JobState.{
  Rows, KeeperJobState, mark_expiry_recorded, bump_expiry_attempts, schedule_expiry_retry,
}
use square.Keeper.Retry.{KeeperRetryPolicy, Keeper, append, backoff_seconds}
use square.Keeper.Chain.{
  Chain, Mirror, row_of, is_due, Sent-cases, record_expiry_call, list_expired_with_agent,
}
use square.Keeper.Report.{KeeperOptions}
use square.Keeper.Expiries.{
  Sweep, note_expiry_failure, expiry_done, sweep_job, sweep_jobs, sweep_expiries,
}

row_elsewhere :
    (other id : ℕ) (row : KeeperJobState) (rows : Rows)
    → other ≢ id
    → row_of (JsMap.set other row rows) id ≡ row_of rows id
row_elsewhere other id row rows ne = ground (arith, get-set other id row rows)

backoff-positive :
    (policy : KeeperRetryPolicy) (attempts : ℕ)
    → 1 ≤ policy.base_delay_seconds
    → 1 ≤ policy.max_delay_seconds
    → 1 ≤ backoff_seconds policy attempts
unfolding backoff_seconds
backoff-positive policy attempts base max =
    let scaled = one-le-mul base (one-le-pow (attempts - 1) 2 (omega arith)) in
    ground (arith, scaled)

recorded_row :
    (id now : ℕ) (rows : Rows) → is_due now (row_of (mark_expiry_recorded id rows) id) ≡ false
unfolding mark_expiry_recorded is_due
recorded_row id now rows =
    rw (get_self id (record (row_of rows id) { expiry_recorded = true }) rows) refl

scheduled_row :
    (id at now : ℕ) (gave_up : Bool) (row : KeeperJobState) (rows : Rows)
    → now < at
    → is_due now (row_of (schedule_expiry_retry id at gave_up (JsMap.set id row rows)) id) ≡ false
unfolding schedule_expiry_retry is_due
scheduled_row id at now gave_up row rows later = ground (
  arith,
  get_self id row rows,
  get_self id (record row { expiry_next_at = some at; expiry_gave_up = gave_up })
      (JsMap.set id row rows),
)

failed_row :
    (policy : KeeperRetryPolicy) (id : ℕ) (message : Text) (now : ℕ) (s : Sweep)
    → 1 ≤ policy.base_delay_seconds
    → 1 ≤ policy.max_delay_seconds
    → is_due now (row_of (note_expiry_failure policy id message now s).keeper.rows id) ≡ false
unfolding note_expiry_failure bump_expiry_attempts
failed_row policy id message now s base max =
    let attempts = (row_of s.keeper.rows id).expiry_attempts + 1 in
    scheduled_row id (now + backoff_seconds policy attempts) now (leb policy.give_up_after attempts)
      (record (row_of s.keeper.rows id) { expiry_attempts = attempts }) s.keeper.rows
      (omega (arith, backoff-positive policy attempts base max))

-- What a job's sweep does to the row of another.
recorded_elsewhere :
    (other id : ℕ) (rows : Rows)
    → other ≢ id
    → row_of (mark_expiry_recorded other rows) id ≡ row_of rows id
unfolding mark_expiry_recorded
recorded_elsewhere other id rows ne = row_elsewhere other id _ rows ne

scheduled_elsewhere :
    (other id at : ℕ) (gave_up : Bool) (row : KeeperJobState) (rows : Rows)
    → other ≢ id
    → row_of (schedule_expiry_retry other at gave_up (JsMap.set other row rows)) id ≡ row_of rows id
unfolding schedule_expiry_retry
scheduled_elsewhere other id at gave_up row rows ne = ground (
  arith,
  get_self other row rows,
  get-set other id row rows,
  get-set other id (record row { expiry_next_at = some at; expiry_gave_up = gave_up })
      (JsMap.set other row rows),
)

failed_elsewhere :
    (policy : KeeperRetryPolicy) (other id : ℕ) (message : Text) (now : ℕ) (s : Sweep)
    → other ≢ id
    → row_of (note_expiry_failure policy other message now s).keeper.rows id
      ≡ row_of s.keeper.rows id
unfolding note_expiry_failure bump_expiry_attempts
failed_elsewhere policy other id message now s ne =
    scheduled_elsewhere other id _ _ _ s.keeper.rows ne

-- What the sweep of a job comes to: its expiry is marked, or a failure is noted.
data Swept (o : KeeperOptions) (now id : ℕ) (s next : Sweep) : Type 0 where
  marked : next.keeper.rows ≡ mark_expiry_recorded id s.keeper.rows → Swept o now id s next
  noted :
      (message : Text)
      → next ≡ note_expiry_failure o.policy id message now s
      → Swept o now id s next

sweep_job-cases :
    (o : KeeperOptions) (chain : Chain) (now id : ℕ) (s : Sweep)
    → Swept o now id s (sweep_job o chain now id s)
unfolding sweep_job expiry_done append
sweep_job-cases o chain now id s = elim (Bool-cases (chain.recorded id)) [
  | inl already ↦ rw (already, sweep_job) (marked refl)
  | inr new ↦ elim (Sent-cases (chain.send record_expiry_call id)) [
    | inl (gas, fee, mined) ↦ rw (new, mined, sweep_job) (marked refl)
    | inr (message, error) ↦ rw (new, error, sweep_job) (noted message refl)
  ]
]

module _ (o : KeeperOptions) (chain : Chain) (now : ℕ) (base : 1 ≤ o.policy.base_delay_seconds)
    (max : 1 ≤ o.policy.max_delay_seconds) where
  swept_row :
      (id : ℕ) (s : Sweep) → is_due now (row_of (sweep_job o chain now id s).keeper.rows id) ≡ false
  swept_row id s = elim (sweep_job-cases o chain now id s) [
    | marked rows ↦ ap (λ t. is_due now (row_of t id)) rows ∙ recorded_row id now s.keeper.rows
    | noted message same ↦
        ap (λ t. is_due now (row_of t.keeper.rows id)) same
        ∙ failed_row o.policy id message now s base max
  ]

  swept_elsewhere :
      (other id : ℕ) (s : Sweep)
      → other ≢ id
      → row_of (sweep_job o chain now other s).keeper.rows id ≡ row_of s.keeper.rows id
  swept_elsewhere other id s ne = elim (sweep_job-cases o chain now other s) [
    | marked rows ↦ ap (λ t. row_of t id) rows ∙ recorded_elsewhere other id s.keeper.rows ne
    | noted message same ↦
        ap (λ t. row_of t.keeper.rows id) same ∙ failed_elsewhere o.policy other id message now s ne
  ]

  still_done :
      (ids : List ℕ) (id : ℕ) (s : Sweep)
      → is_due now (row_of s.keeper.rows id) ≡ false
      → is_due now (row_of (sweep_jobs o chain now ids s).keeper.rows id) ≡ false
  unfolding sweep_jobs
  still_done [] id s done = done
  still_done (other ∷ ids) id s done =
      still_done ids id (sweep_job o chain now other s) (elim (Bool-cases (nat_beq other id)) [
        | inl same ↦
            subst (λ j. is_due now (row_of (sweep_job o chain now other s).keeper.rows j) ≡ false)
              ((nat_beq_iff other id).0 same) (swept_row other s)
        | inr ne ↦
            ap (is_due now) (swept_elsewhere other id s (λ same. ground (arith, same, ne))) ∙ done
      ])

  sweep_jobs_done :
      (ids : List ℕ) (s : Sweep)
      → All (λ id. is_due now (row_of (sweep_jobs o chain now ids s).keeper.rows id) ≡ false) ids
  unfolding sweep_jobs
  sweep_jobs_done [] s = tt
  sweep_jobs_done (id ∷ ids) s = (
    still_done ids id (sweep_job o chain now id s) (swept_row id s),
    sweep_jobs_done ids (sweep_job o chain now id s),
  )

-- After a sweep none of the jobs that it took is due at its time, where both delays are at least one second:
-- each is recorded, given up, or waits for a later attempt.
pub sweep_expiries-drains :
    (o : KeeperOptions) (batch_size : ℕ) (mirror : Mirror) (chain : Chain) (now : ℕ) (k : Keeper)
    → 1 ≤ o.policy.base_delay_seconds
    → 1 ≤ o.policy.max_delay_seconds
    → All
        (λ id.
          is_due now (row_of (sweep_expiries o batch_size mirror chain now k).keeper.rows id)
          ≡ false)
        (map (λ j. j.job_id) (list_expired_with_agent mirror k.rows o.evaluator batch_size now))
unfolding sweep_expiries
sweep_expiries-drains o batch_size mirror chain now k base max =
    sweep_jobs_done o chain now base max _ _
