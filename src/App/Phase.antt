-- ===== src/App/Phase.antt =====
-- app/src/lib/phase.ts: the phase of a job.
use square.Base.{
  refl, ◌≤◌, ◌≡◌, zero, suc, ◌+◌, ◌/◌, ◌%◌, arith, ℕ, ◌&&◌, leb, ltb, nat_beq, if◌then◌else◌,
}
use square.Indexer.JobStatus
use square.App.Actions.{JobSummary}

pub data JobPhase : Type 0 where
  open_phase funded submitted in_window finalizable disputed completed rejected expired : JobPhase

unfoldable pub submitted_phase : JobSummary → ℕ → JobPhase
submitted_phase job now =
    if job.disputed
    then disputed
    else if ltb 0 job.challenge_end && leb job.challenge_end now
    then finalizable
    else if ltb 0 job.challenge_end
    then in_window
    else submitted

unfoldable pub job_phase : JobSummary → ℕ → JobPhase
unfolding submitted_phase
job_phase job now =
    if nat_beq job.status JobStatus.open_job
    then open_phase
    else if nat_beq job.status JobStatus.funded
    then funded
    else if nat_beq job.status JobStatus.submitted
    then submitted_phase job now
    else if nat_beq job.status JobStatus.completed
    then completed
    else if nat_beq job.status JobStatus.rejected
    then rejected
    else if nat_beq job.status JobStatus.expired
    then expired
    else open_phase

-- The loop halves the value, so that the value itself is enough fuel.
count_from : ℕ → ℕ → ℕ
count_from zero value = 0
count_from (suc fuel) value =
    let rest = count_from fuel (value / 2) in if ltb 0 value then value % 2 + rest else 0

unfoldable pub count_votes : ℕ → ℕ
unfolding count_from
count_votes mask = count_from mask mask

-- Any two amounts of fuel that are at least the value give the same count.
count_from-enough :
    (f g value : ℕ) → value ≤ f → value ≤ g → count_from f value ≡ count_from g value
unfolding count_from
count_from-enough zero zero value l r = refl
count_from-enough zero (suc g) value l r = ground arith
count_from-enough (suc f) zero value l r = ground arith
count_from-enough (suc f) (suc g) value l r =
    let half = count_from-enough f g (value / 2) (omega (arith, l)) (omega (arith, r)) in
    ground (arith, half)

five_votes : count_votes 93 ≡ 5
unfolding count_votes
five_votes = refl
