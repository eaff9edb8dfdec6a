-- ===== src/Keeper/Chain.antt =====
-- services/keeper/src/run.ts: what a tick reads, the mirror's rows (packages/data/src/repositories/jobs.ts) and
-- the chain's answers. The latter come from the client of packages/core and are arguments.
use square.Base.{
  refl, inl, inr, ◌⊎◌, ◌≡◌, ℕ, Bool, true, false, not, ◌&&◌, ◌||◌, Option, none, some, List, Text,
  text_beq, to_lower_case, nat_beq, ltb, leb, if◌then◌else◌, nat_eq, filter, take, get_or,
}
use square.Base.JsMap
use square.Base.JsMap.{JsMap, values}
use square.Base.Sort.{sort}
use square.Indexer.State.{Address, JobState, DisputeState}
use square.Indexer.JobStatus
use square.Keeper.Decide.{KeeperCandidate}
use square.Keeper.JobState.{KeeperJobState, Rows, new_row}

pub data SettlementCall : Type 0 where
  finalize_call finalize_decided_call lapse_call settle_bond_call record_expiry_call :
      SettlementCall

-- A call that was mined, with its gas and the keeper's fee, or the error's message.
pub data Sent : Type 0 where
  sent : ℕ → ℕ → Sent
  threw : Text → Sent

pub record JobOnChain : Type 0 where
  pub status : ℕ
  pub budget : ℕ
  pub evaluator_fee_bp : ℕ
  pub expired_at : ℕ
  pub client : Address

pub record DisputeOnChain : Type 0 where
  pub outcome : ℕ
  pub resolve_by : ℕ
  pub provider_bps : ℕ
  pub disputed_at : ℕ
  pub bond_settled : Bool

pub data ProofState : Type 0 where
  not_gated decidable missing stale : ProofState

-- What `previewRelease` answers: false, or anything else.
pub data Preview : Type 0 where
  would_refuse would_pay : Preview

-- The payee, the net payout and the bound proof of a release.
pub record Release : Type 0 where
  pub payee : Address
  pub net : ℕ
  pub proof : Text

-- `PayeeScreening` of screening.ts, or the error of a job's screening.
pub data Screening : Type 0 where
  screened : Bool → Screening
  screening_failed : Text → Screening

-- The answers during one tick; `none` where a read of a hold rule throws.
pub record Chain : Type 0 where
  pub gas_price_wei : ℕ
  pub job : ℕ → JobOnChain
  pub is_disputed : ℕ → Bool
  pub dispute : ℕ → DisputeOnChain
  pub challenge_ends_at : ℕ → ℕ
  pub send : SettlementCall → ℕ → Sent
  pub proof_state : ℕ → Option ProofState
  pub release : ℕ → Option Release
  pub preview : ℕ → Address → ℕ → Address → Text → Option Preview
  pub recorded : ℕ → Bool

-- The rows of the indexer's database that the keeper reads.
pub record Mirror : Type 0 where
  pub jobs : JsMap ℕ JobState
  pub disputes : JsMap ℕ DisputeState

abbrev same_evaluator : Address → JobState → Bool
same_evaluator evaluator j = text_beq (to_lower_case j.evaluator) (to_lower_case evaluator)

abbrev by_id : JobState → JobState → Bool
by_id a b = ltb a.job_id b.job_id

-- `order by challenge_end, job_id`.
abbrev by_challenge_end : JobState → JobState → Bool
by_challenge_end a b =
    ltb (get_or a.challenge_end 0) (get_or b.challenge_end 0)
    || nat_beq (get_or a.challenge_end 0) (get_or b.challenge_end 0) && by_id a b

abbrev is_over : ℕ → Option ℕ → Bool
is_over now none = false
is_over now (some end) = leb end now

unfoldable pub list_finalizable : Mirror → ℕ → Address → List JobState
list_finalizable m now evaluator = sort by_challenge_end (
    filter
      (λ j.
        nat_beq j.status JobStatus.submitted
        && not j.disputed
        && is_over now j.challenge_end
        && same_evaluator evaluator j)
      (values m.jobs))

unfoldable pub list_disputed_submitted : Mirror → Address → List JobState
list_disputed_submitted m evaluator = sort by_id (
    filter (λ j. nat_beq j.status JobStatus.submitted && j.disputed && same_evaluator evaluator j)
      (values m.jobs))

abbrev has_open_dispute : Mirror → ℕ → Bool
has_open_dispute m id = elim (JsMap.get id m.disputes) [ none ↦ false | some d ↦ not d.closed ]

unfoldable pub list_expired_disputed : Mirror → Address → List JobState
list_expired_disputed m evaluator = sort by_id (
    filter
      (λ j.
        nat_beq j.status JobStatus.expired
        && has_open_dispute m j.job_id
        && same_evaluator evaluator j)
      (values m.jobs))

abbrev has_agent : JobState → Bool
has_agent j = elim j.agent_id [ none ↦ false | some agent ↦ true ]

abbrev pub row_of : Rows → ℕ → KeeperJobState
row_of rows id = get_or (JsMap.get id rows) new_row

-- Whether an expiry is still to be recorded, by the keeper's row; a job without one has the defaults.
unfoldable pub is_due : ℕ → KeeperJobState → Bool
is_due now r = not r.expiry_recorded && not r.expiry_gave_up && leb (get_or r.expiry_next_at 0) now

-- `coalesce(state.expiry_next_at, 0)`.
abbrev pub next_attempt : Rows → JobState → ℕ
next_attempt rows j = get_or (row_of rows j.job_id).expiry_next_at 0

abbrev by_next_attempt : Rows → JobState → JobState → Bool
by_next_attempt rows a b =
    ltb (next_attempt rows a) (next_attempt rows b)
    || nat_beq (next_attempt rows a) (next_attempt rows b) && by_id a b

unfoldable pub list_expired_with_agent : Mirror → Rows → Address → ℕ → ℕ → List JobState
list_expired_with_agent m rows evaluator limit now = take limit (
    sort (by_next_attempt rows) (
      filter
        (λ j.
          nat_beq j.status JobStatus.expired
          && has_agent j
          && same_evaluator evaluator j
          && is_due now (row_of rows j.job_id))
        (values m.jobs)))

abbrev decided_share : DisputeOnChain → Option ℕ
decided_share d = if nat_beq d.outcome 0 then none else some d.provider_bps

unfoldable pub candidate_from_chain : Chain → ℕ → Option KeeperCandidate
candidate_from_chain chain id =
    let job = chain.job id in
    let dispute = chain.dispute id in
    let disputed = chain.is_disputed id in
    if not (nat_beq job.status JobStatus.submitted)
    then none
    else some (record {
      job_id = id;
      status = job.status;
      disputed = disputed;
      challenge_end = some (chain.challenge_ends_at id);
      budget = job.budget;
      evaluator_fee_bp = some job.evaluator_fee_bp;
      decided_outcome = if disputed then some dispute.outcome else none;
      dispute_closed = false;
      resolve_by = if disputed then some dispute.resolve_by else none;
      expired_at = some job.expired_at;
      client = some job.client;
      provider_bps = if disputed then decided_share dispute else some 10000;
    })

pub Sent-cases :
    (t : Sent)
    → ((gas : ℕ) × (fee : ℕ) × (t ≡ sent gas fee)) ⊎ ((message : Text) × (t ≡ threw message))
Sent-cases (sent gas fee) = inl (gas, fee, refl)
Sent-cases (threw message) = inr (message, refl)

pub Screening-cases :
    (t : Screening)
    → (t ≡ screened true)
      ⊎ (t ≡ screened false)
      ⊎ ((message : Text) × (t ≡ screening_failed message))
Screening-cases (screened true) = inl refl
Screening-cases (screened false) = inr (inl refl)
Screening-cases (screening_failed message) = inr (inr (message, refl))
