-- ===== src/Indexer/Views.antt =====
-- services/indexer/src/reducer.ts: the views of the state.
use square.Base.{
  filter, ℕ, Bool, false, Option, none, some, List, leb, ltb, nat_beq, nat_eq, text_beq, ◌&&◌, ◌||◌,
  not, to_lower_case, if◌then◌else◌,
}
use square.Base.JsMap
use square.Indexer.State.{Address, JobState, ListingState, IndexerState}
use square.Indexer.JobStatus
use square.Indexer.ListingStatus

unfoldable pub is_open : JobState → Bool
is_open job = nat_beq job.status JobStatus.open_job || nat_beq job.status JobStatus.funded

unfoldable pub open_jobs : IndexerState → List JobState
open_jobs s = filter is_open (JsMap.values s.jobs)

unfoldable pub is_provided_by : Address → JobState → Bool
is_provided_by provider job = elim job.provider [
  | none ↦ false
  | some p ↦ text_beq (to_lower_case p) (to_lower_case provider)
]

unfoldable pub jobs_of_provider : IndexerState → Address → List JobState
jobs_of_provider s provider = filter (is_provided_by provider) (JsMap.values s.jobs)

-- Submitted, undisputed, and with a challenge end that the test takes.
unfoldable pub is_awaiting : (ℕ → Bool) → JobState → Bool
is_awaiting test job =
    nat_beq job.status JobStatus.submitted
    && not job.disputed
    && elim job.challenge_end [ none ↦ false | some end ↦ test end ]

unfoldable pub jobs_in_challenge_window : IndexerState → ℕ → List JobState
jobs_in_challenge_window s now = filter (is_awaiting (λ end. ltb now end)) (JsMap.values s.jobs)

unfoldable pub finalizable_jobs : IndexerState → ℕ → List JobState
finalizable_jobs s now = filter (is_awaiting (λ end. leb end now)) (JsMap.values s.jobs)

provider_of : Option JobState → Option Address
provider_of none = none
provider_of (some job) = job.provider

sale_of : Option ListingState → Option Address → Option Address
sale_of none provider = provider
sale_of (some l) provider = if nat_beq l.status ListingStatus.sold then l.buyer else provider

unfoldable pub payee_of : IndexerState → ℕ → Option Address
unfolding provider_of sale_of
payee_of s id = sale_of (JsMap.get id s.listings) (provider_of (JsMap.get id s.jobs))
