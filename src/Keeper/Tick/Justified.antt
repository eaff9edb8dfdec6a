-- ===== src/Keeper/Tick/Justified.antt =====
-- services/keeper/src/run.ts: what stands behind the calls that a tick reports.
use square.Base.{ℕ, ◌≡◌, some, List, [], nat_eq, All}
use square.Keeper.Decide.{KeeperCandidate}
use square.Keeper.Retry.{Keeper}
use square.Keeper.Chain.{Chain, Mirror, candidate_from_chain}
use square.Keeper.Report.{KeeperOptions, economics}
use square.Keeper.Settle.{Deciding, decide_candidates}
use square.Keeper.Tick.{survey}

abbrev AreKnown : Chain → List KeeperCandidate → Type 0
AreKnown chain cs = All (λ c. candidate_from_chain chain c.job_id ≡ some c) cs

-- The jobs that a tick is about to send, once it has decided.
abbrev pub deciding : KeeperOptions → Mirror → Chain → ℕ → Keeper → Deciding
deciding o mirror chain now k =
    let found = survey o mirror chain now k in
    decide_candidates o chain now (economics o chain k) found.1
      (record { pass = found.0; sending = [] })
