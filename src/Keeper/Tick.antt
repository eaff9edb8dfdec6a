-- ===== src/Keeper/Tick.antt =====
-- services/keeper/src/run.ts: a whole tick.
pub mod Quiet
pub mod Chosen
pub mod Justified
use square.Base.{
  ℕ, ◌-◌, Bool, false, not, ◌&&◌, Option, none, some, List, [], ◌∷◌, ◌++◌, map, any, length, filter,
  nat_beq, ltb, leb, if◌then◌else◌, nat_eq,
}
use square.Base.JsMap.{JsMap}
use square.Indexer.State.{JobState}
use square.Keeper.Decide.{
  KeeperCandidate, KeeperEconomics, expiry_warning_seconds, oldest_pending_age, unprofitable,
}
use square.Keeper.Gas.{SettlementAction}
use square.Keeper.Retry.{Keeper}
use square.Keeper.Chain.{
  Chain, Mirror, Screening, screening_failed, list_finalizable, list_disputed_submitted,
  list_expired_disputed, candidate_from_chain,
}
use square.Keeper.Holds.{forget_jobs_that_left}
use square.Keeper.Report.{
  not_worth, empty_report, outcomes, screen_threw, KeeperOptions, Pass, skip_job, economics,
  profitable_in_mirror, note_unprofitable, note_near_expiry,
}
use square.Keeper.Settle.{decide_candidates, send_candidates, settle_bonds}

abbrev pub row_is_near : JobState → ℕ → Bool
row_is_near row now = ltb now row.expired_at && leb (row.expired_at - now) expiry_warning_seconds

-- A finalizable row: one that is not worth the gas is skipped without asking the chain.
unfoldable pub ask_row : ℕ → KeeperEconomics → JobState → Pass × List ℕ → Pass × List ℕ
ask_row now e row (p, asking) =
    if profitable_in_mirror row e then (p, asking ++ row.job_id ∷ []) else (
      note_near_expiry row.job_id (row_is_near row now)
          (note_unprofitable row.job_id (skip_job row.job_id (not_worth unprofitable) p)),
      asking,
    )

unfoldable pub ask_profitable : ℕ → KeeperEconomics → List JobState → Pass × List ℕ → Pass × List ℕ
ask_profitable now e [] held = held
ask_profitable now e (row ∷ rows) held = ask_profitable now e rows (ask_row now e row held)

unfoldable pub confirmed : Chain → List ℕ → List KeeperCandidate
confirmed chain [] = []
confirmed chain (id ∷ ids) =
    let rest = confirmed chain ids in
    elim (candidate_from_chain chain id) [ none ↦ rest | some c ↦ c ∷ rest ]

abbrev is_pending : ℕ → KeeperCandidate → Bool
is_pending now c =
    not c.disputed && (elim c.challenge_end [ none ↦ false | some end ↦ leb end now ])

-- The screening of all the jobs about to be sent, asked for once.
unfoldable pub screen_all :
    KeeperOptions → List (KeeperCandidate × SettlementAction) → Option (JsMap ℕ Screening)
screen_all o [] = none
screen_all o (s ∷ ss) = elim o.screen [
  | none ↦ none
  | some ask ↦ elim (ask (map (λ t. t.0.job_id) (s ∷ ss))) [
    | outcomes screenings ↦ some screenings
    | screen_threw message ↦ some (map (λ t. (t.0.job_id, screening_failed message)) (s ∷ ss))
  ]
]

-- The jobs that have left the mirror are forgotten.
unfoldable pub forget_left : List ℕ → Keeper → Keeper
forget_left mirrored k = record k {
  warned_near_expiry = filter (λ j. any (λ m. nat_beq m j) mirrored) k.warned_near_expiry;
  rows = forget_jobs_that_left mirrored k.rows;
}

-- The part of a tick before the candidates are decided.
unfoldable pub survey : KeeperOptions → Mirror → Chain → ℕ → Keeper → Pass × List KeeperCandidate
survey o mirror chain now k =
    let finalizable = list_finalizable mirror now o.evaluator in
    let under_dispute = map (λ j. j.job_id) (list_disputed_submitted mirror o.evaluator) in
    let (p, asking) =
      ask_profitable now (economics o chain k) finalizable
        (record { keeper = k; report = empty_report }, under_dispute) in
    let candidates = confirmed chain asking in
    (
      record p {
        report = record p.report {
          pending = length (filter (is_pending now) candidates);
          oldest_pending_age_seconds = oldest_pending_age candidates now;
        };
        keeper = forget_left (map (λ j. j.job_id) finalizable ++ under_dispute) p.keeper;
      },
      candidates,
    )

unfoldable pub tick : KeeperOptions → Mirror → Chain → ℕ → Keeper → Pass
tick o mirror chain now k =
    let (p, candidates) = survey o mirror chain now k in
    let decided =
      decide_candidates o chain now (economics o chain k) candidates
        (record { pass = p; sending = [] }) in
    let sent_all =
      send_candidates o chain now (screen_all o decided.sending) decided.sending decided.pass in
    settle_bonds o chain now (map (λ j. j.job_id) (list_expired_disputed mirror o.evaluator))
      sent_all
