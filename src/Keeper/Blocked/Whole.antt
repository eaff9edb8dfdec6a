-- ===== src/Keeper/Blocked/Whole.antt =====
-- services/keeper/src/run.ts: a tick leaves a blocked job alone.
use square.Base.{
  ℕ, ◌≡◌, ap, sym, ◌∙◌, inl, inr, true, false, not, Bool, some, List, [], ◌∷◌, arith, nat_beq,
  nat_eq, Bool-cases, ◌&&◌, ◌||◌, map, ◌⊎◌, All, All-append, ◌≢◌,
}
use mathlib.Core.Bool.{true≢false}
use square.Base.JsMap
use square.Base.JsMap.{JsMap}
use square.Indexer.State.{JobState}
use square.Keeper.Decide.{
  KeeperCandidate, KeeperEconomics, KeeperAction, finalize, finalize_decided, lapse, skip,
  SkipReason, decide, expiry_is_near,
}
use square.Keeper.Retry.{Keeper, RetryState, is_blocked, append, ActionName}
use square.Keeper.Chain.{
  Sent-cases, Chain, Mirror, list_finalizable, list_disputed_submitted, settle_bond_call,
}
use square.Keeper.Report.{
  KeeperOptions, Pass, empty_report, journal_unprofitable_once, note_unprofitable, note_near_expiry,
  profitable_in_mirror, economics,
}
use square.Keeper.Settle.{
  Deciding, is_skip, act, skip_worthless, decide_candidate, decide_candidates, settle_bond,
  settle_bonds,
}
use square.Keeper.Tick.{ask_row, ask_profitable, survey, tick, forget_left, screen_all}
use square.Keeper.Blocked.{
  IsSpared, with_keeper-IsSpared, skip_job-IsSpared, note_failure-other, bond_settled_job-IsSpared,
}
use square.Keeper.Blocked.Send.{lapse_job-IsSpared, send_candidates-IsSpared}

module _ (id : ℕ) (r : RetryState) where
  journal_kept : (other : ℕ) (k : Keeper) → (journal_unprofitable_once other k).retries ≡ k.retries
  unfolding journal_unprofitable_once append
  journal_kept other k = ground arith

  note_unprofitable-IsSpared :
      (other : ℕ) (p : Pass) → IsSpared id r p → IsSpared id r (note_unprofitable other p)
  unfolding note_unprofitable
  note_unprofitable-IsSpared other p s =
      with_keeper-IsSpared id r (journal_unprofitable_once other) _
        (ap (JsMap.get id) (journal_kept other p.keeper))
        (record {
          kept = s.kept;
          not_finalized = s.not_finalized;
          not_applied = s.not_applied;
          not_lapsed = s.not_lapsed;
          not_settled = s.not_settled;
        })

  note_near_expiry-IsSpared :
      (other : ℕ) (near : Bool) (p : Pass)
      → IsSpared id r p
      → IsSpared id r (note_near_expiry other near p)
  unfolding note_near_expiry
  note_near_expiry-IsSpared other false p s = s
  note_near_expiry-IsSpared other true p s = record {
    kept = s.kept;
    not_finalized = s.not_finalized;
    not_applied = s.not_applied;
    not_lapsed = s.not_lapsed;
    not_settled = s.not_settled;
  }

  skip_worthless-IsSpared :
      (other : ℕ) (why : SkipReason) (p : Pass)
      → IsSpared id r p
      → IsSpared id r (skip_worthless other why p)
  unfolding skip_worthless
  skip_worthless-IsSpared other SkipReason.unprofitable p s =
      note_unprofitable-IsSpared other _ (skip_job-IsSpared id r other _ p s)
  skip_worthless-IsSpared other SkipReason.window_open p s = skip_job-IsSpared id r other _ p s
  skip_worthless-IsSpared other SkipReason.disputed p s = skip_job-IsSpared id r other _ p s
  skip_worthless-IsSpared other SkipReason.not_submitted p s = skip_job-IsSpared id r other _ p s
  skip_worthless-IsSpared other SkipReason.awaiting_decision p s =
      skip_job-IsSpared id r other _ p s

  abbrev IsSparing : Deciding → Type 0
  IsSparing d = IsSpared id r d.pass × All (λ t. t.0.job_id ≢ id) d.sending

  act-IsSparing :
      (o : KeeperOptions) (chain : Chain) (now : ℕ) (c : KeeperCandidate) (a : KeeperAction)
      (d : Deciding)
      → (is_skip a ≡ true) ⊎ (c.job_id ≢ id)
      → IsSparing d
      → IsSparing (act o chain now c a d)
  unfolding act is_skip
  act-IsSparing o chain now c (skip i why) d h (s, sending) =
      (skip_worthless-IsSpared c.job_id why d.pass s, sending)
  act-IsSparing o chain now c (lapse i by) d (inl h) (s, sending) = absurd (ground arith)
  act-IsSparing o chain now c (lapse i by) d (inr ne) (s, sending) =
      (lapse_job-IsSpared id r o chain now c.job_id d.pass ne s, sending)
  act-IsSparing o chain now c (finalize i f g) d (inl h) (s, sending) = absurd (ground arith)
  act-IsSparing o chain now c (finalize i f g) d (inr ne) (s, sending) =
      (s, All-append _ d.sending _ sending (ne, tt))
  act-IsSparing o chain now c (finalize_decided i f g) d (inl h) (s, sending) =
      absurd (ground arith)
  act-IsSparing o chain now c (finalize_decided i f g) d (inr ne) (s, sending) =
      (s, All-append _ d.sending _ sending (ne, tt))

  unblocked_other :
      (now other : ℕ) (p : Pass)
      → is_blocked now (some r) ≡ true
      → IsSpared id r p
      → is_blocked now (JsMap.get other p.keeper.retries) ≡ false
      → other ≢ id
  unblocked_other now other p blocked s open_job = λ same. true≢false (
      sym blocked
      ∙ ap (is_blocked now) (sym s.kept)
      ∙ ap (λ j. is_blocked now (JsMap.get j p.keeper.retries)) (sym same)
      ∙ open_job)

  -- A skip, or another job, where the test for a blocked job has passed.
  passed_test :
      (now : ℕ) (c : KeeperCandidate) (a : KeeperAction) (p : Pass)
      → is_blocked now (some r) ≡ true
      → IsSpared id r p
      → (not (is_skip a) && is_blocked now (JsMap.get c.job_id p.keeper.retries)) ≡ false
      → (is_skip a ≡ true) ⊎ (c.job_id ≢ id)
  passed_test now c a p blocked s test = elim (Bool-cases (is_skip a)) [
    | inl skips ↦ inl skips
    | inr acts ↦ inr (unblocked_other now c.job_id p blocked s (ground (arith, acts, test)))
  ]

  decide_candidate-IsSparing :
      (o : KeeperOptions) (chain : Chain) (now : ℕ) (e : KeeperEconomics) (c : KeeperCandidate)
      (d : Deciding)
      → is_blocked now (some r) ≡ true
      → IsSparing d
      → IsSparing (decide_candidate o chain now e c d)
  unfolding decide_candidate
  decide_candidate-IsSparing o chain now e c d blocked (s, sending) =
      let near = note_near_expiry c.job_id (expiry_is_near c now) d.pass in
      let seen = note_near_expiry-IsSpared c.job_id (expiry_is_near c now) d.pass s in
      elim (Bool-cases (
        not (is_skip (decide c now e))
        && is_blocked now (JsMap.get c.job_id near.keeper.retries))) [
          | inl stop ↦
              rw (stop, decide_candidate) (skip_job-IsSpared id r c.job_id _ near seen, sending)
          | inr go ↦
              rw (go, decide_candidate)
                (act-IsSparing o chain now c (decide c now e) (record d { pass = near })
                  (passed_test now c (decide c now e) near blocked seen go) (seen, sending))
        ]

  decide_candidates-IsSparing :
      (o : KeeperOptions) (chain : Chain) (now : ℕ) (e : KeeperEconomics)
      (cs : List KeeperCandidate) (d : Deciding)
      → is_blocked now (some r) ≡ true
      → IsSparing d
      → IsSparing (decide_candidates o chain now e cs d)
  unfolding decide_candidates
  decide_candidates-IsSparing o chain now e [] d blocked h = h
  decide_candidates-IsSparing o chain now e (c ∷ cs) d blocked h =
      decide_candidates-IsSparing o chain now e cs _ blocked
        (decide_candidate-IsSparing o chain now e c d blocked h)

  settle_bond-IsSpared :
      (o : KeeperOptions) (chain : Chain) (now other : ℕ) (p : Pass)
      → is_blocked now (some r) ≡ true
      → IsSpared id r p
      → IsSpared id r (settle_bond o chain now other p)
  unfolding settle_bond
  settle_bond-IsSpared o chain now other p blocked s =
      elim (Bool-cases (is_blocked now (JsMap.get other p.keeper.retries))) [
        | inl stop ↦ rw (stop, settle_bond) (skip_job-IsSpared id r other _ p s)
        | inr go ↦
            elim (Bool-cases
              (nat_beq (chain.dispute other).disputed_at 0 || (chain.dispute other).bond_settled)) [
                | inl settled ↦ rw (go, settled, settle_bond) s
                | inr due ↦ elim (Sent-cases (chain.send settle_bond_call other)) [
                  | inl (gas, fee, mined) ↦
                      rw (go, due, mined, settle_bond)
                        (bond_settled_job-IsSpared id r other gas p
                          (unblocked_other now other p blocked s go) s)
                  | inr (message, error) ↦
                      rw (go, due, error, settle_bond)
                        (with_keeper-IsSpared id r _ p
                          (note_failure-other id r o.policy other ActionName.settle_bond message now
                            p.keeper (unblocked_other now other p blocked s go))
                          s)
                ]
              ]
      ]

  settle_bonds-IsSpared :
      (o : KeeperOptions) (chain : Chain) (now : ℕ) (ids : List ℕ) (p : Pass)
      → is_blocked now (some r) ≡ true
      → IsSpared id r p
      → IsSpared id r (settle_bonds o chain now ids p)
  unfolding settle_bonds
  settle_bonds-IsSpared o chain now [] p blocked s = s
  settle_bonds-IsSpared o chain now (other ∷ ids) p blocked s =
      settle_bonds-IsSpared o chain now ids _ blocked
        (settle_bond-IsSpared o chain now other p blocked s)

  ask_row-IsSpared :
      (now : ℕ) (e : KeeperEconomics) (row : JobState) (held : Pass × List ℕ)
      → IsSpared id r held.0
      → IsSpared id r (ask_row now e row held).0
  unfolding ask_row
  ask_row-IsSpared now e row (p, asking) s = elim (Bool-cases (profitable_in_mirror row e)) [
    | inl worth ↦ rw (worth, ask_row) s
    | inr worthless ↦
        rw (worthless, ask_row)
          (note_near_expiry-IsSpared row.job_id _ _
            (note_unprofitable-IsSpared row.job_id _ (skip_job-IsSpared id r row.job_id _ p s)))
  ]

  ask_profitable-IsSpared :
      (now : ℕ) (e : KeeperEconomics) (rows : List JobState) (held : Pass × List ℕ)
      → IsSpared id r held.0
      → IsSpared id r (ask_profitable now e rows held).0
  unfolding ask_profitable
  ask_profitable-IsSpared now e [] held s = s
  ask_profitable-IsSpared now e (row ∷ rows) held s =
      ask_profitable-IsSpared now e rows (ask_row now e row held)
        (ask_row-IsSpared now e row held s)

  survey-IsSpared :
      (o : KeeperOptions) (mirror : Mirror) (chain : Chain) (now : ℕ) (k : Keeper)
      → JsMap.get id k.retries ≡ some r
      → IsSpared id r (survey o mirror chain now k).0
  unfolding survey forget_left
  survey-IsSpared o mirror chain now k here =
      let s =
        ask_profitable-IsSpared now (economics o chain k) (list_finalizable mirror now o.evaluator)
          (
            record { keeper = k; report = empty_report },
            map (λ j. j.job_id) (list_disputed_submitted mirror o.evaluator),
          )
          (record {
            kept = here;
            not_finalized = tt;
            not_applied = tt;
            not_lapsed = tt;
            not_settled = tt;
          }) in
      record {
        kept = s.kept;
        not_finalized = s.not_finalized;
        not_applied = s.not_applied;
        not_lapsed = s.not_lapsed;
        not_settled = s.not_settled;
      }

-- A tick makes no call for a job that is given up, or whose next attempt is still to come: its retry state
-- stays, and it is in none of the lists of what was finalized, applied, lapsed and settled.
pub tick-IsSpared :
    (o : KeeperOptions) (mirror : Mirror) (chain : Chain) (now : ℕ) (k : Keeper) (id : ℕ)
    (r : RetryState)
    → JsMap.get id k.retries ≡ some r
    → is_blocked now (some r) ≡ true
    → IsSpared id r (tick o mirror chain now k)
unfolding tick
tick-IsSpared o mirror chain now k id r here blocked =
    let found = survey o mirror chain now k in
    let decided =
      decide_candidates o chain now (economics o chain k) found.1
        (record { pass = found.0; sending = [] }) in
    let sparing =
      decide_candidates-IsSparing id r o chain now (economics o chain k) found.1
        (record { pass = found.0; sending = [] }) blocked
        (survey-IsSpared id r o mirror chain now k here, tt) in
    settle_bonds-IsSpared id r o chain now _ _ blocked (
      send_candidates-IsSpared id r o chain now (screen_all o decided.sending) decided.sending
        decided.pass sparing.1 sparing.0)
