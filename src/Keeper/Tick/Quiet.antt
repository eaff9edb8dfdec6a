-- ===== src/Keeper/Tick/Quiet.antt =====
-- services/keeper/src/run.ts: the steps of a tick that settle nothing.
use square.Base.{
  ℕ, ◌≡◌, refl, ◌∙◌, inl, inr, true, false, Bool, List, [], ◌∷◌, nat_beq, nat_eq, Bool-cases,
  Option-cases, ◌||◌,
}
use square.Base.JsMap
use square.Base.JsMap.{JsMap}
use square.Keeper.Decide.{SkipReason}
use square.Keeper.Gas.{SettlementAction}
use square.Keeper.JobState.{HoldReason}
use square.Keeper.Retry.{Keeper, ActionName, is_blocked}
use square.Keeper.Chain.{Chain, Sent-cases, lapse_call, settle_bond_call}
use square.Keeper.Report.{
  KeeperOptions, Pass, TickSkip, not_yet_on_chain, note_unprofitable, note_near_expiry, skip_job,
  with_keeper,
}
use square.Keeper.Settle.{
  failed_call, lapsed_job, bond_settled_job, hold_job, lapse_job, settle_bond, settle_bonds,
  skip_worthless,
}

-- The jobs that a pass reports as settled, by kind.
abbrev pub settled_by : SettlementAction → Pass → List ℕ
settled_by SettlementAction.finalize p = p.report.finalized
settled_by SettlementAction.finalize_decided p = p.report.applied

-- A pass that settles nothing.
abbrev pub IsQuiet : Pass → Pass → Type 0
IsQuiet p q = (kind : SettlementAction) → settled_by kind q ≡ settled_by kind p

pub skip_job-IsQuiet : (id : ℕ) (why : TickSkip) (p : Pass) → IsQuiet p (skip_job id why p)
unfolding skip_job
skip_job-IsQuiet id why p SettlementAction.finalize = refl
skip_job-IsQuiet id why p SettlementAction.finalize_decided = refl

pub with_keeper-IsQuiet : (f : Keeper → Keeper) (p : Pass) → IsQuiet p (with_keeper f p)
unfolding with_keeper
with_keeper-IsQuiet f p SettlementAction.finalize = refl
with_keeper-IsQuiet f p SettlementAction.finalize_decided = refl

pub failed_call-IsQuiet :
    (o : KeeperOptions) (now : ℕ) (action : ActionName) (id : ℕ) (message : List ℕ) (p : Pass)
    → IsQuiet p (failed_call o now action id message p)
unfolding failed_call
failed_call-IsQuiet o now action id message p = elim (Option-cases (not_yet_on_chain message)) [
  | inl failed ↦ rw (failed, failed_call) (with_keeper-IsQuiet _ p)
  | inr (behind, early) ↦ rw (early, failed_call) (skip_job-IsQuiet id _ p)
]

pub lapsed_job-IsQuiet : (id gas : ℕ) (p : Pass) → IsQuiet p (lapsed_job id gas p)
unfolding lapsed_job
lapsed_job-IsQuiet id gas p SettlementAction.finalize = refl
lapsed_job-IsQuiet id gas p SettlementAction.finalize_decided = refl

pub bond_settled_job-IsQuiet : (id gas : ℕ) (p : Pass) → IsQuiet p (bond_settled_job id gas p)
unfolding bond_settled_job
bond_settled_job-IsQuiet id gas p SettlementAction.finalize = refl
bond_settled_job-IsQuiet id gas p SettlementAction.finalize_decided = refl

pub hold_job-IsQuiet : (id : ℕ) (reason : HoldReason) (p : Pass) → IsQuiet p (hold_job id reason p)
unfolding hold_job skip_job
hold_job-IsQuiet id reason p SettlementAction.finalize = refl
hold_job-IsQuiet id reason p SettlementAction.finalize_decided = refl

pub note_unprofitable-IsQuiet : (id : ℕ) (p : Pass) → IsQuiet p (note_unprofitable id p)
unfolding note_unprofitable with_keeper
note_unprofitable-IsQuiet id p SettlementAction.finalize = refl
note_unprofitable-IsQuiet id p SettlementAction.finalize_decided = refl

pub note_near_expiry-IsQuiet :
    (id : ℕ) (near : Bool) (p : Pass) → IsQuiet p (note_near_expiry id near p)
unfolding note_near_expiry
note_near_expiry-IsQuiet id true p SettlementAction.finalize = refl
note_near_expiry-IsQuiet id true p SettlementAction.finalize_decided = refl
note_near_expiry-IsQuiet id false p kind = refl

pub skip_worthless-IsQuiet :
    (id : ℕ) (why : SkipReason) (p : Pass) → IsQuiet p (skip_worthless id why p)
unfolding skip_worthless
skip_worthless-IsQuiet id SkipReason.unprofitable p kind =
    note_unprofitable-IsQuiet id _ kind ∙ skip_job-IsQuiet id _ p kind
skip_worthless-IsQuiet id SkipReason.window_open p kind = skip_job-IsQuiet id _ p kind
skip_worthless-IsQuiet id SkipReason.disputed p kind = skip_job-IsQuiet id _ p kind
skip_worthless-IsQuiet id SkipReason.not_submitted p kind = skip_job-IsQuiet id _ p kind
skip_worthless-IsQuiet id SkipReason.awaiting_decision p kind = skip_job-IsQuiet id _ p kind

pub lapse_job-IsQuiet :
    (o : KeeperOptions) (chain : Chain) (now id : ℕ) (p : Pass)
    → IsQuiet p (lapse_job o chain now id p)
unfolding lapse_job
lapse_job-IsQuiet o chain now id p = elim (Sent-cases (chain.send lapse_call id)) [
  | inl (gas, fee, mined) ↦ rw (mined, lapse_job) (lapsed_job-IsQuiet id gas p)
  | inr (message, error) ↦
      rw (error, lapse_job) (failed_call-IsQuiet o now ActionName.lapse id message p)
]

pub settle_bond-IsQuiet :
    (o : KeeperOptions) (chain : Chain) (now id : ℕ) (p : Pass)
    → IsQuiet p (settle_bond o chain now id p)
unfolding settle_bond
settle_bond-IsQuiet o chain now id p =
    elim (Bool-cases (is_blocked now (JsMap.get id p.keeper.retries))) [
      | inl stop ↦ rw (stop, settle_bond) (skip_job-IsQuiet id _ p)
      | inr go ↦
          elim (Bool-cases
            (nat_beq (chain.dispute id).disputed_at 0 || (chain.dispute id).bond_settled)) [
              | inl done ↦ rw (go, done, settle_bond) (λ kind. refl)
              | inr due ↦ elim (Sent-cases (chain.send settle_bond_call id)) [
                | inl (gas, fee, mined) ↦
                    rw (go, due, mined, settle_bond) (bond_settled_job-IsQuiet id gas p)
                | inr (message, error) ↦ rw (go, due, error, settle_bond) (with_keeper-IsQuiet _ p)
              ]
            ]
    ]

pub settle_bonds-IsQuiet :
    (o : KeeperOptions) (chain : Chain) (now : ℕ) (ids : List ℕ) (p : Pass)
    → IsQuiet p (settle_bonds o chain now ids p)
unfolding settle_bonds
settle_bonds-IsQuiet o chain now [] p = λ kind. refl
settle_bonds-IsQuiet o chain now (id ∷ ids) p = λ kind.
    settle_bonds-IsQuiet o chain now ids (settle_bond o chain now id p) kind
    ∙ settle_bond-IsQuiet o chain now id p kind
