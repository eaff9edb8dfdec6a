-- ===== src/Keeper/Blocked.antt =====
-- services/keeper/src/run.ts: a job that is given up, or whose next attempt is to come, is left alone.
pub mod Send
pub mod Whole
use square.Base.{
  ℕ, ◌≡◌, refl, ap, sym, subst, ◌∙◌, inl, inr, true, false, Bool, Option, none, some, List, [], ◌∷◌,
  ◌++◌, arith, nat_beq, nat_eq, if◌then◌else◌, any, Bool-cases, Option-cases, ◌||◌, ◌⊎◌, All,
  All-append, ◌≢◌, Text,
}
use square.Base.JsMap
use square.Base.JsMap.{JsMap, get-set, get-delete}
use square.Keeper.Decide.{
  KeeperCandidate, KeeperEconomics, KeeperAction, finalize, finalize_decided, lapse, skip,
  SkipReason, decide,
}
use square.Keeper.Gas.{SettlementAction}
use square.Keeper.Retry.{
  Keeper, RetryState, note_failure, is_blocked, append, ActionName, KeeperRetryPolicy,
}
use square.Keeper.Chain.{
  Chain, Mirror, Screening, screened, screening_failed, Sent, sent, threw, lapse_call,
  settle_bond_call,
}
use square.Keeper.Holds.{Clearance, cleared, held_back, cleared_by_holds, rules_of}
use square.Keeper.Report.{
  KeeperOptions, not_yet_on_chain, refused_for_want_of_a_proof, Pass, TickReport, TickSkip,
  skip_job, with_keeper, forget_retry,
}
use square.Keeper.Settle.{
  failed_call, lapsed_job, bond_settled_job, settled_job, hold_job, lapse_job, settle_job,
  hold_for_want_of_a_proof, send_cleared, send_candidate, send_candidates, settle_bond,
  settle_bonds, Deciding, act, decide_candidate, decide_candidates, skip_worthless, is_skip,
  screening_of, call_of,
}
use square.Keeper.JobState.{HoldReason, Rows}

-- What a tick reports of calls that were made.
abbrev pub called : TickReport → List ℕ
called r = r.finalized ++ r.applied ++ r.lapsed ++ r.bonds_settled

-- A pass that has left a job alone: its retry state is as before, and no call for it is reported.
pub record IsSpared (id : ℕ) (r : RetryState) (p : Pass) : Type 0 where
  pub kept : JsMap.get id p.keeper.retries ≡ some r
  pub not_finalized : All (λ j. j ≢ id) p.report.finalized
  pub not_applied : All (λ j. j ≢ id) p.report.applied
  pub not_lapsed : All (λ j. j ≢ id) p.report.lapsed
  pub not_settled : All (λ j. j ≢ id) p.report.bonds_settled

set_elsewhere :
    {V : Type 0} (other id : ℕ) (v : V) (m : JsMap ℕ V)
    → other ≢ id
    → JsMap.get id (JsMap.set other v m) ≡ JsMap.get id m
set_elsewhere other id v m ne = ground (arith, get-set other id v m)

module _ (id : ℕ) (r : RetryState) where
  pub with_keeper-IsSpared :
      (f : Keeper → Keeper) (p : Pass)
      → JsMap.get id (f p.keeper).retries ≡ JsMap.get id p.keeper.retries
      → IsSpared id r p
      → IsSpared id r (with_keeper f p)
  unfolding with_keeper
  with_keeper-IsSpared f p same s = record {
    kept = same ∙ s.kept;
    not_finalized = s.not_finalized;
    not_applied = s.not_applied;
    not_lapsed = s.not_lapsed;
    not_settled = s.not_settled;
  }

  pub skip_job-IsSpared :
      (other : ℕ) (why : TickSkip) (p : Pass)
      → IsSpared id r p
      → IsSpared id r (skip_job other why p)
  unfolding skip_job
  skip_job-IsSpared other why p s = record {
    kept = s.kept;
    not_finalized = s.not_finalized;
    not_applied = s.not_applied;
    not_lapsed = s.not_lapsed;
    not_settled = s.not_settled;
  }

  pub note_failure-other :
      (policy : KeeperRetryPolicy) (other : ℕ) (action : ActionName) (message : Text) (now : ℕ)
      (k : Keeper)
      → other ≢ id
      → JsMap.get id (note_failure policy other action message now k).retries
        ≡ JsMap.get id k.retries
  unfolding note_failure
  note_failure-other policy other action message now k ne = set_elsewhere other id _ k.retries ne

  pub forget_retry-other :
      (other : ℕ) (k : Keeper)
      → other ≢ id
      → JsMap.get id (forget_retry other k).retries ≡ JsMap.get id k.retries
  unfolding forget_retry
  forget_retry-other other k ne = ground (arith, get-delete other id k.retries)

  pub failed_call-IsSpared :
      (o : KeeperOptions) (now : ℕ) (action : ActionName) (other : ℕ) (message : Text) (p : Pass)
      → other ≢ id
      → IsSpared id r p
      → IsSpared id r (failed_call o now action other message p)
  unfolding failed_call
  failed_call-IsSpared o now action other message p ne s =
      elim (Option-cases (not_yet_on_chain message)) [
        | inl failed ↦
            rw (failed, failed_call)
              (with_keeper-IsSpared _ p
                (note_failure-other o.policy other action message now p.keeper ne) s)
        | inr (behind, early) ↦ rw (early, failed_call) (skip_job-IsSpared other _ p s)
      ]

  pub lapsed_job-IsSpared :
      (other gas : ℕ) (p : Pass)
      → other ≢ id
      → IsSpared id r p
      → IsSpared id r (lapsed_job other gas p)
  unfolding lapsed_job append
  lapsed_job-IsSpared other gas p ne s = record {
    kept = forget_retry-other other _ ne ∙ s.kept;
    not_finalized = s.not_finalized;
    not_applied = s.not_applied;
    not_lapsed = All-append _ p.report.lapsed (other ∷ []) s.not_lapsed (ne, tt);
    not_settled = s.not_settled;
  }

  pub bond_settled_job-IsSpared :
      (other gas : ℕ) (p : Pass)
      → other ≢ id
      → IsSpared id r p
      → IsSpared id r (bond_settled_job other gas p)
  unfolding bond_settled_job append
  bond_settled_job-IsSpared other gas p ne s = record {
    kept = forget_retry-other other _ ne ∙ s.kept;
    not_finalized = s.not_finalized;
    not_applied = s.not_applied;
    not_lapsed = s.not_lapsed;
    not_settled = All-append _ p.report.bonds_settled (other ∷ []) s.not_settled (ne, tt);
  }

  pub settled_job-IsSpared :
      (kind : SettlementAction) (other gas fee : ℕ) (p : Pass)
      → other ≢ id
      → IsSpared id r p
      → IsSpared id r (settled_job kind other gas fee p)
  unfolding settled_job append
  settled_job-IsSpared SettlementAction.finalize other gas fee p ne s = record {
    kept = forget_retry-other other _ ne ∙ s.kept;
    not_finalized = All-append _ p.report.finalized (other ∷ []) s.not_finalized (ne, tt);
    not_applied = s.not_applied;
    not_lapsed = s.not_lapsed;
    not_settled = s.not_settled;
  }
  settled_job-IsSpared SettlementAction.finalize_decided other gas fee p ne s = record {
    kept = forget_retry-other other _ ne ∙ s.kept;
    not_finalized = s.not_finalized;
    not_applied = All-append _ p.report.applied (other ∷ []) s.not_applied (ne, tt);
    not_lapsed = s.not_lapsed;
    not_settled = s.not_settled;
  }

  pub hold_job-IsSpared :
      (other : ℕ) (reason : HoldReason) (p : Pass)
      → IsSpared id r p
      → IsSpared id r (hold_job other reason p)
  unfolding hold_job
  hold_job-IsSpared other reason p s = skip_job-IsSpared other _ _ (record {
    kept = s.kept;
    not_finalized = s.not_finalized;
    not_applied = s.not_applied;
    not_lapsed = s.not_lapsed;
    not_settled = s.not_settled;
  })
