-- ===== src/Keeper/Blocked/Send.antt =====
-- services/keeper/src/run.ts: the calls of a tick leave a blocked job alone.
use square.Base.{ℕ, refl, inl, inr, Option, List, [], ◌∷◌, nat_eq, Bool-cases, All, ◌≢◌}
use square.Base.JsMap.{JsMap}
use square.Keeper.Decide.{KeeperCandidate}
use square.Keeper.Gas.{SettlementAction}
use square.Keeper.Retry.{RetryState, ActionName}
use square.Keeper.Chain.{Screening-cases, Sent-cases, Chain, Screening, lapse_call}
use square.Keeper.Holds.{Clearance-cases, cleared_by_holds, rules_of}
use square.Keeper.Report.{KeeperOptions, refused_for_want_of_a_proof, Pass, with_keeper}
use square.Keeper.Settle.{
  lapse_job, settle_job, hold_for_want_of_a_proof, send_cleared, send_candidate, send_candidates,
  screening_of, call_of,
}
use square.Keeper.JobState.{Rows}
use square.Keeper.Blocked.{
  IsSpared, with_keeper-IsSpared, skip_job-IsSpared, note_failure-other, forget_retry-other,
  failed_call-IsSpared, lapsed_job-IsSpared, settled_job-IsSpared, hold_job-IsSpared,
}

module _ (id : ℕ) (r : RetryState) where
  pub lapse_job-IsSpared :
      (o : KeeperOptions) (chain : Chain) (now other : ℕ) (p : Pass)
      → other ≢ id
      → IsSpared id r p
      → IsSpared id r (lapse_job o chain now other p)
  unfolding lapse_job
  lapse_job-IsSpared o chain now other p ne s = elim (Sent-cases (chain.send lapse_call other)) [
    | inl (gas, fee, mined) ↦ rw (mined, lapse_job) (lapsed_job-IsSpared id r other gas p ne s)
    | inr (message, error) ↦
        rw (error, lapse_job)
          (failed_call-IsSpared id r o now ActionName.lapse other message p ne s)
  ]

  hold_for_want_of_a_proof-IsSpared :
      (other now : ℕ) (p : Pass)
      → other ≢ id
      → IsSpared id r p
      → IsSpared id r (hold_for_want_of_a_proof other now p)
  unfolding hold_for_want_of_a_proof
  hold_for_want_of_a_proof-IsSpared other now p ne s =
      hold_job-IsSpared id r other _ _
        (with_keeper-IsSpared id r _ p (forget_retry-other id r other _ ne) s)

  settle_job-IsSpared :
      (o : KeeperOptions) (chain : Chain) (now : ℕ) (kind : SettlementAction) (other : ℕ) (p : Pass)
      → other ≢ id
      → IsSpared id r p
      → IsSpared id r (settle_job o chain now kind other p)
  unfolding settle_job
  settle_job-IsSpared o chain now kind other p ne s =
      elim (Sent-cases (chain.send (call_of kind) other)) [
        | inl (gas, fee, mined) ↦
            rw (mined, settle_job) (settled_job-IsSpared id r kind other gas fee p ne s)
        | inr (message, error) ↦ elim (Bool-cases (refused_for_want_of_a_proof message)) [
          | inl proof ↦
              rw (error, proof, settle_job) (hold_for_want_of_a_proof-IsSpared other now p ne s)
          | inr failed ↦
              rw (error, failed, settle_job)
                (failed_call-IsSpared id r o now _ other message p ne s)
        ]
      ]

  rows-IsSpared :
      (rows : Rows) (p : Pass)
      → IsSpared id r p
      → IsSpared id r (with_keeper (λ k. record k { rows = rows }) p)
  rows-IsSpared rows p s = with_keeper-IsSpared id r (λ k. record k { rows = rows }) p refl s

  send_cleared-IsSpared :
      (o : KeeperOptions) (chain : Chain) (now : ℕ) (c : KeeperCandidate) (kind : SettlementAction)
      (p : Pass)
      → c.job_id ≢ id
      → IsSpared id r p
      → IsSpared id r (send_cleared o chain now (c, kind) p)
  unfolding send_cleared
  send_cleared-IsSpared o chain now c kind p ne s =
      let found =
        cleared_by_holds (rules_of o.gated chain o.proof_grace_seconds) c now p.keeper.rows in
      elim (Clearance-cases found.0) [
        | inl free ↦
            rw (free, send_cleared)
              (settle_job-IsSpared o chain now kind c.job_id _ ne (rows-IsSpared found.1 p s))
        | inr (reason, stays) ↦
            rw (stays, send_cleared)
              (hold_job-IsSpared id r c.job_id reason _ (rows-IsSpared found.1 p s))
      ]

  send_candidate-IsSpared :
      (o : KeeperOptions) (chain : Chain) (now : ℕ) (screenings : Option (JsMap ℕ Screening))
      (c : KeeperCandidate) (kind : SettlementAction) (p : Pass)
      → c.job_id ≢ id
      → IsSpared id r p
      → IsSpared id r (send_candidate o chain now screenings (c, kind) p)
  unfolding send_candidate
  send_candidate-IsSpared o chain now screenings c kind p ne s =
      elim (Screening-cases (screening_of screenings c.job_id)) [
        | inl go ↦ rw (go, send_candidate) (send_cleared-IsSpared o chain now c kind p ne s)
        | inr (inl stay) ↦ rw (stay, send_candidate) (skip_job-IsSpared id r c.job_id _ p s)
        | inr (inr (message, error)) ↦
            rw (error, send_candidate)
              (with_keeper-IsSpared id r _ p
                (note_failure-other id r o.policy c.job_id _ _ now p.keeper ne) s)
      ]

  pub send_candidates-IsSpared :
      (o : KeeperOptions) (chain : Chain) (now : ℕ) (screenings : Option (JsMap ℕ Screening))
      (ss : List (KeeperCandidate × SettlementAction)) (p : Pass)
      → All (λ t. t.0.job_id ≢ id) ss
      → IsSpared id r p
      → IsSpared id r (send_candidates o chain now screenings ss p)
  unfolding send_candidates
  send_candidates-IsSpared o chain now screenings [] p ne s = s
  send_candidates-IsSpared o chain now screenings ((c, kind) ∷ ss) p (ne, nes) s =
      send_candidates-IsSpared o chain now screenings ss _ nes
        (send_candidate-IsSpared o chain now screenings c kind p ne s)
