-- ===== src/App/Inbox/Laws.antt =====
-- What waits for a wallet may be done (app/src/lib/inbox.ts).
use square.Base.{ℕ, ◌≡◌, ◌<◌, ◌⊎◌, Bool, true, Text}
use square.App.Actions.{JobSummary, submit_available, refund_available, dispute_available}
use square.App.Phase.{open_phase, in_window, finalizable, job_phase}
use square.App.Inbox.{InboxKind, submit, fund, budget, dispute, finalize, refund}

module _ (eq : Text → Text → Bool) (job : JobSummary) (address keeper : Text) (now : ℕ) where
  -- What the group of a job promises.
  abbrev pub IsOffered : InboxKind → Type 0
  IsOffered submit = (eq job.provider address ≡ true) × (submit_available job now ≡ true)
  IsOffered fund =
      (eq job.client address ≡ true)
      × (job_phase job now ≡ open_phase)
      × (0 < job.budget)
      × (now < job.expired_at)
  IsOffered budget =
      (eq job.client address ≡ true)
      × (job_phase job now ≡ open_phase)
      × (job.budget ≡ 0)
      × (now < job.expired_at)
  IsOffered dispute =
      (eq job.client address ≡ true)
      × (job_phase job now ≡ in_window)
      × (dispute_available eq job keeper now ≡ true)
  IsOffered finalize =
      ((eq job.client address ≡ true) ⊎ (eq job.provider address ≡ true))
      × (job_phase job now ≡ finalizable)
      × (eq job.evaluator keeper ≡ true)
  IsOffered refund = (eq job.client address ≡ true) × (refund_available eq job keeper now ≡ true)
