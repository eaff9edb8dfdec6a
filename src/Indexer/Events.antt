-- ===== src/Indexer/Events.antt =====
-- The events of the contracts that the reducer reads (services/indexer/src/reducer.ts); an event that
-- it ignores is `other`. The decoding of logs is left to the chain library.
use square.Base.{ℕ, Option, List, Text}
use square.Indexer.State.{Address, Hex}

pub data KernelEvent : Type 0 where
  job_created : ℕ → Address → Address → Address → Address → ℕ → KernelEvent
  job_described : ℕ → Text → ℕ → KernelEvent
  provider_set : ℕ → Address → KernelEvent
  budget_set : ℕ → ℕ → KernelEvent
  job_funded : ℕ → ℕ → KernelEvent
  fees_snapshotted : ℕ → ℕ → ℕ → ℕ → KernelEvent
  job_submitted : ℕ → Hex → KernelEvent
  submission_timed : ℕ → ℕ → ℕ → KernelEvent
  job_completed : ℕ → Hex → KernelEvent
  payout_routed : ℕ → Address → ℕ → KernelEvent
  job_rejected : ℕ → Hex → KernelEvent
  job_expired : ℕ → KernelEvent
  payout_unresolvable : ℕ → KernelEvent
  hook_failed_event : ℕ → Address → Hex → KernelEvent
  payment_released : Address → ℕ → KernelEvent
  refunded : Address → ℕ → KernelEvent
  evaluator_fee_paid : Address → ℕ → KernelEvent
  platform_fee_accrued : Address → ℕ → KernelEvent
  withdrawn : Address → ℕ → KernelEvent
  other : KernelEvent

pub data KeeperEvent : Type 0 where
  windows_configured : ℕ → ℕ → ℕ → KeeperEvent
  dispute_raised : ℕ → KeeperEvent
  decision_applied : ℕ → KeeperEvent
  other : KeeperEvent

pub data ArbitrationEvent : Type 0 where
  arbiters_updated : ℕ → List Address → ℕ → ArbitrationEvent
  dispute_opened : ℕ → Address → ℕ → ℕ → ℕ → ℕ → ArbitrationEvent
  vote_cast : ℕ → Hex → ℕ → ArbitrationEvent
  decision_reached : ℕ → ℕ → ℕ → ArbitrationEvent
  bond_settled : ℕ → Address → ℕ → ArbitrationEvent
  bond_withdrawn : Address → ℕ → ArbitrationEvent
  other : ArbitrationEvent

pub data MarketEvent : Type 0 where
  claim_listed : ℕ → Address → ℕ → ℕ → MarketEvent
  claim_bought : ℕ → Address → MarketEvent
  claim_cancelled : ℕ → MarketEvent
  other : MarketEvent

pub data HookEvent : Type 0 where
  reputation_write_failed_event : ℕ → ℕ → HookEvent
  validation_write_failed_event : ℕ → Hex → HookEvent
  release_unconfirmed_event : ℕ → Address → ℕ → HookEvent
  agent_bound : ℕ → ℕ → HookEvent
  other : HookEvent

pub data ModuleEvent : Type 0 where
  release_refused_event : ℕ → Hex → Hex → ModuleEvent
  other : ModuleEvent

pub data EventBody : Type 0 where
  kernel : KernelEvent → EventBody
  keeper : KeeperEvent → EventBody
  arbitration : ArbitrationEvent → EventBody
  market : MarketEvent → EventBody
  hook : HookEvent → EventBody
  compliance : ModuleEvent → EventBody

pub record SquareEvent : Type 0 where
  pub body : EventBody
  pub block_number : Option ℕ
