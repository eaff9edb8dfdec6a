-- ===== src/Indexer/State.antt =====
-- services/indexer/src/reducer.ts: the state that the reducer keeps.
use square.Base.{ℕ, Bool, Option, List, [], Text}
use square.Base.JsMap.{JsMap}
use square.Base.Int.{ℤ}

-- Addresses and hashes are texts of hexadecimal digits.
abbrev pub Address : Type 0
Address = Text

abbrev pub Hex : Type 0
Hex = Text

abbrev pub Approvals : Type 0
Approvals = JsMap Hex ℕ

abbrev pub Ledger : Type 0
Ledger = JsMap Text ℤ

pub record JobState : Type 0 where
  pub job_id : ℕ
  pub client : Address
  pub provider : Option Address
  pub evaluator : Address
  pub hook : Option Address
  pub description : Text
  pub budget : ℕ
  pub status : ℕ
  pub expired_at : ℕ
  pub created_at : ℕ
  pub funded_at : Option ℕ
  pub submitted_at : Option ℕ
  pub challenge_end : Option ℕ
  pub platform_fee_bp : Option ℕ
  pub evaluator_fee_bp : Option ℕ
  pub deliverable : Option Hex
  pub payee : Option Address
  pub provider_bps : Option ℕ
  pub reason : Option Hex
  pub disputed : Bool
  pub agent_id : Option ℕ
  pub refund_reason : Option Text
  pub updated_block : ℕ

pub record DisputeState : Type 0 where
  pub job_id : ℕ
  pub disputer : Address
  pub bond : ℕ
  pub disputed_at : ℕ
  pub resolve_by : ℕ
  pub set_version : ℕ
  pub approvals : Approvals
  pub outcome : Option ℕ
  pub provider_bps : Option ℕ
  pub closed : Bool
  pub updated_block : ℕ

pub record ListingState : Type 0 where
  pub job_id : ℕ
  pub seller : Address
  pub buyer : Option Address
  pub price : ℕ
  pub face_value : ℕ
  pub status : ℕ
  pub updated_block : ℕ

pub record WindowState : Type 0 where
  pub effective_from : ℕ
  pub challenge_window : ℕ
  pub dispute_window : ℕ

pub record ArbiterSetState : Type 0 where
  pub version : ℕ
  pub arbiters : List Address
  pub threshold : ℕ

pub record IndexerState : Type 0 where
  pub jobs : JsMap ℕ JobState
  pub disputes : JsMap ℕ DisputeState
  pub listings : JsMap ℕ ListingState
  pub ledger : Ledger
  pub windows : List WindowState
  pub arbiter_sets : JsMap ℕ ArbiterSetState

abbrev pub empty_state : IndexerState
empty_state = record {
  jobs = [];
  disputes = [];
  listings = [];
  ledger = [];
  windows = [];
  arbiter_sets = [];
}

pub data ReducerNotice : Type 0 where
  windows_missing : ℕ → ℕ → ReducerNotice
  reputation_write_failed : ℕ → ℕ → ReducerNotice
  validation_write_failed : ℕ → Hex → ReducerNotice
  hook_failed : ℕ → Address → Hex → ReducerNotice
  release_refused : ℕ → Hex → Hex → ReducerNotice
  release_unconfirmed : ℕ → Address → ℕ → ReducerNotice

-- What the reducer throws.
pub data ReducerError : Type 0 where
  unknown_job unknown_dispute unlisted_purchase unlisted_cancellation : ℕ → ReducerError

pub data Result {ℓ} (A : Type ℓ) : Type ℓ where
  ok : A → Result A
  err : ReducerError → Result A
