-- ===== src/Indexer/Rows.antt =====
-- The indexer's rows of one chain in the database: packages/data/src/repositories, as
-- services/indexer/src/sync.ts uses them.
use square.Base.{
  ℕ, Bool, true, false, ◌&&◌, Option, none, some, List, [], ◌∷◌, ◌++◌, Text, text_eq, nat_eq,
  nat_beq, any, leb, get_or, if◌then◌else◌, decimal,
}
use square.Base.JsMap
use square.Base.JsMap.{JsMap}
use square.Base.Int.{ℤ, ◌+ℤ◌}
use square.Indexer.State.{
  Address, Hex, JobState, DisputeState, ListingState, ArbiterSetState, ReducerError,
}
use square.Indexer.Events.{SquareEvent}

-- A decoded log: the event, and what else the indexer reads of it. `job_id` is the argument of that
-- name, where the event has one.
pub record Logged : Type 0 where
  pub event : SquareEvent
  pub log_index : Option ℕ
  pub tx_hash : Option Hex
  pub contract : Text
  pub event_name : Text
  pub job_id : Option ℕ

abbrev pub block_of : Logged → ℕ
block_of l = get_or l.event.block_number 0

abbrev pub index_of : Logged → ℕ
index_of l = get_or l.log_index 0

-- The key of the journal, but for the chain.
unfoldable pub same_place : Logged → Logged → Bool
same_place a b = nat_beq (block_of a) (block_of b) && nat_beq (index_of a) (index_of b)

pub data Cause : Type 0 where
  not_journaled : Cause
  not_reduced : ReducerError → Cause

pub record QuarantinedEvent : Type 0 where
  pub contract : Text
  pub event_name : Text
  pub block_number : ℕ
  pub log_index : ℕ
  pub tx_hash : Option Hex
  pub cause : Cause

pub record Checkpoint : Type 0 where
  pub address : Address
  pub last_block : ℕ

pub record Database : Type 0 where
  pub jobs : JsMap ℕ JobState
  pub disputes : JsMap ℕ DisputeState
  pub claim_listings : JsMap ℕ ListingState
  pub ledger_balances : JsMap Text ℤ
  pub arbiter_sets : JsMap ℕ ArbiterSetState
  pub job_events : List Logged
  pub quarantined_events : JsMap Text QuarantinedEvent
  pub checkpoints : JsMap Text Checkpoint

abbrev pub empty_database : Database
empty_database = record {
  jobs = [];
  disputes = [];
  claim_listings = [];
  ledger_balances = [];
  arbiter_sets = [];
  job_events = [];
  quarantined_events = [];
  checkpoints = [];
}

-- jobEvents.ts: whether the row was new, and the journal.
unfoldable pub insert_if_absent : Logged → List Logged → Bool × List Logged
insert_if_absent l journal =
    if any (λ k. same_place k l) journal then (false, journal) else (true, journal ++ l ∷ [])

-- jobs.ts, disputes.ts, claimListings.ts: a row is written over one that is not of a later block.
unfoldable pub upsert : {A : Type 0} → (A → ℕ) → ℕ → A → JsMap ℕ A → JsMap ℕ A
upsert updated_block id row table = elim (JsMap.get id table) [
  | none ↦ JsMap.set id row table
  | some old ↦ if leb (updated_block old) (updated_block row) then JsMap.set id row table else table
]

-- ledgerBalances.ts: the amount is added to what is there.
unfoldable pub adjust : Text → ℤ → JsMap Text ℤ → JsMap Text ℤ
adjust key delta table = elim (JsMap.get key table) [
  | none ↦ JsMap.set key delta table
  | some amount ↦ JsMap.set key (amount +ℤ delta) table
]

unfoldable pub place_key : QuarantinedEvent → Text
place_key q = decimal q.block_number ++ (b':' ∷ decimal q.log_index)

-- quarantinedEvents.ts.
unfoldable pub record_quarantine :
    QuarantinedEvent → JsMap Text QuarantinedEvent → JsMap Text QuarantinedEvent
record_quarantine q table = JsMap.set (place_key q) q table

-- The statements `delete from …` for the derived tables; the checkpoints stay.
unfoldable pub clear_derived_rows : Database → Database
clear_derived_rows db = record empty_database { checkpoints = db.checkpoints }
