-- ===== src/Indexer/Sync/Synced.antt =====
-- services/indexer/src/sync.ts: what the rounds keep between the database and the mirror.
use square.Base.{
  ℕ, ◌+◌, ◌≤◌, ◌<◌, ◌≡◌, refl, sym, subst, ◌∙◌, inl, inr, false, Bool, Option, some, List, [], ◌∷◌,
  ◌++◌, arith, Text, Bool-cases, All, Exists, text_eq, beq_self,
}
use mathlib.Core.Option
use square.Indexer.Sync.{new_indexer}
use square.Base.Sort.{IsSorted, append-IsSorted}
use square.Base.JsMap
use square.Base.JsMap.{JsMap, IsKeyed, get-set}
use square.Indexer.State.{Address, empty_state}
use square.Indexer.Rows.{empty_database, Logged, block_of, Database, Checkpoint}
use square.Indexer.Decode.{precedes}
use square.Indexer.Draft.{Batch, new_batch, batch_events}
use square.Indexer.Persist.{persist, persist_ledger, set_checkpoints}
use square.Indexer.Sync.{Indexer, Setup, next_block, move_cursor, apply_batch}
use square.Indexer.Start.{kernel_contract}
use square.Indexer.Sync.Journal.{
  replay, batch_events_draft, batch_events-All, batch_events-IsSorted,
}
use square.Indexer.Sync.Balances.{amount_of, has}
use square.Indexer.Sync.Adjusted.{
  Holds, persist_ledger_clean, persist_ledger_dirty, persist_ledger-IsKeyed, amount_of-copy_into,
}
use square.Indexer.Sync.Covered.{IsCovered, batch_events-IsCovered}
use square.Indexer.Sync.Fetched.{EventsWithin, All-imp}

pub record IsSynced (setup : Setup) (db : Database) (i : Indexer) : Type 0 where
  pub journaled : replay db.job_events empty_state ≡ i.current
  pub ordered : IsSorted precedes db.job_events
  pub behind : All (λ l. block_of l < next_block setup i) db.job_events
  pub checkpointed :
      Option.map (λ c. c.last_block) (JsMap.get kernel_contract db.checkpoints) ≡ i.cursor
  pub keyed : IsKeyed i.current.ledger
  pub persisted : (key : Text) → amount_of key i.persisted_ledger ≡ amount_of key i.current.ledger
  pub balanced : (key : Text) → amount_of key db.ledger_balances ≡ amount_of key i.current.ledger

-- Whether the setup reads the kernel's contract.
abbrev pub HasKernel : List (Text × Address) → Type 0
HasKernel contracts = Exists (λ c. c.0 ≡ kernel_contract) contracts

abbrev last_checkpoint : Text → JsMap Text Checkpoint → Option ℕ
last_checkpoint contract table = Option.map (λ c. c.last_block) (JsMap.get contract table)

-- Every contract's checkpoint is written, and none is moved elsewhere.
set_checkpoints_kept :
    (contracts : List (Text × Address)) (block : ℕ) (contract : Text)
    (table : JsMap Text Checkpoint)
    → last_checkpoint contract table ≡ some block
    → last_checkpoint contract (set_checkpoints contracts block table) ≡ some block
unfolding set_checkpoints
set_checkpoints_kept [] block contract table h = h
set_checkpoints_kept ((name, address) ∷ contracts) block contract table h =
    set_checkpoints_kept contracts block contract _ (
      ground
        (arith, get-set name contract (record { address = address; last_block = block }) table))

set_checkpoints_lem :
    (contracts : List (Text × Address)) (block : ℕ) (contract : Text)
    (table : JsMap Text Checkpoint)
    → Exists (λ c. c.0 ≡ contract) contracts
    → last_checkpoint contract (set_checkpoints contracts block table) ≡ some block
unfolding set_checkpoints
set_checkpoints_lem [] block contract table none_of = elim none_of [ ]
set_checkpoints_lem ((name, address) ∷ contracts) block contract table (inl same) =
    set_checkpoints_kept contracts block contract _ (
      ground (
        arith,
        get-set name contract (record { address = address; last_block = block }) table,
        beq_self name,
      ))
set_checkpoints_lem ((name, address) ∷ contracts) block contract table (inr later) =
    set_checkpoints_lem contracts block contract _ later

-- The batch of events that follow the journal.
abbrev batch_of : (Logged → Bool) → List Logged → Database → Indexer → Batch
batch_of refuses events db i = batch_events refuses (new_batch i.current db.job_events) events

batch-IsCovered :
    (refuses : Logged → Bool) (events : List Logged) (db : Database) (i : Indexer)
    → IsKeyed i.current.ledger
    → IsCovered i.current.ledger (batch_of refuses events db i)
batch-IsCovered refuses events db i keyed =
    batch_events-IsCovered i.current.ledger refuses events (new_batch i.current db.job_events)
      (record { keyed = keyed; distinct = tt; clean = λ key absent. refl })

follow-IsSorted :
    (journal events : List Logged) (from end : ℕ)
    → IsSorted precedes journal
    → IsSorted precedes events
    → All (λ l. block_of l < from) journal
    → EventsWithin from end events
    → IsSorted precedes (journal ++ events)
follow-IsSorted journal events from end old new behind within =
    append-IsSorted precedes journal events old new (
      All-imp (λ l. block_of l < from) (λ l. All (λ e. precedes e l ≡ false) events)
        (λ l low.
          All-imp (λ e. (from ≤ block_of e) × (block_of e < end)) (λ e. precedes e l ≡ false)
            (λ e w. ground arith) events within)
        journal behind)

-- What a batch makes of the balance and of the staged amount under a key.
batch-Holds :
    (setup : Setup) (refuses : Logged → Bool) (events : List Logged) (db : Database) (i : Indexer)
    (key : Text)
    → IsSynced setup db i
    → Holds i.persisted_ledger key (amount_of key (batch_of refuses events db i).draft.ledger) (
        persist_ledger
          (batch_of refuses events db i).draft.ledger
          i.persisted_ledger
          (batch_of refuses events db i).dirty.ledger
          (db.ledger_balances, []))
unfolding JsMap.get
batch-Holds setup refuses events db i key s =
    let b = batch_of refuses events db i in
    let covered = batch-IsCovered refuses events db i s.keyed in
    elim (Bool-cases (has key b.dirty.ledger)) [
      | inl dirty ↦
          persist_ledger_dirty b.draft.ledger i.persisted_ledger b.dirty.ledger key
            (db.ledger_balances, []) covered.distinct dirty
            (s.balanced key ∙ sym (s.persisted key), refl)
      | inr clean ↦
          subst
            (λ v. Holds i.persisted_ledger key v (
              persist_ledger b.draft.ledger i.persisted_ledger b.dirty.ledger
                (db.ledger_balances, [])))
            (s.persisted key ∙ sym (covered.clean key clean))
            (persist_ledger_clean b.draft.ledger i.persisted_ledger b.dirty.ledger key
              (amount_of key i.persisted_ledger) (db.ledger_balances, []) clean
              (s.balanced key ∙ sym (s.persisted key), refl))
    ]

batch_persisted :
    (setup : Setup) (refuses : Logged → Bool) (events : List Logged) (to_block : ℕ) (db : Database)
    (i : Indexer) (key : Text)
    → IsSynced setup db i
    → amount_of key (apply_batch setup refuses events to_block (db, i)).1.persisted_ledger
      ≡ amount_of key (batch_of refuses events db i).draft.ledger
unfolding apply_batch persist
batch_persisted setup refuses events to_block db i key s =
    let b = batch_of refuses events db i in
    amount_of-copy_into key _ i.persisted_ledger (
      persist_ledger-IsKeyed b.draft.ledger i.persisted_ledger b.dirty.ledger
        (db.ledger_balances, []) tt)
    ∙ (batch-Holds setup refuses events db i key s).1

-- A committed batch of later events, in order.
pub apply_batch-IsSynced :
    (setup : Setup) (refuses : Logged → Bool) (events : List Logged) (to_block : ℕ) (db : Database)
    (i : Indexer)
    → HasKernel setup.contracts
    → IsSorted precedes events
    → EventsWithin (next_block setup i) (to_block + 1) events
    → next_block setup i ≤ to_block + 1
    → IsSynced setup db i
    → IsSynced setup
        (move_cursor to_block (apply_batch setup refuses events to_block (db, i))).0
        (move_cursor to_block (apply_batch setup refuses events to_block (db, i))).1
unfolding apply_batch persist
apply_batch-IsSynced setup refuses events to_block db i has_kernel sorted within later s = record {
  journaled =
      batch_events_draft empty_state refuses events (new_batch i.current db.job_events) s.journaled;
  ordered = batch_events-IsSorted refuses events (new_batch i.current db.job_events) (
      follow-IsSorted db.job_events events (next_block setup i) (to_block + 1) s.ordered sorted
        s.behind within);
  behind =
      batch_events-All empty_state refuses (λ l. block_of l < to_block + 1) events
        (new_batch i.current db.job_events)
        (All-imp _ (λ l. block_of l < to_block + 1) (λ l low. omega arith) db.job_events s.behind)
        (All-imp _ (λ l. block_of l < to_block + 1) (λ l w. w.1) events within);
  checkpointed = set_checkpoints_lem setup.contracts to_block kernel_contract _ has_kernel;
  keyed = (batch-IsCovered refuses events db i s.keyed).keyed;
  persisted = λ key. batch_persisted setup refuses events to_block db i key s;
  balanced = λ key. (batch-Holds setup refuses events db i key s).0;
}

pub new-IsSynced : (setup : Setup) → IsSynced setup empty_database new_indexer
unfolding replay JsMap.get
new-IsSynced setup = record {
  journaled = refl;
  ordered = tt;
  behind = tt;
  checkpointed = refl;
  keyed = tt;
  persisted = λ key. refl;
  balanced = λ key. refl;
}
