-- ===== src/Indexer/Persist.antt =====
-- services/indexer/src/sync.ts: what a batch writes to the database.
use square.Base.{ℕ, none, some, List, [], ◌∷◌, Text, text_eq, nat_eq, get_or, if◌then◌else◌}
use square.Base.JsMap
use square.Base.JsMap.{JsMap, keys}
use square.Base.Int.{pos, ◌-ℤ◌, int_beq}
use square.Indexer.State.{Address, DisputeState, ArbiterSetState, IndexerState, Ledger}
use square.Indexer.Rows.{
  Logged, block_of, index_of, Cause, QuarantinedEvent, Checkpoint, Database, upsert, adjust,
  record_quarantine,
}
use square.Indexer.Draft.{Dirty}

-- The rows of the dirty entries.
unfoldable pub persist_rows : {A : Type 0} → (A → ℕ) → JsMap ℕ A → List ℕ → JsMap ℕ A → JsMap ℕ A
persist_rows block draft [] table = table
persist_rows block draft (id ∷ ids) table =
    persist_rows block draft ids
      (elim (JsMap.get id draft) [ none ↦ table | some row ↦ upsert block id row table ])

unfoldable pub persist_sets :
    JsMap ℕ ArbiterSetState → List ℕ → JsMap ℕ ArbiterSetState → JsMap ℕ ArbiterSetState
persist_sets draft [] table = table
persist_sets draft (v ∷ vs) table =
    persist_sets draft vs (elim (JsMap.get v draft) [ none ↦ table | some s ↦ JsMap.set v s table ])

-- The rows of the disputes table have no approvals.
unfoldable pub disputes_rows : JsMap ℕ DisputeState → JsMap ℕ DisputeState
disputes_rows [] = []
disputes_rows ((id, d) ∷ ds) = (id, record d { approvals = [] }) ∷ disputes_rows ds

-- The entry under a key of the mirror's ledger against what is known to be persisted: the balances, and
-- what is staged.
unfoldable pub persist_entry : Ledger → Ledger → Text → Ledger × Ledger → Ledger × Ledger
persist_entry draft persisted key (balances, staged) =
    let amount = get_or (JsMap.get key draft) (pos 0) in
    let delta = amount -ℤ get_or (JsMap.get key persisted) (pos 0) in
    if int_beq delta (pos 0)
    then (balances, staged)
    else (adjust key delta balances, JsMap.set key amount staged)

unfoldable pub persist_ledger : Ledger → Ledger → List Text → Ledger × Ledger → Ledger × Ledger
persist_ledger draft persisted [] held = held
persist_ledger draft persisted (key ∷ dirty) held =
    persist_ledger draft persisted dirty (persist_entry draft persisted key held)

unfoldable pub set_checkpoints :
    List (Text × Address) → ℕ → JsMap Text Checkpoint → JsMap Text Checkpoint
set_checkpoints [] block table = table
set_checkpoints ((contract, address) ∷ contracts) block table =
    set_checkpoints contracts block
      (JsMap.set contract (record { address = address; last_block = block }) table)

unfoldable pub quarantine_of : Logged × Cause → QuarantinedEvent
quarantine_of (l, cause) = record {
  contract = l.contract;
  event_name = l.event_name;
  block_number = block_of l;
  log_index = index_of l;
  tx_hash = l.tx_hash;
  cause = cause;
}

unfoldable pub persist_quarantine :
    List (Logged × Cause) → JsMap Text QuarantinedEvent → JsMap Text QuarantinedEvent
persist_quarantine [] table = table
persist_quarantine (f ∷ fs) table =
    persist_quarantine fs (record_quarantine (quarantine_of f) table)

-- The database, and the ledger entries to keep once the transaction has committed.
unfoldable pub persist : IndexerState → Dirty → Ledger → Database → Database × Ledger
persist draft dirty persisted db =
    let (balances, staged) =
      persist_ledger draft.ledger persisted dirty.ledger (db.ledger_balances, []) in
    (
      record db {
        jobs = persist_rows (λ j. j.updated_block) draft.jobs dirty.jobs db.jobs;
        disputes =
            persist_rows (λ d. d.updated_block) (disputes_rows draft.disputes) dirty.disputes
              db.disputes;
        claim_listings =
            persist_rows (λ l. l.updated_block) draft.listings dirty.listings db.claim_listings;
        arbiter_sets = persist_sets draft.arbiter_sets dirty.arbiter_sets db.arbiter_sets;
        ledger_balances = balances;
      },
      staged,
    )
