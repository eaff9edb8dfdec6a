-- ===== src/Indexer/Start.antt =====
-- services/indexer/src/sync.ts: the start over the rows of an earlier process.
use square.Base.{
  ◌-◌, Bool, true, false, not, Option, none, some, List, [], ◌∷◌, Text, text_eq, nat_eq,
  to_lower_case, length, if◌then◌else◌, ltb, codes, text_beq, drop, ◌||◌, ◌&&◌, nat_beq,
}
use mathlib.Core.Option
use square.Base.Sort.{sort}
use square.Base.JsMap
use square.Base.JsMap.{JsMap, values}
use square.Indexer.State.{Address, empty_state, ok, err}
use square.Indexer.Rows.{
  Logged, not_reduced, QuarantinedEvent, Checkpoint, Database, record_quarantine,
  clear_derived_rows,
}
use square.Indexer.Apply.{apply_event}
use square.Indexer.Decode.{precedes}
use square.Indexer.Persist.{quarantine_of}
use square.Indexer.Sync.{max_tracked_quarantine, track, observe, Indexer, copy_into, Setup}

abbrev pub kernel_contract : Text
kernel_contract = codes "SquareJob"

abbrev pub is_some : {A : Type 0} → Option A → Bool
is_some none = false
is_some (some a) = true

-- Whether a contract's checkpoint is not of this deployment.
unfoldable pub has_moved : Bool → Option Checkpoint → Address → Bool
has_moved kernel_known none address = kernel_known
has_moved kernel_known (some checkpoint) address =
    not (text_beq (to_lower_case checkpoint.address) (to_lower_case address))

unfoldable pub deployment_changes : List (Text × Address) → JsMap Text Checkpoint → List Text
deployment_changes [] checkpoints = []
deployment_changes ((contract, address) ∷ contracts) checkpoints =
    let rest = deployment_changes contracts checkpoints in
    if has_moved (is_some (JsMap.get kernel_contract checkpoints)) (JsMap.get contract checkpoints)
      address
    then contract ∷ rest
    else rest

unfoldable pub track_rows :
    List QuarantinedEvent → JsMap Text QuarantinedEvent → JsMap Text QuarantinedEvent
track_rows [] tracked = tracked
track_rows (q ∷ qs) tracked = track_rows qs (track q tracked)

-- `order by block_number, log_index`.
abbrev pub stands_before : QuarantinedEvent → QuarantinedEvent → Bool
stands_before a b =
    ltb a.block_number b.block_number
    || nat_beq a.block_number b.block_number && ltb a.log_index b.log_index

-- The newest rows, oldest first.
unfoldable pub load_quarantine :
    JsMap Text QuarantinedEvent → JsMap Text QuarantinedEvent → JsMap Text QuarantinedEvent
load_quarantine table tracked =
    track_rows (drop (length table - max_tracked_quarantine) (sort stands_before (values table)))
      tracked

-- One event of the journal, applied in place.
unfoldable pub replay_event : Logged → Database × Indexer → Database × Indexer
replay_event l (db, i) = elim (apply_event i.current l.event) [
  | err x ↦ (
    record db {
      quarantined_events =
          record_quarantine (quarantine_of (l, not_reduced x)) db.quarantined_events;
    },
    record i { quarantined = track (quarantine_of (l, not_reduced x)) i.quarantined },
  )
  | ok (next, notices) ↦
      (db, record i { current = next; windows_missing = observe notices i.windows_missing })
]

unfoldable pub replay_events : List Logged → Database × Indexer → Database × Indexer
replay_events [] held = held
replay_events (l ∷ ls) held = replay_events ls (replay_event l held)

-- The rows of the journal hold the raw logs, which decode to the events that they were written for.
unfoldable pub replay_journal : Database × Indexer → Database × Indexer
replay_journal (db, i) =
    let (db, i) = replay_events (sort precedes db.job_events) (db, i) in
    (db, record i { persisted_ledger = copy_into i.current.ledger i.persisted_ledger })

unfoldable pub resume : Database × Indexer → Database × Indexer
resume (db, i) =
    let (db, i) =
      replay_journal
        (db, record i { quarantined = load_quarantine db.quarantined_events i.quarantined }) in
    (
      db,
      record i {
        cursor = Option.map (λ c. c.last_block) (JsMap.get kernel_contract db.checkpoints);
      },
    )

-- Nothing is left when it throws.
unfoldable pub start : Setup → Database × Indexer → Option (Database × Indexer)
start setup (db, i) = elim (deployment_changes setup.contracts db.checkpoints) [
  | [] ↦ some (resume (db, i))
  | change ∷ changes ↦
      if setup.restarts_on_change
      then some (
        clear_derived_rows db,
        record i { current = empty_state; persisted_ledger = []; cursor = none },
      )
      else none
]
