-- ===== src/Indexer/Sync.antt =====
-- services/indexer/src/sync.ts: batches, and the state that the indexer keeps. The log lines and the
-- metrics are left out.
pub mod Range
pub mod Progress
pub mod Journal
pub mod Taken
pub mod Balances
pub mod Adjusted
pub mod Covered
pub mod Fetched
pub mod Synced
pub mod Restart
mod Tests
use square.Base.{
  ℕ, ◌+◌, ◌-◌, ◌/◌, zero, suc, Bool, true, false, not, Option, none, some, List, [], ◌∷◌, ◌++◌,
  Text, text_eq, nat_eq, to_lower_case, length, if◌then◌else◌, ltb, codes, leb, text_beq, drop,
  ◌||◌, ◌&&◌, nat_beq,
}
use mathlib.Core.Option
use square.Base.Sort.{sort}
use square.Base.JsMap
use square.Base.JsMap.{JsMap, values}
use square.Base.Lru.{evict}
use square.Indexer.State.{
  Address, IndexerState, empty_state, Ledger, ReducerNotice, windows_missing, ok, err,
}
use square.Indexer.Rows.{
  Logged, Cause, not_reduced, QuarantinedEvent, Checkpoint, Database, place_key, record_quarantine,
  clear_derived_rows,
}
use square.Indexer.Apply.{apply_event}
use square.Indexer.Decode.{Log, precedes, decode_square_logs}
use square.Indexer.Draft.{new_batch, batch_events}
use square.Indexer.Persist.{persist, set_checkpoints, quarantine_of, persist_quarantine}

abbrev pub max_tracked_quarantine : ℕ
max_tracked_quarantine = 100

unfoldable pub track : QuarantinedEvent → JsMap Text QuarantinedEvent → JsMap Text QuarantinedEvent
track q tracked = evict max_tracked_quarantine (JsMap.set (place_key q) q tracked)

unfoldable pub track_all :
    List (Logged × Cause) → JsMap Text QuarantinedEvent → JsMap Text QuarantinedEvent
track_all [] tracked = tracked
track_all (f ∷ fs) tracked = track_all fs (track (quarantine_of f) tracked)

-- The part of `observe` that changes state.
unfoldable pub observe : List ReducerNotice → ℕ → ℕ
observe [] missing = missing
observe (windows_missing id at ∷ ns) missing = observe ns (missing + 1)
observe (n ∷ ns) missing = observe ns missing

pub record Indexer : Type 0 where
  pub current : IndexerState
  pub persisted_ledger : Ledger
  pub quarantined : JsMap Text QuarantinedEvent
  pub cursor : Option ℕ
  pub windows_missing : ℕ

abbrev pub new_indexer : Indexer
new_indexer = record {
  current = empty_state;
  persisted_ledger = [];
  quarantined = [];
  cursor = none;
  windows_missing = 0;
}

unfoldable pub copy_into : Ledger → Ledger → Ledger
copy_into [] persisted = persisted
copy_into ((key, amount) ∷ entries) persisted = copy_into entries (JsMap.set key amount persisted)

-- What the indexer is given: the contracts that it reads with their addresses, `parseEventLogs`, and
-- whether a changed deployment restarts it.
pub record Setup : Type 0 where
  pub contracts : List (Text × Address)
  pub parse : Text → List Log → List Logged
  pub start_block : ℕ
  pub batch_blocks : ℕ
  pub restarts_on_change : Bool

-- The committed transaction, and what follows it.
unfoldable pub apply_batch :
    Setup → (Logged → Bool) → List Logged → ℕ → Database × Indexer → Database × Indexer
apply_batch setup refuses events to_block (db, i) =
    let b = batch_events refuses (new_batch i.current db.job_events) events in
    let (rows, staged) = persist b.draft b.dirty i.persisted_ledger db in
    (
      record rows {
        job_events = b.journal;
        checkpoints = set_checkpoints setup.contracts to_block rows.checkpoints;
        quarantined_events = persist_quarantine b.failures rows.quarantined_events;
      },
      record i {
        current = b.draft;
        persisted_ledger = copy_into staged i.persisted_ledger;
        windows_missing = observe b.notices i.windows_missing;
        quarantined = track_all b.failures i.quarantined;
      },
    )

-- What the node answers to `getLogs`, and what it throws.
pub data Answer : Type 0 where
  logs : List Log → Answer
  too_large failed : Answer

-- Two answers that are awaited in turn.
unfoldable pub both : Answer → Answer → Answer
both (logs head) (logs tail) = logs (head ++ tail)
both (logs head) thrown = thrown
both thrown second = thrown

-- On fuel; `to - from + 1` is enough.
unfoldable pub logs_in_range : (ℕ → ℕ → Answer) → ℕ → ℕ → ℕ → Answer
logs_in_range ask zero from to = failed
logs_in_range ask (suc fuel) from to = elim (ask from to) [
  | logs found ↦ logs found
  | failed ↦ failed
  | too_large ↦ elim (leb to from) [
    | true ↦ too_large
    | false ↦
        let middle = from + (to - from) / 2 in
        both (logs_in_range ask fuel from middle) (logs_in_range ask fuel (middle + 1) to)
  ]
]

-- What one round meets: the chain's head, the node's answers, the events whose insertion throws, and
-- whether the transaction commits.
pub record Poll : Type 0 where
  pub head : ℕ
  pub ask : ℕ → ℕ → Answer
  pub refuses : Logged → Bool
  pub commits : Bool

pub data Round : Type 0 where
  synced : Database × Indexer → ℕ → ℕ → Round
  up_to_date threw_out : Round

abbrev pub next_block : Setup → Indexer → ℕ
next_block setup i = elim i.cursor [ none ↦ setup.start_block | some block ↦ block + 1 ]

abbrev pub last_block_of : Setup → ℕ → ℕ → ℕ
last_block_of setup from head =
    if ltb (from + setup.batch_blocks - 1) head then from + setup.batch_blocks - 1 else head

abbrev pub move_cursor : ℕ → Database × Indexer → Database × Indexer
move_cursor to_block (db, i) = (db, record i { cursor = some to_block })

unfoldable pub sync_range : Setup → Poll → ℕ → ℕ → Database × Indexer → Round
sync_range setup poll from to_block held =
    elim (logs_in_range poll.ask (to_block - from + 1) from to_block) [
      | logs found ↦
          let events = decode_square_logs setup.parse setup.contracts found in
          if poll.commits
          then synced (move_cursor to_block (apply_batch setup poll.refuses events to_block held))
              from to_block
          else threw_out
      | _ ↦ threw_out
    ]

unfoldable pub sync_once : Setup → Poll → Database × Indexer → Round
sync_once setup poll (db, i) =
    let from = next_block setup i in
    if ltb poll.head from
    then up_to_date
    else sync_range setup poll from (last_block_of setup from poll.head) (db, i)

-- The body of the loop of `run`: what is thrown is logged.
unfoldable pub run_round : Setup → Database × Indexer → Poll → Database × Indexer
run_round setup held poll = elim (sync_once setup poll held) [
  | synced next from to_block ↦ next
  | _ ↦ held
]

unfoldable pub run : Setup → Database × Indexer → List Poll → Database × Indexer
run setup held [] = held
run setup held (poll ∷ polls) = run setup (run_round setup held poll) polls
