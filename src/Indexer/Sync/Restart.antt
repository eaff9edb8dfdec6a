-- ===== src/Indexer/Sync/Restart.antt =====
-- services/indexer/src/sync.ts: any rounds, and the restart after them.
use square.Base.{
  ℕ, ◌+◌, ◌-◌, ◌≤◌, ◌≡◌, refl, ap, sym, subst, ◌∙◌, inl, inr, some, List, [], ◌∷◌, arith, Text,
  Bool-cases, All, ltb, text_eq, get_or,
}
use mathlib.Core.Option
use square.Base.Sort.{sort, sort_sorted}
use square.Base.JsMap
use square.Base.JsMap.{IsKeyed}
use square.Indexer.State.{empty_state}
use square.Indexer.Rows.{Database}
use square.Indexer.Decode.{Log, precedes, decode_square_logs}
use square.Indexer.Sync.{
  Indexer, new_indexer, Setup, Poll, next_block, last_block_of, move_cursor, apply_batch, sync_once,
  sync_range, run, run_round,
}
use square.Indexer.Start.{
  resume, replay_journal, replay_events, deployment_changes, start, kernel_contract,
  load_quarantine,
}
use square.Indexer.Sync.Range.{blocks_logs, IsHonest, whole, refused, broken, logs_in_range-cases}
use square.Indexer.Sync.Journal.{
  replay, replay_events_current, replay_events_checkpoints, replay_events_persisted,
}
use square.Indexer.Sync.Balances.{amount_of}
use square.Indexer.Sync.Adjusted.{amount_of-copy_into}
use square.Indexer.Sync.Fetched.{
  IsParser, IsChain, decode_square_logs_within, decode_square_logs-IsSorted,
}
use square.Indexer.Sync.Synced.{IsSynced, HasKernel, apply_batch-IsSynced}

-- What a round can come to.
data RoundResult (setup : Setup) (chain : ℕ → List Log) (poll : Poll) (db : Database) (i : Indexer)
    : Type 0 where
  kept : run_round setup (db, i) poll ≡ (db, i) → RoundResult setup chain poll db i
  committed :
      (next_block setup i ≤ poll.head)
      → run_round setup (db, i) poll
        ≡ move_cursor (last_block_of setup (next_block setup i) poll.head) (
            apply_batch setup poll.refuses
              (decode_square_logs setup.parse setup.contracts (
                blocks_logs chain
                  (next_block setup i)
                  (last_block_of setup (next_block setup i) poll.head - next_block setup i + 1)))
              (last_block_of setup (next_block setup i) poll.head)
              (db, i))
      → RoundResult setup chain poll db i

round-cases :
    (setup : Setup) (chain : ℕ → List Log) (poll : Poll) (db : Database) (i : Indexer)
    → 1 ≤ setup.batch_blocks
    → IsHonest chain poll.ask
    → RoundResult setup chain poll db i
unfolding run_round sync_once sync_range apply_batch
round-cases setup chain poll db i wide honest =
    let from = next_block setup i in
    let last = last_block_of setup from poll.head in
    elim (Bool-cases (ltb poll.head from)) [
      | inl done ↦ kept (rw (done, run_round, sync_once) refl)
      | inr ahead ↦
          elim (logs_in_range-cases chain poll.ask (last - from + 1) from last honest
            (ground arith)) [
              | broken threw ↦ kept (rw (ahead, threw, run_round, sync_once, sync_range) refl)
              | refused threw ↦ kept (rw (ahead, threw, run_round, sync_once, sync_range) refl)
              | whole found ↦ elim (Bool-cases poll.commits) [
                | inl commits ↦
                    committed (ground arith)
                      (rw (ahead, found, commits, run_round, sync_once, sync_range) refl)
                | inr undone ↦
                    kept (rw (ahead, found, undone, run_round, sync_once, sync_range) refl)
              ]
            ]
    ]

round-IsSynced :
    (setup : Setup) (chain : ℕ → List Log) (poll : Poll) (held : Database × Indexer)
    → 1 ≤ setup.batch_blocks
    → HasKernel setup.contracts
    → IsParser setup.parse
    → IsChain chain
    → IsHonest chain poll.ask
    → IsSynced setup held.0 held.1
    → IsSynced setup (run_round setup held poll).0 (run_round setup held poll).1
round-IsSynced setup chain poll (db, i) wide has_kernel parses named honest s =
    let from = next_block setup i in
    let last = last_block_of setup from poll.head in
    elim (round-cases setup chain poll db i wide honest) [
      | kept same ↦ subst (λ held. IsSynced setup held.0 held.1) (sym same) s
      | committed ahead same ↦
          subst (λ held. IsSynced setup held.0 held.1) (sym same)
            (apply_batch-IsSynced setup poll.refuses _ last db i has_kernel
              (decode_square_logs-IsSorted setup.parse setup.contracts
                (blocks_logs chain from (last - from + 1)))
              (decode_square_logs_within setup.parse setup.contracts chain from (last - from + 1)
                (last + 1) parses named (ground arith))
              (ground arith) s)
    ]

-- Rounds over a chain keep the database and the mirror in step, whatever the node refuses, whichever events
-- the journal refuses and whichever transactions do not commit: the journal is in order and behind the
-- cursor, the mirror is the journal replayed, the kernel's checkpoint is the cursor, and under every key the
-- balance of the database and the amount kept as persisted are the mirror's.
pub run-IsSynced :
    (setup : Setup) (chain : ℕ → List Log) (polls : List Poll) (held : Database × Indexer)
    → 1 ≤ setup.batch_blocks
    → HasKernel setup.contracts
    → IsParser setup.parse
    → IsChain chain
    → All (λ poll. IsHonest chain poll.ask) polls
    → IsSynced setup held.0 held.1
    → IsSynced setup (run setup held polls).0 (run setup held polls).1
unfolding run
run-IsSynced setup chain [] held wide has_kernel parses named honest s = s
run-IsSynced setup chain (poll ∷ polls) held wide has_kernel parses named (h, honest) s =
    run-IsSynced setup chain polls (run_round setup held poll) wide has_kernel parses named honest
      (round-IsSynced setup chain poll held wide has_kernel parses named h s)

-- What a restart holds against what the indexer held.
pub record IsRestored (i restarted : Indexer) : Type 0 where
  pub same_state : restarted.current ≡ i.current
  pub same_cursor : restarted.cursor ≡ i.cursor
  pub same_persisted :
      (key : Text) → amount_of key restarted.persisted_ledger ≡ amount_of key i.persisted_ledger

fresh : Database → Database × Indexer
fresh db = (
  db,
  record new_indexer {
    quarantined = load_quarantine db.quarantined_events new_indexer.quarantined;
  },
)

resumed_state :
    (setup : Setup) (db : Database) (i : Indexer)
    → IsSynced setup db i
    → (replay_events (sort precedes db.job_events) (fresh db)).1.current ≡ i.current
unfolding fresh
resumed_state setup db i s =
    replay_events_current (sort precedes db.job_events) (fresh db)
    ∙ ap (λ ls. replay ls empty_state) (sort_sorted precedes db.job_events s.ordered)
    ∙ s.journaled

resumed_persisted :
    (setup : Setup) (db : Database) (i : Indexer) (key : Text)
    → IsSynced setup db i
    → amount_of key (resume (db, new_indexer)).1.persisted_ledger ≡ amount_of key i.persisted_ledger
unfolding resume replay_journal fresh JsMap.get
resumed_persisted setup db i key s =
    let held = replay_events (sort precedes db.job_events) (fresh db) in
    amount_of-copy_into key held.1.current.ledger held.1.persisted_ledger
      (subst (λ state. IsKeyed state.ledger) (sym (resumed_state setup db i s)) s.keyed)
    ∙ ap (λ t. get_or (JsMap.get key held.1.current.ledger) (amount_of key t))
        (replay_events_persisted (sort precedes db.job_events) (fresh db))
    ∙ ap (λ state. amount_of key state.ledger) (resumed_state setup db i s)
    ∙ sym (s.persisted key)

resume-IsRestored :
    (setup : Setup) (db : Database) (i : Indexer)
    → IsSynced setup db i
    → IsRestored i (resume (db, new_indexer)).1
unfolding resume replay_journal fresh
resume-IsRestored setup db i s = record {
  same_state = resumed_state setup db i s;
  same_cursor =
      ap (λ t. Option.map (λ c. c.last_block) (JsMap.get kernel_contract t))
        (replay_events_checkpoints (sort precedes db.job_events) (fresh db))
      ∙ s.checkpointed;
  same_persisted = λ key. resumed_persisted setup db i key s;
}

-- A new process over the database of an indexer that is in step with it, under the same deployment, starts,
-- and holds what that indexer held: the mirror, the cursor, and under every key the amount kept as persisted.
pub start-IsRestored :
    (setup : Setup) (db : Database) (i : Indexer)
    → IsSynced setup db i
    → deployment_changes setup.contracts db.checkpoints ≡ []
    → (restarted : Database × Indexer) × (start setup (db, new_indexer) ≡ some restarted)
      × IsRestored i restarted.1
unfolding start
start-IsRestored setup db i s same =
    (resume (db, new_indexer), rw (same, start) refl, resume-IsRestored setup db i s)
