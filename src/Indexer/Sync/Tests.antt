-- ===== src/Indexer/Sync/Tests.antt =====
-- Rounds of the indexer (services/indexer/src/sync.ts) over a chain of nine blocks, and a restart.
use square.Base.{
  ℕ, ◌+◌, ◌-◌, ◌≤◌, ◌≡◌, ◌≢◌, refl, inl, inr, true, false, Bool, none, some, List, [], ◌∷◌, map,
  codes, Text, arith, ltb, nat_beq, if◌then◌else◌, get_or, Exists, Bool-cases, to_lower_case,
  text_beq, text_eq,
}
use square.Base.JsMap
use square.Base.Int.{pos, ◌+ℤ◌, ◌-ℤ◌}
use square.Indexer.State.{Address}
use square.Indexer.Persist.{persist, set_checkpoints, persist_entry, persist_ledger}
use square.Indexer.Reducer.{ledger_key, quiet, credit, apply_kernel}
use square.Indexer.Apply.{apply_event, apply_body}
use square.Indexer.Draft.{
  batch_events, batch_event, reduce_into, apply_and_track, add_present, add_text, add_version,
  changed_keys, is_amount,
}
use square.Indexer.Events.{kernel, payment_released}
use square.Indexer.Rows.{Logged, block_of, Database, empty_database, insert_if_absent, adjust}
use square.Indexer.Decode.{Log}
use square.Indexer.Sync.{
  run_round, sync_once, sync_range, both, apply_batch, Indexer, new_indexer, Setup, Answer,
  too_large, logs, logs_in_range, Poll, run,
}
use square.Indexer.Start.{has_moved, kernel_contract, deployment_changes, start}
use square.Indexer.Sync.Range.{blocks_logs, IsHonest, logs_in_range_lem}
use square.Indexer.Sync.Progress.{IsWorking, IsReached, run-reaches}
use square.Indexer.Sync.Fetched.{IsParser, IsChain, All-imp}
use square.Indexer.Sync.Synced.{IsSynced, new-IsSynced}
use square.Indexer.Sync.Restart.{run-IsSynced, IsRestored, start-IsRestored}

abbrev kernel_address : Address
kernel_address = codes "0xA"

-- One log in each block.
abbrev one_each : ℕ → List Log
one_each block =
    record { address = kernel_address; block_number = some block; log_index = some 0; payload = [] }
    ∷ []

abbrev release : Log → Logged
release l = record {
  event = record {
    body = kernel (payment_released (codes "0xD") 490);
    block_number = l.block_number;
  };
  log_index = l.log_index;
  tx_hash = none;
  contract = kernel_contract;
  event_name = codes "PaymentReleased";
  job_id = none;
}

parse_releases : Text → List Log → List Logged
parse_releases contract ls = map release ls

abbrev setup : Setup
setup = record {
  contracts = (kernel_contract, kernel_address) ∷ [];
  parse = parse_releases;
  start_block = 3;
  batch_blocks = 4;
  restarts_on_change = false;
}

-- A node that refuses more than two blocks at once.
abbrev two_at_once : ℕ → ℕ → Answer
two_at_once from to =
    if ltb (from + 1) to then too_large else logs (blocks_logs one_each from (to - from + 1))

two_at_once-IsHonest : IsHonest one_each two_at_once
two_at_once-IsHonest from to h = elim (Bool-cases (ltb (from + 1) to)) [
  | inl wide ↦ inl (rw (wide) refl)
  | inr narrow ↦ inr (rw (narrow) refl)
]

two_at_once_single : (block : ℕ) → two_at_once block block ≢ too_large
two_at_once_single block = λ refused. ground arith

logs_in_range_lem_example : logs_in_range two_at_once 6 3 8 ≡ logs (blocks_logs one_each 3 6)
logs_in_range_lem_example =
    logs_in_range_lem one_each two_at_once 6 3 8 two_at_once-IsHonest two_at_once_single
      (omega arith) (omega arith)

releases-IsParser : IsParser parse_releases
unfolding parse_releases
releases-IsParser contract [] = tt
releases-IsParser contract (l ∷ ls) = (
  inl refl,
  All-imp (λ e. Exists (λ k. block_of e ≡ get_or k.block_number 0) ls)
      (λ e. Exists (λ k. block_of e ≡ get_or k.block_number 0) (l ∷ ls)) (λ e found. inr found)
      (map release ls) (releases-IsParser contract ls),
)

one_each-IsChain : IsChain one_each
one_each-IsChain block = (refl, tt)

abbrev poll : ℕ → Poll
poll head = record {
  head = head;
  ask = two_at_once;
  refuses = λ l. nat_beq (block_of l) 5;
  commits = true;
}

abbrev polls : List Poll
polls = poll 8 ∷ poll 8 ∷ poll 9 ∷ []

abbrev block_five : Logged → Bool
block_five l = nat_beq (block_of l) 5

poll-IsWorking : (head : ℕ) → 4 ≤ head → IsWorking one_each block_five 4 (poll head)
poll-IsWorking head h = (two_at_once-IsHonest, two_at_once_single, (λ l thrown. thrown), refl, h)

run-reaches_example :
    IsReached setup one_each block_five 4 3 (run setup (empty_database, new_indexer) polls)
run-reaches_example =
    run-reaches setup one_each block_five 4 polls (empty_database, new_indexer) 3 (omega arith) refl
      (
        poll-IsWorking 8 (omega arith),
        (poll-IsWorking 8 (omega arith), (poll-IsWorking 9 (omega arith), tt)),
      )
      (omega arith)

abbrev held : Database × Indexer
held = run setup (empty_database, new_indexer) polls

run-IsSynced_example : IsSynced setup held.0 held.1
run-IsSynced_example =
    run-IsSynced setup one_each polls (empty_database, new_indexer) (omega arith) (inl refl)
      releases-IsParser one_each-IsChain
      (two_at_once-IsHonest, (two_at_once-IsHonest, (two_at_once-IsHonest, tt)))
      (new-IsSynced setup)

same_deployment : deployment_changes setup.contracts held.0.checkpoints ≡ []
unfolding run run_round sync_once sync_range logs_in_range both apply_batch persist set_checkpoints
    deployment_changes has_moved JsMap.get JsMap.set text_beq to_lower_case
same_deployment = refl

start-IsRestored_example :
    (restarted : Database × Indexer) × (start setup (held.0, new_indexer) ≡ some restarted)
    × IsRestored held.1 restarted.1
start-IsRestored_example = start-IsRestored setup held.0 held.1 run-IsSynced_example same_deployment

abbrev log_of : ℕ → Log
log_of block = record {
  address = kernel_address;
  block_number = some block;
  log_index = some 0;
  payload = [];
}

abbrev one_batch : Database × Indexer
one_batch =
    apply_batch setup (λ l. nat_beq (block_of l) 4) (release (log_of 3) ∷ release (log_of 4) ∷ []) 6
      (empty_database, new_indexer)

-- The release that the journal refuses is not in the balance.
one_batch_balance : one_batch.0.ledger_balances ≡ (codes "SquareJob:0xd", pos 490) ∷ []
unfolding apply_batch persist JsMap.get JsMap.set text_beq to_lower_case batch_events batch_event
    insert_if_absent reduce_into apply_and_track apply_event apply_body apply_kernel quiet credit
    ledger_key ◌+ℤ◌ ◌-ℤ◌ add_present add_text add_version changed_keys is_amount persist_entry
    persist_ledger adjust
one_batch_balance = refl
