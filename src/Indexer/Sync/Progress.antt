-- ===== src/Indexer/Sync/Progress.antt =====
-- services/indexer/src/sync.ts: the rounds of `run` reach the head of the chain.
use square.Base.{
  ℕ, ◌+◌, ◌-◌, ◌≤◌, ◌<◌, ◌≡◌, ◌≢◌, ◌⊎◌, refl, sym, subst, inl, inr, true, false, Bool, Option, none,
  some, List, [], ◌∷◌, arith, ltb, Bool-cases, length, All,
}
use square.Indexer.Rows.{Database, Logged}
use square.Indexer.Draft.{new_batch}
use square.Indexer.Sync.Taken.{IsJournaled, batch_events_kept, batch_events_taken}
use square.Indexer.Decode.{Log, decode_square_logs}
use square.Indexer.Sync.{
  Indexer, Setup, too_large, Poll, sync_range, sync_once, run_round, run, apply_batch, next_block,
  last_block_of, move_cursor,
}
use square.Indexer.Sync.Range.{blocks_logs, IsHonest, logs_in_range_lem}

-- A round that nothing fails but the insertion of events that are refused, with a block of the chain at or
-- behind its head.
abbrev pub IsWorking : (ℕ → List Log) → (Logged → Bool) → ℕ → Poll → Type 0
IsWorking chain refused target poll =
    IsHonest chain poll.ask
    × ((block : ℕ) → poll.ask block block ≢ too_large)
    × ((l : Logged) → poll.refuses l ≡ true → refused l ≡ true)
    × (poll.commits ≡ true)
    × (target ≤ poll.head)

-- A block follows those that have been indexed up to a cursor.
abbrev pub IsNext : ℕ → Option ℕ → ℕ → Type 0
IsNext start none from = from ≡ start
IsNext start (some block) from = from ≡ block + 1

-- The blocks from one to before another have been fetched, run by run, and every event that is decoded from
-- their logs is in the journal, unless it is refused.
pub data IsIndexed (setup : Setup) (chain : ℕ → List Log) (refused : Logged → Bool)
    (journal : List Logged) : ℕ → ℕ → Type 0 where
  nothing : (from : ℕ) → IsIndexed setup chain refused journal from from
  blocks :
      (from count end : ℕ)
      → All
          (λ l. IsJournaled journal l ⊎ (refused l ≡ true))
          (decode_square_logs setup.parse setup.contracts (blocks_logs chain from count))
      → IsIndexed setup chain refused journal (from + count) end
      → IsIndexed setup chain refused journal from end

-- What a working round does.
pub working_round :
    (setup : Setup) (chain : ℕ → List Log) (refused : Logged → Bool) (target : ℕ) (poll : Poll)
    (db : Database) (i : Indexer)
    → 1 ≤ setup.batch_blocks
    → IsWorking chain refused target poll
    → ltb poll.head (next_block setup i) ≡ false
    → run_round setup (db, i) poll
      ≡ move_cursor (last_block_of setup (next_block setup i) poll.head) (
          apply_batch setup poll.refuses
            (decode_square_logs setup.parse setup.contracts (
              blocks_logs chain
                (next_block setup i)
                (last_block_of setup (next_block setup i) poll.head - next_block setup i + 1)))
            (last_block_of setup (next_block setup i) poll.head)
            (db, i))
unfolding run_round sync_once sync_range
working_round setup chain refused target poll db i wide (honest, single, keeps, commits, near)
      ahead =
    let from = next_block setup i in
    let last = last_block_of setup from poll.head in
    rw
      (
        ahead,
        logs_in_range_lem chain poll.ask (last - from + 1) from last honest single (ground arith)
            (omega arith),
        commits,
        run_round,
        sync_once,
        sync_range,
      )
      refl

idle_round :
    (setup : Setup) (poll : Poll) (db : Database) (i : Indexer)
    → ltb poll.head (next_block setup i) ≡ true
    → run_round setup (db, i) poll ≡ (db, i)
unfolding run_round sync_once
idle_round setup poll db i done = rw (done, run_round, sync_once) refl

cursor_next :
    (start : ℕ) (cursor : Option ℕ) (from : ℕ)
    → IsNext start cursor from
    → elim cursor as (λ c. ℕ) [ none ↦ start | some block ↦ block + 1 ] ≡ from
cursor_next start none from h = sym h
cursor_next start (some block) from h = sym h

next_block_is :
    (setup : Setup) (i : Indexer) (from : ℕ)
    → IsNext setup.start_block i.cursor from
    → next_block setup i ≡ from
next_block_is setup i from h = cursor_next setup.start_block i.cursor from h

-- The events that a working round finds.
abbrev found_in : Setup → (ℕ → List Log) → ℕ → ℕ → List Logged
found_in setup chain from last =
    decode_square_logs setup.parse setup.contracts (blocks_logs chain from (last - from + 1))

-- What a run has reached: the block that comes next, past the target, with the blocks before it indexed.
abbrev pub IsReached :
    Setup → (ℕ → List Log) → (Logged → Bool) → ℕ → ℕ → Database × Indexer → Type 0
IsReached setup chain refused target from held =
    (end : ℕ) × IsNext setup.start_block held.1.cursor end
    × (target < end)
    × IsIndexed setup chain refused held.0.job_events from end

module _ (setup : Setup) (chain : ℕ → List Log) (refused : Logged → Bool) (target : ℕ)
    (wide : 1 ≤ setup.batch_blocks) where
  round_kept :
      (poll : Poll) (held : Database × Indexer) (l : Logged)
      → IsWorking chain refused target poll
      → IsJournaled held.0.job_events l
      → IsJournaled (run_round setup held poll).0.job_events l
  unfolding apply_batch
  round_kept poll (db, i) l works h = elim (Bool-cases (ltb poll.head (next_block setup i))) [
    | inl done ↦ rw (idle_round setup poll db i done) h
    | inr ahead ↦ rw (working_round setup chain refused target poll db i wide works ahead) (
        batch_events_kept poll.refuses
          (found_in setup chain (next_block setup i)
            (last_block_of setup (next_block setup i) poll.head))
          (new_batch i.current db.job_events) l h)
  ]

  run_kept :
      (polls : List Poll) (held : Database × Indexer) (l : Logged)
      → All (IsWorking chain refused target) polls
      → IsJournaled held.0.job_events l
      → IsJournaled (run setup held polls).0.job_events l
  unfolding run
  run_kept [] held l works h = h
  run_kept (poll ∷ polls) held l (work, works) h =
      run_kept polls (run_round setup held poll) l works (round_kept poll held l work h)

  kept-All :
      (polls : List Poll) (held : Database × Indexer) (ls : List Logged)
      → All (IsWorking chain refused target) polls
      → All (λ l. IsJournaled held.0.job_events l ⊎ (refused l ≡ true)) ls
      → All (λ l. IsJournaled (run setup held polls).0.job_events l ⊎ (refused l ≡ true)) ls
  kept-All polls held [] works h = tt
  kept-All polls held (l ∷ ls) works (h, hs) = (
    elim h [ inl here ↦ inl (run_kept polls held l works here) | inr lost ↦ inr lost ],
    kept-All polls held ls works hs,
  )

  -- A working round that is not idle: the next block, and the events that are now in the journal.
  round_indexed :
      (poll : Poll) (db : Database) (i : Indexer)
      → IsWorking chain refused target poll
      → ltb poll.head (next_block setup i) ≡ false
      → let last = last_block_of setup (next_block setup i) poll.head in
        let next = run_round setup (db, i) poll in
        (next.1.cursor ≡ some last)
        × All
            (λ l. IsJournaled next.0.job_events l ⊎ (refused l ≡ true))
            (found_in setup chain (next_block setup i) last)
  unfolding apply_batch
  round_indexed poll db i works ahead =
      rw (working_round setup chain refused target poll db i wide works ahead) (
        refl,
        batch_events_taken poll.refuses refused
            (found_in setup chain (next_block setup i)
              (last_block_of setup (next_block setup i) poll.head))
            (new_batch i.current db.job_events) works.2,
      )

  step-IsReached :
      (poll : Poll) (polls : List Poll) (db : Database) (i : Indexer) (last : ℕ)
      → last ≡ last_block_of setup (next_block setup i) poll.head
      → next_block setup i ≤ last
      → IsWorking chain refused target poll
      → All (IsWorking chain refused target) polls
      → ltb poll.head (next_block setup i) ≡ false
      → IsReached setup chain refused target
          (last + 1)
          (run setup (run_round setup (db, i) poll) polls)
      → IsReached setup chain refused target
          (next_block setup i)
          (run setup (run_round setup (db, i) poll) polls)
  step-IsReached poll polls db i last is after work works ahead (end, comes, past, indexed) =
      let from : ℕ = next_block setup i in
      let final : List Logged = (run setup (run_round setup (db, i) poll) polls).0.job_events in
      (
        end,
        comes,
        past,
        blocks from (last - from + 1) end
            (kept-All polls (run_round setup (db, i) poll) (found_in setup chain from last) works (
              subst
                (λ n.
                  All
                    (λ l.
                      IsJournaled (run_round setup (db, i) poll).0.job_events l
                      ⊎ (refused l ≡ true))
                    (found_in setup chain from n))
                (sym is) (round_indexed poll db i work ahead).1))
            (subst (λ n. IsIndexed setup chain refused final n end) (omega (arith, after)) indexed),
      )

  run-IsReached :
      (polls : List Poll) (held : Database × Indexer) (from : ℕ)
      → IsNext setup.start_block held.1.cursor from
      → All (IsWorking chain refused target) polls
      → target < from + length polls
      → IsReached setup chain refused target from (run setup held polls)
  unfolding run
  run-IsReached [] held from next works near = (from, next, omega (arith, near), nothing from)
  run-IsReached (poll ∷ polls) (db, i) from next (work, works) near =
      let same : next_block setup i ≡ from = next_block_is setup i from next in
      elim (Bool-cases (ltb poll.head (next_block setup i))) [
        | inl done ↦
            subst (λ held. IsReached setup chain refused target from (run setup held polls))
              (sym (idle_round setup poll db i done))
              (run-IsReached polls (db, i) from next works (ground (arith, same, work.4)))
        | inr ahead ↦
            let last : ℕ = last_block_of setup (next_block setup i) poll.head in
            subst
              (λ n.
                IsReached setup chain refused target n
                  (run setup (run_round setup (db, i) poll) polls))
              same
              (step-IsReached poll polls db i last refl (ground arith) work works ahead (
                run-IsReached polls (run_round setup (db, i) poll) (last + 1)
                  (subst (λ c. IsNext setup.start_block c (last + 1))
                    (sym (round_indexed poll db i work ahead).0) refl)
                  works (ground (arith, same))))
      ]

-- However far a block of the chain is, with batches of at least one block, once as many rounds have run as
-- there are blocks up to it from the next one on, with nothing failing but the insertion of refused
-- events and the head never behind the block, the cursor is past it; from the next block on up to the
-- cursor the logs of all blocks have been decoded, run by run, and the place of every event that came out
-- of them is in the journal, unless the event is refused.
pub run-reaches :
    (setup : Setup) (chain : ℕ → List Log) (refused : Logged → Bool) (target : ℕ)
    (polls : List Poll) (held : Database × Indexer) (from : ℕ)
    → 1 ≤ setup.batch_blocks
    → IsNext setup.start_block held.1.cursor from
    → All (IsWorking chain refused target) polls
    → target < from + length polls
    → IsReached setup chain refused target from (run setup held polls)
run-reaches setup chain refused target polls held from wide next works near =
    run-IsReached setup chain refused target wide polls held from next works near
