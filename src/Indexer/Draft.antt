-- ===== src/Indexer/Draft.antt =====
-- services/indexer/src/sync.ts: what a batch of events does before it is written.
use square.Base.{
  ℕ, ◌+◌, Bool, false, not, Option, none, some, List, [], ◌∷◌, ◌++◌, Text, text_eq, nat_eq, nat_beq,
  text_beq, any, if◌then◌else◌,
}
use square.Base.JsMap
use square.Base.JsMap.{JsMap, keys}
use square.Base.Int.{ℤ, int_beq}
use square.Indexer.State.{IndexerState, Ledger, ReducerNotice, Result, ok, err}
use square.Indexer.Events.{EventBody, arbitration, arbiters_updated}
use square.Indexer.Apply.{apply_event}
use square.Indexer.Rows.{Logged, Cause, not_journaled, not_reduced, insert_if_absent}

pub record Dirty : Type 0 where
  pub jobs : List ℕ
  pub disputes : List ℕ
  pub listings : List ℕ
  pub arbiter_sets : List ℕ
  pub ledger : List Text

abbrev pub empty_dirty : Dirty
empty_dirty = record { jobs = []; disputes = []; listings = []; arbiter_sets = []; ledger = [] }

-- `Set.add`.
unfoldable pub add : ℕ → List ℕ → List ℕ
add n xs = if any (λ k. nat_beq k n) xs then xs else xs ++ n ∷ []

unfoldable pub add_text : Text → List Text → List Text
add_text t xs = if any (λ k. text_beq k t) xs then xs else xs ++ t ∷ []

-- `has` of the map, then `add`.
unfoldable pub add_present : {A : Type 0} → Option ℕ → JsMap ℕ A → List ℕ → List ℕ
add_present none table xs = xs
add_present (some id) table xs = elim (JsMap.get id table) [ none ↦ xs | some a ↦ add id xs ]

unfoldable pub add_version : EventBody → List ℕ → List ℕ
add_version (arbitration (arbiters_updated version arbiters threshold)) xs = add version xs
add_version _ xs = xs

unfoldable pub is_amount : Option ℤ → ℤ → Bool
is_amount none amount = false
is_amount (some before) amount = int_beq before amount

-- The keys of a ledger whose amounts are not those of an earlier one.
unfoldable pub changed_keys : Ledger → Ledger → List Text → List Text
changed_keys before [] xs = xs
changed_keys before ((key, amount) ∷ entries) xs =
    changed_keys before entries
      (if is_amount (JsMap.get key before) amount then xs else add_text key xs)

unfoldable pub apply_and_track :
    Logged → IndexerState → Dirty → Result (IndexerState × List ReducerNotice × Dirty)
apply_and_track l draft dirty = elim (apply_event draft l.event) [
  | err x ↦ err x
  | ok (next, notices) ↦ ok (
    next,
    notices,
    record {
      jobs = add_present l.job_id next.jobs dirty.jobs;
      disputes = add_present l.job_id next.disputes dirty.disputes;
      listings = add_present l.job_id next.listings dirty.listings;
      arbiter_sets = add_version l.event.body dirty.arbiter_sets;
      ledger = changed_keys draft.ledger next.ledger dirty.ledger;
    },
  )
]

-- What a batch has gathered.
pub record Batch : Type 0 where
  pub draft : IndexerState
  pub dirty : Dirty
  pub journal : List Logged
  pub applied : ℕ
  pub failures : List (Logged × Cause)
  pub notices : List ReducerNotice

abbrev pub new_batch : IndexerState → List Logged → Batch
new_batch current journal = record {
  draft = current;
  dirty = empty_dirty;
  journal = journal;
  applied = 0;
  failures = [];
  notices = [];
}

-- An event that was inserted into the journal: reduced, or a failure that leaves the draft.
unfoldable pub reduce_into : Batch → Logged → Batch
reduce_into b l = elim (apply_and_track l b.draft b.dirty) [
  | err x ↦ record b { failures = b.failures ++ (l, not_reduced x) ∷ [] }
  | ok (next, notices, dirty) ↦ record b {
    draft = next;
    dirty = dirty;
    applied = b.applied + 1;
    notices = b.notices ++ notices;
  }
]

-- One round of the loop. `refuses` says for which events the insertion into the journal throws, which
-- undoes it.
unfoldable pub batch_event : (Logged → Bool) → Batch → Logged → Batch
batch_event refuses b l =
    if refuses l
    then record b { failures = b.failures ++ (l, not_journaled) ∷ [] }
    else let (inserted, journal) = insert_if_absent l b.journal in
      if not inserted
      then record b { journal = journal }
      else reduce_into (record b { journal = journal }) l

unfoldable pub batch_events : (Logged → Bool) → Batch → List Logged → Batch
batch_events refuses b [] = b
batch_events refuses b (l ∷ ls) = batch_events refuses (batch_event refuses b l) ls
