-- ===== src/Indexer/Sync/Journal.antt =====
-- services/indexer/src/sync.ts: the mirror is what the journal says.
use square.Base.{
  ◌≡◌, refl, ap, sym, subst, ◌∙◌, inl, inr, Bool, List, [], ◌∷◌, ◌++◌, arith, Bool-cases, All, any,
  All-append,
}
use square.Base.Sort.{IsSorted, drop_middle-IsSorted}
use square.Indexer.Decode.{precedes}
use square.Indexer.Rows.{Database}
use square.Indexer.Sync.{Indexer}
use square.Indexer.Start.{replay_event, replay_events}
use square.Indexer.State.{IndexerState}
use square.Indexer.Apply.{apply_event}
use square.Indexer.Apply.After.{after}
use square.Indexer.Rows.{Logged, same_place, insert_if_absent}
use square.Indexer.Draft.{Batch, batch_event, batch_events, reduce_into, apply_and_track}

-- The state after the events of a journal, the ones that throw passed over.
unfoldable pub replay : List Logged → IndexerState → IndexerState
replay [] s = s
replay (l ∷ ls) s = replay ls (after s (apply_event s l.event))

pub replay-append :
    (ls ks : List Logged) (s : IndexerState) → replay (ls ++ ks) s ≡ replay ks (replay ls s)
unfolding replay
replay-append [] ks s = refl
replay-append (l ∷ ls) ks s = replay-append ls ks (after s (apply_event s l.event))

reduce_into_draft :
    (b : Batch) (l : Logged) → (reduce_into b l).draft ≡ after b.draft (apply_event b.draft l.event)
unfolding reduce_into apply_and_track after
reduce_into_draft b l = ground arith

pub reduce_into_journal : (b : Batch) (l : Logged) → (reduce_into b l).journal ≡ b.journal
unfolding reduce_into
reduce_into_journal b l = ground arith

-- An event leaves the journal and the draft, or goes to the end of the one and into the other.
pub data Step (b : Batch) (l : Logged) (next : Batch) : Type 0 where
  passed : next.journal ≡ b.journal → next.draft ≡ b.draft → Step b l next
  taken :
      next.journal ≡ b.journal ++ l ∷ []
      → next.draft ≡ after b.draft (apply_event b.draft l.event)
      → Step b l next

pub batch_event-cases :
    (refuses : Logged → Bool) (b : Batch) (l : Logged) → Step b l (batch_event refuses b l)
unfolding batch_event insert_if_absent
batch_event-cases refuses b l = elim (Bool-cases (refuses l)) [
  | inl thrown ↦ rw (thrown) (passed refl refl)
  | inr kept ↦ elim (Bool-cases (any (λ k. same_place k l) b.journal)) [
    | inl known ↦ rw (kept, known) (passed refl refl)
    | inr new ↦ rw (kept, new) (taken (reduce_into_journal _ l) (reduce_into_draft _ l))
  ]
]

module _ (start : IndexerState) (refuses : Logged → Bool) where
  pub batch_events_draft :
      (ls : List Logged) (b : Batch)
      → replay b.journal start ≡ b.draft
      → replay (batch_events refuses b ls).journal start ≡ (batch_events refuses b ls).draft
  unfolding batch_events replay
  batch_events_draft [] b same = same
  batch_events_draft (l ∷ ls) b same =
      batch_events_draft ls (batch_event refuses b l) (elim (batch_event-cases refuses b l) [
        | passed journal draft ↦ ap (λ j. replay j start) journal ∙ same ∙ sym draft
        | taken journal draft ↦
            ap (λ j. replay j start) journal
            ∙ replay-append b.journal (l ∷ []) start
            ∙ ap (λ s. after s (apply_event s l.event)) same
            ∙ sym draft
      ])

  -- What holds of the journal and of the events holds of the journal after them.
  pub batch_events-All :
      (P : Logged → Type 0) (ls : List Logged) (b : Batch)
      → All P b.journal
      → All P ls
      → All P (batch_events refuses b ls).journal
  unfolding batch_events
  batch_events-All P [] b old new = old
  batch_events-All P (l ∷ ls) b old (p, new) =
      batch_events-All P ls (batch_event refuses b l)
        (elim (batch_event-cases refuses b l) [
          | passed journal draft ↦ subst (All P) (sym journal) old
          | taken journal draft ↦
              subst (All P) (sym journal) (All-append P b.journal (l ∷ []) old (p, tt))
        ])
        new

append_middle :
    {A : Type 0} (xs : List A) (y : A) (ys : List A) → (xs ++ y ∷ []) ++ ys ≡ xs ++ y ∷ ys
append_middle [] y ys = refl
append_middle (x ∷ xs) y ys = ap (λ t. x ∷ t) (append_middle xs y ys)

append_nil : {A : Type 0} (xs : List A) → xs ++ [] ≡ xs
append_nil [] = refl
append_nil (x ∷ xs) = ap (λ t. x ∷ t) (append_nil xs)

-- Events that come in order after the journal leave it in order.
pub batch_events-IsSorted :
    (refuses : Logged → Bool) (ls : List Logged) (b : Batch)
    → IsSorted precedes (b.journal ++ ls)
    → IsSorted precedes (batch_events refuses b ls).journal
unfolding batch_events
batch_events-IsSorted refuses [] b sorted = subst (IsSorted precedes) (append_nil b.journal) sorted
batch_events-IsSorted refuses (l ∷ ls) b sorted =
    batch_events-IsSorted refuses ls (batch_event refuses b l)
      (elim (batch_event-cases refuses b l) [
        | passed journal draft ↦
            subst (λ j. IsSorted precedes (j ++ ls)) (sym journal)
              (drop_middle-IsSorted precedes b.journal l ls sorted)
        | taken journal draft ↦
            subst (λ j. IsSorted precedes (j ++ ls)) (sym journal)
              (subst (IsSorted precedes) (sym (append_middle b.journal l ls)) sorted)
      ])

replay_event_current :
    (l : Logged) (db : Database) (i : Indexer)
    → (replay_event l (db, i)).1.current ≡ after i.current (apply_event i.current l.event)
unfolding replay_event after
replay_event_current l db i = ground arith

-- The replay of the journal at a start.
pub replay_events_current :
    (ls : List Logged) (held : Database × Indexer)
    → (replay_events ls held).1.current ≡ replay ls held.1.current
unfolding replay_events replay
replay_events_current [] held = refl
replay_events_current (l ∷ ls) (db, i) =
    replay_events_current ls (replay_event l (db, i)) ∙ ap (replay ls) (replay_event_current l db i)

-- A replay leaves the checkpoints and what is known to be persisted.
replay_event_rest :
    (l : Logged) (db : Database) (i : Indexer)
    → ((replay_event l (db, i)).0.checkpoints ≡ db.checkpoints)
      × ((replay_event l (db, i)).1.persisted_ledger ≡ i.persisted_ledger)
unfolding replay_event
replay_event_rest l db i = (ground arith, ground arith)

pub replay_events_checkpoints :
    (ls : List Logged) (held : Database × Indexer)
    → (replay_events ls held).0.checkpoints ≡ held.0.checkpoints
unfolding replay_events
replay_events_checkpoints [] held = refl
replay_events_checkpoints (l ∷ ls) (db, i) =
    replay_events_checkpoints ls (replay_event l (db, i)) ∙ (replay_event_rest l db i).0

pub replay_events_persisted :
    (ls : List Logged) (held : Database × Indexer)
    → (replay_events ls held).1.persisted_ledger ≡ held.1.persisted_ledger
unfolding replay_events
replay_events_persisted [] held = refl
replay_events_persisted (l ∷ ls) (db, i) =
    replay_events_persisted ls (replay_event l (db, i)) ∙ (replay_event_rest l db i).1
