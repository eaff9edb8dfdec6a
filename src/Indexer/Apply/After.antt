-- ===== src/Indexer/Apply/After.antt =====
-- The state after an event, for the laws of services/indexer/src/reducer.ts.
use square.Base.{refl, inl, inr, arith, List, ◌∷◌, ◌⊎◌, ℕ, ◌≡◌, Option, none, some, nat_eq}
use square.Indexer.State.{
  JobState, DisputeState, ListingState, IndexerState, ReducerError, ReducerNotice, ok, err,
}
use square.Indexer.Events.{SquareEvent}
use square.Indexer.Reducer.{Reduced, on_job, on_dispute, close_dispute, quiet}
use square.Indexer.Apply.{on_listing, apply_event, reduce}

-- An event that throws leaves the state.
unfoldable pub after : IndexerState → Reduced → IndexerState
after s (ok r) = r.0
after s (err e) = s

unfoldable pub threw : Reduced → Option ReducerError
threw (ok r) = none
threw (err e) = some e

pub on_job-ledger :
    (s : IndexerState) (id block : ℕ) (f : JobState → JobState)
    → (after s (on_job s id block f)).ledger ≡ s.ledger
unfolding after on_job
on_job-ledger s id block f = ground arith

pub on_job_kept :
    (s t : IndexerState) (id block : ℕ) (f : JobState → JobState)
    → t.ledger ≡ s.ledger
    → (after s (on_job t id block f)).ledger ≡ s.ledger
unfolding after on_job
on_job_kept s t id block f same = ground arith

pub on_dispute-ledger :
    (s : IndexerState) (id block : ℕ) (f : DisputeState → DisputeState)
    → (after s (on_dispute s id block f)).ledger ≡ s.ledger
unfolding after on_dispute
on_dispute-ledger s id block f = ground arith

pub on_listing-ledger :
    (s : IndexerState) (id : ℕ) (e : ReducerError) (f : ListingState → ListingState)
    → (after s (on_listing s id e f)).ledger ≡ s.ledger
unfolding after on_listing quiet
on_listing-ledger s id e f = ground arith

pub close_dispute-ledger :
    (s : IndexerState) (id block : ℕ) → (close_dispute s id block).ledger ≡ s.ledger
unfolding close_dispute
close_dispute-ledger s id block = ground arith

pub on_dispute-jobs :
    (s : IndexerState) (id block : ℕ) (f : DisputeState → DisputeState)
    → (after s (on_dispute s id block f)).jobs ≡ s.jobs
unfolding after on_dispute
on_dispute-jobs s id block f = ground arith

pub on_listing-jobs :
    (s : IndexerState) (id : ℕ) (e : ReducerError) (f : ListingState → ListingState)
    → (after s (on_listing s id e f)).jobs ≡ s.jobs
unfolding after on_listing quiet
on_listing-jobs s id e f = ground arith

pub close_dispute-jobs :
    (s : IndexerState) (id block : ℕ) → (close_dispute s id block).jobs ≡ s.jobs
unfolding close_dispute
close_dispute-jobs s id block = ground arith

-- What the first event of a run decides.
pub data First (e : SquareEvent) (es : List SquareEvent) (s : IndexerState) : Type 0 where
  stopped :
      (x : ReducerError)
      → apply_event s e ≡ err x
      → (reduce (e ∷ es) s).state ≡ s
      → (reduce (e ∷ es) s).thrown ≡ some x
      → First e es s
  went :
      (next : IndexerState)
      → after s (apply_event s e) ≡ next
      → threw (apply_event s e) ≡ none
      → (reduce (e ∷ es) s).state ≡ (reduce es next).state
      → (reduce (e ∷ es) s).thrown ≡ (reduce es next).thrown
      → First e es s

pub Reduced-cases :
    (r : Reduced)
    → ((x : ReducerError) × (r ≡ err x))
      ⊎ ((next : IndexerState) × (ns : List ReducerNotice) × (r ≡ ok (next, ns)))
Reduced-cases (err x) = inl (x, refl)
Reduced-cases (ok (next, ns)) = inr (next, ns, refl)

pub First-cases : (e : SquareEvent) (es : List SquareEvent) (s : IndexerState) → First e es s
unfolding reduce after threw
First-cases e es s = elim (Reduced-cases (apply_event s e)) [
  | inl (x, eq) ↦ stopped x eq (ground arith) (ground arith)
  | inr (next, ns, eq) ↦ went next (ground arith) (ground arith) (ground arith) (ground arith)
]
