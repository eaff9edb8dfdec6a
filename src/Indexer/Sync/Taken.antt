-- ===== src/Indexer/Sync/Taken.antt =====
-- services/indexer/src/sync.ts: the events of a batch come into the journal.
use mathlib.Core.Bool.{false≢true}
use square.Base.{
  ◌≡◌, ◌⊎◌, refl, sym, subst, inl, inr, true, Bool, any, List, [], ◌∷◌, ◌++◌, ◌||◌, arith,
  Bool-cases, All,
}
use square.Indexer.Rows.{Logged, same_place, insert_if_absent}
use square.Indexer.Draft.{Batch, batch_event, batch_events}
use square.Indexer.Sync.Journal.{batch_event-cases, passed, taken, reduce_into_journal}

abbrev pub IsJournaled : List Logged → Logged → Type 0
IsJournaled journal l = any (λ k. same_place k l) journal ≡ true

-- Events that are in the journal stay, and those of a batch come in unless they are refused.
any-append :
    (test : Logged → Bool) (xs ys : List Logged) → any test xs ≡ true → any test (xs ++ ys) ≡ true
any-append test [] ys h = absurd (false≢true h)
any-append test (x ∷ xs) ys h = elim (Bool-cases (test x)) [
  | inl here ↦ rw here refl
  | inr later ↦ rw later (any-append test xs ys (subst (λ t. (t || any test xs) ≡ true) later h))
]

any_last :
    (test : Logged → Bool) (xs : List Logged) (x : Logged)
    → test x ≡ true
    → any test (xs ++ x ∷ []) ≡ true
any_last test [] x h = rw h refl
any_last test (y ∷ xs) x h = elim (Bool-cases (test y)) [
  | inl here ↦ rw here refl
  | inr later ↦ rw later (any_last test xs x h)
]

same_place_refl : (l : Logged) → same_place l l ≡ true
unfolding same_place
same_place_refl l = ground arith

batch_event_kept :
    (refuses : Logged → Bool) (b : Batch) (k l : Logged)
    → IsJournaled b.journal l
    → IsJournaled (batch_event refuses b k).journal l
batch_event_kept refuses b k l h = elim (batch_event-cases refuses b k) [
  | passed journal draft ↦ subst (λ j. IsJournaled j l) (sym journal) h
  | taken journal draft ↦
      subst (λ j. IsJournaled j l) (sym journal)
        (any-append (λ q. same_place q l) b.journal (k ∷ []) h)
]

pub batch_events_kept :
    (refuses : Logged → Bool) (ls : List Logged) (b : Batch) (l : Logged)
    → IsJournaled b.journal l
    → IsJournaled (batch_events refuses b ls).journal l
unfolding batch_events
batch_events_kept refuses [] b l h = h
batch_events_kept refuses (k ∷ ls) b l h =
    batch_events_kept refuses ls (batch_event refuses b k) l (batch_event_kept refuses b k l h)

batch_event_taken :
    (refuses : Logged → Bool) (b : Batch) (l : Logged)
    → IsJournaled (batch_event refuses b l).journal l ⊎ (refuses l ≡ true)
unfolding batch_event insert_if_absent
batch_event_taken refuses b l = elim (Bool-cases (refuses l)) [
  | inl thrown ↦ inr thrown
  | inr kept ↦ elim (Bool-cases (any (λ k. same_place k l) b.journal)) [
    | inl known ↦ rw (kept, known) (inl known)
    | inr new ↦
        rw (kept, new)
          (inl (
            subst (λ j. IsJournaled j l) (sym (reduce_into_journal _ l))
              (any_last (λ k. same_place k l) b.journal l (same_place_refl l))))
  ]
]

pub batch_events_taken :
    (refuses refused : Logged → Bool) (ls : List Logged) (b : Batch)
    → ((l : Logged) → refuses l ≡ true → refused l ≡ true)
    → All (λ l. IsJournaled (batch_events refuses b ls).journal l ⊎ (refused l ≡ true)) ls
unfolding batch_events
batch_events_taken refuses refused [] b keeps = tt
batch_events_taken refuses refused (l ∷ ls) b keeps = (
  elim (batch_event_taken refuses b l) [
    | inl here ↦ inl (batch_events_kept refuses ls (batch_event refuses b l) l here)
    | inr thrown ↦ inr (keeps l thrown)
  ],
  batch_events_taken refuses refused ls (batch_event refuses b l) keeps,
)
