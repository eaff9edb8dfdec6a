-- ===== src/Indexer/Sync/Covered.antt =====
-- services/indexer/src/sync.ts: every balance that a batch changes is marked as dirty.
use square.Base.{
  ◌≡◌, refl, ap, sym, subst, ◌∙◌, inl, inr, false, Bool, List, [], ◌∷◌, ◌++◌, arith, Bool-cases,
  Option-cases, get_or, text_eq, any, Text,
}
use square.Base.JsMap
use square.Base.JsMap.{IsKeyed}
use square.Base.Int.{pos}
use square.Indexer.State.{Ledger, IndexerState, ReducerNotice, ok}
use square.Indexer.Apply.{apply_event}
use square.Indexer.Apply.After.{after, Reduced-cases}
use square.Indexer.Apply.Written.{Written, event-Written, Written-kept, Written-IsKeyed}
use square.Indexer.Rows.{Logged, insert_if_absent, same_place}
use square.Indexer.Draft.{
  Batch, batch_event, batch_events, reduce_into, apply_and_track, changed_keys,
}
use square.Indexer.Sync.Balances.{
  amount_of, has, IsDistinct, changed_keys_kept, changed_keys-IsDistinct, unchanged,
}

-- What an event does to the ledger and to its dirty keys.
data Marked (b next : Batch) : Type 0 where
  untouched :
      next.draft.ledger ≡ b.draft.ledger → next.dirty.ledger ≡ b.dirty.ledger → Marked b next
  marked :
      Written b.draft.ledger next.draft.ledger
      → next.dirty.ledger ≡ changed_keys b.draft.ledger next.draft.ledger b.dirty.ledger
      → Marked b next

Written-by :
    (s next : IndexerState) (l : Logged) (notices : List ReducerNotice)
    → apply_event s l.event ≡ ok (next, notices)
    → Written s.ledger next.ledger
unfolding after
Written-by s next l notices done =
    subst (λ r. Written s.ledger (after s r).ledger) done (event-Written s l.event)

reduced-Marked : (b : Batch) (l : Logged) → Marked b (reduce_into b l)
unfolding reduce_into apply_and_track
reduced-Marked b l = elim (Reduced-cases (apply_event b.draft l.event)) [
  | inl (x, threw) ↦ rw (threw, reduce_into, apply_and_track) (untouched refl refl)
  | inr (next, notices, done) ↦
      rw (done, reduce_into, apply_and_track) (marked (Written-by b.draft next l notices done) refl)
]

journaled-Marked :
    (b : Batch) (l : Logged) → Marked b (reduce_into (record b { journal = b.journal ++ l ∷ [] }) l)
journaled-Marked b l = elim (reduced-Marked (record b { journal = b.journal ++ l ∷ [] }) l) [
  | untouched same clean ↦ untouched same clean
  | marked moved dirty ↦ marked moved dirty
]

event-Marked :
    (refuses : Logged → Bool) (b : Batch) (l : Logged) → Marked b (batch_event refuses b l)
unfolding batch_event insert_if_absent
event-Marked refuses b l = elim (Bool-cases (refuses l)) [
  | inl thrown ↦ rw (thrown) (untouched refl refl)
  | inr kept ↦ elim (Bool-cases (any (λ k. same_place k l) b.journal)) [
    | inl known ↦ rw (kept, known) (untouched refl refl)
    | inr new ↦ rw (kept, new) (journaled-Marked b l)
  ]
]

-- A balance that is not marked is what it was, and no key is marked twice.
pub record IsCovered (before : Ledger) (b : Batch) : Type 0 where
  pub keyed : IsKeyed b.draft.ledger
  pub distinct : IsDistinct b.dirty.ledger
  pub clean :
      (key : Text)
      → has key b.dirty.ledger ≡ false
      → amount_of key b.draft.ledger ≡ amount_of key before

marked-clean :
    (before : Ledger) (b next : Batch) (key : Text)
    → IsCovered before b
    → Written b.draft.ledger next.draft.ledger
    → has key (changed_keys b.draft.ledger next.draft.ledger b.dirty.ledger) ≡ false
    → amount_of key next.draft.ledger ≡ amount_of key before
marked-clean before b next key covered moved absent =
    same_amount
    ∙ covered.clean key (elim (Bool-cases (has key b.dirty.ledger)) [
      | inr clean ↦ clean
      | inl dirty ↦ absurd (
          ground
            (arith, changed_keys_kept b.draft.ledger next.draft.ledger key b.dirty.ledger dirty))
    ])
  where
    same_amount : amount_of key next.draft.ledger ≡ amount_of key b.draft.ledger
    same_amount = elim (Option-cases (JsMap.get key next.draft.ledger)) [
      | inl gone ↦
          ap (λ o. get_or o (pos 0))
            (gone ∙ sym (Written-kept key b.draft.ledger next.draft.ledger moved gone))
      | inr (a, found) ↦
          ap (λ o. get_or o (pos 0))
            (found
              ∙ sym (unchanged b.draft.ledger next.draft.ledger key a b.dirty.ledger found absent))
    ]

event-IsCovered :
    (before : Ledger) (refuses : Logged → Bool) (b : Batch) (l : Logged)
    → IsCovered before b
    → IsCovered before (batch_event refuses b l)
event-IsCovered before refuses b l covered = elim (event-Marked refuses b l) [
  | untouched same clean ↦ record {
    keyed = subst IsKeyed (sym same) covered.keyed;
    distinct = subst IsDistinct (sym clean) covered.distinct;
    clean = λ key absent.
        ap (amount_of key) same ∙ covered.clean key (subst (λ d. has key d ≡ false) clean absent);
  }
  | marked moved dirty ↦ record {
    keyed = Written-IsKeyed b.draft.ledger _ moved covered.keyed;
    distinct =
        subst IsDistinct (sym dirty)
          (changed_keys-IsDistinct b.draft.ledger _ b.dirty.ledger covered.distinct);
    clean = λ key absent.
        marked-clean before b (batch_event refuses b l) key covered moved
          (subst (λ d. has key d ≡ false) dirty absent);
  }
]

pub batch_events-IsCovered :
    (before : Ledger) (refuses : Logged → Bool) (ls : List Logged) (b : Batch)
    → IsCovered before b
    → IsCovered before (batch_events refuses b ls)
unfolding batch_events
batch_events-IsCovered before refuses [] b covered = covered
batch_events-IsCovered before refuses (l ∷ ls) b covered =
    batch_events-IsCovered before refuses ls (batch_event refuses b l)
      (event-IsCovered before refuses b l covered)
