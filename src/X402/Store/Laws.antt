-- ===== src/X402/Store/Laws.antt =====
-- A payment is accepted once, and is closed once (packages/x402/src/replay-store.ts).
use square.Base.{
  ℕ, ◌≡◌, refl, ◌≢◌, ◌⊎◌, inl, inr, true, false, Option, none, some, List, [], ◌∷◌, Text, text_eq,
  text_beq_iff, arith, Option-cases, Bool-cases, ◌==◌, ◌∙◌, ap,
}
use square.Base.JsMap
use square.Base.JsMap.{JsMap, get-set, get_self}
use square.X402.Store.{
  ReplayKey, ReplayEntry, ReplayRecord, accepted, MemoryReplayStore, replay_key_string,
  accepted_record, write, accepted_of, insert_accepted, mark_pending, mark_settled, mark_failed,
  mark_checked, has, is_accepted,
}

pub data Call : Type 0 where
  insert_call : ReplayEntry → ℕ → Call
  pending_call : ReplayKey → Text → Call
  settled_call : ReplayKey → Option Text → Option Text → Call
  failed_call : ReplayKey → Text → Option Text → Call
  checked_call : ReplayKey → Call

unfoldable pub perform : MemoryReplayStore → Call → MemoryReplayStore
perform s (insert_call e now) = (insert_accepted s e now).1
perform s (pending_call k tx) = (mark_pending s k tx).1
perform s (settled_call k tx reason) = (mark_settled s k tx reason).1
perform s (failed_call k reason tx) = (mark_failed s k reason tx).1
perform s (checked_call k) = (mark_checked s k).1

unfoldable pub perform_all : MemoryReplayStore → List Call → MemoryReplayStore
perform_all s [] = s
perform_all s (c ∷ cs) = perform_all (perform s c) cs

-- How the record under one id may change: it is written first as accepted, and is written again
-- only while it is accepted, with the same entry.
pub data Advances (before after : Option ReplayRecord) : Type 0 where
  stays : after ≡ before → Advances before after
  born :
      (e : ReplayEntry) (now : ℕ)
      → before ≡ none
      → after ≡ some (accepted_of e now)
      → Advances before after
  moves :
      (r u : ReplayRecord)
      → before ≡ some r
      → after ≡ some u
      → r.status ≡ accepted
      → u.entry ≡ r.entry
      → u.created_at ≡ r.created_at
      → Advances before after

abbrev pub at : MemoryReplayStore → Text → Option ReplayRecord
at s id = JsMap.get id s.records

-- A write by one of the marking calls.
write-Advances :
    (s : MemoryReplayStore) (k : ReplayKey) (r u : ReplayRecord) (id : Text)
    → at s (replay_key_string k) ≡ some r
    → r.status ≡ accepted
    → u.entry ≡ r.entry
    → u.created_at ≡ r.created_at
    → Advances (at s id) (at (write s k u) id)
write-Advances s k r u id found open_r same_entry same_time =
    elim (Bool-cases (replay_key_string k == id)) [
      | inl same ↦
          moves r u (ground (arith, text_beq_iff (replay_key_string k) id))
            (ground (arith, get-set (replay_key_string k) id u s.records)) open_r same_entry
            same_time
      | inr other ↦ stays (ground (arith, get-set (replay_key_string k) id u s.records))
    ]

pub accepted_record-cases :
    (s : MemoryReplayStore) (k : ReplayKey)
    → (accepted_record s k ≡ none)
      ⊎ ((r : ReplayRecord) × (accepted_record s k ≡ some r)
          × (at s (replay_key_string k) ≡ some r)
          × (r.status ≡ accepted))
unfolding accepted_record
accepted_record-cases s k = elim (Option-cases (at s (replay_key_string k))) [
  | inl missing ↦ inl (ground arith)
  | inr (r, found) ↦ elim (Bool-cases (is_accepted r.status)) [
    | inl open_r ↦ inr (r, ground arith, found, ground arith)
    | inr closed ↦ inl (ground arith)
  ]
]

insert-Advances :
    (s : MemoryReplayStore) (e : ReplayEntry) (now : ℕ) (id : Text)
    → Advances (at s id) (at (insert_accepted s e now).1 id)
unfolding insert_accepted
insert-Advances s e now id = elim (Option-cases (at s (replay_key_string e.key))) [
  | inr (r, found) ↦ stays (ground arith)
  | inl missing ↦ elim (Bool-cases (replay_key_string e.key == id)) [
    | inl same ↦
        born e now (ground (arith, text_beq_iff (replay_key_string e.key) id))
          (ground (arith, get-set (replay_key_string e.key) id (accepted_of e now) s.records))
    | inr other ↦
        stays (ground (arith, get-set (replay_key_string e.key) id (accepted_of e now) s.records))
  ]
]

-- Every call changes every record only in these ways: a record is created as accepted, and from
-- then on it is changed only while it is accepted, keeping its entry and its time of creation.
pub perform-Advances :
    (s : MemoryReplayStore) (c : Call) (id : Text)
    → Advances (JsMap.get id s.records) (JsMap.get id (perform s c).records)
unfolding perform mark_pending mark_settled mark_failed mark_checked
perform-Advances s (insert_call e now) id = insert-Advances s e now id
perform-Advances s (pending_call k tx) id = elim (accepted_record-cases s k) [
  | inl shut ↦ stays (ground arith)
  | inr (r, found, there, open_r) ↦
      rw (found, perform, mark_pending) (write-Advances s k r _ id there open_r refl refl)
]
perform-Advances s (settled_call k tx reason) id = elim (accepted_record-cases s k) [
  | inl shut ↦ stays (ground arith)
  | inr (r, found, there, open_r) ↦
      rw (found, perform, mark_settled) (write-Advances s k r _ id there open_r refl refl)
]
perform-Advances s (failed_call k reason tx) id = elim (accepted_record-cases s k) [
  | inl shut ↦ stays (ground arith)
  | inr (r, found, there, open_r) ↦
      rw (found, perform, mark_failed) (write-Advances s k r _ id there open_r refl refl)
]
perform-Advances s (checked_call k) id = stays (ground arith)

-- A payment that was settled or has failed stays exactly as it was recorded, whatever calls follow.
pub closed_forever :
    (cs : List Call) (s : MemoryReplayStore) (id : Text) (r : ReplayRecord)
    → JsMap.get id s.records ≡ some r
    → r.status ≢ accepted
    → JsMap.get id (perform_all s cs).records ≡ some r
unfolding perform_all
closed_forever [] s id r h closed = h
closed_forever (c ∷ cs) s id r h closed =
    closed_forever cs (perform s c) id r (kept (perform-Advances s c id)) closed
  where
    kept :
        Advances (JsMap.get id s.records) (JsMap.get id (perform s c).records)
        → JsMap.get id (perform s c).records ≡ some r
    kept (stays e) = e ∙ h
    kept (born e now n a) = cc (n, h)
    kept (moves q u b a open_q _ _) = absurd (closed (ground arith))

-- A record is never lost, and keeps its entry.
Advances-entry :
    {before after : Option ReplayRecord} (r : ReplayRecord)
    → Advances before after
    → before ≡ some r
    → (u : ReplayRecord) × (after ≡ some u) × (u.entry ≡ r.entry)
Advances-entry r (stays e) h = (r, e ∙ h, refl)
Advances-entry r (born e now n a) h = absurd (ground arith)
Advances-entry r (moves q u b a open_q same _) h = (u, a, ground arith)

perform_all-entry :
    (cs : List Call) (s : MemoryReplayStore) (id : Text) (r : ReplayRecord)
    → JsMap.get id s.records ≡ some r
    → (u : ReplayRecord) × (JsMap.get id (perform_all s cs).records ≡ some u) × (u.entry ≡ r.entry)
unfolding perform_all
perform_all-entry [] s id r h = (r, h, refl)
perform_all-entry (c ∷ cs) s id r h =
    let (u, there, same) = Advances-entry r (perform-Advances s c id) h in
    let (v, last, same') = perform_all-entry cs (perform s c) id u there in (v, last, same' ∙ same)

get-insert_accepted :
    (s : MemoryReplayStore) (e : ReplayEntry) (now : ℕ)
    → (r : ReplayRecord) × (JsMap.get (replay_key_string e.key) (insert_accepted s e now).1.records
        ≡ some r)
unfolding insert_accepted
get-insert_accepted s e now = elim (Option-cases (at s (replay_key_string e.key))) [
  | inr (r, found) ↦ (r, ground arith)
  | inl missing ↦ (
    accepted_of e now,
    ground (arith, get_self (replay_key_string e.key) (accepted_of e now) s.records),
  )
]

has_found :
    (t : MemoryReplayStore) (k : ReplayKey) (u : ReplayRecord)
    → at t (replay_key_string k) ≡ some u
    → has t k ≡ true
unfolding has
has_found t k u h = ground arith

insert_accepted_found :
    (t : MemoryReplayStore) (e : ReplayEntry) (now : ℕ) (u : ReplayRecord)
    → at t (replay_key_string e.key) ≡ some u
    → insert_accepted t e now ≡ (false, t)
unfolding insert_accepted
insert_accepted_found t e now u h = rw (h, insert_accepted)

-- Once a payment was inserted, no payment with the same key string is accepted again, whatever
-- calls came in between: the insertion answers false and changes nothing.
pub insert_replayed :
    (s : MemoryReplayStore) (e again : ReplayEntry) (now later : ℕ) (cs : List Call)
    → replay_key_string again.key ≡ replay_key_string e.key
    → let t = perform_all (insert_accepted s e now).1 cs in
      (has t again.key ≡ true) × (insert_accepted t again later ≡ (false, t))
insert_replayed s e again now later cs same =
    let (r, first) = get-insert_accepted s e now in
    let t = perform_all (insert_accepted s e now).1 cs in
    let (u, there, _) =
      perform_all-entry cs (insert_accepted s e now).1 (replay_key_string e.key) r first in
    let found : at t (replay_key_string again.key) ≡ some u = ap (λ k. at t k) same ∙ there in
    (has_found t again.key u found, insert_accepted_found t again later u found)
