-- ===== src/X402/Store.antt =====
-- packages/x402/src/replay-store.ts: the replay store in memory.
pub mod Laws
pub mod Unsettled
use square.Base.{
  ℕ, ◌+◌, Bool, true, false, Option, none, some, List, [], ◌∷◌, ◌++◌, map, Text, text_eq,
  to_lower_case, decimal, get_or, take, leb, if◌then◌else◌, length,
}
use square.Base.JsMap
use square.Base.JsMap.{JsMap}

pub data ReplayStatus : Type 0 where
  accepted settled failed : ReplayStatus

pub record ReplayKey : Type 0 where
  pub chain_id : ℕ
  pub asset : Text
  pub payer : Text
  pub nonce : Text

pub record ReplayEntry : Type 0 where
  pub key : ReplayKey
  pub amount : ℕ
  pub pay_to : Text
  pub resource : Text
  pub valid_before : ℕ

pub record ReplayRecord : Type 0 where
  pub entry : ReplayEntry
  pub status : ReplayStatus
  pub tx_hash : Option Text
  pub reason : Option Text
  pub created_at : ℕ

pub record UnsettledPayment : Type 0 where
  pub key : ReplayKey
  pub tx_hash : Option Text
  pub valid_before : ℕ

unfoldable pub replay_key_string : ReplayKey → Text
replay_key_string k =
    decimal k.chain_id
    ++ (b':'
        ∷ (to_lower_case k.asset
            ++ (b':' ∷ (to_lower_case k.payer ++ (b':' ∷ to_lower_case k.nonce)))))

pub record MemoryReplayStore : Type 0 where
  pub records : JsMap Text ReplayRecord
  pub checked_at : JsMap Text ℕ
  pub checks : ℕ

abbrev pub memory_replay_store : MemoryReplayStore
memory_replay_store = record { records = []; checked_at = []; checks = 0 }

abbrev pub is_accepted : ReplayStatus → Bool
is_accepted accepted = true
is_accepted _ = false

-- The closure's `accepted(key)`.
unfoldable pub accepted_record : MemoryReplayStore → ReplayKey → Option ReplayRecord
accepted_record s k = elim (JsMap.get (replay_key_string k) s.records) [
  | none ↦ none
  | some r ↦ if is_accepted r.status then some r else none
]

-- A write to a record that the map holds.
abbrev pub write : MemoryReplayStore → ReplayKey → ReplayRecord → MemoryReplayStore
write s k r = record s { records = JsMap.set (replay_key_string k) r s.records }

abbrev pub accepted_of : ReplayEntry → ℕ → ReplayRecord
accepted_of e now = record {
  entry = e;
  status = accepted;
  tx_hash = none;
  reason = none;
  created_at = now;
}

unfoldable pub insert_accepted : MemoryReplayStore → ReplayEntry → ℕ → Bool × MemoryReplayStore
insert_accepted s e now = elim (JsMap.get (replay_key_string e.key) s.records) [
  | some r ↦ (false, s)
  | none ↦ (true, write s e.key (accepted_of e now))
]

-- A later value where one is given, else what is there.
abbrev pub or_keep : Option Text → Option Text → Option Text
or_keep none old = old
or_keep (some new) old = some new

unfoldable pub mark_pending : MemoryReplayStore → ReplayKey → Text → Bool × MemoryReplayStore
mark_pending s k tx = elim (accepted_record s k) [
  | none ↦ (false, s)
  | some r ↦ (true, write s k (record r { tx_hash = some tx }))
]

unfoldable pub mark_settled :
    MemoryReplayStore → ReplayKey → Option Text → Option Text → Bool × MemoryReplayStore
mark_settled s k tx reason = elim (accepted_record s k) [
  | none ↦ (false, s)
  | some r ↦ (
    true,
    write s k (record r {
      status = settled;
      tx_hash = or_keep tx r.tx_hash;
      reason = or_keep reason r.reason;
    }),
  )
]

unfoldable pub mark_failed :
    MemoryReplayStore → ReplayKey → Text → Option Text → Bool × MemoryReplayStore
mark_failed s k reason tx = elim (accepted_record s k) [
  | none ↦ (false, s)
  | some r ↦ (
    true,
    write s k (record r { status = failed; tx_hash = or_keep tx r.tx_hash; reason = some reason }),
  )
]

unfoldable pub mark_checked : MemoryReplayStore → ReplayKey → Bool × MemoryReplayStore
mark_checked s k = elim (accepted_record s k) [
  | none ↦ (false, s)
  | some r ↦ (
    true,
    record s {
      checked_at = JsMap.set (replay_key_string k) (s.checks + 1) s.checked_at;
      checks = s.checks + 1;
    },
  )
]

unfoldable pub has : MemoryReplayStore → ReplayKey → Bool
has s k = elim (JsMap.get (replay_key_string k) s.records) [ none ↦ false | some r ↦ true ]

-- The loop that collects the open records, with their ids.
pub open_records : JsMap Text ReplayRecord → JsMap Text ReplayRecord
open_records [] = []
open_records ((id, r) ∷ m) =
    let rest = open_records m in if is_accepted r.status then (id, r) ∷ rest else rest

unfoldable pub checked_of : MemoryReplayStore → Text → ℕ
checked_of s id = get_or (JsMap.get id s.checked_at) 0

-- The stable sort by the time of the last check: equal times keep their order.
insert_by :
    MemoryReplayStore → (Text × ReplayRecord) → JsMap Text ReplayRecord → JsMap Text ReplayRecord
insert_by s p [] = p ∷ []
insert_by s p (q ∷ m) =
    let rest = insert_by s p m in
    if leb (checked_of s p.0) (checked_of s q.0) then p ∷ q ∷ m else q ∷ rest

sort_by_check : MemoryReplayStore → JsMap Text ReplayRecord → JsMap Text ReplayRecord
sort_by_check s [] = []
sort_by_check s (p ∷ m) = insert_by s p (sort_by_check s m)

abbrev pub row_of : ReplayRecord → UnsettledPayment
row_of r = record { key = r.entry.key; tx_hash = r.tx_hash; valid_before = r.entry.valid_before }

unfoldable pub list_unsettled : MemoryReplayStore → Option ℕ → List UnsettledPayment
unfolding sort_by_check insert_by open_records checked_of
list_unsettled s limit =
    map (λ p. row_of p.1) (take (get_or limit 100) (sort_by_check s (open_records s.records)))

unfoldable pub get : MemoryReplayStore → ReplayKey → Option ReplayRecord
get s k = JsMap.get (replay_key_string k) s.records

pub size : MemoryReplayStore → ℕ
size s = length s.records
