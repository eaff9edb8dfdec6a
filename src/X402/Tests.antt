-- ===== src/X402/Tests.antt =====
-- Runs of the replay store and of a reconciliation (packages/x402/src/{replay-store,reconcile}.ts).
use square.Base.{
  Exists, ◌⊎◌, to_lower_case, text_beq, ◌≡◌, refl, true, false, some, none, [], ◌∷◌, Text, codes,
  text_eq,
}
use square.Base.JsMap
use square.Base.JsMap.{JsMap}
use square.X402.Store.{
  ReplayKey, ReplayEntry, ReplayRecord, MemoryReplayStore, accepted, settled, replay_key_string,
  memory_replay_store, insert_accepted, has, list_unsettled, UnsettledPayment,
}
use square.X402.Store.Laws.{
  insert_call, failed_call, settled_call, perform_all, closed_forever, insert_replayed,
}
use square.X402.Reconcile.{SettlementReceiptStatus, unknown, reconcile_settlements}
use square.X402.Reconcile.Closed.{AllWaiting, IsClosedFor, reconcile_settlements-IsClosedFor}

abbrev key : ReplayKey
key = record { chain_id = 1; asset = codes "0xA"; payer = codes "0xB"; nonce = codes "0x1" }

abbrev lower_key : ReplayKey
lower_key = record { chain_id = 1; asset = codes "0xa"; payer = codes "0xb"; nonce = codes "0x1" }

abbrev entry : ReplayEntry
entry = record {
  key = key;
  amount = 100;
  pay_to = codes "0xC";
  resource = codes "/data";
  valid_before = 50;
}

same_key : replay_key_string lower_key ≡ replay_key_string key
unfolding replay_key_string to_lower_case
same_key = refl

abbrev settled_record : ReplayRecord
settled_record = record {
  entry = entry;
  status = settled;
  tx_hash = some (codes "0x9");
  reason = none;
  created_at = 10;
}

abbrev settled_store : MemoryReplayStore
settled_store = record {
  records = (codes "1:0xa:0xb:0x1", settled_record) ∷ [];
  checked_at = [];
  checks = 0;
}

closed_forever_example :
    JsMap.get
      (codes "1:0xa:0xb:0x1")
      (perform_all settled_store
        (failed_call key (codes "late") none ∷ insert_call entry 99 ∷ [])).records
    ≡ some settled_record
unfolding JsMap.get text_beq
closed_forever_example =
    closed_forever (failed_call key (codes "late") none ∷ insert_call entry 99 ∷ []) settled_store
      (codes "1:0xa:0xb:0x1") settled_record refl (λ e. cc)

abbrev later_entry : ReplayEntry
later_entry = record entry { key = lower_key; amount = 7 }

abbrev after_settlement : MemoryReplayStore
after_settlement =
    perform_all (insert_accepted memory_replay_store entry 10).1 (settled_call key none none ∷ [])

insert_replayed_example :
    (has after_settlement lower_key ≡ true)
    × (insert_accepted after_settlement later_entry 60 ≡ (false, after_settlement))
insert_replayed_example =
    insert_replayed memory_replay_store entry later_entry 10 60 (settled_call key none none ∷ [])
      same_key

abbrev open_store : MemoryReplayStore
open_store = record {
  records =
      (codes "1:0xa:0xb:0x1", record settled_record { status = accepted; tx_hash = none }) ∷ [];
  checked_at = [];
  checks = 0;
}

abbrev chain : Text → SettlementReceiptStatus
chain tx = unknown

reconcile_settlements-IsClosedFor_example :
    let t = (reconcile_settlements chain none 51 none open_store).1 in
    let before = JsMap.get (codes "1:0xa:0xb:0x1") open_store.records in
    ((JsMap.get (codes "1:0xa:0xb:0x1") t.records ≡ before)
      × AllWaiting chain 51 900 (codes "1:0xa:0xb:0x1") before (list_unsettled open_store none))
    ⊎ Exists
        (IsClosedFor chain 51 900
          (codes "1:0xa:0xb:0x1")
          before
          (JsMap.get (codes "1:0xa:0xb:0x1") t.records))
        (list_unsettled open_store none)
reconcile_settlements-IsClosedFor_example =
    reconcile_settlements-IsClosedFor chain none 51 none open_store (codes "1:0xa:0xb:0x1")

abbrev row : UnsettledPayment
row = record { key = key; tx_hash = some (codes "0x9"); valid_before = 50 }
