-- ===== src/X402/Reconcile.antt =====
-- packages/x402/src/reconcile.ts: what becomes of payments whose settlement was not seen.
pub mod Laws
pub mod Closed
use square.Base.{
  ℕ, ◌+◌, Bool, true, false, Option, none, some, List, [], ◌∷◌, Text, codes, leb, get_or,
  if◌then◌else◌, length,
}
use square.X402.Store.{
  ReplayKey, MemoryReplayStore, UnsettledPayment, list_unsettled, mark_settled, mark_failed,
  mark_checked,
}

-- What the chain says of a transaction.
pub data SettlementReceiptStatus : Type 0 where
  success reverted unknown : SettlementReceiptStatus

abbrev pub default_receipt_grace_seconds : ℕ
default_receipt_grace_seconds = 900

pub record ReconcileReport : Type 0 where
  pub examined : ℕ
  pub settled : ℕ
  pub failed : ℕ
  pub unresolved : ℕ

pub data Reason : Type 0 where
  settlement_reverted authorization_expired receipt_unreadable : Reason
  settlement_unconfirmed awaiting_settlement : Reason

abbrev pub reason_text : Reason → Text
reason_text settlement_reverted = codes "settlement_reverted"
reason_text authorization_expired = codes "authorization_expired"
reason_text receipt_unreadable = codes "settlement_receipt_unreadable"
reason_text settlement_unconfirmed = codes "settlement_unconfirmed"
reason_text awaiting_settlement = codes "awaiting_settlement"

pub data Outcome : Type 0 where
  is_unresolved : Reason → Outcome
  is_settled : Text → Outcome
  is_failed : Reason → Outcome

module _ (receipt_status_of : Text → SettlementReceiptStatus) (now grace : ℕ) where
  unfoldable pub resolve : UnsettledPayment → Outcome
  resolve row = elim row.tx_hash [
    | some tx ↦ elim (receipt_status_of tx) [
      | success ↦ is_settled tx
      | reverted ↦ is_failed settlement_reverted
      | unknown ↦
          if leb (row.valid_before + grace) now
          then is_failed settlement_unconfirmed
          else is_unresolved receipt_unreadable
    ]
    | none ↦
        if leb row.valid_before now
        then is_failed authorization_expired
        else is_unresolved awaiting_settlement
  ]

  -- One round of the loop. The log lines are not modelled.
  unfoldable pub apply_outcome :
      Outcome
      → UnsettledPayment
      → ReconcileReport × MemoryReplayStore
      → ReconcileReport × MemoryReplayStore
  apply_outcome (is_unresolved why) row (report, s) =
      (record report { unresolved = report.unresolved + 1 }, (mark_checked s row.key).1)
  apply_outcome (is_settled tx) row (report, s) =
      (record report { settled = report.settled + 1 }, (mark_settled s row.key (some tx) none).1)
  apply_outcome (is_failed why) row (report, s) = (
    record report { failed = report.failed + 1 },
    (mark_failed s row.key (reason_text why) none).1,
  )

  pub reconcile_rows :
      List UnsettledPayment
      → ReconcileReport × MemoryReplayStore
      → ReconcileReport × MemoryReplayStore
  reconcile_rows [] acc = acc
  reconcile_rows (row ∷ rows) acc = reconcile_rows rows (apply_outcome (resolve row) row acc)

abbrev pub report_of : ℕ → ReconcileReport
report_of n = record { examined = n; settled = 0; failed = 0; unresolved = 0 }

-- The clock is read once, after the rows.
unfoldable pub reconcile_settlements :
    (Text → SettlementReceiptStatus)
    → Option ℕ
    → ℕ
    → Option ℕ
    → MemoryReplayStore
    → ReconcileReport × MemoryReplayStore
unfolding reconcile_rows
reconcile_settlements receipt_status_of limit now grace s =
    let rows = list_unsettled s limit in
    reconcile_rows receipt_status_of now (get_or grace default_receipt_grace_seconds) rows
      (report_of (length rows), s)
