-- ===== src/X402/Reconcile/Closed.antt =====
-- What a reconciliation does to each payment (packages/x402/src/reconcile.ts).
use square.Base.{
  ℕ, ◌+◌, ◌≡◌, refl, ◌≢◌, ◌⊎◌, inl, inr, Option, none, some, List, [], ◌∷◌, Text, text_eq, arith,
  All, Exists, Option-cases, ◌∙◌, length, get_or, some_eq, ◌<◌, beq_self, sym, ap, subst,
}
use square.Base.JsMap
use square.Base.JsMap.{get-set}
use square.X402.Store.{
  ReplayRecord, MemoryReplayStore, UnsettledPayment, accepted, settled, failed, replay_key_string,
  mark_settled, mark_failed, list_unsettled, accepted_record,
}
use square.X402.Store.Laws.{perform, accepted_record-cases}
use square.X402.Reconcile.Laws.{
  IsFinal, judged, ClosedBy, Fails, call_of, apply_outcome-call, closing, judged_closed,
  rows-closed, rows-Verdict, resolve-is_failed_iff,
}
use square.X402.Reconcile.{
  SettlementReceiptStatus, success, unknown, ReconcileReport, Outcome, is_unresolved, is_settled,
  is_failed, reason_text, resolve, apply_outcome, reconcile_rows, reconcile_settlements, report_of,
  default_receipt_grace_seconds, Reason,
}

-- How an open payment is closed: settled by its transaction, whose receipt is a success, or failed for
-- a reason that holds.
abbrev pub IsClosed :
    (Text → SettlementReceiptStatus)
    → ℕ
    → ℕ
    → UnsettledPayment
    → ReplayRecord
    → Option ReplayRecord
    → Type 0
IsClosed f now grace row r after =
    ((tx : Text) × (row.tx_hash ≡ some tx)
      × (f tx ≡ success)
      × (after ≡ some (record r { status = settled; tx_hash = some tx })))
    ⊎ ((why : Reason) × Fails f now grace row.valid_before row.tx_hash why
        × (after ≡ some (record r { status = failed; reason = some (reason_text why) })))

-- A listed row has the key of the payment, which was open and is closed.
abbrev pub IsClosedFor :
    (Text → SettlementReceiptStatus)
    → ℕ
    → ℕ
    → Text
    → Option ReplayRecord
    → Option ReplayRecord
    → UnsettledPayment
    → Type 0
IsClosedFor f now grace id before after row =
    (replay_key_string row.key ≡ id)
    × ((r : ReplayRecord) × (before ≡ some r)
        × (r.status ≡ accepted)
        × IsClosed f now grace row r after)

resolve-is_settled :
    (f : Text → SettlementReceiptStatus) (now grace : ℕ) (row : UnsettledPayment) (tx : Text)
    → resolve f now grace row ≡ is_settled tx
    → (row.tx_hash ≡ some tx) × (f tx ≡ success)
unfolding resolve
resolve-is_settled f now grace row tx h = (ground arith, ground arith)

module _ (f : Text → SettlementReceiptStatus) (now grace : ℕ) where
  judged-IsClosed :
      (o : Outcome) (row : UnsettledPayment) (r : ReplayRecord) (after : Option ReplayRecord)
      → resolve f now grace row ≡ o
      → IsFinal o
      → after ≡ some (judged o r)
      → IsClosed f now grace row r after
  judged-IsClosed (is_unresolved why) row r after is final h = absurd final
  judged-IsClosed (is_settled tx) row r after is final h =
      let (same, success_of) = resolve-is_settled f now grace row tx is in
      inl (tx, same, success_of, h)
  judged-IsClosed (is_failed why) row r after is final h =
      inr (why, (resolve-is_failed_iff f now grace row why).0 is, h)

  closed_rows :
      (rows : List UnsettledPayment) (id : Text) (before after : Option ReplayRecord)
      → Exists (λ row. ClosedBy (resolve f now grace row) row id before after) rows
      → Exists (IsClosedFor f now grace id before after) rows
  closed_rows [] id before after none_of = elim none_of [ ]
  closed_rows (row ∷ rows) id before after (inl (k, final, (r, was, open_r, now_is))) =
      inl (
        k,
        (r, was, open_r, judged-IsClosed (resolve f now grace row) row r after refl final now_is),
      )
  closed_rows (row ∷ rows) id before after (inr later) =
      inr (closed_rows rows id before after later)

-- No verdict is reached: the receipt is unknown and the grace after the expiry not over, or there is no
-- transaction and the payment has not expired.
abbrev pub IsWaiting : (Text → SettlementReceiptStatus) → ℕ → ℕ → ℕ → Option Text → Type 0
IsWaiting f now grace expiry none = now < expiry
IsWaiting f now grace expiry (some tx) = (f tx ≡ unknown) × (now < expiry + grace)

-- Every listed row for a payment that is open is waiting.
abbrev pub AllWaiting :
    (Text → SettlementReceiptStatus)
    → ℕ
    → ℕ
    → Text
    → Option ReplayRecord
    → List UnsettledPayment
    → Type 0
AllWaiting f now grace id before = All (λ row.
    replay_key_string row.key ≡ id
    → (r : ReplayRecord) → before ≡ some r
    → r.status ≡ accepted
    → IsWaiting f now grace row.valid_before row.tx_hash)

final-writes :
    (s : MemoryReplayStore) (o : Outcome) (row : UnsettledPayment) (r : ReplayRecord)
    → accepted_record s row.key ≡ some r
    → IsFinal o
    → JsMap.get (replay_key_string row.key) (perform s (call_of o row)).records ≡ some (judged o r)
unfolding perform mark_settled mark_failed
final-writes s (is_unresolved why) row r found final = absurd final
final-writes s (is_settled tx) row r found final =
    rw (found, perform, mark_settled)
      (get-set (replay_key_string row.key) (replay_key_string row.key) (judged (is_settled tx) r)
          s.records
        ∙ rw (beq_self (replay_key_string row.key)) refl)
final-writes s (is_failed why) row r found final =
    rw (found, perform, mark_failed)
      (get-set (replay_key_string row.key) (replay_key_string row.key) (judged (is_failed why) r)
          s.records
        ∙ rw (beq_self (replay_key_string row.key)) refl)

final-changes :
    (s : MemoryReplayStore) (o : Outcome) (row : UnsettledPayment) (r : ReplayRecord)
    → JsMap.get (replay_key_string row.key) s.records ≡ some r
    → r.status ≡ accepted
    → IsFinal o
    → JsMap.get (replay_key_string row.key) (perform s (call_of o row)).records
      ≢ JsMap.get (replay_key_string row.key) s.records
final-changes s o row r there open_r final = λ kept. elim (accepted_record-cases s row.key) [
  | inl shut ↦ unfold accepted_record in absurd (ground arith)
  | inr (q, found, at_q, open_q) ↦ judged_closed o q final (
      ap (λ x. x.status) (some_eq (sym (final-writes s o row q found final) ∙ kept ∙ at_q))
      ∙ open_q)
]

module _ (f : Text → SettlementReceiptStatus) (now grace : ℕ) where
  unresolved-IsWaiting :
      (row : UnsettledPayment) (why : Reason)
      → resolve f now grace row ≡ is_unresolved why
      → IsWaiting f now grace row.valid_before row.tx_hash
  unfolding resolve
  unresolved-IsWaiting row why h = elim (Option-cases row.tx_hash) [
    | inl none_yet ↦ rw none_yet (ground arith)
    | inr (tx, sent) ↦ rw sent (ground arith, ground arith)
  ]

  outcome-IsWaiting :
      (o : Outcome) (row : UnsettledPayment)
      → resolve f now grace row ≡ o
      → ¬ IsFinal o
      → IsWaiting f now grace row.valid_before row.tx_hash
  outcome-IsWaiting (is_unresolved why) row is open_o = unresolved-IsWaiting row why is
  outcome-IsWaiting (is_settled tx) row is open_o = absurd (open_o tt)
  outcome-IsWaiting (is_failed why) row is open_o = absurd (open_o tt)

  -- A row that leaves the open payment with its key is waiting.
  kept-IsWaiting :
      (row : UnsettledPayment) (s : MemoryReplayStore) (id : Text)
      → JsMap.get id (perform s (call_of (resolve f now grace row) row)).records
        ≡ JsMap.get id s.records
      → replay_key_string row.key ≡ id
      → (r : ReplayRecord) → JsMap.get id s.records ≡ some r
      → r.status ≡ accepted
      → IsWaiting f now grace row.valid_before row.tx_hash
  kept-IsWaiting row s id kept same r there open_r =
      outcome-IsWaiting (resolve f now grace row) row refl (λ final.
        final-changes s (resolve f now grace row) row r
          (subst (λ k. JsMap.get k s.records ≡ some r) (sym same) there) open_r final
          (subst
            (λ k.
              JsMap.get k (perform s (call_of (resolve f now grace row) row)).records
              ≡ JsMap.get k s.records)
            (sym same) kept))

module _ (f : Text → SettlementReceiptStatus) (now grace : ℕ) where
  row_kept :
      (row : UnsettledPayment) (rows : List UnsettledPayment)
      (acc : ReconcileReport × MemoryReplayStore) (id : Text)
      → JsMap.get id
          (reconcile_rows f now grace rows
            (apply_outcome f now grace (resolve f now grace row) row acc)).1.records
        ≡ JsMap.get id acc.1.records
      → JsMap.get id (perform acc.1 (call_of (resolve f now grace row) row)).records
        ≡ JsMap.get id acc.1.records
  row_kept row rows acc id kept = elim (closing acc.1 (resolve f now grace row) row id) [
    | inl same ↦ same
    | inr (k, final, (r, before, open_r, after)) ↦ absurd (
        judged_closed (resolve f now grace row) r final (
          ap (λ x. x.status)
            (some_eq (
              sym (
                rows-closed f now grace rows
                  (apply_outcome f now grace (resolve f now grace row) row acc) id
                  (judged (resolve f now grace row) r)
                  (ap (λ t. JsMap.get id t.records)
                      (apply_outcome-call f now grace (resolve f now grace row) row acc)
                    ∙ after)
                  (judged_closed (resolve f now grace row) r final))
              ∙ kept
              ∙ before))
          ∙ open_r))
  ]

  rows-AllWaiting :
      (rows : List UnsettledPayment) (acc : ReconcileReport × MemoryReplayStore) (id : Text)
      → JsMap.get id (reconcile_rows f now grace rows acc).1.records ≡ JsMap.get id acc.1.records
      → AllWaiting f now grace id (JsMap.get id acc.1.records) rows
  unfolding reconcile_rows
  rows-AllWaiting [] acc id kept = tt
  rows-AllWaiting (row ∷ rows) acc id kept =
      let same = row_kept row rows acc id kept in
      let there =
        ap (λ t. JsMap.get id t.records)
          (apply_outcome-call f now grace (resolve f now grace row) row acc)
        ∙ same in
      (
        kept-IsWaiting f now grace row acc.1 id same,
        subst (λ b. AllWaiting f now grace id b rows) there
            (rows-AllWaiting rows (apply_outcome f now grace (resolve f now grace row) row acc) id
              (kept ∙ sym there)),
      )

-- After a reconciliation every payment is as before, and then every listed row for it, if it was open, was
-- waiting: for its receipt, with the grace after the expiry not over, or without a transaction and not expired.
-- Or it was open and a listed row has its key, and it is settled by the transaction of the row, whose
-- receipt is a success, or failed: because the row's transaction reverted, because the receipt is unknown and
-- the grace after the expiry over, or because the row has no transaction and has expired.
pub reconcile_settlements-IsClosedFor :
    (f : Text → SettlementReceiptStatus) (limit : Option ℕ) (now : ℕ) (grace : Option ℕ)
    (s : MemoryReplayStore) (id : Text)
    → let t = (reconcile_settlements f limit now grace s).1 in
      let before = JsMap.get id s.records in
      ((JsMap.get id t.records ≡ before)
        × AllWaiting f now (get_or grace 900) id before (list_unsettled s limit))
      ⊎ Exists
          (IsClosedFor f now (get_or grace 900) id before (JsMap.get id t.records))
          (list_unsettled s limit)
unfolding reconcile_settlements
reconcile_settlements-IsClosedFor f limit now grace s id =
    let g : ℕ = get_or grace default_receipt_grace_seconds in
    let rows = list_unsettled s limit in
    elim (rows-Verdict f now g rows (report_of (length rows), s) id) [
      | inl same ↦ inl (same, rows-AllWaiting f now g rows (report_of (length rows), s) id same)
      | inr found ↦ inr (closed_rows f now g rows id _ _ found)
    ]
