-- ===== src/X402/Reconcile/Laws.antt =====
-- What a reconciliation may do to a payment (packages/x402/src/reconcile.ts).
use square.Base.{
  ℕ, ◌+◌, ◌≤◌, ◌≡◌, refl, ◌≢◌, ◌⊎◌, inl, inr, ◌↔◌, Option, none, some, List, [], ◌∷◌, Text, text_eq,
  text_beq_iff, arith, Exists, Bool-cases, ◌∙◌, length, get_or, ◌==◌, sym, ap, subst,
}
use square.Base.JsMap
use square.Base.JsMap.{get-set}
use square.X402.Store.{
  ReplayRecord, MemoryReplayStore, UnsettledPayment, accepted, settled, failed, replay_key_string,
  mark_settled, mark_failed, mark_checked, list_unsettled, write,
}
use square.X402.Store.Laws.{
  Call, settled_call, failed_call, checked_call, perform, perform_all, closed_forever,
  accepted_record-cases,
}
use square.X402.Reconcile.{
  SettlementReceiptStatus, reverted, unknown, ReconcileReport, Outcome, is_unresolved, is_settled,
  is_failed, reason_text, resolve, apply_outcome, reconcile_rows, reconcile_settlements, report_of,
  default_receipt_grace_seconds, settlement_reverted, authorization_expired, settlement_unconfirmed,
  Reason,
}

abbrev pub IsFinal : Outcome → Type 0
IsFinal (is_unresolved why) = ⊥
IsFinal _ = Unit

-- The record that an outcome leaves behind.
abbrev pub judged : Outcome → ReplayRecord → ReplayRecord
judged (is_unresolved why) r = r
judged (is_settled tx) r = record r { status = settled; tx_hash = some tx }
judged (is_failed why) r = record r { status = failed; reason = some (reason_text why) }

-- An open payment was closed by the verdict on a row with its key.
abbrev pub ClosedBy :
    Outcome → UnsettledPayment → Text → Option ReplayRecord → Option ReplayRecord → Type 0
ClosedBy o row id before after =
    (replay_key_string row.key ≡ id)
    × IsFinal o
    × ((r : ReplayRecord) × (before ≡ some r) × (r.status ≡ accepted) × (after ≡ some (judged o r)))

-- When a payment counts as failed, and why.
abbrev pub Fails : (Text → SettlementReceiptStatus) → ℕ → ℕ → ℕ → Option Text → Reason → Type 0
Fails f now grace expiry none why = (expiry ≤ now) × (why ≡ authorization_expired)
Fails f now grace expiry (some tx) why =
    ((f tx ≡ reverted) × (why ≡ settlement_reverted))
    ⊎ ((f tx ≡ unknown) × (expiry + grace ≤ now) × (why ≡ settlement_unconfirmed))

abbrev pub call_of : Outcome → UnsettledPayment → Call
call_of (is_unresolved why) row = checked_call row.key
call_of (is_settled tx) row = settled_call row.key (some tx) none
call_of (is_failed why) row = failed_call row.key (reason_text why) none

pub apply_outcome-call :
    (f : Text → SettlementReceiptStatus) (now grace : ℕ) (o : Outcome) (row : UnsettledPayment)
    (acc : ReconcileReport × MemoryReplayStore)
    → (apply_outcome f now grace o row acc).1 ≡ perform acc.1 (call_of o row)
unfolding apply_outcome perform
apply_outcome-call f now grace (is_unresolved why) row acc = refl
apply_outcome-call f now grace (is_settled tx) row acc = refl
apply_outcome-call f now grace (is_failed why) row acc = refl

write-ClosedBy :
    (s : MemoryReplayStore) (o : Outcome) (row : UnsettledPayment) (id : Text) (r : ReplayRecord)
    → JsMap.get (replay_key_string row.key) s.records ≡ some r
    → r.status ≡ accepted
    → IsFinal o
    → (JsMap.get id (write s row.key (judged o r)).records ≡ JsMap.get id s.records)
      ⊎ ClosedBy o row id
          (JsMap.get id s.records)
          (JsMap.get id (write s row.key (judged o r)).records)
write-ClosedBy s o row id r found open_r final =
    elim (Bool-cases (replay_key_string row.key == id)) [
      | inl same ↦
          let k : replay_key_string row.key ≡ id = (text_beq_iff _ _).0 same in
          inr (
            k,
            final,
            (
              r,
              ap (λ i. JsMap.get i s.records) (sym k) ∙ found,
              open_r,
              ground (arith, get-set (replay_key_string row.key) id (judged o r) s.records),
            ),
          )
      | inr other ↦
          inl (ground (arith, get-set (replay_key_string row.key) id (judged o r) s.records))
    ]

pub closing :
    (s : MemoryReplayStore) (o : Outcome) (row : UnsettledPayment) (id : Text)
    → (JsMap.get id (perform s (call_of o row)).records ≡ JsMap.get id s.records)
      ⊎ ClosedBy o row id
          (JsMap.get id s.records)
          (JsMap.get id (perform s (call_of o row)).records)
unfolding perform mark_settled mark_failed mark_checked
closing s (is_unresolved why) row id = inl (ground arith)
closing s (is_settled tx) row id = elim (accepted_record-cases s row.key) [
  | inl shut ↦ inl (ground arith)
  | inr (r, found, there, open_r) ↦
      rw (found, perform, mark_settled) (write-ClosedBy s (is_settled tx) row id r there open_r tt)
]
closing s (is_failed why) row id = elim (accepted_record-cases s row.key) [
  | inl shut ↦ inl (ground arith)
  | inr (r, found, there, open_r) ↦
      rw (found, perform, mark_failed) (write-ClosedBy s (is_failed why) row id r there open_r tt)
]

pub judged_closed : (o : Outcome) (r : ReplayRecord) → IsFinal o → (judged o r).status ≢ accepted
judged_closed (is_unresolved why) r h = absurd h
judged_closed (is_settled tx) r h = λ e. cc
judged_closed (is_failed why) r h = λ e. cc

module _ (f : Text → SettlementReceiptStatus) (now grace : ℕ) where
  pub rows-closed :
      (rows : List UnsettledPayment) (acc : ReconcileReport × MemoryReplayStore) (id : Text)
      (r : ReplayRecord)
      → JsMap.get id acc.1.records ≡ some r
      → r.status ≢ accepted
      → JsMap.get id (reconcile_rows f now grace rows acc).1.records ≡ some r
  unfolding reconcile_rows
  rows-closed [] acc id r h closed = h
  rows-closed (row ∷ rows) acc id r h closed =
      rows-closed rows _ id r
        (ap (λ t. JsMap.get id t.records)
            (apply_outcome-call f now grace (resolve f now grace row) row acc)
          ∙ unfold perform_all in
            closed_forever (call_of (resolve f now grace row) row ∷ []) acc.1 id r h closed)
        closed

  abbrev pub Verdict : List UnsettledPayment → Text → MemoryReplayStore → MemoryReplayStore → Type 0
  Verdict rows id s t =
      (JsMap.get id t.records ≡ JsMap.get id s.records)
      ⊎ Exists
          (λ row.
            ClosedBy (resolve f now grace row) row id (JsMap.get id s.records)
              (JsMap.get id t.records))
          rows

  pub rows-Verdict :
      (rows : List UnsettledPayment) (acc : ReconcileReport × MemoryReplayStore) (id : Text)
      → Verdict rows id acc.1 (reconcile_rows f now grace rows acc).1
  unfolding reconcile_rows
  rows-Verdict [] acc id = inl refl
  rows-Verdict (row ∷ rows) acc id =
      let o = resolve f now grace row in
      let acc' = apply_outcome f now grace o row acc in
      let last = (reconcile_rows f now grace rows acc').1 in
      let step =
        subst
          (λ t.
            (JsMap.get id t.records ≡ JsMap.get id acc.1.records)
            ⊎ ClosedBy o row id (JsMap.get id acc.1.records) (JsMap.get id t.records))
          (sym (apply_outcome-call f now grace o row acc)) (closing acc.1 o row id) in
      elim step [
        | inr (k, final, (r, before, open_r, after)) ↦ inr (
            inl (
              k,
              final,
              (
                r,
                before,
                open_r,
                rows-closed rows acc' id (judged o r) after (judged_closed o r final),
              ),
            ))
        | inl same ↦ elim (rows-Verdict rows acc' id) [
          | inl kept ↦ inl (kept ∙ same)
          | inr ex ↦ inr (
              inr (
                subst
                  (λ b.
                    Exists
                      (λ q. ClosedBy (resolve f now grace q) q id b (JsMap.get id last.records))
                      rows)
                  same ex))
        ]
      ]

-- A payment is judged to have failed exactly when its transaction reverted, or its receipt is
-- unknown and the grace after its expiry is over, or it has no transaction and has expired.
pub resolve-is_failed_iff :
    (f : Text → SettlementReceiptStatus) (now grace : ℕ) (row : UnsettledPayment) (why : Reason)
    → (resolve f now grace row ≡ is_failed why) ↔ Fails f now grace row.valid_before row.tx_hash why
unfolding resolve
resolve-is_failed_iff f now grace row why = (λ h. ground arith, λ h. ground arith)

abbrev total : ReconcileReport → ℕ
total r = r.settled + r.failed + r.unresolved

rows-report :
    (f : Text → SettlementReceiptStatus) (now grace : ℕ) (rows : List UnsettledPayment)
    (acc : ReconcileReport × MemoryReplayStore)
    → (total (reconcile_rows f now grace rows acc).0 ≡ total acc.0 + length rows)
      × ((reconcile_rows f now grace rows acc).0.examined ≡ acc.0.examined)
unfolding reconcile_rows
rows-report f now grace [] acc = (omega arith, refl)
rows-report f now grace (row ∷ rows) acc =
    let acc' = apply_outcome f now grace (resolve f now grace row) row acc in
    let (t, e) = rows-report f now grace rows acc' in
    let (t1, e1) = counts (resolve f now grace row) in (omega (arith, t, t1), e ∙ e1)
  where
    counts :
        (o : Outcome)
        → (total (apply_outcome f now grace o row acc).0 ≡ total acc.0 + 1)
          × ((apply_outcome f now grace o row acc).0.examined ≡ acc.0.examined)
    counts (is_unresolved why) = unfold apply_outcome in (omega arith, refl)
    counts (is_settled tx) = unfold apply_outcome in (omega arith, refl)
    counts (is_failed why) = unfold apply_outcome in (omega arith, refl)

-- The report accounts for every payment examined: those settled, failed and left open add up to
-- the number of payments that were listed.
pub reconcile_settlements-report :
    (f : Text → SettlementReceiptStatus) (limit : Option ℕ) (now : ℕ) (grace : Option ℕ)
    (s : MemoryReplayStore)
    → let report = (reconcile_settlements f limit now grace s).0 in
      (report.settled + report.failed + report.unresolved ≡ report.examined)
      × (report.examined ≡ length (list_unsettled s limit))
unfolding reconcile_settlements
reconcile_settlements-report f limit now grace s =
    let rows = list_unsettled s limit in
    let (t, e) =
      rows-report f now (get_or grace default_receipt_grace_seconds) rows
        (report_of (length rows), s) in
    (omega (arith, t, e), e)
