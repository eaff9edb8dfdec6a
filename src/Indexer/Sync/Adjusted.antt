-- ===== src/Indexer/Sync/Adjusted.antt =====
-- services/indexer/src/sync.ts: what `persist` does to the balances.
use square.Base.{
  ◌≡◌, refl, ap, sym, subst, ◌∙◌, inl, inr, true, false, List, [], ◌∷◌, arith, Bool-cases,
  Option-cases, if◌then◌else◌, get_or, Text, text_beq, text_beq_iff, text_eq, beq_self,
}
use square.Base.JsMap
use square.Base.JsMap.{get-set, get_self, IsKeyed, set-IsKeyed}
use square.Base.Int.{ℤ, pos, ◌+ℤ◌, ◌-ℤ◌, int_beq, int_beq_iff, +ℤ_difference, +ℤ_zero, zero_+ℤ}
use square.Indexer.State.{Ledger}
use square.Indexer.Rows.{adjust}
use square.Indexer.Persist.{persist_entry, persist_ledger}
use square.Indexer.Sync.{copy_into}
use square.Indexer.Sync.Balances.{amount_of, has, IsDistinct}

amount_of-adjust :
    (key k : Text) (delta : ℤ) (table : Ledger)
    → amount_of key (adjust k delta table)
      ≡ (if text_beq k key then amount_of key table +ℤ delta else amount_of key table)
unfolding adjust
amount_of-adjust key k delta table = elim (Option-cases (JsMap.get k table)) [
  | inl gone ↦ ground (arith, get-set k key delta table, text_beq_iff k key, zero_+ℤ delta)
  | inr (a, found) ↦ ground (arith, get-set k key (a +ℤ delta) table, text_beq_iff k key)
]

-- A balance, and the amount that is staged or known to be persisted.
abbrev pub Holds : Ledger → Text → ℤ → Ledger × Ledger → Type 0
Holds persisted key v (balances, staged) =
    (amount_of key balances ≡ v) × (get_or (JsMap.get key staged) (amount_of key persisted) ≡ v)

module _ (draft persisted : Ledger) where
  -- An entry whose amount is the persisted one is passed over, any other is adjusted and staged.
  entry_still :
      (k : Text) (held : Ledger × Ledger)
      → int_beq (amount_of k draft -ℤ amount_of k persisted) (pos 0) ≡ true
      → persist_entry draft persisted k held ≡ held
  unfolding persist_entry
  entry_still k (balances, staged) still = rw (still) refl

  entry_moved :
      (k : Text) (balances staged : Ledger)
      → int_beq (amount_of k draft -ℤ amount_of k persisted) (pos 0) ≡ false
      → persist_entry draft persisted k (balances, staged) ≡ (
        adjust k (amount_of k draft -ℤ amount_of k persisted) balances,
        JsMap.set k (amount_of k draft) staged,
      )
  unfolding persist_entry
  entry_moved k balances staged moved = rw (moved) refl

  still-amount :
      (k : Text)
      → int_beq (amount_of k draft -ℤ amount_of k persisted) (pos 0) ≡ true
      → amount_of k persisted ≡ amount_of k draft
  still-amount k still =
      sym (+ℤ_zero (amount_of k persisted))
      ∙ ap (λ d. amount_of k persisted +ℤ d)
          (sym ((int_beq_iff (amount_of k draft -ℤ amount_of k persisted) (pos 0)).0 still))
      ∙ +ℤ_difference (amount_of k draft) (amount_of k persisted)

  entry_other :
      (k key : Text) (v : ℤ) (held : Ledger × Ledger)
      → text_beq k key ≡ false
      → Holds persisted key v held
      → Holds persisted key v (persist_entry draft persisted k held)
  entry_other k key v (balances, staged) other (b, s) =
      elim (Bool-cases (int_beq (amount_of k draft -ℤ amount_of k persisted) (pos 0))) [
        | inl still ↦
            subst (Holds persisted key v) (sym (entry_still k (balances, staged) still)) (b, s)
        | inr moved ↦ subst (Holds persisted key v) (sym (entry_moved k balances staged moved)) (
          amount_of-adjust key k _ balances ∙ rw (other) b,
          rw (get-set k key (amount_of k draft) staged, other) s,
        )
      ]

  entry_self :
      (key : Text) (held : Ledger × Ledger)
      → Holds persisted key (amount_of key persisted) held
      → Holds persisted key (amount_of key draft) (persist_entry draft persisted key held)
  entry_self key (balances, staged) (b, s) =
      elim (Bool-cases (int_beq (amount_of key draft -ℤ amount_of key persisted) (pos 0))) [
        | inl still ↦
            subst (Holds persisted key (amount_of key draft))
              (sym (entry_still key (balances, staged) still))
              (b ∙ still-amount key still, s ∙ still-amount key still)
        | inr moved ↦
            subst (Holds persisted key (amount_of key draft))
              (sym (entry_moved key balances staged moved))
              (
                amount_of-adjust key key _ balances
                    ∙ rw (beq_self key, b)
                        (+ℤ_difference (amount_of key draft) (amount_of key persisted)),
                rw (get_self key (amount_of key draft) staged) refl,
              )
      ]

  pub persist_ledger_clean :
      (dirty : List Text) (key : Text) (v : ℤ) (held : Ledger × Ledger)
      → has key dirty ≡ false
      → Holds persisted key v held
      → Holds persisted key v (persist_ledger draft persisted dirty held)
  unfolding persist_ledger
  persist_ledger_clean [] key v held absent h = h
  persist_ledger_clean (k ∷ ks) key v held absent h =
      persist_ledger_clean ks key v (persist_entry draft persisted k held) (ground arith)
        (entry_other k key v held (ground arith) h)

  pub persist_ledger_dirty :
      (dirty : List Text) (key : Text) (held : Ledger × Ledger)
      → IsDistinct dirty
      → has key dirty ≡ true
      → Holds persisted key (amount_of key persisted) held
      → Holds persisted key (amount_of key draft) (persist_ledger draft persisted dirty held)
  unfolding persist_ledger
  persist_ledger_dirty [] key held distinct there h = absurd (ground arith)
  persist_ledger_dirty (k ∷ ks) key held (fresh, distinct) there h =
      elim (Bool-cases (text_beq k key)) [
        | inl same ↦
            persist_ledger_clean ks key _ (persist_entry draft persisted k held)
              (subst (λ t. has t ks ≡ false) ((text_beq_iff k key).0 same) fresh)
              (subst
                (λ t.
                  Holds persisted key (amount_of key draft) (persist_entry draft persisted t held))
                (sym ((text_beq_iff k key).0 same)) (entry_self key held h))
        | inr other ↦
            persist_ledger_dirty ks key (persist_entry draft persisted k held) distinct
              (ground arith) (entry_other k key _ held other h)
      ]

  entry-IsKeyed :
      (k : Text) (held : Ledger × Ledger)
      → IsKeyed held.1
      → IsKeyed (persist_entry draft persisted k held).1
  unfolding persist_entry
  entry-IsKeyed k (balances, staged) keyed =
      ground (arith, set-IsKeyed k (amount_of k draft) staged keyed)

  pub persist_ledger-IsKeyed :
      (dirty : List Text) (held : Ledger × Ledger)
      → IsKeyed held.1
      → IsKeyed (persist_ledger draft persisted dirty held).1
  unfolding persist_ledger
  persist_ledger-IsKeyed [] held keyed = keyed
  persist_ledger-IsKeyed (k ∷ ks) held keyed =
      persist_ledger-IsKeyed ks (persist_entry draft persisted k held) (entry-IsKeyed k held keyed)

-- The staged amounts over the persisted ones.
pub amount_of-copy_into :
    (key : Text) (staged persisted : Ledger)
    → IsKeyed staged
    → amount_of key (copy_into staged persisted)
      ≡ get_or (JsMap.get key staged) (amount_of key persisted)
unfolding copy_into JsMap.get
amount_of-copy_into key [] persisted keyed = refl
amount_of-copy_into key ((k, a) ∷ staged) persisted (fresh, keyed) =
    amount_of-copy_into key staged (JsMap.set k a persisted) keyed
    ∙ ground (arith, get-set k key a persisted, text_beq_iff k key)
