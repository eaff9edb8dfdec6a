-- ===== src/Indexer/Sync/Balances.antt =====
-- services/indexer/src/sync.ts: the balances of the database follow the ledger of the mirror.
use square.Base.{
  ◌≡◌, refl, ap, sym, subst, ◌∙◌, inl, inr, true, false, Bool, some, List, [], ◌∷◌, ◌++◌, arith,
  ◌||◌, Bool-cases, Option-cases, any, get_or, Text, text_beq, text_beq_iff, text_eq, beq_comm,
}
use square.Base.JsMap
use square.Base.JsMap.{JsMap, get-set, IsKeyed, set-IsKeyed}
use square.Base.Int.{ℤ, pos, int_beq_iff}
use square.Indexer.State.{Ledger}
use square.Indexer.Draft.{add_text, changed_keys, is_amount}

abbrev pub amount_of : Text → Ledger → ℤ
amount_of key ledger = get_or (JsMap.get key ledger) (pos 0)

-- Membership in a `Set` of texts.
abbrev pub has : Text → List Text → Bool
has key xs = any (λ k. text_beq k key) xs

abbrev pub IsDistinct : List Text → Type 0
IsDistinct [] = Unit
IsDistinct (x ∷ xs) = (has x xs ≡ false) × IsDistinct xs

has_append :
    (key t : Text) (xs : List Text) → has key (xs ++ t ∷ []) ≡ (has key xs || text_beq t key)
has_append key t [] = ground arith
has_append key t (x ∷ xs) = ground (arith, has_append key t xs)

has-add_text :
    (key t : Text) (xs : List Text) → has key (add_text t xs) ≡ (has key xs || text_beq t key)
unfolding add_text
has-add_text key t xs = elim (Bool-cases (has t xs)) [
  | inl there ↦ elim (Bool-cases (text_beq t key)) [
    | inl same ↦
        subst (λ k. has k (add_text t xs) ≡ (has k xs || text_beq t k))
          ((text_beq_iff t key).0 same) (rw (there) (ground (arith, there)))
    | inr other ↦ rw (there, other) (ground arith)
  ]
  | inr new ↦ rw (new) (has_append key t xs)
]

append-IsDistinct :
    (t : Text) (xs : List Text) → has t xs ≡ false → IsDistinct xs → IsDistinct (xs ++ t ∷ [])
append-IsDistinct t [] new h = (refl, tt)
append-IsDistinct t (x ∷ xs) new (fresh, h) =
    (has_append x t xs ∙ ground (arith, beq_comm x t), append-IsDistinct t xs (ground arith) h)

add_text-IsDistinct : (t : Text) (xs : List Text) → IsDistinct xs → IsDistinct (add_text t xs)
unfolding add_text
add_text-IsDistinct t xs h = elim (Bool-cases (has t xs)) [
  | inl there ↦ rw (there) h
  | inr new ↦ rw (new) (append-IsDistinct t xs new h)
]

pub changed_keys_kept :
    (before : Ledger) (entries : Ledger) (key : Text) (xs : List Text)
    → has key xs ≡ true
    → has key (changed_keys before entries xs) ≡ true
unfolding changed_keys
changed_keys_kept before [] key xs h = h
changed_keys_kept before ((k, a) ∷ entries) key xs h =
    changed_keys_kept before entries key _ (ground (arith, has-add_text key k xs))

pub changed_keys-IsDistinct :
    (before : Ledger) (entries : Ledger) (xs : List Text)
    → IsDistinct xs
    → IsDistinct (changed_keys before entries xs)
unfolding changed_keys
changed_keys-IsDistinct before [] xs h = h
changed_keys-IsDistinct before ((k, a) ∷ entries) xs h =
    changed_keys-IsDistinct before entries _ (ground (arith, add_text-IsDistinct k xs h))

is_amount_lem :
    (before : Ledger) (key : Text) (v : ℤ)
    → is_amount (JsMap.get key before) v ≡ true
    → JsMap.get key before ≡ some v
unfolding is_amount
is_amount_lem before key v h = elim (Option-cases (JsMap.get key before)) [
  | inl gone ↦ absurd (ground arith)
  | inr (a, found) ↦
      found ∙ ap some ((int_beq_iff a v).0 (subst (λ o. is_amount o v ≡ true) found h))
]

-- A key that is not among the changed ones had its amount before.
pub unchanged :
    (before : Ledger) (entries : Ledger) (key : Text) (a : ℤ) (xs : List Text)
    → JsMap.get key entries ≡ some a
    → has key (changed_keys before entries xs) ≡ false
    → JsMap.get key before ≡ some a
unfolding changed_keys JsMap.get
unchanged before [] key a xs found absent = ground arith
unchanged before ((k, v) ∷ entries) key a xs found absent = elim (Bool-cases (text_beq k key)) [
  | inr other ↦ unchanged before entries key a _ (ground arith) absent
  | inl same ↦ elim (Bool-cases (is_amount (JsMap.get k before) v)) [
    | inl kept ↦
        ap (λ j. JsMap.get j before) (sym ((text_beq_iff k key).0 same))
        ∙ is_amount_lem before k v kept
        ∙ ground arith
    | inr changed ↦ absurd (
        ground (arith, has-add_text key k xs, changed_keys_kept before entries key (add_text k xs)))
  ]
]
