-- ===== src/X402/Store/Unsettled.antt =====
-- The order in which open payments are looked at (packages/x402/src/replay-store.ts,
-- `listUnsettled`).
use mathlib.Core.List.{Perm}
use mathlib.Core.List.Perm
use square.Base.{
  ℕ, ◌≤◌, ◌≡◌, refl, inl, inr, Option, [], ◌∷◌, Text, text_eq, arith, Bool-cases, All, leb, map,
  take, get_or,
}
use square.Base.JsMap.{JsMap}
use square.X402.Store.{
  ReplayRecord, MemoryReplayStore, open_records, checked_of, insert_by, sort_by_check, row_of,
  list_unsettled,
}

module _ (s : MemoryReplayStore) where
  -- The first entry was checked no later than the others.
  abbrev pub IsLeast : ℕ → JsMap Text ReplayRecord → Type 0
  IsLeast n m = All (λ p. n ≤ checked_of s p.0) m

  abbrev pub IsOrdered : JsMap Text ReplayRecord → Type 0
  IsOrdered [] = Unit
  IsOrdered (p ∷ m) = IsLeast (checked_of s p.0) m × IsOrdered m

  IsLeast-mono : (m : JsMap Text ReplayRecord) (a b : ℕ) → a ≤ b → IsLeast b m → IsLeast a m
  IsLeast-mono [] a b h l = tt
  IsLeast-mono (p ∷ m) a b h (q, l) = (omega arith, IsLeast-mono m a b h l)

  insert_by-IsLeast :
      (p : Text × ReplayRecord) (m : JsMap Text ReplayRecord) (n : ℕ)
      → n ≤ checked_of s p.0
      → IsLeast n m
      → IsLeast n (insert_by s p m)
  unfolding insert_by
  insert_by-IsLeast p [] n h l = (h, tt)
  insert_by-IsLeast p (q ∷ m) n h (k, l) = ground (arith, insert_by-IsLeast p m n h l)

  insert_by-IsOrdered :
      (p : Text × ReplayRecord) (m : JsMap Text ReplayRecord)
      → IsOrdered m
      → IsOrdered (insert_by s p m)
  unfolding insert_by
  insert_by-IsOrdered p [] o = (tt, tt)
  insert_by-IsOrdered p (q ∷ m) (l, o) =
      elim (Bool-cases (leb (checked_of s p.0) (checked_of s q.0))) [
        | inl first ↦ rw first ((ground arith, IsLeast-mono m _ _ (ground arith) l), (l, o))
        | inr later ↦ rw later (insert_by-IsLeast p m _ (ground arith) l, insert_by-IsOrdered p m o)
      ]

  insert_by-perm :
      (p : Text × ReplayRecord) (m : JsMap Text ReplayRecord) → Perm (insert_by s p m) (p ∷ m)
  unfolding insert_by
  insert_by-perm p [] = Perm.refl _
  insert_by-perm p (q ∷ m) = elim (Bool-cases (leb (checked_of s p.0) (checked_of s q.0))) [
    | inl first ↦ rw first (Perm.refl _)
    | inr later ↦ rw later (Perm.trans (Perm.cons q (insert_by-perm p m)) (Perm.swap p q m))
  ]

  sort_by_check-IsOrdered : (m : JsMap Text ReplayRecord) → IsOrdered (sort_by_check s m)
  unfolding sort_by_check
  sort_by_check-IsOrdered [] = tt
  sort_by_check-IsOrdered (p ∷ m) = insert_by-IsOrdered p _ (sort_by_check-IsOrdered m)

  sort_by_check-perm : (m : JsMap Text ReplayRecord) → Perm (sort_by_check s m) m
  unfolding sort_by_check
  sort_by_check-perm [] = Perm.refl _
  sort_by_check-perm (p ∷ m) = Perm.trans (insert_by-perm p _) (Perm.cons p (sort_by_check-perm m))

-- The payments listed are the first ones, as many as asked for, of an order that holds every open
-- payment once and is sorted by the number of the last check, which counts as zero where there was
-- none.
pub list_unsettled_lem :
    (s : MemoryReplayStore) (limit : Option ℕ)
    → (order : JsMap Text ReplayRecord) × Perm order (open_records s.records)
      × IsOrdered s order
      × (list_unsettled s limit ≡ map (λ p. row_of p.1) (take (get_or limit 100) order))
unfolding list_unsettled
list_unsettled_lem s limit = (
  sort_by_check s (open_records s.records),
  sort_by_check-perm s _,
  sort_by_check-IsOrdered s (open_records s.records),
  refl,
)
