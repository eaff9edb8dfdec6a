-- ===== src/Base/Lru.antt =====
-- A `Map` kept in order of use, and the loop that evicts from its front.
use Prim.Native.Nat.{ℕ, zero, suc, ◌+◌, ◌-◌, ◌≤◌, ◌<◌}
use mathlib.Core.Path.{◌≡◌, refl, ◌∙◌, ap}
use mathlib.Core.Logic.{◌≢◌, inl, inr}
use mathlib.Core.Bool.{true, false≢true}
use mathlib.Core.Option.{none, some}
use mathlib.Core.List.{List, [], ◌∷◌, ◌++◌}
use native.Mathlib.Omega.{arith}
use square.Base.Tests.{if◌then◌else◌, ltb, Bool-cases, Option-cases}
use square.Base.Keys.{Eq, ◌==◌, beq_self}
use square.Base.Lists.{length, drop, drop-nil, any, length-append}
use square.Base.JsMap
use square.Base.JsMap.{
  JsMap, IsKeyed, get-set, get-delete, set-IsKeyed, delete-IsKeyed, set_new, length-delete,
  length-delete-le, length-set_new, delete_of_none,
}

module _ {ℓ} {K V : Type ℓ} ⦃e : Eq K⦄ where
  -- Delete, then write: the entry goes to the end.
  unfoldable pub touch : K → V → JsMap K V → JsMap K V
  touch k v m = JsMap.set k v (JsMap.delete k m)

  -- `while (size > max) delete(first key)`: the first key's entry is the head.
  unfoldable pub evict : ℕ → JsMap K V → JsMap K V
  evict max [] = []
  evict max (p ∷ m) = let rest = evict max m in if ltb max (length (p ∷ m)) then rest else p ∷ m

  get-delete_self : (k : K) (m : JsMap K V) → JsMap.get k (JsMap.delete k m) ≡ none
  get-delete_self k m = rw (get-delete k k m, beq_self k)

  pub get-touch :
      (k j : K) (v : V) (m : JsMap K V)
      → JsMap.get j (touch k v m) ≡ (if k == j then some v else JsMap.get j m)
  unfolding touch
  get-touch k j v m = ground (arith, get-set k j v (JsMap.delete k m), get-delete k j m)

  pub touch-IsKeyed : (k : K) (v : V) (m : JsMap K V) → IsKeyed m → IsKeyed (touch k v m)
  unfolding touch
  touch-IsKeyed k v m h = set-IsKeyed k v _ (delete-IsKeyed k m h)

  pub touch_lem : (k : K) (v : V) (m : JsMap K V) → touch k v m ≡ JsMap.delete k m ++ (k, v) ∷ []
  unfolding touch
  touch_lem k v m = set_new k v _ (get-delete_self k m)

  pub length-touch :
      (k : K) (v : V) (m : JsMap K V) → length (touch k v m) ≡ length (JsMap.delete k m) + 1
  unfolding touch
  length-touch k v m = length-set_new k v _ (get-delete_self k m)

  pub length-evict : (max : ℕ) (m : JsMap K V) → length (evict max m) ≤ max
  unfolding evict
  length-evict max [] = omega arith
  length-evict max (p ∷ m) = ground (arith, length-evict max m)

  pub evict-IsKeyed : (max : ℕ) (m : JsMap K V) → IsKeyed m → IsKeyed (evict max m)
  unfolding evict
  evict-IsKeyed max [] h = tt
  evict-IsKeyed max (p ∷ m) h = ground (arith, evict-IsKeyed max m)

  pub evict_fits : (max : ℕ) (m : JsMap K V) → length m ≤ max → evict max m ≡ m
  unfolding evict
  evict_fits max [] h = refl
  evict_fits max (p ∷ m) h = ground arith

  -- The newest entry survives any eviction that keeps one.
  pub evict-append :
      (max : ℕ) (m : JsMap K V) (p : K × V)
      → 0 < max
      → evict max (m ++ p ∷ []) ≡ drop (length m + 1 - max) m ++ p ∷ []
  unfolding evict
  evict-append max [] p h = rw (drop-nil (0 + 1 - max)) (ground arith)
  evict-append max (q ∷ m) p h = elim (Bool-cases (ltb max (suc (length (m ++ p ∷ []))))) [
    | inl more ↦
        let n : suc (length m) + 1 - max ≡ suc (length m + 1 - max) =
          ground (arith, length-append m (p ∷ [])) in
        rw (more, n) (evict-append max m p h)
    | inr fits ↦
        let n : suc (length m) + 1 - max ≡ 0 = ground (arith, length-append m (p ∷ [])) in
        rw (fits, n)
  ]

  get_head : (j : K) (v : V) (m : JsMap K V) → JsMap.get j ((j, v) ∷ m) ≡ some v
  unfolding JsMap.get
  get_head j v m = rw (beq_self j)

  -- A map whose keys lie in a list is no longer than the list.
  pub length-le_universe :
      (us : List K) (m : JsMap K V)
      → IsKeyed m
      → ((j : K) → JsMap.get j m ≢ none → any (λ u. u == j) us ≡ true)
      → length m ≤ length us
  length-le_universe [] [] k h = omega arith
  length-le_universe [] ((j, v) ∷ m) k h = absurd (false≢true (h j (λ n. cc (get_head j v m))))
  length-le_universe (u ∷ us) m k h =
      let rest =
        length-le_universe us (JsMap.delete u m) (delete-IsKeyed u m k)
          (λ j n. ground (arith, get-delete u j m, h j)) in
      elim (Option-cases (JsMap.get u m)) [
        | inl missing ↦
            let same = delete_of_none u m missing in ground (arith, rest, ap length same)
        | inr (v, found) ↦ omega (arith, length-delete u m v k found, rest)
      ]

  get-drop-none :
      (k : K) (n : ℕ) (m : JsMap K V) → JsMap.get k m ≡ none → JsMap.get k (drop n m) ≡ none
  unfolding JsMap.get
  get-drop-none k zero m h = h
  get-drop-none k (suc n) [] h = refl
  get-drop-none k (suc n) ((j, v) ∷ m) h = get-drop-none k n m (ground arith)

  get-append_none :
      (k : K) (xs ys : JsMap K V) → JsMap.get k xs ≡ none → JsMap.get k (xs ++ ys) ≡ JsMap.get k ys
  unfolding JsMap.get
  get-append_none k [] ys h = refl
  get-append_none k ((j, v) ∷ xs) ys h = ground (arith, get-append_none k xs ys)

  -- What was just touched is there after the eviction.
  pub get-evict-touch :
      (max : ℕ) (k : K) (v : V) (m : JsMap K V)
      → 0 < max
      → JsMap.get k (evict max (touch k v m)) ≡ some v
  get-evict-touch max k v m h =
      ap (λ l. JsMap.get k (evict max l)) (touch_lem k v m)
      ∙ ap (JsMap.get k) (evict-append max (JsMap.delete k m) (k, v) h)
      ∙ get-append_none k _ _ (get-drop-none k _ (JsMap.delete k m) (get-delete_self k m))
      ∙ get_head k v []

  -- An eviction only removes: an entry that is found afterwards was there.
  pub get-evict :
      (max : ℕ) (k : K) (v : V) (m : JsMap K V)
      → IsKeyed m
      → JsMap.get k (evict max m) ≡ some v
      → JsMap.get k m ≡ some v
  unfolding evict JsMap.get
  get-evict max k v [] u h = h
  get-evict max k v ((j, w) ∷ m) u h = ground (arith, e.beq_iff j k, get-evict max k v m)
