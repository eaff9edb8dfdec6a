-- ===== src/Keeper/Gas/Window.antt =====
-- The moving average over the newest receipts (services/keeper/src/gas.ts, `gasAssumption`).
use native.Mathlib.Nat.{le-div_iff_mul-le, div-lt_iff_lt-mul, lt-mul-div-succ}
use mathlib.Core.List.{append-nil, append_assoc}
use square.Base.{
  drop-nil, ℕ, zero, suc, ◌+◌, ◌-◌, ◌*◌, ◌/◌, ◌≤◌, ◌<◌, ◌≡◌, refl, ◌≢◌, true, false, arith, List,
  [], ◌∷◌, ◌++◌, length, drop, sum, All, length-append, length-drop, ltb, if◌then◌else◌, leb,
  Bool-cases, inl, inr, ap, ◌∙◌, sym, get_or,
}
use square.Keeper.Gas.{
  SettlementAction, finalize, finalize_decided, GasAssumption, average, assumed, push_sample,
  record_receipt, seen,
}

-- The last `n` of a list.
abbrev pub last_of : ℕ → List ℕ → List ℕ
last_of n xs = drop (length xs - n) xs

-- The receipts that count: the positive ones.
abbrev pub positive : List ℕ → List ℕ
positive [] = []
positive (g ∷ gs) = let rest = positive gs in if leb g 0 then rest else g ∷ rest

unfoldable pub record_all : GasAssumption → SettlementAction → List ℕ → GasAssumption
record_all s a [] = s
record_all s a (g ∷ gs) = record_all (record_receipt s a g) a gs

drop-append : (n : ℕ) (xs ys : List ℕ) → n ≤ length xs → drop n (xs ++ ys) ≡ drop n xs ++ ys
drop-append zero xs ys h = refl
drop-append (suc n) [] ys h = absurd (omega arith)
drop-append (suc n) (x ∷ xs) ys h = drop-append n xs ys (omega arith)

drop-drop : (m p : ℕ) (xs : List ℕ) → drop p (drop m xs) ≡ drop (m + p) xs
drop-drop zero p xs = let e : 0 + p ≡ p = omega arith in rw e
drop-drop (suc m) zero [] = let e : suc m + 0 ≡ suc m = omega arith in rw e
drop-drop (suc m) (suc p) [] = let e : suc m + suc p ≡ suc (m + suc p) = omega arith in rw e
drop-drop (suc m) p (x ∷ xs) =
    let e : suc m + p ≡ suc (m + p) = omega arith in rw e (drop-drop m p xs)

push_sample-last_of : (k : ℕ) (w : List ℕ) (g : ℕ) → push_sample k w g ≡ last_of k (w ++ g ∷ [])
unfolding push_sample
push_sample-last_of k w g = elim (Bool-cases (ltb k (length (w ++ g ∷ [])))) [
  | inl more ↦ rw more
  | inr fits ↦ let e : length (w ++ g ∷ []) - k ≡ 0 = ground arith in rw fits (rw e)
]

last_of-last_of : (k : ℕ) (w ys : List ℕ) → last_of k (last_of k w ++ ys) ≡ last_of k (w ++ ys)
last_of-last_of k w ys =
    let m : ℕ = length w - k in
    let joined : drop m w ++ ys ≡ drop m (w ++ ys) = sym (drop-append m w ys (omega arith)) in
    let len = length-drop m (w ++ ys) in
    let together = length-append w ys in
    rw (joined, drop-drop)
      (ap (λ n. drop n (w ++ ys)) (omega (arith, length-drop m (w ++ ys), length-append w ys)))

module _ (s : GasAssumption) (a : SettlementAction) (g : ℕ) where
  record_receipt-keep : (record_receipt s a g).keep ≡ s.keep
  unfolding record_receipt
  record_receipt-keep = ground arith

  record_receipt-pinned : (record_receipt s a g).pinned ≡ s.pinned
  unfolding record_receipt
  record_receipt-pinned = ground arith

  record_receipt_ignored : leb g 0 ≡ true → record_receipt s a g ≡ s
  unfolding record_receipt
  record_receipt_ignored h = ground arith

  record_receipt-window :
      s.pinned ≡ false
      → s.keep ≢ 0
      → leb g 0 ≡ false
      → (record_receipt s a g).window a ≡ push_sample s.keep (s.window a) g
  unfolding record_receipt
  record_receipt-window p k h =
      elim a as (λ b. (record_receipt s b g).window b ≡ push_sample s.keep (s.window b) g) [
        | finalize ↦ ground arith
        | finalize_decided ↦ ground arith
      ]

-- What the average reads after a run of receipts for one action.
window-record_all :
    (gs : List ℕ) (s : GasAssumption) (a : SettlementAction) (past : List ℕ)
    → s.pinned ≡ false
    → s.keep ≢ 0
    → s.window a ≡ last_of s.keep past
    → (record_all s a gs).window a ≡ last_of s.keep (past ++ positive gs)
unfolding record_all
window-record_all [] s a past p k w = rw append-nil w
window-record_all (g ∷ gs) s a past p k w = elim (Bool-cases (leb g 0)) [
  | inl zero_gas ↦ rw zero_gas (
      ap (λ t. (record_all t a gs).window a) (record_receipt_ignored s a g zero_gas)
      ∙ window-record_all gs s a past p k w)
  | inr counted ↦
      let t : GasAssumption = record_receipt s a g in
      let same = record_receipt-keep s a g in
      let read : t.window a ≡ last_of t.keep (past ++ g ∷ []) =
        record_receipt-window s a g p k counted
        ∙ ap (λ w. push_sample s.keep w g) w
        ∙ push_sample-last_of s.keep (last_of s.keep past) g
        ∙ last_of-last_of s.keep past (g ∷ [])
        ∙ ap (λ k. last_of k (past ++ g ∷ [])) (sym same) in
      let rest : (record_all t a gs).window a ≡ last_of t.keep ((past ++ g ∷ []) ++ positive gs) =
        window-record_all gs t a (past ++ g ∷ []) (record_receipt-pinned s a g ∙ p)
          (λ z. k (sym same ∙ z)) read in
      rw counted (
        rest
        ∙ ap (λ k. last_of k ((past ++ g ∷ []) ++ positive gs)) same
        ∙ ap (last_of s.keep) (append_assoc past (g ∷ []) (positive gs)))
]

-- With no pinned figure and a window to keep, the receipts that the average reads after any run of
-- receipts for an action are the newest positive ones, as many as the window holds.
pub record_all-window :
    (s : GasAssumption) (a : SettlementAction) (gs : List ℕ)
    → s.pinned ≡ false
    → s.keep ≢ 0
    → s.window a ≡ []
    → (record_all s a gs).window a ≡ last_of s.keep (positive gs)
record_all-window s a gs p k w = window-record_all gs s a [] p k (w ∙ sym (drop-nil (0 - s.keep)))

sum-le : (gs : List ℕ) (hi : ℕ) → All (λ g. g ≤ hi) gs → sum gs ≤ hi * length gs
sum-le [] hi h = omega arith
sum-le (g ∷ gs) hi (p, h) = omega (arith, sum-le gs hi h)

le-sum : (gs : List ℕ) (lo : ℕ) → All (λ g. lo ≤ g) gs → lo * length gs ≤ sum gs
le-sum [] lo h = omega arith
le-sum (g ∷ gs) lo (p, h) = omega (arith, le-sum gs lo h)

module _ (t n : ℕ) (pos : 0 < n) where
  ceil-le : (hi : ℕ) → t ≤ hi * n → (t + n - 1) / n ≤ hi
  ceil-le hi h =
      let f = (div-lt_iff_lt-mul {x = t + n - 1} {y = hi + 1} pos).1 (omega arith) in omega arith

  le-ceil : (lo : ℕ) → lo * n ≤ t → lo ≤ (t + n - 1) / n
  le-ceil lo h = (le-div_iff_mul-le pos).1 (omega arith)

  ceil-covers : t ≤ (t + n - 1) / n * n
  ceil-covers = let f = lt-mul-div-succ (t + n - 1) pos in grind arith

average_bounds :
    (w : List ℕ) (d lo hi : ℕ)
    → All (λ g. lo ≤ g) w
    → All (λ g. g ≤ hi) w
    → lo ≤ d
    → d ≤ hi
    → (lo ≤ get_or (average w) d)
      × (get_or (average w) d ≤ hi)
      × (sum w ≤ get_or (average w) d * length w)
unfolding average
average_bounds [] d lo hi h k cl ch = (cl, ch, omega arith)
average_bounds (g ∷ gs) d lo hi h k cl ch =
    let n = suc (length gs) in
    let t = g + sum gs in
    let pos : 0 < n = omega arith in
    (
      le-ceil t n pos lo (le-sum (g ∷ gs) lo h),
      ceil-le t n pos hi (sum-le (g ∷ gs) hi k),
      ceil-covers t n pos,
    )

-- While no figure is pinned, the assumed gas lies between any bounds on the receipts in the window
-- and on the constant that stands in for them, and as often as there are receipts it covers their
-- sum, so that the rounding is never in the keeper's favour.
pub assumed_bounds :
    (s : GasAssumption) (a : SettlementAction) (lo hi : ℕ)
    → All (λ g. lo ≤ g) (s.window a)
    → All (λ g. g ≤ hi) (s.window a)
    → lo ≤ s.constant a
    → s.constant a ≤ hi
    → s.pinned ≡ false
    → (lo ≤ assumed s a) × (assumed s a ≤ hi) × (sum (s.window a) ≤ assumed s a * seen s a)
unfolding assumed seen
assumed_bounds s a lo hi above below cl ch p =
    rw p (average_bounds (s.window a) (s.constant a) lo hi above below cl ch)
