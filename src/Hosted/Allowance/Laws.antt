-- ===== src/Hosted/Allowance/Laws.antt =====
-- A hosted agent stays under its ceiling (packages/hosted/src/allowance.ts).
use square.Base.{
  ◌<◌, ◌++◌, ap, ℕ, ◌+◌, ◌≤◌, ◌≡◌, refl, ◌↔◌, inl, inr, true, false, ◌&&◌, Option, none, some, List,
  [], ◌∷◌, nat_eq, nat_beq, nat_beq_iff, sum, arith, Bool-cases, if◌then◌else◌, any,
}
use square.Base.JsMap
use square.Base.JsMap.{JsMap, keys, values, IsKeyed, get-delete, set_new}
use square.Hosted.Allowance.{
  PolicyAllowance, Chain, funded, is_settled, settle_keys, settle, view, exceeds, admit,
}

settle_keys-kept :
    (chain : Chain) (ks : List ℕ) (m : JsMap ℕ ℕ) (id : ℕ)
    → JsMap.get id (settle_keys chain ks m)
      ≡ (if is_settled chain id && any (λ k. nat_beq k id) ks then none else JsMap.get id m)
unfolding settle_keys
settle_keys-kept chain [] m id = ground arith
settle_keys-kept chain (k ∷ ks) m id = elim (Bool-cases (nat_beq k id)) [
  | inl same ↦
      let e = (nat_beq_iff k id).0 same in
      ground (
        arith,
        e,
        settle_keys-kept chain ks (if is_settled chain k then JsMap.delete k m else m) id,
        get-delete k id m,
      )
  | inr other ↦ ground (
    arith,
    settle_keys-kept chain ks (if is_settled chain k then JsMap.delete k m else m) id,
    get-delete k id m,
  )
]

keys-get :
    (m : JsMap ℕ ℕ) (id : ℕ) → any (λ k. nat_beq k id) (keys m) ≡ false → JsMap.get id m ≡ none
unfolding JsMap.get
keys-get [] id h = refl
keys-get ((k, v) ∷ m) id h = ground (arith, keys-get m id)

-- A view drops the jobs that the chain shows settled, and keeps every other with its budget.
pub view-settles :
    (chain : Chain) (a : PolicyAllowance) (id : ℕ)
    → JsMap.get id (view chain a).1.in_flight
      ≡ (if is_settled chain id then none else JsMap.get id a.in_flight)
unfolding view settle
view-settles chain a id =
    ground
      (arith, settle_keys-kept chain (keys a.in_flight) a.in_flight id, keys-get a.in_flight id)

-- The amount is at most the most for one job, where there is one.
abbrev pub IsWithin : ℕ → Option ℕ → Type 0
IsWithin amount none = Unit
IsWithin amount (some most) = amount ≤ most

exceeds_iff : (amount : ℕ) (most : Option ℕ) → (exceeds amount most ≡ false) ↔ IsWithin amount most
unfolding exceeds
exceeds_iff amount none = (λ h. tt, λ h. refl)
exceeds_iff amount (some most) = (λ h. ground arith, λ h. ground arith)

-- A positive amount is admitted exactly when there is a policy, the amount is within the limit for one
-- job, and with what was spent today and the budgets of the jobs still in flight it is within the
-- daily limit.
pub admit_iff :
    (chain : Chain) (a : PolicyAllowance) (amount : ℕ)
    → 0 < amount
    → ((admit chain a amount).0 ≡ none) ↔ (
        (chain.committed ≡ true)
        × IsWithin amount a.max_per_job
        × (chain.spent_today + sum (values (settle chain a).in_flight) + amount
            ≤ chain.daily_limit))
unfolding admit view
admit_iff chain a amount positive = (
  λ h. (ground arith, (exceeds_iff amount a.max_per_job).0 (ground arith), ground arith),
  λ (policy, within, fits).
      let small = (exceeds_iff amount a.max_per_job).1 within in ground (arith, small),
)

sum-values-append :
    (m : JsMap ℕ ℕ) (id budget : ℕ)
    → sum (values (m ++ (id, budget) ∷ [])) ≡ sum (values m) + budget
sum-values-append [] id budget = omega arith
sum-values-append ((k, v) ∷ m) id budget = omega (arith, sum-values-append m id budget)

admit-settles :
    (chain : Chain) (a : PolicyAllowance) (amount : ℕ)
    → (admit chain a amount).0 ≡ none
    → (admit chain a amount).1 ≡ settle chain a
unfolding admit view
admit-settles chain a amount admitted = ground arith

-- A positive amount that was admitted and funds a new job keeps what was spent today and all that is
-- in flight, the new job included, within the daily limit.
pub admit-funded :
    (chain : Chain) (a : PolicyAllowance) (amount id : ℕ)
    → 0 < amount
    → (admit chain a amount).0 ≡ none
    → JsMap.get id (admit chain a amount).1.in_flight ≡ none
    → chain.spent_today + sum (values (funded (admit chain a amount).1 id amount).in_flight)
      ≤ chain.daily_limit
admit-funded chain a amount id positive admitted fresh =
    let b = (admit chain a amount).1 in
    let settled : b ≡ settle chain a = admit-settles chain a amount admitted in
    let (policy, within, fits) = (admit_iff chain a amount positive).0 admitted in
    unfold funded in
    rw (set_new id amount b.in_flight fresh) (
      omega (
        arith,
        sum-values-append b.in_flight id amount,
        fits,
        ap (λ t. sum (values t.in_flight)) settled,
      ))
