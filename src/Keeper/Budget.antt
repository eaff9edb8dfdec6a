-- ===== src/Keeper/Budget.antt =====
-- The least budget worth settling (services/keeper/src/decide.ts, `minimumProfitableBudget`).
use native.Mathlib.Nat.{div-mul-le_self, lt-div-mul-add, le-div_iff_mul-le, div-eq_of_lt-le}
use square.Base.{
  ℕ, ◌+◌, ◌*◌, ◌/◌, ◌%◌, ◌≤◌, ◌<◌, ◌≡◌, ◌≢◌, ◌↔◌, inl, inr, Bool-cases, true, false, some, arith,
  ltb, if◌then◌else◌,
}
use square.Keeper.Decide.{
  full_bps, keeper_fee, gas_cost_in_usdc, profitable, minimum_profitable_budget,
}

-- The cost with its margin, rounded down.
abbrev pub required : ℕ → ℕ → ℕ → ℕ
required price gas margin = gas_cost_in_usdc price gas * (full_bps + margin) / full_bps

-- The division that the code rounds up by hand.
abbrev ceil_div : ℕ → ℕ → ℕ
ceil_div x d = if ltb (x / d * d) x then x / d + 1 else x / d

mul_mono : (a b d : ℕ) → a ≤ b → a * d ≤ b * d
mul_mono a b d h = grind arith

ceil_div_iff : (x d b : ℕ) → 0 < d → (ceil_div x d ≤ b) ↔ (x ≤ b * d)
ceil_div_iff x d b h = (
  λ k. ground (
    arith,
    div-mul-le_self x d,
    lt-div-mul-add {a = x} h,
    mul_mono (x / d + 1) b d,
    mul_mono (x / d) b d,
  ),
  λ k. ground (
    arith,
    div-mul-le_self x d,
    lt-div-mul-add {a = x} h,
    mul_mono b (x / d) d,
    mul_mono (b + 1) (x / d) d,
  ),
)

-- The budget returned is the least whose fee reaches the required amount.
pub minimum_profitable_budget-IsLeast :
    (fee_bp price gas margin least : ℕ)
    → minimum_profitable_budget fee_bp price gas margin ≡ some least
    → (budget : ℕ) → (least ≤ budget) ↔ (required price gas margin ≤ keeper_fee budget fee_bp)
unfolding minimum_profitable_budget keeper_fee
minimum_profitable_budget-IsLeast fee_bp price gas margin least h budget =
    let x : ℕ = required price gas margin * full_bps in
    let (to, from) = ceil_div_iff x fee_bp budget (ground arith) in
    (
      λ k. (le-div_iff_mul-le (omega arith)).1 (to (ground arith)),
      λ k. ground (arith, from ((le-div_iff_mul-le (omega arith)).0 k)),
    )

-- A budget whose fee covers the gas with the margin is never below the one returned.
pub profitable-minimum_le :
    (fee_bp price gas margin least budget : ℕ)
    → minimum_profitable_budget fee_bp price gas margin ≡ some least
    → profitable (keeper_fee budget fee_bp) (gas_cost_in_usdc price gas) margin ≡ true
    → least ≤ budget
unfolding profitable
profitable-minimum_le fee_bp price gas margin least budget h p =
    (minimum_profitable_budget-IsLeast fee_bp price gas margin least h budget).1 (ground arith)

-- With no margin the budget returned is exactly the threshold: a budget is profitable if and only
-- if it is at least that.
pub minimum_profitable_budget-exact :
    (fee_bp price gas least : ℕ)
    → minimum_profitable_budget fee_bp price gas 0 ≡ some least
    → (budget : ℕ)
    → (profitable (keeper_fee budget fee_bp) (gas_cost_in_usdc price gas) 0 ≡ true)
      ↔ (least ≤ budget)
minimum_profitable_budget-exact fee_bp price gas least h budget = (
  profitable-minimum_le fee_bp price gas 0 least budget h,
  λ k.
      unfold profitable in
      ground (arith, (minimum_profitable_budget-IsLeast fee_bp price gas 0 least h budget).0 k),
)

ceil_div_lt : (x d n : ℕ) → 0 < d → x + d ≤ n → ceil_div x d * d < n
ceil_div_lt x d n h k = elim (Bool-cases (ltb (x / d * d) x)) [
  | inl more ↦ rw more (omega (arith, k, mul_add_one (x / d) d, less x (x / d * d) more))
  | inr exact ↦ rw exact (omega (arith, k, h, div-mul-le_self x d))
]
  where
    less : (a b : ℕ) → ltb b a ≡ true → b < a
    less a b c = ground arith

    mul_add_one : (a b : ℕ) → (a + 1) * b ≡ a * b + b
    mul_add_one a b = grind arith

-- Rounding a budget up to the least whose fee reaches an amount makes the fee that amount.
ceil_div_fee :
    (r fee_bp : ℕ)
    → 0 < fee_bp
    → fee_bp ≤ full_bps
    → ceil_div (r * full_bps) fee_bp * fee_bp / full_bps ≡ r
ceil_div_fee r fee_bp some_fee whole =
    let x : ℕ = r * full_bps in
    div-eq_of_lt-le {k = r} full_bps
      ((ceil_div_iff x fee_bp (ceil_div x fee_bp) some_fee).0 (omega arith))
      (omega
        (arith, ceil_div_lt x fee_bp (r * full_bps + full_bps) some_fee (omega (arith, whole))))

-- Where the cost with its margin is no whole number of units, the budget returned is not profitable, for
-- every fee that takes a part of the budget or all of it.
pub minimum_profitable_budget-unprofitable :
    (fee_bp price gas margin : ℕ)
    → 0 < fee_bp
    → fee_bp ≤ full_bps
    → gas_cost_in_usdc price gas * (full_bps + margin) % full_bps ≢ 0
    → (least : ℕ) × (minimum_profitable_budget fee_bp price gas margin ≡ some least)
      × (profitable (keeper_fee least fee_bp) (gas_cost_in_usdc price gas) margin ≡ false)
unfolding minimum_profitable_budget profitable keeper_fee
minimum_profitable_budget-unprofitable fee_bp price gas margin some_fee whole h = (
  ceil_div (required price gas margin * full_bps) fee_bp,
  ground arith,
  ground (arith, ceil_div_fee (required price gas margin) fee_bp some_fee whole),
)
