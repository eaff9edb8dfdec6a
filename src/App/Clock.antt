-- ===== src/App/Clock.antt =====
-- app/src/lib/clock.ts: the chain's time, from the offset of the local clock.
use square.Base.{
  ℕ, ◌+◌, ◌/◌, ◌≡◌, Bool, true, false, Option, none, some, ltb, get_or, if◌then◌else◌, arith,
}
use square.Base.Int.{ℤ, pos, negsuc, sub_ℕ, pos_part, neg_part, ◌+ℤ◌}

abbrev pub clock_skew_notice_seconds : ℕ
clock_skew_notice_seconds = 30

pub record ClockSkew : Type 0 where
  pub seconds : ℕ
  pub ahead : Bool

unfoldable pub chain_clock_offset : ℕ → ℕ → ℤ
chain_clock_offset chain_timestamp local_ms = sub_ℕ chain_timestamp (local_ms / 1000)

unfoldable pub chain_now : ℤ → ℕ → ℤ
chain_now offset_seconds local_ms = pos (local_ms / 1000) +ℤ offset_seconds

is_negative : ℤ → Bool
is_negative (pos n) = false
is_negative (negsuc n) = true

unfoldable pub clock_skew : ℤ → Option ℕ → Option ClockSkew
unfolding is_negative
clock_skew offset_seconds threshold =
    let seconds = pos_part offset_seconds + neg_part offset_seconds in
    if ltb seconds (get_or threshold clock_skew_notice_seconds)
    then none
    else some (record { seconds = seconds; ahead = is_negative offset_seconds })

-- By the offset taken at a block, the chain's time at that moment is the block's.
chain_now-chain_clock_offset :
    (chain_timestamp local_ms : ℕ)
    → chain_now (chain_clock_offset chain_timestamp local_ms) local_ms ≡ pos chain_timestamp
unfolding chain_now chain_clock_offset ◌+ℤ◌
chain_now-chain_clock_offset chain_timestamp local_ms = ground arith
