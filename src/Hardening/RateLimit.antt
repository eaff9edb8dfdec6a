-- ===== src/Hardening/RateLimit.antt =====
-- packages/hardening/src/rateLimit.ts: the fixed-window limiter and its store in memory.
pub mod Table
pub mod Count
pub mod Bounds
use square.Base.{
  ℕ, ◌+◌, ◌-◌, ◌*◌, ◌/◌, max, Bool, true, false, not, ◌||◌, Option, none, some, List, [], ◌∷◌,
  String, string_eq, leb, ltb, nat_beq, if◌then◌else◌, get_or, length,
}
use square.Base.JsMap
use square.Base.JsMap.{JsMap}
use square.Base.Lru.{touch, evict}

pub record RateLimitStore (S : Type 0) : Type 0 where
  pub increment : String → ℕ → S → ℕ × S

pub record RateLimitDecision : Type 0 where
  pub allowed : Bool
  pub limit : ℕ
  pub remaining : ℕ
  pub reset_at : ℕ
  pub count : ℕ

pub record RateLimiterOptions : Type 0 where
  pub limit : ℕ
  pub window_ms : ℕ

unfoldable pub window_start : RateLimiterOptions → ℕ → ℕ
window_start o now = now / o.window_ms * o.window_ms

-- `check` of the limiter, for the key of the request and the clock's answer.
unfoldable pub check :
    {S : Type 0} → RateLimitStore S → RateLimiterOptions → String → ℕ → S → RateLimitDecision × S
check store o key now s =
    let (count, s') = store.increment key (window_start o now) s in
    (
      record {
        allowed = leb count o.limit;
        limit = o.limit;
        remaining = o.limit - count;
        reset_at = window_start o now + o.window_ms;
        count = count;
      },
      s',
    )

-- `none` where the constructor throws a RangeError.
unfoldable pub rate_limiter :
    {S : Type 0}
    → RateLimitStore S
    → RateLimiterOptions
    → Option (String → ℕ → S → RateLimitDecision × S)
rate_limiter store o =
    if not (ltb 0 o.limit) || not (ltb 0 o.window_ms) then none else some (check store o)

pub record Window : Type 0 where
  pub window_start : ℕ
  pub count : ℕ

abbrev pub memory_rate_limit_max_entries : ℕ
memory_rate_limit_max_entries = 10000

pub record MemoryStore : Type 0 where
  pub max_entries : ℕ
  pub windows : JsMap String Window

unfoldable pub memory_rate_limit_store : Option ℕ → MemoryStore
memory_rate_limit_store max_entries = record {
  max_entries = max 1 (get_or max_entries memory_rate_limit_max_entries);
  windows = [];
}

fresh_window : String → ℕ → MemoryStore → ℕ × MemoryStore
fresh_window bucket start s = (
  1,
  record s {
    windows =
        evict s.max_entries (touch bucket (record { window_start = start; count = 1 }) s.windows);
  },
)

unfoldable pub increment : String → ℕ → MemoryStore → ℕ × MemoryStore
unfolding fresh_window
increment bucket start s = elim (JsMap.get bucket s.windows) [
  | none ↦ fresh_window bucket start s
  | some current ↦
      if nat_beq current.window_start start
      then (
        current.count + 1,
        record s {
          windows = touch bucket (record current { count = current.count + 1 }) s.windows;
        },
      )
      else fresh_window bucket start s
]

prune_windows : ℕ → JsMap String Window → JsMap String Window
prune_windows older [] = []
prune_windows older ((bucket, w) ∷ m) =
    let rest = prune_windows older m in
    if ltb w.window_start older then rest else (bucket, w) ∷ rest

unfoldable pub prune : ℕ → MemoryStore → MemoryStore
unfolding prune_windows
prune older s = record s { windows = prune_windows older s.windows }

pub size : MemoryStore → ℕ
size s = length s.windows

abbrev pub memory_store : RateLimitStore MemoryStore
memory_store = record { increment = increment }

pub data LimitOutcome : Type 0 where
  rejected : ℕ → LimitOutcome
  passed : ℕ → ℕ → ℕ → LimitOutcome

-- The middleware after the check: `Math.ceil` of the rest of the window in seconds. A rejection
-- carries `retryAfterSeconds`, a pass the three headers; the second reading of the clock is later.
unfoldable pub rate_limit_outcome : RateLimitDecision → ℕ → LimitOutcome
rate_limit_outcome d now =
    let reset_seconds = (d.reset_at - now + 999) / 1000 in
    if not d.allowed then rejected reset_seconds else passed d.limit d.remaining reset_seconds
