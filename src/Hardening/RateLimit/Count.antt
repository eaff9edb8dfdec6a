-- ===== src/Hardening/RateLimit/Count.antt =====
-- The store in memory counts the requests of a window, while the buckets fit
-- (packages/hardening/src/rateLimit.ts).
use square.Base.{
  ℕ, suc, ◌+◌, ◌*◌, ◌/◌, ◌≤◌, ◌<◌, ◌≡◌, refl, true, Option, none, List, String, string_eq, ◌==◌,
  arith, length, any, ap, ltb, ◌-◌, ◌∙◌,
}
use square.Base.JsMap
use square.Base.JsMap.{JsMap, IsKeyed}
use square.Hardening.RateLimit.Bounds.{most_of, memory_rate_limit_store-IsBounded}
use square.Hardening.RateLimit.{
  MemoryStore, RateLimiterOptions, increment, check, memory_rate_limit_store, memory_store,
  window_start,
}
use square.Hardening.RateLimit.Table.{
  Tracks, increment_lem, serve, hits_in, IsClocked, IsListed, table, serve-Tracks, count_at,
  IsBefore, counted_in_count, table_count,
}

empty-Tracks :
    (us : List String) (entries : Option ℕ)
    → Tracks us (λ b. none) (memory_rate_limit_store entries)
unfolding memory_rate_limit_store JsMap.get
empty-Tracks us entries = record { keyed = tt; within = λ b n. absurd (n refl); held = λ b. refl }

-- Where a window has a length, the keys in use fit into the store and the clock does not go back, a request is answered by the
-- number of earlier requests for its key in its window, in whatever windows the others were made: it is
-- allowed exactly if that number is below the limit, the rest of the allowance is reported, and the
-- window ends one window length after its start.
pub check_exact :
    (o : RateLimiterOptions) (us : List String) (entries : Option ℕ) (rs : List (String × ℕ))
    (key : String) (now : ℕ)
    → 0 < o.window_ms
    → length us ≤ most_of entries
    → IsListed us rs
    → any (λ u. u == key) us ≡ true
    → IsClocked 0 rs now
    → (check memory_store o key now (serve o (memory_rate_limit_store entries) rs)).0 ≡ record {
      allowed = ltb (hits_in o.window_ms now rs key) o.limit;
      limit = o.limit;
      remaining = o.limit - suc (hits_in o.window_ms now rs key);
      reset_at = now / o.window_ms * o.window_ms + o.window_ms;
      count = suc (hits_in o.window_ms now rs key);
    }
unfolding check window_start
check_exact o us entries rs key now positive room h listed clocked =
    let start : ℕ = window_start o now in
    let s0 : MemoryStore = memory_rate_limit_store entries in
    let fits : length us ≤ s0.max_entries =
      omega (arith, room, (memory_rate_limit_store-IsBounded entries).bound_is) in
    let (t, size) = serve-Tracks o us rs (λ b. none) s0 (empty-Tracks us entries) fits h in
    let count : (increment key start (serve o s0 rs)).0 ≡ suc (hits_in o.window_ms now rs key) =
      ap (λ p. p.0)
        (increment_lem us start (table o (λ b. none) rs) (serve o s0 rs) t key listed
          (rw size fits))
      ∙ counted_in_count start (table o (λ b. none) rs key)
      ∙ ap (λ n. suc n)
          (unfold count_at IsBefore in
            table_count o positive rs (λ b. none) 0 now key (λ j. tt) clocked ∙ omega arith) in
    rw count (ground arith)
