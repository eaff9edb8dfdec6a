-- ===== src/Hardening/RateLimit/Bounds.antt =====
-- The store in memory stays bounded, and evicts in the order of use
-- (packages/hardening/src/rateLimit.ts).
use native.Mathlib.Nat.{div-mul-le_self, lt-div-mul-add, div-eq_of_lt-le, le_trans}
use square.Base.{
  subst, ◌↔◌, ap, refl, zero, suc, ℕ, ◌+◌, ◌-◌, ◌*◌, ◌/◌, ◌≤◌, ◌<◌, ◌≡◌, inl, inr, Option, none,
  some, List, [], ◌∷◌, ◌++◌, String, string_eq, arith, length, drop, nat_beq, Option-cases,
  Bool-cases,
}
use square.Base.JsMap
use square.Base.JsMap.{JsMap, IsKeyed, length-delete, get-delete}
use square.Base.Lru.{
  touch, touch-IsKeyed, evict-IsKeyed, length-evict, length-touch, touch_lem, evict-append,
}
use square.Hardening.RateLimit.{
  Window, MemoryStore, RateLimiterOptions, increment, fresh_window, window_start,
  memory_rate_limit_store,
}

pub record IsBounded (most : ℕ) (s : MemoryStore) : Type 0 where
  pub keyed : IsKeyed s.windows
  pub fits : length s.windows ≤ most
  pub bound_is : s.max_entries ≡ most
  pub some_room : 0 < most

-- The entries that a store is made for: 10000 where none are given, and never none.
abbrev pub most_of : Option ℕ → ℕ
most_of none = 10000
most_of (some zero) = 1
most_of (some (suc n)) = suc n

pub memory_rate_limit_store-IsBounded :
    (e : Option ℕ) → IsBounded (most_of e) (memory_rate_limit_store e)
unfolding memory_rate_limit_store
memory_rate_limit_store-IsBounded none = record {
  keyed = tt;
  fits = omega arith;
  bound_is = refl;
  some_room = omega arith;
}
memory_rate_limit_store-IsBounded (some zero) = record {
  keyed = tt;
  fits = omega arith;
  bound_is = refl;
  some_room = omega arith;
}
memory_rate_limit_store-IsBounded (some (suc n)) = record {
  keyed = tt;
  fits = omega arith;
  bound_is = omega arith;
  some_room = omega arith;
}

fresh_window-IsBounded :
    (most : ℕ) (b : String) (start : ℕ) (s : MemoryStore)
    → IsBounded most s
    → IsBounded most (fresh_window b start s).1
unfolding fresh_window
fresh_window-IsBounded most b start s v =
    let w : Window = record { window_start = start; count = 1 } in
    record {
      keyed = evict-IsKeyed s.max_entries _ (touch-IsKeyed b w s.windows v.keyed);
      fits = omega (arith, length-evict s.max_entries (touch b w s.windows), v.bound_is);
      bound_is = v.bound_is;
      some_room = v.some_room;
    }

increment-IsBounded :
    (most : ℕ) (b : String) (start : ℕ) (s : MemoryStore)
    → IsBounded most s
    → IsBounded most (increment b start s).1
unfolding increment
increment-IsBounded most b start s v = elim (Option-cases (JsMap.get b s.windows)) [
  | inl missing ↦ rw (missing, increment) (fresh_window-IsBounded most b start s v)
  | inr (w, found) ↦ elim (Bool-cases (nat_beq w.window_start start)) [
    | inr other ↦ rw (found, increment) (rw other (fresh_window-IsBounded most b start s v))
    | inl same ↦ rw (found, increment) (rw same (counted-IsBounded w found))
  ]
]
  where
    counted-IsBounded :
        (w : Window)
        → JsMap.get b s.windows ≡ some w
        → IsBounded most
            (record s { windows = touch b (record w { count = w.count + 1 }) s.windows })
    counted-IsBounded w found = record {
      keyed = touch-IsKeyed b _ s.windows v.keyed;
      fits = omega (
        arith,
        v.fits,
        length-touch b (record w { count = w.count + 1 }) s.windows,
        length-delete b s.windows w v.keyed found,
      );
      bound_is = v.bound_is;
      some_room = v.some_room;
    }

unfoldable pub increments : MemoryStore → List (String × ℕ) → MemoryStore
increments s [] = s
increments s ((b, start) ∷ rs) = increments (increment b start s).1 rs

increments-IsBounded :
    (most : ℕ) (rs : List (String × ℕ)) (s : MemoryStore)
    → IsBounded most s
    → IsBounded most (increments s rs)
unfolding increments
increments-IsBounded most [] s v = v
increments-IsBounded most ((b, start) ∷ rs) s v =
    increments-IsBounded most rs (increment b start s).1 (increment-IsBounded most b start s v)

-- Whatever requests come, of whatever windows, the store holds at most one entry for a bucket and
-- no more entries than it was made for: the number given, 10000 where none is, and one where it is
-- zero.
pub increments-new :
    (entries : Option ℕ) (rs : List (String × ℕ))
    → IsBounded (most_of entries) (increments (memory_rate_limit_store entries) rs)
increments-new entries rs =
    increments-IsBounded (most_of entries) rs _ (memory_rate_limit_store-IsBounded entries)

-- A request that opens a window writes its entry at the end and, to stay within the bound, drops
-- entries from the front alone: the buckets used longest ago.
pub increment_evicts :
    (b : String) (start : ℕ) (s : MemoryStore)
    → 0 < s.max_entries
    → JsMap.get b s.windows ≡ none
    → (increment b start s).1.windows
      ≡ drop (length (JsMap.delete b s.windows) + 1 - s.max_entries) (JsMap.delete b s.windows)
        ++ (b, record { window_start = start; count = 1 }) ∷ []
unfolding increment fresh_window
increment_evicts b start s room missing =
    rw (missing, increment) (rw touch_lem (evict-append s.max_entries _ _ room))

-- The window of a time has begun and has not ended, and a later time has the same window start
-- exactly if it comes before the end of the window.
pub window_start_lem :
    (o : RateLimiterOptions) (now later : ℕ)
    → 0 < o.window_ms
    → now ≤ later
    → (window_start o now ≤ now)
      × (now < window_start o now + o.window_ms)
      × ((window_start o later ≡ window_start o now) ↔ (later < window_start o now + o.window_ms))
unfolding window_start
window_start_lem o now later h le =
    let q = now / o.window_ms in
    let after : later < later / o.window_ms * o.window_ms + o.window_ms = lt-div-mul-add h in
    (
      div-mul-le_self now o.window_ms,
      lt-div-mul-add h,
      (
        λ same. subst (λ n. later < n + o.window_ms) same after,
        λ lt.
            ap (λ n. n * o.window_ms)
              (div-eq_of_lt-le {k = q} o.window_ms (le_trans (div-mul-le_self now o.window_ms) le)
                (grind arith)),
      ),
    )
