-- ===== src/Mcp/Cache/Laws.antt =====
-- What the cache of tool results answers (packages/mcp/src/cache.ts).
use square.Base.{
  ltb, subst, some_eq, ℕ, ◌+◌, ◌≤◌, ◌<◌, ◌≡◌, ◌≢◌, inl, inr, true, false, Option, some, List, [],
  ◌∷◌, String, string_eq, leb, get_or, length, arith, Option-cases, Bool-cases, eq_iff,
}
use square.Base.JsMap
use square.Base.JsMap.{JsMap, IsKeyed, delete-IsKeyed, length-delete, length-delete-le, get-delete}
use square.Base.Lru.{
  touch, evict, get-touch, touch-IsKeyed, length-touch, length-evict, evict-IsKeyed, get-evict,
}
use square.Mcp.Cache.{
  ToolSuccess, ToolResult, success, failed, Entry, ToolResultCache, new_cache, get, set, clear,
}

pub record IsBounded (c : ToolResultCache) : Type 0 where
  pub keyed : IsKeyed c.entries
  pub fits : length c.entries ≤ c.max_entries
  pub some_room : 0 < c.max_entries

abbrev pub answer_of : ToolSuccess → ToolSuccess
answer_of r = record r { cached = true; duration_ms = 0 }

-- Whatever a cache answers for a key after a write under another key, it answered before it.
pub get-set_ne :
    (c : ToolResultCache) (key j : String) (r : ToolResult) (now later : ℕ) (a : ToolSuccess)
    → IsBounded c
    → j ≢ key
    → (get (set c key r now) j later).0 ≡ some a
    → (get c j later).0 ≡ some a
unfolding set
get-set_ne c key j (failed name ms cached text failure retryable) now later a v n h = h
get-set_ne c key j (success r) now later a v n h =
    let e : Entry = record { result = record r { cached = false }; expires_at = now + c.ttl_ms } in
    let t : JsMap String Entry = touch key e c.entries in
    elim (Option-cases (JsMap.get j (evict c.max_entries t))) [
      | inl gone ↦ unfold get in ground arith
      | inr (x, found) ↦
          let before =
            get-evict c.max_entries j x t (touch-IsKeyed key e c.entries v.keyed) found in
          unfold get in ground (arith, get-touch key j e c.entries, eq_iff key j, before)
    ]

get-IsBounded :
    (c : ToolResultCache) (key : String) (now : ℕ) → IsBounded c → IsBounded (get c key now).1
unfolding get
get-IsBounded c key now v = elim (Option-cases (JsMap.get key c.entries)) [
  | inl missing ↦ rw (missing, get) v
  | inr (x, found) ↦ elim (Bool-cases (leb x.expires_at now)) [
    | inl stale ↦
        rw (found, get)
          (rw stale (record {
            keyed = delete-IsKeyed key c.entries v.keyed;
            fits = omega (arith, v.fits, length-delete-le key c.entries);
            some_room = v.some_room;
          }))
    | inr fresh ↦
        rw (found, get)
          (rw fresh (record {
            keyed = touch-IsKeyed key x c.entries v.keyed;
            fits = omega (
              arith,
              v.fits,
              length-touch key x c.entries,
              length-delete key c.entries x v.keyed found,
            );
            some_room = v.some_room;
          }))
  ]
]

set-IsBounded :
    (c : ToolResultCache) (key : String) (r : ToolResult) (now : ℕ)
    → IsBounded c
    → IsBounded (set c key r now)
unfolding set
set-IsBounded c key (failed name ms cached text failure retryable) now v = v
set-IsBounded c key (success r) now v = record {
  keyed = evict-IsKeyed c.max_entries _ (touch-IsKeyed key _ c.entries v.keyed);
  fits = length-evict c.max_entries _;
  some_room = v.some_room;
}

pub data CacheCall : Type 0 where
  get_call : String → ℕ → CacheCall
  set_call : String → ToolResult → ℕ → CacheCall
  clear_call : CacheCall

unfoldable pub perform : ToolResultCache → List CacheCall → ToolResultCache
perform c [] = c
perform c (get_call key now ∷ ops) = perform (get c key now).1 ops
perform c (set_call key r now ∷ ops) = perform (set c key r now) ops
perform c (clear_call ∷ ops) = perform (clear c) ops

perform-keeps :
    (ops : List CacheCall) (c : ToolResultCache) → IsBounded c → IsBounded (perform c ops)
unfolding perform clear
perform-keeps [] c v = v
perform-keeps (get_call key now ∷ ops) c v = perform-keeps ops _ (get-IsBounded c key now v)
perform-keeps (set_call key r now ∷ ops) c v = perform-keeps ops _ (set-IsBounded c key r now v)
perform-keeps (clear_call ∷ ops) c v =
    perform-keeps ops _ (record { keyed = tt; fits = omega arith; some_room = v.some_room })

new_cache-IsBounded :
    (ttl max : Option ℕ) (c : ToolResultCache) → new_cache ttl max ≡ some c → IsBounded c
unfolding new_cache
new_cache-IsBounded ttl max c h = elim (Bool-cases (ltb (get_or max 256) 1)) [
  | inl small ↦ absurd (ground arith)
  | inr large ↦
      subst IsBounded (some_eq (rw large at h))
        (record { keyed = tt; fits = omega arith; some_room = ground arith })
]

-- A cache that the constructor made has, after any calls, at most one entry for a key and no more
-- entries than its bound, which is at least one.
pub perform-IsBounded :
    (ttl max : Option ℕ) (c : ToolResultCache) (ops : List CacheCall)
    → new_cache ttl max ≡ some c
    → IsBounded (perform c ops)
perform-IsBounded ttl max c ops h = perform-keeps ops c (new_cache-IsBounded ttl max c h)
