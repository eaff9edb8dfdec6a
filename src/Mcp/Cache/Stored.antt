-- ===== src/Mcp/Cache/Stored.antt =====
-- How long the cache of tool results answers what was stored (packages/mcp/src/cache.ts).
use square.Base.{
  ℕ, ◌+◌, ◌≤◌, ◌≡◌, ◌≢◌, ◌⊎◌, sym, ap, subst, ◌∙◌, inl, inr, true, false, none, some, List, [], ◌∷◌,
  String, string_eq, leb, length, if◌then◌else◌, arith, Option-cases, Bool-cases, some_eq, All,
  eq_iff, any, ◌==◌, beq_self,
}
use square.Base.JsMap
use square.Base.JsMap.{JsMap, IsKeyed, delete-IsKeyed, get-delete}
use square.Base.Lru.{touch, evict, get-touch, touch-IsKeyed, evict_fits, length-le_universe}
use square.Mcp.Cache.{ToolSuccess, ToolResult, success, failed, Entry, ToolResultCache, get, set}
use square.Mcp.Cache.Laws.{CacheCall, get_call, set_call, clear_call, perform, answer_of}

-- The keys of a cache are of a list, and it has room for them.
pub record IsRoomy (keys : List String) (c : ToolResultCache) : Type 0 where
  pub keyed : IsKeyed c.entries
  pub within : (j : String) → JsMap.get j c.entries ≢ none → any (λ k. k == j) keys ≡ true
  pub room : length keys ≤ c.max_entries

module _ (keys : List String) (c : ToolResultCache) (r : IsRoomy keys c) (key : String)
    (listed : any (λ k. k == key) keys ≡ true) (x : Entry) where
  abbrev touched : ToolResultCache
  touched = record c { entries = touch key x c.entries }

  touched-IsRoomy : IsRoomy keys touched
  touched-IsRoomy = record {
    keyed = touch-IsKeyed key x c.entries r.keyed;
    within = λ j n. ground (arith, get-touch key j x c.entries, eq_iff key j, r.within j);
    room = r.room;
  }

  touched_fits : evict c.max_entries (touch key x c.entries) ≡ touch key x c.entries
  touched_fits = evict_fits c.max_entries (touch key x c.entries) (
      omega (
        arith,
        length-le_universe keys (touch key x c.entries) touched-IsRoomy.keyed
            touched-IsRoomy.within,
        r.room,
      ))

deleted-IsRoomy :
    (keys : List String) (c : ToolResultCache) (key : String)
    → IsRoomy keys c
    → IsRoomy keys (record c { entries = JsMap.delete key c.entries })
deleted-IsRoomy keys c key r = record {
  keyed = delete-IsKeyed key c.entries r.keyed;
  within = λ j n. ground (arith, get-delete key j c.entries, r.within j);
  room = r.room;
}

-- Calls that leave a key's entry: reads not after a time, and writes of other keys, of the list.
abbrev pub IsQuiet : List String → String → ℕ → CacheCall → Type 0
IsQuiet keys key later (get_call j now) = now ≤ later
IsQuiet keys key later (set_call j result now) = (j ≢ key) × (any (λ k. k == j) keys ≡ true)
IsQuiet keys key later clear_call = ⊥

-- The entry is there, or it is stale at the time and gone.
abbrev IsStored : String → Entry → ℕ → ToolResultCache → Type 0
IsStored key x later c =
    (JsMap.get key c.entries ≡ some x) ⊎ ((JsMap.get key c.entries ≡ none) × (x.expires_at ≤ later))

pub record IsHeld (keys : List String) (key : String) (x : Entry) (later : ℕ) (c : ToolResultCache)
    : Type 0 where
  pub roomy : IsRoomy keys c
  pub stored : IsStored key x later c

stale-IsStored :
    (key j : String) (x w : Entry) (later : ℕ) (c : ToolResultCache)
    → JsMap.get j c.entries ≡ some w
    → w.expires_at ≤ later
    → IsStored key x later c
    → IsStored key x later (record c { entries = JsMap.delete j c.entries })
stale-IsStored key j x w later c found stale h = elim (Bool-cases (j == key)) [
  | inl same ↦ inr (
    ground (arith, get-delete j key c.entries),
    elim h [ inl there ↦ expired ((eq_iff j key).0 same) there | inr (gone, over) ↦ over ],
  )
  | inr other ↦
      let kept : JsMap.get key (JsMap.delete j c.entries) ≡ JsMap.get key c.entries =
        ground (arith, get-delete j key c.entries) in
      subst (λ o. (o ≡ some x) ⊎ ((o ≡ none) × (x.expires_at ≤ later))) (sym kept) h
]
  where
    expired : j ≡ key → JsMap.get key c.entries ≡ some x → x.expires_at ≤ later
    expired same there =
        subst (λ e. e.expires_at ≤ later)
          (some_eq (sym found ∙ ap (λ k. JsMap.get k c.entries) same ∙ there)) stale

touched-IsStored :
    (key j : String) (x w : Entry) (later : ℕ) (c : ToolResultCache)
    → (j ≢ key) ⊎ (JsMap.get j c.entries ≡ some w)
    → IsStored key x later c
    → IsStored key x later (record c { entries = touch j w c.entries })
touched-IsStored key j x w later c same h =
    subst (λ o. (o ≡ some x) ⊎ ((o ≡ none) × (x.expires_at ≤ later))) (sym kept) h
  where
    kept : JsMap.get key (touch j w c.entries) ≡ JsMap.get key c.entries
    kept = elim (Bool-cases (j == key)) [
      | inr other ↦ ground (arith, get-touch j key w c.entries)
      | inl is ↦ elim same [
        | inl n ↦ absurd (n ((eq_iff j key).0 is))
        | inr found ↦
            ground (arith, get-touch j key w c.entries)
            ∙ sym found
            ∙ ap (λ k. JsMap.get k c.entries) ((eq_iff j key).0 is)
      ]
    ]

found_listed :
    (keys : List String) (c : ToolResultCache) (j : String) (w : Entry)
    → IsRoomy keys c
    → JsMap.get j c.entries ≡ some w
    → any (λ k. k == j) keys ≡ true
found_listed keys c j w r found = r.within j (λ gone. cc)

get-IsHeld :
    (keys : List String) (key j : String) (x : Entry) (later now : ℕ) (c : ToolResultCache)
    → now ≤ later
    → IsHeld keys key x later c
    → IsHeld keys key x later (get c j now).1
unfolding get
get-IsHeld keys key j x later now c le h = elim (Option-cases (JsMap.get j c.entries)) [
  | inl missing ↦ rw (missing, get) h
  | inr (w, found) ↦ elim (Bool-cases (leb w.expires_at now)) [
    | inl stale ↦
        rw (found, get)
          (rw stale (record {
            roomy = deleted-IsRoomy keys c j h.roomy;
            stored = stale-IsStored key j x w later c found (ground arith) h.stored;
          }))
    | inr fresh ↦
        rw (found, get)
          (rw fresh (record {
            roomy = touched-IsRoomy keys c h.roomy j (found_listed keys c j w h.roomy found) w;
            stored = touched-IsStored key j x w later c (inr found) h.stored;
          }))
  ]
]

set-IsHeld :
    (keys : List String) (key j : String) (x : Entry) (later now : ℕ) (result : ToolResult)
    (c : ToolResultCache)
    → j ≢ key
    → any (λ k. k == j) keys ≡ true
    → IsHeld keys key x later c
    → IsHeld keys key x later (set c j result now)
unfolding set
set-IsHeld keys key j x later now (failed name ms cached text failure retryable) c n listed h = h
set-IsHeld keys key j x later now (success r) c n listed h =
    let w : Entry = record { result = record r { cached = false }; expires_at = now + c.ttl_ms } in
    rw (touched_fits keys c h.roomy j listed w) (record {
      roomy = touched-IsRoomy keys c h.roomy j listed w;
      stored = touched-IsStored key j x w later c (inl n) h.stored;
    })

perform-IsHeld :
    (keys : List String) (key : String) (x : Entry) (later : ℕ) (calls : List CacheCall)
    (c : ToolResultCache)
    → All (IsQuiet keys key later) calls
    → IsHeld keys key x later c
    → IsHeld keys key x later (perform c calls)
unfolding perform
perform-IsHeld keys key x later [] c quiet h = h
perform-IsHeld keys key x later (get_call j now ∷ calls) c (le, quiet) h =
    perform-IsHeld keys key x later calls (get c j now).1 quiet
      (get-IsHeld keys key j x later now c le h)
perform-IsHeld keys key x later (set_call j r now ∷ calls) c ((n, listed), quiet) h =
    perform-IsHeld keys key x later calls (set c j r now) quiet
      (set-IsHeld keys key j x later now r c n listed h)
perform-IsHeld keys key x later (clear_call ∷ calls) c (never, quiet) h = absurd never

get-IsStored :
    (key : String) (x : Entry) (later : ℕ) (c : ToolResultCache)
    → IsStored key x later c
    → (get c key later).0 ≡ (if leb x.expires_at later then none else some (answer_of x.result))
unfolding get
get-IsStored key x later c (inl there) = ground arith
get-IsStored key x later c (inr (gone, over)) = ground arith

-- A success that is stored in a cache with room for the keys in use is answered, marked as cached and with no
-- duration, until its time to live is over, and from then on not, whatever calls come in between: reads of
-- any keys up to then, and writes of other keys in use.
pub get-set_self :
    (keys : List String) (c : ToolResultCache) (key : String) (r : ToolSuccess) (now later : ℕ)
    (calls : List CacheCall)
    → IsRoomy keys c
    → any (λ k. k == key) keys ≡ true
    → All (IsQuiet keys key later) calls
    → (get (perform (set c key (success r) now) calls) key later).0
      ≡ (if leb (now + c.ttl_ms) later then none else some (answer_of r))
unfolding set
get-set_self keys c key r now later calls roomy listed quiet =
    let x : Entry = record { result = record r { cached = false }; expires_at = now + c.ttl_ms } in
    get-IsStored key x later (perform (set c key (success r) now) calls)
      (perform-IsHeld keys key x later calls (set c key (success r) now) quiet (
        rw (touched_fits keys c roomy key listed x) (record {
          roomy = touched-IsRoomy keys c roomy key listed x;
          stored = inl (ground (arith, get-touch key key x c.entries, beq_self key));
        }))).stored
