-- ===== src/Hardening/RateLimit/Table.antt =====
-- The store in memory follows a table without bound while the buckets fit, and the table counts the
-- requests of a window (packages/hardening/src/rateLimit.ts).
use native.Mathlib.Nat.{div-mul-le_self, le-div_iff_mul-le, mul-div_cancel}
use mathlib.Core.Bool.{false≢true}
use square.Base.{
  ℕ, suc, ◌+◌, ◌*◌, ◌/◌, ◌≤◌, ◌<◌, ◌≡◌, refl, ◌≢◌, true, false, Option, none, some, List, [], ◌∷◌,
  String, string_eq, eq_iff, ◌==◌, if◌then◌else◌, arith, length, any, All, sym, ap, subst, ◌∙◌,
  nat_beq, Bool-cases, inl, inr, ◌&&◌, nat_beq_iff, beq_self,
}
use square.Base.JsMap
use square.Base.JsMap.{JsMap, IsKeyed}
use square.Base.Lru.{touch, get-touch, touch-IsKeyed, evict_fits, length-le_universe}
use square.Hardening.RateLimit.{
  Window, MemoryStore, RateLimiterOptions, increment, check, memory_store, window_start,
  fresh_window,
}

-- The entry after one more request, of the window that starts at a time.
abbrev pub counted_in : ℕ → Option Window → Window
counted_in start none = record { window_start = start; count = 1 }
counted_in start (some w) =
    if nat_beq w.window_start start
    then record w { count = w.count + 1 }
    else record { window_start = start; count = 1 }

-- The store holds, for every bucket, the entry of a table without bound.
pub record Tracks (us : List String) (f : String → Option Window) (s : MemoryStore) : Type 0 where
  pub keyed : IsKeyed s.windows
  pub within : (b : String) → JsMap.get b s.windows ≢ none → any (λ u. u == b) us ≡ true
  pub held : (b : String) → JsMap.get b s.windows ≡ f b

abbrev pub bump : (String → Option Window) → String → ℕ → String → Option Window
bump f k start b = if k == b then some (counted_in start (f k)) else f b

module _ (us : List String) (start : ℕ) (f : String → Option Window) (s : MemoryStore)
    (t : Tracks us f s) (k : String) (listed : any (λ u. u == k) us ≡ true)
    (room : length us ≤ s.max_entries) where
  abbrev pub touched : JsMap String Window
  touched = touch k (counted_in start (f k)) s.windows

  touched-Tracks : Tracks us (bump f k start) (record s { windows = touched })
  touched-Tracks = record {
    keyed = touch-IsKeyed k _ s.windows t.keyed;
    within = λ b n.
        ground (arith, get-touch k b (counted_in start (f k)) s.windows, eq_iff k b, t.within b);
    held =
        λ b. ground (arith, get-touch k b (counted_in start (f k)) s.windows, t.held b, eq_iff k b);
  }

  touched_fits : length touched ≤ s.max_entries
  touched_fits =
      omega (arith, length-le_universe us touched touched-Tracks.keyed touched-Tracks.within, room)

  pub increment_lem :
      increment k start s ≡ ((counted_in start (f k)).count, record s { windows = touched })
  unfolding increment fresh_window
  increment_lem = ground (arith, t.held k, evict_fits s.max_entries touched touched_fits)

-- Requests as they come: the key, and the clock's answer.
unfoldable pub serve : RateLimiterOptions → MemoryStore → List (String × ℕ) → MemoryStore
serve o s [] = s
serve o s ((k, now) ∷ rs) = serve o (check memory_store o k now s).1 rs

-- How many of the requests were made for a key in the window of a time.
abbrev pub hits_in : ℕ → ℕ → List (String × ℕ) → String → ℕ
hits_in window_ms now [] b = 0
hits_in window_ms now ((k, t) ∷ rs) b =
    if k == b && nat_beq (t / window_ms) (now / window_ms)
    then suc (hits_in window_ms now rs b)
    else hits_in window_ms now rs b

-- The clock does not go back, from one time to the next.
abbrev pub IsClocked : ℕ → List (String × ℕ) → ℕ → Type 0
IsClocked at [] now = at ≤ now
IsClocked at ((k, t) ∷ rs) now = (at ≤ t) × IsClocked t rs now

-- The keys of requests are of a list.
abbrev pub IsListed : List String → List (String × ℕ) → Type 0
IsListed us = All (λ r. any (λ u. u == r.0) us ≡ true)

module _ (o : RateLimiterOptions) where
  pub table : (String → Option Window) → List (String × ℕ) → String → Option Window
  table f [] = f
  table f ((k, t) ∷ rs) = table (bump f k (window_start o t)) rs

  pub serve-Tracks :
      (us : List String) (rs : List (String × ℕ)) (f : String → Option Window) (s : MemoryStore)
      → Tracks us f s
      → length us ≤ s.max_entries
      → IsListed us rs
      → Tracks us (table f rs) (serve o s rs) × ((serve o s rs).max_entries ≡ s.max_entries)
  unfolding serve table
  serve-Tracks us [] f s t room h = (t, refl)
  serve-Tracks us ((k, now) ∷ rs) f s t room (listed, h) =
      let start : ℕ = window_start o now in
      let s' : MemoryStore = record s { windows = touched us start f s t k listed room } in
      let step : (check memory_store o k now s).1 ≡ s' =
        unfold check in ap (λ p. p.1) (increment_lem us start f s t k listed room) in
      let (after, size) =
        serve-Tracks us rs (bump f k start) s' (touched-Tracks us start f s t k listed room) room
          h in
      subst
        (λ q.
          Tracks us (table (bump f k start) rs) (serve o q rs)
          × ((serve o q rs).max_entries ≡ s.max_entries))
        (sym step) (after, size)

-- The requests that an entry stands for in a window.
unfoldable pub count_at : ℕ → Option Window → ℕ
count_at start none = 0
count_at start (some w) = if nat_beq w.window_start start then w.count else 0

unfoldable pub IsBefore : ℕ → Option Window → Type 0
IsBefore start none = Unit
IsBefore start (some w) = w.window_start ≤ start

pub counted_in_count :
    (start : ℕ) (w : Option Window) → (counted_in start w).count ≡ suc (count_at start w)
unfolding count_at
counted_in_count start none = refl
counted_in_count start (some w) = ground arith

counted_in-count_at :
    (start last : ℕ) (w : Option Window)
    → IsBefore start w
    → start ≤ last
    → count_at last (some (counted_in start w))
      ≡ count_at last w + (if nat_beq start last then 1 else 0)
unfolding count_at IsBefore
counted_in-count_at start last none h le = ground arith
counted_in-count_at start last (some w) h le = ground arith

counted_in-IsBefore : (start : ℕ) (w : Option Window) → IsBefore start (some (counted_in start w))
unfolding IsBefore
counted_in-IsBefore start none = omega arith
counted_in-IsBefore start (some w) = ground arith

IsBefore-trans :
    (start last : ℕ) (w : Option Window) → IsBefore start w → start ≤ last → IsBefore last w
unfolding IsBefore
IsBefore-trans start last none h le = tt
IsBefore-trans start last (some w) h le = omega (arith, h, le)

mul_mono : (a b d : ℕ) → a ≤ b → a * d ≤ b * d
mul_mono a b d h = grind arith

mul_cancel : (a b d : ℕ) → 0 < d → a * d ≡ b * d → a ≡ b
mul_cancel a b d h same = sym (mul-div_cancel a h) ∙ ap (λ n. n / d) same ∙ mul-div_cancel b h

not_beq : (a b : ℕ) → a ≢ b → nat_beq a b ≡ false
not_beq a b n = elim (Bool-cases (nat_beq a b)) [
  | inl same ↦ absurd (n ((nat_beq_iff a b).0 same))
  | inr other ↦ other
]

module _ (o : RateLimiterOptions) (positive : 0 < o.window_ms) where
  window_start_mono : (t now : ℕ) → t ≤ now → window_start o t ≤ window_start o now
  unfolding window_start
  window_start_mono t now le =
      mul_mono (t / o.window_ms) (now / o.window_ms) o.window_ms
        ((le-div_iff_mul-le positive).1 (omega (arith, le, div-mul-le_self t o.window_ms)))

  same_window :
      (t now : ℕ)
      → nat_beq (window_start o t) (window_start o now)
        ≡ nat_beq (t / o.window_ms) (now / o.window_ms)
  unfolding window_start
  same_window t now = elim (Bool-cases (nat_beq (t / o.window_ms) (now / o.window_ms))) [
    | inl same ↦
        (nat_beq_iff (window_start o t) (window_start o now)).1
          (ap (λ q. q * o.window_ms) ((nat_beq_iff (t / o.window_ms) (now / o.window_ms)).0 same))
        ∙ sym same
    | inr other ↦
        not_beq (window_start o t) (window_start o now) (λ e. false≢true (
          sym other
          ∙ (nat_beq_iff (t / o.window_ms) (now / o.window_ms)).1
              (mul_cancel (t / o.window_ms) (now / o.window_ms) o.window_ms positive e)))
        ∙ sym other
  ]

  bump_count :
      (f : String → Option Window) (k : String) (t now : ℕ) (b : String)
      → IsBefore (window_start o t) (f k)
      → t ≤ now
      → count_at (window_start o now) (bump f k (window_start o t) b)
        ≡ count_at (window_start o now) (f b)
          + (if k == b && nat_beq (t / o.window_ms) (now / o.window_ms) then 1 else 0)
  bump_count f k t now b before le = elim (Bool-cases (k == b)) [
    | inl same ↦
        subst
          (λ j.
            count_at (window_start o now) (bump f k (window_start o t) j)
            ≡ count_at (window_start o now) (f j)
              + (if k == j && nat_beq (t / o.window_ms) (now / o.window_ms) then 1 else 0))
          ((eq_iff k b).0 same)
          (rw (beq_self k, ← same_window t now)
            (counted_in-count_at (window_start o t) (window_start o now) (f k) before
              (window_start_mono t now le)))
    | inr other ↦ rw (other) (omega arith)
  ]

  IsClocked-le : (at now : ℕ) (rs : List (String × ℕ)) → IsClocked at rs now → at ≤ now
  IsClocked-le at now [] h = h
  IsClocked-le at now ((k, t) ∷ rs) (le, h) = omega (arith, le, IsClocked-le t now rs h)

  bump-IsBefore :
      (f : String → Option Window) (k : String) (at t : ℕ)
      → ((b : String) → IsBefore (window_start o at) (f b))
      → at ≤ t
      → (b : String) → IsBefore (window_start o t) (bump f k (window_start o t) b)
  bump-IsBefore f k at t before le b = elim (Bool-cases (k == b)) [
    | inl same ↦ rw (same) (counted_in-IsBefore (window_start o t) (f k))
    | inr other ↦ rw (other) (
        IsBefore-trans (window_start o at) (window_start o t) (f b) (before b)
          (window_start_mono at t le))
  ]

  pub table_count :
      (rs : List (String × ℕ)) (f : String → Option Window) (at now : ℕ) (b : String)
      → ((j : String) → IsBefore (window_start o at) (f j))
      → IsClocked at rs now
      → count_at (window_start o now) (table o f rs b)
        ≡ count_at (window_start o now) (f b) + hits_in o.window_ms now rs b
  unfolding table
  table_count [] f at now b before h = omega arith
  table_count ((k, t) ∷ rs) f at now b before (le, h) =
      table_count rs (bump f k (window_start o t)) t now b (bump-IsBefore f k at t before le) h
      ∙ ground (
        arith,
        bump_count f k t now b
            (IsBefore-trans (window_start o at) (window_start o t) (f k) (before k)
              (window_start_mono at t le))
            (IsClocked-le t now rs h),
      )
