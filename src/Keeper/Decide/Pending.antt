-- ===== src/Keeper/Decide/Pending.antt =====
-- The age of the oldest settlement that the keeper could make (decide.ts, `oldestPendingAge`).
use square.Base.{ℕ, ◌-◌, ◌≤◌, ◌≡◌, ◌⊎◌, inl, false, List, [], ◌∷◌, arith, get_or, All, Exists, refl}
use square.Keeper.Decide.{KeeperCandidate, age_of, oldest_from, oldest_pending_age}
use square.Keeper.Decide.Actions.{HasPassed}

abbrev pub IsPending : ℕ → KeeperCandidate → Type 0
IsPending now c = (c.status ≡ 2) × (c.disputed ≡ false) × HasPassed c.challenge_end now

abbrev pub age : ℕ → KeeperCandidate → ℕ
age now c = now - get_or c.challenge_end 0

module _ (now : ℕ) where
  age_of-le : (c : KeeperCandidate) (k : ℕ) → k ≤ age_of c now k
  unfolding age_of
  age_of-le c k = ground arith

  age_of-IsPending : (c : KeeperCandidate) (k : ℕ) → IsPending now c → age now c ≤ age_of c now k
  unfolding age_of
  age_of-IsPending c k h = ground arith

  age_of-cases :
      (c : KeeperCandidate) (k : ℕ)
      → (age_of c now k ≡ k) ⊎ (IsPending now c × (age_of c now k ≡ age now c))
  unfolding age_of
  age_of-cases c k = ground arith

  oldest_from-le : (cs : List KeeperCandidate) (k : ℕ) → k ≤ oldest_from k cs now
  unfolding oldest_from
  oldest_from-le [] k = omega arith
  oldest_from-le (c ∷ cs) k = omega (arith, age_of-le c k, oldest_from-le cs (age_of c now k))

  oldest_from-All :
      (cs : List KeeperCandidate) (k : ℕ)
      → All (λ c. IsPending now c → age now c ≤ oldest_from k cs now) cs
  unfolding oldest_from
  oldest_from-All [] k = tt
  oldest_from-All (c ∷ cs) k = (
    λ p. omega (arith, age_of-IsPending c k p, oldest_from-le cs (age_of c now k)),
    oldest_from-All cs (age_of c now k),
  )

  oldest_from-cases :
      (cs : List KeeperCandidate) (k : ℕ)
      → (oldest_from k cs now ≡ k)
        ⊎ Exists (λ c. IsPending now c × (oldest_from k cs now ≡ age now c)) cs
  unfolding oldest_from
  oldest_from-cases [] k = inl refl
  oldest_from-cases (c ∷ cs) k =
      ground (arith, age_of-cases c k, oldest_from-cases cs (age_of c now k))

-- No job whose window has closed has waited longer than the reported age, and the reported age is
-- zero or that of such a job.
pub oldest_pending_age-IsMax :
    (cs : List KeeperCandidate) (now : ℕ)
    → All (λ c. IsPending now c → age now c ≤ oldest_pending_age cs now) cs
      × ((oldest_pending_age cs now ≡ 0)
          ⊎ Exists (λ c. IsPending now c × (oldest_pending_age cs now ≡ age now c)) cs)
unfolding oldest_pending_age
oldest_pending_age-IsMax cs now = (oldest_from-All now cs 0, oldest_from-cases now cs 0)
