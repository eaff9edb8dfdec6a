-- ===== src/Hardening/RpcFailover/Retry.antt =====
-- What the retry loop returns (packages/hardening/src/rpcFailover.ts).
use square.Base.{
  subst, sym, ℕ, zero, suc, ◌+◌, ◌-◌, ◌≤◌, ◌<◌, ◌≡◌, refl, ◌⊎◌, inl, inr, Bool, true, false, ◌||◌,
  some, List, [], ◌∷◌, arith, Bool-cases,
}
use square.Hardening.RpcFailover.{
  RpcRetryOptions, Attempt, returned, failed, Retried, with_rpc_retry, retry, next, stop,
  attempts_of,
}

Attempt-cases :
    {A E : Type 0} (x : Attempt A E) → ((a : A) × (x ≡ returned a)) ⊎ ((e : E) × (x ≡ failed e))
Attempt-cases (returned a) = inl (a, refl)
Attempt-cases (failed e) = inr (e, refl)

eq_or_gt : (m n : ℕ) → m ≤ n → (m ≡ n) ⊎ (m < n)
eq_or_gt m n le = ground arith

module _ {A E : Type 0} (o : RpcRetryOptions) (fn : ℕ → Attempt A E) (is_retryable : E → Bool)
    (aborted interrupted : ℕ → Bool) (random : ℕ → ℕ) where
  -- Why the loop ends with an attempt, of which no more than `most` may be made.
  pub data Ends (most n : ℕ) : Type 0 where
    succeeded : (a : A) → fn n ≡ returned a → Ends most n
    exhausted : n ≡ most → Ends most n
    permanent : (e : E) → fn n ≡ failed e → is_retryable e ≡ false → Ends most n
    cancelled : (aborted n || interrupted n) ≡ true → Ends most n

  -- An attempt after which the loop goes on.
  pub record GoesOn (n : ℕ) : Type 0 where
    pub error : E
    pub failure : fn n ≡ failed error
    pub retryable : is_retryable error ≡ true
    pub waited : (aborted n || interrupted n) ≡ false

  -- The loop stopped after `r.attempts` attempts, of those from `first` on.
  pub record IsRun (first most : ℕ) (r : Retried A E) : Type 0 where
    pub begun : first ≤ r.attempts
    pub within : r.attempts ≤ most
    pub outcome : r.result ≡ fn r.attempts
    pub ends : Ends most r.attempts
    pub earlier : (i : ℕ) → first ≤ i → i < r.attempts → GoesOn i

  stop-IsRun :
      (first most : ℕ) (ds : List ℕ)
      → first ≤ most
      → Ends most first
      → IsRun first most (stop o fn is_retryable aborted interrupted random first ds)
  stop-IsRun first most ds le ends = record {
    begun = omega arith;
    within = le;
    outcome = refl;
    ends = ends;
    earlier = λ i from below. absurd (omega (arith, from, below));
  }

  step-IsRun :
      (first most d : ℕ) (r : Retried A E)
      → GoesOn first
      → IsRun (suc first) most r
      → IsRun first most (record r { delays = d ∷ r.delays })
  step-IsRun first most d r goes run = record {
    begun = omega (arith, run.begun);
    within = run.within;
    outcome = run.outcome;
    ends = run.ends;
    earlier = λ i from below. from_first i from below;
  }
    where
      from_first : (i : ℕ) → first ≤ i → i < r.attempts → GoesOn i
      from_first i from below = elim (eq_or_gt first i from) [
        | inl same ↦ subst GoesOn same goes
        | inr later ↦ run.earlier i later below
      ]

  next-failed :
      (first most : ℕ) (r : Retried A E) (e : E)
      → first ≤ most
      → IsRun (suc first) most r
      → fn first ≡ failed e
      → IsRun first most (next o fn is_retryable aborted interrupted random first (failed e) r)
  unfolding next
  next-failed first most r e le run found = elim (Bool-cases (is_retryable e)) [
    | inr never ↦ rw never (elim (Bool-cases (aborted first)) [
      | inl stopped ↦ rw stopped (stop-IsRun first most [] le (permanent e found never))
      | inr on ↦ rw on (stop-IsRun first most [] le (permanent e found never))
    ])
    | inl again ↦ rw again (elim (Bool-cases (aborted first)) [
      | inl stopped ↦ rw stopped (stop-IsRun first most [] le (cancelled (ground arith)))
      | inr on ↦ rw on (elim (Bool-cases (interrupted first)) [
        | inl woken ↦ rw woken (stop-IsRun first most _ le (cancelled (ground arith)))
        | inr slept ↦ rw slept (
            step-IsRun first most _ r
              (record { error = e; failure = found; retryable = again; waited = ground arith }) run)
      ])
    ])
  ]

  next-IsRun :
      (first most : ℕ) (r : Retried A E)
      → first ≤ most
      → IsRun (suc first) most r
      → IsRun first most (next o fn is_retryable aborted interrupted random first (fn first) r)
  next-IsRun first most r le run = elim (Attempt-cases (fn first)) [
    | inl (a, found) ↦
        subst (λ v. IsRun first most (next o fn is_retryable aborted interrupted random first v r))
          (sym found) (unfold next in stop-IsRun first most [] le (succeeded a found))
    | inr (e, found) ↦
        subst (λ v. IsRun first most (next o fn is_retryable aborted interrupted random first v r))
          (sym found) (next-failed first most r e le run found)
  ]

  retry-IsRun :
      (left first : ℕ)
      → IsRun first (left + first) (retry o fn is_retryable aborted interrupted random left first)
  unfolding retry
  retry-IsRun zero first = stop-IsRun first (0 + first) [] (omega arith) (exhausted (omega arith))
  retry-IsRun (suc left) first =
      let same : left + suc first ≡ suc left + first = omega arith in
      next-IsRun first (suc left + first) _ (omega arith) (
        subst
          (λ m.
            IsRun (suc first) m
              (retry o fn is_retryable aborted interrupted random left (suc first)))
          same (retry-IsRun left (suc first)))

  -- A call whose signal is not aborted at the start returns: it makes at least one attempt and at most
  -- as many as asked for, goes on only after a retryable failure and a pause without an abort, ends
  -- only for a stated reason, and its result is that of its last attempt.
  pub with_rpc_retry-IsRun :
      (r : Retried A E) × (with_rpc_retry o fn is_retryable aborted interrupted random false
        ≡ some r)
      × IsRun 1 (attempts_of o fn is_retryable aborted interrupted random) r
  unfolding with_rpc_retry
  with_rpc_retry-IsRun = (
    retry o fn is_retryable aborted interrupted random
        (attempts_of o fn is_retryable aborted interrupted random - 1) 1,
    refl,
    subst
        (λ m. IsRun 1 m (
          retry o fn is_retryable aborted interrupted random
            (attempts_of o fn is_retryable aborted interrupted random - 1) 1))
        (omega arith)
        (retry-IsRun (attempts_of o fn is_retryable aborted interrupted random - 1) 1),
  )
