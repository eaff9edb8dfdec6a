-- ===== src/Hardening/RpcFailover/Cooldown.antt =====
-- How long an endpoint is left alone (packages/hardening/src/rpcFailover.ts).
use square.Base.{
  ℕ, ◌+◌, ◌-◌, ◌*◌, ◌^◌, ◌≤◌, ◌≡◌, refl, inl, inr, min, false, Option, none, some, List, [], ◌∷◌,
  String, get_or, ltb, arith, All, Bool-cases, length,
}
use square.Hardening.RpcFailover.{
  EndpointState, FailoverOptions, EndpointEvent, success_at, failure_at, observe, record_success,
  record_failure, is_cooling_down, is_after, threshold_of, new_endpoint,
}

unfoldable pub observe_all : FailoverOptions → EndpointState → List EndpointEvent → EndpointState
observe_all o e [] = e
observe_all o e (v ∷ vs) = observe_all o (observe o e v) vs

abbrev pub time_of : EndpointEvent → ℕ
time_of (success_at now) = now
time_of (failure_at now counted error) = now

abbrev pub IsUntil : ℕ → Option ℕ → Type 0
IsUntil end none = Unit
IsUntil end (some until) = until ≤ end

observe-IsUntil :
    (o : FailoverOptions) (e : EndpointState) (v : EndpointEvent) (last : ℕ)
    → IsUntil (last + get_or o.max_backoff_ms 60000) e.cooldown_until
    → time_of v ≤ last
    → IsUntil (last + get_or o.max_backoff_ms 60000) (observe o e v).cooldown_until
unfolding observe record_success record_failure
observe-IsUntil o e (success_at now) last h le = tt
observe-IsUntil o e (failure_at now counted error) last h le = elim (Bool-cases counted) [
  | inl again ↦ rw (again, record_failure) h
  | inr first ↦ elim (Bool-cases (ltb (e.consecutive_failures + 1) (threshold_of o))) [
    | inl few ↦ rw (first, record_failure) (rw few h)
    | inr many ↦ rw (first, record_failure) (rw many (omega (arith, le)))
  ]
]

observe_all-IsUntil :
    (o : FailoverOptions) (vs : List EndpointEvent) (e : EndpointState) (last : ℕ)
    → IsUntil (last + get_or o.max_backoff_ms 60000) e.cooldown_until
    → All (λ v. time_of v ≤ last) vs
    → IsUntil (last + get_or o.max_backoff_ms 60000) (observe_all o e vs).cooldown_until
unfolding observe_all
observe_all-IsUntil o [] e last h before = h
observe_all-IsUntil o (v ∷ vs) e last h (first, rest) =
    observe_all-IsUntil o vs (observe o e v) last (observe-IsUntil o e v last h first) rest

is_after-IsUntil :
    (now end : ℕ) (until : Option ℕ) → IsUntil end until → end ≤ now → is_after now until ≡ false
unfolding is_after
is_after-IsUntil now end none h over = refl
is_after-IsUntil now end (some until) h over = ground arith

-- Whatever happened to an endpoint up to a time, it is no longer cooling down once the longest
-- cool-down has passed since.
pub cooldown-ends :
    (o : FailoverOptions) (url : String) (vs : List EndpointEvent) (last now : ℕ)
    → All (λ v. time_of v ≤ last) vs
    → last + get_or o.max_backoff_ms 60000 ≤ now
    → is_cooling_down now (observe_all o (new_endpoint url) vs) ≡ false
unfolding is_cooling_down is_after
cooldown-ends o url vs last now before over =
    let h = observe_all-IsUntil o vs (new_endpoint url) last (unfold new_endpoint in tt) before in
    is_after-IsUntil now (last + get_or o.max_backoff_ms 60000) _ h over

-- Failures, each of a request that had not counted one, at the given times.
abbrev pub failures : List ℕ → List EndpointEvent
failures [] = []
failures (t ∷ ts) = failure_at t false "unreachable" ∷ failures ts

observe_all-failures :
    (o : FailoverOptions) (ts : List ℕ) (e : EndpointState)
    → (observe_all o e (failures ts)).consecutive_failures ≡ e.consecutive_failures + length ts
unfolding observe_all observe record_failure
observe_all-failures o [] e = omega arith
observe_all-failures o (t ∷ ts) e =
    let next = observe o e (failure_at t false "unreachable") in
    let counted : next.consecutive_failures ≡ e.consecutive_failures + 1 = ground arith in
    omega (arith, observe_all-failures o ts next, counted)

-- From the threshold on, every failure in a row doubles the cool-down of a new endpoint, from the base
-- up to the longest one.
pub observe-failures :
    (o : FailoverOptions) (url : String) (ts : List ℕ) (now : ℕ)
    → threshold_of o ≤ length ts + 1
    → let e =
        observe o
          (observe_all o (new_endpoint url) (failures ts))
          (failure_at now false "unreachable") in
      (e.consecutive_failures ≡ length ts + 1)
      × (e.cooldown_until
          ≡ some (
              now
              + min
                  (get_or o.max_backoff_ms 60000)
                  (get_or o.base_cooldown_ms 1000 * 2 ^ (length ts + 1 - threshold_of o))))
unfolding observe record_failure
observe-failures o url ts now many =
    let e = observe_all o (new_endpoint url) (failures ts) in
    let fresh : (new_endpoint url).consecutive_failures ≡ 0 = unfold new_endpoint in refl in
    let counted : e.consecutive_failures ≡ length ts =
      omega (arith, observe_all-failures o ts (new_endpoint url), fresh) in
    (ground (arith, counted), ground (arith, counted))
