-- ===== src/Hardening/RpcFailover.antt =====
-- packages/hardening/src/rpcFailover.ts: the health of the endpoints, one request through them, and
-- the retry loop. What a request to an endpoint gives is an argument, and so is the clock.
pub mod Cooldown
pub mod Retry
use square.Base.{
  ℕ, zero, suc, ◌+◌, ◌-◌, ◌*◌, ◌/◌, ◌^◌, min, max, Bool, true, false, not, ◌&&◌, ◌||◌, Option, none,
  some, List, [], ◌∷◌, String, any, drop, leb, ltb, nat_beq, get_or, if◌then◌else◌, length,
}

pub record EndpointState : Type 0 where
  pub url : String
  pub consecutive_failures : ℕ
  pub cooldown_until : Option ℕ
  pub last_error : Option String
  pub last_failure_at : Option ℕ
  pub last_success_at : Option ℕ

pub record FailoverOptions : Type 0 where
  pub failure_threshold : Option ℕ
  pub base_cooldown_ms : Option ℕ
  pub max_backoff_ms : Option ℕ

pub record EndpointHealth : Type 0 where
  pub url : String
  pub healthy : Bool
  pub consecutive_failures : ℕ
  pub cooldown_until : Option ℕ
  pub last_error : Option String
  pub last_failure_at : Option ℕ
  pub last_success_at : Option ℕ

unfoldable pub new_endpoint : String → EndpointState
new_endpoint url = record {
  url = url;
  consecutive_failures = 0;
  cooldown_until = none;
  last_error = none;
  last_failure_at = none;
  last_success_at = none;
}

is_after : ℕ → Option ℕ → Bool
is_after now none = false
is_after now (some until) = ltb now until

unfoldable pub is_cooling_down : ℕ → EndpointState → Bool
unfolding is_after
is_cooling_down now e = is_after now e.cooldown_until

unfoldable pub healthier_endpoint_follows : ℕ → List EndpointState → ℕ → Bool
healthier_endpoint_follows now endpoints index =
    any (λ e. not (is_cooling_down now e)) (drop (index + 1) endpoints)

-- The endpoint's part of `recordSuccess`.
unfoldable pub record_success : ℕ → EndpointState → EndpointState
record_success now e = record e {
  consecutive_failures = 0;
  cooldown_until = none;
  last_success_at = some now;
}

abbrev pub threshold_of : FailoverOptions → ℕ
threshold_of o = max 1 (get_or o.failure_threshold 1)

abbrev pub cooldown_of : FailoverOptions → ℕ → ℕ
cooldown_of o failures =
    min (get_or o.max_backoff_ms 60000)
      (get_or o.base_cooldown_ms 1000 * 2 ^ (failures - threshold_of o))

-- `counted` says whether the request has counted a failure of this endpoint before.
unfoldable pub record_failure : FailoverOptions → ℕ → Bool → String → EndpointState → EndpointState
record_failure o now counted error e =
    let noted : EndpointState = record e { last_error = some error; last_failure_at = some now } in
    let failures = e.consecutive_failures + 1 in
    if counted
    then noted
    else if ltb failures (threshold_of o)
    then record noted { consecutive_failures = failures }
    else record noted {
      consecutive_failures = failures;
      cooldown_until = some (now + cooldown_of o failures);
    }

abbrev pub shown : Bool → Option ℕ → Option ℕ
shown cooling until = if cooling then until else none

unfoldable pub health : ℕ → EndpointState → EndpointHealth
health now e = record {
  url = e.url;
  healthy = not (is_cooling_down now e);
  consecutive_failures = e.consecutive_failures;
  cooldown_until = shown (is_cooling_down now e) e.cooldown_until;
  last_error = e.last_error;
  last_failure_at = e.last_failure_at;
  last_success_at = e.last_success_at;
}

-- What happens to one endpoint: a request succeeds, or fails in a way that counts against it.
pub data EndpointEvent : Type 0 where
  success_at : ℕ → EndpointEvent
  failure_at : ℕ → Bool → String → EndpointEvent

unfoldable pub observe : FailoverOptions → EndpointState → EndpointEvent → EndpointState
observe o e (success_at now) = record_success now e
observe o e (failure_at now counted error) = record_failure o now counted error e

-- `Math.round` of half the ceiling and a random part of the other half. The random number between
-- 0 and 1 is given as a part of 2 ^ 32.
unfoldable pub jittered_backoff_delay : ℕ → ℕ → ℕ → ℕ → ℕ
jittered_backoff_delay attempt base_delay_ms max_delay_ms random =
    let ceiling = min max_delay_ms (base_delay_ms * 2 ^ (attempt - 1)) in
    (ceiling * 2 ^ 32 + ceiling * random + 2 ^ 32) / 2 ^ 33

pub record RpcRetryOptions : Type 0 where
  pub attempts : Option ℕ
  pub base_delay_ms : Option ℕ
  pub max_delay_ms : Option ℕ

pub data Attempt (A E : Type 0) : Type 0 where
  returned : A → Attempt A E
  failed : E → Attempt A E

-- The result, the number of attempts made, and the delays slept.
pub record Retried (A E : Type 0) : Type 0 where
  pub result : Attempt A E
  pub attempts : ℕ
  pub delays : List ℕ

-- `aborted n` says whether the signal is aborted when attempt n has failed, and `interrupted n`
-- whether it is aborted in the pause after it.
module _ {A E : Type 0} (o : RpcRetryOptions) (fn : ℕ → Attempt A E) (is_retryable : E → Bool)
    (aborted interrupted : ℕ → Bool) (random : ℕ → ℕ) where
  abbrev pub delay_of : ℕ → ℕ
  delay_of attempt =
      jittered_backoff_delay attempt (get_or o.base_delay_ms 200) (get_or o.max_delay_ms 5000)
        (random attempt)

  abbrev pub stop : ℕ → List ℕ → Retried A E
  stop attempt delays = record { result = fn attempt; attempts = attempt; delays = delays }

  next : ℕ → Attempt A E → Retried A E → Retried A E
  next attempt (returned a) rest = stop attempt []
  next attempt (failed e) rest =
      if aborted attempt || not (is_retryable e)
      then stop attempt []
      else if interrupted attempt
      then stop attempt (delay_of attempt ∷ [])
      else record rest { delays = delay_of attempt ∷ rest.delays }

  -- `left` is how many attempts are left after this one.
  retry : ℕ → ℕ → Retried A E
  unfolding next
  retry zero attempt = stop attempt []
  retry (suc left) attempt = let rest = retry left (suc attempt) in next attempt (fn attempt) rest

  abbrev pub attempts_of : ℕ
  attempts_of = max 1 (get_or o.attempts 3)

  -- `none` where the signal is aborted at the start.
  unfoldable pub with_rpc_retry : Bool → Option (Retried A E)
  unfolding retry
  with_rpc_retry aborted_first = if aborted_first then none else some (retry (attempts_of - 1) 1)
