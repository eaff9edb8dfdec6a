-- ===== src/Hardening/Tests.antt =====
-- Runs of the rate limiter (packages/hardening/src/rateLimit.ts).
use square.Base.{
  nat_beq, Bool, none, true, Option, Text, codes, text_eq, text_beq, if◌then◌else◌, ◌+◌, string_eq,
  ℕ, ◌≡◌, refl, false, some, List, [], ◌∷◌, String, arith,
}
use square.Base.JsMap
use square.Hardening.RpcFailover.{
  FailoverOptions, EndpointEvent, failure_at, is_cooling_down, new_endpoint, observe,
  record_failure, RpcRetryOptions, Attempt, returned, failed, Retried, with_rpc_retry,
  jittered_backoff_delay,
}
use square.Hardening.RpcFailover.Cooldown.{observe_all}
use square.Hardening.RpcFailover.Retry.{IsRun, with_rpc_retry-IsRun}
use square.Hardening.Idempotency.{
  HandlerResponse, default_should_store, from_handler, from_replay, conflict, WithIdempotency,
  Execution, execute,
}
use square.Hardening.Idempotency.Replay.{execute_all, execute-replays}
use square.Hardening.Idempotency.Unkept.{IsUnkept, execute-unkept}
use square.Base.Lru.{touch, evict}
use square.Hardening.RateLimit.{
  RateLimiterOptions, MemoryStore, check, window_start, memory_store, memory_rate_limit_store,
  increment, rate_limit_outcome, rejected,
}
use square.Hardening.RateLimit.Table.{serve}
use square.Hardening.RateLimit.Count.{check_exact}
use square.Hardening.RateLimit.Bounds.{IsBounded, increments-new, increments}

abbrev two_a_second : RateLimiterOptions
two_a_second = record { limit = 2; window_ms = 1000 }

abbrev requests : List (String × ℕ)
requests = ("a", 5100) ∷ ("b", 5200) ∷ ("a", 5300) ∷ []

third_request :
    (check memory_store two_a_second "a" 5400
      (serve two_a_second (memory_rate_limit_store (some 8)) requests)).0
    ≡ record { allowed = false; limit = 2; remaining = 0; reset_at = 6000; count = 3 }
unfolding check serve increment memory_rate_limit_store window_start JsMap.get JsMap.set
    JsMap.delete touch evict
third_request = refl

third_request_outcome :
    rate_limit_outcome
      (record { allowed = false; limit = 2; remaining = 0; reset_at = 6000; count = 3 })
      5400
    ≡ rejected 1
unfolding rate_limit_outcome
third_request_outcome = refl

-- Two requests of the window of 5400, and one for its key in the window before.
abbrev across : List (String × ℕ)
across = ("a", 4100) ∷ requests

check_exact_example :
    (check memory_store two_a_second "a" 5400
      (serve two_a_second (memory_rate_limit_store (some 8)) across)).0
    ≡ record { allowed = false; limit = 2; remaining = 0; reset_at = 6000; count = 3 }
check_exact_example =
    check_exact two_a_second ("a" ∷ "b" ∷ []) (some 8) across "a" 5400 (omega arith) (omega arith)
      (refl, (refl, (refl, (refl, tt)))) refl
      (omega arith, (omega arith, (omega arith, (omega arith, omega arith))))

abbrev one_entry : MemoryStore
one_entry = record { max_entries = 1; windows = ("a", record { window_start = 0; count = 4 }) ∷ [] }

increments-new_example :
    IsBounded 1 (increments (memory_rate_limit_store (some 1)) (("a", 0) ∷ ("b", 0) ∷ []))
increments-new_example = increments-new (some 1) (("a", 0) ∷ ("b", 0) ∷ [])

abbrev daily : WithIdempotency
daily = record { ttl_ms = none; should_store = default_should_store }

abbrev answer : HandlerResponse
answer = record { status = 201; body = codes "done"; transient = false }

abbrev failure : HandlerResponse
failure = record { status = 503; body = codes "later"; transient = false }

abbrev asks : Text → Option HandlerResponse → ℕ → Execution
asks hash response now = record {
  request = record { scope = codes "s"; key = codes "k"; request_hash = hash };
  response = response;
  now = now;
  later = now + 5;
}

answer_kept : daily.should_store answer ≡ true
unfolding default_should_store
answer_kept = refl

execute-replays_example :
    let again = execute daily (asks (codes "h") none 500) (
      execute_all daily
        (asks (codes "g") none 400 ∷ [])
        (execute daily (asks (codes "h") (some answer) 10) []).entries) in
    ((execute daily (asks (codes "h") (some answer) 10) []).outcome
      ≡ from_handler 201 (codes "done"))
    × (again.handled ≡ false)
    × (again.outcome
        ≡ (if text_beq (codes "h") (codes "h") then from_replay 201 (codes "done") else conflict))
unfolding JsMap.get
execute-replays_example =
    execute-replays daily (asks (codes "h") (some answer) 10) (asks (codes "h") none 500)
      (asks (codes "g") none 400 ∷ []) [] answer refl refl refl answer_kept
      ((omega arith, omega arith), tt) refl (omega arith)

failure-IsUnkept : IsUnkept daily (some failure)
unfolding default_should_store
failure-IsUnkept = refl

execute-unkept_example :
    ((execute daily (asks (codes "h") (some failure) 10) []).entries ≡ [])
    × ((execute daily (asks (codes "h") (some failure) 10) []).handled ≡ true)
    × ((execute daily
          (asks (codes "h") (some answer) 20)
          (execute daily (asks (codes "h") (some failure) 10) []).entries).handled
        ≡ true)
unfolding JsMap.get
execute-unkept_example =
    execute-unkept daily (asks (codes "h") (some failure) 10) (asks (codes "h") (some answer) 20) []
      refl failure-IsUnkept refl

abbrev options : FailoverOptions
options = record {
  failure_threshold = some 2;
  base_cooldown_ms = some 1000;
  max_backoff_ms = some 3000;
}

abbrev events : List EndpointEvent
events = failure_at 10 false "down" ∷ failure_at 20 false "down" ∷ []

cools_down : is_cooling_down 1019 (observe_all options (new_endpoint "u") events) ≡ true
unfolding is_cooling_down observe_all observe record_failure new_endpoint
cools_down = refl

abbrev thrice : RpcRetryOptions
thrice = record { attempts = some 3; base_delay_ms = none; max_delay_ms = none }

abbrev second_time : ℕ → Attempt ℕ String
second_time n = if nat_beq n 2 then returned 42 else failed "timeout"

abbrev always : String → Bool
always e = true

abbrev never : ℕ → Bool
never n = false

abbrev half : ℕ → ℕ
half n = 2147483648

with_rpc_retry-IsRun_example :
    (r : Retried ℕ String) × (with_rpc_retry thrice second_time always never never half false
      ≡ some r)
    × IsRun thrice second_time always never never half 1 3 r
with_rpc_retry-IsRun_example = with_rpc_retry-IsRun thrice second_time always never never half

retry_run :
    with_rpc_retry thrice second_time always never never half false
    ≡ some (record { result = returned 42; attempts = 2; delays = 150 ∷ [] })
unfolding with_rpc_retry jittered_backoff_delay
retry_run = refl
