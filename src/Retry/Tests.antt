-- ===== src/Retry/Tests.antt =====
-- Runs of the retry loop and of its breaker, and the instances of the properties.
use nexus_ai_gateway.Common.{
  ℕ, ◌+◌, ◌<◌, ◌≤◌, ◌≡◌, true, false, Option, none, some, refl, arith, ltb, if◌then◌else◌,
}
use nexus_ai_gateway.Common.Int.{negsuc}
use nexus_ai_gateway.Retry.{
  CircuitBreaker, circuit_open, circuit_half_open, new_circuit_breaker, record_failure,
  record_failure_in,
}
use nexus_ai_gateway.Retry.Loop.{default_retry_config, attempts, retry, is_retryable}
use nexus_ai_gateway.Retry.Attempts.{scripted, Fails, retry_first_success, retry-calls_bound}

too_many_requests : is_retryable 429 false default_retry_config ≡ true
unfolding is_retryable
too_many_requests = refl

-- Two calls fail, and the third answers 7.
abbrev third : ℕ → ℕ × Option ℕ
third i = if ltb i 2 then (0, some 503) else (7, none)

third-Fails : (j : ℕ) → j < 2 → Fails third j
third-Fails j l = (503, ground arith)

third_is_returned : retry (scripted third) default_retry_config 0 ≡ (3, some 7, none)
unfolding retry attempts
third_is_returned = refl

retry_first_success_example : retry (scripted third) default_retry_config 0 ≡ (3, some 7, none)
retry_first_success_example =
    retry_first_success third default_retry_config 3 2 refl (omega arith) third-Fails refl

-- A negative number of retries calls nothing, and reports neither a result nor an error.
no_attempt :
    retry (scripted third) (record default_retry_config { max_retries = negsuc 0 }) 0
    ≡ (0, none, none)
unfolding retry
no_attempt = refl

abbrev never : ℕ → ℕ × Option ℕ
never i = (i, some 500)

never_succeeds : retry (scripted never) default_retry_config 0 ≡ (4, some 3, some 500)
unfolding retry attempts
never_succeeds = refl

retry-calls_bound_example : (retry (scripted never) default_retry_config 5).0 ≤ 5 + 3 + 1
retry-calls_bound_example =
    retry-calls_bound (scripted never) (λ t. t) default_retry_config 3 5 refl (λ t. refl)
      (λ a t. refl)

-- Opened by its one failure, at 100, for 50.
abbrev opened : CircuitBreaker
opened = record {
  state = circuit_open;
  failure_count = 1;
  success_count = 0;
  failure_threshold = 1;
  success_threshold = 2;
  timeout = 50;
  last_failure_time = 100;
}

one_failure_opens : record_failure 100 (new_circuit_breaker 1 2 50) ≡ opened
unfolding record_failure record_failure_in new_circuit_breaker
one_failure_opens = refl

abbrev probing : CircuitBreaker
probing = record opened { state = circuit_half_open; failure_count = 0 }
