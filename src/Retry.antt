-- ===== src/Retry.antt =====
-- internal/retry/circuit_breaker.go: the breaker that guards retried calls. Its thresholds and
-- counters carry no negative value. The retry loop is in Retry/Loop.
pub mod Loop
pub mod Attempts
pub mod Breaker
pub mod Tests
use nexus_ai_gateway.Common.{ℕ, ◌+◌, Bool, true, false, String, leb, if◌then◌else◌}
use nexus_ai_gateway.Common.Clock.{elapsed_more}

pub data CircuitState : Type 0 where
  circuit_closed circuit_open circuit_half_open : CircuitState

pub record CircuitBreaker : Type 0 where
  pub state : CircuitState
  pub failure_count : ℕ
  pub success_count : ℕ
  pub failure_threshold : ℕ
  pub success_threshold : ℕ
  pub timeout : ℕ
  pub last_failure_time : ℕ

unfoldable pub new_circuit_breaker : ℕ → ℕ → ℕ → CircuitBreaker
new_circuit_breaker failure_threshold success_threshold timeout = record {
  state = circuit_closed;
  failure_count = 0;
  success_count = 0;
  failure_threshold = failure_threshold;
  success_threshold = success_threshold;
  timeout = timeout;
  last_failure_time = 0;
}

unfoldable pub allow_in : CircuitState → ℕ → CircuitBreaker → CircuitBreaker × Bool
allow_in circuit_closed now cb = (cb, true)
allow_in circuit_open now cb =
    if elapsed_more now cb.last_failure_time cb.timeout
    then (record cb { state = circuit_half_open; success_count = 0; failure_count = 0 }, true)
    else (cb, false)
allow_in circuit_half_open now cb = (cb, true)

-- `true` is the nil error, and `false` is `ErrCircuitOpen`.
unfoldable pub allow : ℕ → CircuitBreaker → CircuitBreaker × Bool
allow now cb = allow_in cb.state now cb

unfoldable pub record_success_in : CircuitState → CircuitBreaker → CircuitBreaker
record_success_in circuit_closed cb = record cb { failure_count = 0 }
record_success_in circuit_open cb = cb
record_success_in circuit_half_open cb =
    if leb cb.success_threshold (cb.success_count + 1)
    then record cb { state = circuit_closed; failure_count = 0; success_count = 0 }
    else record cb { success_count = cb.success_count + 1 }

unfoldable pub record_success : CircuitBreaker → CircuitBreaker
record_success cb = record_success_in cb.state cb

unfoldable pub record_failure_in : CircuitState → CircuitBreaker → CircuitBreaker
record_failure_in circuit_closed cb =
    if leb cb.failure_threshold (cb.failure_count + 1)
    then record cb { state = circuit_open; failure_count = cb.failure_count + 1 }
    else record cb { failure_count = cb.failure_count + 1 }
record_failure_in circuit_open cb = cb
record_failure_in circuit_half_open cb = record cb { state = circuit_open; failure_count = 1 }

unfoldable pub record_failure : ℕ → CircuitBreaker → CircuitBreaker
record_failure now cb = record_failure_in cb.state (record cb { last_failure_time = now })

unfoldable pub reset : CircuitBreaker → CircuitBreaker
reset cb = record cb {
  state = circuit_closed;
  failure_count = 0;
  success_count = 0;
  last_failure_time = 0;
}

abbrev pub state_string : CircuitState → String
state_string circuit_closed = "closed"
state_string circuit_open = "open"
state_string circuit_half_open = "half-open"

pub record CircuitBreakerStats : Type 0 where
  pub state : String
  pub failure_count : ℕ
  pub success_count : ℕ
  pub last_failure : ℕ
  pub failure_threshold : ℕ
  pub success_threshold : ℕ

unfoldable pub stats : CircuitBreaker → CircuitBreakerStats
stats cb = record {
  state = state_string cb.state;
  failure_count = cb.failure_count;
  success_count = cb.success_count;
  last_failure = cb.last_failure_time;
  failure_threshold = cb.failure_threshold;
  success_threshold = cb.success_threshold;
}
