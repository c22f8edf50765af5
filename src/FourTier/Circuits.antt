-- ===== src/FourTier/Circuits.antt =====
-- internal/resilience/fallback_tiers.go, `CircuitBreaker`: a circuit for each provider.
use nexus_ai_gateway.Common.{
  ℕ, ◌+◌, ◌-◌, Bool, true, false, Option, none, some, [], String, if◌then◌else◌, leb,
}
use nexus_ai_gateway.Common.Clock.{after}
use nexus_ai_gateway.Common.Dict.{Dict, find, put}

pub data CircuitStateType : Type 0 where
  circuit_closed circuit_open circuit_half_open : CircuitStateType

pub record CircuitState : Type 0 where
  pub state : CircuitStateType
  pub failure_count : ℕ
  pub last_failure : ℕ
  pub next_retry : ℕ

pub record CircuitBreaker : Type 0 where
  pub states : Dict CircuitState
  pub failure_threshold : ℕ
  pub timeout : ℕ

unfoldable pub new_circuit_breaker : ℕ → ℕ → CircuitBreaker
new_circuit_breaker failure_threshold timeout = record {
  states = [];
  failure_threshold = failure_threshold;
  timeout = timeout;
}

abbrev pub or_closed : Option CircuitState → CircuitState
or_closed none = record {
  state = circuit_closed;
  failure_count = 0;
  last_failure = 0;
  next_retry = 0;
}
or_closed (some c) = c

-- The state that `getOrCreateState` stores if it is not there yet.
unfoldable pub get_or_create_state : String → CircuitBreaker → CircuitState
get_or_create_state id cb = or_closed (find id cb.states)

abbrev pub store : String → CircuitState → CircuitBreaker → CircuitBreaker
store id c cb = record cb { states = put id c cb.states }

abbrev pub succeeded : CircuitStateType → CircuitState → CircuitState
succeeded circuit_half_open c = record c { state = circuit_closed; failure_count = 0 }
succeeded circuit_closed c = record c { failure_count = c.failure_count - 1 }
succeeded circuit_open c = record c { failure_count = c.failure_count - 1 }

abbrev pub success_found : String → CircuitBreaker → Option CircuitState → CircuitBreaker
success_found id cb none = cb
success_found id cb (some c) = store id (succeeded c.state c) cb

unfoldable pub record_success : String → CircuitBreaker → CircuitBreaker
record_success id cb = success_found id cb (find id cb.states)

unfoldable pub failed : ℕ → CircuitBreaker → CircuitState → CircuitState
failed now cb c =
    let counted = record c { failure_count = c.failure_count + 1; last_failure = now } in
    if leb cb.failure_threshold (c.failure_count + 1)
    then record counted { state = circuit_open; next_retry = now + cb.timeout }
    else counted

unfoldable pub record_failure : ℕ → String → CircuitBreaker → CircuitBreaker
record_failure now id cb = store id (failed now cb (get_or_create_state id cb)) cb

-- The state after `IsOpen`, with its answer.
abbrev pub asked : ℕ → CircuitStateType → CircuitState → CircuitState × Bool
asked now circuit_open c =
    if after now c.next_retry then (record c { state = circuit_half_open }, false) else (c, true)
asked now circuit_closed c = (c, false)
asked now circuit_half_open c = (c, false)

unfoldable pub is_open : ℕ → String → CircuitBreaker → CircuitBreaker × Bool
is_open now id cb =
    let c = get_or_create_state id cb in
    let (c', shut) = asked now c.state c in (store id c' cb, shut)
