-- ===== src/Circuit.antt =====
-- internal/resilience/circuitbreaker/circuitbreaker.go: one provider's circuit breaker, and the
-- manager that keeps one for each provider. A method returns the new circuit, with its result
-- where it has one; the clock's reading is an argument. Thresholds and counters are `int` fields
-- that carry no negative value, and no counter reaches 2^63.
pub mod Invariant
pub mod Streak
pub mod Recovery
pub mod Notices
pub mod Manager
pub mod Tests
use nexus_ai_gateway.Common.{
  ℕ, ◌+◌, ◌*◌, Bool, true, false, List, [], ◌∷◌, String, leb, ltb, if◌then◌else◌,
}
use nexus_ai_gateway.Common.Clock.{elapsed, second}

pub data CircuitState : Type 0 where
  state_closed state_half_open state_open : CircuitState

pub record Config : Type 0 where
  pub failure_threshold : ℕ
  pub success_threshold : ℕ
  pub open_duration : ℕ
  pub half_open_max_calls : ℕ

abbrev pub default_config : Config
default_config = record {
  failure_threshold = 5;
  success_threshold = 3;
  open_duration = 30 * second;
  half_open_max_calls = 3;
}

-- A call of `onStateChange`.
pub record Notice : Type 0 where
  pub provider : String
  pub old : CircuitState
  pub new : CircuitState

-- `on_state_change` says whether the callback is set, and `notices` holds the calls of it, the
-- latest first; the code makes each in a goroutine of its own.
pub record Circuit : Type 0 where
  pub provider : String
  pub state : CircuitState
  pub failures : ℕ
  pub successes : ℕ
  pub last_failure_time : ℕ
  pub last_state_change : ℕ
  pub config : Config
  pub open config use *
  pub on_state_change : Bool
  pub notices : List Notice

unfoldable pub new_circuit : ℕ → String → Config → Circuit
new_circuit now provider config = record {
  provider = provider;
  state = state_closed;
  failures = 0;
  successes = 0;
  last_failure_time = 0;
  last_state_change = now;
  config = config;
  on_state_change = false;
  notices = [];
}

-- `c.state == newState`.
abbrev pub same_state : CircuitState → CircuitState → Bool
same_state state_closed state_closed = true
same_state state_half_open state_half_open = true
same_state state_open state_open = true
same_state _ _ = false

reset_counters : CircuitState → Circuit → Circuit
reset_counters state_closed c = record c { failures = 0; successes = 0 }
reset_counters state_half_open c = record c { failures = 0; successes = 0 }
reset_counters state_open c = c

fire : CircuitState → CircuitState → Circuit → Circuit
fire old new c =
    let notice : Notice = record { provider = c.provider; old = old; new = new } in
    if c.on_state_change then record c { notices = notice ∷ c.notices } else c

unfoldable pub transition_to : ℕ → CircuitState → Circuit → Circuit
unfolding reset_counters fire
transition_to now new c =
    if same_state c.state new
    then c
    else fire c.state new (reset_counters new (record c { state = new; last_state_change = now }))

-- The three cases of the `switch` in `Allow`, by the state at its start.
allow_in : CircuitState → ℕ → Circuit → Circuit × Bool
unfolding transition_to
allow_in state_closed now c = (c, true)
allow_in state_open now c =
    if elapsed now c.last_failure_time c.open_duration
    then (transition_to now state_half_open c, true)
    else (c, false)
allow_in state_half_open now c =
    if ltb (c.successes + c.failures) c.half_open_max_calls then (c, true) else (c, false)

unfoldable pub allow : ℕ → Circuit → Circuit × Bool
unfolding allow_in
allow now c = allow_in c.state now c

record_success_in : CircuitState → ℕ → Circuit → Circuit
unfolding transition_to
record_success_in state_closed now c = record c { failures = 0; successes = c.successes + 1 }
record_success_in state_half_open now c =
    let counted = record c { successes = c.successes + 1 } in
    if leb c.success_threshold counted.successes
    then transition_to now state_closed counted
    else counted
record_success_in state_open now c = c

unfoldable pub record_success : ℕ → Circuit → Circuit
unfolding record_success_in
record_success now c = record_success_in c.state now c

-- `c` has its `last_failure_time` already.
record_failure_in : CircuitState → ℕ → Circuit → Circuit
unfolding transition_to
record_failure_in state_closed now c =
    let counted = record c { failures = c.failures + 1; successes = 0 } in
    if leb c.failure_threshold counted.failures
    then transition_to now state_open counted
    else counted
record_failure_in state_half_open now c =
    transition_to now state_open (record c { failures = c.failures + 1 })
record_failure_in state_open now c = c

unfoldable pub record_failure : ℕ → Circuit → Circuit
unfolding record_failure_in
record_failure now c = record_failure_in c.state now (record c { last_failure_time = now })

unfoldable pub reset : ℕ → Circuit → Circuit
unfolding transition_to
reset now c = transition_to now state_closed c

-- The calls that change a circuit.
pub data Event : Type 0 where
  allows succeeds fails resets : Event

unfoldable pub step : ℕ → Event → Circuit → Circuit
unfolding allow record_success record_failure reset
step now allows c = (allow now c).0
step now succeeds c = record_success now c
step now fails c = record_failure now c
step now resets c = reset now c

-- Calls with the times at which they are made, the earliest first.
unfoldable pub run : List (ℕ × Event) → Circuit → Circuit
run [] c = c
run ((now, e) ∷ es) c = run es (step now e c)
