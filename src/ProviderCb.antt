-- ===== src/ProviderCb.antt =====
-- internal/resilience/circuit_breaker.go, layer 1: the provider-level circuit breaker. A method
-- returns the new breaker, with its result where it has one; the clock's reading is an argument.
-- Thresholds carry no negative value and counters do not wrap; `FailureCount--` is used only
-- before a test for `<= 0` that sets the field to 0, so `-` on ℕ gives what the code stores.
pub mod Invariant
pub mod Degraded
pub mod Credit
pub mod Tests
use nexus_ai_gateway.Common.{
  ℕ, ◌+◌, ◌-◌, ◌*◌, Bool, true, false, List, [], ◌∷◌, String, leb, if◌then◌else◌,
}
use nexus_ai_gateway.Common.Clock.{after, second}

pub data CbState : Type 0 where
  cb_state_closed cb_state_half_open cb_state_open cb_state_degraded : CbState

pub record ProviderCb : Type 0 where
  pub provider_id : String
  pub state : CbState
  pub failure_count : ℕ
  pub success_count : ℕ
  pub last_failure : ℕ
  pub cooldown_ends : ℕ
  pub last_state_change : ℕ
  pub failure_threshold : ℕ
  pub success_threshold : ℕ
  pub cooldown_duration : ℕ
  pub degraded_threshold : ℕ
  pub total_requests : ℕ
  pub total_failures : ℕ
  pub total_successes : ℕ

unfoldable pub new_provider_cb : String → ProviderCb
new_provider_cb id = record {
  provider_id = id;
  state = cb_state_closed;
  failure_count = 0;
  success_count = 0;
  last_failure = 0;
  cooldown_ends = 0;
  last_state_change = 0;
  failure_threshold = 5;
  success_threshold = 3;
  cooldown_duration = 30 * second;
  degraded_threshold = 10;
  total_requests = 0;
  total_failures = 0;
  total_successes = 0;
}

abbrev pub same_state : CbState → CbState → Bool
same_state cb_state_closed cb_state_closed = true
same_state cb_state_half_open cb_state_half_open = true
same_state cb_state_open cb_state_open = true
same_state cb_state_degraded cb_state_degraded = true
same_state _ _ = false

-- `if state == CBStateOpen { cb.CooldownEnds = ... }`.
start_cooldown : CbState → ℕ → ProviderCb → ProviderCb
start_cooldown cb_state_open now cb = record cb { cooldown_ends = now + cb.cooldown_duration }
start_cooldown _ now cb = cb

unfoldable pub transition_to_locked : ℕ → CbState → ProviderCb → ProviderCb
unfolding start_cooldown
transition_to_locked now new cb =
    if same_state cb.state new
    then cb
    else start_cooldown new now (record cb { state = new; last_state_change = now })

-- The cases of the `switch` in `Allow`.
allow_in : CbState → ℕ → ProviderCb → ProviderCb × Bool
unfolding transition_to_locked
allow_in cb_state_open now cb =
    if after now cb.cooldown_ends
    then (transition_to_locked now cb_state_half_open cb, true)
    else (cb, false)
allow_in _ now cb = (cb, true)

unfoldable pub allow : ℕ → ProviderCb → ProviderCb × Bool
unfolding allow_in
allow now cb = allow_in cb.state now cb

record_success_in : CbState → ℕ → ProviderCb → ProviderCb
unfolding transition_to_locked
record_success_in cb_state_closed now cb = record cb { failure_count = 0 }
record_success_in cb_state_half_open now cb =
    let counted = record cb { success_count = cb.success_count + 1 } in
    if leb cb.success_threshold counted.success_count
    then record (transition_to_locked now cb_state_closed counted) {
      failure_count = 0;
      success_count = 0;
    }
    else counted
record_success_in cb_state_open now cb = record (transition_to_locked now cb_state_half_open cb) {
  success_count = 1;
}
record_success_in cb_state_degraded now cb =
    let eased = record cb { failure_count = cb.failure_count - 1 } in
    if leb eased.failure_count 0
    then record (transition_to_locked now cb_state_closed eased) { failure_count = 0 }
    else eased

unfoldable pub record_success : ℕ → ProviderCb → ProviderCb
unfolding record_success_in
record_success now cb =
    record_success_in cb.state now (record cb {
      total_requests = cb.total_requests + 1;
      total_successes = cb.total_successes + 1;
    })

record_failure_in : CbState → ℕ → ProviderCb → ProviderCb
unfolding transition_to_locked
record_failure_in cb_state_closed now cb =
    let counted = record cb { failure_count = cb.failure_count + 1; success_count = 0 } in
    if leb cb.failure_threshold counted.failure_count
    then transition_to_locked now cb_state_open counted
    else if leb cb.degraded_threshold counted.failure_count
    then transition_to_locked now cb_state_degraded counted
    else counted
record_failure_in cb_state_half_open now cb = transition_to_locked now cb_state_open cb
record_failure_in cb_state_open now cb = record cb { cooldown_ends = now + cb.cooldown_duration }
record_failure_in cb_state_degraded now cb =
    let counted = record cb { failure_count = cb.failure_count + 1 } in
    if leb cb.degraded_threshold counted.failure_count
    then transition_to_locked now cb_state_open counted
    else counted

unfoldable pub record_failure : ℕ → ProviderCb → ProviderCb
unfolding record_failure_in
record_failure now cb = record_failure_in cb.state now (record cb {
  total_requests = cb.total_requests + 1;
  total_failures = cb.total_failures + 1;
  last_failure = now;
})

-- The calls that change a breaker.
pub data Event : Type 0 where
  allows succeeds fails : Event

unfoldable pub step : ℕ → Event → ProviderCb → ProviderCb
unfolding allow record_success record_failure
step now allows cb = (allow now cb).0
step now succeeds cb = record_success now cb
step now fails cb = record_failure now cb

unfoldable pub run : List (ℕ × Event) → ProviderCb → ProviderCb
run [] cb = cb
run ((now, e) ∷ es) cb = run es (step now e cb)
