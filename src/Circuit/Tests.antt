-- ===== src/Circuit/Tests.antt =====
-- The circuit breaker on concrete inputs: runs of the code, and the theorems at inputs that meet
-- their hypotheses.
use nexus_ai_gateway.Common.{
  ℕ, ◌+◌, ◌*◌, ◌≤◌, ◌≡◌, refl, true, false, List, [], ◌∷◌, String, none, arith,
}
use nexus_ai_gateway.Common.Clock.{second}
use nexus_ai_gateway.Circuit.{
  Circuit, Event, state_closed, state_half_open, state_open, allows, succeeds, fails,
  default_config, new_circuit, step, run,
}
use nexus_ai_gateway.Circuit.Streak.{failing, streak, opening_needs_streak}
use nexus_ai_gateway.Circuit.Recovery.{
  AllAre, answers, fail_fast, rounds, recovers, asking, half_open_stalls,
}
use nexus_ai_gateway.Circuit.Manager.{new_manager, run_all, get, alone, calls_of, get-run_all}

abbrev fresh : Circuit
fresh = record {
  provider = "openai";
  state = state_closed;
  failures = 0;
  successes = 0;
  last_failure_time = 0;
  last_state_change = 0;
  config = default_config;
  on_state_change = false;
  notices = [];
}

fresh_is_new : new_circuit 0 "openai" default_config ≡ fresh
unfolding new_circuit
fresh_is_new = refl

-- Tripped by five failures, the last at the time 5.
abbrev tripped : Circuit
tripped = record fresh {
  state = state_open;
  failures = 5;
  last_failure_time = 5;
  last_state_change = 5;
}

trips_at_five : run (failing (1 ∷ 2 ∷ 3 ∷ 4 ∷ 5 ∷ [])) fresh ≡ tripped
unfolding run step
trips_at_five = refl

abbrev four : List (ℕ × Event)
four = (0, succeeds) ∷ failing (1 ∷ 2 ∷ 3 ∷ 4 ∷ [])

opening_needs_streak_example : 5 ≤ streak four + 1
opening_needs_streak_example =
    opening_needs_streak 0 5 "openai" default_config four (unfold run step new_circuit in refl)
      (unfold run step new_circuit in refl)

abbrev early_calls : List (ℕ × Event)
early_calls = (6, allows) ∷ (7, succeeds) ∷ (29 * second, allows) ∷ []

fail_fast_example :
    ((run early_calls tripped).state ≡ state_open) × AllAre false (answers early_calls tripped)
fail_fast_example = fail_fast tripped early_calls refl (
  omega arith,
  omega arith,
  (λ e. cc),
  (omega arith, omega arith, (λ e. cc), (omega arith, omega arith, (λ e. cc), tt)),
)

abbrev late : ℕ
late = 31 * second

recovers_example :
    let es = rounds (late ∷ late ∷ late ∷ []) in
    ((run es tripped).state ≡ state_closed)
    × ((run es tripped).failures ≡ 0)
    × AllAre true (answers es tripped)
recovers_example =
    recovers tripped late (late ∷ late ∷ []) refl (omega arith) (omega arith) (omega arith)

abbrev testing : Circuit
testing = record tripped { state = state_half_open; failures = 0 }

abbrev narrow : Circuit
narrow = record tripped { config = record default_config { half_open_max_calls = 2 } }

half_open_stalls_example :
    let d = run (rounds (late ∷ late ∷ [])) narrow in
    (d.state ≡ state_half_open)
    × (run (asking (late ∷ [])) d ≡ d)
    × AllAre false (answers (asking (late ∷ [])) d)
half_open_stalls_example =
    half_open_stalls narrow late (late ∷ []) (late ∷ []) refl (omega arith) (omega arith)
      (omega arith)

abbrev mixed : List (ℕ × String × Event)
mixed = (1, "openai", fails) ∷ (2, "mistral", fails) ∷ (3, "openai", succeeds) ∷ []

get-run_all_example :
    get "openai" (run_all mixed (new_manager default_config))
    ≡ alone "openai" default_config none (calls_of "openai" mixed)
get-run_all_example = get-run_all "openai" default_config mixed

-- With a limit of 2 and a threshold of 3, three requests that overlap close the circuit all the same.
abbrev overlapping : List (ℕ × Event)
overlapping =
    (40 * second, allows)
    ∷ (40 * second, allows)
    ∷ (40 * second, allows)
    ∷ (41 * second, succeeds)
    ∷ (41 * second, succeeds)
    ∷ (41 * second, succeeds)
    ∷ []

overlapping_requests_close :
    (run overlapping
      (record tripped { config = record default_config { half_open_max_calls = 2 } })).state
    ≡ state_closed
unfolding run step
overlapping_requests_close = refl
