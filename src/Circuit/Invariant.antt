-- ===== src/Circuit/Invariant.antt =====
-- What holds of a circuit between two calls.
use nexus_ai_gateway.Common.{ℕ, ◌<◌, ◌≡◌, ◌⊎◌, List, [], ◌∷◌, String, arith}
use nexus_ai_gateway.Circuit.{
  Circuit, Config, Event, state_closed, state_half_open, allows, succeeds, fails, resets,
  new_circuit, step, run,
}

-- A closed circuit is short of its failure threshold, and has failures or successes in a row,
-- not both. A half-open one has seen no failure, and is short of its success threshold.
pub record Inv (c : Circuit) : Type 0 where
  pub closed_short : c.state ≡ state_closed → c.failures < c.failure_threshold
  pub closed_alternates : c.state ≡ state_closed → (c.failures ≡ 0) ⊎ (c.successes ≡ 0)
  pub half_open_clean : c.state ≡ state_half_open → c.failures ≡ 0
  pub half_open_short : c.state ≡ state_half_open → c.successes < c.success_threshold

-- Both thresholds are positive, so that a count below them is possible.
pub record HasThresholds (c : Config) : Type 0 where
  pub failures_pos : 0 < c.failure_threshold
  pub successes_pos : 0 < c.success_threshold

pub new_circuit-Inv :
    (now : ℕ) (p : String) (k : Config) → HasThresholds k → Inv (new_circuit now p k)
unfolding new_circuit
new_circuit-Inv now p k h = ground arith

-- Every call leaves the configuration alone.
pub config-step : (now : ℕ) (e : Event) (c : Circuit) → (step now e c).config ≡ c.config
unfolding step
config-step now e c = ground arith

step-Inv : (now : ℕ) (e : Event) (c : Circuit) → HasThresholds c.config → Inv c → Inv (step now e c)
unfolding step
step-Inv now allows c h v = ground arith
step-Inv now succeeds c h v = ground arith
step-Inv now fails c h v = ground arith
step-Inv now resets c h v = ground arith

pub run-Inv :
    (es : List (ℕ × Event)) (c : Circuit) → HasThresholds c.config → Inv c → Inv (run es c)
unfolding run
run-Inv [] c h v = v
run-Inv ((now, e) ∷ es) c h v =
    run-Inv es (step now e c) (ground (arith, config-step now e c)) (step-Inv now e c h v)
