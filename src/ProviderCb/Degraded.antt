-- ===== src/ProviderCb/Degraded.antt =====
-- The degraded state, and the default thresholds.
use nexus_ai_gateway.Common.{ℕ, ◌≤◌, ◌≢◌, List, [], ◌∷◌, String, arith}
use nexus_ai_gateway.ProviderCb.{
  ProviderCb, Event, cb_state_degraded, allows, succeeds, fails, new_provider_cb, step, run,
}
use nexus_ai_gateway.ProviderCb.Invariant.{step-SameConfig}

step_not_degraded :
    (now : ℕ) (e : Event) (cb : ProviderCb)
    → cb.failure_threshold ≤ cb.degraded_threshold
    → cb.state ≢ cb_state_degraded
    → (step now e cb).state ≢ cb_state_degraded
unfolding step
step_not_degraded now allows cb h n = ground arith
step_not_degraded now succeeds cb h n = ground arith
step_not_degraded now fails cb h n = ground arith

-- A breaker whose failure threshold is not above its degraded threshold never becomes degraded:
-- it opens first.
pub run_not_degraded :
    (es : List (ℕ × Event)) (cb : ProviderCb)
    → cb.failure_threshold ≤ cb.degraded_threshold
    → cb.state ≢ cb_state_degraded
    → (run es cb).state ≢ cb_state_degraded
unfolding run
run_not_degraded [] cb h n = n
run_not_degraded ((now, e) ∷ es) cb h n =
    run_not_degraded es (step now e cb) (omega (arith, step-SameConfig now e cb))
      (step_not_degraded now e cb h n)

-- So it is with every breaker that the constructor makes, whatever is recorded on it.
pub degraded_unreachable :
    (id : String) (es : List (ℕ × Event)) → (run es (new_provider_cb id)).state ≢ cb_state_degraded
unfolding new_provider_cb
degraded_unreachable id es = run_not_degraded es (new_provider_cb id) (omega arith) (ground arith)
