-- ===== src/ProviderCb/Invariant.antt =====
-- What holds of a provider's breaker between two calls, and its account of the outcomes.
use nexus_ai_gateway.Common.{[], ◌∷◌, suc, ◌+◌, List, ℕ, ◌+◌, ◌≤◌, ◌<◌, ◌≡◌, String, arith}
use nexus_ai_gateway.ProviderCb.{
  run, ProviderCb, Event, cb_state_closed, cb_state_degraded, allows, succeeds, fails,
  new_provider_cb, step,
}

-- The thresholds make sense: a success that ends the open state does not close the breaker too.
pub record HasThresholds (cb : ProviderCb) : Type 0 where
  pub failures_pos : 0 < cb.failure_threshold
  pub successes_two : 2 ≤ cb.success_threshold
  pub degraded_pos : 0 < cb.degraded_threshold

pub record Inv (cb : ProviderCb) : Type 0 where
  pub closed_short : cb.state ≡ cb_state_closed → cb.failure_count < cb.failure_threshold
  pub closed_fresh : cb.state ≡ cb_state_closed → cb.success_count ≡ 0
  pub successes_short : cb.success_count < cb.success_threshold
  pub degraded_fresh : cb.state ≡ cb_state_degraded → cb.success_count ≡ 0
  pub closed_calm : cb.state ≡ cb_state_closed → cb.failure_count < cb.degraded_threshold
  pub degraded_capped : cb.state ≡ cb_state_degraded → cb.failure_count ≤ cb.degraded_threshold
  pub degraded_early : cb.state ≡ cb_state_degraded → cb.degraded_threshold < cb.failure_threshold
  pub balanced : cb.total_requests ≡ cb.total_successes + cb.total_failures

pub new_provider_cb-Inv : (id : String) → Inv (new_provider_cb id)
unfolding new_provider_cb
new_provider_cb-Inv id = ground arith

-- No call changes the configuration.
pub record SameConfig (a b : ProviderCb) : Type 0 where
  pub failure_same : b.failure_threshold ≡ a.failure_threshold
  pub success_same : b.success_threshold ≡ a.success_threshold
  pub degraded_same : b.degraded_threshold ≡ a.degraded_threshold
  pub duration_same : b.cooldown_duration ≡ a.cooldown_duration

pub step-SameConfig : (now : ℕ) (e : Event) (cb : ProviderCb) → SameConfig cb (step now e cb)
unfolding step
step-SameConfig now allows cb = ground arith
step-SameConfig now succeeds cb = ground arith
step-SameConfig now fails cb = ground arith

step-Inv : (now : ℕ) (e : Event) (cb : ProviderCb) → HasThresholds cb → Inv cb → Inv (step now e cb)
unfolding step
step-Inv now allows cb h v = ground arith
step-Inv now succeeds cb h v = ground arith
step-Inv now fails cb h v = ground arith

HasThresholds-step :
    (now : ℕ) (e : Event) (cb : ProviderCb) → HasThresholds cb → HasThresholds (step now e cb)
HasThresholds-step now e cb h = ground (arith, step-SameConfig now e cb)

pub provider_run-Inv :
    (es : List (ℕ × Event)) (cb : ProviderCb) → HasThresholds cb → Inv cb → Inv (run es cb)
unfolding run
provider_run-Inv [] cb h v = v
provider_run-Inv ((now, e) ∷ es) cb h v =
    provider_run-Inv es (step now e cb) (HasThresholds-step now e cb h) (step-Inv now e cb h v)

-- The outcomes of a kind in a list of calls.
abbrev pub successes_in : List (ℕ × Event) → ℕ
successes_in [] = 0
successes_in ((_, allows) ∷ es) = successes_in es
successes_in ((_, succeeds) ∷ es) = suc (successes_in es)
successes_in ((_, fails) ∷ es) = successes_in es

abbrev pub failures_in : List (ℕ × Event) → ℕ
failures_in [] = 0
failures_in ((_, allows) ∷ es) = failures_in es
failures_in ((_, succeeds) ∷ es) = failures_in es
failures_in ((_, fails) ∷ es) = suc (failures_in es)

abbrev one_if_success : Event → ℕ
one_if_success succeeds = 1
one_if_success _ = 0

abbrev one_if_failure : Event → ℕ
one_if_failure fails = 1
one_if_failure _ = 0

step_totals :
    (now : ℕ) (e : Event) (cb : ProviderCb)
    → ((step now e cb).total_successes ≡ cb.total_successes + one_if_success e)
      × ((step now e cb).total_failures ≡ cb.total_failures + one_if_failure e)
unfolding step
step_totals now allows cb = ground arith
step_totals now succeeds cb = ground arith
step_totals now fails cb = ground arith

run_totals_from :
    (es : List (ℕ × Event)) (cb : ProviderCb)
    → ((run es cb).total_successes ≡ cb.total_successes + successes_in es)
      × ((run es cb).total_failures ≡ cb.total_failures + failures_in es)
unfolding run
run_totals_from [] cb = omega arith
run_totals_from ((now, allows) ∷ es) cb =
    omega (arith, run_totals_from es (step now allows cb), step_totals now allows cb)
run_totals_from ((now, succeeds) ∷ es) cb =
    omega (arith, run_totals_from es (step now succeeds cb), step_totals now succeeds cb)
run_totals_from ((now, fails) ∷ es) cb =
    omega (arith, run_totals_from es (step now fails cb), step_totals now fails cb)

-- The totals of a new breaker count the outcomes recorded: successes, failures, and requests as
-- their sum, in whatever states they were recorded.
pub run_totals :
    (id : String) (es : List (ℕ × Event))
    → let cb = run es (new_provider_cb id) in
      (cb.total_successes ≡ successes_in es)
      × (cb.total_failures ≡ failures_in es)
      × (cb.total_requests ≡ successes_in es + failures_in es)
unfolding new_provider_cb
run_totals id es = omega (
  arith,
  run_totals_from es (new_provider_cb id),
  provider_run-Inv es (new_provider_cb id) (omega arith) (new_provider_cb-Inv id),
)
