-- ===== src/FourTier/Tests.antt =====
-- Runs of the fallback over four tiers, and the instances of the properties.
use nexus_ai_gateway.Common.{
  ℕ, ◌+◌, ◌≤◌, ◌≡◌, Bool, true, false, some, [], ◌∷◌, refl, inl, inr, if◌then◌else◌,
}
use nexus_ai_gateway.Common.Dict.{find, put}
use nexus_ai_gateway.Fallback.{tier_free, same_tier}
use nexus_ai_gateway.FourTier.Circuits.{
  new_circuit_breaker, get_or_create_state, failed, is_open, record_failure,
}
use nexus_ai_gateway.FourTier.{
  FallbackRequestOptions, Executor, select_model_for_provider, determine_start_tier,
  initialize_tiers, new_four_tier_auto_fallback, get_available_providers, set_tier_health, settle,
  try_provider, try_all, try_tier, try_tiers, execute_with_fallback,
}
use nexus_ai_gateway.FourTier.Calls.{attempts_bound, free_tier_unused}

-- Every provider is down; the state counts the calls.
abbrev counting : Executor ℕ ℕ
counting = record { execute = λ p model s. (s + 1, some "down"); clock = λ s. s }

-- The state counts the calls of free providers.
abbrev counting_free : Executor ℕ ℕ
counting_free = record {
  execute = λ p model s. (if same_tier p.tier tier_free then s + 1 else s, some "down");
  clock = λ s. s;
}

abbrev request : ℕ → Bool → FallbackRequestOptions
request max_attempts allow_free = record {
  tenant_id = "t";
  preferred_tier = 0;
  minimum_tier = 0;
  allow_free = allow_free;
  max_attempts = max_attempts;
  max_latency_ms = 0;
  require_vision = false;
  require_streaming = false;
  context_window = 0;
  preferred_provider = "";
  strategy = "";
}

-- All 11 providers are tried, 8 without the free tier, and 2 when no more are allowed.
all_tried :
    (execute_with_fallback counting (request 20 true) (new_four_tier_auto_fallback 0) 0).0 ≡ 11
unfolding execute_with_fallback determine_start_tier initialize_tiers new_four_tier_auto_fallback
    new_circuit_breaker get_available_providers settle try_provider try_all try_tier try_tiers
    get_or_create_state failed is_open record_failure select_model_for_provider find put
all_tried = refl

paid_tried :
    (execute_with_fallback counting (request 20 false) (new_four_tier_auto_fallback 0) 0).0 ≡ 8
unfolding execute_with_fallback determine_start_tier initialize_tiers new_four_tier_auto_fallback
    new_circuit_breaker get_available_providers settle try_provider try_all try_tier try_tiers
    get_or_create_state failed is_open record_failure select_model_for_provider find put
paid_tried = refl

two_tried :
    (execute_with_fallback counting
      (request 2 true)
      (set_tier_health 1 false (new_four_tier_auto_fallback 0))
      0).2.fallback_path
    ≡ "deepseek:down" ∷ "xai-grok:down" ∷ []
unfolding execute_with_fallback determine_start_tier initialize_tiers new_four_tier_auto_fallback
    new_circuit_breaker get_available_providers settle try_provider try_all try_tier try_tiers
    get_or_create_state failed is_open record_failure select_model_for_provider find put
    set_tier_health
two_tried = refl

attempts_bound_example :
    let (s', f', r) =
      execute_with_fallback counting (request 2 true) (new_four_tier_auto_fallback 0) 0 in
    (s' ≡ 0 + r.attempts) × (r.attempts ≤ 2)
attempts_bound_example =
    attempts_bound counting (request 2 true) (λ s. s) (new_four_tier_auto_fallback 0) 0
      (λ p model t. refl)

free_tier_unused_example :
    (execute_with_fallback counting_free (request 20 false) (new_four_tier_auto_fallback 0) 0).0 ≡ 0
unfolding new_four_tier_auto_fallback initialize_tiers
free_tier_unused_example =
    free_tier_unused counting_free (request 20 false) (λ s. s) (new_four_tier_auto_fallback 0) 0
      refl
      (
        inr (refl, (refl, (refl, tt))),
        (inr (refl, (refl, (refl, tt))), (inr (refl, (refl, tt)), (inl refl, tt))),
      )
      (λ p model t c. rw c refl)
