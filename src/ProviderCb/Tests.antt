-- ===== src/ProviderCb/Tests.antt =====
-- The provider's breaker on concrete inputs: runs of the code, and the theorems at inputs that
-- meet their hypotheses.
use nexus_ai_gateway.Common.{ℕ, ◌≡◌, ◌≢◌, refl, List, [], ◌∷◌, arith}
use nexus_ai_gateway.ProviderCb.{
  ProviderCb, Event, cb_state_half_open, cb_state_open, cb_state_degraded, allows, succeeds, fails,
  new_provider_cb, step, run,
}
use nexus_ai_gateway.ProviderCb.Invariant.{Inv, provider_run-Inv, new_provider_cb-Inv}
use nexus_ai_gateway.ProviderCb.Degraded.{degraded_unreachable}

abbrev outcomes : List (ℕ × Event)
outcomes = (1, fails) ∷ (2, fails) ∷ (3, allows) ∷ (4, succeeds) ∷ (5, fails) ∷ []

five_failures : List (ℕ × Event)
five_failures = (1, fails) ∷ (2, fails) ∷ (3, fails) ∷ (4, fails) ∷ (5, fails) ∷ []

opens_at_five : (run five_failures (new_provider_cb "openai")).state ≡ cb_state_open
unfolding run step new_provider_cb five_failures
opens_at_five = refl

provider_run-Inv_example : Inv (run outcomes (new_provider_cb "openai"))
unfolding new_provider_cb
provider_run-Inv_example =
    provider_run-Inv outcomes (new_provider_cb "openai") (omega arith)
      (new_provider_cb-Inv "openai")

degraded_unreachable_example : (run outcomes (new_provider_cb "openai")).state ≢ cb_state_degraded
degraded_unreachable_example = degraded_unreachable "openai" outcomes

-- Half-open with two of the three successes that close it.
abbrev trying : ProviderCb
trying = record {
  provider_id = "openai";
  state = cb_state_half_open;
  failure_count = 5;
  success_count = 2;
  last_failure = 5;
  cooldown_ends = 5;
  last_state_change = 6;
  failure_threshold = 5;
  success_threshold = 3;
  cooldown_duration = 30;
  degraded_threshold = 10;
  total_requests = 7;
  total_failures = 5;
  total_successes = 2;
}
