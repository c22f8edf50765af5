-- ===== src/Provider/Tests.antt =====
-- Runs of the selector on concrete providers, and the instances of the properties.
use nexus_ai_gateway.Common.{
  ℕ, ◌≡◌, Bool, true, false, ◌&&◌, Option, none, some, List, [], ◌∷◌, String, refl, map, str_eq,
}
use nexus_ai_gateway.Common.Int.{ℤ, pos, negsuc}
use nexus_ai_gateway.Provider.{
  Provider, RotationStrategy, priority_based, round_robin, least_loaded, weighted_random,
  HealthChecker, ProviderSelector, chosen, chosen_nil, panics, healthy_for, get_healthy_providers,
  best_priority, select_by_priority, best_latency, select_by_latency, select_weighted_random,
  select_provider,
}
use nexus_ai_gateway.Provider.Best.{
  Chosen, IsHighest, select_provider-healthy, select_by_priority-IsHighest,
}
use nexus_ai_gateway.Provider.Turns.{turns, turns_are_fair}

abbrev provider : String → ℤ → Bool → Provider
provider id priority enabled = record {
  id = id;
  name = id;
  type = "openai";
  endpoint = "e";
  credentials = "";
  status = "active";
  priority = priority;
  enabled = enabled;
  health_check_url = "";
  created_at = 0;
  updated_at = 0;
}

-- "b" is not healthy, and "c" has the lower latency.
abbrev checker : HealthChecker
checker = record {
  is_provider_healthy = λ id. not_b (str_eq id "b");
  latency_ms = λ id. slow_a (str_eq id "a");
}
  where
    not_b : Bool → Bool
    not_b true = false
    not_b false = true

    slow_a : Bool → Option ℕ
    slow_a true = some 90
    slow_a false = some 20

abbrev four : List Provider
four =
    provider "a" (pos 1) true
    ∷ provider "b" (pos 9) true
    ∷ provider "c" (pos 5) true
    ∷ provider "d" (pos 7) false
    ∷ []

abbrev selector : RotationStrategy → ProviderSelector
selector strategy = record {
  health_checker = some checker;
  strategy = strategy;
  providers = four;
  index = 0;
}

by_priority :
    (select_provider none (selector priority_based)).1 ≡ chosen (provider "c" (pos 5) true)
unfolding select_provider get_healthy_providers select_by_priority best_priority
by_priority = refl

by_latency : (select_provider none (selector least_loaded)).1 ≡ chosen (provider "c" (pos 5) true)
unfolding select_provider get_healthy_providers select_by_latency best_latency
by_latency = refl

by_weight :
    (select_provider (some 0) (selector weighted_random)).1 ≡ chosen (provider "a" (pos 1) true)
unfolding select_provider get_healthy_providers select_weighted_random
by_weight = refl

-- A provider with a negative priority is never chosen by priority, but no error is given.
negative_priority : select_by_priority (provider "a" (negsuc 0) true ∷ []) ≡ chosen_nil
unfolding select_by_priority best_priority
negative_priority = refl

-- The choice by latency without a health checker panics.
latency_without_checker :
    (select_provider none (record (selector least_loaded) { health_checker = none })).1 ≡ panics
unfolding select_provider get_healthy_providers select_by_latency
latency_without_checker = refl

select_provider-healthy_example :
    Chosen
      (λ p. (p.enabled && healthy_for (some checker) p) ≡ true)
      (select_provider none (selector priority_based)).1
select_provider-healthy_example = select_provider-healthy none (selector priority_based)

select_by_priority-IsHighest_example : Chosen (IsHighest four) (select_by_priority four)
select_by_priority-IsHighest_example = select_by_priority-IsHighest four

-- Two health checkers that differ in a latency.
abbrev answers : List (Option HealthChecker)
answers = some checker ∷ some (record checker { latency_ms = λ id. none }) ∷ []

abbrev healthy_ones : List Provider
healthy_ones = provider "a" (pos 1) true ∷ provider "c" (pos 5) true ∷ []

turns_are_fair_example : turns answers (selector round_robin) ≡ map chosen healthy_ones
unfolding get_healthy_providers
turns_are_fair_example =
    turns_are_fair healthy_ones answers (selector round_robin) refl refl (refl, (refl, tt)) refl
