-- ===== src/Provider.antt =====
-- internal/provider/models.go and rotation.go: the choice of a provider among the enabled and
-- healthy ones. What the health checker says is a parameter, and so is the place that the weighted
-- choice, which counts in floating point, gives. A priority is an integer.
pub mod Best
pub mod Turns
pub mod Tests
use nexus_ai_gateway.Common.{
  ℕ, zero, suc, ◌+◌, ◌%◌, Bool, true, false, ◌&&◌, Option, none, some, List, [], ◌∷◌, String,
  if◌then◌else◌, ltb, length, select,
}
use nexus_ai_gateway.Common.Int.{ℤ, pos, negsuc, lt_int}

pub record Provider : Type 0 where
  pub id : String
  pub name : String
  pub type : String
  pub endpoint : String
  pub credentials : String
  pub status : String
  pub priority : ℤ
  pub enabled : Bool
  pub health_check_url : String
  pub created_at : ℕ
  pub updated_at : ℕ

pub data RotationStrategy : Type 0 where
  priority_based round_robin least_loaded weighted_random : RotationStrategy

abbrev pub strategy_string : RotationStrategy → String
strategy_string priority_based = "priority"
strategy_string round_robin = "round_robin"
strategy_string least_loaded = "least_loaded"
strategy_string weighted_random = "weighted_random"

-- What `IsProviderHealthy` says during one call of `SelectProvider`, and the latency that
-- `GetHealthStatus` gives; at another call it may say something else.
pub record HealthChecker : Type 0 where
  pub is_provider_healthy : String → Bool
  pub latency_ms : String → Option ℕ

pub record ProviderSelector : Type 0 where
  pub health_checker : Option HealthChecker
  pub strategy : RotationStrategy
  pub providers : List Provider
  pub index : ℕ

-- A choice that gives `nil` without an error, and one that reads the absent health checker.
pub data Choice : Type 0 where
  chosen : Provider → Choice
  chosen_nil no_healthy_providers panics : Choice

abbrev pub healthy_for : Option HealthChecker → Provider → Bool
healthy_for none p = true
healthy_for (some hc) p = hc.is_provider_healthy p.id

unfoldable pub get_healthy_providers : ProviderSelector → List Provider
get_healthy_providers ps = select (λ p. p.enabled && healthy_for ps.health_checker p) ps.providers

abbrev pub or_nil : Option Provider → Choice
or_nil none = chosen_nil
or_nil (some p) = chosen p

-- The loop of `selectByPriority`, with the best so far and its priority.
unfoldable pub best_priority : List Provider → Option Provider → ℤ → Option Provider
best_priority [] best n = best
best_priority (p ∷ ps) best n =
    let better = best_priority ps (some p) p.priority in
    let as_good = best_priority ps best n in if lt_int n p.priority then better else as_good

unfoldable pub select_by_priority : List Provider → Choice
select_by_priority candidates = or_nil (best_priority candidates none (negsuc 0))

-- `candidates[i]`.
abbrev pub at : ℕ → List Provider → Option Provider
at i [] = none
at zero (p ∷ ps) = some p
at (suc i) (p ∷ ps) = at i ps

unfoldable pub select_round_robin : List Provider → ProviderSelector → ProviderSelector × Choice
select_round_robin candidates ps =
    (record ps { index = ps.index + 1 }, or_nil (at (ps.index % length candidates) candidates))

-- The largest int.
abbrev pub max_int : ℕ
max_int = 9_223_372_036_854_775_807

abbrev pub or_else : Option Provider → Provider → Option Provider
or_else none p = some p
or_else (some q) p = some q

-- One round of the loop of `selectByLatency`.
abbrev pub faster : Option ℕ → Provider → Option Provider → ℕ → Option Provider × ℕ
faster none p best n = (or_else best p, n)
faster (some l) p best n = if ltb l n then (some p, l) else (best, n)

unfoldable pub best_latency : HealthChecker → List Provider → Option Provider → ℕ → Option Provider
best_latency hc [] best n = best
best_latency hc (p ∷ ps) best n =
    let (best', n') = faster (hc.latency_ms p.id) p best n in best_latency hc ps best' n'

unfoldable pub select_by_latency : Option HealthChecker → List Provider → Choice
select_by_latency none candidates = panics
select_by_latency (some hc) candidates = or_nil (best_latency hc candidates none max_int)

-- `place` is where the weighted choice ends; without one it is the first candidate.
unfoldable pub select_weighted_random : Option ℕ → List Provider → Choice
select_weighted_random none candidates = or_nil (at 0 candidates)
select_weighted_random (some place) candidates = or_nil (at place candidates)

abbrev pub select_by :
    Option ℕ → RotationStrategy → List Provider → ProviderSelector → ProviderSelector × Choice
select_by place priority_based candidates ps = (ps, select_by_priority candidates)
select_by place round_robin candidates ps = select_round_robin candidates ps
select_by place least_loaded candidates ps = (ps, select_by_latency ps.health_checker candidates)
select_by place weighted_random candidates ps = (ps, select_weighted_random place candidates)

abbrev pub select_among : Option ℕ → List Provider → ProviderSelector → ProviderSelector × Choice
select_among place [] ps = (ps, no_healthy_providers)
select_among place (p ∷ candidates) ps = select_by place ps.strategy (p ∷ candidates) ps

unfoldable pub select_provider : Option ℕ → ProviderSelector → ProviderSelector × Choice
select_provider place ps = select_among place (get_healthy_providers ps) ps
