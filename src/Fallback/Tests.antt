-- ===== src/Fallback/Tests.antt =====
-- Runs of the fallback orchestrator on concrete providers, and the instances of the properties.
use nexus_ai_gateway.Common.{
  ℕ, ◌+◌, ◌≤◌, ◌≡◌, Bool, true, Option, none, some, List, [], ◌∷◌, refl, ltb, inl, ◌⊎◌,
}
use nexus_ai_gateway.Fallback.{
  ProviderTier, tier_subscription, tier_cheap, tier_free, Provider, FallbackRequest,
  FallbackResponse, new_orchestrator, build_tier_hierarchy, find_minimum, find_start_tier,
  at_address, append_to, insert_tier, add_provider, select_best, execute_with_fallback,
}
use nexus_ai_gateway.Fallback.Added.{add_all, added-calls}

-- The health as a number.
abbrev provider : ProviderTier → Provider ℕ
provider tier = record {
  id = "p";
  name = "p";
  tier = tier;
  health = 1;
  quota_remaining = 0;
  quota_limit = 0;
  is_healthy = true;
  priority = 0;
}

abbrev healthier : Provider ℕ → Option (Provider ℕ) → Bool
healthier p none = true
healthier p (some q) = ltb q.health p.health

-- Every provider fails; the state counts the calls.
abbrev failing : Provider ℕ → ℕ → ℕ × (ℕ ⊎ FallbackResponse ℕ ℕ)
failing p s = (s + 1, inl 503)

abbrev request : FallbackRequest
request = record {
  preferred_tier = tier_subscription;
  minimum_tier = tier_subscription;
  prefer_subscription = true;
  allow_free = true;
  max_attempts = 4;
  request_id = "r";
}

abbrev three : List (Provider ℕ)
three = provider tier_free ∷ provider tier_subscription ∷ provider tier_cheap ∷ []

-- After `BuildTierHierarchy` all three tiers are tried, and after `AddProvider` one.
built_tries_three :
    (execute_with_fallback healthier failing request
      (build_tier_hierarchy three new_orchestrator)
      0).0
    ≡ 3
unfolding execute_with_fallback build_tier_hierarchy new_orchestrator find_start_tier find_minimum
    at_address select_best
built_tries_three = refl

added_tries_one :
    (execute_with_fallback healthier failing request (add_all three new_orchestrator) 0).0 ≡ 1
unfolding execute_with_fallback new_orchestrator find_start_tier find_minimum at_address append_to
    insert_tier add_provider select_best
added_tries_one = refl

added-calls_example :
    (execute_with_fallback healthier failing request (add_all three new_orchestrator) 0).0 ≤ 0 + 1
added-calls_example = added-calls healthier failing (λ s. s) (λ p s. refl) three request 0
