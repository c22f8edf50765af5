-- ===== src/Layers/Tests.antt =====
-- The three layers on concrete inputs: runs of the code, and the theorems at inputs that meet their
-- hypotheses.
use nexus_ai_gateway.Common.{ℕ, ◌≡◌, refl, false, ◌&&◌, ◌||◌, not, List, [], ◌∷◌, arith, str_eq}
use nexus_ai_gateway.Common.Clock.{after, before}
use nexus_ai_gateway.ProviderCb
use nexus_ai_gateway.ProviderCb.{ProviderCb, cb_state_open, cb_state_half_open, new_provider_cb}
use nexus_ai_gateway.Layers.{
  Layers, new_layers, cooldown_key, lockout_key, new_cooldown, can_route, set_cooldown,
}
use nexus_ai_gateway.Layers.Routing.{
  cb_of, cooled_until_of, locked_until_of, can_route_exact, Event, routes, succeeds, fails, run,
}
use nexus_ai_gateway.Layers.Holding.{cooldown_holds}

can_route_exact_example : (can_route 5 "openai" "gpt-4o" "acme" new_layers).1 ≡ (
    (ProviderCb.allow 5 (cb_of "openai" new_layers)).1
    && after 5 (cooled_until_of (cooldown_key "acme" "openai") new_layers.cooldowns)
    && (str_eq "gpt-4o" ""
        || not (before 5 (locked_until_of (lockout_key "openai" "gpt-4o") new_layers.lockouts))))
can_route_exact_example = can_route_exact 5 "openai" "gpt-4o" "acme" new_layers

abbrev between_calls : List (ℕ × Event)
between_calls =
    (2, routes "openai" "gpt-4o" "acme")
    ∷ (3, fails "openai" "gpt-4o" "acme")
    ∷ (4, succeeds "openai" "gpt-4o" "other")
    ∷ []

cooldown_holds_example :
    (can_route 9 "openai" "gpt-4o" "acme"
      (run between_calls (set_cooldown 1 "acme" "openai" 10 "rate_limit" new_layers))).1
    ≡ false
cooldown_holds_example =
    cooldown_holds 1 10 9 "acme" "openai" "gpt-4o" "rate_limit" new_layers between_calls
      (tt, (tt, ((unfold cooldown_key in refl), tt))) (omega arith)

-- The breaker of openai has opened, its cooldown ended at 40, and the account is cooled until 90.
abbrev cooled : Layers
cooled = record {
  lockouts = [];
  breakers =
      ("openai", record (new_provider_cb "openai") { state = cb_state_open; cooldown_ends = 40 })
      ∷ [];
  cooldowns =
      (cooldown_key "acme" "openai", record (new_cooldown "acme" "openai") { cooled_until = 90 })
      ∷ [];
}
