-- ===== src/Ratelimit/Tests.antt =====
-- Runs of the tiered rate limits on concrete inputs, and the instances of the properties.
use nexus_ai_gateway.Common.{
  ℕ, ◌*◌, ◌≤◌, ◌≡◌, true, false, none, List, [], ◌∷◌, String, refl, arith,
}
use nexus_ai_gateway.Common.Clock.{minute, day}
use nexus_ai_gateway.Common.Dict.{find, put, delete}
use nexus_ai_gateway.Ratelimit.{
  InMemoryStorage, new_in_memory_storage, get_count, clean_old_entries, entry_count,
  increment_count, get_count_with_window, sum_entries, acquire_burst, set_count, fire_timers,
}
use nexus_ai_gateway.Ratelimit.Tiers.{TierConfig, free_config, default_rate_limit_config}
use nexus_ai_gateway.Ratelimit.Sliding.{build_user_key, check, check_with}
use nexus_ai_gateway.Ratelimit.Manager.{QuotaManager, tier_config, check_key, check_tenant_limit}
use nexus_ai_gateway.Ratelimit.Lifetime.{run, served, lifetime_bound, exhausted_stays}

abbrev two : String → ℕ
two _ = 2

abbrev every_minute : String → ℕ
every_minute _ = minute

-- One request a day, for three days.
abbrev daily : List (ℕ × String)
daily = (day, "k") ∷ (2 * day, "k") ∷ (3 * day, "k") ∷ []

daily_serves_two : served two every_minute "k" daily new_in_memory_storage ≡ 2
unfolding served check new_in_memory_storage get_count_with_window increment_count clean_old_entries
    sum_entries entry_count get_count find put
daily_serves_two = refl

-- A count that was set for a time is gone after it.
timer_removes : get_count "k" (fire_timers 6 (set_count 1 "k" 3 5 new_in_memory_storage)) ≡ 0
unfolding get_count fire_timers set_count new_in_memory_storage find put delete
timer_removes = refl

-- A check between the count and the increment of another: both are allowed with a limit of 1.
overlapping_checks_exceed :
    let between = λ (s : InMemoryStorage). (check day "k" 1 minute s).0 in
    let (s, r) = check_with between day "k" 1 minute new_in_memory_storage in
    (r.allowed ≡ true)
    × ((check day "k" 1 minute new_in_memory_storage).1.allowed ≡ true)
    × (get_count "k" s ≡ 2)
unfolding check check_with new_in_memory_storage get_count_with_window increment_count
    clean_old_entries sum_entries entry_count get_count find put
overlapping_checks_exceed = (refl, refl, refl)

lifetime_bound_example : served two every_minute "k" daily new_in_memory_storage ≤ 2
lifetime_bound_example = lifetime_bound two every_minute "k" daily

abbrev full : InMemoryStorage
full = record { entries = []; counters = ("k", 2) ∷ []; timers = [] }

full_is_full : 2 ≤ get_count "k" full
unfolding get_count find
full_is_full = omega arith

exhausted_stays_example :
    (check (4 * day) "k" 2 minute (run two every_minute daily full)).1.allowed ≡ false
exhausted_stays_example = exhausted_stays two every_minute "k" (4 * day) daily full full_is_full

-- With a limit of 0 the first slot is given all the same.
burst_zero : (acquire_burst "k" 0 new_in_memory_storage).1 ≡ true
unfolding acquire_burst new_in_memory_storage find
burst_zero = refl

abbrev small : TierConfig
small = record free_config { requests_per_min = 1 }

-- A manager whose user `u` has had the one request of the minute.
abbrev manager : QuotaManager
manager = record {
  storage = record { entries = []; counters = (build_user_key "t" "u" "min", 1) ∷ []; timers = [] };
  config = default_rate_limit_config;
  tiers = ("small", small) ∷ [];
}

gold_is_unknown : find "gold" manager.tiers ≡ none
unfolding find
gold_is_unknown = refl

small_is_enabled : (tier_config "small" manager).enabled ≡ true
unfolding tier_config find
small_is_enabled = refl

tenant_is_allowed : (check_tenant_limit day "t" "small" manager).1.allowed ≡ true
unfolding check_tenant_limit check_key tier_config check get_count_with_window increment_count
    clean_old_entries sum_entries entry_count get_count find put
tenant_is_allowed = refl

user_is_full :
    (tier_config "small" manager).requests_per_min
    ≤ get_count (build_user_key "t" "u" "min") manager.storage
unfolding tier_config get_count find
user_is_full = omega arith
