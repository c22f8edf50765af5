-- ===== src/Ratelimit/Tiers.antt =====
-- internal/ratelimit/tiers.go, and the conversions of a tier in manager.go. A tier and a scope are
-- texts, as in the code.
use nexus_ai_gateway.Common.{
  ℕ, Bool, true, false, none, some, [], ◌∷◌, String, if◌then◌else◌, ◌==◌, str_eq,
}
use nexus_ai_gateway.Common.Dict.{Dict, find}
use nexus_ai_gateway.Common.Int.{ℤ}

pub record TierConfig : Type 0 where
  pub tier : String
  pub requests_per_min : ℕ
  pub burst_size : ℕ
  pub requests_per_hour : ℕ
  pub requests_per_day : ℕ
  pub concurrent_limit : ℕ
  pub enabled : Bool

abbrev pub free_config : TierConfig
free_config = record {
  tier = "free";
  requests_per_min = 10;
  burst_size = 5;
  requests_per_hour = 100;
  requests_per_day = 500;
  concurrent_limit = 3;
  enabled = true;
}

abbrev pub pro_config : TierConfig
pro_config = record {
  tier = "pro";
  requests_per_min = 100;
  burst_size = 50;
  requests_per_hour = 1_000;
  requests_per_day = 10_000;
  concurrent_limit = 10;
  enabled = true;
}

abbrev pub enterprise_config : TierConfig
enterprise_config = record {
  tier = "enterprise";
  requests_per_min = 1_000;
  burst_size = 500;
  requests_per_hour = 20_000;
  requests_per_day = 100_000;
  concurrent_limit = 50;
  enabled = true;
}

abbrev pub unlimited_config : TierConfig
unlimited_config = record {
  tier = "unlimited";
  requests_per_min = 10_000;
  burst_size = 5_000;
  requests_per_hour = 100_000;
  requests_per_day = 1_000_000;
  concurrent_limit = 200;
  enabled = true;
}

abbrev pub default_tier_configs : Dict TierConfig
default_tier_configs =
    ("free", free_config)
    ∷ ("pro", pro_config)
    ∷ ("enterprise", enterprise_config)
    ∷ ("unlimited", unlimited_config)
    ∷ []

-- The zero value of the struct.
abbrev pub zero_config : TierConfig
zero_config = record {
  tier = "";
  requests_per_min = 0;
  burst_size = 0;
  requests_per_hour = 0;
  requests_per_day = 0;
  concurrent_limit = 0;
  enabled = false;
}

unfoldable pub get_tier_config : String → TierConfig
unfolding find
get_tier_config tier = elim (find tier default_tier_configs) [ some c ↦ c | none ↦ free_config ]

unfoldable pub tier_to_int : String → ℕ
tier_to_int tier =
    if str_eq tier "free"
    then 0
    else if str_eq tier "pro"
    then 1
    else if str_eq tier "enterprise"
    then 2
    else if str_eq tier "unlimited"
    then 3
    else 0

-- The argument carries no negative value.
unfoldable pub int_to_tier : ℕ → String
int_to_tier i =
    if i == 0
    then "free"
    else if i == 1
    then "pro"
    else if i == 2
    then "enterprise"
    else if i == 3
    then "unlimited"
    else "free"

pub record RateLimitResult : Type 0 where
  pub allowed : Bool
  pub limit : ℕ
  pub remaining : ℤ
  pub reset_at : ℤ
  pub retry_after : ℕ
  pub scope : String
  pub tier : String
  pub used : ℕ
  pub reset_in_seconds : ℕ

pub record RateLimitConfig : Type 0 where
  pub enabled : Bool
  pub default_tier : String
  pub redis_url : String
  pub window_size_secs : ℕ
  pub bypass_limits : Bool

abbrev pub default_rate_limit_config : RateLimitConfig
default_rate_limit_config = record {
  enabled = true;
  default_tier = "free";
  redis_url = "";
  window_size_secs = 60;
  bypass_limits = false;
}
