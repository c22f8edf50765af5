-- ===== src/Quota.antt =====
-- internal/quota/manager.go: the plans, the usage of a tenant, the check of a request against the
-- plan, and the in-memory repository; the tenant's rate limiter is in the modules below. Counters
-- and limits are `int` fields that carry no negative value. A repository hands out a pointer to the
-- usage that it stores; here it hands out the value, and `SaveQuotaUsage` writes it back.
pub mod Check
pub mod Limiter
pub mod Calls
pub mod Window
pub mod Tests
use nexus_ai_gateway.Common.{
  ℕ, ◌+◌, ◌*◌, Bool, true, false, Option, none, some, List, [], ◌∷◌, String, leb, ltb,
  if◌then◌else◌,
}
use nexus_ai_gateway.Common.Clock.{elapsed, minute, hour, day}
use nexus_ai_gateway.Common.Dict.{Dict, find, put}

pub record QuotaPlan : Type 0 where
  pub name : String
  pub requests_per_min : ℕ
  pub requests_per_hour : ℕ
  pub requests_per_day : ℕ
  pub max_tokens_per_day : ℕ
  pub features : Dict Bool

abbrev features_of : Bool → Bool → Bool → Bool → Dict Bool
features_of streaming analytics priority_queue custom_models =
    ("streaming", streaming)
    ∷ ("analytics", analytics)
    ∷ ("priority_queue", priority_queue)
    ∷ ("custom_models", custom_models)
    ∷ []

abbrev pub free_plan : QuotaPlan
free_plan = record {
  name = "free";
  requests_per_min = 10;
  requests_per_hour = 100;
  requests_per_day = 1000;
  max_tokens_per_day = 100000;
  features = features_of false false false false;
}

abbrev standard_plan : QuotaPlan
standard_plan = record {
  name = "standard";
  requests_per_min = 60;
  requests_per_hour = 1000;
  requests_per_day = 10000;
  max_tokens_per_day = 1000000;
  features = features_of true true false false;
}

abbrev enterprise_plan : QuotaPlan
enterprise_plan = record {
  name = "enterprise";
  requests_per_min = 300;
  requests_per_hour = 10000;
  requests_per_day = 100000;
  max_tokens_per_day = 10000000;
  features = features_of true true true true;
}

abbrev pub default_quota_plans : Dict QuotaPlan
default_quota_plans =
    ("free", free_plan) ∷ ("standard", standard_plan) ∷ ("enterprise", enterprise_plan) ∷ []

pub record QuotaUsage : Type 0 where
  pub tenant_id : String
  pub plan : String
  pub minute_requests : ℕ
  pub hour_requests : ℕ
  pub day_requests : ℕ
  pub tokens_today : ℕ
  pub last_minute_reset : ℕ
  pub last_hour_reset : ℕ
  pub last_day_reset : ℕ

pub data LimitType : Type 0 where
  minute_limit hour_limit day_limit tokens_limit : LimitType

pub record QuotaExceeded : Type 0 where
  pub plan_name : String
  pub limit_type : LimitType
  pub current_usage : ℕ
  pub limit : ℕ
  pub reset_time : ℕ

-- The three resets at the head of `CheckQuota`.
roll_minute : ℕ → QuotaUsage → QuotaUsage
roll_minute now u =
    if elapsed now u.last_minute_reset minute
    then record u { minute_requests = 0; last_minute_reset = now }
    else u

roll_hour : ℕ → QuotaUsage → QuotaUsage
roll_hour now u =
    if elapsed now u.last_hour_reset hour
    then record u { hour_requests = 0; minute_requests = 0; last_hour_reset = now }
    else u

roll_day : ℕ → QuotaUsage → QuotaUsage
roll_day now u =
    if elapsed now u.last_day_reset day
    then record u {
      day_requests = 0;
      tokens_today = 0;
      hour_requests = 0;
      minute_requests = 0;
      last_day_reset = now;
    }
    else u

-- The four limits, on a usage that is rolled on. `none` is the nil error.
unfoldable pub check_limits : QuotaUsage → QuotaPlan → ℕ → Option QuotaExceeded
check_limits u plan tokens =
    if leb plan.requests_per_min u.minute_requests
    then some (record {
      plan_name = plan.name;
      limit_type = minute_limit;
      current_usage = u.minute_requests;
      limit = plan.requests_per_min;
      reset_time = u.last_minute_reset + minute;
    })
    else if leb plan.requests_per_hour u.hour_requests
    then some (record {
      plan_name = plan.name;
      limit_type = hour_limit;
      current_usage = u.hour_requests;
      limit = plan.requests_per_hour;
      reset_time = u.last_hour_reset + hour;
    })
    else if leb plan.requests_per_day u.day_requests
    then some (record {
      plan_name = plan.name;
      limit_type = day_limit;
      current_usage = u.day_requests;
      limit = plan.requests_per_day;
      reset_time = u.last_day_reset + day;
    })
    else if ltb plan.max_tokens_per_day (u.tokens_today + tokens)
    then some (record {
      plan_name = plan.name;
      limit_type = tokens_limit;
      current_usage = u.tokens_today;
      limit = plan.max_tokens_per_day;
      reset_time = u.last_day_reset + day;
    })
    else none

unfoldable pub roll : ℕ → QuotaUsage → QuotaUsage
unfolding roll_minute roll_hour roll_day
roll now u = roll_day now (roll_hour now (roll_minute now u))

-- The usage is changed in place, so it comes back beside the answer.
unfoldable pub check_quota : ℕ → QuotaUsage → QuotaPlan → ℕ → QuotaUsage × Option QuotaExceeded
check_quota now u plan tokens = (roll now u, check_limits (roll now u) plan tokens)

pub record Repository : Type 0 where
  pub usage : Dict QuotaUsage
  pub plans : Dict QuotaPlan

unfoldable pub new_repository : Repository
new_repository = record { usage = []; plans = default_quota_plans }

unfoldable pub get_quota_usage : ℕ → String → Repository → QuotaUsage
get_quota_usage now tenant r = elim (find tenant r.usage) [
  | some u ↦ u
  | none ↦ record {
    tenant_id = tenant;
    plan = "free";
    minute_requests = 0;
    hour_requests = 0;
    day_requests = 0;
    tokens_today = 0;
    last_minute_reset = now;
    last_hour_reset = now;
    last_day_reset = now;
  }
]

unfoldable pub save_quota_usage : QuotaUsage → Repository → Repository
save_quota_usage u r = record r { usage = put u.tenant_id u r.usage }

-- The resets write to the usage that is stored, if there is one.
abbrev on_usage : String → (QuotaUsage → QuotaUsage) → Repository → Repository
on_usage tenant f r = elim (find tenant r.usage) [
  | some u ↦ record r { usage = put tenant (f u) r.usage }
  | none ↦ r
]

unfoldable pub reset_minute : ℕ → String → Repository → Repository
reset_minute now tenant =
    on_usage tenant (λ u. record u { minute_requests = 0; last_minute_reset = now })

unfoldable pub reset_hour : ℕ → String → Repository → Repository
reset_hour now tenant =
    on_usage tenant
      (λ u. record u { hour_requests = 0; minute_requests = 0; last_hour_reset = now })

unfoldable pub reset_day : ℕ → String → Repository → Repository
reset_day now tenant = on_usage tenant (λ u. record u {
  day_requests = 0;
  tokens_today = 0;
  hour_requests = 0;
  minute_requests = 0;
  last_day_reset = now;
})

-- `none` is the error "plan not found".
unfoldable pub get_plan : String → Repository → Option QuotaPlan
get_plan name r = find name r.plans

unfoldable pub update_plan : QuotaPlan → Repository → Repository
update_plan plan r = record r { plans = put plan.name plan r.plans }
