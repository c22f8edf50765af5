-- ===== src/Ratelimit/Manager.antt =====
-- internal/ratelimit/manager.go: `QuotaManager`, which holds a request to the limits of its tenant,
-- user, skill and API key. The manager holds the storage it shares with its limiter. Each
-- method is one step, although the code holds no lock over the checks that it makes.
use nexus_ai_gateway.Common.{
  ℕ, Bool, true, false, Option, none, some, String, ltb, if◌then◌else◌, str_eq, ◌⊎◌, inl, inr,
}
use nexus_ai_gateway.Common.Clock.{minute}
use nexus_ai_gateway.Common.Dict.{Dict, find, put}
use nexus_ai_gateway.Common.Int.{ℤ, pos, negsuc}
use nexus_ai_gateway.Ratelimit.{InMemoryStorage}
use nexus_ai_gateway.Ratelimit.Tiers.{
  TierConfig, zero_config, default_tier_configs, RateLimitResult, RateLimitConfig,
  default_rate_limit_config,
}
use nexus_ai_gateway.Ratelimit.Sliding
use nexus_ai_gateway.Ratelimit.Sliding.{
  build_tenant_key, build_user_key, build_skill_key, build_api_key_key, get_status,
}

pub record QuotaManager : Type 0 where
  pub storage : InMemoryStorage
  pub config : RateLimitConfig
  pub tiers : Dict TierConfig

-- `none` is the nil configuration.
unfoldable pub new_quota_manager : InMemoryStorage → Option RateLimitConfig → QuotaManager
new_quota_manager storage config = record {
  storage = storage;
  config = elim config [ some c ↦ c | none ↦ default_rate_limit_config ];
  tiers = default_tier_configs;
}

-- `q.tiers[tier]`.
unfoldable pub tier_config : String → QuotaManager → TierConfig
tier_config tier q = elim (find tier q.tiers) [ some c ↦ c | none ↦ zero_config ]

-- The answer where nothing is limited.
abbrev pub unlimited : String → RateLimitResult
unlimited tier = record {
  allowed = true;
  limit = 0;
  remaining = pos 0;
  reset_at = pos 0;
  retry_after = 0;
  scope = "";
  tier = tier;
  used = 0;
  reset_in_seconds = 0;
}

-- What the four checks below do with their keys.
unfoldable pub check_key : ℕ → String → String → QuotaManager → QuotaManager × RateLimitResult
check_key now key tier q =
    let (s, r) = Sliding.check now key (tier_config tier q).requests_per_min minute q.storage in
    if (tier_config tier q).enabled then (record q { storage = s }, r) else (q, unlimited "")

unfoldable pub check_tenant_limit :
    ℕ → String → String → QuotaManager → QuotaManager × RateLimitResult
check_tenant_limit now tenant tier q = check_key now (build_tenant_key tenant "min") tier q

unfoldable pub check_user_limit :
    ℕ → String → String → String → QuotaManager → QuotaManager × RateLimitResult
check_user_limit now tenant user tier q = check_key now (build_user_key tenant user "min") tier q

unfoldable pub check_skill_limit :
    ℕ → String → String → String → QuotaManager → QuotaManager × RateLimitResult
check_skill_limit now tenant skill tier q =
    check_key now (build_skill_key tenant skill "min") tier q

unfoldable pub check_api_key_limit :
    ℕ → String → String → QuotaManager → QuotaManager × RateLimitResult
check_api_key_limit now hash tier q = check_key now (build_api_key_key hash "min") tier q

abbrev pub ltb_ℤ : ℤ → ℤ → Bool
ltb_ℤ (pos a) (pos b) = ltb a b
ltb_ℤ (pos a) (negsuc b) = false
ltb_ℤ (negsuc a) (pos b) = true
ltb_ℤ (negsuc a) (negsuc b) = ltb b a

-- The more restrictive of two remaining counts.
abbrev pub narrow : RateLimitResult → RateLimitResult → RateLimitResult
narrow r t = if ltb_ℤ r.remaining t.remaining then record t { remaining = r.remaining } else t

-- A refusal to return on the left, the tenant's result so far on the right.
abbrev pub Checked : Type 0
Checked = QuotaManager × (RateLimitResult ⊎ RateLimitResult)

-- One of the blocks of `CheckAllLimits`: the identity, its scope, the check, the result so far.
unfoldable pub check_scope :
    String
    → String
    → String
    → (QuotaManager → QuotaManager × RateLimitResult)
    → RateLimitResult
    → QuotaManager
    → Checked
check_scope id scope tier run t q =
    if str_eq id ""
    then (q, inr t)
    else (let (q', r) = run q in
        if r.allowed
        then (q', inr (narrow r t))
        else (q', inl (record r { scope = scope; tier = tier })))

-- The next block, unless an earlier one has returned.
unfoldable pub and_then : Checked → (RateLimitResult → QuotaManager → Checked) → Checked
and_then (q, inl r) next = (q, inl r)
and_then (q, inr t) next = next t q

unfoldable pub answer_of : String → Checked → QuotaManager × RateLimitResult
answer_of tier (q, inl r) = (q, r)
answer_of tier (q, inr t) = (q, record t { scope = "global"; tier = tier })

-- The block of the tenant, whose result the others narrow.
unfoldable pub check_tenant : ℕ → String → String → QuotaManager → Checked
check_tenant now tenant tier q =
    let (q', t) = check_tenant_limit now tenant tier q in
    if t.allowed then (q', inr t) else (q', inl (record t { scope = "tenant"; tier = tier }))

unfoldable pub check_scopes :
    ℕ → String → String → String → String → String → QuotaManager → Checked
check_scopes now tenant user skill hash tier q =
    and_then
      (and_then
        (and_then (check_tenant now tenant tier q)
          (check_scope user "user" tier (check_user_limit now tenant user tier)))
        (check_scope skill "skill" tier (check_skill_limit now tenant skill tier)))
      (check_scope hash "apikey" tier (check_api_key_limit now hash tier))

unfoldable pub check_all_limits :
    ℕ → String → String → String → String → String → QuotaManager → QuotaManager × RateLimitResult
check_all_limits now tenant user skill hash tier q =
    if q.config.bypass_limits
    then (q, unlimited tier)
    else answer_of tier (check_scopes now tenant user skill hash tier q)

pub record RateLimitInfo : Type 0 where
  pub limit : ℕ
  pub remaining : ℤ
  pub reset : ℤ
  pub reset_in_seconds : ℕ
  pub retry_after : ℕ
  pub tier : String
  pub scope : String
  pub requests_per_min : ℕ
  pub requests_per_hour : ℕ
  pub requests_per_day : ℕ

unfoldable pub get_tier_status : ℕ → String → String → String → QuotaManager → RateLimitInfo
get_tier_status now tenant user tier q =
    let c = tier_config tier q in
    let t = get_status now (build_tenant_key tenant "min") c.requests_per_min minute q.storage in
    let u = get_status now (build_user_key tenant user "min") c.requests_per_min minute q.storage in
    record {
      limit = t.limit;
      remaining = if str_eq user "" then t.remaining else (narrow u t).remaining;
      reset = t.reset_at;
      reset_in_seconds = t.reset_in_seconds;
      retry_after = 0;
      tier = tier;
      scope = "tenant";
      requests_per_min = c.requests_per_min;
      requests_per_hour = c.requests_per_hour;
      requests_per_day = c.requests_per_day;
    }

unfoldable pub set_tier_limit : String → TierConfig → QuotaManager → QuotaManager
set_tier_limit tier config q = record q { tiers = put tier config q.tiers }
