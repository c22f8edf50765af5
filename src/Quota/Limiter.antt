-- ===== src/Quota/Limiter.antt =====
-- internal/quota/manager.go, `TenantRateLimiter`: for each tenant the times of the requests
-- admitted. A missing key is the nil slice; a stored slice is never nil.
use nexus_ai_gateway.Common.{
  ℕ, ◌+◌, ◌-◌, Bool, true, false, none, some, List, [], ◌∷◌, ◌++◌, String, leb, if◌then◌else◌,
  length, select, count_if, str_eq,
}
use nexus_ai_gateway.Common.Clock.{within, minute}
use nexus_ai_gateway.Common.Dict.{Dict, find, put, delete}
use nexus_ai_gateway.Quota.{QuotaPlan, default_quota_plans, free_plan}

pub record Limiter : Type 0 where
  pub requests : Dict (List ℕ)
  pub plan : QuotaPlan
  pub plan_name : String

unfoldable pub new_limiter : String → Limiter
new_limiter name = record {
  requests = [];
  plan = elim (find name default_quota_plans) [ some p ↦ p | none ↦ free_plan ];
  plan_name = name;
}

-- `now.Sub(t) < time.Minute`.
abbrev pub fresh : ℕ → ℕ → Bool
fresh now t = within now t minute

unfoldable pub cleanup_expired : String → ℕ → Limiter → Limiter
cleanup_expired tenant now r = elim (find tenant r.requests) [
  | none ↦ r
  | some times ↦ record r { requests = put tenant (select (fresh now) times) r.requests }
]

-- `r.requests[tenantID]`, with the nil slice as the empty one.
unfoldable pub requests_of : String → Limiter → List ℕ
requests_of tenant r = elim (find tenant r.requests) [ some times ↦ times | none ↦ [] ]

unfoldable pub allow : ℕ → String → Limiter → Limiter × Bool
allow now tenant r =
    let cleaned = cleanup_expired tenant now r in
    let times = requests_of tenant cleaned in
    if leb cleaned.plan.requests_per_min (length times)
    then (cleaned, false)
    else (record cleaned { requests = put tenant (times ++ now ∷ []) cleaned.requests }, true)

-- The subtraction on ℕ stops at 0, as the code's test does.
unfoldable pub get_remaining : ℕ → String → Limiter → ℕ
get_remaining now tenant r = elim (find tenant r.requests) [
  | none ↦ r.plan.requests_per_min
  | some times ↦ r.plan.requests_per_min - count_if (fresh now) times
]

abbrev reset_time_of : ℕ → List ℕ → ℕ
reset_time_of now [] = now
reset_time_of now (oldest ∷ _) = oldest + minute

unfoldable pub get_reset_time : ℕ → String → Limiter → ℕ
unfolding requests_of
get_reset_time now tenant r = reset_time_of now (requests_of tenant r)

unfoldable pub reset : String → Limiter → Limiter
reset tenant r = record r { requests = delete tenant r.requests }

-- A call of `Allow`, with its time, or of `Reset`, for a tenant.
pub data Call : Type 0 where
  allows : ℕ → String → Call
  resets : String → Call

unfoldable pub run : List Call → Limiter → Limiter
run [] r = r
run (allows now q ∷ es) r = run es (allow now q r).0
run (resets q ∷ es) r = run es (reset q r)

-- The times at which a tenant was admitted.
unfoldable pub admitted : String → List Call → Limiter → List ℕ
admitted tenant [] r = []
admitted tenant (allows now q ∷ es) r =
    let (r', ok) = allow now q r in
    let rest = admitted tenant es r' in
    if str_eq q tenant then (if ok then now ∷ rest else rest) else rest
admitted tenant (resets q ∷ es) r = admitted tenant es (reset q r)
