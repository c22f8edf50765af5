-- ===== src/Quota/Check.antt =====
-- What `CheckQuota` promises with the reset time of an error.
use nexus_ai_gateway.Common.{ℕ, ◌+◌, ◌<◌, ◌≤◌, ◌≡◌, Option, none, some, arith}
use nexus_ai_gateway.Common.Clock.{minute, hour, day}
use nexus_ai_gateway.Quota.{
  QuotaPlan, QuotaUsage, QuotaExceeded, LimitType, minute_limit, hour_limit, day_limit,
  tokens_limit, check_limits, roll, check_quota,
}

pub record IsUsable (plan : QuotaPlan) : Type 0 where
  pub per_min : 0 < plan.requests_per_min
  pub per_hour : 0 < plan.requests_per_hour
  pub per_day : 0 < plan.requests_per_day

-- Whether the answer is a refusal by the limit.
abbrev pub Refuses : LimitType → Option QuotaExceeded → Type 0
Refuses l none = ⊥
Refuses l (some e) = e.limit_type ≡ l

-- The usage that a limit looks at.
abbrev counted : LimitType → QuotaUsage → ℕ
counted minute_limit u = u.minute_requests
counted hour_limit u = u.hour_requests
counted day_limit u = u.day_requests
counted tokens_limit u = u.tokens_today

abbrev window_end : LimitType → QuotaUsage → ℕ
window_end minute_limit u = u.last_minute_reset + minute
window_end hour_limit u = u.last_hour_reset + hour
window_end day_limit u = u.last_day_reset + day
window_end tokens_limit u = u.last_day_reset + day

roll-window_end : (l : LimitType) (u : QuotaUsage) → counted l (roll (window_end l u) u) ≡ 0
unfolding roll
roll-window_end minute_limit u = ground arith
roll-window_end hour_limit u = ground arith
roll-window_end day_limit u = ground arith
roll-window_end tokens_limit u = ground arith

check_limits-reset_time :
    (u : QuotaUsage) (plan : QuotaPlan) (tokens : ℕ) (e : QuotaExceeded)
    → check_limits u plan tokens ≡ some e
    → e.reset_time ≡ window_end e.limit_type u
unfolding check_limits
check_limits-reset_time u plan tokens e h = ground arith

unused_allows :
    (l : LimitType) (u : QuotaUsage) (plan : QuotaPlan) (tokens : ℕ)
    → IsUsable plan
    → tokens ≤ plan.max_tokens_per_day
    → counted l u ≡ 0
    → ¬ Refuses l (check_limits u plan tokens)
unfolding check_limits
unused_allows minute_limit u plan tokens p t z = ground arith
unused_allows hour_limit u plan tokens p t z = ground arith
unused_allows day_limit u plan tokens p t z = ground arith
unused_allows tokens_limit u plan tokens p t z = ground arith

-- When a request is refused, no request of at most a day's tokens is refused by the same limit at
-- the reset time that the error gives, if the plan's request limits are positive and nothing was
-- counted in between.
pub reset_time_honest :
    (now tokens later_tokens : ℕ) (u : QuotaUsage) (plan : QuotaPlan) (e : QuotaExceeded)
    → IsUsable plan
    → later_tokens ≤ plan.max_tokens_per_day
    → (check_quota now u plan tokens).1 ≡ some e
    → ¬ Refuses e.limit_type
        (check_quota e.reset_time (check_quota now u plan tokens).0 plan later_tokens).1
unfolding check_quota
reset_time_honest now tokens later_tokens u plan e p t h =
    let at = check_limits-reset_time (roll now u) plan tokens e h in
    rw at (
      unused_allows e.limit_type (roll (window_end e.limit_type (roll now u)) (roll now u)) plan
        later_tokens p t (roll-window_end e.limit_type (roll now u)))
