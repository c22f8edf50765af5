-- ===== src/Quota/Tests.antt =====
-- The quotas on concrete inputs: runs of the code, and the theorems at inputs that meet their
-- hypotheses.
use nexus_ai_gateway.Common.{
  ◌*◌, ◌≤◌, ◌≡◌, refl, List, [], ◌∷◌, some, none, arith, ltb, count_if, All,
}
use nexus_ai_gateway.Common.Clock.{second}
use nexus_ai_gateway.Common.Dict.{find, put}
use nexus_ai_gateway.Quota.{
  QuotaUsage, QuotaExceeded, minute_limit, free_plan, roll, check_limits, check_quota,
  new_repository, get_quota_usage, save_quota_usage, reset_day,
}
use nexus_ai_gateway.Quota.Check.{Refuses, reset_time_honest}
use nexus_ai_gateway.Quota.Limiter.{new_limiter, fresh, allow, Call, allows, resets, run, admitted}
use nexus_ai_gateway.Quota.Window.{InOrder, Spares, allow_exact, in_window, window_bound}

abbrev busy : QuotaUsage
busy = record {
  tenant_id = "acme";
  plan = "free";
  minute_requests = 10;
  hour_requests = 40;
  day_requests = 40;
  tokens_today = 500;
  last_minute_reset = 5 * second;
  last_hour_reset = 5 * second;
  last_day_reset = 5 * second;
}

abbrev minute_error : QuotaExceeded
minute_error = record {
  plan_name = "free";
  limit_type = minute_limit;
  current_usage = 10;
  limit = 10;
  reset_time = 65 * second;
}

busy_is_refused : (check_quota (30 * second) busy free_plan 100).1 ≡ some minute_error
unfolding check_quota roll check_limits
busy_is_refused = refl

busy_is_admitted_later : (check_quota (65 * second) busy free_plan 100).1 ≡ none
unfolding check_quota roll check_limits
busy_is_admitted_later = refl

saved_usage :
    get_quota_usage 9 "acme" (reset_day 7 "acme" (save_quota_usage busy new_repository))
    ≡ record busy {
      minute_requests = 0;
      hour_requests = 0;
      day_requests = 0;
      tokens_today = 0;
      last_day_reset = 7;
    }
unfolding get_quota_usage reset_day save_quota_usage new_repository find put
saved_usage = refl

reset_time_honest_example :
    ¬ Refuses minute_limit
      (check_quota (65 * second) (check_quota (30 * second) busy free_plan 100).0 free_plan 200).1
reset_time_honest_example =
    reset_time_honest (30 * second) 100 200 busy free_plan minute_error (omega arith) (omega arith)
      busy_is_refused

abbrev calls : List Call
calls = allows 1 "acme" ∷ allows 2 "other" ∷ allows 3 "acme" ∷ resets "other" ∷ allows 4 "acme" ∷ []

calls-InOrder : InOrder 0 calls 5
calls-InOrder = omega arith

calls-Spares : All (Spares "acme") calls
calls-Spares = (tt, (tt, (tt, (refl, (tt, tt)))))

allow_exact_example :
    (allow 5 "acme" (run calls (new_limiter "free"))).1
    ≡ ltb
        (count_if (fresh 5) (admitted "acme" calls (new_limiter "free")))
        (new_limiter "free").plan.requests_per_min
allow_exact_example = allow_exact "free" "acme" calls 5 calls-InOrder calls-Spares

window_bound_example :
    count_if (in_window 1) (admitted "acme" calls (new_limiter "free"))
    ≤ (new_limiter "free").plan.requests_per_min
window_bound_example = window_bound "free" "acme" calls 5 1 calls-InOrder calls-Spares
