-- ===== src/Ratelimit/Sliding.antt =====
-- internal/ratelimit/manager.go: the keys and `SlidingWindowRateLimiter`, over the in-memory
-- storage. A limit is an `int` that carries no negative value.
use nexus_ai_gateway.Common.{
  ℕ, ◌+◌, ◌-◌, ◌*◌, ◌/◌, true, false, List, [], ◌∷◌, String, leb, ltb, if◌then◌else◌,
}
use nexus_ai_gateway.Common.Clock.{second}
use nexus_ai_gateway.Common.Text.{str_append}
use nexus_ai_gateway.Common.Int.{ℤ, pos, sub_ℕ}
use nexus_ai_gateway.Ratelimit.{InMemoryStorage, get_count_with_window, increment_count}
use nexus_ai_gateway.Ratelimit.Tiers.{RateLimitResult}

-- `strings.Join(parts, ":")`.
abbrev pub join : List String → String
join [] = ""
join (x ∷ []) = x
join (x ∷ y ∷ xs) = str_append x (str_append ":" (join (y ∷ xs)))

abbrev pub build_key : String → String → String → String → String
build_key scope tenant identifier window = join ("rate" ∷ scope ∷ tenant ∷ identifier ∷ window ∷ [])

abbrev pub build_tenant_key : String → String → String
build_tenant_key tenant window = build_key "tenant" tenant "global" window

abbrev pub build_user_key : String → String → String → String
build_user_key tenant user window = build_key "user" tenant user window

abbrev pub build_skill_key : String → String → String → String
build_skill_key tenant skill window = build_key "skill" tenant skill window

abbrev pub build_api_key_key : String → String → String
build_api_key_key hash window = build_key "apikey" "global" hash window

-- `t.Unix()`: the seconds since 1970, which began as many seconds after the zero time.
abbrev pub unix : ℕ → ℤ
unix t = sub_ℕ (t / second) 62_135_596_800

-- The seconds that a refusal names.
unfoldable pub wait_for : ℕ → String → ℕ → InMemoryStorage → ℕ
wait_for now key window s =
    let oldest = get_count_with_window (str_append key ":oldest") (now - window) now s in
    if ltb 0 oldest then ((now - window) + oldest + window - now) / second else window / second

-- `Check` holds no lock: the storage's own lock is free between the count and what follows it, and
-- `others` is what other callers do to the storage there.
unfoldable pub check_with :
    (InMemoryStorage → InMemoryStorage)
    → ℕ
    → String
    → ℕ
    → ℕ
    → InMemoryStorage
    → InMemoryStorage × RateLimitResult
unfolding wait_for
check_with others now key limit window s =
    let count = get_count_with_window key (now - window) now s in
    let between = others s in
    let wait = wait_for now key window between in
    let (s', new_count) = increment_count now key window between in
    if leb limit count
    then (
      between,
      record {
        allowed = false;
        limit = limit;
        remaining = pos 0;
        reset_at = unix (now + wait * second);
        retry_after = wait;
        scope = "";
        tier = "";
        used = count;
        reset_in_seconds = 0;
      },
    )
    else (
      s',
      record {
        allowed = true;
        limit = limit;
        remaining = sub_ℕ limit new_count;
        reset_at = unix (now + window);
        retry_after = 0;
        scope = "";
        tier = "";
        used = new_count;
        reset_in_seconds = window / second;
      },
    )

-- `Check` with no other caller in between.
unfoldable pub check : ℕ → String → ℕ → ℕ → InMemoryStorage → InMemoryStorage × RateLimitResult
unfolding check_with
check now key limit window s = check_with (λ t. t) now key limit window s

unfoldable pub get_status : ℕ → String → ℕ → ℕ → InMemoryStorage → RateLimitResult
get_status now key limit window s =
    let count = get_count_with_window key (now - window) now s in
    record {
      allowed = true;
      limit = limit;
      remaining = pos (limit - count);
      reset_at = unix (now + window);
      retry_after = 0;
      scope = "";
      tier = "";
      used = count;
      reset_in_seconds = window / second;
    }
