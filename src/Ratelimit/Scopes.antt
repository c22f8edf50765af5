-- ===== src/Ratelimit/Scopes.antt =====
-- What `CheckAllLimits` does with the tenant's count when a later scope refuses, what an unknown
-- tier gets, and the tiers as numbers.
use nexus_ai_gateway.Common.{
  sym, inl, inr, Bool-cases, ◌&&◌, if◌then◌else◌, ℕ, ◌+◌, ◌≤◌, ◌≡◌, true, false, none, String, refl,
  ◌∙◌, arith, str_eq,
}
use text.Mathlib.TextEquality.{eq_iff}
use text.Mathlib.TextPositions.{eq_refl}
use nexus_ai_gateway.Common.Clock.{minute}
use nexus_ai_gateway.Common.Text.{str_append, str_append_assoc, str_eq_heads}
use nexus_ai_gateway.Common.Dict.{find}
use nexus_ai_gateway.Ratelimit.{get_count}
use nexus_ai_gateway.Ratelimit.Tiers.{
  zero_config, RateLimitResult, get_tier_config, tier_to_int, int_to_tier,
}
use nexus_ai_gateway.Ratelimit.Sliding.{
  build_tenant_key, build_user_key, build_skill_key, build_api_key_key,
}
use nexus_ai_gateway.Ratelimit.Counters.{get_count-check, check-full}
use nexus_ai_gateway.Ratelimit.Manager.{
  QuotaManager, tier_config, check_key, check_tenant_limit, check_user_limit, check_skill_limit,
  check_api_key_limit, check_scope, check_tenant, and_then, answer_of, check_scopes,
  check_all_limits, unlimited,
}

-- A number that stores a tier reads back as the tier whose configuration the text gets.
pub int_to_tier-tier_to_int :
    (tier : String) → int_to_tier (tier_to_int tier) ≡ (get_tier_config tier).tier
unfolding int_to_tier tier_to_int get_tier_config find
int_to_tier-tier_to_int tier = ground (
  arith,
  eq_iff tier "free",
  eq_iff "free" tier,
  eq_iff tier "pro",
  eq_iff "pro" tier,
  eq_iff tier "enterprise",
  eq_iff "enterprise" tier,
  eq_iff tier "unlimited",
  eq_iff "unlimited" tier,
)

tier_config-unknown :
    (tier : String) (q : QuotaManager) → find tier q.tiers ≡ none → tier_config tier q ≡ zero_config
unfolding tier_config
tier_config-unknown tier q h = rw (h, tier_config)

check_key-unknown :
    (now : ℕ) (key tier : String) (q : QuotaManager)
    → find tier q.tiers ≡ none
    → check_key now key tier q ≡ (q, unlimited "")
unfolding check_key
check_key-unknown now key tier q h = rw (tier_config-unknown tier q h)

check_scope-unknown :
    (id scope tier : String) (run : QuotaManager → QuotaManager × RateLimitResult)
    (q : QuotaManager)
    → run q ≡ (q, unlimited "")
    → check_scope id scope tier run (unlimited "") q ≡ (q, inr (unlimited ""))
unfolding check_scope
check_scope-unknown id scope tier run q h = elim (Bool-cases (str_eq id "")) [
  | inl e ↦ rw e
  | inr n ↦ rw (n, h)
]

check_scopes-unknown :
    (now : ℕ) (tenant user skill hash tier : String) (q : QuotaManager)
    → find tier q.tiers ≡ none
    → check_scopes now tenant user skill hash tier q ≡ (q, inr (unlimited ""))
unfolding check_scopes check_tenant check_tenant_limit check_user_limit check_skill_limit
    check_api_key_limit and_then
check_scopes-unknown now tenant user skill hash tier q h = rw (
  check_key-unknown now (build_tenant_key tenant "min") tier q h,
  check_scope-unknown user "user" tier (check_user_limit now tenant user tier) q
      (check_key-unknown now (build_user_key tenant user "min") tier q h),
  check_scope-unknown skill "skill" tier (check_skill_limit now tenant skill tier) q
      (check_key-unknown now (build_skill_key tenant skill "min") tier q h),
  check_scope-unknown hash "apikey" tier (check_api_key_limit now hash tier) q
      (check_key-unknown now (build_api_key_key hash "min") tier q h),
)

module _ (now : ℕ) (tenant user skill hash tier : String) (q : QuotaManager) where
  check_all_limits-bypassed :
      q.config.bypass_limits ≡ true
      → check_all_limits now tenant user skill hash tier q ≡ (q, unlimited tier)
  unfolding check_all_limits
  check_all_limits-bypassed b = simp b

  check_all_limits-answer :
      q.config.bypass_limits ≡ false
      → check_all_limits now tenant user skill hash tier q
        ≡ answer_of tier (check_scopes now tenant user skill hash tier q)
  unfolding check_all_limits
  check_all_limits-answer b = simp b

-- A tier that has no configuration is allowed every request, and nothing is counted for it.
pub unknown_tier_unlimited :
    (now : ℕ) (tenant user skill hash tier : String) (q : QuotaManager)
    → find tier q.tiers ≡ none
    → ((check_all_limits now tenant user skill hash tier q).0 ≡ q)
      × ((check_all_limits now tenant user skill hash tier q).1.allowed ≡ true)
unfolding answer_of
unknown_tier_unlimited now tenant user skill hash tier q h =
    elim (Bool-cases q.config.bypass_limits) [
      | inl b ↦ rw (check_all_limits-bypassed now tenant user skill hash tier q b) (refl, refl)
      | inr n ↦
          rw
            (
              check_all_limits-answer now tenant user skill hash tier q n,
              check_scopes-unknown now tenant user skill hash tier q h,
            )
            (refl, refl)
    ]

key-shape :
    (scope rest : String)
    → str_append "rate" (str_append ":" (str_append scope rest))
      ≡ str_append (str_append "rate:" scope) rest
key-shape scope rest =
    sym (str_append_assoc "rate:" scope rest ∙ str_append_assoc "rate" ":" (str_append scope rest))

keys_differ :
    (tenant user : String)
    → str_eq (build_user_key tenant user "min") (build_tenant_key tenant "min") ≡ false
keys_differ tenant user =
    let u = str_append ":" (str_append tenant (str_append ":" (str_append user ":min"))) in
    let t = str_append ":" (str_append tenant ":global:min") in
    rw (key-shape "user" u, key-shape "tenant" t)
      (str_eq_heads "rate:" "u" "t" "ser" "enant" u t (omega arith))

module _ (now : ℕ) (key tier : String) (q : QuotaManager) where
  check_key-full :
      (tier_config tier q).enabled ≡ true
      → (tier_config tier q).requests_per_min ≤ get_count key q.storage
      → (check_key now key tier q).1.allowed ≡ false
  unfolding check_key
  check_key-full e f =
      rw e (check-full now key (tier_config tier q).requests_per_min minute q.storage f)

  get_count-check_key :
      (j : String)
      → (tier_config tier q).enabled ≡ true
      → get_count j (check_key now key tier q).0.storage
        ≡ get_count j q.storage
          + (if str_eq key j && (check_key now key tier q).1.allowed then 1 else 0)
  unfolding check_key
  get_count-check_key j e =
      rw e (get_count-check now key j (tier_config tier q).requests_per_min minute q.storage)

  tier_config-check_key : tier_config tier (check_key now key tier q).0 ≡ tier_config tier q
  unfolding check_key tier_config
  tier_config-check_key = ground arith

-- The manager after the tenant's check and then the user's, and the user's result.
abbrev after_user : ℕ → String → String → String → QuotaManager → QuotaManager × RateLimitResult
after_user now tenant user tier q =
    check_user_limit now tenant user tier (check_tenant_limit now tenant tier q).0

check_all_limits-user_refuses :
    (now : ℕ) (tenant user skill hash tier : String) (q : QuotaManager)
    → q.config.bypass_limits ≡ false
    → str_eq user "" ≡ false
    → (check_tenant_limit now tenant tier q).1.allowed ≡ true
    → (after_user now tenant user tier q).1.allowed ≡ false
    → check_all_limits now tenant user skill hash tier q ≡ (
      (after_user now tenant user tier q).0,
      record (after_user now tenant user tier q).1 { scope = "user"; tier = tier },
    )
unfolding check_scopes check_tenant check_scope and_then answer_of
check_all_limits-user_refuses now tenant user skill hash tier q b u t f =
    rw (check_all_limits-answer now tenant user skill hash tier q b, t, u, f)

module _ (now : ℕ) (tenant user tier : String) (q : QuotaManager)
    (e : (tier_config tier q).enabled ≡ true) where
  user_refused :
      (tier_config tier q).requests_per_min ≤ get_count (build_user_key tenant user "min") q.storage
      → (after_user now tenant user tier q).1.allowed ≡ false
  unfolding check_user_limit check_tenant_limit
  user_refused f =
      let tk = build_tenant_key tenant "min" in
      let uk = build_user_key tenant user "min" in
      let q' = (check_key now tk tier q).0 in
      check_key-full now uk tier q' (rw (tier_config-check_key now tk tier q) e) (
        rw (tier_config-check_key now tk tier q)
          (omega (arith, f, get_count-check_key now tk tier q uk e)))

  tenant_counted :
      (check_tenant_limit now tenant tier q).1.allowed ≡ true
      → get_count (build_tenant_key tenant "min") (after_user now tenant user tier q).0.storage
        ≡ get_count (build_tenant_key tenant "min") q.storage + 1
  unfolding check_user_limit check_tenant_limit
  tenant_counted t =
      let tk = build_tenant_key tenant "min" in
      let uk = build_user_key tenant user "min" in
      let q' = (check_key now tk tier q).0 in
      ground (
        arith,
        get_count-check_key now tk tier q tk e,
        get_count-check_key now uk tier q' tk (rw (tier_config-check_key now tk tier q) e),
        keys_differ tenant user,
        eq_refl tk,
      )

-- Without a bypass, and at a tier that is enabled: a request of a user whose counter has reached
-- the limit is refused in the user's scope, and yet counted for the tenant, if the tenant's check
-- allows it.
pub refused_request_consumes :
    (now : ℕ) (tenant user skill hash tier : String) (q : QuotaManager)
    → q.config.bypass_limits ≡ false
    → (tier_config tier q).enabled ≡ true
    → str_eq user "" ≡ false
    → (check_tenant_limit now tenant tier q).1.allowed ≡ true
    → (tier_config tier q).requests_per_min ≤ get_count (build_user_key tenant user "min") q.storage
    → ((check_all_limits now tenant user skill hash tier q).1.allowed ≡ false)
      × ((check_all_limits now tenant user skill hash tier q).1.scope ≡ "user")
      × (get_count
            (build_tenant_key tenant "min")
            (check_all_limits now tenant user skill hash tier q).0.storage
          ≡ get_count (build_tenant_key tenant "min") q.storage + 1)
refused_request_consumes now tenant user skill hash tier q b e u t f =
    rw
      (check_all_limits-user_refuses now tenant user skill hash tier q b u t
        (user_refused now tenant user tier q e f))
      (user_refused now tenant user tier q e f, refl, tenant_counted now tenant user tier q e t)
