-- ===== src/Rate/Limits.antt =====
-- Which limit is in effect for a user, what is counted for the tokens, and when to try again.
use nexus_ai_gateway.Common.{
  ℕ, ◌+◌, ◌-◌, ◌≤◌, ◌≡◌, refl, ap, false, ◌&&◌, none, some, List, [], ◌∷◌, String, arith, leb, ltb,
  ◌==◌, if◌then◌else◌, length, Option-cases, inl, inr, str_eq,
}
use nexus_ai_gateway.Common.Clock.{minute, day}
use nexus_ai_gateway.Common.Text.{str_append, str_eq-append_left, str_eq_heads}
use nexus_ai_gateway.Common.Int.{pos}
use nexus_ai_gateway.Common.Dict.{find, find-put, find-put_self}
use nexus_ai_gateway.Rate.{
  MemoryStorage, new_memory_storage, live_counter, memory_check, memory_increment, memory_get_limit,
  memory_set_limit,
}
use nexus_ai_gateway.Rate.Limiter.{
  Config, ok, memory, RateLimitResult, check_user_rpm, check_tokens_pm, set_user_limit,
}

-- A refused key is refused until its retry time, that time included, and allowed from then on.
pub retry_after_exact :
    (now later : ℕ) (key : String) (limit window : ℕ) (s : MemoryStorage)
    → (memory_check now key limit window s).1.allowed ≡ false
    → now ≤ later
    → (memory_check later key limit window (memory_check now key limit window s).0).1.allowed
      ≡ ltb (now + (memory_check now key limit window s).1.retry_after) later
unfolding memory_check
retry_after_exact now later key limit window s h l = ground arith

keys_differ : (u v : String) → str_eq (str_append "rpd:user:" u) (str_append "rpm:user:" v) ≡ false
keys_differ u v = str_eq_heads "rp" "d" "m" ":user:" ":user:" u v (omega arith)

memory_get_limit-set :
    (k j : String) (limit window : ℕ) (s : MemoryStorage)
    → memory_get_limit j (memory_set_limit k limit window s)
      ≡ (if str_eq k j then limit else memory_get_limit j s)
unfolding memory_get_limit memory_set_limit
memory_get_limit-set k j limit window s =
    ground (arith, find-put k j (record { limit = limit; window = window }) s.limits)

abbrev pub effective_rpm : Config → String → MemoryStorage → ℕ
effective_rpm config user s =
    let set = memory_get_limit (str_append "rpm:user:" user) s in
    if set == 0 then config.default_rpm else set

set_user_limit-get :
    (u v : String) (rpm rpd : ℕ) (s : MemoryStorage)
    → memory_get_limit (str_append "rpm:user:" v) (set_user_limit memory u rpm rpd s).0
      ≡ (if str_eq u v && ltb 0 rpm then rpm else memory_get_limit (str_append "rpm:user:" v) s)
unfolding set_user_limit
set_user_limit-get u v rpm rpd s =
    let s' = memory_set_limit (str_append "rpm:user:" u) rpm minute s in
    ground (
      arith,
      memory_get_limit-set (str_append "rpm:user:" u) (str_append "rpm:user:" v) rpm minute s,
      memory_get_limit-set (str_append "rpd:user:" u) (str_append "rpm:user:" v) rpd day s,
      memory_get_limit-set (str_append "rpd:user:" u) (str_append "rpm:user:" v) rpd day s',
      keys_differ u v,
      str_eq-append_left "rpm:user:" u v,
    )

-- After `SetUserLimit` a check of a user's requests per minute goes by the limit that was set for
-- that user, if it is positive, and for any other user by the limit from before or the default.
pub set_user_limit-check_user_rpm :
    (config : Config) (now : ℕ) (u v : String) (rpm rpd : ℕ) (s : MemoryStorage)
    → (r : RateLimitResult) × ((check_user_rpm memory config now v
          (set_user_limit memory u rpm rpd s).0).1
        ≡ ok r)
      × (r.limit ≡ (if str_eq u v && ltb 0 rpm then rpm else effective_rpm config v s))
unfolding check_user_rpm
set_user_limit-check_user_rpm config now u v rpm rpd s =
    let s' = (set_user_limit memory u rpm rpd s).0 in
    let limit = effective_rpm config v s' in
    let a = (memory_check now (str_append "rpm:user:" v) limit minute s').1 in
    (
      record {
        allowed = a.allowed;
        remaining = a.remaining;
        limit = limit;
        retry_after = a.retry_after;
        reset_at = now + minute;
      },
      refl,
      ground (arith, set_user_limit-get u v rpm rpd s),
    )

-- Calls of `CheckTokensPM` for one user, with the numbers of tokens given.
unfoldable pub count_tokens : Config → ℕ → String → List ℕ → MemoryStorage → MemoryStorage
count_tokens config now user [] s = s
count_tokens config now user (tokens ∷ rest) s =
    count_tokens config now user rest (check_tokens_pm memory config now user tokens s).0

abbrev count_at : ℕ → String → MemoryStorage → ℕ
count_at now key s = elim (live_counter now (find key s.counters)) [ none ↦ 0 | some c ↦ c.count ]

increment_lem :
    (now : ℕ) (key : String) (window : ℕ) (s : MemoryStorage)
    → ((memory_increment now key window s).1 ≡ count_at now key s + 1)
      × (count_at now key (memory_increment now key window s).0 ≡ count_at now key s + 1)
unfolding memory_increment
increment_lem now key window s =
    let started = find-put_self key (record { count = 1; window_end = now + window }) s.counters in
    elim (Option-cases (find key s.counters)) [
      | inl e ↦ ground (arith, e, started)
      | inr (c, e) ↦ ground (
        arith,
        e,
        started,
        find-put_self key (record { count = c.count + 1; window_end = c.window_end }) s.counters,
      )
    ]

count_at-count_tokens :
    (config : Config) (now : ℕ) (user : String) (ts : List ℕ) (s : MemoryStorage)
    → count_at now (str_append "tpm:user:" user) (count_tokens config now user ts s)
      ≡ count_at now (str_append "tpm:user:" user) s + length ts
unfolding count_tokens check_tokens_pm
count_at-count_tokens config now user [] s = omega arith
count_at-count_tokens config now user (tokens ∷ ts) s = omega (
  arith,
  count_at-count_tokens config now user ts (check_tokens_pm memory config now user tokens s).0,
  increment_lem now (str_append "tpm:user:" user) minute s,
)

none_counted : (now : ℕ) (key : String) → count_at now key new_memory_storage ≡ 0
unfolding new_memory_storage find
none_counted now key = refl

-- The check of the tokens per minute counts its calls and not the tokens: after calls with any
-- numbers of tokens at one time, on a new storage, the next call is allowed exactly when the
-- calls, itself included, are at most the limit on tokens.
pub check_tokens_counts_calls :
    (config : Config) (now : ℕ) (user : String) (ts : List ℕ) (tokens : ℕ)
    → (r : RateLimitResult) × ((check_tokens_pm memory config now user tokens
          (count_tokens config now user ts new_memory_storage)).1
        ≡ ok r)
      × (r.allowed ≡ leb (length ts + 1) config.default_tpm)
unfolding check_tokens_pm
check_tokens_counts_calls config now user ts tokens =
    let key = str_append "tpm:user:" user in
    let s = count_tokens config now user ts new_memory_storage in
    let n = (memory_increment now key minute s).1 in
    (
      record {
        allowed = leb n config.default_tpm;
        remaining = pos (config.default_tpm - n);
        limit = config.default_tpm;
        retry_after = 0;
        reset_at = now + minute;
      },
      refl,
      ap (λ k. leb k config.default_tpm)
          (omega (
            arith,
            increment_lem now key minute s,
            count_at-count_tokens config now user ts new_memory_storage,
            none_counted now key,
          )),
    )
