-- ===== src/Rate/Limiter.antt =====
-- internal/rate/limiter.go, `RateLimiter`: it reads a storage through the interface
-- `RateLimitStorage`, whose methods may fail. The state of the storage is passed on explicitly.
use nexus_ai_gateway.Common.{ℕ, ◌+◌, ◌-◌, Bool, true, String, leb, ltb, ◌==◌, if◌then◌else◌}
use nexus_ai_gateway.Common.Clock.{minute, day}
use nexus_ai_gateway.Common.Int.{ℤ, pos}
use nexus_ai_gateway.Common.Text.{str_append}
use nexus_ai_gateway.Rate.{
  MemoryStorage, CheckAnswer, memory_check, memory_increment, memory_get_limit, memory_set_limit,
}

pub record Config : Type 0 where
  pub enabled : Bool
  pub default_rpm : ℕ
  pub default_rpd : ℕ
  pub default_tpm : ℕ
  pub default_tpd : ℕ

abbrev pub default_config : Config
default_config = record {
  enabled = true;
  default_rpm = 60;
  default_rpd = 10000;
  default_tpm = 100000;
  default_tpd = 1000000;
}

pub data Outcome (A : Type 0) : Type 0 where
  ok : A → Outcome A
  err : String → Outcome A

-- The interface. `S` is the state of the storage; the time of the call comes first where the
-- storage reads the clock.
pub record Storage (S : Type 0) : Type 0 where
  pub check : ℕ → String → ℕ → ℕ → S → S × Outcome CheckAnswer
  pub increment : ℕ → String → ℕ → S → S × Outcome ℕ
  pub get_limit : String → S → S × Outcome ℕ
  pub set_limit : String → ℕ → ℕ → S → S × Outcome Unit

abbrev pub memory : Storage MemoryStorage
memory = record {
  check = λ now key limit window s. let (s', a) = memory_check now key limit window s in (s', ok a);
  increment = λ now key window s. let (s', n) = memory_increment now key window s in (s', ok n);
  get_limit = λ key s. (s, ok (memory_get_limit key s));
  set_limit = λ key limit window s. (memory_set_limit key limit window s, ok tt);
}

pub record RateLimitResult : Type 0 where
  pub allowed : Bool
  pub remaining : ℤ
  pub limit : ℕ
  pub retry_after : ℕ
  pub reset_at : ℕ

-- A step of a method on the state of the storage, that returns at the first error.
infixl 5 ◌>>=◌
abbrev pub ◌>>=◌ :
    {S A B : Type 0} → (S → S × Outcome A) → (A → S → S × Outcome B) → S → S × Outcome B
◌>>=◌ m f s = let (s', o) = m s in elim o [ ok a ↦ f a s' | err e ↦ (s', err e) ]

abbrev pub pure : {S A : Type 0} → A → S → S × Outcome A
pure a s = (s, ok a)

abbrev pub result_of : ℕ → ℕ → ℕ → CheckAnswer → RateLimitResult
result_of now limit window a = record {
  allowed = a.allowed;
  remaining = a.remaining;
  limit = limit;
  retry_after = a.retry_after;
  reset_at = now + window;
}

module _ {S : Type 0} (storage : Storage S) where
  unfoldable pub check : ℕ → String → ℕ → ℕ → S → S × Outcome RateLimitResult
  check now key limit window = do
    a ← storage.check now key limit window
    pure (result_of now limit window a)

  unfoldable pub check_user_rpm : Config → ℕ → String → S → S × Outcome RateLimitResult
  unfolding check
  check_user_rpm config now user = do
    set ← storage.get_limit (str_append "rpm:user:" user)
    check now (str_append "rpm:user:" user) (if set == 0 then config.default_rpm else set) minute

  unfoldable pub check_user_rpd : Config → ℕ → String → S → S × Outcome RateLimitResult
  unfolding check
  check_user_rpd config now user = do
    set ← storage.get_limit (str_append "rpd:user:" user)
    check now (str_append "rpd:user:" user) (if set == 0 then config.default_rpd else set) day

  unfoldable pub check_model_rpm : ℕ → String → S → S × Outcome RateLimitResult
  unfolding check
  check_model_rpm now model = check now (str_append "rpm:model:" model) 120 minute

  -- The number of tokens is an argument that the code does not read. The subtraction on ℕ stops at
  -- 0, as the code's test does.
  unfoldable pub check_tokens_pm : Config → ℕ → String → ℕ → S → S × Outcome RateLimitResult
  check_tokens_pm config now user tokens = do
    count ← storage.increment now (str_append "tpm:user:" user) minute
    pure (record {
      allowed = leb count config.default_tpm;
      remaining = pos (config.default_tpm - count);
      limit = config.default_tpm;
      retry_after = 0;
      reset_at = now + minute;
    })

  set_if_positive : String → ℕ → ℕ → S → S × Outcome Unit
  set_if_positive key limit window =
      if ltb 0 limit then storage.set_limit key limit window else pure tt

  unfoldable pub set_user_limit : String → ℕ → ℕ → S → S × Outcome Unit
  unfolding set_if_positive
  set_user_limit user rpm rpd = do
    _ ← set_if_positive (str_append "rpm:user:" user) rpm minute
    set_if_positive (str_append "rpd:user:" user) rpd day
