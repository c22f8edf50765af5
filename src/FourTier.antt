-- ===== src/FourTier.antt =====
-- internal/resilience/fallback_tiers.go: the fallback over four tiers of providers, with a circuit
-- for each provider. The executor is a parameter that acts on a state, and so are its clock, and
-- the zero health of a provider. The lock is held from the first line to the last, so that nothing
-- runs between the calls of the executor. An error is its text.
pub mod Circuits
pub mod Calls
pub mod Tests
use nexus_ai_gateway.Common.{
  ℕ, zero, suc, ◌+◌, ◌-◌, ◌*◌, ◌/◌, Bool, true, false, ◌&&◌, ◌||◌, not, Option, none, some, List,
  [], ◌∷◌, ◌++◌, String, if◌then◌else◌, ltb, leb, ◌==◌, str_eq, take, drop,
}
use nexus_ai_gateway.Common.Clock.{second}
use nexus_ai_gateway.Common.Text.{str_append}
use nexus_ai_gateway.Common.Dict.{Dict, find, put}
use nexus_ai_gateway.Fallback.{
  ProviderTier, tier_subscription, tier_api_key, tier_cheap, tier_free, Provider,
}
use nexus_ai_gateway.FourTier.Circuits.{
  CircuitBreaker, new_circuit_breaker, is_open, record_success, record_failure,
}

abbrev pub millisecond : ℕ
millisecond = 1_000_000

pub record AutoFallbackTier {ℓ} (H : Type ℓ) : Type ℓ where
  pub tier : ℕ
  pub name : String
  pub providers : List (Provider H)
  pub latency_budget : ℕ
  pub is_healthy : Bool

pub record FourTierAutoFallback {ℓ} (H : Type ℓ) : Type ℓ where
  pub tiers : List (AutoFallbackTier H)
  pub circuit_breaker : CircuitBreaker
  pub max_depth : ℕ
  pub request_counts : Dict ℕ

pub record FallbackRequestOptions : Type 0 where
  pub tenant_id : String
  pub preferred_tier : ℕ
  pub minimum_tier : ℕ
  pub allow_free : Bool
  pub max_attempts : ℕ
  pub max_latency_ms : ℕ
  pub require_vision : Bool
  pub require_streaming : Bool
  pub context_window : ℕ
  pub preferred_provider : String
  pub strategy : String

pub record FallbackResult {ℓ} (H : Type ℓ) : Type ℓ where
  pub provider : Option (Provider H)
  pub model_name : String
  pub tier : ℕ
  pub attempts : ℕ
  pub total_latency_ms : ℕ
  pub fallbacked : Bool
  pub fallback_path : List String
  pub error : Option String
  pub success : Bool

-- The variables of the loops.
pub record Progress : Type 0 where
  pub attempts : ℕ
  pub fallback_path : List String
  pub last_err : Option String

-- How a part of the loops ends: with a return, or with the values for the next.
pub data Try {ℓ κ} (H : Type ℓ) (S : Type κ) : Type (ℓ ⊔ κ) where
  ends : FourTierAutoFallback H → S → FallbackResult H → Try H S
  goes : Progress → FourTierAutoFallback H → S → Try H S

abbrev pub and_then {ℓ κ} :
    {H : Type ℓ} {S : Type κ}
    → Try H S
    → (Progress → FourTierAutoFallback H → S → Try H S)
    → Try H S
and_then (ends f s r) next = ends f s r
and_then (goes g f s) next = next g f s

pub record Executor {ℓ κ} (H : Type ℓ) (S : Type κ) : Type (ℓ ⊔ κ) where
  pub execute : Provider H → String → S → S × Option String
  pub clock : S → ℕ

unfoldable pub select_model_for_provider : String → String
select_model_for_provider name =
    if str_eq name "claude-code"
    then "claude-3-5-sonnet-20240620"
    else if str_eq name "openai-codex"
    then "gpt-4o"
    else if str_eq name "github-copilot"
    then "gpt-4-turbo"
    else if str_eq name "deepseek"
    then "deepseek-chat"
    else if str_eq name "xai-grok" || str_eq name "xai"
    then "grok-2"
    else if str_eq name "zhipu-glm"
    then "glm-4"
    else if str_eq name "minimax"
    then "moonshot-v1-32k"
    else if str_eq name "kiro" || str_eq name "qoder" || str_eq name "pollinations"
    then "llama-3-70b-instruct"
    else "gpt-4o-mini"

-- From 0.
unfoldable pub determine_start_tier : FallbackRequestOptions → ℕ
determine_start_tier req =
    if ltb 0 req.preferred_tier && leb req.preferred_tier 4
    then req.preferred_tier - 1
    else if ltb 0 req.minimum_tier && leb req.minimum_tier 4
    then req.minimum_tier - 1
    else 0

abbrev pub no_preference : FallbackRequestOptions → String → Bool
no_preference req name = str_eq req.preferred_provider "" || str_eq name req.preferred_provider

abbrev pub count_of : Option ℕ → ℕ
count_of none = 0
count_of (some n) = n

module _ {ℓ} {H : Type ℓ} where
  -- `zero_health` is the health of a provider that is made without one.
  abbrev pub named : H → String → ProviderTier → ℕ → Provider H
  named zero_health name tier priority = record {
    id = "";
    name = name;
    tier = tier;
    health = zero_health;
    quota_remaining = 0;
    quota_limit = 0;
    is_healthy = false;
    priority = priority;
  }

  unfoldable pub initialize_tiers : H → List (AutoFallbackTier H)
  initialize_tiers z =
      record {
        tier = 1;
        name = "premium";
        latency_budget = 2000 * millisecond;
        is_healthy = true;
        providers =
            named z "claude-code" tier_subscription 1
            ∷ named z "openai-codex" tier_subscription 2
            ∷ named z "github-copilot" tier_subscription 3
            ∷ [];
      }
      ∷ record {
        tier = 2;
        name = "standard";
        latency_budget = 3000 * millisecond;
        is_healthy = true;
        providers =
            named z "deepseek" tier_api_key 1
            ∷ named z "xai-grok" tier_api_key 2
            ∷ named z "xai" tier_api_key 3
            ∷ [];
      }
      ∷ record {
        tier = 3;
        name = "budget";
        latency_budget = 5000 * millisecond;
        is_healthy = true;
        providers = named z "zhipu-glm" tier_cheap 1 ∷ named z "minimax" tier_cheap 2 ∷ [];
      }
      ∷ record {
        tier = 4;
        name = "free";
        latency_budget = 10000 * millisecond;
        is_healthy = true;
        providers =
            named z "kiro" tier_free 1
            ∷ named z "qoder" tier_free 2
            ∷ named z "pollinations" tier_free 3
            ∷ [];
      }
      ∷ []

  unfoldable pub new_four_tier_auto_fallback : H → FourTierAutoFallback H
  new_four_tier_auto_fallback z = record {
    tiers = initialize_tiers z;
    circuit_breaker = new_circuit_breaker 5 (30 * second);
    max_depth = 4;
    request_counts = [];
  }

  -- A provider of the tier may be tried, if its circuit lets it.
  abbrev pub wanted : ℕ → FallbackRequestOptions → Provider H → Bool
  wanted tier req p = not (tier == 4 && not req.allow_free) && no_preference req p.name

  unfoldable pub get_available_providers :
      ℕ
      → ℕ
      → FallbackRequestOptions
      → List (Provider H)
      → CircuitBreaker
      → CircuitBreaker × List (Provider H)
  get_available_providers now tier req [] cb = (cb, [])
  get_available_providers now tier req (p ∷ ps) cb =
      let (cb', shut) = is_open now p.name cb in
      let (cb'', rest) = get_available_providers now tier req ps cb' in
      (cb'', if not shut && wanted tier req p then p ∷ rest else rest)

  -- `SetTierHealth`: the tiers are numbered from 1.
  abbrev pub set_health : ℕ → Bool → List (AutoFallbackTier H) → List (AutoFallbackTier H)
  set_health n healthy [] = []
  set_health zero healthy (t ∷ ts) = record t { is_healthy = healthy } ∷ ts
  set_health (suc n) healthy (t ∷ ts) = t ∷ set_health n healthy ts

  unfoldable pub set_tier_health : ℕ → Bool → FourTierAutoFallback H → FourTierAutoFallback H
  set_tier_health tier healthy f =
      if leb 1 tier && leb tier 4
      then record f { tiers = set_health (tier - 1) healthy f.tiers }
      else f

module _ {ℓ κ} {H : Type ℓ} {S : Type κ} (x : Executor H S) (req : FallbackRequestOptions) where
  -- The executor has answered, with an error or without.
  unfoldable pub settle :
      AutoFallbackTier H
      → Provider H
      → ℕ
      → Progress
      → FourTierAutoFallback H
      → S
      → Option String
      → Try H S
  settle t p start g f s none =
      ends
        (record f {
          circuit_breaker = record_success p.name f.circuit_breaker;
          request_counts =
              put p.name (count_of (find p.name f.request_counts) + 1) f.request_counts;
        })
        s
        (record {
          provider = some p;
          model_name = select_model_for_provider p.name;
          tier = t.tier;
          attempts = g.attempts + 1;
          total_latency_ms = (x.clock s - start) / millisecond;
          fallbacked = elim g.fallback_path [ [] ↦ false | ◌∷◌ e es ↦ true ];
          fallback_path = g.fallback_path;
          error = none;
          success = true;
        })
  settle t p start g f s (some e) =
      goes
        (record {
          attempts = g.attempts + 1;
          fallback_path = g.fallback_path ++ str_append p.name (str_append ":" e) ∷ [];
          last_err = some e;
        })
        (record f { circuit_breaker = record_failure (x.clock s) p.name f.circuit_breaker }) s

  abbrev pub too_slow : AutoFallbackTier H → Bool
  too_slow t = ltb 0 req.max_latency_ms && ltb req.max_latency_ms (t.latency_budget / millisecond)

  -- The body of the loop over the providers.
  unfoldable pub try_provider :
      AutoFallbackTier H → Provider H → Progress → FourTierAutoFallback H → S → Try H S
  try_provider t p g f s =
      let (cb, shut) = is_open (x.clock s) p.name f.circuit_breaker in
      let f' = record f { circuit_breaker = cb } in
      let (s', answer) = x.execute p (select_model_for_provider p.name) s in
      if leb req.max_attempts g.attempts
      then goes g f s
      else if too_slow t
      then goes g f s
      else if shut
      then goes g f' s
      else settle t p (x.clock s) g f' s' answer

  unfoldable pub try_all :
      AutoFallbackTier H → List (Provider H) → Progress → FourTierAutoFallback H → S → Try H S
  try_all t [] g f s = goes g f s
  try_all t (p ∷ ps) g f s = and_then (try_provider t p g f s) (try_all t ps)

  -- The body of the loop over the tiers.
  unfoldable pub try_tier : AutoFallbackTier H → Progress → FourTierAutoFallback H → S → Try H S
  try_tier t g f s =
      let (cb, available) =
        get_available_providers (x.clock s) t.tier req t.providers f.circuit_breaker in
      if leb req.max_attempts g.attempts
      then goes g f s
      else if t.is_healthy
      then try_all t available g (record f { circuit_breaker = cb }) s
      else goes g f s

  unfoldable pub try_tiers :
      List (AutoFallbackTier H) → Progress → FourTierAutoFallback H → S → Try H S
  try_tiers [] g f s = goes g f s
  try_tiers (t ∷ ts) g f s = and_then (try_tier t g f s) (try_tiers ts)

  -- The end of the method: without a return before, all providers are exhausted, and the error of
  -- the result is also that of the method.
  abbrev pub finish : Try H S → S × FourTierAutoFallback H × FallbackResult H
  finish (ends f s r) = (s, f, r)
  finish (goes g f s) = (
    s,
    f,
    record {
      provider = none;
      model_name = "";
      tier = 0;
      attempts = g.attempts;
      total_latency_ms = 0;
      fallbacked = true;
      fallback_path = g.fallback_path;
      error = g.last_err;
      success = false;
    },
  )

  unfoldable pub execute_with_fallback :
      FourTierAutoFallback H → S → S × FourTierAutoFallback H × FallbackResult H
  execute_with_fallback f s = finish (
      try_tiers (drop (determine_start_tier req) (take f.max_depth f.tiers))
        (record { attempts = 0; fallback_path = []; last_err = none }) f s)
