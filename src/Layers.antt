-- ===== src/Layers.antt =====
-- internal/resilience/circuit_breaker.go, layers 2 and 3 and their composition: the cooldowns of
-- the connections, the lockouts of the models, and `ThreeLayerResilience`, which keeps both and the
-- provider breakers of `ProviderCb`. A `Get` method creates what is missing and returns a pointer
-- into the map; here the caller gets the value and writes its changes back. The second lookup under
-- the write lock is the first one, under one lock.
pub mod Routing
pub mod Holding
pub mod Keys
pub mod Tests
use nexus_ai_gateway.Common.{
  ℕ, ◌+◌, ◌-◌, ◌*◌, Bool, true, false, not, Option, none, some, List, [], ◌∷◌, String, map, str_eq,
  if◌then◌else◌,
}
use nexus_ai_gateway.Common.Clock.{after, before, second}
use nexus_ai_gateway.Common.Text.{str_append}
use nexus_ai_gateway.Common.Dict.{Dict, find, put, delete}
use nexus_ai_gateway.ProviderCb
use nexus_ai_gateway.ProviderCb.{
  ProviderCb, CbState, cb_state_closed, cb_state_half_open, cb_state_open, cb_state_degraded,
  new_provider_cb,
}

pub record Cooldown : Type 0 where
  pub account_id : String
  pub provider_id : String
  pub cooled_until : ℕ
  pub retry_after : ℕ
  pub reason : String

unfoldable pub new_cooldown : String → String → Cooldown
new_cooldown account provider = record {
  account_id = account;
  provider_id = provider;
  cooled_until = 0;
  retry_after = 30 * second;
  reason = "rate_limit";
}

unfoldable pub can_use : ℕ → Cooldown → Bool
can_use now c = after now c.cooled_until

unfoldable pub cool : ℕ → ℕ → String → Cooldown → Cooldown
cool now duration reason c = record c {
  cooled_until = now + duration;
  retry_after = duration;
  reason = reason;
}

-- The subtraction on ℕ stops at 0, as the code's test does.
unfoldable pub cooldown_remaining : ℕ → Cooldown → ℕ
cooldown_remaining now c = c.cooled_until - now

unfoldable pub cooldown_key : String → String → String
cooldown_key account provider = str_append (str_append account ":") provider

unfoldable pub get_cooldown : String → String → Dict Cooldown → Dict Cooldown × Cooldown
get_cooldown account provider m = elim (find (cooldown_key account provider) m) [
  | some c ↦ (m, c)
  | none ↦ (
    put (cooldown_key account provider) (new_cooldown account provider) m,
    new_cooldown account provider,
  )
]

unfoldable pub remove_cooldown : String → String → Dict Cooldown → Dict Cooldown
remove_cooldown account provider m = delete (cooldown_key account provider) m

pub record Lockout : Type 0 where
  pub provider_id : String
  pub model_id : String
  pub locked_until : ℕ
  pub reason : String
  pub locked_by : String

unfoldable pub new_lockout : String → String → Lockout
new_lockout provider model = record {
  provider_id = provider;
  model_id = model;
  locked_until = 0;
  reason = "manual";
  locked_by = "";
}

unfoldable pub lockout_is_locked : ℕ → Lockout → Bool
lockout_is_locked now l = before now l.locked_until

unfoldable pub lock : ℕ → ℕ → String → String → Lockout → Lockout
lock now duration reason by l = record l {
  locked_until = now + duration;
  reason = reason;
  locked_by = by;
}

unfoldable pub unlock : Lockout → Lockout
unlock l = record l { locked_until = 0 }

unfoldable pub lockout_remaining : ℕ → Lockout → ℕ
lockout_remaining now l = l.locked_until - now

unfoldable pub lockout_key : String → String → String
lockout_key provider model = str_append (str_append provider ":") model

unfoldable pub get_lockout : String → String → Dict Lockout → Dict Lockout × Lockout
get_lockout provider model m = elim (find (lockout_key provider model) m) [
  | some l ↦ (m, l)
  | none ↦
      (put (lockout_key provider model) (new_lockout provider model) m, new_lockout provider model)
]

unfoldable pub is_locked : ℕ → String → String → Dict Lockout → Dict Lockout × Bool
is_locked now provider model m =
    let (m', l) = get_lockout provider model m in (m', lockout_is_locked now l)

unfoldable pub remove_lockout : String → String → Dict Lockout → Dict Lockout
remove_lockout provider model m = delete (lockout_key provider model) m

pub record Layers : Type 0 where
  pub breakers : Dict ProviderCb
  pub cooldowns : Dict Cooldown
  pub lockouts : Dict Lockout

unfoldable pub new_layers : Layers
new_layers = record { breakers = []; cooldowns = []; lockouts = [] }

unfoldable pub get_provider_cb : String → Dict ProviderCb → Dict ProviderCb × ProviderCb
get_provider_cb provider m = elim (find provider m) [
  | some cb ↦ (m, cb)
  | none ↦ (put provider (new_provider_cb provider) m, new_provider_cb provider)
]

-- `GetProviderCB` and then a method on what it returns.
unfoldable pub on_breaker : String → (ProviderCb → ProviderCb) → Dict ProviderCb → Dict ProviderCb
on_breaker provider f m = let (m', cb) = get_provider_cb provider m in put provider (f cb) m'

-- The last test of `CanRoute`: no model, no lockout.
check_lockout : ℕ → String → String → Layers → Layers × Bool
check_lockout now provider model t =
    if str_eq model ""
    then (t, true)
    else (let (ls, locked) = is_locked now provider model t.lockouts in
        (record t { lockouts = ls }, not locked))

check_cooldown : ℕ → String → String → String → Layers → Layers × Bool
check_cooldown now provider model account t =
    let (cs, c) = get_cooldown account provider t.cooldowns in
    let t' = record t { cooldowns = cs } in
    if can_use now c then check_lockout now provider model t' else (t', false)

unfoldable pub can_route : ℕ → String → String → String → Layers → Layers × Bool
unfolding check_cooldown check_lockout
can_route now provider model account t =
    let (bs, cb) = get_provider_cb provider t.breakers in
    let (cb', ok) = ProviderCb.allow now cb in
    let t' = record t { breakers = put provider cb' bs } in
    if ok then check_cooldown now provider model account t' else (t', false)

-- The model is an argument that the code does not read.
unfoldable pub record_success : ℕ → String → String → String → Layers → Layers
record_success now provider model account t = record t {
  breakers = on_breaker provider (ProviderCb.record_success now) t.breakers;
  cooldowns = remove_cooldown account provider t.cooldowns;
}

unfoldable pub record_failure : ℕ → String → String → String → Layers → Layers
record_failure now provider model account t = record t {
  breakers = on_breaker provider (ProviderCb.record_failure now) t.breakers;
}

unfoldable pub set_cooldown : ℕ → String → String → ℕ → String → Layers → Layers
set_cooldown now account provider duration reason t =
    let (cs, c) = get_cooldown account provider t.cooldowns in
    record t { cooldowns = put (cooldown_key account provider) (cool now duration reason c) cs }

unfoldable pub lock_model : ℕ → String → String → ℕ → String → String → Layers → Layers
lock_model now provider model duration reason by t =
    let (ls, l) = get_lockout provider model t.lockouts in
    record t { lockouts = put (lockout_key provider model) (lock now duration reason by l) ls }

unfoldable pub unlock_model : String → String → Layers → Layers
unlock_model provider model t = record t { lockouts = remove_lockout provider model t.lockouts }

abbrev pub state_string : CbState → String
state_string cb_state_closed = "CLOSED"
state_string cb_state_half_open = "HALF_OPEN"
state_string cb_state_open = "OPEN"
state_string cb_state_degraded = "DEGRADED"

pub record CbStats : Type 0 where
  pub provider_id : String
  pub state : String
  pub failure_count : ℕ
  pub success_count : ℕ
  pub last_failure : ℕ
  pub last_state_change : ℕ
  pub total_requests : ℕ
  pub total_failures : ℕ
  pub total_successes : ℕ
  pub cooldown_ends : ℕ

unfoldable pub cb_stats : ProviderCb → CbStats
cb_stats cb = record {
  provider_id = cb.provider_id;
  state = state_string cb.state;
  failure_count = cb.failure_count;
  success_count = cb.success_count;
  last_failure = cb.last_failure;
  last_state_change = cb.last_state_change;
  total_requests = cb.total_requests;
  total_failures = cb.total_failures;
  total_successes = cb.total_successes;
  cooldown_ends = cb.cooldown_ends;
}

unfoldable pub get_all_stats : Layers → List CbStats
unfolding cb_stats
get_all_stats t = map (λ e. cb_stats e.1) t.breakers
