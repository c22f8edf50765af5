-- ===== src/Layers/Routing.antt =====
-- When a request may be routed, and the calls that change the layers.
use text.Mathlib.TextEquality.{eq_iff}
use nexus_ai_gateway.Common.{
  ℕ, ◌≡◌, not, ◌&&◌, ◌||◌, none, some, List, [], ◌∷◌, String, arith, str_eq,
}
use nexus_ai_gateway.Common.Clock.{after, before}
use nexus_ai_gateway.Common.Dict.{Dict, find, find-put}
use nexus_ai_gateway.ProviderCb
use nexus_ai_gateway.ProviderCb.{ProviderCb, cb_state_open, cb_state_half_open, new_provider_cb}
use nexus_ai_gateway.Layers.{
  Cooldown, Lockout, Layers, new_cooldown, can_use, cooldown_key, get_cooldown, new_lockout,
  lockout_is_locked, lockout_key, get_lockout, is_locked, get_provider_cb, can_route,
  record_success, record_failure, set_cooldown, lock_model, unlock_model,
}

-- What the maps say of a key, with what is created for a missing one.
abbrev pub cb_of : String → Layers → ProviderCb
cb_of p t = elim (find p t.breakers) [ some cb ↦ cb | none ↦ new_provider_cb p ]

abbrev pub cooled_until_of : String → Dict Cooldown → ℕ
cooled_until_of k m = elim (find k m) [ some c ↦ c.cooled_until | none ↦ 0 ]

abbrev pub locked_until_of : String → Dict Lockout → ℕ
locked_until_of k m = elim (find k m) [ some l ↦ l.locked_until | none ↦ 0 ]

module _ (a p : String) (m : Dict Cooldown) where
  pub cooled_until-get_cooldown :
      (get_cooldown a p m).1.cooled_until ≡ cooled_until_of (cooldown_key a p) m
  unfolding get_cooldown new_cooldown
  cooled_until-get_cooldown = ground arith

  pub cooled_until_of-get_cooldown :
      (k : String) → cooled_until_of k (get_cooldown a p m).0 ≡ cooled_until_of k m
  unfolding get_cooldown new_cooldown
  cooled_until_of-get_cooldown k =
      ground
        (arith, find-put (cooldown_key a p) k (new_cooldown a p) m, eq_iff (cooldown_key a p) k)

module _ (p d : String) (m : Dict Lockout) where
  pub locked_until-get_lockout :
      (get_lockout p d m).1.locked_until ≡ locked_until_of (lockout_key p d) m
  unfolding get_lockout new_lockout
  locked_until-get_lockout = ground arith

  pub locked_until_of-get_lockout :
      (k : String) → locked_until_of k (get_lockout p d m).0 ≡ locked_until_of k m
  unfolding get_lockout new_lockout
  locked_until_of-get_lockout k =
      ground (arith, find-put (lockout_key p d) k (new_lockout p d) m, eq_iff (lockout_key p d) k)

pub get_provider_cb-cb_of : (p : String) (t : Layers) → (get_provider_cb p t.breakers).1 ≡ cb_of p t
unfolding get_provider_cb
get_provider_cb-cb_of p t = ground arith

-- A request is routed exactly when the provider's breaker allows it, the connection's cooldown is
-- over, and there is no model given or its lockout is over.
pub can_route_exact :
    (now : ℕ) (provider model account : String) (t : Layers)
    → (can_route now provider model account t).1 ≡ (
        (ProviderCb.allow now (cb_of provider t)).1
        && after now (cooled_until_of (cooldown_key account provider) t.cooldowns)
        && (str_eq model ""
            || not (before now (locked_until_of (lockout_key provider model) t.lockouts))))
unfolding can_route can_use is_locked lockout_is_locked
can_route_exact now provider model account t = ground (
  arith,
  get_provider_cb-cb_of provider t,
  cooled_until-get_cooldown account provider t.cooldowns,
  locked_until-get_lockout provider model t.lockouts,
)

-- The calls of the composed layers.
pub data Event : Type 0 where
  routes succeeds fails : (provider model account : String) → Event
  cools : (account provider : String) → ℕ → String → Event
  locks : (provider model : String) → ℕ → String → String → Event
  unlocks : (provider model : String) → Event

unfoldable pub step : ℕ → Event → Layers → Layers
step now (routes p d a) t = (can_route now p d a t).0
step now (succeeds p d a) t = record_success now p d a t
step now (fails p d a) t = record_failure now p d a t
step now (cools a p d r) t = set_cooldown now a p d r t
step now (locks p d n r b) t = lock_model now p d n r b t
step now (unlocks p d) t = unlock_model p d t

unfoldable pub run : List (ℕ × Event) → Layers → Layers
run [] t = t
run ((now, e) ∷ es) t = run es (step now e t)
