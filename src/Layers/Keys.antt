-- ===== src/Layers/Keys.antt =====
-- Which connections share a cooldown, and which models a lockout: the keys join two texts by a colon.
use nexus_ai_gateway.Common.{ℕ, ◌+◌, ◌<◌, ◌≤◌, ◌≡◌, ap, ◌∙◌, true, false, String, arith}
use nexus_ai_gateway.Common.Text.{str_append, str_append_assoc}
use nexus_ai_gateway.Common.Dict.{put, find-put_self}
use nexus_ai_gateway.ProviderCb
use nexus_ai_gateway.ProviderCb.{ProviderCb, cb_state_open, cb_state_half_open}
use nexus_ai_gateway.Layers.{
  Layers, cooldown_key, check_cooldown, check_lockout, can_route, set_cooldown, get_provider_cb,
}
use nexus_ai_gateway.Layers.Routing.{cb_of, get_provider_cb-cb_of, cooled_until_of, can_route_exact}
use nexus_ai_gateway.Layers.Holding.{cooled_until-set}

-- Texts with a colon in them can be joined to the same key in two ways.
keys_collide :
    (a b p : String)
    → cooldown_key (str_append (str_append a ":") b) p
      ≡ cooldown_key a (str_append (str_append b ":") p)
unfolding cooldown_key
keys_collide a b p =
    let front = str_append a ":" in
    ap (λ k. str_append k p) (str_append_assoc front b ":")
    ∙ str_append_assoc front (str_append b ":") p

-- A cooldown of the account `a:b` at the provider `p` keeps requests over the account `a` at the
-- provider `b:p` from being routed too, until its duration has passed.
pub cooldown_collides :
    (now duration later : ℕ) (a b p model r : String) (t : Layers)
    → later ≤ now + duration
    → (can_route later
        (str_append (str_append b ":") p)
        model
        a
        (set_cooldown now (str_append (str_append a ":") b) p duration r t)).1
      ≡ false
cooldown_collides now duration later a b p model r t l =
    let t' = set_cooldown now (str_append (str_append a ":") b) p duration r t in
    ground (
      arith,
      can_route_exact later (str_append (str_append b ":") p) model a t',
      keys_collide a b p,
      cooled_until-set now (str_append (str_append a ":") b) p duration r t,
    )

allow_probes :
    (now : ℕ) (cb : ProviderCb)
    → cb.state ≡ cb_state_open
    → cb.cooldown_ends < now
    → ((ProviderCb.allow now cb).1 ≡ true)
      × ((ProviderCb.allow now cb).0.state ≡ cb_state_half_open)
unfolding ProviderCb.allow
allow_probes now cb o h = ground arith

breakers-check_cooldown :
    (now : ℕ) (p d a : String) (t : Layers) → (check_cooldown now p d a t).0.breakers ≡ t.breakers
unfolding check_cooldown check_lockout
breakers-check_cooldown now p d a t = ground arith

-- A request that its connection's cooldown refuses is counted as the trial of an open breaker whose
-- cooldown is over: the breaker becomes half-open though no request is sent.
pub refused_request_probes :
    (now : ℕ) (p model account : String) (t : Layers)
    → (cb_of p t).state ≡ cb_state_open
    → (cb_of p t).cooldown_ends < now
    → now ≤ cooled_until_of (cooldown_key account p) t.cooldowns
    → let (t', answer) = can_route now p model account t in
      (answer ≡ false) × ((cb_of p t').state ≡ cb_state_half_open)
unfolding can_route
refused_request_probes now p model account t o h l =
    let (probed, half) = allow_probes now (cb_of p t) o h in
    let (bs, cb) = get_provider_cb p t.breakers in
    let t' = record t { breakers = put p (ProviderCb.allow now cb).0 bs } in
    (
      unfold can_route in ground (arith, can_route_exact now p model account t),
      ground (
        arith,
        probed,
        half,
        get_provider_cb-cb_of p t,
        breakers-check_cooldown now p model account t',
        find-put_self p (ProviderCb.allow now cb).0 bs,
      ),
    )
