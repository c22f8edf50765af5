-- ===== src/Channel/Eligible.antt =====
-- Which channels the router selects, and when it refuses.
use nexus_ai_gateway.Common.{
  ℕ, ◌+◌, ◌≡◌, inl, inr, refl, ◌∙◌, Bool, true, false, not, ◌&&◌, ◌||◌, List, [], ◌∷◌, String,
  arith, All, Bool-cases, ltb, ◌==◌,
}
use nexus_ai_gateway.Common.Clock.{elapsed_more}
use nexus_ai_gateway.Channel.{Channel, is_model_supported}
use nexus_ai_gateway.Channel.Router.{
  Breaker, is_open, circuit_open_duration, try_channel, filter_eligible, total_weight, weight,
  pick_from, weighted_random_select,
}

-- A channel is refused if it does not support the model, or if its circuit is open and its open
-- time is not over.
abbrev pub blocked : ℕ → String → Breaker → Channel → Bool
blocked now model b ch =
    not (is_model_supported model ch)
    || (is_open (b.states ch.id)
        && not (elapsed_more now (b.last_failure ch.id) circuit_open_duration))

-- What is known of a channel that was kept: before, it was not blocked; after, its circuit is
-- not open.
pub record IsEligible (now : ℕ) (model : String) (b b' : Breaker) (ch : Channel) : Type 0 where
  pub supported : is_model_supported model ch ≡ true
  pub admitted : blocked now model b ch ≡ false
  pub not_open : is_open (b'.states ch.id) ≡ false

-- A later breaker: no circuit has opened, one that has ceased to be open had waited long enough,
-- and the times of the failures are as before.
record Eases (now : ℕ) (b b' : Breaker) : Type 0 where
  eased : (id : ℕ) → is_open (b.states id) ≡ false → is_open (b'.states id) ≡ false
  waited :
      (id : ℕ)
      → is_open (b.states id) ≡ true
      → is_open (b'.states id) ≡ false
      → elapsed_more now (b.last_failure id) circuit_open_duration ≡ true
  times : (id : ℕ) → b'.last_failure id ≡ b.last_failure id

pub try_channel_keeps :
    (now : ℕ) (model : String) (ch : Channel) (b : Breaker)
    → ((try_channel now model ch b).1 ≡ not (blocked now model b ch))
      × (blocked now model b ch ≡ true → (try_channel now model ch b).0 ≡ b)
      × (blocked now model b ch ≡ false
          → is_open ((try_channel now model ch b).0.states ch.id) ≡ false)
unfolding try_channel
try_channel_keeps now model ch b = ground arith

try_channel-Eases :
    (now : ℕ) (model : String) (ch : Channel) (b : Breaker)
    → Eases now b (try_channel now model ch b).0
unfolding try_channel
try_channel-Eases now model ch b = record {
  eased = λ id h. ground arith;
  waited = λ id o n. ground arith;
  times = λ id. ground arith;
}

Eases-trans : (now : ℕ) (a b c : Breaker) → Eases now a b → Eases now b c → Eases now a c
Eases-trans now a b c p q = record {
  eased = λ id h. q.eased id (p.eased id h);
  waited = λ id o n. elim (Bool-cases (is_open (b.states id))) [
    | inl still ↦ rw (← p.times id) (q.waited id still n)
    | inr closed ↦ p.waited id o closed
  ];
  times = λ id. q.times id ∙ p.times id;
}

filter_eligible-Eases :
    (now : ℕ) (model : String) (chs : List Channel) (b : Breaker)
    → Eases now b (filter_eligible now model chs b).0
unfolding filter_eligible
filter_eligible-Eases now model [] b = record {
  eased = λ id h. h;
  waited = λ id o n. cc;
  times = λ id. refl;
}
filter_eligible-Eases now model (ch ∷ chs) b =
    let b' = (try_channel now model ch b).0 in
    Eases-trans now b b' (filter_eligible now model chs b').0 (try_channel-Eases now model ch b)
      (filter_eligible-Eases now model chs b')

-- What is not blocked later was not blocked before.
not_blocked_before :
    (now : ℕ) (model : String) (b b' : Breaker) (ch : Channel)
    → Eases now b b'
    → blocked now model b' ch ≡ false
    → blocked now model b ch ≡ false
not_blocked_before now model b b' ch e h =
    ground (arith, e.eased ch.id, e.waited ch.id, e.times ch.id)

IsEligible-later :
    (now : ℕ) (model : String) (a b c : Breaker) (ch : Channel)
    → Eases now a b
    → IsEligible now model b c ch
    → IsEligible now model a c ch
IsEligible-later now model a b c ch e h = record {
  supported = h.supported;
  admitted = not_blocked_before now model a b ch e h.admitted;
  not_open = h.not_open;
}

All-IsEligible-later :
    (now : ℕ) (model : String) (a b c : Breaker) (chs : List Channel)
    → Eases now a b
    → All (IsEligible now model b c) chs
    → All (IsEligible now model a c) chs
All-IsEligible-later now model a b c [] e h = tt
All-IsEligible-later now model a b c (ch ∷ chs) e h =
    (IsEligible-later now model a b c ch e h.0, All-IsEligible-later now model a b c chs e h.1)

pub filter_eligible-All :
    (now : ℕ) (model : String) (chs : List Channel) (b : Breaker)
    → let (b', kept) = filter_eligible now model chs b in All (IsEligible now model b b') kept
unfolding filter_eligible
filter_eligible-All now model [] b = tt
filter_eligible-All now model (ch ∷ chs) b =
    let b' = (try_channel now model ch b).0 in
    let (answer, same, opened) = try_channel_keeps now model ch b in
    let rest =
      All-IsEligible-later now model b b' (filter_eligible now model chs b').0 _
        (try_channel-Eases now model ch b) (filter_eligible-All now model chs b') in
    elim (Bool-cases (blocked now model b ch)) [
      | inl out ↦ rw (answer, out) rest
      | inr kept ↦
          rw (answer, kept)
            (
              record {
                supported = ground arith;
                admitted = kept;
                not_open = (filter_eligible-Eases now model chs b').eased ch.id (opened kept);
              },
              rest,
            )
    ]

-- The weighted selection hands out one of its channels.
pick_from-All {ℓ} :
    (P : Channel → Type ℓ) (r c : ℕ) (last : Channel) (chs : List Channel)
    → P last
    → All P chs
    → P (pick_from r c last chs)
unfolding pick_from
pick_from-All P r c last [] p h = p
pick_from-All P r c last (ch ∷ chs) p h = elim (Bool-cases (ltb r (c + weight ch))) [
  | inl hit ↦ rw hit h.0
  | inr miss ↦ rw miss (pick_from-All P r (c + weight ch) ch chs h.0 h.1)
]

pub weighted_random_select-All {ℓ} :
    (P : Channel → Type ℓ) (draw : ℕ → ℕ) (ch : Channel) (chs : List Channel)
    → All P (ch ∷ chs)
    → P (weighted_random_select draw ch chs)
unfolding weighted_random_select
weighted_random_select-All P draw ch [] h = h.0
weighted_random_select-All P draw ch (ch' ∷ chs) h =
    elim (Bool-cases (total_weight (ch ∷ ch' ∷ chs) == 0)) [
      | inl empty ↦ rw empty h.0
      | inr full ↦ rw full (pick_from-All P _ 0 ch (ch ∷ ch' ∷ chs) h.0 h)
    ]
