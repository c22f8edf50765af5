-- ===== src/Channel/Select.antt =====
-- What `SelectChannel` and `SelectWithFailover` return, in terms of the channels listed.
use nexus_ai_gateway.Common.{
  ℕ, ◌≡◌, ◌↔◌, subst, ◌⊎◌, inl, inr, refl, true, List, [], ◌∷◌, String, zero, suc, All, Bool-cases,
}
use nexus_ai_gateway.Channel.{Channel, ChannelError, inactive}
use nexus_ai_gateway.Channel.Router.{
  Breaker, Selected, choose, after_select, weighted_random_select, selected, refused, listed,
  try_channel, filter_eligible, Inputs, select_channel, select_with_failover,
}
use nexus_ai_gateway.Channel.Eligible.{
  blocked, IsEligible, try_channel_keeps, filter_eligible-All, weighted_random_select-All,
}

abbrev pub Among : Channel → List Channel → Type 0
Among c [] = ⊥
Among c (ch ∷ chs) = (c ≡ ch) ⊎ Among c chs

All-Among :
    (all chs : List Channel)
    → ((c : Channel) → Among c chs → Among c all)
    → All (λ c. Among c all) chs
All-Among all [] h = tt
All-Among all (ch ∷ chs) h = (h ch (inl refl), All-Among all chs (λ c m. h c (inr m)))

-- What holds of all channels holds of the eligible ones.
filter_eligible-keeps {ℓ} :
    (P : Channel → Type ℓ) (now : ℕ) (model : String) (chs : List Channel) (b : Breaker)
    → All P chs
    → All P (filter_eligible now model chs b).1
unfolding filter_eligible
filter_eligible-keeps P now model [] b h = tt
filter_eligible-keeps P now model (ch ∷ chs) b h =
    let rest = filter_eligible-keeps P now model chs (try_channel now model ch b).0 h.1 in
    elim (Bool-cases (try_channel now model ch b).1) [
      | inl keep ↦ rw keep (h.0, rest)
      | inr drop ↦ rw drop rest
    ]

choose-keeps {ℓ} :
    (P : Channel → Type ℓ) (draw : ℕ → ℕ) (kept : List Channel) (c : Channel)
    → All P kept
    → choose draw kept ≡ selected c
    → P c
choose-keeps P draw [] c all h = cc
choose-keeps P draw (k ∷ ks) c all h =
    let e : weighted_random_select draw k ks ≡ c = cc in
    subst P e (weighted_random_select-All P draw k ks all)

-- A channel that `SelectChannel` returns is one of those listed; it supports the model, its
-- circuit was not open or had been open for longer than the open duration, and its circuit is not
-- open afterwards.
pub select_channel-IsEligible :
    (now : ℕ) (draw : ℕ → ℕ) (model : String) (chs : List Channel) (b : Breaker) (c : Channel)
    → (select_channel now draw model (listed chs) b).1 ≡ selected c
    → Among c chs × IsEligible now model b (select_channel now draw model (listed chs) b).0 c
unfolding select_channel
select_channel-IsEligible now draw model [] b c h = cc
select_channel-IsEligible now draw model (ch ∷ chs) b c h =
    let all = ch ∷ chs in
    let (b', kept) = filter_eligible now model all b in
    (
      choose-keeps (λ k. Among k all) draw kept c
          (filter_eligible-keeps (λ k. Among k all) now model all b (All-Among all all (λ k m. m)))
          h,
      choose-keeps (IsEligible now model b b') draw kept c (filter_eligible-All now model all b) h,
    )

abbrev pub AllBlocked : ℕ → String → Breaker → List Channel → Type 0
AllBlocked now model b = All (λ c. blocked now model b c ≡ true)

filter_eligible_blocked :
    (now : ℕ) (model : String) (chs : List Channel) (b : Breaker)
    → AllBlocked now model b chs
    → filter_eligible now model chs b ≡ (b, [])
unfolding filter_eligible
filter_eligible_blocked now model [] b h = refl
filter_eligible_blocked now model (ch ∷ chs) b h =
    let (answer, same, opened) = try_channel_keeps now model ch b in
    rw (answer, h.0, same h.0) (rw (filter_eligible_blocked now model chs b h.1))

cons-ne-nil : (ch : Channel) (chs : List Channel) → ¬ (ch ∷ chs ≡ [])
cons-ne-nil ch chs e = cc

blocked_of_filter_eligible :
    (now : ℕ) (model : String) (chs : List Channel) (b : Breaker)
    → (filter_eligible now model chs b).1 ≡ []
    → AllBlocked now model b chs
unfolding filter_eligible
blocked_of_filter_eligible now model [] b h = tt
blocked_of_filter_eligible now model (ch ∷ chs) b h =
    let (answer, same, opened) = try_channel_keeps now model ch b in
    elim (Bool-cases (blocked now model b ch)) [
      | inl out ↦
          let e : (filter_eligible now model chs b).1 ≡ [] = rw (answer, out, same out) at h in
          (out, blocked_of_filter_eligible now model chs b e)
      | inr kept ↦ absurd (cons-ne-nil ch _ (rw (answer, kept) at h))
    ]

choose-inactive :
    (draw : ℕ → ℕ) (kept : List Channel) → choose draw kept ≡ refused inactive → kept ≡ []
choose-inactive draw [] h = refl
choose-inactive draw (k ∷ ks) h = cc

-- Of a list that is not empty `SelectChannel` answers that no channel is active exactly when each
-- channel fails to support the model or has an open circuit whose open time is not over.
pub select_channel-inactive :
    (now : ℕ) (draw : ℕ → ℕ) (model : String) (ch : Channel) (chs : List Channel) (b : Breaker)
    → ((select_channel now draw model (listed (ch ∷ chs)) b).1 ≡ refused inactive)
      ↔ AllBlocked now model b (ch ∷ chs)
unfolding select_channel
select_channel-inactive now draw model ch chs b = (
  λ h.
      blocked_of_filter_eligible now model (ch ∷ chs) b
        (choose-inactive draw (filter_eligible now model (ch ∷ chs) b).1 h),
  λ h. rw (filter_eligible_blocked now model (ch ∷ chs) b h),
)

after_select_fails :
    (r : Breaker × Selected) (next : Breaker → Breaker × Selected)
    → ((b : Breaker) → (e : ChannelError) × ((next b).1 ≡ refused e))
    → (e : ChannelError) × ((after_select r next).1 ≡ refused e)
after_select_fails (b, refused e) next h = (e, refl)
after_select_fails (b, selected ch) next h = h b

-- Whatever the repository, the clock and the draws give in its rounds, and however many attempts
-- are allowed, `SelectWithFailover` returns no channel: it returns an error.
pub select_with_failover_fails :
    (model : String) (attempts : ℕ) (inputs : ℕ → Inputs) (b : Breaker)
    → (e : ChannelError) × ((select_with_failover model attempts inputs b).1 ≡ refused e)
unfolding select_with_failover
select_with_failover_fails model zero inputs b = (inactive, refl)
select_with_failover_fails model (suc left) inputs b =
    let i = inputs left in
    after_select_fails (select_channel i.now i.draw model i.listing b)
      (select_with_failover model left inputs) (select_with_failover_fails model left inputs)
