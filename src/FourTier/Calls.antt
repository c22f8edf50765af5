-- ===== src/FourTier/Calls.antt =====
-- Which calls of the executor the fallback over four tiers makes.
use nexus_ai_gateway.Common.{
  ℕ, zero, suc, ◌+◌, ◌≤◌, ◌<◌, ◌≡◌, true, false, ◌&&◌, not, Option, none, some, List, [], ◌∷◌,
  String, leb, ◌==◌, take, drop, arith, refl, ◌∙◌, Bool-cases, inl, inr, ◌⊎◌, All,
}
use nexus_ai_gateway.Fallback.{Provider, tier_free, same_tier}
use nexus_ai_gateway.FourTier.Circuits.{CircuitBreaker, is_open}
use nexus_ai_gateway.FourTier.{
  AutoFallbackTier, FourTierAutoFallback, FallbackRequestOptions, Progress, Try, ends, goes,
  and_then, Executor, select_model_for_provider, determine_start_tier, get_available_providers,
  wanted, settle, too_slow, try_provider, try_all, try_tier, try_tiers, finish,
  execute_with_fallback,
}

All-drop {ℓ κ} : {A : Type ℓ} (P : A → Type κ) (n : ℕ) (xs : List A) → All P xs → All P (drop n xs)
All-drop P zero xs a = a
All-drop P (suc n) [] a = a
All-drop P (suc n) (x ∷ xs) (p, a) = All-drop P n xs a

All-take {ℓ κ} : {A : Type ℓ} (P : A → Type κ) (n : ℕ) (xs : List A) → All P xs → All P (take n xs)
All-take P zero xs a = tt
All-take P (suc n) [] a = a
All-take P (suc n) (x ∷ xs) (p, a) = (p, All-take P n xs a)

module _ {ℓ κ} {H : Type ℓ} {S : Type κ} (x : Executor H S) (req : FallbackRequestOptions)
    (J : ℕ → S → Type 0) (C : Provider H → Type 0) where
  -- A call for a provider in `C` keeps `J`, which speaks of the attempts so far.
  abbrev CallsKeep : Type (ℓ ⊔ κ)
  CallsKeep =
      (p : Provider H) (model : String) (n : ℕ) (s : S)
      → C p
      → n < req.max_attempts
      → J n s
      → J (n + 1) (x.execute p model s).0

  Keeps : Try H S → Type 0
  Keeps (ends f s r) = J r.attempts s
  Keeps (goes g f s) = J g.attempts s

  -- The tier has no provider outside `C`, or is the free one, which the request does not allow.
  abbrev pub CanTry : AutoFallbackTier H → Type 0
  CanTry t = All C t.providers ⊎ (((t.tier == 4) ≡ true) × (req.allow_free ≡ false))

  settle-Keeps :
      (t : AutoFallbackTier H) (p : Provider H) (start : ℕ) (g : Progress)
      (f : FourTierAutoFallback H) (s : S) (answer : Option String)
      → J (g.attempts + 1) s
      → Keeps (settle x req t p start g f s answer)
  unfolding settle Keeps
  settle-Keeps t p start g f s none j = j
  settle-Keeps t p start g f s (some e) j = j

  try_provider-Keeps :
      (t : AutoFallbackTier H) (p : Provider H) (g : Progress) (f : FourTierAutoFallback H) (s : S)
      → CallsKeep
      → C p
      → J g.attempts s
      → Keeps (try_provider x req t p g f s)
  unfolding try_provider Keeps
  try_provider-Keeps t p g f s h c j =
      let (cb, shut) = is_open (x.clock s) p.name f.circuit_breaker in
      let f' = record f { circuit_breaker = cb } in
      let (s', answer) = x.execute p (select_model_for_provider p.name) s in
      elim (Bool-cases (leb req.max_attempts g.attempts)) [
        | inl done ↦ simp done j
        | inr more ↦ elim (Bool-cases (too_slow x req t)) [
          | inl slow ↦ simp (more, slow) j
          | inr quick ↦ elim (Bool-cases shut) [
            | inl closed ↦ simp (more, quick, closed) j
            | inr open_ ↦
                simp (more, quick, open_)
                  (settle-Keeps t p (x.clock s) g f' s' answer
                    (h p (select_model_for_provider p.name) g.attempts s c (ground arith) j))
          ]
        ]
      ]

  and_then-Keeps :
      (v : Try H S) (next : Progress → FourTierAutoFallback H → S → Try H S)
      → Keeps v
      → ((g : Progress) (f : FourTierAutoFallback H) (s : S) → J g.attempts s → Keeps (next g f s))
      → Keeps (and_then v next)
  unfolding Keeps
  and_then-Keeps (ends f s r) next k h = k
  and_then-Keeps (goes g f s) next k h = h g f s k

  try_all-Keeps :
      (t : AutoFallbackTier H) (ps : List (Provider H)) (g : Progress) (f : FourTierAutoFallback H)
      (s : S)
      → CallsKeep
      → All C ps
      → J g.attempts s
      → Keeps (try_all x req t ps g f s)
  unfolding try_all Keeps
  try_all-Keeps t [] g f s h c j = j
  try_all-Keeps t (p ∷ ps) g f s h (c, cs) j =
      and_then-Keeps (try_provider x req t p g f s) (try_all x req t ps)
        (try_provider-Keeps t p g f s h c j) (λ g' f' s' j'. try_all-Keeps t ps g' f' s' h cs j')

  available-All :
      (now tier : ℕ) (ps : List (Provider H)) (cb : CircuitBreaker)
      → All C ps
      → All C (get_available_providers now tier req ps cb).1
  unfolding get_available_providers
  available-All now tier [] cb c = c
  available-All now tier (p ∷ ps) cb (c, cs) =
      let (cb', shut) = is_open now p.name cb in
      let rest = available-All now tier ps cb' cs in
      elim (Bool-cases (not shut && wanted tier req p)) [
        | inl kept ↦ simp kept (c, rest)
        | inr left ↦ simp left rest
      ]

  -- No provider of the free tier is available to a request that does not allow it.
  available-free :
      (now tier : ℕ) (ps : List (Provider H)) (cb : CircuitBreaker)
      → (tier == 4) ≡ true
      → req.allow_free ≡ false
      → (get_available_providers now tier req ps cb).1 ≡ []
  unfolding get_available_providers
  available-free now tier [] cb four paid = refl
  available-free now tier (p ∷ ps) cb four paid =
      let (cb', shut) = is_open now p.name cb in
      let rest = available-free now tier ps cb' four paid in
      elim (Bool-cases shut) [
        | inl closed ↦ simp (closed, four, paid) rest
        | inr open_ ↦ simp (open_, four, paid) rest
      ]

  available-CanTry :
      (now : ℕ) (t : AutoFallbackTier H) (cb : CircuitBreaker)
      → CanTry t
      → All C (get_available_providers now t.tier req t.providers cb).1
  available-CanTry now t cb (inl c) = available-All now t.tier t.providers cb c
  available-CanTry now t cb (inr (four, paid)) =
      rw (available-free now t.tier t.providers cb four paid) tt

  try_tier-Keeps :
      (t : AutoFallbackTier H) (g : Progress) (f : FourTierAutoFallback H) (s : S)
      → CallsKeep
      → CanTry t
      → J g.attempts s
      → Keeps (try_tier x req t g f s)
  unfolding try_tier Keeps
  try_tier-Keeps t g f s h c j =
      let (cb, available) =
        get_available_providers (x.clock s) t.tier req t.providers f.circuit_breaker in
      elim (Bool-cases (leb req.max_attempts g.attempts)) [
        | inl done ↦ simp done j
        | inr more ↦ elim (Bool-cases t.is_healthy) [
          | inl healthy ↦
              simp (more, healthy)
                (try_all-Keeps t available g (record f { circuit_breaker = cb }) s h
                  (available-CanTry (x.clock s) t f.circuit_breaker c) j)
          | inr ill ↦ simp (more, ill) j
        ]
      ]

  try_tiers-Keeps :
      (ts : List (AutoFallbackTier H)) (g : Progress) (f : FourTierAutoFallback H) (s : S)
      → CallsKeep
      → All CanTry ts
      → J g.attempts s
      → Keeps (try_tiers x req ts g f s)
  unfolding try_tiers Keeps
  try_tiers-Keeps [] g f s h c j = j
  try_tiers-Keeps (t ∷ ts) g f s h (c, cs) j =
      and_then-Keeps (try_tier x req t g f s) (try_tiers x req ts) (try_tier-Keeps t g f s h c j)
        (λ g' f' s' j'. try_tiers-Keeps ts g' f' s' h cs j')

  finish-Keeps : (v : Try H S) → Keeps v → J (finish x req v).2.attempts (finish x req v).0
  unfolding Keeps
  finish-Keeps (ends f s r) k = k
  finish-Keeps (goes g f s) k = k

  pub execute-Keeps :
      (f : FourTierAutoFallback H) (s : S)
      → CallsKeep
      → All CanTry f.tiers
      → J 0 s
      → J (execute_with_fallback x req f s).2.attempts (execute_with_fallback x req f s).0
  unfolding execute_with_fallback
  execute-Keeps f s h c j = finish-Keeps _ (
      try_tiers-Keeps _ _ f s h
        (All-drop CanTry (determine_start_tier req) (take f.max_depth f.tiers)
          (All-take CanTry f.max_depth f.tiers c))
        j)

module _ {ℓ κ} {H : Type ℓ} {S : Type κ} (x : Executor H S) (req : FallbackRequestOptions) where
  every_provider : (ps : List (Provider H)) → All (λ p. Unit {0}) ps
  every_provider [] = tt
  every_provider (p ∷ ps) = (tt, every_provider ps)

  every_tier : (ts : List (AutoFallbackTier H)) → All (CanTry x req (λ n s. Unit) (λ p. Unit)) ts
  every_tier [] = tt
  every_tier (t ∷ ts) = (inl (every_provider t.providers), every_tier ts)

  -- The executor is called as often as the result says, by a measure of the state that each call
  -- raises by one, and never more often than the request allows.
  pub attempts_bound :
      (measure : S → ℕ) (f : FourTierAutoFallback H) (s : S)
      → ((p : Provider H) (model : String) (t : S)
          → measure (x.execute p model t).0 ≡ measure t + 1)
      → let (s', f', r) = execute_with_fallback x req f s in
        (measure s' ≡ measure s + r.attempts) × (r.attempts ≤ req.max_attempts)
  attempts_bound measure f s h =
      execute-Keeps x req (λ n t. (measure t ≡ measure s + n) × (n ≤ req.max_attempts)) (λ p. Unit)
        f s (λ p model n t c l j. (omega (arith, h p model t, j.0), omega (arith, l)))
        (every_tier f.tiers) (omega arith, omega arith)

  paid_tiers :
      (ts : List (AutoFallbackTier H))
      → req.allow_free ≡ false
      → All
          (λ t. ((t.tier == 4) ≡ true) ⊎ All (λ p. same_tier p.tier tier_free ≡ false) t.providers)
          ts
      → All (CanTry x req (λ n s. Unit) (λ p. same_tier p.tier tier_free ≡ false)) ts
  paid_tiers [] paid a = tt
  paid_tiers (t ∷ ts) paid (inl four, a) = (inr (four, paid), paid_tiers ts paid a)
  paid_tiers (t ∷ ts) paid (inr others, a) = (inl others, paid_tiers ts paid a)

  -- A request that does not allow the free tier calls the executor for no provider of that tier,
  -- by a measure of the state that only such calls change, if those providers stand in tier 4.
  pub free_tier_unused :
      (measure : S → ℕ) (f : FourTierAutoFallback H) (s : S)
      → req.allow_free ≡ false
      → All
          (λ t. ((t.tier == 4) ≡ true) ⊎ All (λ p. same_tier p.tier tier_free ≡ false) t.providers)
          f.tiers
      → ((p : Provider H) (model : String) (t : S)
          → same_tier p.tier tier_free ≡ false
          → measure (x.execute p model t).0 ≡ measure t)
      → measure (execute_with_fallback x req f s).0 ≡ measure s
  free_tier_unused measure f s paid tiers h =
      execute-Keeps x req (λ n t. measure t ≡ measure s) (λ p. same_tier p.tier tier_free ≡ false) f
        s (λ p model n t c l j. h p model t c ∙ j) (paid_tiers f.tiers paid tiers) refl
