-- ===== src/Fallback.antt =====
-- internal/resilience/fallback.go: the orchestrator that falls back from one tier of providers to
-- the next. A tier is an object that `FallbackTo` points to: it has an address, by which the
-- pointer names it, and all tiers stay in the list of the orchestrator. The score of a provider is
-- in floating point; a parameter says whether it beats the best one so far.
pub mod Added
pub mod Tests
use nexus_ai_gateway.Common.{
  ℕ, zero, suc, ◌+◌, ◌-◌, Bool, true, false, ◌&&◌, Option, none, some, List, [], ◌∷◌, ◌++◌, String,
  ltb, ◌==◌, if◌then◌else◌, select, ◌⊎◌, inl, inr,
}

pub data ProviderTier : Type 0 where
  tier_subscription tier_api_key tier_cheap tier_free : ProviderTier

abbrev pub rank : ProviderTier → ℕ
rank tier_subscription = 0
rank tier_api_key = 1
rank tier_cheap = 2
rank tier_free = 3

abbrev pub tier_string : ProviderTier → String
tier_string tier_subscription = "subscription"
tier_string tier_api_key = "api_key"
tier_string tier_cheap = "cheap"
tier_string tier_free = "free"

abbrev pub same_tier : ProviderTier → ProviderTier → Bool
same_tier a b = rank a == rank b

-- `H` is the type of the health, a number in floating point.
pub record Provider {ℓ} (H : Type ℓ) : Type ℓ where
  pub id : String
  pub name : String
  pub tier : ProviderTier
  pub health : H
  pub quota_remaining : ℕ
  pub quota_limit : ℕ
  pub is_healthy : Bool
  pub priority : ℕ

pub record FallbackTier {ℓ} (H : Type ℓ) : Type ℓ where
  pub address : ℕ
  pub tier : ProviderTier
  pub providers : List (Provider H)
  pub fallback_to : Option ℕ

-- `next_address` is that of the tier that is made next.
pub record FallbackOrchestrator {ℓ} (H : Type ℓ) : Type ℓ where
  pub tiers : List (FallbackTier H)
  pub max_depth : ℕ
  pub next_address : ℕ

pub record FallbackRequest : Type 0 where
  pub preferred_tier : ProviderTier
  pub minimum_tier : ProviderTier
  pub prefer_subscription : Bool
  pub allow_free : Bool
  pub max_attempts : ℕ
  pub request_id : String

pub record FallbackResponse {ℓ} (R E : Type ℓ) : Type ℓ where
  pub result : Option R
  pub error : Option E
  pub attempts : ℕ
  pub fallbacked : Bool
  pub selected_provider : String
  pub selected_tier : String
  pub latency_ms : ℕ

module _ {ℓ} {H : Type ℓ} where
  unfoldable pub new_orchestrator : FallbackOrchestrator H
  new_orchestrator = record { tiers = []; max_depth = 4; next_address = 0 }

  -- The loop of `BuildTierHierarchy`, from the tier at hand to the last: `made` holds the tiers so
  -- far, and `current` the address of the one made last.
  abbrev point_to : Option ℕ → ℕ → List (FallbackTier H) → List (FallbackTier H)
  point_to none next made = made
  point_to (some a) next [] = []
  point_to (some a) next (t ∷ ts) =
      let rest = point_to (some a) next ts in
      if t.address == a then record t { fallback_to = some next } ∷ rest else t ∷ rest

  unfoldable pub build_tiers :
      List ProviderTier
      → List (Provider H)
      → Option ℕ
      → FallbackOrchestrator H
      → FallbackOrchestrator H
  build_tiers [] ps current f = f
  build_tiers (tier ∷ rest) ps current f = elim (select (λ p. same_tier p.tier tier) ps) [
    | [] ↦ build_tiers rest ps current f
    | p ∷ more ↦ build_tiers rest ps (some f.next_address) (record f {
      tiers =
          point_to current f.next_address f.tiers
          ++ record {
            address = f.next_address;
            tier = tier;
            providers = p ∷ more;
            fallback_to = none;
          }
            ∷ [];
      next_address = f.next_address + 1;
    })
  ]

  unfoldable pub build_tier_hierarchy :
      List (Provider H) → FallbackOrchestrator H → FallbackOrchestrator H
  unfolding build_tiers
  build_tier_hierarchy ps f =
      build_tiers (tier_subscription ∷ tier_api_key ∷ tier_cheap ∷ tier_free ∷ []) ps none f

  unfoldable pub find_minimum : ProviderTier → List (FallbackTier H) → Option (FallbackTier H)
  find_minimum m [] = none
  find_minimum m (t ∷ ts) =
      let rest = find_minimum m ts in if same_tier t.tier m then some t else rest

  abbrev pub or_first : FallbackTier H → Option (FallbackTier H) → FallbackTier H
  or_first t (some u) = u
  or_first t none = t

  unfoldable pub find_start_tier : FallbackRequest → List (FallbackTier H) → Option (FallbackTier H)
  find_start_tier r [] = none
  find_start_tier r (t ∷ ts) =
      if r.prefer_subscription && same_tier t.tier tier_subscription
      then some t
      else some (or_first t (find_minimum r.minimum_tier (t ∷ ts)))

  -- `beats p best`: the score of `p` is above that of the best so far, or above -1.
  unfoldable pub select_best :
      (Provider H → Option (Provider H) → Bool)
      → Option (Provider H)
      → List (Provider H)
      → Option (Provider H)
  select_best beats best [] = best
  select_best beats best (p ∷ ps) =
      if p.is_healthy && beats p best
      then select_best beats (some p) ps
      else select_best beats best ps

  -- Following a pointer.
  unfoldable pub at_address : Option ℕ → List (FallbackTier H) → Option (FallbackTier H)
  at_address none ts = none
  at_address (some a) [] = none
  at_address (some a) (t ∷ ts) =
      let rest = at_address (some a) ts in if t.address == a then some t else rest

  -- The providers of one tier get one more; the tier is the first of that kind.
  unfoldable pub append_to : Provider H → List (FallbackTier H) → List (FallbackTier H)
  append_to p [] = []
  append_to p (t ∷ ts) =
      let rest = append_to p ts in
      if same_tier t.tier p.tier
      then record t { providers = t.providers ++ p ∷ [] } ∷ ts
      else t ∷ rest

  -- The insertion in the order of the tiers.
  unfoldable pub insert_tier : FallbackTier H → List (FallbackTier H) → List (FallbackTier H)
  insert_tier new [] = new ∷ []
  insert_tier new (t ∷ ts) =
      let rest = insert_tier new ts in
      if ltb (rank new.tier) (rank t.tier) then new ∷ t ∷ ts else t ∷ rest

  unfoldable pub add_provider : Provider H → FallbackOrchestrator H → FallbackOrchestrator H
  add_provider p f = elim (find_minimum p.tier f.tiers) [
    | some t ↦ record f { tiers = append_to p f.tiers }
    | none ↦ record f {
      tiers =
          insert_tier
            (record {
              address = f.next_address;
              tier = p.tier;
              providers = p ∷ [];
              fallback_to = none;
            })
            f.tiers;
      next_address = f.next_address + 1;
    }
  ]

module _ {ℓ κ} {H R E : Type ℓ} {S : Type κ} (beats : Provider H → Option (Provider H) → Bool)
    (executor : Provider H → S → S × (E ⊎ FallbackResponse R E)) where
  -- In a result `true` stands for the nil error, `false` for `ErrAllProvidersExhausted`.
  abbrev pub exhausted : ℕ → Option E → FallbackResponse R E
  exhausted depth last = record {
    result = none;
    error = last;
    attempts = depth;
    fallbacked = ltb 1 depth;
    selected_provider = "";
    selected_tier = "";
    latency_ms = 0;
  }

  -- The loop, with the number of rounds that it has left.
  unfoldable pub fall :
      List (FallbackTier H)
      → ℕ
      → ℕ
      → Option (FallbackTier H)
      → Option E
      → S
      → S × FallbackResponse R E × Bool
  fall tiers zero depth current last s = (s, exhausted depth last, false)
  fall tiers (suc n) depth none last s = (s, exhausted depth last, false)
  fall tiers (suc n) depth (some t) last s =
      let next = at_address t.fallback_to tiers in
      elim (select_best beats none t.providers) [
        | none ↦ fall tiers n (depth + 1) next last s
        | some p ↦
            (let (s', out) = executor p s in
              elim out [
                | inr resp ↦ (
                  s',
                  record resp {
                    attempts = depth + 1;
                    selected_provider = p.name;
                    selected_tier = tier_string t.tier;
                  },
                  true,
                )
                | inl e ↦ fall tiers n (depth + 1) next (some e) s'
              ])
      ]

  unfoldable pub execute_with_fallback :
      FallbackRequest → FallbackOrchestrator H → S → S × FallbackResponse R E × Bool
  unfolding fall
  execute_with_fallback r f s = fall f.tiers f.max_depth 0 (find_start_tier r f.tiers) none s
