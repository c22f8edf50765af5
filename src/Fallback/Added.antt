-- ===== src/Fallback/Added.antt =====
-- Orchestrators that are filled by `AddProvider`: the order of their tiers, and how far they fall
-- back.
use nexus_ai_gateway.Common.{
  ℕ, zero, suc, ◌+◌, ◌≤◌, ◌<◌, ◌≡◌, ◌≢◌, Bool, ◌&&◌, Option, none, some, List, [], ◌∷◌, arith, ltb,
  All, Option-cases, Bool-cases, inl, inr, ◌⊎◌, refl,
}
use nexus_ai_gateway.Fallback.{
  ProviderTier, rank, same_tier, Provider, FallbackTier, FallbackOrchestrator, FallbackRequest,
  FallbackResponse, new_orchestrator, find_minimum, find_start_tier, or_first, at_address,
  append_to, insert_tier, add_provider, select_best, fall, execute_with_fallback, tier_subscription,
}

module _ {ℓ} {H : Type ℓ} where
  abbrev pub add_all : List (Provider H) → FallbackOrchestrator H → FallbackOrchestrator H
  add_all [] f = f
  add_all (p ∷ ps) f = add_all ps (add_provider p f)

  abbrev pub Above : ℕ → List (FallbackTier H) → Type 0
  Above r [] = Unit
  Above r (t ∷ ts) = (r < rank t.tier) × Above r ts

  -- Each tier is below those after it, so that none is there twice.
  abbrev pub Ascending : List (FallbackTier H) → Type 0
  Ascending [] = Unit
  Ascending (t ∷ ts) = Above (rank t.tier) ts × Ascending ts

  abbrev pub Lone : FallbackTier H → Type 0
  Lone t = t.fallback_to ≡ none

  append_to-Above :
      (r : ℕ) (p : Provider H) (ts : List (FallbackTier H)) → Above r ts → Above r (append_to p ts)
  unfolding append_to
  append_to-Above r p [] a = tt
  append_to-Above r p (t ∷ ts) (l, a) = elim (Bool-cases (same_tier t.tier p.tier)) [
    | inl same ↦ rw same (l, a)
    | inr other ↦ rw other (l, append_to-Above r p ts a)
  ]

  append_to-Ascending :
      (p : Provider H) (ts : List (FallbackTier H)) → Ascending ts → Ascending (append_to p ts)
  unfolding append_to
  append_to-Ascending p [] a = tt
  append_to-Ascending p (t ∷ ts) (l, a) = elim (Bool-cases (same_tier t.tier p.tier)) [
    | inl same ↦ rw same (l, a)
    | inr other ↦ rw other (append_to-Above (rank t.tier) p ts l, append_to-Ascending p ts a)
  ]

  append_to-Lone :
      (p : Provider H) (ts : List (FallbackTier H)) → All Lone ts → All Lone (append_to p ts)
  unfolding append_to
  append_to-Lone p [] a = tt
  append_to-Lone p (t ∷ ts) (l, a) = elim (Bool-cases (same_tier t.tier p.tier)) [
    | inl same ↦ rw same (l, a)
    | inr other ↦ rw other (l, append_to-Lone p ts a)
  ]

  insert_tier-Lone :
      (new : FallbackTier H) (ts : List (FallbackTier H))
      → Lone new
      → All Lone ts
      → All Lone (insert_tier new ts)
  unfolding insert_tier
  insert_tier-Lone new [] n a = (n, tt)
  insert_tier-Lone new (t ∷ ts) n (l, a) = elim (Bool-cases (ltb (rank new.tier) (rank t.tier))) [
    | inl under ↦ rw under (n, (l, a))
    | inr over ↦ rw over (l, insert_tier-Lone new ts n a)
  ]

  insert_tier-Above :
      (r : ℕ) (new : FallbackTier H) (ts : List (FallbackTier H))
      → r < rank new.tier
      → Above r ts
      → Above r (insert_tier new ts)
  unfolding insert_tier
  insert_tier-Above r new [] n a = (n, tt)
  insert_tier-Above r new (t ∷ ts) n (l, a) =
      elim (Bool-cases (ltb (rank new.tier) (rank t.tier))) [
        | inl under ↦ rw under (n, (l, a))
        | inr over ↦ rw over (l, insert_tier-Above r new ts n a)
      ]

  Above-weaker : (r q : ℕ) (ts : List (FallbackTier H)) → q < r → Above r ts → Above q ts
  Above-weaker r q [] l a = tt
  Above-weaker r q (t ∷ ts) l (u, a) = (omega arith, Above-weaker r q ts l a)

  absent :
      (m : ProviderTier) (t : FallbackTier H) (ts : List (FallbackTier H))
      → find_minimum m (t ∷ ts) ≡ none
      → (rank t.tier ≢ rank m) × (find_minimum m ts ≡ none)
  unfolding find_minimum
  absent m t ts h = (ground arith, ground arith)

  insert_tier-Ascending :
      (new : FallbackTier H) (ts : List (FallbackTier H))
      → find_minimum new.tier ts ≡ none
      → Ascending ts
      → Ascending (insert_tier new ts)
  unfolding insert_tier
  insert_tier-Ascending new [] m a = (tt, tt)
  insert_tier-Ascending new (t ∷ ts) m (l, a) =
      let (differs, rest) = absent new.tier t ts m in
      elim (Bool-cases (ltb (rank new.tier) (rank t.tier))) [
        | inl under ↦
            rw under (
              (ground arith, Above-weaker (rank t.tier) (rank new.tier) ts (ground arith) l),
              (l, a),
            )
        | inr over ↦ rw over (
          insert_tier-Above (rank t.tier) new ts (ground arith) l,
          insert_tier-Ascending new ts rest a,
        )
      ]

  pub record Built (f : FallbackOrchestrator H) : Type ℓ where
    pub ascending : Ascending f.tiers
    pub lone : All Lone f.tiers

  add_provider-Built :
      (p : Provider H) (f : FallbackOrchestrator H) → Built f → Built (add_provider p f)
  unfolding add_provider
  add_provider-Built p f b = elim (Option-cases (find_minimum p.tier f.tiers)) [
    | inl fresh ↦
        rw (fresh, add_provider)
          (record {
            ascending =
                insert_tier-Ascending
                  (record {
                    address = f.next_address;
                    tier = p.tier;
                    providers = p ∷ [];
                    fallback_to = none;
                  })
                  f.tiers fresh b.ascending;
            lone =
                insert_tier-Lone
                  (record {
                    address = f.next_address;
                    tier = p.tier;
                    providers = p ∷ [];
                    fallback_to = none;
                  })
                  f.tiers refl b.lone;
          })
    | inr (t, old) ↦
        rw (old, add_provider)
          (record {
            ascending = append_to-Ascending p f.tiers b.ascending;
            lone = append_to-Lone p f.tiers b.lone;
          })
  ]

  add_all-Built :
      (ps : List (Provider H)) (f : FallbackOrchestrator H) → Built f → Built (add_all ps f)
  add_all-Built [] f b = b
  add_all-Built (p ∷ ps) f b = add_all-Built ps (add_provider p f) (add_provider-Built p f b)

  new-Built : Built new_orchestrator
  unfolding new_orchestrator
  new-Built = record { ascending = tt; lone = tt }

  -- Providers added to a new orchestrator in any order give tiers in the order from subscription
  -- to free, each at most once.
  pub added-Ascending : (ps : List (Provider H)) → Ascending (add_all ps new_orchestrator).tiers
  added-Ascending ps = (add_all-Built ps new_orchestrator new-Built).ascending

  pub at_address-Lone :
      (t : FallbackTier H) (ts : List (FallbackTier H))
      → Lone t
      → at_address t.fallback_to ts ≡ none
  unfolding at_address
  at_address-Lone t ts l = rw (l, at_address) refl

  abbrev pub Loner : Option (FallbackTier H) → Type 0
  Loner none = Unit
  Loner (some t) = Lone t

  find_minimum-Loner :
      (m : ProviderTier) (ts : List (FallbackTier H)) → All Lone ts → Loner (find_minimum m ts)
  unfolding find_minimum
  find_minimum-Loner m [] a = tt
  find_minimum-Loner m (t ∷ ts) (l, a) = elim (Bool-cases (same_tier t.tier m)) [
    | inl same ↦ rw same l
    | inr other ↦ rw other (find_minimum-Loner m ts a)
  ]

  or_first-Lone :
      (t : FallbackTier H) (o : Option (FallbackTier H)) → Lone t → Loner o → Lone (or_first t o)
  or_first-Lone t none l o = l
  or_first-Lone t (some u) l o = o

  pub find_start_tier-Loner :
      (r : FallbackRequest) (ts : List (FallbackTier H))
      → All Lone ts
      → Loner (find_start_tier r ts)
  unfolding find_start_tier
  find_start_tier-Loner r [] a = tt
  find_start_tier-Loner r (t ∷ ts) (l, a) =
      elim (Bool-cases (r.prefer_subscription && same_tier t.tier tier_subscription)) [
        | inl first ↦ rw first l
        | inr any ↦ rw any (
            or_first-Lone t (find_minimum r.minimum_tier (t ∷ ts)) l
              (find_minimum-Loner r.minimum_tier (t ∷ ts) (l, a)))
      ]

sum-cases {ℓ} : {A B : Type ℓ} (o : A ⊎ B) → ((a : A) × (o ≡ inl a)) ⊎ ((b : B) × (o ≡ inr b))
sum-cases (inl a) = inl (a, refl)
sum-cases (inr b) = inr (b, refl)

module _ {ℓ κ} {H R E : Type ℓ} {S : Type κ} (beats : Provider H → Option (Provider H) → Bool)
    (executor : Provider H → S → S × (E ⊎ FallbackResponse R E)) (calls : S → ℕ)
    (adds : (p : Provider H) (s : S) → calls (executor p s).0 ≡ calls s + 1) where
  fall-none :
      (tiers : List (FallbackTier H)) (n depth : ℕ) (last : Option E) (s : S)
      → (fall beats executor tiers n depth none last s).0 ≡ s
  unfolding fall
  fall-none tiers zero depth last s = refl
  fall-none tiers (suc n) depth last s = refl

  fall-calls :
      (tiers : List (FallbackTier H)) (n depth : ℕ) (current : Option (FallbackTier H))
      (last : Option E) (s : S)
      → Loner current
      → calls (fall beats executor tiers n depth current last s).0 ≤ calls s + 1
  unfolding fall
  fall-calls tiers zero depth current last s l = omega arith
  fall-calls tiers (suc n) depth none last s l = omega arith
  fall-calls tiers (suc n) depth (some t) last s l =
      elim (Option-cases (select_best beats none t.providers)) [
        | inl nobody ↦
            rw (nobody, at_address-Lone t tiers l, fall-none tiers n (depth + 1) last s, fall)
              (omega arith)
        | inr (p, best) ↦ elim (sum-cases (executor p s).1) [
          | inl (e, failed) ↦
              rw
                (
                  best,
                  failed,
                  at_address-Lone t tiers l,
                  fall-none tiers n (depth + 1) (some e) (executor p s).0,
                  fall,
                )
                (omega (arith, adds p s))
          | inr (resp, done) ↦ rw (best, done, fall) (omega (arith, adds p s))
        ]
      ]

  -- An orchestrator to which providers were added never falls back: it calls the executor at most
  -- once, for any request, whatever the executor does, by a measure of the state that each call of
  -- the executor raises by one.
  pub added-calls :
      (ps : List (Provider H)) (r : FallbackRequest) (s : S)
      → calls (execute_with_fallback beats executor r (add_all ps new_orchestrator) s).0
        ≤ calls s + 1
  unfolding execute_with_fallback
  added-calls ps r s =
      let f = add_all ps new_orchestrator in
      fall-calls f.tiers f.max_depth 0 (find_start_tier r f.tiers) none s
        (find_start_tier-Loner r f.tiers (add_all-Built ps new_orchestrator new-Built).lone)
