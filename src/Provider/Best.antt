-- ===== src/Provider/Best.antt =====
-- Which providers a selector chooses.
use nexus_ai_gateway.Common.{
  ℕ, zero, suc, ◌≡◌, Bool, true, false, ◌&&◌, Option, none, some, List, [], ◌∷◌, if◌then◌else◌, ltb,
  select, All, Bool-cases, inl, inr, arith, refl, ap, ◌∙◌, sym, subst,
}
use nexus_ai_gateway.Common.Int.{ℤ, pos, negsuc, lt_int}
use nexus_ai_gateway.Provider.{
  Provider, RotationStrategy, priority_based, round_robin, least_loaded, weighted_random,
  HealthChecker, ProviderSelector, Choice, chosen, chosen_nil, no_healthy_providers, panics,
  healthy_for, get_healthy_providers, or_nil, best_priority, select_by_priority, at,
  select_round_robin, max_int, faster, best_latency, select_by_latency, select_weighted_random,
  select_by, select_among, select_provider,
}

-- The provider that is chosen, if any, has the property.
abbrev pub Chosen : (Provider → Type 0) → Choice → Type 0
Chosen P (chosen p) = P p
Chosen P chosen_nil = Unit
Chosen P no_healthy_providers = Unit
Chosen P panics = Unit

abbrev Held : (Provider → Type 0) → Option Provider → Type 0
Held P none = Unit
Held P (some p) = P p

module _ (P : Provider → Type 0) where
  or_nil-Chosen : (o : Option Provider) → Held P o → Chosen P (or_nil o)
  or_nil-Chosen none h = h
  or_nil-Chosen (some p) h = h

  at-Held : (i : ℕ) (ps : List Provider) → All P ps → Held P (at i ps)
  at-Held i [] a = tt
  at-Held zero (p ∷ ps) (h, a) = h
  at-Held (suc i) (p ∷ ps) (h, a) = at-Held i ps a

  best_priority-Held :
      (ps : List Provider) (best : Option Provider) (n : ℤ)
      → All P ps
      → Held P best
      → Held P (best_priority ps best n)
  unfolding best_priority
  best_priority-Held [] best n a h = h
  best_priority-Held (p ∷ ps) best n (hp, a) h = elim (Bool-cases (lt_int n p.priority)) [
    | inl better ↦ rw better (best_priority-Held ps (some p) p.priority a hp)
    | inr worse ↦ rw worse (best_priority-Held ps best n a h)
  ]

  faster-Held :
      (l : Option ℕ) (p : Provider) (best : Option Provider) (n : ℕ)
      → P p
      → Held P best
      → Held P (faster l p best n).0
  faster-Held none p none n hp h = hp
  faster-Held none p (some q) n hp h = h
  faster-Held (some l) p best n hp h = elim (Bool-cases (ltb l n)) [
    | inl quick ↦ rw quick hp
    | inr slow ↦ rw slow h
  ]

  best_latency-Held :
      (hc : HealthChecker) (ps : List Provider) (best : Option Provider) (n : ℕ)
      → All P ps
      → Held P best
      → Held P (best_latency hc ps best n)
  unfolding best_latency
  best_latency-Held hc [] best n a h = h
  best_latency-Held hc (p ∷ ps) best n (hp, a) h =
      let (best', n') = faster (hc.latency_ms p.id) p best n in
      best_latency-Held hc ps best' n' a (faster-Held (hc.latency_ms p.id) p best n hp h)

  select_by_latency-Chosen :
      (hc : Option HealthChecker) (ps : List Provider)
      → All P ps
      → Chosen P (select_by_latency hc ps)
  unfolding select_by_latency
  select_by_latency-Chosen none ps a = tt
  select_by_latency-Chosen (some hc) ps a =
      or_nil-Chosen _ (best_latency-Held hc ps none max_int a tt)

  select_weighted_random-Chosen :
      (place : Option ℕ) (ps : List Provider)
      → All P ps
      → Chosen P (select_weighted_random place ps)
  unfolding select_weighted_random
  select_weighted_random-Chosen none ps a = or_nil-Chosen _ (at-Held 0 ps a)
  select_weighted_random-Chosen (some place) ps a = or_nil-Chosen _ (at-Held place ps a)

  select_by-Chosen :
      (place : Option ℕ) (s : RotationStrategy) (candidates : List Provider) (ps : ProviderSelector)
      → All P candidates
      → Chosen P (select_by place s candidates ps).1
  unfolding select_by_priority select_round_robin
  select_by-Chosen place priority_based candidates ps a =
      or_nil-Chosen _ (best_priority-Held candidates none (negsuc 0) a tt)
  select_by-Chosen place round_robin candidates ps a = or_nil-Chosen _ (at-Held _ candidates a)
  select_by-Chosen place least_loaded candidates ps a =
      select_by_latency-Chosen ps.health_checker candidates a
  select_by-Chosen place weighted_random candidates ps a =
      select_weighted_random-Chosen place candidates a

  select_among-Chosen :
      (place : Option ℕ) (candidates : List Provider) (ps : ProviderSelector)
      → All P candidates
      → Chosen P (select_among place candidates ps).1
  select_among-Chosen place [] ps a = tt
  select_among-Chosen place (p ∷ candidates) ps a =
      select_by-Chosen place ps.strategy (p ∷ candidates) ps a

select-All : (t : Provider → Bool) (ps : List Provider) → All (λ p. t p ≡ true) (select t ps)
select-All t [] = tt
select-All t (p ∷ ps) = elim (Bool-cases (t p)) [
  | inl kept ↦ simp kept (refl, select-All t ps)
  | inr left ↦ simp left (select-All t ps)
]

-- Whatever the strategy, a provider that is chosen is enabled and healthy.
pub select_provider-healthy :
    (place : Option ℕ) (ps : ProviderSelector)
    → Chosen
        (λ p. (p.enabled && healthy_for ps.health_checker p) ≡ true)
        (select_provider place ps).1
unfolding select_provider get_healthy_providers
select_provider-healthy place ps =
    select_among-Chosen _ place (get_healthy_providers ps) ps
      (select-All (λ p. p.enabled && healthy_for ps.health_checker p) ps.providers)

-- `lt_int` is a strict order that compares any two.
lt_int_irrefl : (a : ℤ) → lt_int a a ≡ false
lt_int_irrefl (pos a) = ground arith
lt_int_irrefl (negsuc a) = ground arith

lt_int_below : (a b c : ℤ) → lt_int a b ≡ false → lt_int c b ≡ true → lt_int a c ≡ false
lt_int_below (pos a) (pos b) (pos c) h g = ground arith
lt_int_below (pos a) (pos b) (negsuc c) h g = refl
lt_int_below (pos a) (negsuc b) (pos c) h g = ground arith
lt_int_below (pos a) (negsuc b) (negsuc c) h g = refl
lt_int_below (negsuc a) (pos b) c h g = ground arith
lt_int_below (negsuc a) (negsuc b) (pos c) h g = ground arith
lt_int_below (negsuc a) (negsuc b) (negsuc c) h g = ground arith

lt_int_under : (a b c : ℤ) → lt_int a b ≡ false → lt_int b c ≡ false → lt_int a c ≡ false
lt_int_under (pos a) (pos b) (pos c) h g = ground arith
lt_int_under (pos a) b (negsuc c) h g = refl
lt_int_under (pos a) (negsuc b) (pos c) h g = ground arith
lt_int_under (negsuc a) (pos b) c h g = ground arith
lt_int_under (negsuc a) (negsuc b) (pos c) h g = ground arith
lt_int_under (negsuc a) (negsuc b) (negsuc c) h g = ground arith

-- No listed provider has a higher priority than `p`.
abbrev pub IsHighest : List Provider → Provider → Type 0
IsHighest ps p = All (λ q. lt_int p.priority q.priority ≡ false) ps

-- Besides, it is not below `n`.
abbrev IsTop : List Provider → ℤ → Option Provider → Type 0
IsTop ps n none = Unit
IsTop ps n (some p) = IsHighest ps p × (lt_int p.priority n ≡ false)

IsTop-cons_above :
    (q : Provider) (ps : List Provider) (n : ℤ) (o : Option Provider)
    → lt_int n q.priority ≡ true
    → IsTop ps q.priority o
    → IsTop (q ∷ ps) n o
IsTop-cons_above q ps n none h t = tt
IsTop-cons_above q ps n (some p) h (a, b) = ((b, a), lt_int_below p.priority q.priority n b h)

IsTop-cons_below :
    (q : Provider) (ps : List Provider) (n : ℤ) (o : Option Provider)
    → lt_int n q.priority ≡ false
    → IsTop ps n o
    → IsTop (q ∷ ps) n o
IsTop-cons_below q ps n none h t = tt
IsTop-cons_below q ps n (some p) h (a, b) = ((lt_int_under p.priority n q.priority b h, a), b)

best_priority-IsTop :
    (ps : List Provider) (best : Option Provider) (n : ℤ)
    → Held (λ b. b.priority ≡ n) best
    → IsTop ps n (best_priority ps best n)
unfolding best_priority
best_priority-IsTop [] none n h = tt
best_priority-IsTop [] (some b) n h = (tt, ap (λ m. lt_int m n) h ∙ lt_int_irrefl n)
best_priority-IsTop (p ∷ ps) best n h = elim (Bool-cases (lt_int n p.priority)) [
  | inl better ↦
      subst
        (λ x.
          IsTop (p ∷ ps) n
            (if x then best_priority ps (some p) p.priority else best_priority ps best n))
        (sym better)
        (IsTop-cons_above p ps n _ better (best_priority-IsTop ps (some p) p.priority refl))
  | inr worse ↦
      subst
        (λ x.
          IsTop (p ∷ ps) n
            (if x then best_priority ps (some p) p.priority else best_priority ps best n))
        (sym worse) (IsTop-cons_below p ps n _ worse (best_priority-IsTop ps best n h))
]

IsTop-IsHighest :
    (ps : List Provider) (n : ℤ) (o : Option Provider)
    → IsTop ps n o
    → Chosen (IsHighest ps) (or_nil o)
IsTop-IsHighest ps n none t = tt
IsTop-IsHighest ps n (some p) t = t.0

-- The choice by priority gives a provider with the highest number as its priority, if any.
pub select_by_priority-IsHighest :
    (ps : List Provider) → Chosen (IsHighest ps) (select_by_priority ps)
unfolding select_by_priority
select_by_priority-IsHighest ps =
    IsTop-IsHighest ps (negsuc 0) (best_priority ps none (negsuc 0))
      (best_priority-IsTop ps none (negsuc 0) tt)
