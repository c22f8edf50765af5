-- ===== src/Provider/Turns.antt =====
-- The turns that the round robin gives to the providers.
use nexus_ai_gateway.Common.{
  ◌+◌, ◌%◌, ◌<◌, ◌≡◌, none, some, List, [], ◌∷◌, ◌++◌, length, length-append, map, arith, refl, All,
  subst, Option, ap, ◌∙◌, sym,
}
use mathlib.Core.List.{append_assoc}
use native.Mathlib.Nat.{mod-eq_of_lt}
use nexus_ai_gateway.Provider.{
  Provider, HealthChecker, round_robin, ProviderSelector, Choice, chosen, get_healthy_providers,
  or_nil, at, select_round_robin, select_by, select_among, select_provider,
}

-- The selector when the health checker says what `hc` says.
abbrev pub told : Option HealthChecker → ProviderSelector → ProviderSelector
told hc ps = record ps { health_checker = hc }

-- A call of `SelectProvider` for each element, which is what the health checker says at that call.
abbrev pub turns : List (Option HealthChecker) → ProviderSelector → List Choice
turns [] ps = []
turns (hc ∷ hcs) ps = let (ps', c) = select_provider none (told hc ps) in c ∷ turns hcs ps'

-- The providers that are enabled and healthy are `healthy`, whenever the health checker is asked.
abbrev pub Agrees : List Provider → ProviderSelector → Option HealthChecker → Type 0
Agrees healthy ps hc = get_healthy_providers (told hc ps) ≡ healthy

at-append : (pre suf : List Provider) (p : Provider) → at (length pre) (pre ++ p ∷ suf) ≡ some p
at-append [] suf p = refl
at-append (q ∷ pre) suf p = at-append pre suf p

shorter : (pre suf : List Provider) (p : Provider) → length pre < length (pre ++ p ∷ suf)
shorter pre suf p = omega (arith, length-append pre (p ∷ suf))

select_round_robin-append :
    (pre suf : List Provider) (p : Provider) (ps : ProviderSelector)
    → ps.index ≡ length pre
    → select_round_robin (pre ++ p ∷ suf) ps ≡ (record ps { index = ps.index + 1 }, chosen p)
unfolding select_round_robin
select_round_robin-append pre suf p ps i =
    let all = pre ++ p ∷ suf in
    ap (λ n. (record ps { index = ps.index + 1 }, or_nil (at n all)))
      (ap (λ n. n % length all) i ∙ mod-eq_of_lt (shorter pre suf p))
    ∙ ap (λ o. (record ps { index = ps.index + 1 }, or_nil o)) (at-append pre suf p)

select_among-round_robin :
    (pre suf : List Provider) (p : Provider) (ps : ProviderSelector)
    → ps.strategy ≡ round_robin
    → select_among none (pre ++ p ∷ suf) ps ≡ select_round_robin (pre ++ p ∷ suf) ps
select_among-round_robin [] suf p ps s = ap (λ r. select_by none r (p ∷ suf) ps) s
select_among-round_robin (q ∷ pre) suf p ps s = ap (λ r. select_by none r (q ∷ pre ++ p ∷ suf) ps) s

turns_from :
    (pre suf : List Provider) (hcs : List (Option HealthChecker)) (ps : ProviderSelector)
    → ps.strategy ≡ round_robin
    → All (Agrees (pre ++ suf) ps) hcs
    → length hcs ≡ length suf
    → ps.index ≡ length pre
    → turns hcs ps ≡ map chosen suf
unfolding select_provider get_healthy_providers
turns_from pre [] [] ps s h n i = refl
turns_from pre [] (hc ∷ hcs) ps s h n i = absurd (omega (arith, n))
turns_from pre (p ∷ suf) [] ps s h n i = absurd (omega (arith, n))
turns_from pre (p ∷ suf) (hc ∷ hcs) ps s (h, hs) n i =
    let now = told hc ps in
    ap (λ r. r.1 ∷ turns hcs r.0)
      (ap (λ c. select_among none c now) h
        ∙ select_among-round_robin pre suf p now s
        ∙ select_round_robin-append pre suf p now i)
    ∙ ap (λ cs. chosen p ∷ cs)
        (turns_from (pre ++ p ∷ []) suf hcs (record now { index = ps.index + 1 }) s
          (subst (λ l. All (Agrees l ps) hcs) (sym (append_assoc pre (p ∷ []) suf)) hs)
          (omega (arith, n)) (omega (arith, i, length-append pre (p ∷ []))))

-- A new round robin that is called as often as there are enabled and healthy providers gives each
-- of them one turn, in their order, if the same ones are enabled and healthy at each call.
pub turns_are_fair :
    (healthy : List Provider) (hcs : List (Option HealthChecker)) (ps : ProviderSelector)
    → ps.strategy ≡ round_robin
    → ps.index ≡ 0
    → All (Agrees healthy ps) hcs
    → length hcs ≡ length healthy
    → turns hcs ps ≡ map chosen healthy
turns_are_fair healthy hcs ps s i h n = turns_from [] healthy hcs ps s h n i
