-- ===== src/Chain/Cancel.antt =====
-- What becomes of a chain that `CancelChain` cancels while it is executed.
use nexus_ai_gateway.Common.{
  ℕ, ◌⊎◌, ◌≡◌, sym, subst, Option, none, some, List, [], ◌∷◌, ◌++◌, String, refl, Bool-cases, inl,
  inr, ap, ◌∙◌,
}
use nexus_ai_gateway.Common.Dict.{Dict, put}
use nexus_ai_gateway.Chain.{
  Step, StepResult, ChainStatus, status_pending, status_running, status_completed, status_failed,
  Chain, ChainResult, World, Answer, are_dependencies_met, execute_step, fail, settle, after_step,
  visit_with, visit, Visit, stops, goes, resume, run_steps, execute, noted, result_of,
}
use nexus_ai_gateway.Chain.Order.{KeepsSteps, execute-pending, fresh}

pub IsOver : ChainStatus → Type 0
IsOver status = (status ≡ status_completed) ⊎ (status ≡ status_failed)

module _ {ℓ κ} {V : Type ℓ} {S : Type κ} (w : World V S) where
  -- The same world with no other callers.
  abbrev pub alone : World V S
  alone = record w { others = λ s c. c }

  pub Alike : S × Chain V × Answer → S × Chain V × Answer → Type κ
  Alike (s, c, a) (s', c', a') = (s ≡ s') × (c.status ≡ c'.status) × (a ≡ a')

  -- The same end, or the same values for the next round, with the steps `all` in both chains.
  VisitAlike : List Step → Visit V S → Visit V S → Type κ
  VisitAlike all (stops s c a) (stops s' c' a') = Alike (s, c, a) (s', c', a')
  VisitAlike all (goes rs r c s) (goes rs' r' c' s') =
      (rs ≡ rs') × (r ≡ r') × (s ≡ s') × (c.steps ≡ all) × (c'.steps ≡ all)
  VisitAlike all (stops s c a) (goes rs' r' c' s') = (s ≡ s') × ⊥
  VisitAlike all (goes rs r c s) (stops s' c' a') = (s ≡ s') × ⊥

  settle-VisitAlike :
      (all : List Step) (e : Option String) (step : Step) (results : Dict StepResult)
      (result : ChainResult) (c c' : Chain V) (s : S)
      → c.steps ≡ all
      → c'.steps ≡ all
      → VisitAlike all
          (settle w e step results result c s)
          (settle alone e step results result c' s)
  unfolding settle VisitAlike fail Alike
  settle-VisitAlike all none step results result c c' s k k' = (refl, refl, refl, k, k')
  settle-VisitAlike all (some e) step results result c c' s k k' = elim (Bool-cases step.optional) [
    | inl left ↦ simp left (refl, refl, refl, k, k')
    | inr needed ↦ simp needed (refl, refl, refl)
  ]

  visit_with-VisitAlike :
      (all : List Step) (step : Step) (results : Dict StepResult) (result : ChainResult)
      (c c' : Chain V) (s : S) (out : S × StepResult)
      → KeepsSteps w
      → c.steps ≡ all
      → c'.steps ≡ all
      → VisitAlike all
          (visit_with w step results result c s out)
          (visit_with alone step results result c' s out)
  unfolding visit_with after_step noted VisitAlike fail Alike
  visit_with-VisitAlike all step results result c c' s (s', r) h k k' =
      elim (Bool-cases (are_dependencies_met step.depends_on results)) [
        | inl sorted ↦ simp sorted (
            settle-VisitAlike all r.error step (put step.id r results)
              (record result { step_results = result.step_results ++ r ∷ [] })
              (noted w step r (w.others s' c)) (noted alone step r c') s' (h s' c ∙ k) k')
        | inr unmet ↦ elim (Bool-cases step.optional) [
          | inl left ↦ simp (unmet, left) (refl, refl, refl, k, k')
          | inr needed ↦ simp (unmet, needed) (refl, refl, refl)
        ]
      ]

  execute_step-alone :
      (step : Step) (steps : List Step) (results : Dict StepResult) (s : S)
      → execute_step w step steps results s ≡ execute_step alone step steps results s
  unfolding execute_step result_of
  execute_step-alone step steps results s = refl

  visit-VisitAlike :
      (all : List Step) (step : Step) (results : Dict StepResult) (result : ChainResult)
      (c c' : Chain V) (s : S)
      → KeepsSteps w
      → c.steps ≡ all
      → c'.steps ≡ all
      → VisitAlike all (visit w step results result c s) (visit alone step results result c' s)
  unfolding visit
  visit-VisitAlike all step results result c c' s h k k' =
      let out = execute_step w step c.steps results s in
      let same =
        ap (λ l. execute_step w step l results s) (k ∙ sym k')
        ∙ execute_step-alone step c'.steps results s in
      subst
        (λ o.
          VisitAlike all (visit_with w step results result c s out)
            (visit_with alone step results result c' s o))
        same (visit_with-VisitAlike all step results result c c' s out h k k')

  resume-Alike :
      (all rest : List Step) (v v' : Visit V S)
      → ((results : Dict StepResult) (result : ChainResult) (c c' : Chain V) (s : S)
          → c.steps ≡ all
          → c'.steps ≡ all
          → Alike (run_steps w rest results result c s) (run_steps alone rest results result c' s))
      → VisitAlike all v v'
      → Alike (resume v (run_steps w rest)) (resume v' (run_steps alone rest))
  unfolding VisitAlike Alike
  resume-Alike all rest (stops s c a) (stops s' c' a') h v = v
  resume-Alike all rest (goes rs r c s) (goes rs' r' c' s') h (e, f, g, k, k') =
      subst (λ x. Alike (run_steps w rest rs r c s) (run_steps alone rest x r' c' s')) e
        (subst (λ x. Alike (run_steps w rest rs r c s) (run_steps alone rest rs x c' s')) f
          (subst (λ x. Alike (run_steps w rest rs r c s) (run_steps alone rest rs r c' x)) g
            (h rs r c c' s k k')))
  resume-Alike all rest (stops s c a) (goes rs' r' c' s') h v = absurd v.1
  resume-Alike all rest (goes rs r c s) (stops s' c' a') h v = absurd v.1

  run_steps-Alike :
      (all steps : List Step) (results : Dict StepResult) (result : ChainResult) (c c' : Chain V)
      (s : S)
      → KeepsSteps w
      → c.steps ≡ all
      → c'.steps ≡ all
      → Alike (run_steps w steps results result c s) (run_steps alone steps results result c' s)
  unfolding run_steps Alike
  run_steps-Alike all [] results result c c' s h k k' = (refl, refl, refl)
  run_steps-Alike all (step ∷ rest) results result c c' s h k k' =
      resume-Alike all rest (visit w step results result c s) (visit alone step results result c' s)
        (λ rs r d d' t j j'. run_steps-Alike all rest rs r d d' t h j j')
        (visit-VisitAlike all step results result c c' s h k k')

  -- A round that stops the chain leaves it completed or failed.
  VisitOver : Visit V S → Type 0
  VisitOver (stops s c a) = IsOver c.status
  VisitOver (goes results result c s) = Unit

  fail-IsOver : (now : ℕ) (c : Chain V) → IsOver (fail now c).status
  unfolding IsOver fail
  fail-IsOver now c = inr refl

  settle-VisitOver :
      (e : Option String) (step : Step) (results : Dict StepResult) (result : ChainResult)
      (c : Chain V) (s : S)
      → VisitOver (settle w e step results result c s)
  unfolding settle VisitOver
  settle-VisitOver none step results result c s = tt
  settle-VisitOver (some e) step results result c s = elim (Bool-cases step.optional) [
    | inl left ↦ simp left tt
    | inr needed ↦ simp needed (fail-IsOver (w.clock s) c)
  ]

  visit-VisitOver :
      (step : Step) (results : Dict StepResult) (result : ChainResult) (c : Chain V) (s : S)
      → VisitOver (visit w step results result c s)
  unfolding visit visit_with after_step VisitOver
  visit-VisitOver step results result c s =
      let (s', r) = execute_step w step c.steps results s in
      elim (Bool-cases (are_dependencies_met step.depends_on results)) [
        | inl sorted ↦ rw sorted (
            settle-VisitOver r.error step (put step.id r results)
              (record result { step_results = result.step_results ++ r ∷ [] })
              (noted w step r (w.others s' c)) s')
        | inr unmet ↦ elim (Bool-cases step.optional) [
          | inl left ↦ simp (unmet, left) tt
          | inr needed ↦ simp (unmet, needed) (fail-IsOver (w.clock s) c)
        ]
      ]

  resume-IsOver :
      (v : Visit V S) (next : Dict StepResult → ChainResult → Chain V → S → S × Chain V × Answer)
      → ((results : Dict StepResult) (result : ChainResult) (c : Chain V) (s : S)
          → IsOver (next results result c s).1.status)
      → VisitOver v
      → IsOver (resume v next).1.status
  unfolding VisitOver
  resume-IsOver (stops s c a) next h v = v
  resume-IsOver (goes results result c s) next h v = h results result c s

  run_steps-IsOver :
      (steps : List Step) (results : Dict StepResult) (result : ChainResult) (c : Chain V) (s : S)
      → IsOver (run_steps w steps results result c s).1.status
  unfolding run_steps IsOver
  run_steps-IsOver [] results result c s = inl refl
  run_steps-IsOver (step ∷ rest) results result c s =
      resume-IsOver (visit w step results result c s) (run_steps w rest)
        (λ results' result' c' s'. run_steps-IsOver rest results' result' c' s')
        (visit-VisitOver step results result c s)

  -- If the other callers leave the steps of a chain alone, executing it, when it is pending, gives
  -- the result, the final status and the effects that it has without other callers, also when they
  -- cancel it while it runs; and it ends completed or failed.
  pub execute-Alike :
      (c : Chain V) (s : S)
      → KeepsSteps w
      → c.status ≡ status_pending
      → Alike (execute w c s) (execute alone c s) × IsOver (execute w c s).1.status
  execute-Alike c s h p =
      let running = record c { status = status_running } in
      rw (execute-pending w c s p, execute-pending alone c s p)
        (
          run_steps-Alike c.steps c.steps [] (fresh w c) running running s h refl refl,
          run_steps-IsOver c.steps [] (fresh w c) running s,
        )
