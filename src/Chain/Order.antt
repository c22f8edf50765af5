-- ===== src/Chain/Order.antt =====
-- Which chains an executor that never fails runs to the end, and what their results are called.
use nexus_ai_gateway.Common.{
  ℕ, ◌≡◌, Bool, true, false, ◌&&◌, Option, none, some, List, [], ◌∷◌, ◌++◌, String, arith, refl,
  if◌then◌else◌, Bool-cases, inl, inr, All, ◌⊎◌, ◌∙◌, ap, subst,
}
use nexus_ai_gateway.Common.Dict.{Dict, find, put, find-put}
use nexus_ai_gateway.Chain.Context.{lists}
use nexus_ai_gateway.Chain.{
  Step, StepResult, ChainStatus, status_pending, status_running, status_completed, status_failed,
  Chain, ChainResult, StepResponse, World, Answer, already_executed, ended, met,
  are_dependencies_met, build_step_input, execute_step, fail, first_id, run_steps, execute,
  execute_in, noted, after_step, settle, visit_with, visit, Visit, stops, goes, resume, result_of,
}

abbrev pub all_listed : List String → List String → Bool
all_listed [] seen = true
all_listed (d ∷ ds) seen = lists d seen && all_listed ds seen

-- In their order, each step depends only on steps that are executed before it, or is optional, and
-- then left out: it is not among the steps executed, for those after it.
abbrev pub ordered : List String → List Step → Bool
ordered seen [] = true
ordered seen (step ∷ steps) =
    if all_listed step.depends_on seen
    then ordered (step.id ∷ seen) steps
    else step.optional && ordered seen steps

abbrev pub succeeds : Answer → Bool
succeeds already_executed = false
succeeds (ended r e) = r.success

abbrev pub final_status : Bool → ChainStatus
final_status true = status_completed
final_status false = status_failed

Knows : List String → Dict StepResult → Type 0
Knows seen results = (d : String) → met d results ≡ lists d seen

are_dependencies_met-Knows :
    (deps seen : List String) (results : Dict StepResult)
    → Knows seen results
    → are_dependencies_met deps results ≡ all_listed deps seen
unfolding are_dependencies_met Knows
are_dependencies_met-Knows [] seen results k = refl
are_dependencies_met-Knows (d ∷ ds) seen results k =
    ground (arith, k d, are_dependencies_met-Knows ds seen results k)

Knows-put :
    (id : String) (r : StepResult) (seen : List String) (results : Dict StepResult)
    → r.error ≡ none
    → Knows seen results
    → Knows (id ∷ seen) (put id r results)
unfolding Knows met
Knows-put id r seen results e k d = ground (arith, k d, find-put id d r results)

module _ {ℓ κ} {V : Type ℓ} {S : Type κ} (w : World V S) where
  -- The executor returns a response for every step.
  abbrev pub Steady : Type κ
  Steady =
      (limit : ℕ) (input : String) (s : S)
      → (r : StepResponse) × ((w.execute_step limit input s).1 ≡ inr r)

  execute_step-Steady :
      (step : Step) (steps : List Step) (results : Dict StepResult) (s : S)
      → Steady
      → (execute_step w step steps results s).1.error ≡ none
  unfolding execute_step
  execute_step-Steady step steps results s h =
      let (r, e) = h step.timeout (build_step_input results) s in rw e refl

  abbrev pub fresh : Chain V → ChainResult
  fresh c = record {
    chain_id = c.id;
    step_results = [];
    final_output = "";
    success = true;
    error = none;
    duration = 0;
  }

  pub execute-pending :
      (c : Chain V) (s : S)
      → c.status ≡ status_pending
      → execute w c s ≡ run_steps w c.steps [] (fresh c) (record c { status = status_running }) s
  unfolding execute
  execute-pending c s p = ap (λ t. execute_in w t c s) p

  Knows-nil : Knows [] []
  unfolding Knows met find
  Knows-nil d = refl

  fail-status : (now : ℕ) (c : Chain V) → (fail now c).status ≡ status_failed
  unfolding fail
  fail-status now c = refl

  Ends : Bool → S × Chain V × Answer → Type 0
  Ends good (s, c, a) = (succeeds a ≡ good) × (c.status ≡ final_status good)

  -- What a round leaves: an end as `good` says, or a run of the rest that is to end so.
  VisitEnds : Bool → List Step → Visit V S → Type 0
  VisitEnds good rest (stops s c a) = Ends good (s, c, a)
  VisitEnds good rest (goes results result c s) =
      (seen : List String) × Knows seen results
      × (result.success ≡ true)
      × (ordered seen rest ≡ good)

  after_step-fine :
      (step : Step) (r : StepResult) (results : Dict StepResult) (result : ChainResult)
      (c : Chain V) (s : S)
      → r.error ≡ none
      → after_step w step r results result c s
        ≡ goes
            (put step.id r results)
            (record result { step_results = result.step_results ++ r ∷ [] })
            c
            s
  unfolding after_step settle
  after_step-fine step r results result c s fine =
      ap
        (λ e.
          settle w e step (put step.id r results)
            (record result { step_results = result.step_results ++ r ∷ [] }) c s)
        fine

  visit-Ends :
      (step : Step) (rest : List Step) (seen : List String) (results : Dict StepResult)
      (result : ChainResult) (c : Chain V) (s : S)
      → Steady
      → Knows seen results
      → result.success ≡ true
      → VisitEnds (ordered seen (step ∷ rest)) rest (visit w step results result c s)
  unfolding visit visit_with VisitEnds Ends
  visit-Ends step rest seen results result c s h k g =
      let (s', r) = execute_step w step c.steps results s in
      let deps = are_dependencies_met-Knows step.depends_on seen results k in
      let fine = execute_step-Steady step c.steps results s h in
      elim (Bool-cases (all_listed step.depends_on seen)) [
        | inl sorted ↦
            simp
              (
                deps,
                sorted,
                after_step-fine step r results result (noted w step r (w.others s' c)) s' fine,
              )
              (step.id ∷ seen, Knows-put step.id r seen results fine k, g, refl)
        | inr unmet ↦ elim (Bool-cases step.optional) [
          | inl left ↦ simp (deps, unmet, left) (seen, k, g, refl)
          | inr needed ↦ simp (deps, unmet, needed) (refl, fail-status (w.clock s) c)
        ]
      ]

  resume-Ends :
      (good : Bool) (rest : List Step) (v : Visit V S)
      → ((seen : List String) (results : Dict StepResult) (result : ChainResult) (c : Chain V)
            (s : S)
          → Knows seen results
          → result.success ≡ true
          → Ends (ordered seen rest) (run_steps w rest results result c s))
      → VisitEnds good rest v
      → Ends good (resume v (run_steps w rest))
  unfolding VisitEnds
  resume-Ends good rest (stops s c a) h v = v
  resume-Ends good rest (goes results result c s) h (seen, k, g, o) =
      subst (λ b. Ends b (run_steps w rest results result c s)) o (h seen results result c s k g)

  run_steps-Ends :
      (steps : List Step) (seen : List String) (results : Dict StepResult) (result : ChainResult)
      (c : Chain V) (s : S)
      → Steady
      → Knows seen results
      → result.success ≡ true
      → Ends (ordered seen steps) (run_steps w steps results result c s)
  unfolding run_steps Ends
  run_steps-Ends [] seen results result c s h k g = (g, refl)
  run_steps-Ends (step ∷ rest) seen results result c s h k g =
      resume-Ends (ordered seen (step ∷ rest)) rest (visit w step results result c s)
        (λ seen' results' result' c' s' k' g'.
          run_steps-Ends rest seen' results' result' c' s' h k' g')
        (visit-Ends step rest seen results result c s h k g)

  -- With an executor that never fails, a pending chain succeeds and is completed exactly when, in
  -- the order of its steps, each depends only on steps executed before it, or is optional and left
  -- out, not counting as executed for the later ones; otherwise the chain fails.
  pub execute-ordered :
      (c : Chain V) (s : S)
      → Steady
      → c.status ≡ status_pending
      → (succeeds (execute w c s).2 ≡ ordered [] c.steps)
        × ((execute w c s).1.status ≡ final_status (ordered [] c.steps))
  unfolding Ends
  execute-ordered c s h p = rw (execute-pending c s p) (
      run_steps-Ends c.steps [] [] (fresh c) (record c { status = status_running }) s h Knows-nil
        refl)

  -- The other callers leave the steps of the chain alone.
  abbrev pub KeepsSteps : Type (ℓ ⊔ κ)
  KeepsSteps = (s : S) (c : Chain V) → (w.others s c).steps ≡ c.steps

  abbrev pub Named : String → StepResult → Type 0
  Named id r = r.step_id ≡ id

  abbrev pub AllNamed : String → Answer → Type 0
  AllNamed id already_executed = Unit
  AllNamed id (ended r e) = All (Named id) r.step_results

  result_of-Named :
      (id : String) (start end : ℕ) (out : String ⊎ StepResponse)
      → Named id (result_of id start end out)
  unfolding result_of
  result_of-Named id start end (inl e) = refl
  result_of-Named id start end (inr r) = refl

  execute_step-Named :
      (step : Step) (steps : List Step) (results : Dict StepResult) (s : S)
      → Named (first_id steps) (execute_step w step steps results s).1
  unfolding execute_step
  execute_step-Named step steps results s =
      result_of-Named (first_id steps) (w.clock s)
        (w.clock (w.execute_step step.timeout (build_step_input results) s).0)
        (w.execute_step step.timeout (build_step_input results) s).1

  All-append :
      (id : String) (rs : List StepResult) (r : StepResult)
      → All (Named id) rs
      → Named id r
      → All (Named id) (rs ++ r ∷ [])
  All-append id [] r a n = (n, tt)
  All-append id (x ∷ xs) r (m, a) n = (m, All-append id xs r a n)

  VisitNamed : String → Visit V S → Type 0
  VisitNamed id (stops s c a) = AllNamed id a
  VisitNamed id (goes results result c s) =
      (first_id c.steps ≡ id) × All (Named id) result.step_results

  settle-Named :
      (id : String) (e : Option String) (step : Step) (results : Dict StepResult)
      (result : ChainResult) (c : Chain V) (s : S)
      → first_id c.steps ≡ id
      → All (Named id) result.step_results
      → VisitNamed id (settle w e step results result c s)
  unfolding settle VisitNamed
  settle-Named id none step results result c s f a = (f, a)
  settle-Named id (some e) step results result c s f a = elim (Bool-cases step.optional) [
    | inl left ↦ simp left (f, a)
    | inr needed ↦ simp needed a
  ]

  visit-Named :
      (id : String) (step : Step) (results : Dict StepResult) (result : ChainResult) (c : Chain V)
      (s : S)
      → KeepsSteps
      → first_id c.steps ≡ id
      → All (Named id) result.step_results
      → VisitNamed id (visit w step results result c s)
  unfolding visit visit_with VisitNamed noted after_step
  visit-Named id step results result c s k f a =
      let (s', r) = execute_step w step c.steps results s in
      elim (Bool-cases (are_dependencies_met step.depends_on results)) [
        | inl sorted ↦ rw sorted (
            settle-Named id r.error step (put step.id r results)
              (record result { step_results = result.step_results ++ r ∷ [] })
              (noted w step r (w.others s' c)) s' (ap first_id (k s' c) ∙ f)
              (All-append id result.step_results r a
                (execute_step-Named step c.steps results s ∙ f)))
        | inr unmet ↦ elim (Bool-cases step.optional) [
          | inl left ↦ simp (unmet, left) (f, a)
          | inr needed ↦ simp (unmet, needed) a
        ]
      ]

  resume-Named :
      (id : String) (v : Visit V S)
      (next : Dict StepResult → ChainResult → Chain V → S → S × Chain V × Answer)
      → ((results : Dict StepResult) (result : ChainResult) (c : Chain V) (s : S)
          → first_id c.steps ≡ id
          → All (Named id) result.step_results
          → AllNamed id (next results result c s).2)
      → VisitNamed id v
      → AllNamed id (resume v next).2
  unfolding VisitNamed
  resume-Named id (stops s c a) next h v = v
  resume-Named id (goes results result c s) next h (f, a) = h results result c s f a

  run_steps-Named :
      (id : String) (steps : List Step) (results : Dict StepResult) (result : ChainResult)
      (c : Chain V) (s : S)
      → KeepsSteps
      → first_id c.steps ≡ id
      → All (Named id) result.step_results
      → AllNamed id (run_steps w steps results result c s).2
  unfolding run_steps
  run_steps-Named id [] results result c s k f a = a
  run_steps-Named id (step ∷ rest) results result c s k f a =
      resume-Named id (visit w step results result c s) (run_steps w rest)
        (λ results' result' c' s' f' a'. run_steps-Named id rest results' result' c' s' k f' a')
        (visit-Named id step results result c s k f a)

  -- Every result that a pending chain reports carries the ID of the chain's first step, whichever
  -- step it is of, if the other callers leave the steps alone.
  pub execute-AllNamed :
      (c : Chain V) (s : S)
      → KeepsSteps
      → c.status ≡ status_pending
      → AllNamed (first_id c.steps) (execute w c s).2
  execute-AllNamed c s k p = rw (execute-pending c s p) (
      run_steps-Named (first_id c.steps) c.steps [] (fresh c) (record c { status = status_running })
        s k refl tt)
