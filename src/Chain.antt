-- ===== src/Chain.antt =====
-- internal/orchestration/orchestrator.go: chains of steps, their execution and the orchestrator that
-- keeps them. The executor is a parameter that acts on a world, and so is what other callers do to
-- the chain while a step runs. A step's results are visited in the order of their list, where the
-- code leaves the order of its map open. An error is its text.
pub mod Context
pub mod Order
pub mod Cancel
pub mod Tests
use nexus_ai_gateway.Common.{
  ℕ, ◌*◌, ◌-◌, Bool, true, false, not, ◌&&◌, ◌||◌, Option, none, some, List, [], ◌∷◌, ◌++◌, String,
  if◌then◌else◌, str_eq, ◌⊎◌, inl, inr,
}
use nexus_ai_gateway.Common.Clock.{minute}
use nexus_ai_gateway.Common.Text.{str_append}
use nexus_ai_gateway.Common.Dict.{Dict, find, put}
use nexus_ai_gateway.Chain.Context.{ExecutionContext, new_execution_context, mark_immutable}

pub record Step : Type 0 where
  pub id : String
  pub name : String
  pub input_keys : List String
  pub model : String
  pub prompt : String
  pub skill_name : String
  pub depends_on : List String
  pub timeout : ℕ
  pub optional : Bool

pub record StepResult : Type 0 where
  pub step_id : String
  pub output : String
  pub error : Option String
  pub duration : ℕ
  pub model_used : String
  pub tokens_used : ℕ
  pub started_at : ℕ
  pub completed_at : ℕ

pub data ChainStatus : Type 0 where
  status_pending status_running status_completed status_failed status_canceled : ChainStatus

pub record Chain {ℓ} (V : Type ℓ) : Type ℓ where
  pub id : String
  pub name : String
  pub steps : List Step
  pub results : List StepResult
  pub context : ExecutionContext V
  pub status : ChainStatus
  pub created_at : ℕ
  pub completed_at : Option ℕ

pub record ChainResult : Type 0 where
  pub chain_id : String
  pub step_results : List StepResult
  pub final_output : String
  pub success : Bool
  pub error : Option String
  pub duration : ℕ

pub record StepResponse : Type 0 where
  pub text : String
  pub model_used : String
  pub tokens_used : ℕ

-- `execute_step` gets the time limit of the step and its input; `clock` reads the time; `others` is
-- what the other callers have done to the chain by the time that the step has ended.
pub record World {ℓ κ} (V : Type ℓ) (S : Type κ) : Type (ℓ ⊔ κ) where
  pub execute_step : ℕ → String → S → S × (String ⊎ StepResponse)
  pub clock : S → ℕ
  pub others : S → Chain V → Chain V

pub data Answer : Type 0 where
  already_executed : Answer
  ended : ChainResult → Option String → Answer

-- How a round of the loop ends: by a return, or with the values for the next round.
pub data Visit {ℓ κ} (V : Type ℓ) (S : Type κ) : Type (ℓ ⊔ κ) where
  stops : S → Chain V → Answer → Visit V S
  goes : Dict StepResult → ChainResult → Chain V → S → Visit V S

abbrev pub resume {ℓ κ} :
    {V : Type ℓ} {S : Type κ}
    → Visit V S
    → (Dict StepResult → ChainResult → Chain V → S → S × Chain V × Answer)
    → S × Chain V × Answer
resume (stops s c a) next = (s, c, a)
resume (goes results result c s) next = next results result c s

-- `areDependenciesMet`.
unfoldable pub met : String → Dict StepResult → Bool
met dep results = elim (find dep results) [
  | none ↦ false
  | some r ↦ elim r.error [ none ↦ true | some e ↦ false ]
]

unfoldable pub are_dependencies_met : List String → Dict StepResult → Bool
unfolding met
are_dependencies_met [] results = true
are_dependencies_met (dep ∷ deps) results = met dep results && are_dependencies_met deps results

unfoldable pub build_step_input : Dict StepResult → String
build_step_input [] = ""
build_step_input ((step_id, r) ∷ results) =
    let rest = build_step_input results in
    if str_eq r.output ""
    then rest
    else str_append "\n--- " (str_append step_id (str_append " ---\n" (str_append r.output rest)))

-- The first step of the chain, whichever is executed.
abbrev pub first_id : List Step → String
first_id [] = ""
first_id (step ∷ steps) = step.id

module _ {ℓ} {V : Type ℓ} where
  unfoldable pub new_chain : ℕ → String → String → Chain V
  unfolding new_execution_context
  new_chain now id name = record {
    id = id;
    name = name;
    steps = [];
    results = [];
    context = new_execution_context;
    status = status_pending;
    created_at = now;
    completed_at = none;
  }

  unfoldable pub add_step : Step → Chain V → Chain V
  add_step step c = record c { steps = c.steps ++ step ∷ [] }

  unfoldable pub fail : ℕ → Chain V → Chain V
  fail now c = record c { status = status_failed; completed_at = some now }

result_of : String → ℕ → ℕ → String ⊎ StepResponse → StepResult
result_of step_id start end (inl e) = record {
  step_id = step_id;
  output = "";
  error = some e;
  duration = end - start;
  model_used = "";
  tokens_used = 0;
  started_at = start;
  completed_at = end;
}
result_of step_id start end (inr r) = record {
  step_id = step_id;
  output = r.text;
  error = none;
  duration = end - start;
  model_used = r.model_used;
  tokens_used = r.tokens_used;
  started_at = start;
  completed_at = end;
}

module _ {ℓ κ} {V : Type ℓ} {S : Type κ} (w : World V S) where
  -- The identity in the result is read before the step runs.
  unfoldable pub execute_step : Step → List Step → Dict StepResult → S → S × StepResult
  unfolding result_of
  execute_step step steps results s =
      let (s', out) = w.execute_step step.timeout (build_step_input results) s in
      (s', result_of (first_id steps) (w.clock s) (w.clock s') out)

  abbrev failed_result : ChainResult → String → ChainResult
  failed_result result e = record result { success = false; error = some e }

  -- The chain and the result once a step has run.
  noted : Step → StepResult → Chain V → Chain V
  unfolding mark_immutable
  noted step r c = record c {
    results = c.results ++ r ∷ [];
    context = mark_immutable step.id c.context;
  }

  -- A step has run, with or without an error; its result is already in `results` and `result`.
  settle : Option String → Step → Dict StepResult → ChainResult → Chain V → S → Visit V S
  settle none step results result c s = goes results result c s
  settle (some e) step results result c s =
      if step.optional
      then goes results result c s
      else stops s (fail (w.clock s) c) (ended (failed_result result e) (some e))

  after_step : Step → StepResult → Dict StepResult → ChainResult → Chain V → S → Visit V S
  after_step step r results result c s =
      settle r.error step (put step.id r results)
        (record result { step_results = result.step_results ++ r ∷ [] }) c s

  -- The body of the loop of `Execute`, where running the step would give `(s', r)`.
  visit_with : Step → Dict StepResult → ChainResult → Chain V → S → S × StepResult → Visit V S
  visit_with step results result c s (s', r) =
      let missing = str_append "step " (str_append step.id " dependencies not met") in
      if are_dependencies_met step.depends_on results
      then after_step step r results result (noted step r (w.others s' c)) s'
      else if step.optional
      then goes results result c s
      else stops s (fail (w.clock s) c) (ended (failed_result result missing) (some missing))

  unfoldable pub visit : Step → Dict StepResult → ChainResult → Chain V → S → Visit V S
  unfolding noted after_step settle visit_with
  visit step results result c s =
      visit_with step results result c s (execute_step step c.steps results s)

  -- The loop over the steps that are left.
  unfoldable pub run_steps :
      List Step → Dict StepResult → ChainResult → Chain V → S → S × Chain V × Answer
  run_steps [] results result c s = (
    s,
    record c { status = status_completed; completed_at = some (w.clock s) },
    ended result none,
  )
  run_steps (step ∷ rest) results result c s =
      resume (visit step results result c s) (run_steps rest)

  execute_in : ChainStatus → Chain V → S → S × Chain V × Answer
  execute_in status_pending c s =
      run_steps c.steps []
        (record {
          chain_id = c.id;
          step_results = [];
          final_output = "";
          success = true;
          error = none;
          duration = 0;
        })
        (record c { status = status_running }) s
  execute_in status_running c s = (s, c, already_executed)
  execute_in status_completed c s = (s, c, already_executed)
  execute_in status_failed c s = (s, c, already_executed)
  execute_in status_canceled c s = (s, c, already_executed)

  unfoldable pub execute : Chain V → S → S × Chain V × Answer
  unfolding execute_in
  execute c s = execute_in c.status c s

pub record Orchestrator {ℓ} (V : Type ℓ) : Type ℓ where
  pub chains : Dict (Chain V)
  pub max_depth : ℕ
  pub timeout : ℕ

pub data CancelError : Type 0 where
  chain_not_found chain_not_running : String → CancelError

abbrev is_live : ChainStatus → Bool
is_live status_pending = true
is_live status_running = true
is_live status_completed = false
is_live status_failed = false
is_live status_canceled = false

module _ {ℓ} {V : Type ℓ} where
  unfoldable pub new_orchestrator : Orchestrator V
  new_orchestrator = record { chains = []; max_depth = 10; timeout = 5 * minute }

  unfoldable pub add_chain : ℕ → String → String → Orchestrator V → Orchestrator V
  add_chain now id name o = record o { chains = put id (new_chain now id name) o.chains }

  unfoldable pub get_chain : String → Orchestrator V → Option (Chain V)
  get_chain id o = find id o.chains

  unfoldable pub cancel : ℕ → Chain V → Chain V
  cancel now c = record c { status = status_canceled; completed_at = some now }

  unfoldable pub cancel_chain : ℕ → String → Orchestrator V → Orchestrator V × Option CancelError
  cancel_chain now id o = elim (find id o.chains) [
    | none ↦ (o, some (chain_not_found id))
    | some c ↦
        if is_live c.status
        then (record o { chains = put id (cancel now c) o.chains }, none)
        else (o, some (chain_not_running id))
  ]

unfoldable pub aggregate_results : List StepResult → String
aggregate_results [] = ""
aggregate_results (r ∷ rs) =
    str_append
      (elim r.error [ none ↦ r.output | some e ↦ str_append "\n[ERROR: " (str_append e "]") ])
      (aggregate_results rs)
