-- ===== src/Chain/Tests.antt =====
-- Runs of chains on concrete steps, and the instances of the properties.
use nexus_ai_gateway.Common.{ℕ, ◌+◌, ◌≡◌, false, none, some, List, [], ◌∷◌, String, refl, inr}
use nexus_ai_gateway.Chain.Context.{
  ExecutionContext, sets, marks, get, set, mark_immutable, apply_all, new_execution_context,
  get-apply_all,
}
use nexus_ai_gateway.Common.Dict.{find, put}
use nexus_ai_gateway.Chain.{
  Step, status_completed, status_failed, Chain, World, new_chain, add_step, execute, run_steps,
  visit, execute_step, are_dependencies_met, met, build_step_input, fail, cancel, cancel_chain,
  add_chain, new_orchestrator, chain_not_found,
}
use nexus_ai_gateway.Chain.Order.{succeeds, execute-ordered}
use nexus_ai_gateway.Chain.Cancel.{alone, Alike, IsOver, execute-Alike}

abbrev step : String → List String → Step
step id depends_on = record {
  id = id;
  name = id;
  input_keys = [];
  model = "m";
  prompt = "p";
  skill_name = "";
  depends_on = depends_on;
  timeout = 1;
  optional = false;
}

-- The state is the time, and each step takes 1.
abbrev steady : World ℕ ℕ
steady = record {
  execute_step =
      λ limit input s. (s + 1, inr (record { text = "out"; model_used = "m"; tokens_used = 2 }));
  clock = λ s. s;
  others = λ s c. c;
}

-- Another caller cancels the chain while each step runs.
abbrev canceling : World ℕ ℕ
canceling = record steady { others = λ s c. cancel s c }

abbrev sorted_chain : Chain ℕ
unfolding new_chain add_step new_execution_context
sorted_chain = add_step (step "b" ("a" ∷ [])) (add_step (step "a" []) (new_chain 0 "c" "c"))

abbrev reversed_chain : Chain ℕ
unfolding new_chain add_step new_execution_context
reversed_chain = add_step (step "a" []) (add_step (step "b" ("a" ∷ [])) (new_chain 0 "c" "c"))

-- The same two steps in the other order fail, though "a" could be run first.
sorted_completes : (execute steady sorted_chain 0).1.status ≡ status_completed
unfolding execute run_steps visit execute_step are_dependencies_met met build_step_input fail find
    put reversed_chain sorted_chain
sorted_completes = refl

reversed_fails : (execute steady reversed_chain 0).1.status ≡ status_failed
unfolding execute run_steps visit execute_step are_dependencies_met met build_step_input fail find
    put reversed_chain sorted_chain
reversed_fails = refl

input_is_joined :
    build_step_input (
      (
        "a",
        record {
          step_id = "a";
          output = "x";
          error = none;
          duration = 0;
          model_used = "";
          tokens_used = 0;
          started_at = 0;
          completed_at = 0;
        },
      )
      ∷ [])
    ≡ "\n--- a ---\nx"
unfolding build_step_input
input_is_joined = refl

cancel_of_absent :
    (cancel_chain 1 "d" (add_chain 0 "c" "c" (new_orchestrator {V = ℕ}))).1
    ≡ some (chain_not_found "d")
unfolding cancel_chain add_chain new_orchestrator find put
cancel_of_absent = refl

cancel_of_pending : (cancel_chain 1 "c" (add_chain 0 "c" "c" (new_orchestrator {V = ℕ}))).1 ≡ none
unfolding cancel_chain add_chain new_orchestrator new_chain find put
cancel_of_pending = refl

execute-ordered_example :
    (succeeds (execute steady reversed_chain 0).2 ≡ false)
    × ((execute steady reversed_chain 0).1.status ≡ status_failed)
unfolding reversed_chain
execute-ordered_example = execute-ordered steady reversed_chain 0 (λ l i s. (_, refl)) refl

execute-Alike_example :
    Alike canceling (execute canceling sorted_chain 0) (execute (alone canceling) sorted_chain 0)
    × IsOver (execute canceling sorted_chain 0).1.status
unfolding cancel sorted_chain
execute-Alike_example = execute-Alike canceling sorted_chain 0 (λ s c. refl) refl

abbrev one_key : ExecutionContext ℕ
unfolding set new_execution_context
one_key = set "k" 1 new_execution_context

get-apply_all_example :
    get "k" (apply_all (sets "k" 2 ∷ marks "j" ∷ []) (mark_immutable "k" one_key)) ≡ get "k" one_key
get-apply_all_example = get-apply_all "k" (sets "k" 2 ∷ marks "j" ∷ []) one_key
