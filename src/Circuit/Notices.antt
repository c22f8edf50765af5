-- ===== src/Circuit/Notices.antt =====
-- The calls of `onStateChange`: one for each change of state, and only along the breaker's edges.
use nexus_ai_gateway.Common.{ℕ, ◌≡◌, refl, true, List, [], ◌∷◌, String, arith}
use nexus_ai_gateway.Circuit.{
  Circuit, CircuitState, Config, Event, Notice, state_closed, state_half_open, state_open, allows,
  new_circuit, step, run,
}

-- The changes of state that are possible. A closed circuit does not become half-open.
pub data Edge : CircuitState → CircuitState → Type 0 where
  trips : Edge state_closed state_open
  tries : Edge state_open state_half_open
  heals : Edge state_half_open state_closed
  relapses : Edge state_half_open state_open
  cleared : Edge state_open state_closed

-- The notices, the latest first, lead from the closed state along the edges to `s`, and each
-- names the provider.
abbrev pub Traces : String → CircuitState → List Notice → Type 0
Traces p s [] = s ≡ state_closed
Traces p s (n ∷ ns) = (n.provider ≡ p) × (n.new ≡ s) × Edge n.old n.new × Traces p n.old ns

abbrev pub IsTraced : Circuit → Type 0
IsTraced c = Traces c.provider c.state c.notices

ruleset edges = (trips, tries, heals, relapses, cleared)

step-IsTraced_in :
    (s : CircuitState) (now : ℕ) (e : Event) (c : Circuit)
    → c.state ≡ s
    → c.on_state_change ≡ true
    → IsTraced c
    → IsTraced (step now e c) × ((step now e c).on_state_change ≡ true)
unfolding step
step-IsTraced_in state_closed now allows c s b v = grind (arith, edges)
step-IsTraced_in _ now _ c s b v = grind (arith, edges)

run-IsTraced :
    (es : List (ℕ × Event)) (c : Circuit)
    → c.on_state_change ≡ true
    → IsTraced c
    → IsTraced (run es c)
unfolding run
run-IsTraced [] c b v = v
run-IsTraced ((now, e) ∷ es) c b v =
    let (v', b') = step-IsTraced_in c.state now e c refl b v in run-IsTraced es (step now e c) b' v'

-- With the callback set on a new circuit, the notices are a path from the closed state to the
-- state that the circuit is in, along the possible changes of state and for its provider.
pub notices-IsTraced :
    (created : ℕ) (p : String) (k : Config) (es : List (ℕ × Event))
    → IsTraced (run es (record (new_circuit created p k) { on_state_change = true }))
unfolding new_circuit
notices-IsTraced created p k es = run-IsTraced es _ refl refl
