-- ===== src/Circuit/Streak.antt =====
-- When a closed circuit opens: failures in a row against the failure threshold.
use nexus_ai_gateway.Common.{
  ℕ, ◌+◌, ◌≤◌, ◌<◌, ◌≡◌, List, [], ◌∷◌, String, arith, leb, if◌then◌else◌, length, map,
}
use nexus_ai_gateway.Circuit.{
  Circuit, Config, Event, state_closed, state_open, allows, succeeds, fails, resets, new_circuit,
  step, run,
}

-- The failures since the last success, `n` of them before the first call.
abbrev pub streak_from : ℕ → List (ℕ × Event) → ℕ
streak_from n [] = n
streak_from n ((_, allows) ∷ es) = streak_from n es
streak_from n ((_, succeeds) ∷ es) = streak_from 0 es
streak_from n ((_, fails) ∷ es) = streak_from (n + 1) es
streak_from n ((_, resets) ∷ es) = streak_from n es

abbrev pub streak : List (ℕ × Event) → ℕ
streak es = streak_from 0 es

-- What one call makes of the count.
abbrev count : Event → ℕ → ℕ
count allows n = n
count succeeds n = 0
count fails n = n + 1
count resets n = n

-- A closed circuit counts no more failures than that.
abbrev Counts : ℕ → Circuit → Type 0
Counts n c = c.state ≡ state_closed → c.failures ≤ n

step-Counts :
    (now : ℕ) (e : Event) (n : ℕ) (c : Circuit) → Counts n c → Counts (count e n) (step now e c)
unfolding step
step-Counts now allows n c h = ground arith
step-Counts now succeeds n c h = ground arith
step-Counts now fails n c h = ground arith
step-Counts now resets n c h = ground arith

run-Counts :
    (es : List (ℕ × Event)) (n : ℕ) (c : Circuit)
    → Counts n c
    → Counts (streak_from n es) (run es c)
unfolding run
run-Counts [] n c h = h
run-Counts ((now, allows) ∷ es) n c h = run-Counts es n _ (step-Counts now allows n c h)
run-Counts ((now, succeeds) ∷ es) n c h = run-Counts es 0 _ (step-Counts now succeeds n c h)
run-Counts ((now, fails) ∷ es) n c h = run-Counts es (n + 1) _ (step-Counts now fails n c h)
run-Counts ((now, resets) ∷ es) n c h = run-Counts es n _ (step-Counts now resets n c h)

opening_step :
    (now n : ℕ) (c : Circuit)
    → Counts n c
    → c.state ≡ state_closed
    → (step now fails c).state ≡ state_open
    → c.failure_threshold ≤ n + 1
unfolding step
opening_step now n c h s o = ground arith

pub config-run : (es : List (ℕ × Event)) (c : Circuit) → (run es c).config ≡ c.config
unfolding run step
config-run [] c = ground arith
config-run ((now, e) ∷ es) c = ground (arith, config-run es (step now e c))

-- A call that opens a closed circuit is a failure that completes a row of failures as long as the
-- threshold, with no success among them, whatever the calls since the circuit was created.
pub opening_needs_streak :
    (created now : ℕ) (p : String) (k : Config) (es : List (ℕ × Event))
    → (run es (new_circuit created p k)).state ≡ state_closed
    → (step now fails (run es (new_circuit created p k))).state ≡ state_open
    → k.failure_threshold ≤ streak es + 1
unfolding new_circuit
opening_needs_streak created now p k es s o = ground (
  arith,
  config-run es (new_circuit created p k),
  opening_step now (streak es) (run es (new_circuit created p k))
      (run-Counts es 0 (new_circuit created p k) (λ _. ground arith)) s o,
)

abbrev pub failing : List ℕ → List (ℕ × Event)
failing = map (λ t. (t, fails))

open_absorbs :
    (ts : List ℕ) (c : Circuit) → c.state ≡ state_open → (run (failing ts) c).state ≡ state_open
unfolding run step
open_absorbs [] c o = o
open_absorbs (t ∷ ts) c o = open_absorbs ts (step t fails c) (ground arith)

failing_from :
    (ts : List ℕ) (n : ℕ) (c : Circuit)
    → c.state ≡ state_closed
    → c.failures ≡ n
    → n < c.failure_threshold
    → (run (failing ts) c).state
      ≡ (if leb c.failure_threshold (n + length ts) then state_open else state_closed)
unfolding run step
failing_from [] n c s f h = ground arith
failing_from (t ∷ ts) n c s f h =
    ground (arith, failing_from ts (n + 1) (step t fails c), open_absorbs ts (step t fails c))

-- From a closed circuit with no failure counted, failures alone open it exactly when they are as
-- many as the threshold, and then it stays open.
pub failing-opens :
    (ts : List ℕ) (c : Circuit)
    → c.state ≡ state_closed
    → c.failures ≡ 0
    → 0 < c.failure_threshold
    → (run (failing ts) c).state
      ≡ (if leb c.failure_threshold (length ts) then state_open else state_closed)
failing-opens ts c s f h = ground (arith, failing_from ts 0 c s f h)
