-- ===== src/Retry/Breaker.antt =====
-- The breaker of the retries while it is open and while it is half-open.
use nexus_ai_gateway.Common.{ℕ, ◌+◌, ◌≤◌, ◌≡◌, Bool, true, false, List, [], ◌∷◌, refl, arith, All}
use nexus_ai_gateway.Retry.{
  CircuitState, circuit_closed, circuit_open, circuit_half_open, CircuitBreaker, allow, allow_in,
  record_success, record_success_in, record_failure, record_failure_in,
}

-- A call of one of the methods at a time; `Reset` is left to its callers.
pub data Call : Type 0 where
  allowing succeeding failing : ℕ → Call

abbrev pub time_of : Call → ℕ
time_of (allowing t) = t
time_of (succeeding t) = t
time_of (failing t) = t

unfoldable pub step : Call → CircuitBreaker → CircuitBreaker
step (allowing t) cb = (allow t cb).0
step (succeeding t) cb = record_success cb
step (failing t) cb = record_failure t cb

unfoldable pub run : List Call → CircuitBreaker → CircuitBreaker
run [] cb = cb
run (c ∷ cs) cb = run cs (step c cb)

abbrev pub Between : ℕ → ℕ → Call → Type 0
Between first last c = (first ≤ time_of c) × (time_of c ≤ last)

-- Open, with a time of failure in a range.
record Open (first d : ℕ) (cb : CircuitBreaker) : Type 0 where
  pub is_open : cb.state ≡ circuit_open
  pub failed : first ≤ cb.last_failure_time
  pub waits : cb.timeout ≡ d

step-Open :
    (first d : ℕ) (c : Call) (cb : CircuitBreaker)
    → Between first (first + d) c
    → Open first d cb
    → Open first d (step c cb)
unfolding step allow record_success record_failure allow_in record_success_in record_failure_in
step-Open first d (allowing t) cb b o = record {
  is_open = ground arith;
  failed = ground arith;
  waits = ground arith;
}
step-Open first d (succeeding t) cb b o = record {
  is_open = ground arith;
  failed = ground arith;
  waits = ground arith;
}
step-Open first d (failing t) cb b o = record {
  is_open = ground arith;
  failed = ground arith;
  waits = ground arith;
}

run-Open :
    (first d : ℕ) (cs : List Call) (cb : CircuitBreaker)
    → All (Between first (first + d)) cs
    → Open first d cb
    → Open first d (run cs cb)
unfolding run
run-Open first d [] cb a o = o
run-Open first d (c ∷ cs) cb (b, a) o =
    run-Open first d cs (step c cb) a (step-Open first d c cb b o)

-- An open breaker refuses at every time up to the end of its timeout after the last failure, that
-- time included, whatever calls but `Reset` come in between, from the failure on and not after
-- that end.
pub open_refuses :
    (now : ℕ) (cs : List Call) (cb : CircuitBreaker)
    → cb.state ≡ circuit_open
    → All (Between cb.last_failure_time (cb.last_failure_time + cb.timeout)) cs
    → now ≤ cb.last_failure_time + cb.timeout
    → (allow now (run cs cb)).1 ≡ false
unfolding allow allow_in
open_refuses now cs cb e a l =
    let o =
      run-Open cb.last_failure_time cb.timeout cs cb a
        (record { is_open = e; failed = omega arith; waits = refl }) in
    ground (arith, o.is_open, o.failed, o.waits)

abbrev pub is_open : CircuitState → Bool
is_open circuit_open = true
is_open circuit_closed = false
is_open circuit_half_open = false

abbrev pub is_failing : Call → Bool
is_failing (failing t) = true
is_failing (allowing t) = false
is_failing (succeeding t) = false

step_stays :
    (c : Call) (cb : CircuitBreaker)
    → is_failing c ≡ false
    → is_open cb.state ≡ false
    → is_open (step c cb).state ≡ false
unfolding step allow record_success allow_in record_success_in
step_stays (allowing t) cb n o = ground arith
step_stays (succeeding t) cb n o = ground arith
step_stays (failing t) cb n o = ground arith

run_stays :
    (cs : List Call) (cb : CircuitBreaker)
    → All (λ c. is_failing c ≡ false) cs
    → is_open cb.state ≡ false
    → is_open (run cs cb).state ≡ false
unfolding run
run_stays [] cb a o = o
run_stays (c ∷ cs) cb (n, a) o = run_stays cs (step c cb) a (step_stays c cb n o)

-- A closed or half-open breaker allows every request until a failure is recorded, however many
-- it has allowed before and whether or not their successes are in.
pub half_open_admits :
    (now : ℕ) (cs : List Call) (cb : CircuitBreaker)
    → is_open cb.state ≡ false
    → All (λ c. is_failing c ≡ false) cs
    → (allow now (run cs cb)).1 ≡ true
unfolding allow allow_in
half_open_admits now cs cb o a = ground (arith, run_stays cs cb a o)
