-- ===== src/Channel/Health.antt =====
-- The circuits of the channels over any calls: an invariant, and when a circuit opens.
use nexus_ai_gateway.Common.{
  ℕ, ◌+◌, ◌<◌, ◌≤◌, ◌≡◌, true, false, List, [], ◌∷◌, String, arith, leb, length, if◌then◌else◌, map,
}
use nexus_ai_gateway.Channel.{Channel}
use nexus_ai_gateway.Channel.Router.{
  Breaker, Listing, listed, failed, is_open, circuit_failure_threshold, new_breaker, try_channel,
  filter_eligible, select_channel, record_success, record_failure, reset_circuit,
}

-- The calls of the router that change the breaker.
pub data Event : Type 0 where
  selects : (ℕ → ℕ) → String → Listing → Event
  succeeds fails resets : ℕ → Event

unfoldable pub step : ℕ → Event → Breaker → Breaker
step now (selects draw model listing) b = (select_channel now draw model listing b).0
step now (succeeds id) b = record_success id b
step now (fails id) b = record_failure now id b
step now (resets id) b = reset_circuit id b

unfoldable pub run : List (ℕ × Event) → Breaker → Breaker
run [] b = b
run ((now, e) ∷ es) b = run es (step now e b)

-- A circuit that is not open has counted fewer failures than open it.
abbrev pub Short : Breaker → Type 0
Short b = (id : ℕ) → is_open (b.states id) ≡ false → b.failure_counts id < circuit_failure_threshold

try_channel-Short :
    (now : ℕ) (model : String) (ch : Channel) (b : Breaker)
    → Short b
    → Short (try_channel now model ch b).0
unfolding try_channel
try_channel-Short now model ch b h id o = ground (arith, h id)

filter_eligible-Short :
    (now : ℕ) (model : String) (chs : List Channel) (b : Breaker)
    → Short b
    → Short (filter_eligible now model chs b).0
unfolding filter_eligible
filter_eligible-Short now model [] b h = h
filter_eligible-Short now model (ch ∷ chs) b h =
    filter_eligible-Short now model chs (try_channel now model ch b).0
      (try_channel-Short now model ch b h)

select_channel-Short :
    (now : ℕ) (draw : ℕ → ℕ) (model : String) (l : Listing) (b : Breaker)
    → Short b
    → Short (select_channel now draw model l b).0
unfolding select_channel
select_channel-Short now draw model (failed e) b h = h
select_channel-Short now draw model (listed []) b h = h
select_channel-Short now draw model (listed (ch ∷ chs)) b h =
    filter_eligible-Short now model (ch ∷ chs) b h

record_success-Short : (id : ℕ) (b : Breaker) → Short b → Short (record_success id b)
unfolding record_success
record_success-Short id b h j o = ground (arith, h j)

record_failure-Short : (now id : ℕ) (b : Breaker) → Short b → Short (record_failure now id b)
unfolding record_failure
record_failure-Short now id b h j o = ground (arith, h j)

reset_circuit-Short : (id : ℕ) (b : Breaker) → Short b → Short (reset_circuit id b)
unfolding reset_circuit
reset_circuit-Short id b h j o = ground (arith, h j)

step-Short : (now : ℕ) (e : Event) (b : Breaker) → Short b → Short (step now e b)
unfolding step
step-Short now (selects draw model l) b h = select_channel-Short now draw model l b h
step-Short now (succeeds id) b h = record_success-Short id b h
step-Short now (fails id) b h = record_failure-Short now id b h
step-Short now (resets id) b h = reset_circuit-Short id b h

run-Short_from : (es : List (ℕ × Event)) (b : Breaker) → Short b → Short (run es b)
unfolding run
run-Short_from [] b h = h
run-Short_from ((now, e) ∷ es) b h = run-Short_from es (step now e b) (step-Short now e b h)

-- After any calls on a new breaker, a channel whose circuit is not open has fewer failures counted
-- than the threshold.
pub run-Short : (es : List (ℕ × Event)) → Short (run es new_breaker)
unfolding new_breaker
run-Short es = run-Short_from es new_breaker (λ id o. omega arith)

abbrev pub failing : ℕ → List ℕ → List (ℕ × Event)
failing id = map (λ t. (t, fails id))

fails-counts :
    (now id : ℕ) (b : Breaker)
    → let d = step now (fails id) b in
      (d.failure_counts id ≡ b.failure_counts id + 1)
      × (is_open (d.states id) ≡ (
          if leb circuit_failure_threshold (b.failure_counts id + 1)
          then true
          else is_open (b.states id)))
unfolding step record_failure
fails-counts now id b = ground arith

stays_open :
    (id : ℕ) (ts : List ℕ) (b : Breaker)
    → circuit_failure_threshold ≤ b.failure_counts id
    → is_open (b.states id) ≡ true
    → is_open ((run (failing id ts) b).states id) ≡ true
unfolding run
stays_open id [] b n o = o
stays_open id (t ∷ ts) b n o =
    let (c, s) = fails-counts t id b in
    stays_open id ts (step t (fails id) b) (omega (arith, c)) (ground (arith, s))

-- From a circuit that is not open, closed or half-open alike, failures of its channel open it
-- exactly when they and those counted before reach the threshold: a half-open circuit does not
-- open at its first failure.
pub failures_open :
    (id : ℕ) (ts : List ℕ) (b : Breaker)
    → is_open (b.states id) ≡ false
    → b.failure_counts id < circuit_failure_threshold
    → is_open ((run (failing id ts) b).states id)
      ≡ leb circuit_failure_threshold (b.failure_counts id + length ts)
unfolding run
failures_open id [] b o n = ground arith
failures_open id (t ∷ ts) b o n =
    let (c, s) = fails-counts t id b in
    ground (
      arith,
      c,
      s,
      failures_open id ts (step t (fails id) b),
      stays_open id ts (step t (fails id) b),
    )
