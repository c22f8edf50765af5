-- ===== src/Channel/Router.antt =====
-- internal/channel/router.go: the circuit breaker of the channels and the selection of a channel.
-- A Go map that is read with its zero value where a key is missing is a function here, and
-- `delete` writes the zero value. The clock is read once for each call. `ListActive` is a query of
-- the database, and its answer is an argument; so is `rand.Intn`, as the function `draw`.
use nexus_ai_gateway.Common.{
  ℕ, ◌+◌, ◌*◌, Bool, true, false, List, [], ◌∷◌, String, leb, ltb, ◌==◌, if◌then◌else◌, map, zero,
  suc,
}
use nexus_ai_gateway.Common.Clock.{elapsed_more, second}
use nexus_ai_gateway.Channel.{Channel, ChannelError, not_found, inactive, is_model_supported}

pub data BreakerState : Type 0 where
  circuit_closed circuit_open circuit_half_open : BreakerState

abbrev pub circuit_failure_threshold : ℕ
circuit_failure_threshold = 5

abbrev pub circuit_open_duration : ℕ
circuit_open_duration = 30 * second

pub record Breaker : Type 0 where
  pub states : ℕ → BreakerState
  pub failure_counts : ℕ → ℕ
  pub last_failure : ℕ → ℕ
  pub half_open_max : ℕ

unfoldable pub new_breaker : Breaker
new_breaker = record {
  states = λ _. circuit_closed;
  failure_counts = λ _. 0;
  last_failure = λ _. 0;
  half_open_max = 3;
}

abbrev pub update {ℓ} : {A : Type ℓ} → (ℕ → A) → ℕ → A → ℕ → A
update f k v j = if k == j then v else f j

abbrev pub is_open : BreakerState → Bool
is_open circuit_open = true
is_open _ = false

abbrev pub is_half_open : BreakerState → Bool
is_half_open circuit_half_open = true
is_half_open _ = false

-- The body of the filtering loop for one channel: the breaker after it, and whether the channel is
-- appended.
unfoldable pub try_channel : ℕ → String → Channel → Breaker → Breaker × Bool
unfolding is_model_supported
try_channel now model ch b =
    if is_model_supported model ch
    then (if is_open (b.states ch.id)
        then (if elapsed_more now (b.last_failure ch.id) circuit_open_duration
            then (
              record b {
                states = update b.states ch.id circuit_half_open;
                failure_counts = update b.failure_counts ch.id 0;
              },
              true,
            )
            else (b, false))
        else (b, true))
    else (b, false)

abbrev keep_if : Bool → Channel → List Channel → List Channel
keep_if true ch rest = ch ∷ rest
keep_if false ch rest = rest

-- The filtering loop.
unfoldable pub filter_eligible : ℕ → String → List Channel → Breaker → Breaker × List Channel
filter_eligible now model [] b = (b, [])
filter_eligible now model (ch ∷ chs) b =
    let (b', keep) = try_channel now model ch b in
    let (b'', rest) = filter_eligible now model chs b' in (b'', keep_if keep ch rest)

abbrev pub weight : Channel → ℕ
weight ch = ch.priority * ch.ratio

unfoldable pub total_weight : List Channel → ℕ
total_weight [] = 0
total_weight (ch ∷ chs) = weight ch + total_weight chs

-- The last loop of `weightedRandomSelect`; `last` is the channel seen last.
unfoldable pub pick_from : ℕ → ℕ → Channel → List Channel → Channel
pick_from r cumulative last [] = last
pick_from r cumulative last (ch ∷ chs) =
    let rest = pick_from r (cumulative + weight ch) ch chs in
    if ltb r (cumulative + weight ch) then ch else rest

-- The callers hand over a list that is not empty: its first channel and the others.
unfoldable pub weighted_random_select : (ℕ → ℕ) → Channel → List Channel → Channel
unfolding total_weight pick_from
weighted_random_select draw ch [] = ch
weighted_random_select draw ch (ch' ∷ chs) =
    let all = ch ∷ ch' ∷ chs in
    if total_weight all == 0 then ch else pick_from (draw (total_weight all)) 0 ch all

pub data Selected : Type 0 where
  selected : Channel → Selected
  refused : ChannelError → Selected

-- What `ListActive` answers.
pub data Listing : Type 0 where
  listed : List Channel → Listing
  failed : ChannelError → Listing

abbrev pub choose : (ℕ → ℕ) → List Channel → Selected
choose draw [] = refused inactive
choose draw (ch ∷ chs) = selected (weighted_random_select draw ch chs)

-- One step: the loop of the code gives up the read lock to write where it turns a circuit half-open,
-- and what other callers do there is left out.
unfoldable pub select_channel : ℕ → (ℕ → ℕ) → String → Listing → Breaker → Breaker × Selected
select_channel now draw model (failed e) b = (b, refused e)
select_channel now draw model (listed []) b = (b, refused not_found)
select_channel now draw model (listed (ch ∷ chs)) b =
    let (b', eligible) = filter_eligible now model (ch ∷ chs) b in (b', choose draw eligible)

unfoldable pub record_success : ℕ → Breaker → Breaker
record_success id b =
    let cleared = record b { failure_counts = update b.failure_counts id 0 } in
    if is_half_open (cleared.states id)
    then record cleared { states = update cleared.states id circuit_closed }
    else cleared

unfoldable pub record_failure : ℕ → ℕ → Breaker → Breaker
record_failure now id b =
    let counted = record b {
      failure_counts = update b.failure_counts id (b.failure_counts id + 1);
      last_failure = update b.last_failure id now;
    } in
    if leb circuit_failure_threshold (counted.failure_counts id)
    then record counted { states = update counted.states id circuit_open }
    else counted

unfoldable pub reset_circuit : ℕ → Breaker → Breaker
reset_circuit id b = record b {
  states = update b.states id circuit_closed;
  failure_counts = update b.failure_counts id 0;
  last_failure = update b.last_failure id 0;
}

-- The rounds of the loop of `SelectWithFailover` that are left: what each round's selection is
-- given is `inputs`.
pub record Inputs : Type 0 where
  pub now : ℕ
  pub draw : ℕ → ℕ
  pub listing : Listing

-- The case of the loop's body: an error returns, a channel only counts the attempt.
abbrev pub after_select : Breaker × Selected → (Breaker → Breaker × Selected) → Breaker × Selected
after_select (b, refused e) next = (b, refused e)
after_select (b, selected ch) next = next b

unfoldable pub select_with_failover : String → ℕ → (ℕ → Inputs) → Breaker → Breaker × Selected
select_with_failover model zero inputs b = (b, refused inactive)
select_with_failover model (suc left) inputs b =
    let i = inputs left in
    after_select (select_channel i.now i.draw model i.listing b)
      (select_with_failover model left inputs)

pub record HealthStats : Type 0 where
  pub channel_id : ℕ
  pub name : String
  pub state : String
  pub failure_count : ℕ
  pub last_failure : ℕ

abbrev pub state_string : BreakerState → String
state_string circuit_open = "open"
state_string circuit_half_open = "half_open"
state_string circuit_closed = "closed"

unfoldable pub get_health_stats : List Channel → Breaker → List HealthStats
get_health_stats chs b =
    map
      (λ ch. record {
        channel_id = ch.id;
        name = ch.name;
        state = state_string (b.states ch.id);
        failure_count = b.failure_counts ch.id;
        last_failure = b.last_failure ch.id;
      })
      chs
