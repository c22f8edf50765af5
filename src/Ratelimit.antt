-- ===== src/Ratelimit.antt =====
-- internal/ratelimit/storage.go: `InMemoryStorage`, the storage of the tiered rate limits, which
-- `RedisStorage` hands every call to. No operation of either returns an error, so the model has no
-- result for one. A counter is an `int64` that carries no negative value and does not wrap; the
-- limiter and the manager are in the modules below.
pub mod Sliding
pub mod Tiers
pub mod Manager
pub mod Counters
pub mod Lifetime
pub mod Scopes
pub mod Tests
use nexus_ai_gateway.Common.{
  ℕ, ◌+◌, ◌-◌, Bool, true, false, not, ◌&&◌, Option, none, some, List, [], ◌∷◌, String, leb, ltb,
  if◌then◌else◌, select, length,
}
use nexus_ai_gateway.Common.Clock.{second, after, before}
use nexus_ai_gateway.Common.Text.{str_append}
use nexus_ai_gateway.Common.Dict.{Dict, find, put, delete}
use text.Mathlib.Text.{starts_with}

pub record Entry : Type 0 where
  pub timestamp : ℕ
  pub count : ℕ

-- `entries` is the field `data`. `timers` stands for the goroutines that `SetCount` starts: when each removes a key.
pub record InMemoryStorage : Type 0 where
  pub entries : Dict Entry
  pub counters : Dict ℕ
  pub timers : List (ℕ × String)

unfoldable pub new_in_memory_storage : InMemoryStorage
new_in_memory_storage = record { entries = []; counters = []; timers = [] }

unfoldable pub get_count : String → InMemoryStorage → ℕ
get_count key s = elim (find key s.counters) [ some c ↦ c | none ↦ 0 ]

-- An instant before the zero time is the zero time.
unfoldable pub clean_old_entries : String → ℕ → Dict Entry → Dict Entry
clean_old_entries key window_start entries =
    select (λ e. not (starts_with e.0 key && before e.1.timestamp window_start)) entries

unfoldable pub entry_count : String → Dict Entry → ℕ
entry_count key entries = elim (find key entries) [ some e ↦ e.count | none ↦ 0 ]

unfoldable pub increment_count : ℕ → String → ℕ → InMemoryStorage → InMemoryStorage × ℕ
increment_count now key window s =
    let entries = clean_old_entries key (now - window) s.entries in
    let count = entry_count key entries + 1 in
    (
      record s {
        entries = put key (record { timestamp = now; count = count }) entries;
        counters = put key (get_count key s + 1) s.counters;
      },
      count,
    )

-- The loop of `GetCountWithWindow`.
unfoldable pub sum_entries : String → ℕ → ℕ → Dict Entry → ℕ
sum_entries key window_start window_end [] = 0
sum_entries key window_start window_end ((k, e) ∷ entries) =
    let rest = sum_entries key window_start window_end entries in
    if starts_with k key
      && after e.timestamp window_start
      && before e.timestamp (window_end + second)
    then e.count + rest
    else rest

unfoldable pub get_count_with_window : String → ℕ → ℕ → InMemoryStorage → ℕ
get_count_with_window key window_start window_end s = elim (find key s.counters) [
  | some c ↦ c
  | none ↦ sum_entries key window_start window_end s.entries
]

unfoldable pub set_count : ℕ → String → ℕ → ℕ → InMemoryStorage → InMemoryStorage
set_count now key count expiration s = record s {
  counters = put key count s.counters;
  timers = if ltb 0 expiration then (now + expiration, key) ∷ s.timers else s.timers;
}

-- The goroutines whose time has come remove their keys.
delete_due : ℕ → List (ℕ × String) → Dict ℕ → Dict ℕ
delete_due now [] m = m
delete_due now ((at, key) ∷ ts) m =
    let rest = delete_due now ts m in if leb at now then delete key rest else rest

unfoldable pub fire_timers : ℕ → InMemoryStorage → InMemoryStorage
unfolding delete_due
fire_timers now s = record s {
  counters = delete_due now s.timers s.counters;
  timers = select (λ t. not (leb t.0 now)) s.timers;
}

-- The subtraction on ℕ stops at 0, as the code's test does.
unfoldable pub get_remaining : String → ℕ → InMemoryStorage → ℕ
get_remaining key limit s = limit - get_count key s

-- The code does not read the time to live.
unfoldable pub acquire_burst : String → ℕ → InMemoryStorage → InMemoryStorage × Bool
acquire_burst key max_burst s = elim (find (str_append key ":burst") s.counters) [
  | none ↦ (record s { counters = put (str_append key ":burst") 1 s.counters }, true)
  | some count ↦
      if leb max_burst count
      then (s, false)
      else (record s { counters = put (str_append key ":burst") (count + 1) s.counters }, true)
]

-- `if !exists || count <= 0 { return }`, and the decrement.
unfoldable pub decrement : String → InMemoryStorage → InMemoryStorage
decrement key s = elim (find key s.counters) [
  | none ↦ s
  | some count ↦ if leb count 0 then s else record s { counters = put key (count - 1) s.counters }
]

unfoldable pub release_burst : String → InMemoryStorage → InMemoryStorage
unfolding decrement
release_burst key s = decrement (str_append key ":burst") s

unfoldable pub increment_concurrent : String → InMemoryStorage → InMemoryStorage × ℕ
increment_concurrent key s =
    let count = get_count (str_append key ":concurrent") s + 1 in
    (record s { counters = put (str_append key ":concurrent") count s.counters }, count)

unfoldable pub decrement_concurrent : String → InMemoryStorage → InMemoryStorage
unfolding decrement
decrement_concurrent key s = decrement (str_append key ":concurrent") s

unfoldable pub get_concurrent_count : String → InMemoryStorage → ℕ
get_concurrent_count key s = get_count (str_append key ":concurrent") s

-- `Close` ends the goroutines.
unfoldable pub close : InMemoryStorage → InMemoryStorage
close s = new_in_memory_storage

-- `Clear` does not.
unfoldable pub clear : InMemoryStorage → InMemoryStorage
clear s = record s { entries = []; counters = [] }

-- The numbers of entries and of counters.
unfoldable pub get_stats : InMemoryStorage → ℕ × ℕ
get_stats s = (length s.entries, length s.counters)
