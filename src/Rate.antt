-- ===== src/Rate.antt =====
-- internal/rate/limiter.go: the in-memory storage of counters and limits. The limiter that uses a
-- storage, and what both promise, are in the modules below. Counts and limits carry no negative
-- value, and counts do not wrap.
pub mod Limiter
pub mod Counter
pub mod Tally
pub mod Window
pub mod Limits
pub mod Tests
use nexus_ai_gateway.Common.{
  ℕ, ◌+◌, ◌-◌, Bool, true, false, Option, none, some, [], leb, if◌then◌else◌, String,
}
use nexus_ai_gateway.Common.Clock.{after}
use nexus_ai_gateway.Common.Int.{ℤ, pos, sub_ℕ}
use nexus_ai_gateway.Common.Dict.{Dict, find, put}

pub record RateCounter : Type 0 where
  pub count : ℕ
  pub window_end : ℕ

pub record RateLimit : Type 0 where
  pub limit : ℕ
  pub window : ℕ

pub record MemoryStorage : Type 0 where
  pub counters : Dict RateCounter
  pub limits : Dict RateLimit

unfoldable pub new_memory_storage : MemoryStorage
new_memory_storage = record { counters = []; limits = [] }

-- The answers of `Check`: whether the request is allowed, how many remain, and after how long to
-- try again.
pub record CheckAnswer : Type 0 where
  pub allowed : Bool
  pub remaining : ℤ
  pub retry_after : ℕ

-- `!exists || now.After(counter.windowEnd)` is false: the counter that counts on.
abbrev pub live_counter : ℕ → Option RateCounter → Option RateCounter
live_counter now none = none
live_counter now (some c) = if after now c.window_end then none else some c

start_window : ℕ → String → ℕ → MemoryStorage → MemoryStorage
start_window now key window s = record s {
  counters = put key (record { count = 1; window_end = now + window }) s.counters;
}

count_on : String → RateCounter → MemoryStorage → MemoryStorage
count_on key c s = record s {
  counters = put key (record { count = c.count + 1; window_end = c.window_end }) s.counters;
}

unfoldable pub memory_check : ℕ → String → ℕ → ℕ → MemoryStorage → MemoryStorage × CheckAnswer
unfolding start_window count_on
memory_check now key limit window s = elim (live_counter now (find key s.counters)) [
  | none ↦ (
    start_window now key window s,
    record { allowed = true; remaining = sub_ℕ limit 1; retry_after = 0 },
  )
  | some c ↦
      if leb limit c.count
      then (s, record { allowed = false; remaining = pos 0; retry_after = c.window_end - now })
      else (
        count_on key c s,
        record { allowed = true; remaining = sub_ℕ limit (c.count + 1); retry_after = 0 },
      )
]

unfoldable pub memory_increment : ℕ → String → ℕ → MemoryStorage → MemoryStorage × ℕ
unfolding start_window count_on
memory_increment now key window s = elim (live_counter now (find key s.counters)) [
  | none ↦ (start_window now key window s, 1)
  | some c ↦ (count_on key c s, c.count + 1)
]

unfoldable pub memory_get_limit : String → MemoryStorage → ℕ
memory_get_limit key s = elim (find key s.limits) [ some l ↦ l.limit | none ↦ 0 ]

unfoldable pub memory_set_limit : String → ℕ → ℕ → MemoryStorage → MemoryStorage
memory_set_limit key limit window s = record s {
  limits = put key (record { limit = limit; window = window }) s.limits;
}
