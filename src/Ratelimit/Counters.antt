-- ===== src/Ratelimit/Counters.antt =====
-- What each operation of the limiter and of the storage does to the counters.
use nexus_ai_gateway.Common.{
  ℕ, ◌+◌, ◌-◌, ◌≤◌, ◌<◌, ◌⊎◌, ◌≡◌, true, false, ◌&&◌, String, arith, if◌then◌else◌, str_eq,
}
use text.Mathlib.TextEquality.{eq_iff}
use nexus_ai_gateway.Common.Text.{str_append}
use nexus_ai_gateway.Common.Dict.{find-put}
use nexus_ai_gateway.Ratelimit.{
  InMemoryStorage, get_count, get_count_with_window, increment_count, increment_concurrent,
  decrement, decrement_concurrent, get_concurrent_count, acquire_burst,
}
use nexus_ai_gateway.Ratelimit.Sliding.{check}

pub get_count-increment_count :
    (now : ℕ) (key j : String) (window : ℕ) (s : InMemoryStorage)
    → get_count j (increment_count now key window s).0
      ≡ get_count j s + (if str_eq key j then 1 else 0)
unfolding get_count increment_count
get_count-increment_count now key j window s =
    ground (arith, eq_iff key j, find-put key j (get_count key s + 1) s.counters)

pub get_count-check :
    (now : ℕ) (key j : String) (limit window : ℕ) (s : InMemoryStorage)
    → get_count j (check now key limit window s).0
      ≡ get_count j s + (if str_eq key j && (check now key limit window s).1.allowed then 1 else 0)
unfolding check
get_count-check now key j limit window s =
    ground (arith, get_count-increment_count now key j window s)

-- A counter that has reached the limit refuses.
pub check-full :
    (now : ℕ) (key : String) (limit window : ℕ) (s : InMemoryStorage)
    → limit ≤ get_count key s
    → (check now key limit window s).1.allowed ≡ false
unfolding check get_count get_count_with_window
check-full now key limit window s h = ground arith

-- What is allowed does not take the counter over the limit.
pub check-room :
    (now : ℕ) (key : String) (limit window : ℕ) (s : InMemoryStorage)
    → (check now key limit window s).1.allowed ≡ true
    → get_count key s + 1 ≤ limit
unfolding check get_count get_count_with_window
check-room now key limit window s h = ground arith

pub get_count-decrement :
    (key j : String) (s : InMemoryStorage)
    → get_count j (decrement key s) ≡ get_count j s - (if str_eq key j then 1 else 0)
unfolding get_count decrement
get_count-decrement key j s =
    ground (arith, eq_iff key j, find-put key j (get_count key s - 1) s.counters)

get_count-increment_concurrent :
    (key j : String) (s : InMemoryStorage)
    → get_count j (increment_concurrent key s).0
      ≡ get_count j s + (if str_eq (str_append key ":concurrent") j then 1 else 0)
unfolding get_count increment_concurrent
get_count-increment_concurrent key j s =
    let k = str_append key ":concurrent" in
    ground (arith, eq_iff k j, find-put k j (get_count k s + 1) s.counters)

-- A slot that is taken and given back leaves the count of every key as it was.
pub get_concurrent_count-decrement :
    (key j : String) (s : InMemoryStorage)
    → get_concurrent_count j (decrement_concurrent key (increment_concurrent key s).0)
      ≡ get_concurrent_count j s
unfolding get_concurrent_count decrement_concurrent
get_concurrent_count-decrement key j s =
    let k = str_append key ":concurrent" in
    let i = str_append j ":concurrent" in
    omega (
      arith,
      get_count-decrement k i (increment_concurrent key s).0,
      get_count-increment_concurrent key i s,
    )

pub get_count-acquire_burst :
    (key j : String) (max_burst : ℕ) (s : InMemoryStorage)
    → get_count j (acquire_burst key max_burst s).0
      ≡ get_count j s
        + (if str_eq (str_append key ":burst") j && (acquire_burst key max_burst s).1 then 1 else 0)
unfolding get_count acquire_burst
get_count-acquire_burst key j max_burst s =
    let k = str_append key ":burst" in
    ground
      (arith, eq_iff k j, find-put k j 1 s.counters, find-put k j (get_count k s + 1) s.counters)

-- A slot is given only below the limit, or as the first of its key.
pub acquire_burst-room :
    (key : String) (max_burst : ℕ) (s : InMemoryStorage)
    → (acquire_burst key max_burst s).1 ≡ true
    → (get_count (str_append key ":burst") s < max_burst)
      ⊎ (get_count (str_append key ":burst") s ≡ 0)
unfolding get_count acquire_burst
acquire_burst-room key max_burst s h = ground arith
