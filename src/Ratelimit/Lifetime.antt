-- ===== src/Ratelimit/Lifetime.antt =====
-- Long runs over the in-memory storage: checks at any times, and burst slots taken and given back.
use nexus_ai_gateway.Common.{
  ℕ, suc, ◌+◌, ◌-◌, ◌≤◌, ◌≡◌, Bool, true, false, ◌&&◌, List, [], ◌∷◌, String, arith, subst, refl,
  if◌then◌else◌, str_eq, Bool-cases, inl, inr,
}
use text.Mathlib.TextEquality.{eq_iff}
use nexus_ai_gateway.Common.Dict.{find}
use nexus_ai_gateway.Common.Text.{str_append}
use nexus_ai_gateway.Ratelimit.{
  InMemoryStorage, new_in_memory_storage, get_count, acquire_burst, release_burst,
}
use nexus_ai_gateway.Ratelimit.Sliding.{check}
use nexus_ai_gateway.Ratelimit.Counters.{
  get_count-check, check-full, check-room, get_count-acquire_burst, acquire_burst-room,
  get_count-decrement,
}

get_count-new : (key : String) → get_count key new_in_memory_storage ≡ 0
unfolding get_count new_in_memory_storage find
get_count-new key = refl

module _ (limit window : String → ℕ) where
  -- Checks of keys at times, each key with its own limit and window.
  unfoldable pub run : List (ℕ × String) → InMemoryStorage → InMemoryStorage
  run [] s = s
  run ((now, key) ∷ cs) s = run cs (check now key (limit key) (window key) s).0

  -- How many checks of a key are allowed.
  unfoldable pub served : String → List (ℕ × String) → InMemoryStorage → ℕ
  served key [] s = 0
  served key ((now, k) ∷ cs) s =
      let rest = served key cs (check now k (limit k) (window k) s).0 in
      if str_eq k key && (check now k (limit k) (window k) s).1.allowed then suc rest else rest

  count-run :
      (key : String) (cs : List (ℕ × String)) (s : InMemoryStorage)
      → get_count key (run cs s) ≡ get_count key s + served key cs s
  unfolding run served
  count-run key [] s = omega arith
  count-run key ((now, k) ∷ cs) s = ground (
    arith,
    get_count-check now k key (limit k) (window k) s,
    count-run key cs (check now k (limit k) (window k) s).0,
  )

  check_under :
      (now : ℕ) (k key : String) (s : InMemoryStorage)
      → get_count key s ≤ limit key
      → get_count key (check now k (limit k) (window k) s).0 ≤ limit key
  check_under now k key s h = elim (Bool-cases (str_eq k key)) [
    | inl same ↦
        subst
          (λ j.
            get_count j s ≤ limit j → get_count j (check now k (limit k) (window k) s).0 ≤ limit j)
          ((eq_iff k key).0 same)
          (λ l. ground (
            arith,
            get_count-check now k k (limit k) (window k) s,
            check-room now k (limit k) (window k) s,
          ))
          h
    | inr other ↦ ground (arith, get_count-check now k key (limit k) (window k) s)
  ]

  run_under :
      (key : String) (cs : List (ℕ × String)) (s : InMemoryStorage)
      → get_count key s ≤ limit key
      → get_count key (run cs s) ≤ limit key
  unfolding run
  run_under key [] s h = h
  run_under key ((now, k) ∷ cs) s h =
      run_under key cs (check now k (limit k) (window k) s).0 (check_under now k key s h)

  -- From a new storage on a key is never allowed more often than its limit, in all the time that
  -- the checks take, if each check ends before the next one starts.
  pub lifetime_bound :
      (key : String) (cs : List (ℕ × String)) → served key cs new_in_memory_storage ≤ limit key
  lifetime_bound key cs = omega (
    arith,
    count-run key cs new_in_memory_storage,
    run_under key cs new_in_memory_storage (omega (arith, get_count-new key)),
    get_count-new key,
  )

  -- A key whose counter has reached its limit is refused at every later time, after any checks.
  pub exhausted_stays :
      (key : String) (now : ℕ) (cs : List (ℕ × String)) (s : InMemoryStorage)
      → limit key ≤ get_count key s
      → (check now key (limit key) (window key) (run cs s)).1.allowed ≡ false
  exhausted_stays key now cs s h =
      check-full now key (limit key) (window key) (run cs s) (omega (arith, count-run key cs s))

-- A burst slot is taken (true) or given back (false) for a key.
unfoldable pub run_bursts : ℕ → List (Bool × String) → InMemoryStorage → InMemoryStorage
run_bursts most [] s = s
run_bursts most ((true, key) ∷ es) s = run_bursts most es (acquire_burst key most s).0
run_bursts most ((false, key) ∷ es) s = run_bursts most es (release_burst key s)

module _ (most : ℕ) where
  acquire_burst_under :
      (key j : String) (bound : ℕ) (s : InMemoryStorage)
      → most ≤ bound
      → 1 ≤ bound
      → get_count j s ≤ bound
      → get_count j (acquire_burst key most s).0 ≤ bound
  acquire_burst_under key j bound s m o h =
      let k = str_append key ":burst" in
      elim (Bool-cases (str_eq k j)) [
        | inl same ↦
            subst (λ i. get_count i s ≤ bound → get_count i (acquire_burst key most s).0 ≤ bound)
              ((eq_iff k j).0 same)
              (λ l.
                ground (arith, get_count-acquire_burst key k most s, acquire_burst-room key most s))
              h
        | inr other ↦ ground (arith, get_count-acquire_burst key j most s)
      ]

  run_bursts_under :
      (j : String) (bound : ℕ) (es : List (Bool × String)) (s : InMemoryStorage)
      → most ≤ bound
      → 1 ≤ bound
      → get_count j s ≤ bound
      → get_count j (run_bursts most es s) ≤ bound
  unfolding run_bursts release_burst
  run_bursts_under j bound [] s m o h = h
  run_bursts_under j bound ((true, key) ∷ es) s m o h =
      run_bursts_under j bound es (acquire_burst key most s).0 m o
        (acquire_burst_under key j bound s m o h)
  run_bursts_under j bound ((false, key) ∷ es) s m o h =
      run_bursts_under j bound es (release_burst key s) m o
        (omega (arith, get_count-decrement (str_append key ":burst") j s))

  -- From a new storage on the burst slots that a key holds are at most the limit, or one for
  -- limit 0, after any slots taken and given back for any keys.
  pub burst_bound :
      (key : String) (es : List (Bool × String))
      → get_count (str_append key ":burst") (run_bursts most es new_in_memory_storage)
        ≤ most + (1 - most)
  burst_bound key es =
      run_bursts_under (str_append key ":burst") (most + (1 - most)) es new_in_memory_storage
        (omega arith) (omega arith) (omega (arith, get_count-new (str_append key ":burst")))
