-- ===== src/Rate/Counter.antt =====
-- What a check of the in-memory storage makes of the counter of its key and of the others.
use nexus_ai_gateway.Common.{
  ℕ, ◌+◌, ◌≡◌, Bool, true, false, Option, none, some, String, arith, leb, if◌then◌else◌, inl, inr,
  str_eq, Option-cases,
}
use nexus_ai_gateway.Common.Dict.{find, find-put_self, find-put_other}
use nexus_ai_gateway.Rate.{MemoryStorage, RateCounter, live_counter, memory_check}

-- What a check makes of the counter of its key.
unfoldable pub next_counter : ℕ → ℕ → ℕ → Option RateCounter → Bool × Option RateCounter
next_counter now limit window c = elim (live_counter now c) [
  | none ↦ (true, some (record { count = 1; window_end = now + window }))
  | some d ↦
      if leb limit d.count
      then (false, c)
      else (true, some (record { count = d.count + 1; window_end = d.window_end }))
]

pub check_lem :
    (now : ℕ) (key : String) (limit window : ℕ) (s : MemoryStorage)
    → let (s', a) = memory_check now key limit window s in
      let (ok, c) = next_counter now limit window (find key s.counters) in
      (a.allowed ≡ ok) × (find key s'.counters ≡ c)
unfolding memory_check next_counter
check_lem now key limit window s =
    let started = find-put_self key (record { count = 1; window_end = now + window }) s.counters in
    elim (Option-cases (find key s.counters)) [
      | inl e ↦ ground (arith, e, started)
      | inr (c, e) ↦ ground (
        arith,
        e,
        started,
        find-put_self key (record { count = c.count + 1; window_end = c.window_end }) s.counters,
      )
    ]

pub check_other :
    (now : ℕ) (q key : String) (limit window : ℕ) (s : MemoryStorage)
    → str_eq q key ≡ false
    → find key (memory_check now q limit window s).0.counters ≡ find key s.counters
unfolding memory_check
check_other now q key limit window s h =
    let started =
      find-put_other q key (record { count = 1; window_end = now + window }) s.counters h in
    elim (Option-cases (find q s.counters)) [
      | inl e ↦ ground (arith, e, started)
      | inr (c, e) ↦ ground (
        arith,
        e,
        started,
        find-put_other q key (record { count = c.count + 1; window_end = c.window_end }) s.counters
            h,
      )
    ]
