-- ===== src/Rate/Window.antt =====
-- The fixed windows of the in-memory storage: how many requests of one key are allowed in any
-- interval as long as the window.
use mathlib.Core.List.{append-nil, append_assoc}
use text.Mathlib.TextEquality.{eq_iff}
use nexus_ai_gateway.Common.{
  ℕ, ◌+◌, ◌<◌, ◌≤◌, ◌≡◌, ◌⊎◌, refl, Bool, true, false, Option, none, some, List, [], ◌∷◌, ◌++◌,
  String, arith, leb, ltb, ◌==◌, if◌then◌else◌, count_if, Bool-cases, inl, inr, str_eq,
}
use nexus_ai_gateway.Common.Dict.{find}
use nexus_ai_gateway.Rate.{MemoryStorage, RateCounter, new_memory_storage, memory_check}
use nexus_ai_gateway.Rate.Counter.{next_counter, check_lem, check_other}
use nexus_ai_gateway.Rate.Tally.{
  in_window, Tally, Tally-first, Tally-later, Tally-counted, Tally-restarted,
}

-- A window allows its first request whatever the limit is.
abbrev pub at_least_one : ℕ → ℕ
at_least_one limit = if limit == 0 then 1 else limit

-- The counter of a key that was allowed at `past`.
abbrev Tallied : ℕ → ℕ → ℕ → List ℕ → Option RateCounter → Type 0
Tallied most window last past c =
    ((c ≡ none) × (past ≡ []))
    ⊎ ((start : ℕ) × (count : ℕ) × (c
          ≡ some (record { count = count; window_end = start + window }))
        × Tally most window last start count past)

abbrev past_after : Bool → ℕ → List ℕ → List ℕ
past_after ok now past = if ok then past ++ now ∷ [] else past

module _ (now limit window start count : ℕ) where
  abbrev current : Option RateCounter
  current = some (record { count = count; window_end = start + window })

  abbrev counter_of : ℕ → ℕ → Option RateCounter
  counter_of start' count' = some (record { count = count'; window_end = start' + window })

  next_over :
      start + window < now → next_counter now limit window current ≡ (true, counter_of now 1)
  unfolding next_counter
  next_over h = ground arith

  next_full :
      now ≤ start + window
      → limit ≤ count
      → next_counter now limit window current ≡ (false, current)
  unfolding next_counter
  next_full h f = ground arith

  next_room :
      now ≤ start + window
      → count < limit
      → next_counter now limit window current ≡ (true, counter_of start (count + 1))
  unfolding next_counter
  next_room h f = ground arith

Tallied-next :
    (limit window last now : ℕ) (past : List ℕ) (c : Option RateCounter)
    → last ≤ now
    → Tallied (at_least_one limit) window last past c
    → let (ok, c') = next_counter now limit window c in
      Tallied (at_least_one limit) window now (past_after ok now past) c'
Tallied-next limit window last now past c l (inl (e, f)) =
    rw (e, f)
      (unfold next_counter in
        inr (now, 1, refl, Tally-first (at_least_one limit) window now (ground arith)))
Tallied-next limit window last now past c l (inr (start, count, e, t)) =
    elim (Bool-cases (ltb (start + window) now)) [
      | inl over ↦
          rw (e, next_over now limit window start count (ground arith))
            (inr (
              now,
              1,
              refl,
              Tally-restarted (at_least_one limit) window last start count now past (ground arith)
                  (ground arith) t,
            ))
      | inr live ↦ elim (Bool-cases (leb limit count)) [
        | inl full ↦
            rw (e, next_full now limit window start count (ground arith) (ground arith))
              (inr (
                start,
                count,
                refl,
                Tally-later (at_least_one limit) window last start count now past l t,
              ))
        | inr room ↦
            rw (e, next_room now limit window start count (ground arith) (ground arith))
              (inr (
                start,
                count + 1,
                refl,
                Tally-counted (at_least_one limit) window last start count now past l (ground arith)
                    (ground arith) t,
              ))
      ]
    ]

Tallied-later :
    (most window last now : ℕ) (past : List ℕ) (c : Option RateCounter)
    → last ≤ now
    → Tallied most window last past c
    → Tallied most window now past c
Tallied-later most window last now past c l (inl h) = inl h
Tallied-later most window last now past c l (inr (start, count, e, t)) =
    inr (start, count, e, Tally-later most window last start count now past l t)

-- The times of the calls do not fall.
abbrev pub InOrder : ℕ → List (ℕ × String) → Type 0
InOrder last [] = Unit {0}
InOrder last ((now, _) ∷ es) = (last ≤ now) × InOrder now es

past_after-append :
    (ok : Bool) (t : ℕ) (past rest : List ℕ)
    → past_after ok t past ++ rest ≡ past ++ (if ok then t ∷ rest else rest)
past_after-append true t past rest = append_assoc past (t ∷ []) rest
past_after-append false t past rest = refl

-- Each key is checked with a limit and a window of its own.
module _ (limit window : String → ℕ) where
  -- The times at which a key is allowed.
  unfoldable pub allowed_at : String → List (ℕ × String) → MemoryStorage → List ℕ
  allowed_at key [] s = []
  allowed_at key ((now, q) ∷ es) s =
      let (s', a) = memory_check now q (limit q) (window q) s in
      let rest = allowed_at key es s' in
      if str_eq q key then (if a.allowed then now ∷ rest else rest) else rest

  total_from :
      (key : String) (es : List (ℕ × String)) (last : ℕ) (past : List ℕ) (s : MemoryStorage)
      → InOrder last es
      → Tallied (at_least_one (limit key)) (window key) last past (find key s.counters)
      → (start : ℕ)
      → count_if (in_window (window key) start) (past ++ allowed_at key es s) + 1
        ≤ at_least_one (limit key) + at_least_one (limit key)
  unfolding allowed_at
  total_from key [] last past s o (inl (e, f)) start = rw f (ground arith)
  total_from key [] last past s o (inr (first, count, e, t)) start = rw append-nil (t.total start)
  total_from key ((now, q) ∷ es) last past s o t start = elim (Bool-cases (str_eq q key)) [
    | inl same ↦
        let s' = (memory_check now key (limit key) (window key) s).0 in
        let ok = (memory_check now key (limit key) (window key) s).1.allowed in
        let (answer, counter) = check_lem now key (limit key) (window key) s in
        let next : Tallied (at_least_one (limit key)) (window key) now (past_after ok now past)
            (find key s'.counters) =
          rw (answer, counter)
            (Tallied-next (limit key) (window key) last now past (find key s.counters) o.0 t) in
        rw (same, (eq_iff q key).0 same)
          (rw (← past_after-append ok now past (allowed_at key es s'))
            (total_from key es now (past_after ok now past) s' o.1 next start))
    | inr other ↦
        let s' = (memory_check now q (limit q) (window q) s).0 in
        rw other (
          total_from key es now past s' o.1
            (rw (check_other now q key (limit q) (window q) s other) (
              Tallied-later (at_least_one (limit key)) (window key) last now past
                (find key s.counters) o.0 t))
            start)
  ]

-- In any interval as long as its window a key is allowed fewer requests than twice its limit (or
-- two, if the limit is 0), on a new storage, for any checks of this key and others, each key with a
-- limit and a window of its own, if the times of the checks do not fall.
pub twice_limit_bound :
    (limit window : String → ℕ) (key : String) (es : List (ℕ × String)) (start : ℕ)
    → InOrder 0 es
    → count_if (in_window (window key) start) (allowed_at limit window key es new_memory_storage)
      < at_least_one (limit key) + at_least_one (limit key)
twice_limit_bound limit window key es start o = omega (
  arith,
  total_from limit window key es 0 [] new_memory_storage o
      (inl (unfold new_memory_storage find in (refl, refl))) start,
)
