-- ===== src/Circuit/Recovery.antt =====
-- An open circuit: how long it refuses, how it recovers, and what the half-open limit does.
use nexus_ai_gateway.Common.{
  ℕ, ◌+◌, ◌≤◌, ◌<◌, ◌≡◌, refl, sym, ap, subst, ◌≢◌, ◌∙◌, Bool, true, false, List, [], ◌∷◌, arith,
  ltb, ge→ltb, length, map, All,
}
use nexus_ai_gateway.Circuit.{
  Circuit, Event, state_closed, state_half_open, state_open, allows, succeeds, fails, resets, allow,
  step, run,
}

-- The answers of `Allow` along a list of calls.
pub answers : List (ℕ × Event) → Circuit → List Bool
answers [] c = []
answers ((now, allows) ∷ es) c = (allow now c).1 ∷ answers es (step now allows c)
answers ((now, succeeds) ∷ es) c = answers es (step now succeeds c)
answers ((now, fails) ∷ es) c = answers es (step now fails c)
answers ((now, resets) ∷ es) c = answers es (step now resets c)

abbrev pub AllAre : Bool → List Bool → Type 0
AllAre b = All (λ x. x ≡ b)

-- The calls come at times that do not fall, from `now` on and before `end`, and none is a reset.
abbrev pub Between : ℕ → ℕ → List (ℕ × Event) → Type 0
Between now end [] = Unit {0}
Between now end ((t, e) ∷ es) = (now ≤ t) × (t < end) × (e ≢ resets) × Between t end es

-- The circuit is open, and its open time lasts to `end` at least.
record Holds (now end : ℕ) (c : Circuit) : Type 0 where
  is_open : c.state ≡ state_open
  past : c.last_failure_time ≤ now
  lasts : end ≤ c.last_failure_time + c.open_duration

Holds-step :
    (now t end : ℕ) (e : Event) (c : Circuit)
    → now ≤ t
    → t < end
    → e ≢ resets
    → Holds now end c
    → Holds t end (step t e c)
unfolding step
Holds-step now t end allows c m l r h = ground arith
Holds-step now t end succeeds c m l r h = ground arith
Holds-step now t end fails c m l r h = ground arith
Holds-step now t end resets c m l r h = absurd (r refl)

Holds-allow : (now t end : ℕ) (c : Circuit) → t < end → Holds now end c → (allow t c).1 ≡ false
unfolding allow
Holds-allow now t end c l h = ground arith

fail_fast_from :
    (es : List (ℕ × Event)) (now end : ℕ) (c : Circuit)
    → Holds now end c
    → Between now end es
    → ((run es c).state ≡ state_open) × AllAre false (answers es c)
unfolding run answers
fail_fast_from [] now end c h b = (h.is_open, tt)
fail_fast_from ((t, allows) ∷ es) now end c h b =
    let (o, a) =
      fail_fast_from es t end (step t allows c) (Holds-step now t end allows c b.0 b.1 b.2 h) b.3 in
    (o, (Holds-allow now t end c b.1 h, a))
fail_fast_from ((t, succeeds) ∷ es) now end c h b =
    fail_fast_from es t end (step t succeeds c) (Holds-step now t end succeeds c b.0 b.1 b.2 h) b.3
fail_fast_from ((t, fails) ∷ es) now end c h b =
    fail_fast_from es t end (step t fails c) (Holds-step now t end fails c b.0 b.1 b.2 h) b.3
fail_fast_from ((t, resets) ∷ es) now end c h b = absurd (b.2 refl)

-- An open circuit stays open and refuses every request until its open duration has passed since
-- the last failure, whatever calls other than a reset come in between.
pub fail_fast :
    (c : Circuit) (es : List (ℕ × Event))
    → c.state ≡ state_open
    → Between c.last_failure_time (c.last_failure_time + c.open_duration) es
    → ((run es c).state ≡ state_open) × AllAre false (answers es c)
fail_fast c es o b =
    fail_fast_from es c.last_failure_time (c.last_failure_time + c.open_duration) c
      (record { is_open = o; past = omega arith; lasts = omega arith }) b

-- A request and its success, at each of the times.
abbrev pub rounds : List ℕ → List (ℕ × Event)
rounds [] = []
rounds (t ∷ ts) = (t, allows) ∷ (t, succeeds) ∷ rounds ts

round_step :
    (t n : ℕ) (c : Circuit)
    → c.state ≡ state_half_open
    → c.failures ≡ 0
    → c.successes ≡ n
    → n + 1 < c.success_threshold
    → n < c.half_open_max_calls
    → let d = step t succeeds (step t allows c) in
      ((allow t c).1 ≡ true)
      × (d.state ≡ state_half_open)
      × (d.failures ≡ 0)
      × (d.successes ≡ n + 1)
      × (d.config ≡ c.config)
unfolding step
round_step t n c s f m l h = ground arith

round_last :
    (t n : ℕ) (c : Circuit)
    → c.state ≡ state_half_open
    → c.failures ≡ 0
    → c.successes ≡ n
    → n + 1 ≡ c.success_threshold
    → c.success_threshold ≤ c.half_open_max_calls
    → let d = step t succeeds (step t allows c) in
      ((allow t c).1 ≡ true) × (d.state ≡ state_closed) × (d.failures ≡ 0)
unfolding step
round_last t n c s f m l h = ground arith

recovers_from :
    (ts : List ℕ) (t n : ℕ) (c : Circuit)
    → c.state ≡ state_half_open
    → c.failures ≡ 0
    → c.successes ≡ n
    → n + length (t ∷ ts) ≡ c.success_threshold
    → c.success_threshold ≤ c.half_open_max_calls
    → let d = run (rounds (t ∷ ts)) c in
      (d.state ≡ state_closed) × (d.failures ≡ 0) × AllAre true (answers (rounds (t ∷ ts)) c)
unfolding run answers
recovers_from [] t n c s f m l h =
    let (a, closed, zero') = round_last t n c s f m (omega arith) h in (closed, zero', (a, tt))
recovers_from (u ∷ ts) t n c s f m l h =
    let (a, s', f', m', k) = round_step t n c s f m (omega arith) (omega arith) in
    let (r, z, all) =
      recovers_from ts u (n + 1) (step t succeeds (step t allows c)) s' f' m' (ground arith)
        (ground arith) in
    (r, z, (a, all))

-- The first request after the open time makes the circuit half-open, and a second one at once
-- would change nothing.
reopen :
    (t : ℕ) (c : Circuit)
    → c.state ≡ state_open
    → c.last_failure_time + c.open_duration ≤ t
    → 0 < c.half_open_max_calls
    → let d = step t allows c in
      ((allow t c).1 ≡ true)
      × (d.state ≡ state_half_open)
      × (d.failures ≡ 0)
      × (d.successes ≡ 0)
      × (d.config ≡ c.config)
      × (step t allows d ≡ d)
unfolding step
reopen t c o e h = ground arith

-- An open circuit whose open time is over admits a request, and closes with no failure counted
-- when as many requests in a row as the success threshold have each been admitted and succeeded,
-- if that threshold is positive and no larger than the half-open limit.
pub recovers :
    (c : Circuit) (t : ℕ) (ts : List ℕ)
    → c.state ≡ state_open
    → c.last_failure_time + c.open_duration ≤ t
    → length (t ∷ ts) ≡ c.success_threshold
    → c.success_threshold ≤ c.half_open_max_calls
    → let d = run (rounds (t ∷ ts)) c in
      (d.state ≡ state_closed) × (d.failures ≡ 0) × AllAre true (answers (rounds (t ∷ ts)) c)
unfolding run answers
recovers c t ts o e l h =
    let (a, s, f, m, k, again) = reopen t c o e (omega arith) in
    let (closed, clean, all) =
      recovers_from ts t 0 (step t allows c) s f m (ground arith) (ground arith) in
    let back = ap (λ x. run (rounds ts) (step t succeeds x)) again in
    (
      subst (λ d. d.state ≡ state_closed) back closed,
      subst (λ d. d.failures ≡ 0) back clean,
      (a, subst (λ x. AllAre true (answers (rounds ts) (step t succeeds x))) again all.1),
    )

abbrev pub asking : List ℕ → List (ℕ × Event)
asking = map (λ t. (t, allows))

half_open_step :
    (t : ℕ) (c : Circuit)
    → c.state ≡ state_half_open
    → (step t allows c ≡ c) × ((allow t c).1 ≡ ltb (c.successes + c.failures) c.half_open_max_calls)
unfolding step
half_open_step t c s = ground arith

-- A half-open circuit answers every request alike until an outcome is recorded, and does not
-- change: its limit is on the outcomes recorded, not on the requests that are under way.
pub half_open_answers :
    (ts : List ℕ) (c : Circuit)
    → c.state ≡ state_half_open
    → (run (asking ts) c ≡ c)
      × AllAre (ltb (c.successes + c.failures) c.half_open_max_calls) (answers (asking ts) c)
unfolding run answers
half_open_answers [] c s = (refl, tt)
half_open_answers (t ∷ ts) c s =
    let (same, a) = half_open_step t c s in
    let (r, all) = half_open_answers ts c s in
    (
      ap (run (asking ts)) same ∙ r,
      (
        a,
        subst
            (λ x.
              AllAre (ltb (c.successes + c.failures) c.half_open_max_calls) (answers (asking ts) x))
            (sym same) all,
      ),
    )

rounds_part :
    (ts : List ℕ) (n : ℕ) (c : Circuit)
    → c.state ≡ state_half_open
    → c.failures ≡ 0
    → c.successes ≡ n
    → n + length ts < c.success_threshold
    → n + length ts ≤ c.half_open_max_calls
    → let d = run (rounds ts) c in
      (d.state ≡ state_half_open)
      × (d.successes ≡ n + length ts)
      × (d.failures ≡ 0)
      × (d.config ≡ c.config)
unfolding run
rounds_part [] n c s f m l h = ground arith
rounds_part (t ∷ ts) n c s f m l h =
    let (a, s', f', m', k) = round_step t n c s f m (omega arith) (omega arith) in
    let (r, n', z, k') =
      rounds_part ts (n + 1) (step t succeeds (step t allows c)) s' f' m' (ground arith)
        (ground arith) in
    (r, omega arith, z, k' ∙ k)

-- With a half-open limit below the success threshold, an open circuit whose open time is over is
-- still half-open when as many requests as the limit have been made and each has succeeded before
-- the next; from then on it refuses every request and does not change.
pub half_open_stalls :
    (c : Circuit) (t : ℕ) (ts us : List ℕ)
    → c.state ≡ state_open
    → c.last_failure_time + c.open_duration ≤ t
    → length (t ∷ ts) ≡ c.half_open_max_calls
    → c.half_open_max_calls < c.success_threshold
    → let d = run (rounds (t ∷ ts)) c in
      (d.state ≡ state_half_open) × (run (asking us) d ≡ d) × AllAre false (answers (asking us) d)
unfolding run
half_open_stalls c t ts us o e l h =
    let (a, s, f, m, k, again) = reopen t c o e (omega arith) in
    let (half, n, z, k') =
      rounds_part (t ∷ ts) 0 (step t allows c) s f m (ground arith) (ground arith) in
    let back = ap (λ x. run (rounds ts) (step t succeeds x)) again in
    let (same, all) = half_open_answers us (run (rounds (t ∷ ts)) (step t allows c)) half in
    let full = ge→ltb _ _ (ground (arith, k' ∙ k)) in
    (
      subst (λ d. d.state ≡ state_half_open) back half,
      subst (λ d. run (asking us) d ≡ d) back same,
      subst (λ d. AllAre false (answers (asking us) d)) back
          (subst (λ b. AllAre b (answers (asking us) (run (rounds (t ∷ ts)) (step t allows c))))
            full all),
    )
