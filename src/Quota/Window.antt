-- ===== src/Quota/Window.antt =====
-- What the rate limiter promises: at most `RequestsPerMin` requests of a tenant in a minute, and
-- no request refused without need.
use mathlib.Core.List.{append-nil, append_assoc}
use text.Mathlib.TextEquality.{eq_iff}
use nexus_ai_gateway.Common.{
  ℕ, ◌+◌, ◌≤◌, ◌≡◌, refl, ap, ◌∙◌, Bool, true, false, ◌&&◌, List, [], ◌∷◌, ◌++◌, String, arith, leb,
  ltb, if◌then◌else◌, count_if, count_if-append, Bool-cases, inl, inr, str_eq, All,
}
use nexus_ai_gateway.Common.Clock.{minute}
use nexus_ai_gateway.Common.Dict.{find}
use nexus_ai_gateway.Quota.Limiter.{
  Limiter, new_limiter, fresh, requests_of, allow, reset, get_remaining, Call, allows, resets, run,
  admitted,
}
use nexus_ai_gateway.Quota.Calls.{
  allow_lem, requests_of-allow_other, requests_of-reset_other, Knows, past_after, Knows-allow,
}

-- The times of the calls do not fall, from `last` on and up to `now`.
abbrev pub InOrder : ℕ → List Call → ℕ → Type 0
InOrder last [] now = last ≤ now
InOrder last (allows t q ∷ es) now = (last ≤ t) × InOrder t es now
InOrder last (resets q ∷ es) now = InOrder last es now

-- The call does not reset the tenant.
abbrev pub Spares : String → Call → Type 0
Spares p (allows t q) = Unit
Spares p (resets q) = str_eq q p ≡ false

plan-allow : (now : ℕ) (q : String) (r : Limiter) → (allow now q r).0.plan ≡ r.plan
plan-allow now q r = (allow_lem now q r).1

plan-run : (es : List Call) (r : Limiter) → (run es r).plan ≡ r.plan
unfolding run reset
plan-run [] r = refl
plan-run (allows now q ∷ es) r = plan-run es (allow now q r).0 ∙ plan-allow now q r
plan-run (resets q ∷ es) r = plan-run es (reset q r)

past_after-append :
    (ok : Bool) (t : ℕ) (past rest : List ℕ)
    → past_after ok t past ++ rest ≡ past ++ (if ok then t ∷ rest else rest)
past_after-append true t past rest = append_assoc past (t ∷ []) rest
past_after-append false t past rest = refl

run-Knows :
    (es : List Call) (last now : ℕ) (p : String) (past : List ℕ) (r : Limiter)
    → InOrder last es now
    → All (Spares p) es
    → Knows last p past r
    → Knows now p (past ++ admitted p es r) (run es r)
unfolding run admitted
run-Knows [] last now p past r o z k = λ later m. rw append-nil (k later (omega arith))
run-Knows (resets q ∷ es) last now p past r o (z, zs) k =
    run-Knows es last now p past (reset q r) o zs
      (λ later m. rw (requests_of-reset_other q p r z) (k later m))
run-Knows (allows t q ∷ es) last now p past r o (z, zs) k = elim (Bool-cases (str_eq q p)) [
  | inl same ↦
      rw (same, (eq_iff q p).0 same)
        (rw (← past_after-append (allow t p r).1 t past (admitted p es (allow t p r).0)) (
          run-Knows es t now p (past_after (allow t p r).1 t past) (allow t p r).0 o.1 zs
            (Knows-allow last t p past r o.0 k)))
  | inr other ↦ rw other (
      run-Knows es t now p past (allow t q r).0 o.1 zs
        (λ later m. rw (requests_of-allow_other t q p r other) (k later (omega arith))))
]

-- A new limiter knows all of nothing.
new_limiter-Knows : (name p : String) → Knows 0 p [] (new_limiter name)
unfolding new_limiter requests_of find
new_limiter-Knows name p later m = refl

-- The answer to a request is yes exactly when fewer requests of the same tenant than the plan's
-- limit were admitted in the minute before it, on a new limiter after any calls of `Allow` and
-- `Reset`, for this tenant and others, if their times do not fall and none resets this tenant.
pub allow_exact :
    (name p : String) (es : List Call) (now : ℕ)
    → InOrder 0 es now
    → All (Spares p) es
    → (allow now p (run es (new_limiter name))).1
      ≡ ltb
          (count_if (fresh now) (admitted p es (new_limiter name)))
          (new_limiter name).plan.requests_per_min
allow_exact name p es now o z =
    let r = new_limiter name in
    let (answer, _, _) = allow_lem now p (run es r) in
    let known = run-Knows es 0 now p [] r o z (new_limiter-Knows name p) now (omega arith) in
    answer ∙ (rw (known, plan-run es r))

-- The admissions in the minute that starts at `s`.
abbrev pub in_window : ℕ → ℕ → Bool
in_window s t = leb s t && ltb t (s + minute)

abbrev Bounded : ℕ → List ℕ → Type 0
Bounded n past = (s : ℕ) → count_if (in_window s) past ≤ n

count-window-le-fresh :
    (s now : ℕ) (ts : List ℕ)
    → in_window s now ≡ true
    → count_if (in_window s) ts ≤ count_if (fresh now) ts
count-window-le-fresh s now [] h = omega arith
count-window-le-fresh s now (t ∷ ts) h = ground (arith, count-window-le-fresh s now ts h)

Bounded-allow :
    (last now n : ℕ) (p : String) (past : List ℕ) (r : Limiter)
    → last ≤ now
    → r.plan.requests_per_min ≡ n
    → Knows last p past r
    → Bounded n past
    → Bounded n (past_after (allow now p r).1 now past)
Bounded-allow last now n p past r l e k b s =
    let (answer, _, _) = allow_lem now p r in
    ground (
      arith,
      answer,
      k now,
      b s,
      count-window-le-fresh s now past,
      count_if-append (in_window s) past (now ∷ []),
    )

run-Bounded :
    (es : List Call) (last now n : ℕ) (p : String) (past : List ℕ) (r : Limiter)
    → InOrder last es now
    → All (Spares p) es
    → r.plan.requests_per_min ≡ n
    → Knows last p past r
    → Bounded n past
    → Bounded n (past ++ admitted p es r)
unfolding admitted reset
run-Bounded [] last now n p past r o z e k b = rw append-nil b
run-Bounded (resets q ∷ es) last now n p past r o (z, zs) e k b =
    run-Bounded es last now n p past (reset q r) o zs e
      (λ later m. rw (requests_of-reset_other q p r z) (k later m)) b
run-Bounded (allows t q ∷ es) last now n p past r o (z, zs) e k b = elim (Bool-cases (str_eq q p)) [
  | inl same ↦
      rw (same, (eq_iff q p).0 same)
        (rw (← past_after-append (allow t p r).1 t past (admitted p es (allow t p r).0)) (
          run-Bounded es t now n p (past_after (allow t p r).1 t past) (allow t p r).0 o.1 zs
            (ap (λ k. k.requests_per_min) (plan-allow t p r) ∙ e)
            (Knows-allow last t p past r o.0 k) (Bounded-allow last t n p past r o.0 e k b)))
  | inr other ↦ rw other (
      run-Bounded es t now n p past (allow t q r).0 o.1 zs
        (ap (λ k. k.requests_per_min) (plan-allow t q r) ∙ e)
        (λ later m. rw (requests_of-allow_other t q p r other) (k later (omega arith))) b)
]

-- In no minute, wherever it starts, does a new limiter admit more requests of a tenant than its
-- plan allows, whatever the calls of `Allow` and `Reset`, if their times do not fall and none resets
-- this tenant.
pub window_bound :
    (name p : String) (es : List Call) (now s : ℕ)
    → InOrder 0 es now
    → All (Spares p) es
    → count_if (in_window s) (admitted p es (new_limiter name))
      ≤ (new_limiter name).plan.requests_per_min
window_bound name p es now s o z =
    run-Bounded es 0 now _ p [] (new_limiter name) o z refl (new_limiter-Knows name p)
      (λ _. omega arith) s

-- The remaining requests that the limiter reports are some exactly when it would admit one now.
pub get_remaining-allow :
    (now : ℕ) (p : String) (r : Limiter) → ltb 0 (get_remaining now p r) ≡ (allow now p r).1
unfolding get_remaining requests_of
get_remaining-allow now p r = let (answer, _, _) = allow_lem now p r in ground (arith, answer)
