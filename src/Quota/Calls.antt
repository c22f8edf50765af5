-- ===== src/Quota/Calls.antt =====
-- One call of the rate limiter, and what the limiter knows of the admissions before it.
use nexus_ai_gateway.Common.{
  ℕ, ◌≤◌, ◌≡◌, refl, Bool, false, List, [], ◌∷◌, ◌++◌, String, arith, ltb, if◌then◌else◌, select,
  count_if, length-select, count_if-append, str_eq,
}
use nexus_ai_gateway.Common.Dict.{put, find-put_self, find-put_other, find-delete_other}
use nexus_ai_gateway.Quota.Limiter.{Limiter, fresh, cleanup_expired, requests_of, allow, reset}

-- What is fresh later is fresh now.
count-select-fresh :
    (now later : ℕ) (ts : List ℕ)
    → now ≤ later
    → count_if (fresh later) (select (fresh now) ts) ≡ count_if (fresh later) ts
count-select-fresh now later [] h = refl
count-select-fresh now later (t ∷ ts) h = ground (arith, count-select-fresh now later ts h)

requests_of-put :
    (p : String) (ts : List ℕ) (r : Limiter)
    → requests_of p (record r { requests = put p ts r.requests }) ≡ ts
unfolding requests_of
requests_of-put p ts r = rw (find-put_self p ts r.requests, requests_of)

requests_of-cleanup :
    (now : ℕ) (p : String) (r : Limiter)
    → requests_of p (cleanup_expired p now r) ≡ select (fresh now) (requests_of p r)
unfolding requests_of cleanup_expired
requests_of-cleanup now p r =
    ground (arith, find-put_self p (select (fresh now) (requests_of p r)) r.requests)

plan-cleanup : (now : ℕ) (p : String) (r : Limiter) → (cleanup_expired p now r).plan ≡ r.plan
unfolding cleanup_expired
plan-cleanup now p r = ground arith

-- One call, by what it finds fresh.
pub allow_lem :
    (now : ℕ) (p : String) (r : Limiter)
    → ((allow now p r).1 ≡ ltb (count_if (fresh now) (requests_of p r)) r.plan.requests_per_min)
      × ((allow now p r).0.plan ≡ r.plan)
      × (requests_of p (allow now p r).0 ≡ (
          if (allow now p r).1
          then select (fresh now) (requests_of p r) ++ now ∷ []
          else select (fresh now) (requests_of p r)))
unfolding allow
allow_lem now p r =
    let cleaned = cleanup_expired p now r in
    ground (
      arith,
      requests_of-cleanup now p r,
      plan-cleanup now p r,
      length-select (fresh now) (requests_of p r),
      requests_of-put p (requests_of p cleaned ++ now ∷ []) cleaned,
    )

requests_of-cleanup_other :
    (now : ℕ) (q p : String) (r : Limiter)
    → str_eq q p ≡ false
    → requests_of p (cleanup_expired q now r) ≡ requests_of p r
unfolding requests_of cleanup_expired
requests_of-cleanup_other now q p r h =
    ground (arith, find-put_other q p (select (fresh now) (requests_of q r)) r.requests h)

requests_of-put_other :
    (q p : String) (ts : List ℕ) (r : Limiter)
    → str_eq q p ≡ false
    → requests_of p (record r { requests = put q ts r.requests }) ≡ requests_of p r
unfolding requests_of
requests_of-put_other q p ts r h = rw (find-put_other q p ts r.requests h, requests_of)

pub requests_of-allow_other :
    (now : ℕ) (q p : String) (r : Limiter)
    → str_eq q p ≡ false
    → requests_of p (allow now q r).0 ≡ requests_of p r
unfolding allow
requests_of-allow_other now q p r h =
    let cleaned = cleanup_expired q now r in
    ground (
      arith,
      requests_of-cleanup_other now q p r h,
      requests_of-put_other q p (requests_of q cleaned ++ now ∷ []) cleaned h,
    )

pub requests_of-reset_other :
    (q p : String) (r : Limiter) → str_eq q p ≡ false → requests_of p (reset q r) ≡ requests_of p r
unfolding requests_of reset
requests_of-reset_other q p r h = rw (find-delete_other q p r.requests h, requests_of)

-- Of the tenant's admissions `past` the limiter knows all that are fresh from `last` on.
abbrev pub Knows : ℕ → String → List ℕ → Limiter → Type 0
Knows last p past r =
    (now : ℕ) → last ≤ now → count_if (fresh now) (requests_of p r) ≡ count_if (fresh now) past

abbrev pub past_after : Bool → ℕ → List ℕ → List ℕ
past_after ok now past = if ok then past ++ now ∷ [] else past

pub Knows-allow :
    (last now : ℕ) (p : String) (past : List ℕ) (r : Limiter)
    → last ≤ now
    → Knows last p past r
    → Knows now p (past_after (allow now p r).1 now past) (allow now p r).0
Knows-allow last now p past r l k later m =
    let (answer, plan, times) = allow_lem now p r in
    ground (
      arith,
      times,
      k later,
      count-select-fresh now later (requests_of p r),
      count_if-append (fresh later) (select (fresh now) (requests_of p r)) (now ∷ []),
      count_if-append (fresh later) past (now ∷ []),
    )
