-- ===== src/Token/Remaining.antt =====
-- What `RemainingQuota` says of `CanConsume`.
use nexus_ai_gateway.Common.{
  ℕ, ◌≡◌, Bool, true, false, ◌&&◌, not, leb, arith, refl, Bool-cases, inl, inr, ◌∙◌, ap, sym,
}
use nexus_ai_gateway.Common.Int.{ℤ, pos, negsuc}
use nexus_ai_gateway.Token.{TokenGroup, over, can_consume, limit, remaining_quota}

-- A used quota is not exceeded.
abbrev pub Kept : ℕ → ℕ → Type 0
Kept quota used = over quota used 0 ≡ false

abbrev pub IsWithin : TokenGroup → Type 0
IsWithin tg =
    Kept tg.hourly_quota tg.used_this_hour
    × Kept tg.daily_quota tg.used_today
    × Kept tg.monthly_quota tg.used_this_month

-- So many tokens fit into what remains, where a negative number is no limit.
abbrev pub fits : ℕ → ℤ → Bool
fits n (pos m) = leb n m
fits n (negsuc k) = true

-- No number below -1.
IsRemainder : ℤ → Type 0
IsRemainder (pos m) = Unit
IsRemainder (negsuc k) = k ≡ 0

limit-fits :
    (quota used n : ℕ) (r : ℤ)
    → Kept quota used
    → IsRemainder r
    → IsRemainder (limit quota used r)
      × (fits n (limit quota used r) ≡ fits n r && not (over quota used n))
unfolding IsRemainder
limit-fits quota used n (pos m) k v = (ground arith, ground arith)
limit-fits quota used n (negsuc j) k v = (ground arith, ground arith)

can_consume-over :
    (n : ℕ) (tg : TokenGroup)
    → tg.is_active ≡ true
    → can_consume n tg ≡ (
        (not (over tg.hourly_quota tg.used_this_hour n)
          && not (over tg.daily_quota tg.used_today n))
        && not (over tg.monthly_quota tg.used_this_month n))
unfolding can_consume
can_consume-over n tg on = elim (Bool-cases (over tg.hourly_quota tg.used_this_hour n)) [
  | inl hour ↦ simp (on, hour) refl
  | inr hour ↦ elim (Bool-cases (over tg.daily_quota tg.used_today n)) [
    | inl day ↦ simp (on, hour, day) refl
    | inr day ↦ elim (Bool-cases (over tg.monthly_quota tg.used_this_month n)) [
      | inl month ↦ simp (on, hour, day, month) refl
      | inr month ↦ simp (on, hour, day, month) refl
    ]
  ]
]

-- An active group whose quotas are kept may use exactly as many tokens as `RemainingQuota` says,
-- any number when it says -1.
pub can_consume-remaining_quota :
    (n : ℕ) (tg : TokenGroup)
    → tg.is_active ≡ true
    → IsWithin tg
    → can_consume n tg ≡ fits n (remaining_quota tg)
unfolding remaining_quota IsRemainder
can_consume-remaining_quota n tg on (h, d, m) =
    let (v1, f1) = limit-fits tg.hourly_quota tg.used_this_hour n (negsuc 0) h refl in
    let r1 = limit tg.hourly_quota tg.used_this_hour (negsuc 0) in
    let (v2, f2) = limit-fits tg.daily_quota tg.used_today n r1 d v1 in
    let r2 = limit tg.daily_quota tg.used_today r1 in
    let (v3, f3) = limit-fits tg.monthly_quota tg.used_this_month n r2 m v2 in
    can_consume-over n tg on
    ∙ sym (
        f3
        ∙ ap (λ b. b && not (over tg.monthly_quota tg.used_this_month n))
            (f2 ∙ ap (λ b. b && not (over tg.daily_quota tg.used_today n)) f1))
