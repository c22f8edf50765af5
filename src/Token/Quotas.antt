-- ===== src/Token/Quotas.antt =====
-- The quotas of the groups are kept when the calls of the service run one after another.
use nexus_ai_gateway.Common.{
  ℕ, ◌+◌, ◌≡◌, Bool, true, false, Option, none, some, List, [], ◌∷◌, String, if◌then◌else◌, str_eq,
  ◌==◌, arith, refl, ap, ◌∙◌, sym, Bool-cases, inl, inr,
}
use nexus_ai_gateway.Token.{
  TokenGroup, TokenError, Table, over, can_consume, get_by_id, change, increment_usage,
  reset_hourly_usage, reset_daily_usage, reset_monthly_usage, update_row, admits, after_decision,
  consume_tokens, reset_usage, rewrite, activate, deactivate, assign_models, delete,
}
use nexus_ai_gateway.Token.Remaining.{IsWithin}

-- A call of the service, with its time.
pub data Op : Type 0 where
  consumes : ℕ → ℕ → ℕ → ℕ → Op
  resets : ℕ → ℕ → String → Op
  activates deactivates : ℕ → ℕ → Op
  deletes : ℕ → Op
  assigns : ℕ → ℕ → List String → Op

abbrev pub apply : Op → Table → Table
apply (consumes now id input output) t = (consume_tokens now id input output t).0
apply (resets now id period) t = (reset_usage now id period t).0
apply (activates now id) t = (activate now id t).0
apply (deactivates now id) t = (deactivate now id t).0
apply (deletes id) t = (delete id t).0
apply (assigns now id models) t = (assign_models now id models t).0

abbrev pub run : List Op → Table → Table
run [] t = t
run (op ∷ ops) t = run ops (apply op t)

abbrev pub RowWithin : Option TokenGroup → Type 0
RowWithin none = Unit
RowWithin (some tg) = IsWithin tg

pub AllWithin : Table → Type 0
AllWithin t = (i : ℕ) → RowWithin (t i)

pub AllWithin-rows : (t : Table) → ((i : ℕ) → RowWithin (t i)) → AllWithin t
unfolding AllWithin
AllWithin-rows t h = h

change_row :
    (f : TokenGroup → TokenGroup) (b : Bool) (o : Option TokenGroup)
    → RowWithin o
    → ((tg : TokenGroup) → o ≡ some tg → b ≡ true → IsWithin tg → IsWithin (f tg))
    → RowWithin (elim o [ none ↦ none | some tg ↦ if b then some (f tg) else some tg ])
change_row f b none h g = tt
change_row f true (some tg) h g = g tg refl refl h
change_row f false (some tg) h g = h

same_id : (i id : ℕ) → (i == id) ≡ true → i ≡ id
same_id i id h = ground arith

change-AllWithin :
    (id : ℕ) (f : TokenGroup → TokenGroup) (t : Table)
    → AllWithin t
    → ((tg : TokenGroup) → t id ≡ some tg → IsWithin tg → IsWithin (f tg))
    → AllWithin (change id f t)
unfolding AllWithin
change-AllWithin id f t h g i =
    change_row f (i == id) (t i) (h i) (λ tg e b w. g tg (sym (ap t (same_id i id b)) ∙ e) w)

kept :
    (active hour day month : Bool)
    → (if active
        then if hour then false else if day then false else if month then false else true
        else false)
      ≡ true
    → (hour ≡ false) × (day ≡ false) × (month ≡ false)
kept active hour day month h = (ground arith, ground arith, ground arith)

admitted : (b : Bool) (e : TokenError) → (if b then none else some e) ≡ none → b ≡ true
admitted true e h = refl
admitted false e h = ground arith

can_consume-fits :
    (n : ℕ) (tg : TokenGroup)
    → can_consume n tg ≡ true
    → (over tg.hourly_quota tg.used_this_hour n ≡ false)
      × (over tg.daily_quota tg.used_today n ≡ false)
      × (over tg.monthly_quota tg.used_this_month n ≡ false)
unfolding can_consume
can_consume-fits n tg h =
    kept tg.is_active (over tg.hourly_quota tg.used_this_hour n)
      (over tg.daily_quota tg.used_today n) (over tg.monthly_quota tg.used_this_month n) h

after_decision-AllWithin :
    (now id input output : ℕ) (d : Option TokenError) (t : Table)
    → d ≡ admits (input + output) (t id)
    → AllWithin t
    → AllWithin (after_decision now id input output d t).0
unfolding increment_usage
after_decision-AllWithin now id input output (some e) t a h = h
after_decision-AllWithin now id input output none t a h = change-AllWithin id _ t h (λ tg e w.
    let (x, y, z) =
      can_consume-fits (input + output) tg
        (admitted _ _ (sym (a ∙ ap (admits (input + output)) e))) in
    (ground arith, ground arith, ground arith))

-- A row that is written over keeps the quotas when the new one is within its own.
update_row-AllWithin :
    (now : ℕ) (tg : TokenGroup) (t : Table)
    → AllWithin t
    → IsWithin tg
    → AllWithin (update_row now tg t)
unfolding update_row
update_row-AllWithin now tg t h w = change-AllWithin tg.id _ t h (λ _ _ _. w)

rewrite-AllWithin :
    (now : ℕ) (f : TokenGroup → TokenGroup) (o : Option TokenGroup) (t : Table)
    → AllWithin t
    → RowWithin o
    → ((tg : TokenGroup) → IsWithin tg → IsWithin (f tg))
    → AllWithin (rewrite now f o t).0
rewrite-AllWithin now f none t h w g = h
rewrite-AllWithin now f (some tg) t h w g = update_row-AllWithin now (f tg) t h (g tg w)

reset_usage-AllWithin :
    (now id : ℕ) (period : String) (t : Table)
    → AllWithin t
    → AllWithin (reset_usage now id period t).0
unfolding reset_usage reset_hourly_usage reset_daily_usage reset_monthly_usage
reset_usage-AllWithin now id period t h = elim (Bool-cases (str_eq period "hourly")) [
  | inl hour ↦ simp (hour) (change-AllWithin id _ t h (λ tg _ (_, y, z). (ground arith, y, z)))
  | inr hour ↦ elim (Bool-cases (str_eq period "daily")) [
    | inl day ↦
        simp (hour, day) (change-AllWithin id _ t h (λ tg _ (x, _, z). (x, ground arith, z)))
    | inr day ↦ elim (Bool-cases (str_eq period "monthly")) [
      | inl month ↦
          simp (hour, day, month)
            (change-AllWithin id _ t h (λ tg _ (x, y, _). (x, y, ground arith)))
      | inr month ↦ simp (hour, day, month) h
    ]
  ]
]

deleted_row : (b : Bool) (o : Option TokenGroup) → RowWithin o → RowWithin (if b then none else o)
deleted_row true o h = tt
deleted_row false o h = h

delete-AllWithin : (id : ℕ) (t : Table) → AllWithin t → AllWithin (delete id t).0
unfolding AllWithin delete
delete-AllWithin id t h i = deleted_row (i == id) (t i) (h i)

apply-AllWithin : (op : Op) (t : Table) → AllWithin t → AllWithin (apply op t)
unfolding AllWithin consume_tokens activate deactivate assign_models get_by_id
apply-AllWithin (consumes now id input output) t h =
    after_decision-AllWithin now id input output _ t refl h
apply-AllWithin (resets now id period) t h = reset_usage-AllWithin now id period t h
apply-AllWithin (activates now id) t h = rewrite-AllWithin now _ (t id) t h (h id) (λ tg w. w)
apply-AllWithin (deactivates now id) t h = rewrite-AllWithin now _ (t id) t h (h id) (λ tg w. w)
apply-AllWithin (deletes id) t h = delete-AllWithin id t h
apply-AllWithin (assigns now id models) t h = rewrite-AllWithin now _ (t id) t h (h id) (λ tg w. w)

-- When every group of the table has used no more than its quotas, this is so after any calls of
-- the service that consume tokens, reset counters, switch groups on and off, delete them or assign
-- models, each of which ends before the next one starts.
pub run-AllWithin : (ops : List Op) (t : Table) → AllWithin t → AllWithin (run ops t)
run-AllWithin [] t h = h
run-AllWithin (op ∷ ops) t h = run-AllWithin ops (apply op t) (apply-AllWithin op t h)
