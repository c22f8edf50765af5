-- ===== src/Budget/Attribution.antt =====
-- The usage of a period is that of its models, and that of its providers.
use nexus_ai_gateway.Common.{
  ℕ, ◌≡◌, Option, none, some, List, [], ◌∷◌, String, str_eq, refl, Bool-cases, inl, inr, subst, sym,
}
use nexus_ai_gateway.Common.Clock.{after}
use nexus_ai_gateway.Common.Dict.{find, put, find-put}
use nexus_ai_gateway.Budget.{
  Float, Calendar, BudgetLimit, BudgetUsage, OrganizationBudget, UsageRecord, new_usage, or_new,
  reset_usage, set_limit, new_organization_budget,
}
use nexus_ai_gateway.Budget.Charge.{IsAttributed, EachAttributed, charge-IsAttributed}
use nexus_ai_gateway.Budget.Usage.{
  charge, alert_sent, percentage, alert_on, check_alerts, open_usage, record_in, record_each,
  periods, record_usage,
}

-- A call of one of the operations, with the time of the call.
pub data Op {ℓ} (F : Type ℓ) : Type ℓ where
  sets : ℕ → String → BudgetLimit F → Op F
  records : ℕ → UsageRecord F → Op F
  resets : ℕ → String → Op F

module _ {ℓ} {F : Type ℓ} where
  pub AllAttributed : OrganizationBudget F → Type 0
  AllAttributed b = (period : String) → EachAttributed (find period b.usage)

  AllAttributed-put :
      (period : String) (u : BudgetUsage F) (b c : OrganizationBudget F)
      → IsAttributed u
      → AllAttributed b
      → c.usage ≡ put period u b.usage
      → AllAttributed c
  unfolding AllAttributed
  AllAttributed-put period u b c a h e p =
      subst (λ m. EachAttributed (find p m)) (sym e)
        (elim (Bool-cases (str_eq period p)) [
          | inl same ↦ rw (find-put period p u b.usage, same) a
          | inr other ↦ rw (find-put period p u b.usage, other) (h p)
        ])

  AllAttributed-usage :
      (b c : OrganizationBudget F) → AllAttributed b → c.usage ≡ b.usage → AllAttributed c
  unfolding AllAttributed
  AllAttributed-usage b c h e p = subst (λ m. EachAttributed (find p m)) (sym e) (h p)

module _ {ℓ} {F : Type ℓ} (fl : Float F) (cal : Calendar) where
  new_usage-IsAttributed : (now : ℕ) (period : String) → IsAttributed (new_usage fl cal now period)
  unfolding new_usage
  new_usage-IsAttributed now period = (refl, refl, refl, refl, refl)

  or_new-IsAttributed :
      (now : ℕ) (period : String) (o : Option (BudgetUsage F))
      → EachAttributed o
      → IsAttributed (or_new fl cal now period o)
  or_new-IsAttributed now period none h = new_usage-IsAttributed now period
  or_new-IsAttributed now period (some u) h = h

  alert_on-usage :
      (period : String) (l : Option (BudgetLimit F)) (u : Option (BudgetUsage F))
      (b : OrganizationBudget F)
      → (alert_on fl period l u b).usage ≡ b.usage
  unfolding alert_on
  alert_on-usage period none u b = refl
  alert_on-usage period (some limit) none b = refl
  alert_on-usage period (some limit) (some u) b =
      elim (Bool-cases (alert_sent fl (find period b.alerts_sent))) [
        | inl sent ↦ simp sent refl
        | inr unsent ↦
            elim (Bool-cases
              (fl.le (fl.times limit.alert_threshold fl.hundred) (percentage fl limit u))) [
                | inl reached ↦ simp (unsent, reached) refl
                | inr below ↦ simp (unsent, below) refl
              ]
      ]

  pub check_alerts-usage :
      (period : String) (b : OrganizationBudget F) → (check_alerts fl period b).usage ≡ b.usage
  unfolding check_alerts
  check_alerts-usage period b = alert_on-usage period (find period b.limits) (find period b.usage) b

  reset_usage-AllAttributed :
      (now : ℕ) (period : String) (b : OrganizationBudget F)
      → AllAttributed b
      → AllAttributed (reset_usage fl cal now period b)
  unfolding reset_usage
  reset_usage-AllAttributed now period b h =
      AllAttributed-put period (new_usage fl cal now period) b (reset_usage fl cal now period b)
        (new_usage-IsAttributed now period) h refl

  looked_up :
      (now : ℕ) (period : String) (b : OrganizationBudget F)
      → AllAttributed b
      → IsAttributed (or_new fl cal now period (find period b.usage))
  unfolding AllAttributed
  looked_up now period b h = or_new-IsAttributed now period (find period b.usage) (h period)

  open_usage-AllAttributed :
      (now : ℕ) (period : String) (b : OrganizationBudget F)
      → AllAttributed b
      → AllAttributed (open_usage fl cal now period b)
  unfolding open_usage
  open_usage-AllAttributed now period b h =
      let u = or_new fl cal now period (find period b.usage) in
      elim (Bool-cases (after now u.window_end)) [
        | inl ended ↦ rw ended (reset_usage-AllAttributed now period b h)
        | inr current ↦ rw current (
            AllAttributed-put period u b (record b { usage = put period u b.usage })
              (looked_up now period b h) h refl)
      ]

  record_in-AllAttributed :
      (now : ℕ) (r : UsageRecord F) (period : String) (b : OrganizationBudget F)
      → AllAttributed b
      → AllAttributed (record_in fl cal now r period b)
  unfolding record_in
  record_in-AllAttributed now r period b h =
      let opened = open_usage fl cal now period b in
      let still = open_usage-AllAttributed now period b h in
      let u = charge fl r (or_new fl cal now period (find period opened.usage)) in
      let charged = record opened { usage = put period u opened.usage } in
      AllAttributed-usage charged (check_alerts fl period charged)
        (AllAttributed-put period u opened charged
          (charge-IsAttributed fl r _ (looked_up now period opened still)) still refl)
        (check_alerts-usage period charged)

  record_each-AllAttributed :
      (now : ℕ) (r : UsageRecord F) (ps : List String) (b : OrganizationBudget F)
      → AllAttributed b
      → AllAttributed (record_each fl cal now r ps b)
  unfolding record_each
  record_each-AllAttributed now r [] b h = h
  record_each-AllAttributed now r (p ∷ ps) b h =
      record_each-AllAttributed now r ps (record_in fl cal now r p b)
        (record_in-AllAttributed now r p b h)

  abbrev pub apply : Op F → OrganizationBudget F → OrganizationBudget F
  apply (sets now period limit) b = set_limit fl cal now period limit b
  apply (records now r) b = record_usage fl cal now r b
  apply (resets now period) b = reset_usage fl cal now period b

  abbrev pub run : List (Op F) → OrganizationBudget F → OrganizationBudget F
  run [] b = b
  run (op ∷ ops) b = run ops (apply op b)

  apply-AllAttributed :
      (op : Op F) (b : OrganizationBudget F) → AllAttributed b → AllAttributed (apply op b)
  unfolding set_limit record_usage
  apply-AllAttributed (sets now period limit) b h =
      AllAttributed-put period (or_new fl cal now period (find period b.usage)) b
        (set_limit fl cal now period limit b) (looked_up now period b h) h refl
  apply-AllAttributed (records now r) b h =
      let each = record_each fl cal now r periods b in
      AllAttributed-usage each (record each { updated_at = now })
        (record_each-AllAttributed now r periods b h) refl
  apply-AllAttributed (resets now period) b h = reset_usage-AllAttributed now period b h

  run-AllAttributed :
      (ops : List (Op F)) (b : OrganizationBudget F) → AllAttributed b → AllAttributed (run ops b)
  run-AllAttributed [] b h = h
  run-AllAttributed (op ∷ ops) b h = run-AllAttributed ops (apply op b) (apply-AllAttributed op b h)

  -- After any calls of `SetLimit`, `RecordUsage` and `ResetUsage` on a new budget, in each period
  -- the total tokens are the input and the output tokens, and the tokens and the requests are the
  -- sums of those of the models, and of those of the providers.
  pub run-IsAttributed :
      (now : ℕ) (org_id : String) (ops : List (Op F)) (period : String) (u : BudgetUsage F)
      → find period (run ops (new_organization_budget now org_id)).usage ≡ some u
      → IsAttributed u
  unfolding AllAttributed new_organization_budget find
  run-IsAttributed now org_id ops period u e =
      subst EachAttributed e
        (run-AllAttributed ops (new_organization_budget now org_id) (λ p. tt) period)
