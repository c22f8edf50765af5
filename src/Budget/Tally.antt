-- ===== src/Budget/Tally.antt =====
-- How many tokens `RecordUsage` counts, with the end of a window.
use nexus_ai_gateway.Common.{
  ℕ, ◌+◌, ◌≡◌, false, Option, none, some, String, if◌then◌else◌, str_eq, refl, Bool-cases, inl, inr,
  ap, ◌∙◌, sym,
}
use nexus_ai_gateway.Common.Clock.{after}
use nexus_ai_gateway.Common.Dict.{find, put, find-put_self, find-put_other}
use nexus_ai_gateway.Budget.{
  Float, Calendar, daily, weekly, monthly, BudgetUsage, OrganizationBudget, UsageRecord, new_usage,
  or_new, reset_usage,
}
use nexus_ai_gateway.Budget.Usage.{charge, open_usage, record_in, record_each, record_usage}
use nexus_ai_gateway.Budget.Attribution.{check_alerts-usage}

module _ {ℓ} {F : Type ℓ} where
  abbrev pub tokens_of : Option (BudgetUsage F) → ℕ
  tokens_of none = 0
  tokens_of (some u) = u.total_tokens

  -- The tokens of a period, as `GetUsage` shows them.
  abbrev pub tokens_in : String → OrganizationBudget F → ℕ
  tokens_in period b = tokens_of (find period b.usage)

  -- What of the tokens still counts at an instant.
  abbrev pub carried : ℕ → Option (BudgetUsage F) → ℕ
  carried now none = 0
  carried now (some u) = if after now u.window_end then 0 else u.total_tokens

module _ {ℓ} {F : Type ℓ} (fl : Float F) (cal : Calendar) where
  carried-or_new :
      (now : ℕ) (period : String) (o : Option (BudgetUsage F))
      → carried now o ≡ (
          if after now (or_new fl cal now period o).window_end
          then 0
          else (or_new fl cal now period o).total_tokens)
  unfolding new_usage
  carried-or_new now period none =
      elim (Bool-cases (after now (or_new fl cal now period none).window_end)) [
        | inl ended ↦ simp ended refl
        | inr current ↦ simp current refl
      ]
  carried-or_new now period (some u) = refl

  open_usage-find :
      (now : ℕ) (period : String) (b : OrganizationBudget F)
      → (u : BudgetUsage F) × (find period (open_usage fl cal now period b).usage ≡ some u)
        × (u.total_tokens ≡ carried now (find period b.usage))
  unfolding open_usage reset_usage new_usage
  open_usage-find now period b =
      let u = or_new fl cal now period (find period b.usage) in
      let kept = carried-or_new now period (find period b.usage) in
      elim (Bool-cases (after now u.window_end)) [
        | inl ended ↦ (
          new_usage fl cal now period,
          simp ended (find-put_self period (new_usage fl cal now period) b.usage),
          sym (kept ∙ ap (λ c. if c then 0 else u.total_tokens) ended),
        )
        | inr current ↦ (
          u,
          simp current (find-put_self period u b.usage),
          sym (kept ∙ ap (λ c. if c then 0 else u.total_tokens) current),
        )
      ]

  open_usage-other :
      (now : ℕ) (period other : String) (b : OrganizationBudget F)
      → str_eq period other ≡ false
      → find other (open_usage fl cal now period b).usage ≡ find other b.usage
  unfolding open_usage reset_usage
  open_usage-other now period other b d =
      let u = or_new fl cal now period (find period b.usage) in
      elim (Bool-cases (after now u.window_end)) [
        | inl ended ↦ simp ended (find-put_other period other _ b.usage d)
        | inr current ↦ simp current (find-put_other period other u b.usage d)
      ]

  charge-total :
      (r : UsageRecord F) (u : BudgetUsage F)
      → (charge fl r u).total_tokens ≡ u.total_tokens + (r.input_tokens + r.output_tokens)
  unfolding charge
  charge-total r u = refl

  record_in-tokens_in :
      (now : ℕ) (r : UsageRecord F) (period : String) (b : OrganizationBudget F)
      → tokens_in period (record_in fl cal now r period b)
        ≡ carried now (find period b.usage) + (r.input_tokens + r.output_tokens)
  unfolding record_in
  record_in-tokens_in now r period b =
      let opened = open_usage fl cal now period b in
      let (u, e, t) = open_usage-find now period b in
      let charged = charge fl r (or_new fl cal now period (find period opened.usage)) in
      ap (λ m. tokens_of (find period m))
        (check_alerts-usage fl cal period
          (record opened { usage = put period charged opened.usage }))
      ∙ ap tokens_of (find-put_self period charged opened.usage)
      ∙ ap (λ o. (charge fl r (or_new fl cal now period o)).total_tokens) e
      ∙ charge-total r u
      ∙ ap (λ n. n + (r.input_tokens + r.output_tokens)) t

  record_in-other :
      (now : ℕ) (r : UsageRecord F) (period other : String) (b : OrganizationBudget F)
      → str_eq period other ≡ false
      → find other (record_in fl cal now r period b).usage ≡ find other b.usage
  unfolding record_in
  record_in-other now r period other b d =
      let opened = open_usage fl cal now period b in
      let charged = charge fl r (or_new fl cal now period (find period opened.usage)) in
      ap (find other) (
        check_alerts-usage fl cal period
          (record opened { usage = put period charged opened.usage }))
      ∙ find-put_other period other charged opened.usage d
      ∙ open_usage-other now period other b d

  -- What `RecordUsage` leaves in a period: the tokens of the record, and those that the period had
  -- if its window has not ended.
  abbrev pub Counts : ℕ → UsageRecord F → String → OrganizationBudget F → Type 0
  Counts now r period b =
      tokens_in period (record_usage fl cal now r b)
      ≡ carried now (find period b.usage) + (r.input_tokens + r.output_tokens)

  -- `RecordUsage` adds the tokens of the record to the daily, the weekly and the monthly usage,
  -- and starts again from 0 in each whose window has ended.
  pub record_usage-Counts :
      (now : ℕ) (r : UsageRecord F) (b : OrganizationBudget F)
      → Counts now r daily b × Counts now r weekly b × Counts now r monthly b
  unfolding record_usage record_each
  record_usage-Counts now r b =
      let first = record_in fl cal now r daily b in
      let second = record_in fl cal now r weekly first in
      (
        ap tokens_of (record_in-other now r monthly daily second refl)
            ∙ ap tokens_of (record_in-other now r weekly daily first refl)
            ∙ record_in-tokens_in now r daily b,
        ap tokens_of (record_in-other now r monthly weekly second refl)
            ∙ record_in-tokens_in now r weekly first
            ∙ ap (λ o. carried now o + (r.input_tokens + r.output_tokens))
                (record_in-other now r daily weekly b refl),
        record_in-tokens_in now r monthly second
            ∙ ap (λ o. carried now o + (r.input_tokens + r.output_tokens))
                (record_in-other now r weekly monthly first refl
                  ∙ record_in-other now r daily monthly b refl),
      )
