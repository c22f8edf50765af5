-- ===== src/Budget/Usage.antt =====
-- internal/billing/budget.go: `RecordUsage`, with the attribution to models and providers and the
-- alerts.
use nexus_ai_gateway.Common.{
  ℕ, ◌+◌, Bool, true, false, Option, none, some, List, [], ◌∷◌, String, if◌then◌else◌, ltb,
}
use nexus_ai_gateway.Common.Clock.{after}
use nexus_ai_gateway.Common.Dict.{find, put}
use nexus_ai_gateway.Budget.{
  Float, Calendar, daily, weekly, monthly, BudgetLimit, ModelUsage, ProviderUsage, BudgetUsage,
  OrganizationBudget, UsageRecord, or_new, reset_usage,
}

module _ {ℓ} {F : Type ℓ} (fl : Float F) where
  unfoldable pub charge_model : UsageRecord F → Option (ModelUsage F) → ModelUsage F
  charge_model r none = record {
    model_name = r.model;
    input_tokens = r.input_tokens;
    output_tokens = r.output_tokens;
    total_tokens = r.input_tokens + r.output_tokens;
    request_count = 1;
    cost_usd = r.cost;
  }
  charge_model r (some m) = record m {
    input_tokens = m.input_tokens + r.input_tokens;
    output_tokens = m.output_tokens + r.output_tokens;
    total_tokens = m.total_tokens + (r.input_tokens + r.output_tokens);
    request_count = m.request_count + 1;
    cost_usd = fl.plus m.cost_usd r.cost;
  }

  unfoldable pub charge_provider : UsageRecord F → Option (ProviderUsage F) → ProviderUsage F
  charge_provider r none = record {
    provider_id = r.api_key_id;
    input_tokens = r.input_tokens;
    output_tokens = r.output_tokens;
    total_tokens = r.input_tokens + r.output_tokens;
    request_count = 1;
    cost_usd = r.cost;
  }
  charge_provider r (some p) = record p {
    input_tokens = p.input_tokens + r.input_tokens;
    output_tokens = p.output_tokens + r.output_tokens;
    total_tokens = p.total_tokens + (r.input_tokens + r.output_tokens);
    request_count = p.request_count + 1;
    cost_usd = fl.plus p.cost_usd r.cost;
  }

  unfoldable pub charge : UsageRecord F → BudgetUsage F → BudgetUsage F
  charge r u = record u {
    spent_usd = fl.plus u.spent_usd r.cost;
    input_tokens = u.input_tokens + r.input_tokens;
    output_tokens = u.output_tokens + r.output_tokens;
    total_tokens = u.total_tokens + (r.input_tokens + r.output_tokens);
    request_count = u.request_count + 1;
    model_usage = put r.model (charge_model r (find r.model u.model_usage)) u.model_usage;
    provider_usage =
        put r.api_key_id (charge_provider r (find r.api_key_id u.provider_usage)) u.provider_usage;
  }

  unfoldable pub percentage : BudgetLimit F → BudgetUsage F → F
  percentage limit u =
      if fl.lt fl.zero limit.amount_usd
      then fl.times (fl.over u.spent_usd limit.amount_usd) fl.hundred
      else if ltb 0 limit.token_limit
      then fl.times (fl.over (fl.of_int u.total_tokens) (fl.of_int limit.token_limit)) fl.hundred
      else fl.zero

  abbrev pub alert_sent : Option Bool → Bool
  alert_sent none = false
  alert_sent (some b) = b

  -- `checkAlerts` with the limit and the usage that it looks up.
  unfoldable pub alert_on :
      String
      → Option (BudgetLimit F)
      → Option (BudgetUsage F)
      → OrganizationBudget F
      → OrganizationBudget F
  alert_on period none u b = b
  alert_on period (some limit) none b = b
  alert_on period (some limit) (some u) b =
      if alert_sent (find period b.alerts_sent)
      then b
      else if fl.le (fl.times limit.alert_threshold fl.hundred) (percentage limit u)
      then record b { alerts_sent = put period true b.alerts_sent }
      else b

  unfoldable pub check_alerts : String → OrganizationBudget F → OrganizationBudget F
  unfolding alert_on
  check_alerts period b = alert_on period (find period b.limits) (find period b.usage) b

-- The periods that `RecordUsage` goes through.
abbrev pub periods : List String
periods = daily ∷ weekly ∷ monthly ∷ []

module _ {ℓ} {F : Type ℓ} (fl : Float F) (cal : Calendar) where
  -- The usage of a period, made when there is none, and reset when its window has ended.
  unfoldable pub open_usage : ℕ → String → OrganizationBudget F → OrganizationBudget F
  open_usage now period b =
      let u = or_new fl cal now period (find period b.usage) in
      if after now u.window_end
      then reset_usage fl cal now period b
      else record b { usage = put period u b.usage }

  unfoldable pub record_in :
      ℕ → UsageRecord F → String → OrganizationBudget F → OrganizationBudget F
  record_in now r period b =
      let opened = open_usage now period b in
      let u = or_new fl cal now period (find period opened.usage) in
      check_alerts fl period (record opened { usage = put period (charge fl r u) opened.usage })

  -- The loop over the periods.
  unfoldable pub record_each :
      ℕ → UsageRecord F → List String → OrganizationBudget F → OrganizationBudget F
  record_each now r [] b = b
  record_each now r (period ∷ periods) b = record_each now r periods (record_in now r period b)

  unfoldable pub record_usage : ℕ → UsageRecord F → OrganizationBudget F → OrganizationBudget F
  record_usage now r b = record (record_each now r periods b) { updated_at = now }
