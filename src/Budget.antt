-- ===== src/Budget.antt =====
-- internal/billing/budget.go: the budget of an organization, with its usage by period, model and
-- provider. Go's float64 and its calendar are parameters. A period is its text, which callers
-- choose. The token counts are natural numbers.
pub mod Check
pub mod Usage
pub mod Charge
pub mod Attribution
pub mod Tally
pub mod Tests
use nexus_ai_gateway.Common.{
  ℕ, ◌+◌, ◌-◌, ◌*◌, Bool, true, false, ◌||◌, Option, none, some, List, [], ◌∷◌, String,
  if◌then◌else◌, ltb, leb, ◌==◌, str_eq,
}
use nexus_ai_gateway.Common.Clock.{after, day}
use nexus_ai_gateway.Common.Dict.{Dict, find, put}

-- The operations of float64 that the code uses; `lt` and `le` are its comparisons.
pub record Float {ℓ} (F : Type ℓ) : Type ℓ where
  pub zero : F
  pub hundred : F
  pub token_cost : F
  pub of_int : ℕ → F
  pub plus : F → F → F
  pub minus : F → F → F
  pub times : F → F → F
  pub over : F → F → F
  pub lt : F → F → Bool
  pub le : F → F → Bool
  pub eq : F → F → Bool

-- The functions of `time` that the windows use: the midnight before an instant, the instant some
-- days before, the day of the week from Sunday, the first midnight of the month, and the instant a
-- month later.
pub record Calendar : Type 0 where
  pub midnight : ℕ → ℕ
  pub days_before : ℕ → ℕ → ℕ
  pub weekday : ℕ → ℕ
  pub month_start : ℕ → ℕ
  pub add_month : ℕ → ℕ

abbrev pub daily : String
daily = "daily"

abbrev pub weekly : String
weekly = "weekly"

abbrev pub monthly : String
monthly = "monthly"

pub record BudgetLimit {ℓ} (F : Type ℓ) : Type ℓ where
  pub period : String
  pub amount_usd : F
  pub token_limit : ℕ
  pub alert_threshold : F

pub record ModelUsage {ℓ} (F : Type ℓ) : Type ℓ where
  pub model_name : String
  pub input_tokens : ℕ
  pub output_tokens : ℕ
  pub total_tokens : ℕ
  pub request_count : ℕ
  pub cost_usd : F

pub record ProviderUsage {ℓ} (F : Type ℓ) : Type ℓ where
  pub provider_id : String
  pub input_tokens : ℕ
  pub output_tokens : ℕ
  pub total_tokens : ℕ
  pub request_count : ℕ
  pub cost_usd : F

pub record BudgetUsage {ℓ} (F : Type ℓ) : Type ℓ where
  pub period : String
  pub spent_usd : F
  pub input_tokens : ℕ
  pub output_tokens : ℕ
  pub total_tokens : ℕ
  pub request_count : ℕ
  pub model_usage : Dict (ModelUsage F)
  pub provider_usage : Dict (ProviderUsage F)
  pub window_start : ℕ
  pub window_end : ℕ

pub record OrganizationBudget {ℓ} (F : Type ℓ) : Type ℓ where
  pub org_id : String
  pub limits : Dict (BudgetLimit F)
  pub usage : Dict (BudgetUsage F)
  pub alerts_sent : Dict Bool
  pub last_reset : Dict ℕ
  pub created_at : ℕ
  pub updated_at : ℕ

-- internal/billing/pricing.go.
pub record UsageRecord {ℓ} (F : Type ℓ) : Type ℓ where
  pub id : ℕ
  pub organization_id : Option ℕ
  pub user_id : Option ℕ
  pub api_key_id : String
  pub model : String
  pub input_tokens : ℕ
  pub output_tokens : ℕ
  pub cost : F
  pub period : String
  pub created_at : ℕ

pub record BudgetCheckResult {ℓ} (F : Type ℓ) : Type ℓ where
  pub allowed : Bool
  pub reason : String
  pub limit_type : String
  pub limit_period : String
  pub estimated_cost_usd : F
  pub remaining_usd : F
  pub remaining_tokens : ℕ

unfoldable pub new_organization_budget {ℓ} : {F : Type ℓ} → ℕ → String → OrganizationBudget F
new_organization_budget now org_id = record {
  org_id = org_id;
  limits = [];
  usage = [];
  alerts_sent = [];
  last_reset = [];
  created_at = now;
  updated_at = now;
}

unfoldable pub new_usage_record {ℓ} :
    {F : Type ℓ} → ℕ → String → String → String → ℕ → ℕ → F → UsageRecord F
new_usage_record now org_id provider_id model_name input_tokens output_tokens cost_usd = record {
  id = 0;
  organization_id = none;
  user_id = none;
  api_key_id = "";
  model = model_name;
  input_tokens = input_tokens;
  output_tokens = output_tokens;
  cost = cost_usd;
  period = "hourly";
  created_at = now;
}

module _ (cal : Calendar) where
  unfoldable pub get_window_start : ℕ → String → ℕ
  get_window_start now period =
      if str_eq period daily
      then cal.midnight now
      else if str_eq period weekly
      then cal.midnight (cal.days_before (cal.weekday now) now)
      else if str_eq period monthly
      then cal.month_start now
      else now

  unfoldable pub get_window_end : ℕ → String → ℕ
  get_window_end now period =
      let start = get_window_start now period in
      if str_eq period daily
      then start + day
      else if str_eq period weekly
      then start + 7 * day
      else if str_eq period monthly
      then cal.add_month start
      else start + day

module _ {ℓ} {F : Type ℓ} (fl : Float F) (cal : Calendar) where
  unfoldable pub new_usage : ℕ → String → BudgetUsage F
  new_usage now period = record {
    period = period;
    spent_usd = fl.zero;
    input_tokens = 0;
    output_tokens = 0;
    total_tokens = 0;
    request_count = 0;
    model_usage = [];
    provider_usage = [];
    window_start = get_window_start cal now period;
    window_end = get_window_end cal now period;
  }

  abbrev pub or_new : ℕ → String → Option (BudgetUsage F) → BudgetUsage F
  or_new now period none = new_usage now period
  or_new now period (some u) = u

  unfoldable pub set_limit :
      ℕ → String → BudgetLimit F → OrganizationBudget F → OrganizationBudget F
  set_limit now period limit b = record b {
    limits = put period limit b.limits;
    usage = put period (or_new now period (find period b.usage)) b.usage;
    updated_at = now;
  }

  unfoldable pub reset_usage : ℕ → String → OrganizationBudget F → OrganizationBudget F
  reset_usage now period b = record b {
    usage = put period (new_usage now period) b.usage;
    alerts_sent = put period false b.alerts_sent;
    last_reset = put period now b.last_reset;
  }
