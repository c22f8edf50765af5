-- ===== src/Budget/Tests.antt =====
-- Runs of the budget with numbers for floats, and the instances of the properties.
use nexus_ai_gateway.Common.{ℕ, ◌+◌, ◌-◌, ◌*◌, ◌/◌, ◌≡◌, false, List, [], ◌∷◌, refl, ltb, leb, ◌==◌}
use nexus_ai_gateway.Common.Clock.{day}
use nexus_ai_gateway.Common.Dict.{find, put}
use nexus_ai_gateway.Budget.{
  Float, Calendar, daily, weekly, monthly, BudgetLimit, BudgetUsage, OrganizationBudget,
  UsageRecord, new_organization_budget, new_usage_record, get_window_start, get_window_end,
  new_usage, set_limit, reset_usage,
}
use nexus_ai_gateway.Budget.Usage.{
  charge_model, charge_provider, charge, percentage, alert_on, check_alerts, open_usage, record_in,
  record_each, record_usage,
}
use nexus_ai_gateway.Budget.Check.{
  check_usd, check_tokens, check_limit, check_limits, check_budget, within_limits,
  check_budget-within_limits,
}
use nexus_ai_gateway.Budget.Charge.{IsAttributed}
use nexus_ai_gateway.Budget.Attribution.{Op, sets, records, resets, run, run-IsAttributed}
use nexus_ai_gateway.Budget.Tally.{Counts, record_usage-Counts}

-- Cents in place of dollars.
abbrev cents : Float ℕ
cents = record {
  zero = 0;
  hundred = 100;
  token_cost = 1;
  of_int = λ n. n;
  plus = λ a b. a + b;
  minus = λ a b. a - b;
  times = λ a b. a * b;
  over = λ a b. a / b;
  lt = λ a b. ltb a b;
  le = λ a b. leb a b;
  eq = λ a b. a == b;
}

-- Days of one unit of time, weeks of 7 and months of 30.
abbrev plain : Calendar
plain = record {
  midnight = λ t. t;
  days_before = λ d t. t - d;
  weekday = λ t. 0;
  month_start = λ t. t;
  add_month = λ t. t + 30 * day;
}

abbrev hundred_a_day : BudgetLimit ℕ
hundred_a_day = record { period = "daily"; amount_usd = 0; token_limit = 100; alert_threshold = 1 }

abbrev call : UsageRecord ℕ
unfolding new_usage_record
call = new_usage_record 0 "o" "openai" "gpt-4o" 40 20 3

abbrev calls : List (Op ℕ)
unfolding call
calls = sets 0 "daily" hundred_a_day ∷ records 1 call ∷ records 2 call ∷ resets 3 "weekly" ∷ []

abbrev spent : OrganizationBudget ℕ
unfolding calls
spent = run cents plain calls (new_organization_budget 0 "o")

-- 120 of 100 tokens are used, and the window is over, but no request of any size is allowed.
refused_after_the_day : (check_budget cents "openai" "gpt-4o" 1 spent).allowed ≡ false
unfolding check_budget check_limits check_limit check_usd check_tokens spent calls call
    new_organization_budget new_usage_record set_limit record_usage record_each record_in open_usage
    check_alerts alert_on percentage charge charge_model charge_provider reset_usage new_usage
    get_window_start get_window_end find put
refused_after_the_day = refl

-- The provider of the call is not the one that the record was made for.
attributed_to_no_provider : call.api_key_id ≡ ""
unfolding call new_usage_record
attributed_to_no_provider = refl

check_budget-within_limits_example :
    (check_budget cents "openai" "gpt-4o" 1 spent).allowed
    ≡ within_limits cents spent.limits spent.usage
check_budget-within_limits_example = check_budget-within_limits cents "openai" "gpt-4o" 1 spent

abbrev daily_usage : BudgetUsage ℕ
unfolding new_usage get_window_start get_window_end
daily_usage = new_usage cents plain 0 "daily"

run-IsAttributed_example : IsAttributed daily_usage
unfolding new_organization_budget set_limit find put daily_usage
run-IsAttributed_example =
    run-IsAttributed cents plain 0 "o" (sets 0 "daily" hundred_a_day ∷ []) "daily" daily_usage refl

record_usage-Counts_example :
    Counts cents plain 5 call daily spent
    × Counts cents plain 5 call weekly spent
    × Counts cents plain 5 call monthly spent
record_usage-Counts_example = record_usage-Counts cents plain 5 call spent
