-- ===== src/Budget/Check.antt =====
-- internal/billing/budget.go: `CheckBudget`. The limits are visited in the order of their map, which
-- Go leaves open.
use nexus_ai_gateway.Common.{
  ℕ, ◌-◌, ◌≡◌, Bool, true, false, ◌&&◌, ◌||◌, not, Option, none, some, [], ◌∷◌, String,
  if◌then◌else◌, ltb, leb, ◌==◌, arith, refl, Bool-cases, inl, inr, ◌∙◌, sym,
}
use nexus_ai_gateway.Common.Dict.{Dict, find}
use nexus_ai_gateway.Budget.{Float, BudgetLimit, BudgetUsage, OrganizationBudget, BudgetCheckResult}

-- How a check of a limit ends: with a return, or with the result so far.
pub data Verdict {ℓ} (F : Type ℓ) : Type ℓ where
  refuses : BudgetCheckResult F → Verdict F
  passes : BudgetCheckResult F → Verdict F

abbrev pub and_then {ℓ} : {F : Type ℓ} → Verdict F → (BudgetCheckResult F → Verdict F) → Verdict F
and_then (refuses r) next = refuses r
and_then (passes r) next = next r

abbrev pub result_of_check {ℓ} : {F : Type ℓ} → Verdict F → BudgetCheckResult F
result_of_check (refuses r) = r
result_of_check (passes r) = r

none_left : (limit total : ℕ) → leb (limit - total) 0 ≡ true → ltb total limit ≡ false
none_left limit total h = ground arith

some_left : (limit total : ℕ) → leb (limit - total) 0 ≡ false → ltb total limit ≡ true
some_left limit total h = ground arith

module _ {ℓ} {F : Type ℓ} (fl : Float F) where
  unfoldable pub check_usd :
      String → BudgetLimit F → BudgetUsage F → BudgetCheckResult F → Verdict F
  check_usd period limit u r =
      let remaining = fl.minus limit.amount_usd u.spent_usd in
      if fl.lt fl.zero limit.amount_usd
      then if fl.le remaining fl.zero
        then refuses (record r {
          allowed = false;
          reason = "budget_exceeded";
          limit_type = "usd";
          limit_period = period;
        })
        else if fl.lt remaining r.remaining_usd || fl.eq r.remaining_usd fl.zero
        then passes (record r { remaining_usd = remaining })
        else passes r
      else passes r

  unfoldable pub check_tokens :
      String → BudgetLimit F → BudgetUsage F → BudgetCheckResult F → Verdict F
  check_tokens period limit u r =
      let remaining = limit.token_limit - u.total_tokens in
      if ltb 0 limit.token_limit
      then if leb remaining 0
        then refuses (record r {
          allowed = false;
          reason = "token_limit_exceeded";
          limit_type = "tokens";
          limit_period = period;
        })
        else if ltb remaining r.remaining_tokens || r.remaining_tokens == 0
        then passes (record r { remaining_tokens = remaining })
        else passes r
      else passes r

  unfoldable pub check_limit :
      String → BudgetLimit F → Option (BudgetUsage F) → BudgetCheckResult F → Verdict F
  check_limit period limit none r = passes r
  check_limit period limit (some u) r =
      and_then (check_usd period limit u r) (check_tokens period limit u)

  unfoldable pub check_limits :
      Dict (BudgetLimit F) → Dict (BudgetUsage F) → BudgetCheckResult F → Verdict F
  check_limits [] usage r = passes r
  check_limits ((period, limit) ∷ limits) usage r =
      and_then (check_limit period limit (find period usage) r) (check_limits limits usage)

  unfoldable pub check_budget : String → String → ℕ → OrganizationBudget F → BudgetCheckResult F
  check_budget provider_id model_name estimated_tokens b = result_of_check (
      check_limits b.limits b.usage (record {
        allowed = true;
        reason = "";
        limit_type = "";
        limit_period = "";
        estimated_cost_usd = fl.times (fl.of_int estimated_tokens) fl.token_cost;
        remaining_usd = fl.zero;
        remaining_tokens = 0;
      }))

  -- What is left of each limit is positive, where the limit is.
  abbrev pub within_limit : BudgetLimit F → Option (BudgetUsage F) → Bool
  within_limit limit none = true
  within_limit limit (some u) =
      (not (fl.lt fl.zero limit.amount_usd)
        || not (fl.le (fl.minus limit.amount_usd u.spent_usd) fl.zero))
      && (not (ltb 0 limit.token_limit) || ltb u.total_tokens limit.token_limit)

  abbrev pub within_limits : Dict (BudgetLimit F) → Dict (BudgetUsage F) → Bool
  within_limits [] usage = true
  within_limits ((period, limit) ∷ limits) usage =
      within_limit limit (find period usage) && within_limits limits usage

  -- The verdict and what the result of it says are as `good` says.
  IsVerdict : Bool → Verdict F → Type 0
  IsVerdict good (refuses r) = (good ≡ false) × (r.allowed ≡ false)
  IsVerdict good (passes r) = (good ≡ true) × (r.allowed ≡ true)

  and_then-IsVerdict :
      (a b : Bool) (v : Verdict F) (next : BudgetCheckResult F → Verdict F)
      → IsVerdict a v
      → ((r : BudgetCheckResult F) → r.allowed ≡ true → IsVerdict b (next r))
      → IsVerdict (a && b) (and_then v next)
  unfolding IsVerdict
  and_then-IsVerdict a b (refuses r) next (e, f) h = (rw e refl, f)
  and_then-IsVerdict a b (passes r) next (e, f) h = rw e (h r f)

  check_usd-IsVerdict :
      (period : String) (limit : BudgetLimit F) (u : BudgetUsage F) (r : BudgetCheckResult F)
      → r.allowed ≡ true
      → IsVerdict
          (not (fl.lt fl.zero limit.amount_usd)
            || not (fl.le (fl.minus limit.amount_usd u.spent_usd) fl.zero))
          (check_usd period limit u r)
  unfolding check_usd IsVerdict
  check_usd-IsVerdict period limit u r h =
      let remaining = fl.minus limit.amount_usd u.spent_usd in
      elim (Bool-cases (fl.lt fl.zero limit.amount_usd)) [
        | inl limited ↦ elim (Bool-cases (fl.le remaining fl.zero)) [
          | inl spent ↦ simp (limited, spent) (refl, refl)
          | inr left ↦
              elim (Bool-cases (fl.lt remaining r.remaining_usd || fl.eq r.remaining_usd fl.zero)) [
                | inl less ↦ simp (limited, left, less) (refl, h)
                | inr more ↦ simp (limited, left, more) (refl, h)
              ]
        ]
        | inr free ↦ simp free (refl, h)
      ]

  check_tokens-IsVerdict :
      (period : String) (limit : BudgetLimit F) (u : BudgetUsage F) (r : BudgetCheckResult F)
      → r.allowed ≡ true
      → IsVerdict
          (not (ltb 0 limit.token_limit) || ltb u.total_tokens limit.token_limit)
          (check_tokens period limit u r)
  unfolding check_tokens IsVerdict
  check_tokens-IsVerdict period limit u r h =
      let remaining = limit.token_limit - u.total_tokens in
      elim (Bool-cases (ltb 0 limit.token_limit)) [
        | inl limited ↦ elim (Bool-cases (leb remaining 0)) [
          | inl spent ↦
              simp (limited, spent) (none_left limit.token_limit u.total_tokens spent, refl)
          | inr left ↦
              elim (Bool-cases (ltb remaining r.remaining_tokens || r.remaining_tokens == 0)) [
                | inl less ↦
                    simp (limited, left, less) (some_left limit.token_limit u.total_tokens left, h)
                | inr more ↦
                    simp (limited, left, more) (some_left limit.token_limit u.total_tokens left, h)
              ]
        ]
        | inr free ↦ simp free (refl, h)
      ]

  check_limit-IsVerdict :
      (period : String) (limit : BudgetLimit F) (u : Option (BudgetUsage F))
      (r : BudgetCheckResult F)
      → r.allowed ≡ true
      → IsVerdict (within_limit limit u) (check_limit period limit u r)
  unfolding check_limit IsVerdict
  check_limit-IsVerdict period limit none r h = (refl, h)
  check_limit-IsVerdict period limit (some u) r h =
      and_then-IsVerdict _ _ (check_usd period limit u r) (check_tokens period limit u)
        (check_usd-IsVerdict period limit u r h) (check_tokens-IsVerdict period limit u)

  check_limits-IsVerdict :
      (limits : Dict (BudgetLimit F)) (usage : Dict (BudgetUsage F)) (r : BudgetCheckResult F)
      → r.allowed ≡ true
      → IsVerdict (within_limits limits usage) (check_limits limits usage r)
  unfolding check_limits IsVerdict
  check_limits-IsVerdict [] usage r h = (refl, h)
  check_limits-IsVerdict ((period, limit) ∷ limits) usage r h =
      and_then-IsVerdict _ _ (check_limit period limit (find period usage) r)
        (check_limits limits usage) (check_limit-IsVerdict period limit (find period usage) r h)
        (check_limits-IsVerdict limits usage)

  result_of-IsVerdict :
      (good : Bool) (v : Verdict F) → IsVerdict good v → (result_of_check v).allowed ≡ good
  unfolding IsVerdict
  result_of-IsVerdict good (refuses r) (e, f) = f ∙ sym e
  result_of-IsVerdict good (passes r) (e, f) = f ∙ sym e

  -- A request is allowed exactly when each limit of the budget that has usage has something left,
  -- whatever number of tokens it is estimated to need.
  pub check_budget-within_limits :
      (provider_id model_name : String) (estimated_tokens : ℕ) (b : OrganizationBudget F)
      → (check_budget provider_id model_name estimated_tokens b).allowed
        ≡ within_limits b.limits b.usage
  unfolding check_budget
  check_budget-within_limits provider_id model_name estimated_tokens b =
      result_of-IsVerdict _ _ (check_limits-IsVerdict b.limits b.usage _ refl)
