-- ===== src/Token/Tests.antt =====
-- Concrete groups of tokens: calls that run one after another, and two that overlap.
use nexus_ai_gateway.Common.{ℕ, ◌≡◌, true, zero, suc, Option, none, some, List, [], ◌∷◌, refl}
use nexus_ai_gateway.Common.Int.{pos}
use nexus_ai_gateway.Token.{
  TokenGroup, token_group_not_found, quota_exceeded, invalid_period, Table, can_consume,
  remaining_quota, admits, after_decision, consume_tokens, get_by_id, increment_usage, reset_usage,
  activate, update_row,
}
use nexus_ai_gateway.Token.Remaining.{can_consume-remaining_quota, fits}
use nexus_ai_gateway.Token.Quotas.{
  Op, consumes, resets, deletes, run, RowWithin, AllWithin, run-AllWithin, AllWithin-rows,
}

-- 100 tokens an hour, 90 of them used, and 1000 a month.
abbrev ninety : TokenGroup
ninety = record {
  id = 1;
  name = "team";
  allowed_models = [];
  daily_quota = 0;
  hourly_quota = 100;
  monthly_quota = 1000;
  used_today = 90;
  used_this_hour = 90;
  used_this_month = 90;
  is_active = true;
  priority = 0;
  created_at = 0;
  updated_at = 0;
}

abbrev groups : Table
groups zero = none
groups (suc zero) = some ninety
groups (suc (suc i)) = none

groups-RowWithin : (i : ℕ) → RowWithin (groups i)
groups-RowWithin zero = tt
groups-RowWithin (suc zero) = (refl, refl, refl)
groups-RowWithin (suc (suc i)) = tt

abbrev calls : List Op
calls =
    consumes 1 1 5 5 ∷ consumes 2 1 5 0 ∷ resets 3 1 "hourly" ∷ consumes 4 1 50 0 ∷ deletes 7 ∷ []

run-AllWithin_example : AllWithin (run calls groups)
run-AllWithin_example = run-AllWithin calls groups (AllWithin-rows groups groups-RowWithin)

can_consume-remaining_quota_example : can_consume 10 ninety ≡ fits 10 (remaining_quota ninety)
can_consume-remaining_quota_example = can_consume-remaining_quota 10 ninety refl (refl, refl, refl)

-- Ten tokens remain.
ten_remain : remaining_quota ninety ≡ pos 10
unfolding remaining_quota
ten_remain = refl

abbrev used_in : Option TokenGroup → ℕ
used_in none = 0
used_in (some tg) = tg.used_this_hour

one_after_another : (consume_tokens 1 1 11 0 groups).1 ≡ some quota_exceeded
unfolding consume_tokens can_consume get_by_id
one_after_another = refl

-- Two calls that both read the row before either adds to it use 110 tokens of 100.
abbrev overlapped : Table
overlapped =
    let first = admits 10 (groups 1) in
    let second = admits 10 (groups 1) in
    (after_decision 1 1 10 0 second (after_decision 1 1 10 0 first groups).0).0

overlapping_calls_exceed : used_in (overlapped 1) ≡ 110
unfolding can_consume increment_usage
overlapping_calls_exceed = refl

-- A row that is written back after another call has used tokens forgets them.
written_back : used_in (update_row 2 ninety (consume_tokens 1 1 5 5 groups).0 1) ≡ 90
unfolding consume_tokens can_consume get_by_id increment_usage update_row
written_back = refl

wrong_period : (reset_usage 1 1 "weekly" groups).1 ≡ some (invalid_period "weekly")
unfolding reset_usage
wrong_period = refl

unknown_group : (activate 1 7 groups).1 ≡ some token_group_not_found
unfolding activate get_by_id
unknown_group = refl
