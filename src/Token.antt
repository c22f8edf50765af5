-- ===== src/Token.antt =====
-- internal/token/group.go, service.go and repo.go: groups of tokens with quotas. The table of the
-- database is a function from IDs to rows; each statement of the repository is one step on it, and
-- the database answers. Quotas and counts are not negative, as `Validate` demands of
-- the quotas, and their sums are taken to stay below 2^63.
pub mod Quotas
pub mod Remaining
pub mod Tests
use nexus_ai_gateway.Common.{
  ℕ, ◌+◌, ◌-◌, Bool, true, false, ◌||◌, ◌&&◌, Option, none, some, List, [], ◌∷◌, String,
  if◌then◌else◌, ltb, leb, ◌==◌, str_eq,
}
use nexus_ai_gateway.Common.Int.{ℤ, pos, negsuc, sub_ℕ, lt_int}

pub record TokenGroup : Type 0 where
  pub id : ℕ
  pub name : String
  pub allowed_models : List String
  pub daily_quota : ℕ
  pub hourly_quota : ℕ
  pub monthly_quota : ℕ
  pub used_today : ℕ
  pub used_this_hour : ℕ
  pub used_this_month : ℕ
  pub is_active : Bool
  pub priority : ℕ
  pub created_at : ℕ
  pub updated_at : ℕ

pub data TokenError : Type 0 where
  token_group_not_found quota_exceeded : TokenError
  invalid_period : String → TokenError

abbrev pub Table : Type 0
Table = ℕ → Option TokenGroup

abbrev pub lists_model : String → List String → Bool
lists_model model [] = false
lists_model model (m ∷ ms) = str_eq m model || str_eq m "*" || lists_model model ms

unfoldable pub is_model_allowed : String → List String → Bool
is_model_allowed model [] = true
is_model_allowed model (m ∷ ms) = lists_model model (m ∷ ms)

-- A quota of 0 is none.
abbrev pub over : ℕ → ℕ → ℕ → Bool
over quota used tokens = ltb 0 quota && ltb quota (used + tokens)

unfoldable pub can_consume : ℕ → TokenGroup → Bool
can_consume tokens tg =
    if tg.is_active
    then if over tg.hourly_quota tg.used_this_hour tokens
      then false
      else if over tg.daily_quota tg.used_today tokens
      then false
      else if over tg.monthly_quota tg.used_this_month tokens
      then false
      else true
    else false

-- -1 stands for no limit.
abbrev pub is_unlimited : ℤ → Bool
is_unlimited (pos n) = false
is_unlimited (negsuc n) = n == 0

-- One of the three tests of `RemainingQuota`.
abbrev pub limit : ℕ → ℕ → ℤ → ℤ
limit quota used remaining =
    if ltb 0 quota
    then if is_unlimited remaining || lt_int (sub_ℕ quota used) remaining
      then sub_ℕ quota used
      else remaining
    else remaining

unfoldable pub remaining_quota : TokenGroup → ℤ
remaining_quota tg =
    limit tg.monthly_quota tg.used_this_month
      (limit tg.daily_quota tg.used_today (limit tg.hourly_quota tg.used_this_hour (negsuc 0)))

-- The statements of the repository: a row read, written over, or changed in place.
unfoldable pub get_by_id : ℕ → Table → Option TokenGroup
get_by_id id t = t id

abbrev pub change : ℕ → (TokenGroup → TokenGroup) → Table → Table
change id f t i = elim (t i) [ none ↦ none | some tg ↦ if i == id then some (f tg) else some tg ]

unfoldable pub increment_usage : ℕ → ℕ → ℕ → ℕ → Table → Table
increment_usage now id input output = change id (λ tg. record tg {
  used_today = tg.used_today + (input + output);
  used_this_hour = tg.used_this_hour + (input + output);
  used_this_month = tg.used_this_month + (input + output);
  updated_at = now;
})

unfoldable pub reset_hourly_usage : ℕ → ℕ → Table → Table
reset_hourly_usage now id = change id (λ tg. record tg { used_this_hour = 0; updated_at = now })

unfoldable pub reset_daily_usage : ℕ → ℕ → Table → Table
reset_daily_usage now id = change id (λ tg. record tg { used_today = 0; updated_at = now })

unfoldable pub reset_monthly_usage : ℕ → ℕ → Table → Table
reset_monthly_usage now id = change id (λ tg. record tg { used_this_month = 0; updated_at = now })

unfoldable pub update_row : ℕ → TokenGroup → Table → Table
update_row now tg =
    change tg.id (λ old. record tg { id = old.id; created_at = old.created_at; updated_at = now })

abbrev pub row_affected : Option TokenGroup → Option TokenError
row_affected none = some token_group_not_found
row_affected (some tg) = none

unfoldable pub delete : ℕ → Table → Table × Option TokenError
delete id t = ((λ i. if i == id then none else t i), row_affected (t id))

-- What `ConsumeTokens` decides on the row that it has read.
abbrev pub admits : ℕ → Option TokenGroup → Option TokenError
admits tokens none = some token_group_not_found
admits tokens (some tg) = if can_consume tokens tg then none else some quota_exceeded

-- The second statement of `ConsumeTokens`, after the decision.
abbrev pub after_decision : ℕ → ℕ → ℕ → ℕ → Option TokenError → Table → Table × Option TokenError
after_decision now id input output none t = (increment_usage now id input output t, none)
after_decision now id input output (some e) t = (t, some e)

-- `ConsumeTokens` with no statement of another caller between its two.
unfoldable pub consume_tokens : ℕ → ℕ → ℕ → ℕ → Table → Table × Option TokenError
consume_tokens now id input output t =
    after_decision now id input output (admits (input + output) (get_by_id id t)) t

unfoldable pub check_quota : ℕ → ℕ → Table → Bool × Option TokenError
check_quota id tokens t = elim (admits tokens (get_by_id id t)) [
  | none ↦ (true, none)
  | some e ↦ (false, some e)
]

unfoldable pub reset_usage : ℕ → ℕ → String → Table → Table × Option TokenError
reset_usage now id period t =
    if str_eq period "hourly"
    then (reset_hourly_usage now id t, none)
    else if str_eq period "daily"
    then (reset_daily_usage now id t, none)
    else if str_eq period "monthly"
    then (reset_monthly_usage now id t, none)
    else (t, some (invalid_period period))

-- `Activate`, `Deactivate` and `AssignModels` read a row and write all of it back.
abbrev pub rewrite :
    ℕ → (TokenGroup → TokenGroup) → Option TokenGroup → Table → Table × Option TokenError
rewrite now f none t = (t, some token_group_not_found)
rewrite now f (some tg) t = (update_row now (f tg) t, row_affected (t (f tg).id))

unfoldable pub activate : ℕ → ℕ → Table → Table × Option TokenError
activate now id t = rewrite now (λ tg. record tg { is_active = true }) (get_by_id id t) t

unfoldable pub deactivate : ℕ → ℕ → Table → Table × Option TokenError
deactivate now id t = rewrite now (λ tg. record tg { is_active = false }) (get_by_id id t) t

unfoldable pub assign_models : ℕ → ℕ → List String → Table → Table × Option TokenError
assign_models now id models t =
    rewrite now (λ tg. record tg { allowed_models = models }) (get_by_id id t) t
