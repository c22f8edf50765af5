-- ===== src/Budget/Charge.antt =====
-- One record added to the usage of a period, and the sums over the models and the providers.
use nexus_ai_gateway.Common.{
  ℕ, ◌+◌, ◌≡◌, Option, none, some, [], ◌∷◌, String, str_eq, arith, refl, Bool-cases, inl, inr,
}
use nexus_ai_gateway.Common.Dict.{Dict, find, put}
use nexus_ai_gateway.Budget.{Float, ModelUsage, ProviderUsage, BudgetUsage, UsageRecord}
use nexus_ai_gateway.Budget.Usage.{charge_model, charge_provider, charge}

module _ {ℓ} {V : Type ℓ} (f : V → ℕ) where
  abbrev pub sum_by : Dict V → ℕ
  sum_by [] = 0
  sum_by ((k, v) ∷ m) = f v + sum_by m

  abbrev pub value_of : Option V → ℕ
  value_of none = 0
  value_of (some v) = f v

  pub sum_by-put :
      (k : String) (v : V) (m : Dict V) → sum_by (put k v m) + value_of (find k m) ≡ sum_by m + f v
  unfolding find put
  sum_by-put k v [] = omega arith
  sum_by-put k v ((i, w) ∷ m) = elim (Bool-cases (str_eq i k)) [
    | inl same ↦ simp same (omega arith)
    | inr other ↦ simp other (omega (arith, sum_by-put k v m))
  ]

module _ {ℓ} {F : Type ℓ} where
  abbrev pub model_tokens : ModelUsage F → ℕ
  model_tokens m = m.total_tokens

  abbrev pub model_requests : ModelUsage F → ℕ
  model_requests m = m.request_count

  abbrev pub provider_tokens : ProviderUsage F → ℕ
  provider_tokens p = p.total_tokens

  abbrev pub provider_requests : ProviderUsage F → ℕ
  provider_requests p = p.request_count

  -- The totals are those of input and output, of the models, and of the providers.
  abbrev pub IsAttributed : BudgetUsage F → Type 0
  IsAttributed u =
      (u.total_tokens ≡ u.input_tokens + u.output_tokens)
      × (sum_by model_tokens u.model_usage ≡ u.total_tokens)
      × (sum_by provider_tokens u.provider_usage ≡ u.total_tokens)
      × (sum_by model_requests u.model_usage ≡ u.request_count)
      × (sum_by provider_requests u.provider_usage ≡ u.request_count)

  abbrev pub EachAttributed : Option (BudgetUsage F) → Type 0
  EachAttributed none = Unit
  EachAttributed (some u) = IsAttributed u

module _ {ℓ} {F : Type ℓ} (fl : Float F) where
  charge_model-adds :
      (r : UsageRecord F) (o : Option (ModelUsage F))
      → (model_tokens (charge_model fl r o)
          ≡ value_of model_tokens o + (r.input_tokens + r.output_tokens))
        × (model_requests (charge_model fl r o) ≡ value_of model_requests o + 1)
  unfolding charge_model
  charge_model-adds r none = (omega arith, omega arith)
  charge_model-adds r (some m) = (refl, refl)

  charge_provider-adds :
      (r : UsageRecord F) (o : Option (ProviderUsage F))
      → (provider_tokens (charge_provider fl r o)
          ≡ value_of provider_tokens o + (r.input_tokens + r.output_tokens))
        × (provider_requests (charge_provider fl r o) ≡ value_of provider_requests o + 1)
  unfolding charge_provider
  charge_provider-adds r none = (omega arith, omega arith)
  charge_provider-adds r (some p) = (refl, refl)

  pub charge-IsAttributed :
      (r : UsageRecord F) (u : BudgetUsage F) → IsAttributed u → IsAttributed (charge fl r u)
  unfolding charge
  charge-IsAttributed r u (t, m, p, mr, pr) =
      let model = find r.model u.model_usage in
      let provider = find r.api_key_id u.provider_usage in
      let (mt, mn) = charge_model-adds r model in
      let (pt, pn) = charge_provider-adds r provider in
      (
        omega (arith, t),
        omega
            (arith, m, mt, sum_by-put model_tokens r.model (charge_model fl r model) u.model_usage),
        omega (
          arith,
          p,
          pt,
          sum_by-put provider_tokens r.api_key_id (charge_provider fl r provider) u.provider_usage,
        ),
        omega (
          arith,
          mr,
          mn,
          sum_by-put model_requests r.model (charge_model fl r model) u.model_usage,
        ),
        omega (
          arith,
          pr,
          pn,
          sum_by-put provider_requests r.api_key_id (charge_provider fl r provider)
              u.provider_usage,
        ),
      )
