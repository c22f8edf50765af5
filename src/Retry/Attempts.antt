-- ===== src/Retry/Attempts.antt =====
-- Which attempt the retry loop returns, and how many it makes.
use nexus_ai_gateway.Common.{
  ℕ, zero, suc, ◌+◌, ◌≤◌, ◌<◌, ◌≡◌, Option, none, some, refl, ◌∙◌, subst, arith, Option-cases, inl,
  inr,
}
use nexus_ai_gateway.Common.Int.{pos}
use nexus_ai_gateway.Retry.Loop.{World, RetryConfig, attempts, retry}

module _ {ℓ} {R E : Type ℓ} (outcome : ℕ → R × Option E) where
  -- The context does not end, and the state is the number of the calls so far.
  abbrev pub scripted : World ℕ R E
  scripted = record {
    fn = λ i. (i + 1, (outcome i).0, (outcome i).1);
    ended = λ i. none;
    wait = λ a i. (i, none);
  }

  abbrev pub Fails : ℕ → Type ℓ
  Fails i = (e : E) × ((outcome i).1 ≡ some e)

  succeeds_now :
      (n attempt i : ℕ)
      → (outcome i).1 ≡ none
      → attempts scripted attempt n i ≡ (i + 1, some (outcome i).0, none)
  unfolding attempts
  succeeds_now zero attempt i h = rw h
  succeeds_now (suc n) attempt i h = rw h

  Fails-now :
      (n attempt i : ℕ)
      → Fails i
      → attempts scripted attempt (suc n) i ≡ attempts scripted (attempt + 1) n (i + 1)
  unfolding attempts
  Fails-now n attempt i (e, h) = rw h

  attempts-succeed :
      (k n attempt i m : ℕ)
      → m ≡ i + k
      → k ≤ n
      → ((j : ℕ) → i ≤ j → j < m → Fails j)
      → (outcome m).1 ≡ none
      → attempts scripted attempt n i ≡ (m + 1, some (outcome m).0, none)
  attempts-succeed zero n attempt i m e l f h =
      subst (λ j. attempts scripted attempt n j ≡ (m + 1, some (outcome m).0, none)) (omega arith)
        (succeeds_now n attempt m h)
  attempts-succeed (suc k) zero attempt i m e l f h = absurd (omega arith)
  attempts-succeed (suc k) (suc n) attempt i m e l f h =
      Fails-now n attempt i (f i (omega arith) (omega arith))
      ∙ attempts-succeed k n (attempt + 1) (i + 1) m (omega arith) (omega arith)
          (λ j a b. f j (omega arith) b) h

  attempts-exhaust :
      (n attempt i m : ℕ)
      → m ≡ i + n
      → ((j : ℕ) → i ≤ j → j < m → Fails j)
      → attempts scripted attempt n i ≡ (m + 1, some (outcome m).0, (outcome m).1)
  unfolding attempts
  attempts-exhaust zero attempt i m e f =
      subst (λ j. attempts scripted attempt 0 j ≡ (m + 1, some (outcome m).0, (outcome m).1))
        (omega arith) refl
  attempts-exhaust (suc n) attempt i m e f =
      Fails-now n attempt i (f i (omega arith) (omega arith))
      ∙ attempts-exhaust n (attempt + 1) (i + 1) m (omega arith) (λ j a b. f j (omega arith) b)

  -- With a context that does not end, the first attempt that succeeds is returned, after as many
  -- calls as it takes, if it is among the first and the retries.
  pub retry_first_success :
      (config : RetryConfig) (n m : ℕ)
      → config.max_retries ≡ pos n
      → m ≤ n
      → ((j : ℕ) → j < m → Fails j)
      → (outcome m).1 ≡ none
      → retry scripted config 0 ≡ (m + 1, some (outcome m).0, none)
  unfolding retry
  retry_first_success config n m c l f h =
      rw c (attempts-succeed m n 0 0 m (omega arith) l (λ j a b. f j b) h)

  -- With a context that does not end and attempts that all fail, the last of them is returned with
  -- its error, after one call and as many more as there are retries.
  pub retry_exhausts :
      (config : RetryConfig) (n : ℕ)
      → config.max_retries ≡ pos n
      → ((j : ℕ) → j < n → Fails j)
      → retry scripted config 0 ≡ (n + 1, some (outcome n).0, (outcome n).1)
  unfolding retry
  retry_exhausts config n c f = rw c (attempts-exhaust n 0 0 n (omega arith) (λ j a b. f j b))

module _ {ℓ κ} {S : Type κ} {R E : Type ℓ} (w : World S R E) (calls : S → ℕ) where
  attempts-calls :
      (n attempt : ℕ) (s : S)
      → ((t : S) → calls (w.fn t).0 ≡ calls t + 1)
      → ((a : ℕ) (t : S) → calls (w.wait a t).0 ≡ calls t)
      → calls (attempts w attempt n s).0 ≤ calls s + n + 1
  unfolding attempts
  attempts-calls zero attempt s f k = elim (Option-cases (w.ended s)) [
    | inl go ↦ rw (go, attempts) (omega (arith, f s))
    | inr (e, h) ↦ rw (h, attempts) (omega arith)
  ]
  attempts-calls (suc n) attempt s f k =
      let s' = (w.fn s).0 in
      let s'' = (w.wait attempt s').0 in
      elim (Option-cases (w.ended s)) [
        | inr (e, h) ↦ rw (h, attempts) (omega arith)
        | inl go ↦ elim (Option-cases (w.fn s).2) [
          | inl done ↦ rw (go, done, attempts) (omega (arith, f s))
          | inr (e, h) ↦ elim (Option-cases (w.wait attempt s').1) [
            | inr (e', h') ↦ rw (go, h, h', attempts) (omega (arith, f s, k attempt s'))
            | inl on ↦
                rw (go, h, on, attempts)
                  (omega (arith, f s, k attempt s', attempts-calls n (attempt + 1) s'' f k))
          ]
        ]
      ]

  -- Whatever the function does and wherever the context ends, the function is called at most once
  -- and as often again as there are retries, as a measure of the state counts the calls, if the
  -- waits leave it as it is.
  pub retry-calls_bound :
      (config : RetryConfig) (n : ℕ) (s : S)
      → config.max_retries ≡ pos n
      → ((t : S) → calls (w.fn t).0 ≡ calls t + 1)
      → ((a : ℕ) (t : S) → calls (w.wait a t).0 ≡ calls t)
      → calls (retry w config s).0 ≤ calls s + n + 1
  unfolding retry
  retry-calls_bound config n s c f k = rw c (attempts-calls n 0 s f k)
