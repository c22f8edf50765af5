-- ===== src/Retry/Loop.antt =====
-- internal/retry/retry.go: the retry loop. The function that is retried, the end of the context and
-- the wait between two attempts are parameters, since the callers, the runtime and the random
-- jitter decide them; a state stands for all that they read and change.
use nexus_ai_gateway.Common.{
  ℕ, zero, suc, ◌+◌, ◌*◌, Bool, true, false, ◌||◌, Option, none, some, List, [], ◌∷◌, ◌==◌,
}
use nexus_ai_gateway.Common.Clock.{second}
use nexus_ai_gateway.Common.Int.{ℤ, pos, negsuc}

pub record RetryConfig : Type 0 where
  pub max_retries : ℤ
  pub base_delay : ℕ
  pub max_delay : ℕ
  pub jitter : Bool
  pub retryable_codes : List ℕ

abbrev pub default_retry_config : RetryConfig
default_retry_config = record {
  max_retries = pos 3;
  base_delay = 100_000_000;
  max_delay = 5 * second;
  jitter = true;
  retryable_codes = 408 ∷ 429 ∷ 500 ∷ 502 ∷ 503 ∷ 504 ∷ [];
}

abbrev pub lists_code : ℕ → List ℕ → Bool
lists_code status [] = false
lists_code status (code ∷ codes) = status == code || lists_code status codes

-- `failed` says that the error is not nil.
unfoldable pub is_retryable : ℕ → Bool → RetryConfig → Bool
is_retryable status failed config = lists_code status config.retryable_codes || failed

-- The world of a call: `fn` gives a result and an error, or `none` for no error; `ended` is the
-- error of the context, once it has ended; and `wait` is the second `select` after the attempt of
-- that number, which gives the context's error if it takes that branch.
pub record World {ℓ κ} (S : Type κ) (R E : Type ℓ) : Type (ℓ ⊔ κ) where
  pub fn : S → S × R × Option E
  pub ended : S → Option E
  pub wait : ℕ → S → S × Option E

module _ {ℓ κ} {S : Type κ} {R E : Type ℓ} (w : World S R E) where
  -- The loop from an attempt on, with the number of those that follow it.
  unfoldable pub attempts : ℕ → ℕ → S → S × Option R × Option E
  attempts attempt zero s = elim (w.ended s) [
    | some e ↦ (s, none, some e)
    | none ↦ (let (s', r, err) = w.fn s in (s', some r, err))
  ]
  attempts attempt (suc n) s = elim (w.ended s) [
    | some e ↦ (s, none, some e)
    | none ↦
        (let (s', r, err) = w.fn s in
          elim err [
            | none ↦ (s', some r, none)
            | some e ↦
                (let (s'', stop) = w.wait attempt s' in
                  elim stop [
                    | some e' ↦ (s'', none, some e')
                    | none ↦ attempts (attempt + 1) n s''
                  ])
          ])
  ]

  -- A negative number of retries makes no attempt, and gives no result and no error.
  unfoldable pub retry : RetryConfig → S → S × Option R × Option E
  retry config s = elim config.max_retries [ pos n ↦ attempts 0 n s | negsuc n ↦ (s, none, none) ]
