-- ===== src/Session/Context.antt =====
-- What `GetContextForLLM` makes of a history that is over the limit of tokens.
use nexus_ai_gateway.Common.{
  ℕ, drop, ◌+◌, ◌/◌, ◌≤◌, ◌≡◌, true, false, List, [], ◌∷◌, if◌then◌else◌, ltb, leb, length, arith,
  refl, ap, ◌∙◌, Bool-cases, inl, inr,
}
use nexus_ai_gateway.Session.{Message, count_tokens, fit}

over_whole :
    (max total n rest : ℕ) → ltb max (total + n) ≡ true → false ≡ leb (total + (n + rest)) max
over_whole max total n rest h = ground arith

zero_plus : (n : ℕ) → 0 + n ≡ n
zero_plus n = omega arith

fits_le : (max n : ℕ) → ltb max n ≡ false → n ≤ max
fits_le max n h = ground arith

module _ {ℓ} {V : Type ℓ} where
  -- The tokens of the whole history, as the code estimates them.
  abbrev pub tokens_of : List (Message V) → ℕ
  tokens_of [] = 0
  tokens_of (m ∷ ms) = length m.content / 4 + tokens_of ms

  count_tokens-whole :
      (max total : ℕ) (ms : List (Message V))
      → total ≤ max
      → (count_tokens max total ms).1 ≡ leb (total + tokens_of ms) max
  count_tokens-whole max total [] h = ground arith
  count_tokens-whole max total (m ∷ ms) h =
      let n = length m.content / 4 in
      elim (Bool-cases (ltb max (total + n))) [
        | inl over ↦ rw over (over_whole max total n (tokens_of ms) over)
        | inr fits ↦ rw fits (
            count_tokens-whole max (total + n) ms (fits_le max (total + n) fits)
            ∙ ap (λ k. leb k max) (omega arith))
      ]

  drop_all : (ms : List (Message V)) → drop (length ms) ms ≡ []
  drop_all [] = refl
  drop_all (m ∷ ms) = drop_all ms

  -- The context is the whole history if its estimate is within the limit, and otherwise empty: it
  -- is never the newer part of a history that is too long.
  pub fit_all_or_nothing :
      (max : ℕ) (ms : List (Message V))
      → (fit max ms).0 ≡ (if leb (tokens_of ms) max then ms else [])
  unfolding fit
  fit_all_or_nothing max ms =
      let whole =
        count_tokens-whole max 0 ms (omega arith)
        ∙ ap (λ k. leb k max) (zero_plus (tokens_of ms)) in
      rw (whole, drop_all ms) refl
