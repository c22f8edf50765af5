-- ===== src/Channel/Weights.antt =====
-- The weighted random selection: how the draws are shared among the channels.
use nexus_ai_gateway.Common.{
  ℕ, zero, suc, ◌+◌, ◌*◌, ◌≤◌, ◌<◌, ◌≡◌, refl, ap, sym, ◌∙◌, List, [], ◌∷◌, ◌++◌, arith, replicate,
  lt→ltb, ge→ltb, Bool-cases, inl, inr, ◌==◌,
}
use native.Mathlib.Nat.{add-zero}
use nexus_ai_gateway.Channel.{Channel}
use nexus_ai_gateway.Channel.Router.{weight, total_weight, pick_from, weighted_random_select}

module _ {ℓ} {A : Type ℓ} where
  -- The values of `f` at `n` numbers from `s` on.
  abbrev pub sample : (ℕ → A) → ℕ → ℕ → List A
  sample f s zero = []
  sample f s (suc n) = f s ∷ sample f (s + 1) n

  sample-add : (f : ℕ → A) (s m n : ℕ) → sample f s (m + n) ≡ sample f s m ++ sample f (s + m) n
  sample-add f s zero n = rw (add-zero) (ap (λ k. sample f s k) (omega arith))
  sample-add f s (suc m) n =
      let e : suc m + n ≡ suc (m + n) = omega arith in
      let k : s + 1 + m ≡ s + suc m = omega arith in
      rw e
        (ap (◌∷◌ (f s)) (sample-add f (s + 1) m n ∙ ap (λ t. sample f (s + 1) m ++ sample f t n) k))

  sample_congr :
      (f g : ℕ → A) (s n : ℕ)
      → ((r : ℕ) → s ≤ r → r < s + n → f r ≡ g r)
      → sample f s n ≡ sample g s n
  sample_congr f g s zero h = refl
  sample_congr f g s (suc n) h =
      rw (h s (omega arith) (omega arith))
        (ap (◌∷◌ (g s)) (sample_congr f g (s + 1) n (λ r lo hi. h r (omega arith) (omega arith))))

  sample_const : (a : A) (s n : ℕ) → sample (λ _. a) s n ≡ replicate n a
  sample_const a s zero = refl
  sample_const a s (suc n) = ap (◌∷◌ a) (sample_const a (s + 1) n)

-- Each channel as often as its weight, in order.
abbrev pub shares : List Channel → List Channel
shares [] = []
shares (ch ∷ chs) = replicate (weight ch) ch ++ shares chs

pick_here :
    (r c : ℕ) (last ch : Channel) (chs : List Channel)
    → r < c + weight ch
    → pick_from r c last (ch ∷ chs) ≡ ch
unfolding pick_from
pick_here r c last ch chs h = rw (lt→ltb r (c + ch.priority * ch.ratio) h)

pick_later :
    (r c : ℕ) (last ch : Channel) (chs : List Channel)
    → c + weight ch ≤ r
    → pick_from r c last (ch ∷ chs) ≡ pick_from r (c + weight ch) ch chs
unfolding pick_from
pick_later r c last ch chs h = rw (ge→ltb r (c + ch.priority * ch.ratio) h)

sample-pick_from :
    (c : ℕ) (last : Channel) (chs : List Channel)
    → sample (λ r. pick_from r c last chs) c (total_weight chs) ≡ shares chs
unfolding total_weight
sample-pick_from c last [] = refl
sample-pick_from c last (ch ∷ chs) =
    sample-add (λ r. pick_from r c last (ch ∷ chs)) c (weight ch) (total_weight chs)
    ∙ ap (λ l. l ++ sample (λ r. pick_from r c last (ch ∷ chs)) (c + weight ch) (total_weight chs))
        (sample_congr _ (λ _. ch) c (weight ch) (λ r lo hi. pick_here r c last ch chs hi)
          ∙ sample_const ch c (weight ch))
    ∙ ap (λ l. replicate (weight ch) ch ++ l)
        (sample_congr _ (λ r. pick_from r (c + weight ch) ch chs) (c + weight ch) (total_weight chs)
            (λ r lo hi. pick_later r c last ch chs lo)
          ∙ sample-pick_from (c + weight ch) ch chs)

select-eq-pick_from :
    (ch : Channel) (chs : List Channel) (r : ℕ)
    → r < total_weight (ch ∷ chs)
    → weighted_random_select (λ _. r) ch chs ≡ pick_from r 0 ch (ch ∷ chs)
unfolding weighted_random_select
select-eq-pick_from ch [] r h = sym (pick_here r 0 ch ch [] (omega arith))
select-eq-pick_from ch (ch' ∷ chs) r h = elim (Bool-cases (total_weight (ch ∷ ch' ∷ chs) == 0)) [
  | inl empty ↦ absurd (ground arith)
  | inr full ↦ rw full
]

-- Over all the draws below the total weight, each channel is selected exactly as often as its
-- weight, priority times ratio, says, and the draws fall to the channels in their order.
pub weighted_shares :
    (ch : Channel) (chs : List Channel)
    → sample (λ r. weighted_random_select (λ _. r) ch chs) 0 (total_weight (ch ∷ chs))
      ≡ shares (ch ∷ chs)
weighted_shares ch chs =
    sample_congr _ (λ r. pick_from r 0 ch (ch ∷ chs)) 0 (total_weight (ch ∷ chs))
      (λ r lo hi. select-eq-pick_from ch chs r (omega arith))
    ∙ sample-pick_from 0 ch (ch ∷ chs)
