-- ===== src/ProviderCb/Credit.antt =====
-- Successes that a half-open breaker has counted survive a relapse.
use nexus_ai_gateway.Common.{
  ℕ, ◌+◌, ◌<◌, ◌≡◌, List, [], ◌∷◌, arith, length, leb, if◌then◌else◌, map,
}
use nexus_ai_gateway.ProviderCb.{
  ProviderCb, Event, cb_state_closed, cb_state_half_open, allows, succeeds, fails, step, run,
}

abbrev pub succeeding : List ℕ → List (ℕ × Event)
succeeding = map (λ t. (t, succeeds))

closed_absorbs :
    (ts : List ℕ) (cb : ProviderCb)
    → cb.state ≡ cb_state_closed
    → (run (succeeding ts) cb).state ≡ cb_state_closed
unfolding run step
closed_absorbs [] cb s = s
closed_absorbs (t ∷ ts) cb s = closed_absorbs ts (step t succeeds cb) (ground arith)

succeeding_from :
    (ts : List ℕ) (n : ℕ) (cb : ProviderCb)
    → cb.state ≡ cb_state_half_open
    → cb.success_count ≡ n
    → n < cb.success_threshold
    → (run (succeeding ts) cb).state
      ≡ (if leb cb.success_threshold (n + length ts) then cb_state_closed else cb_state_half_open)
unfolding run step
succeeding_from [] n cb s m h = ground arith
succeeding_from (t ∷ ts) n cb s m h =
    ground (
      arith,
      succeeding_from ts (n + 1) (step t succeeds cb),
      closed_absorbs ts (step t succeeds cb),
    )

relapse :
    (now later : ℕ) (cb : ProviderCb)
    → cb.state ≡ cb_state_half_open
    → now + cb.cooldown_duration < later
    → let d = step later allows (step now fails cb) in
      (d.state ≡ cb_state_half_open)
      × (d.success_count ≡ cb.success_count)
      × (d.success_threshold ≡ cb.success_threshold)
unfolding step
relapse now later cb s h = ground arith

-- A half-open breaker that fails, and is tried again after its cooldown, closes after as many
-- successes as are missing together with those from before the failure: it does not start anew.
pub relapse-succeeding :
    (now later : ℕ) (ts : List ℕ) (cb : ProviderCb)
    → cb.state ≡ cb_state_half_open
    → cb.success_count < cb.success_threshold
    → now + cb.cooldown_duration < later
    → (run ((now, fails) ∷ (later, allows) ∷ succeeding ts) cb).state ≡ (
        if leb cb.success_threshold (cb.success_count + length ts)
        then cb_state_closed
        else cb_state_half_open)
unfolding run
relapse-succeeding now later ts cb s m h =
    let (half, n, k) = relapse now later cb s h in
    ground (
      arith,
      n,
      k,
      succeeding_from ts cb.success_count (step later allows (step now fails cb)) half n
          (ground arith),
    )
