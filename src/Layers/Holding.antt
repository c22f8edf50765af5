-- ===== src/Layers/Holding.antt =====
-- How long a cooldown and a lockout keep a request from being routed.
use nexus_ai_gateway.Common.{
  ℕ, ◌+◌, ◌<◌, ◌≤◌, ◌≡◌, refl, ◌∙◌, false, List, [], ◌∷◌, String, arith, str_eq, All,
}
use nexus_ai_gateway.Common.Dict.{find-put, find-delete, find-put_self}
use nexus_ai_gateway.Layers.{
  Layers, cool, cooldown_key, get_cooldown, remove_cooldown, lock, lockout_key, get_lockout,
  is_locked, remove_lockout, can_route, record_success, record_failure, set_cooldown, lock_model,
  unlock_model,
}
use nexus_ai_gateway.Layers.Routing.{
  cooled_until_of, locked_until_of, cooled_until_of-get_cooldown, locked_until_of-get_lockout,
  can_route_exact, Event, routes, succeeds, fails, cools, locks, unlocks, step, run,
}

-- The call leaves the cooldown under the key alone: it is no success under that key, and sets no
-- cooldown there.
abbrev pub SparesCooldown : String → Event → Type 0
SparesCooldown k (succeeds p d a) = str_eq (cooldown_key a p) k ≡ false
SparesCooldown k (cools a p d r) = str_eq (cooldown_key a p) k ≡ false
SparesCooldown k (routes p d a) = Unit {0}
SparesCooldown k (fails p d a) = Unit {0}
SparesCooldown k (locks p d n r b) = Unit {0}
SparesCooldown k (unlocks p d) = Unit {0}

cooldowns-can_route :
    (now : ℕ) (p d a k : String) (t : Layers)
    → cooled_until_of k (can_route now p d a t).0.cooldowns ≡ cooled_until_of k t.cooldowns
unfolding can_route
cooldowns-can_route now p d a k t = ground (arith, cooled_until_of-get_cooldown a p t.cooldowns k)

step-SparesCooldown :
    (now : ℕ) (e : Event) (k : String) (t : Layers)
    → SparesCooldown k e
    → cooled_until_of k (step now e t).cooldowns ≡ cooled_until_of k t.cooldowns
unfolding step record_success record_failure set_cooldown lock_model unlock_model remove_cooldown
step-SparesCooldown now (routes p d a) k t h = cooldowns-can_route now p d a k t
step-SparesCooldown now (succeeds p d a) k t h =
    ground (arith, find-delete (cooldown_key a p) k t.cooldowns, h)
step-SparesCooldown now (fails p d a) k t h = refl
step-SparesCooldown now (cools a p d r) k t h =
    let (cs, c) = get_cooldown a p t.cooldowns in
    ground (
      arith,
      find-put (cooldown_key a p) k (cool now d r c) cs,
      cooled_until_of-get_cooldown a p t.cooldowns k,
      h,
    )
step-SparesCooldown now (locks p d n r b) k t h = refl
step-SparesCooldown now (unlocks p d) k t h = refl

-- The call leaves the lockout under the key alone.
abbrev pub SparesLockout : String → Event → Type 0
SparesLockout k (locks p d n r b) = str_eq (lockout_key p d) k ≡ false
SparesLockout k (unlocks p d) = str_eq (lockout_key p d) k ≡ false
SparesLockout k (routes p d a) = Unit {0}
SparesLockout k (succeeds p d a) = Unit {0}
SparesLockout k (fails p d a) = Unit {0}
SparesLockout k (cools a p d r) = Unit {0}

lockouts-can_route :
    (now : ℕ) (p d a k : String) (t : Layers)
    → locked_until_of k (can_route now p d a t).0.lockouts ≡ locked_until_of k t.lockouts
unfolding can_route is_locked
lockouts-can_route now p d a k t = ground (arith, locked_until_of-get_lockout p d t.lockouts k)

step-SparesLockout :
    (now : ℕ) (e : Event) (k : String) (t : Layers)
    → SparesLockout k e
    → locked_until_of k (step now e t).lockouts ≡ locked_until_of k t.lockouts
unfolding step record_success record_failure set_cooldown lock_model unlock_model remove_lockout
step-SparesLockout now (routes p d a) k t h = lockouts-can_route now p d a k t
step-SparesLockout now (succeeds p d a) k t h = refl
step-SparesLockout now (fails p d a) k t h = refl
step-SparesLockout now (cools a p d r) k t h = refl
step-SparesLockout now (locks p d n r b) k t h =
    let (ls, l) = get_lockout p d t.lockouts in
    ground (
      arith,
      find-put (lockout_key p d) k (lock now n r b l) ls,
      locked_until_of-get_lockout p d t.lockouts k,
      h,
    )
step-SparesLockout now (unlocks p d) k t h =
    ground (arith, find-delete (lockout_key p d) k t.lockouts, h)

abbrev pub AllSpare : (Event → Type 0) → List (ℕ × Event) → Type 0
AllSpare P = All (λ e. P e.1)

run-SparesCooldown :
    (es : List (ℕ × Event)) (k : String) (t : Layers)
    → AllSpare (SparesCooldown k) es
    → cooled_until_of k (run es t).cooldowns ≡ cooled_until_of k t.cooldowns
unfolding run
run-SparesCooldown [] k t h = refl
run-SparesCooldown ((now, e) ∷ es) k t h =
    run-SparesCooldown es k (step now e t) h.1 ∙ step-SparesCooldown now e k t h.0

run-SparesLockout :
    (es : List (ℕ × Event)) (k : String) (t : Layers)
    → AllSpare (SparesLockout k) es
    → locked_until_of k (run es t).lockouts ≡ locked_until_of k t.lockouts
unfolding run
run-SparesLockout [] k t h = refl
run-SparesLockout ((now, e) ∷ es) k t h =
    run-SparesLockout es k (step now e t) h.1 ∙ step-SparesLockout now e k t h.0

pub cooled_until-set :
    (now : ℕ) (a p : String) (duration : ℕ) (r : String) (t : Layers)
    → cooled_until_of (cooldown_key a p) (set_cooldown now a p duration r t).cooldowns
      ≡ now + duration
unfolding set_cooldown cool
cooled_until-set now a p duration r t =
    let (cs, c) = get_cooldown a p t.cooldowns in
    rw (find-put_self (cooldown_key a p) (cool now duration r c) cs, cooled_until_of)

locked_until-set :
    (now : ℕ) (p d : String) (duration : ℕ) (r b : String) (t : Layers)
    → locked_until_of (lockout_key p d) (lock_model now p d duration r b t).lockouts
      ≡ now + duration
unfolding lock_model lock
locked_until-set now p d duration r b t =
    let (ls, l) = get_lockout p d t.lockouts in
    rw (find-put_self (lockout_key p d) (lock now duration r b l) ls, locked_until_of)

-- After `SetCooldown` no request over that account and provider is routed until the duration has
-- passed, that time included, whatever the model and whatever calls come in between, unless one of
-- them is a success or another `SetCooldown` under the same key.
pub cooldown_holds :
    (now duration later : ℕ) (a p model r : String) (t : Layers) (es : List (ℕ × Event))
    → AllSpare (SparesCooldown (cooldown_key a p)) es
    → later ≤ now + duration
    → (can_route later p model a (run es (set_cooldown now a p duration r t))).1 ≡ false
cooldown_holds now duration later a p model r t es h l =
    let t' = run es (set_cooldown now a p duration r t) in
    ground (
      arith,
      can_route_exact later p model a t',
      run-SparesCooldown es (cooldown_key a p) (set_cooldown now a p duration r t) h,
      cooled_until-set now a p duration r t,
    )

-- After `LockModel` no request for that provider and model is routed before the duration has
-- passed, whatever the account and whatever calls come in between, unless one of them is an
-- `UnlockModel` or another `LockModel` under the same key, and if the model is not the empty text.
pub lockout_holds :
    (now duration later : ℕ) (p model account r b : String) (t : Layers) (es : List (ℕ × Event))
    → str_eq model "" ≡ false
    → AllSpare (SparesLockout (lockout_key p model)) es
    → later < now + duration
    → (can_route later p model account (run es (lock_model now p model duration r b t))).1 ≡ false
lockout_holds now duration later p model account r b t es m h l =
    let t' = run es (lock_model now p model duration r b t) in
    ground (
      arith,
      can_route_exact later p model account t',
      run-SparesLockout es (lockout_key p model) (lock_model now p model duration r b t) h,
      locked_until-set now p model duration r b t,
    )
