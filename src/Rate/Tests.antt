-- ===== src/Rate/Tests.antt =====
-- The rate limiter on concrete inputs: runs of the code, and the theorems at inputs that meet their
-- hypotheses.
use nexus_ai_gateway.Common.{ℕ, ◌<◌, ◌≡◌, refl, false, List, [], ◌∷◌, String, arith, count_if}
use nexus_ai_gateway.Common.Dict.{find, put}
use nexus_ai_gateway.Rate.{MemoryStorage, new_memory_storage, memory_check}
use nexus_ai_gateway.Rate.Tally.{in_window}
use nexus_ai_gateway.Rate.Window.{allowed_at, twice_limit_bound}

abbrev two : String → ℕ
two _ = 2

abbrev ten : String → ℕ
ten _ = 10

-- One request starts the window, one comes at its end, and two more follow at once: three requests
-- in ten nanoseconds for a limit of two.
abbrev burst : List (ℕ × String)
burst = (0, "a") ∷ (10, "a") ∷ (11, "a") ∷ (12, "a") ∷ (13, "a") ∷ []

burst_is_allowed : allowed_at two ten "a" burst new_memory_storage ≡ 0 ∷ 10 ∷ 11 ∷ 12 ∷ []
unfolding allowed_at memory_check new_memory_storage find put
burst_is_allowed = refl

twice_limit_bound_example :
    count_if (in_window 10 10) (allowed_at two ten "a" burst new_memory_storage) < 4
twice_limit_bound_example = twice_limit_bound two ten "a" burst 10 (omega arith)

abbrev used : MemoryStorage
used = record { counters = ("a", record { count = 2; window_end = 10 }) ∷ []; limits = [] }

used_is_refused : (memory_check 4 "a" 2 10 used).1.allowed ≡ false
unfolding memory_check find
used_is_refused = refl
