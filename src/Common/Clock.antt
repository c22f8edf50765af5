-- ===== src/Common/Clock.antt =====
-- Go's `time` package as the gateway uses it. An instant is a number of nanoseconds since the zero
-- `time.Time`, which is 0, and a duration is a number of nanoseconds. The clock is read once for
-- each call, and its reading is an argument. The tests are stated without subtraction, so that
-- they are those of the code also where an instant lies in the future.
use Prim.Native.Nat.{ℕ, ◌+◌, ◌*◌}
use mathlib.Core.Bool.{Bool}
use nexus_ai_gateway.Common.Tests.{ltb, leb}

-- `now.Sub(t) >= d`, and `time.Since(t) >= d`.
abbrev pub elapsed : ℕ → ℕ → ℕ → Bool
elapsed now t d = leb (t + d) now

-- `now.Sub(t) > d`.
abbrev pub elapsed_more : ℕ → ℕ → ℕ → Bool
elapsed_more now t d = ltb (t + d) now

-- `now.Sub(t) < d`.
abbrev pub within : ℕ → ℕ → ℕ → Bool
within now t d = ltb now (t + d)

-- `now.After(t)`.
abbrev pub after : ℕ → ℕ → Bool
after now t = ltb t now

-- `now.Before(t)`.
abbrev pub before : ℕ → ℕ → Bool
before now t = ltb now t

abbrev pub second : ℕ
second = 1_000_000_000

abbrev pub minute : ℕ
minute = 60 * second

abbrev pub hour : ℕ
hour = 60 * minute

abbrev pub day : ℕ
day = 24 * hour
