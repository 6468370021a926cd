-- ===== src/Base/Clock.antt =====
-- `time.monotonic()`: the model counts it in nanoseconds, the resolution of the Python clock.
-- The rounding of the source's float seconds is not modelled.
use Prim.Native.Nat.{ℕ, ◌*◌}

abbrev pub Time : Type 0
Time = ℕ

-- n seconds, as a number of ticks
abbrev pub seconds : ℕ → Time
seconds n = n * 1_000_000_000
