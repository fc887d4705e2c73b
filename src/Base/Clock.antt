-- ===== src/Base/Clock.antt =====
-- Go's time.Time and time.Duration. A time is the nanoseconds since the zero time of the `time`
-- package, so that `IsZero` is a test for 0; a duration is a signed 64-bit number of nanoseconds.
use Prim.Native.Nat.{ℕ, ◌-◌, min}
use mathlib.Core.Bool.{Bool}
use algod_loadb_mesh.Base.Tests.{leb, ◌==◌, if◌then◌else◌}
use algod_loadb_mesh.Base.Int.{ℤ, pos, negsuc}

abbrev pub Time : Type 0
Time = ℕ

abbrev pub Duration : Type 0
Duration = ℤ

abbrev pub is_zero : Time → Bool
is_zero t = t == 0

abbrev pub max_duration : ℕ
max_duration = 9223372036854775807

-- `a.Sub(b)`, which saturates at the ends of int64.
abbrev pub sub_time : Time → Time → Duration
sub_time a b =
    if leb b a then pos (min (a - b) max_duration) else negsuc (min (b - a - 1) max_duration)

abbrev pub second : ℕ
second = 1000000000
