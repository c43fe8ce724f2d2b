-- ===== src/Base/Times.antt =====
-- Instants and durations of Go's `time`.
use Prim.Native.Nat.{ℕ, ◌+◌, ◌-◌, ◌*◌, ◌/◌, ◌%◌, ◌^◌}
use mathlib.Core.Bool.{Bool, true}
use ppz.Base.Tests.{ltb, leb, nat_eq, if◌then◌else◌}

-- Nanoseconds since an instant 2 ^ 63 nanoseconds before the zero `time.Time`, so that no duration
-- taken from an instant leads below 0.
abbrev pub Time : Type 0
Time = ℕ

unfoldable pub zero_time : Time
zero_time = 2 ^ 63

-- `time.Duration` is an int64, kept as its two's complement.
abbrev pub Duration : Type 0
Duration = ℕ

abbrev pub second : Duration
second = 1000000000

abbrev pub millisecond : Duration
millisecond = 1000000

-- `d <= 0`.
abbrev pub is_nonpositive : Duration → Bool
is_nonpositive d = if nat_eq d 0 then true else leb (2 ^ 63) d

-- `t.Add(d)`.
unfoldable pub add : Time → Duration → Time
add t d = if ltb d (2 ^ 63) then t + d else t - (2 ^ 64 - d)

-- `a.Sub(b)` where it is positive, saturated as Go does; 0 where it is zero or negative. The code only
-- asks whether the result is above 0, or how it compares with a bound above 0.
unfoldable pub elapsed : Time → Time → Duration
elapsed a b = if ltb (a - b) (2 ^ 63) then a - b else 2 ^ 63 - 1

-- The instant 1970-01-01 in seconds since the zero time.
abbrev pub unix_to_internal : ℕ
unix_to_internal = 62135596800

-- `t.Unix()` from the zero time on, an int64 in two's complement.
unfoldable pub unix : Time → ℕ
unfolding zero_time
unix t = ((t - zero_time) / second + (2 ^ 64 - unix_to_internal)) % 2 ^ 64

-- `time.Unix(sec, 0)`; what lies before every `Time` of the model is the first one.
unfoldable pub time_unix : ℕ → Time
unfolding zero_time
time_unix sec =
    let internal = (sec + unix_to_internal) % 2 ^ 64 in
    if ltb internal (2 ^ 63)
    then zero_time + internal * second
    else zero_time - (2 ^ 64 - internal) * second
