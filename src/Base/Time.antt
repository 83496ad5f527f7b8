-- ===== src/Base/Time.antt =====
-- Go's package time, as far as the program uses it. A `Time` counts nanoseconds since the zero
-- Time (January 1, year 1, UTC); a Duration is an int64 of nanoseconds.
use Prim.Native.Nat.{ℕ, suc, ◌+◌, ◌-◌, ◌*◌, ◌/◌, ◌^◌}
use mathlib.Core.Bool.{Bool}
use dotproxy.Base.Tests.{◌==◌, if◌then◌else◌}
use dotproxy.Base.Int.{ℤ, pos, negsuc, sub_ℕ, ltb_ℤ}

abbrev pub Time : Type 0
Time = ℕ

abbrev pub Duration : Type 0
Duration = ℤ

abbrev pub second : ℕ
second = 1_000_000_000

-- The seconds from the zero Time to January 1, 1970.
abbrev pub unix_epoch : ℕ
unix_epoch = 62_135_596_800

-- Time{} and Time.IsZero
abbrev pub zero_time : Time
zero_time = 0

abbrev pub is_zero : Time → Bool
is_zero t = t == 0

-- Time.Unix, in whole seconds
abbrev pub unix : Time → ℤ
unix t = sub_ℕ (t / second) unix_epoch

-- time.Unix(s, 0)
abbrev pub of_unix : ℤ → Time
of_unix (pos s) = (unix_epoch + s) * second
of_unix (negsuc s) = (unix_epoch - suc s) * second

-- A difference of times out of an int64's range is cut off at its ends.
abbrev pub saturate : ℤ → Duration
saturate d =
    if ltb_ℤ (pos (2 ^ 63 - 1)) d
    then pos (2 ^ 63 - 1)
    else if ltb_ℤ d (negsuc (2 ^ 63 - 1))
    then negsuc (2 ^ 63 - 1)
    else d

-- time.Since(t), at the time `now`
unfoldable pub since : Time → Time → Duration
since now t = saturate (sub_ℕ now t)
