-- ===== src/Clock.antt =====
-- What the sources use of the package `time`. A `Time` is the number of nanoseconds since Go's zero
-- time (January 1 of year 1), so that the zero `Time` is 0; a `Duration` is a signed number of
-- nanoseconds.
use process_wrapper.Prelude.{ℕ, ◌+◌, ◌-◌, ◌*◌, ◌/◌, leb, if◌then◌else◌}
use process_wrapper.Prelude.Int.{ℤ, pos, negsuc, sub_ℕ}

abbrev pub Time : Type 0
Time = ℕ

abbrev pub Duration : Type 0
Duration = ℤ

-- `time.Second`
abbrev pub nanos : ℕ
nanos = 1000000000

abbrev pub seconds : ℕ → Duration
seconds n = pos (n * nanos)

-- `t.Unix()`: whole seconds since 1970.
unfoldable pub unix : Time → ℤ
unix t = sub_ℕ (t / nanos) 62135596800

-- `t.Add(-d)`; no time before the zero time is met.
unfoldable pub before : Time → Duration → Time
before t (pos d) = t - d
before t (negsuc d) = t + d + 1

abbrev pub max_duration : ℕ
max_duration = 9223372036854775807

-- `now.Sub(t)`, which saturates at both ends of `int64`.
unfoldable pub sub : Time → Time → Duration
sub now t =
    if leb t now
    then (if leb (now - t) max_duration then pos (now - t) else pos max_duration)
    else (if leb (t - now) max_duration then sub_ℕ now t else negsuc max_duration)
