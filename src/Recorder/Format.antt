-- ===== src/Recorder/Format.antt =====
-- src/recorder/private/format.cpp. `FormatBytes` and the figures of `FormatThroughput` print
-- floats, so what they print is kept as the numbers it is made of.
use klip.Base.{ℕ, ◌/◌, ◌%◌, ◌++◌, ◌∷◌, none, some, Bytes, decimal, ltb, leb, if◌then◌else◌}
use klip.Recorder.State.{Throughput}

-- `{:02}`.
unfoldable pub two_digits : ℕ → Bytes
two_digits n = if ltb n 10 then b'0' ∷ decimal n else decimal n

-- Of a number of milliseconds.
unfoldable pub format_duration : ℕ → Bytes
unfolding two_digits
format_duration elapsed =
    let total_seconds = elapsed / 1000 in
    two_digits (total_seconds / 3600)
    ++ (b':' ∷ (two_digits (total_seconds / 60 % 60) ++ (b':' ∷ two_digits (total_seconds % 60))))

-- Seconds.
abbrev pub rate_settle : ℕ
rate_settle = 3

unfoldable pub format_throughput : ℕ → ℕ → Throughput
format_throughput bytes elapsed = if leb rate_settle elapsed then some (bytes, elapsed) else none
