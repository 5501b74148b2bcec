-- ===== src/Packages/Retry/Backoff.antt =====
-- packages/go/retry/backoff.go. A `time.Duration` is an `int64` of nanoseconds; what
-- `positiveDuration` returns is never negative and is a number. `attempt` counts from 1.
pub mod Growth
use careeria.Base.{
  ℕ, ◌+◌, ◌-◌, ◌*◌, ◌/◌, ◌%◌, ◌^◌, Bool, true, false, ◌&&◌, ◌||◌, if◌then◌else◌, ltb, leb, ◌==◌,
}
use careeria.Base.Int.{ℤ, pos, negsuc}

-- `math.MaxInt64`
abbrev pub max_int64 : ℕ
max_int64 = 2 ^ 63 - 1

-- A product of two numbers that are not negative, kept in an `int64`.
unfoldable pub wrap_int64 : ℕ → ℤ
wrap_int64 n = let r = n % 2 ^ 64 in if ltb r (2 ^ 63) then pos r else negsuc (2 ^ 64 - 1 - r)

unfoldable pub positive_duration : ℤ → ℕ
positive_duration (pos n) = n
positive_duration (negsuc n) = 0

abbrev pub no_backoff : ℕ → ℤ
no_backoff attempt = pos 0

unfoldable pub constant : ℤ → ℕ → ℤ
constant delay attempt = pos (positive_duration delay)

-- `capDuration`, where the value is not negative.
abbrev pub capped : ℕ → ℕ → ℕ
capped value max = if ltb 0 max && ltb max value then max else value

unfoldable pub cap_duration : ℤ → ℕ → ℤ
cap_duration (pos value) max = pos (capped value max)
cap_duration (negsuc value) max = negsuc value

-- `Exponential`, on a machine whose `bits.UintSize` is 64.
unfoldable pub exponential : ℤ → ℤ → ℕ → ℤ
exponential base max attempt =
    let b = positive_duration base in
    let m = positive_duration max in
    let power = attempt - 1 in
    if leb attempt 1 || b == 0
    then pos b
    else if leb (64 - 2) power
    then cap_duration (pos b) m
    else if ltb (max_int64 / 2 ^ power) b
    then cap_duration (pos max_int64) m
    else cap_duration (wrap_int64 (b * 2 ^ power)) m
