-- ===== src/Containers/Time/Tests.antt =====
-- Runs of `ParseTimeValue`.
use fraise.Prelude.{ℕ, ◌≡◌, ◌/◌, ◌*◌, ◌-◌, ◌^◌, refl, ◌==◌, [], ◌∷◌, none, if◌then◌else◌, leb}
use fraise.Prelude.Decimal.{ℤ, decimal, itoa, read_digits}
use fraise.Containers.Time.{
  Clock, TimeValue, TimeResult, TimeError, parse_time_value, unit_duration,
}
use fraise.Containers.Time.Duration.{parse_time_value-count}

-- A clock that stands still.
abbrev still : Clock ℕ
still = record {
  same_instant = λ t u. t == u;
  add = λ t d. t;
  rfc3339_nano = decimal;
  duration_string = itoa;
  parse_date = λ s. none;
  parse_rfc3339 = λ s. none;
}

parse_time_value-count_example : parse_time_value still (b'7' ∷ b'2' ∷ b'h' ∷ []) ≡ (
    if leb (read_digits 0 (b'7' ∷ b'2' ∷ [])) ((2 ^ 63 - 1) / (3600 * 10 ^ 9))
    then TimeResult.ok
        (TimeValue.relative (ℤ.pos (read_digits 0 (b'7' ∷ b'2' ∷ []) * (3600 * 10 ^ 9))))
    else TimeResult.err
        (TimeError.duration_range (b'7' ∷ b'2' ∷ b'h' ∷ []) ((2 ^ 63 - 1) / (3600 * 10 ^ 9)) b'h'))
unfolding unit_duration
parse_time_value-count_example =
    parse_time_value-count still b'7' (b'2' ∷ []) b'h' (3600 * 10 ^ 9) refl refl
