-- ===== src/Containers/Time.antt =====
-- internal/containers/time.go: `TimeValue` and its three types, and `ParseTimeValue`. What the code
-- uses of Go's `time` package is a parameter; text is a list of bytes.
pub mod Duration
mod Tests
use fraise.Prelude.{
  ℕ, zero, suc, ◌+◌, ◌-◌, ◌*◌, ◌/◌, ◌%◌, ◌^◌, Bool, true, false, ◌&&◌, ◌||◌, not, List, [], ◌∷◌,
  ◌++◌, Option, none, some, ◌==◌, ltb, leb, if◌then◌else◌,
}
use fraise.Prelude.Text.{Text, codes}
use fraise.Prelude.Decimal.{ℤ, is_decimal, int_eq}

-- The instants of Go's `time` package. A duration is an integer of nanoseconds.
pub record Clock (Time : Type 0) : Type 0 where
  pub same_instant : Time → Time → Bool
  pub add : Time → ℤ → Time
  pub rfc3339_nano : Time → Text
  pub duration_string : ℤ → Text
  pub parse_date : Text → Option Time
  pub parse_rfc3339 : Text → Option Time

pub data TimeValue (Time : Type 0) : Type 0 where
  relative : ℤ → TimeValue Time
  absolute : Time → TimeValue Time
  filter : ℤ → Time → Bool → TimeValue Time

pub data TimeError : Type 0 where
  empty_string : TimeError
  duration_range : Text → ℕ → ℕ → TimeError
  invalid_time : Text → TimeError

pub data TimeResult (Time : Type 0) : Type 0 where
  ok : TimeValue Time → TimeResult Time
  err : TimeError → TimeResult Time

-- A 64-bit integer from its residue.
unfoldable pub int64 : ℕ → ℤ
int64 n = let r = n % 2 ^ 64 in if ltb r (2 ^ 63) then ℤ.pos r else ℤ.negsuc (2 ^ 64 - 1 - r)

unfoldable pub negate : ℤ → ℤ
negate (ℤ.pos zero) = ℤ.pos 0
negate (ℤ.pos (suc n)) = ℤ.negsuc n
negate (ℤ.negsuc n) = if n == 2 ^ 63 - 1 then ℤ.negsuc n else ℤ.pos (n + 1)

-- What `strconv` returns: a value, `ErrSyntax` or `ErrRange`.
pub data Parsed : Type 0 where
  value : ℕ → Parsed
  syntax_error : Parsed
  range_error : Parsed

-- The loop of `strconv.ParseUint` in base 10 with 64 bits, on the rest of the text.
unfoldable pub parse_uint : ℕ → Text → Parsed
parse_uint n [] = Parsed.value n
parse_uint n (c ∷ s) =
    let wrapped = (n * 10 + (c - b'0')) % 2 ^ 64 in
    let rest = parse_uint wrapped s in
    if not (is_decimal c)
    then Parsed.syntax_error
    else if leb ((2 ^ 64 - 1) / 10 + 1) n
    then Parsed.range_error
    else if ltb wrapped (n * 10)
    then Parsed.range_error
    else rest

-- `strconv.ParseInt` in base 10 with 64 bits, on a text without a sign.
unfoldable pub parse_int : Text → Parsed
parse_int [] = Parsed.syntax_error
parse_int (c ∷ s) = elim (parse_uint 0 (c ∷ s)) [
  | Parsed.value n ↦ if leb (2 ^ 63) n then Parsed.range_error else Parsed.value n
  | Parsed.syntax_error ↦ Parsed.syntax_error
  | Parsed.range_error ↦ Parsed.range_error
]

-- The text without its last byte, and that byte.
unfoldable pub split_last : ℕ → Text → Text × ℕ
split_last c [] = ([], c)
split_last c (d ∷ s) = let (w, last) = split_last d s in (c ∷ w, last)

-- Nanoseconds in one of the units.
unfoldable pub unit_duration : ℕ → Option ℕ
unit_duration b =
    if b == b's'
    then some (10 ^ 9)
    else if b == b'm'
    then some (60 * 10 ^ 9)
    else if b == b'h'
    then some (3600 * 10 ^ 9)
    else if b == b'd'
    then some (24 * (3600 * 10 ^ 9))
    else if b == b'w'
    then some (7 * (24 * (3600 * 10 ^ 9)))
    else none

module _ {Time : Type 0} (clock : Clock Time) where
  unfoldable pub parse_absolute : Text → TimeResult Time
  parse_absolute s = elim (clock.parse_date s) [
    | some t ↦ TimeResult.ok (TimeValue.absolute t)
    | none ↦ elim (clock.parse_rfc3339 s) [
      | some t ↦ TimeResult.ok (TimeValue.absolute t)
      | none ↦ TimeResult.err (TimeError.invalid_time s)
    ]
  ]

  -- A count of `mult` nanoseconds, as `strconv` read it.
  unfoldable pub parse_relative : Text → ℕ → ℕ → Parsed → TimeResult Time
  parse_relative s mult unit (Parsed.value n) =
      if ltb ((2 ^ 63 - 1) / mult) n
      then TimeResult.err (TimeError.duration_range s ((2 ^ 63 - 1) / mult) unit)
      else TimeResult.ok (TimeValue.relative (int64 (n * mult)))
  parse_relative s mult unit Parsed.range_error =
      TimeResult.err (TimeError.duration_range s ((2 ^ 63 - 1) / mult) unit)
  parse_relative s mult unit Parsed.syntax_error = parse_absolute s

  -- `ParseTimeValue` of `s`, which starts with `c`, from its last byte and what stands before it.
  unfoldable pub parse_split : Text → ℕ → Text × ℕ → TimeResult Time
  parse_split s c (count, last) = elim (unit_duration last) [
    | none ↦ parse_absolute s
    | some mult ↦
        if is_decimal c then parse_relative s mult last (parse_int count) else parse_absolute s
  ]

  unfoldable pub parse_time_value : Text → TimeResult Time
  parse_time_value [] = TimeResult.err TimeError.empty_string
  parse_time_value (c ∷ s) = parse_split (c ∷ s) c (split_last c s)

  unfoldable pub resolve : TimeValue Time → Time → Time
  resolve (TimeValue.relative dur) now = clock.add now (negate dur)
  resolve (TimeValue.absolute t) now = t
  resolve (TimeValue.filter dur t true) now = t
  resolve (TimeValue.filter dur t false) now = clock.add now (negate dur)

  -- The text that `Hash` gives the hasher.
  unfoldable pub time_material : TimeValue Time → Text
  time_material (TimeValue.relative dur) = codes "r" ++ clock.duration_string dur
  time_material (TimeValue.absolute t) = codes "a" ++ clock.rfc3339_nano t
  time_material (TimeValue.filter dur t true) = codes "fa" ++ clock.rfc3339_nano t
  time_material (TimeValue.filter dur t false) = codes "fr" ++ clock.duration_string dur

  unfoldable pub time_equal : TimeValue Time → TimeValue Time → Bool
  time_equal (TimeValue.relative dur) (TimeValue.relative other) = int_eq other dur
  time_equal (TimeValue.absolute t) (TimeValue.absolute other) = clock.same_instant other t
  time_equal (TimeValue.filter dur t true) (TimeValue.filter d other true) =
      clock.same_instant other t
  time_equal (TimeValue.filter dur t false) (TimeValue.filter other o false) = int_eq other dur
  time_equal _ _ = false
