-- ===== src/Parser/Number.antt =====
-- What internal/query/parser/parser.go uses of Go's numbers: `strconv.Atoi` with 64 bits, and the
-- conversion to `uint8`.
use fraise.Prelude.{ℕ, ◌-◌, ◌^◌, ◌%◌, Bool, true, false, [], ◌∷◌, ◌==◌, leb, ltb, if◌then◌else◌}
use fraise.Prelude.Text.{Text}
use fraise.Prelude.Decimal.{ℤ}
use fraise.Containers.Time.{Parsed, parse_uint, negate}

pub data IntParsed : Type 0 where
  value : ℤ → IntParsed
  syntax_error range_error : IntParsed

-- `ParseUint`, which reads no empty text.
unfoldable pub parse_magnitude : Text → Parsed
parse_magnitude [] = Parsed.syntax_error
parse_magnitude (c ∷ s) = parse_uint 0 (c ∷ s)

-- The number behind a sign.
unfoldable pub with_sign : Bool → Parsed → IntParsed
with_sign negative Parsed.syntax_error = IntParsed.syntax_error
with_sign negative Parsed.range_error = IntParsed.range_error
with_sign false (Parsed.value n) =
    if leb (2 ^ 63) n then IntParsed.range_error else IntParsed.value (ℤ.pos n)
with_sign true (Parsed.value n) =
    if ltb (2 ^ 63) n then IntParsed.range_error else IntParsed.value (negate (ℤ.pos n))

unfoldable pub atoi : Text → IntParsed
unfolding parse_magnitude with_sign
atoi [] = IntParsed.syntax_error
atoi (c ∷ s) =
    if c == b'+'
    then with_sign false (parse_magnitude s)
    else if c == b'-'
    then with_sign true (parse_magnitude s)
    else with_sign false (parse_magnitude (c ∷ s))

unfoldable pub uint8 : ℤ → ℕ
uint8 (ℤ.pos n) = n % 2 ^ 8
uint8 (ℤ.negsuc n) = 2 ^ 8 - 1 - n % 2 ^ 8
