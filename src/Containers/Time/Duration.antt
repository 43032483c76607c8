-- ===== src/Containers/Time/Duration.antt =====
-- What `ParseTimeValue` makes of a count and a unit: the span, or the range error beyond what 64 bits
-- of nanoseconds hold.
use fraise.Prelude.{
  ℕ, ◌+◌, ◌-◌, ◌*◌, ◌/◌, ◌%◌, ◌^◌, ◌≤◌, ◌<◌, ◌≡◌, refl, sym, ◌∙◌, true, false, [], ◌∷◌, ◌++◌, some,
  arith, ltb, leb, if◌then◌else◌, inl, inr, Bool-cases,
}
use native.Mathlib.Nat.{div-mul-le_self, mul-le-mul_right, div-le_self}
use fraise.Prelude.Text.{Text, all}
use fraise.Prelude.Fields.{and_left, and_right}
use fraise.Prelude.Decimal.{ℤ, is_decimal, read_digits}
use fraise.Containers.Slots.{lt_or_le}
use fraise.Containers.Time.{
  Clock, TimeValue, TimeResult, TimeError, Parsed, parse_uint, parse_int, split_last, unit_duration,
  parse_relative, parse_split, parse_time_value, int64,
}

read_digits-le : (n : ℕ) (s : Text) → n ≤ read_digits n s
unfolding read_digits
read_digits-le n [] = omega arith
read_digits-le n (c ∷ s) = omega (arith, read_digits-le (10 * n + (c - b'0')) s)

-- The number in 64 bits, or the range error.
checked : ℕ → Parsed
checked n = if ltb n (2 ^ 64) then Parsed.value n else Parsed.range_error

checked-large : (n : ℕ) → 2 ^ 64 ≤ n → checked n ≡ Parsed.range_error
unfolding checked
checked-large n h = ground (arith, h)

checked-small : (n : ℕ) → n < 2 ^ 64 → checked n ≡ Parsed.value n
unfolding checked
checked-small n h = ground (arith, h)

le→leb : (m n : ℕ) → m ≤ n → leb m n ≡ true
le→leb m n h = ground arith

not_ltb : (m n : ℕ) → n ≤ m → ltb m n ≡ false
not_ltb m n h = ground (arith, h)

cut_le : (m n : ℕ) → leb m n ≡ true → m ≤ n
cut_le m n h = ground arith

lt→ltb : (m n : ℕ) → m < n → ltb m n ≡ true
lt→ltb m n h = ground arith

parse_uint-checked :
    (s : Text) (n : ℕ)
    → n < 2 ^ 64
    → all is_decimal s ≡ true
    → parse_uint n s ≡ checked (read_digits n s)
unfolding parse_uint read_digits
parse_uint-checked [] n h d = sym (checked-small n h)
parse_uint-checked (c ∷ s) n h d =
    let digit : is_decimal c ≡ true = and_left (is_decimal c) (all is_decimal s) d in
    let rest = and_right (is_decimal c) (all is_decimal s) d in
    let small : c - b'0' < 10 = ground (arith, digit) in
    let grows = read_digits-le (10 * n + (c - b'0')) s in
    elim (Bool-cases (leb ((2 ^ 64 - 1) / 10 + 1) n)) [
      | inl cut ↦
          let far : 2 ^ 64 ≤ read_digits (10 * n + (c - b'0')) s =
            omega (arith, cut_le ((2 ^ 64 - 1) / 10 + 1) n cut, grows) in
          rw (digit, cut, checked-large (read_digits (10 * n + (c - b'0')) s) far)
      | inr below ↦
          let under : n < (2 ^ 64 - 1) / 10 + 1 = ground (arith, below) in
          elim (lt_or_le (n * 10 + (c - b'0')) (2 ^ 64)) [
            | inl fits ↦
                let same : (n * 10 + (c - b'0')) % 2 ^ 64 ≡ 10 * n + (c - b'0') =
                  omega (arith, fits) in
                let keep : ltb (10 * n + (c - b'0')) (n * 10) ≡ false = ground arith in
                rw (digit, below, same, keep)
                  (parse_uint-checked s (10 * n + (c - b'0')) (omega (arith, fits)) rest)
            | inr over ↦
                let low : (n * 10 + (c - b'0')) % 2 ^ 64 < n * 10 =
                  omega (arith, over, under, small) in
                let wraps : ltb ((n * 10 + (c - b'0')) % 2 ^ 64) (n * 10) ≡ true = lt→ltb _ _ low in
                let far : 2 ^ 64 ≤ read_digits (10 * n + (c - b'0')) s =
                  omega (arith, over, grows) in
                rw (digit, below, wraps, checked-large (read_digits (10 * n + (c - b'0')) s) far)
          ]
    ]

-- The count in 63 bits, or the range error.
unfoldable counted : ℕ → Parsed
counted n = if ltb n (2 ^ 63) then Parsed.value n else Parsed.range_error

parse_int-counted :
    (c : ℕ) (s : Text)
    → all is_decimal (c ∷ s) ≡ true
    → parse_int (c ∷ s) ≡ counted (read_digits 0 (c ∷ s))
unfolding parse_int counted checked
parse_int-counted c s d =
    let n = read_digits 0 (c ∷ s) in
    let run = parse_uint-checked (c ∷ s) 0 (omega arith) d in
    elim (lt_or_le n (2 ^ 64)) [
      | inl fits ↦ rw (run, checked-small n fits, parse_int) (ground (arith, fits))
      | inr over ↦ rw (run, checked-large n over, parse_int) (ground (arith, over))
    ]

int64-pos : (n : ℕ) → n < 2 ^ 63 → int64 n ≡ ℤ.pos n
unfolding int64
int64-pos n h = let same : n % 2 ^ 64 ≡ n = omega (arith, h) in rw same (ground (arith, h))

split_last-snoc : (c : ℕ) (s : Text) (u : ℕ) → split_last c (s ++ u ∷ []) ≡ (c ∷ s, u)
unfolding split_last
split_last-snoc c [] u = refl
split_last-snoc c (d ∷ s) u = rw (split_last-snoc d s u)

fits_int64 : (n mult : ℕ) → n ≤ (2 ^ 63 - 1) / mult → n * mult < 2 ^ 63
fits_int64 n mult h =
    let a = mul-le-mul_right mult h in
    let b = div-mul-le_self (2 ^ 63 - 1) mult in omega (arith, a, b)

not_leb : (m n : ℕ) → n < m → leb m n ≡ false
not_leb m n h = ground (arith, h)

module _ {Time : Type 0} (clock : Clock Time) where
  parse_relative-counted :
      (s : Text) (mult u n : ℕ)
      → parse_relative clock s mult u (counted n) ≡ (
          if leb n ((2 ^ 63 - 1) / mult)
          then TimeResult.ok (TimeValue.relative (ℤ.pos (n * mult)))
          else TimeResult.err (TimeError.duration_range s ((2 ^ 63 - 1) / mult) u))
  unfolding parse_relative counted
  parse_relative-counted s mult u n =
      let limit = (2 ^ 63 - 1) / mult in
      elim (lt_or_le limit n) [
        | inl above ↦ elim (lt_or_le n (2 ^ 63)) [
          | inl p ↦ rw (lt→ltb n (2 ^ 63) p, lt→ltb limit n above, not_leb n limit above)
          | inr p ↦ rw (not_ltb n (2 ^ 63) p, not_leb n limit above)
        ]
        | inr within ↦
            let small : n < 2 ^ 63 = omega (arith, div-le_self (2 ^ 63 - 1) mult, within) in
            rw (
              lt→ltb n (2 ^ 63) small,
              not_ltb limit n within,
              le→leb n limit within,
              int64-pos (n * mult) (fits_int64 n mult within),
            )
      ]

  -- A count in decimal and a unit are the span of that many units where it fits into a 64-bit
  -- duration of nanoseconds, exactly; and past that, however many digits the count has, the range
  -- error with the largest count of the unit that fits.
  pub parse_time_value-count :
      (c : ℕ) (s : Text) (u mult : ℕ)
      → all is_decimal (c ∷ s) ≡ true
      → unit_duration u ≡ some mult
      → parse_time_value clock (c ∷ (s ++ u ∷ [])) ≡ (
          if leb (read_digits 0 (c ∷ s)) ((2 ^ 63 - 1) / mult)
          then TimeResult.ok (TimeValue.relative (ℤ.pos (read_digits 0 (c ∷ s) * mult)))
          else TimeResult.err
              (TimeError.duration_range (c ∷ (s ++ u ∷ [])) ((2 ^ 63 - 1) / mult) u))
  unfolding parse_time_value parse_split
  parse_time_value-count c s u mult d e =
      let digit : is_decimal c ≡ true = and_left (is_decimal c) (all is_decimal s) d in
      let n = read_digits 0 (c ∷ s) in
      let spelled = c ∷ (s ++ u ∷ []) in
      let run : parse_split clock spelled c (c ∷ s, u)
          ≡ parse_relative clock spelled mult u (counted n) =
        rw (e, digit, parse_int-counted c s d, parse_split) in
      rw (split_last-snoc c s u) (run ∙ parse_relative-counted spelled mult u n)
