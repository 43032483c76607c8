-- ===== src/Prelude/Decimal.antt =====
-- Integers, and their decimal form as `strconv.Itoa` prints it.
use Prim.Native.Nat.{ℕ, zero, suc, ◌+◌, ◌-◌, ◌*◌, ◌/◌, ◌%◌, ◌<◌, ◌≤◌}
use mathlib.Core.Bool.{Bool, true, false, ◌&&◌}
use mathlib.Core.List.{[], ◌∷◌, ◌++◌}
use mathlib.Core.Path.{◌≡◌, refl, ap, sym, subst, ◌∙◌}
use mathlib.Core.Logic.{◌≢◌, ◌↔◌, inl, inr}
use native.Mathlib.Omega.{arith}
use fraise.Prelude.Tests.{ltb, leb, ◌==◌, if◌then◌else◌, Bool-cases, ==_iff}
use fraise.Prelude.Text.{Text, all}
use fraise.Prelude.Fields.{all-append, cons_tail}

abbrev pub is_decimal : ℕ → Bool
is_decimal c = leb b'0' c && leb c b'9'

pub data ℤ : Type 0 where
  pos : ℕ → ℤ
  negsuc : ℕ → ℤ

unfoldable pub int_eq : ℤ → ℤ → Bool
int_eq (ℤ.pos m) (ℤ.pos n) = m == n
int_eq (ℤ.negsuc m) (ℤ.negsuc n) = m == n
int_eq _ _ = false

pub int_eq_iff : (m n : ℤ) → (int_eq m n ≡ true) ↔ (m ≡ n)
unfolding int_eq
int_eq_iff (ℤ.pos m) (ℤ.pos n) = ((λ e. ap ℤ.pos ((==_iff m n).0 e)), λ e. (==_iff m n).1 cc)
int_eq_iff (ℤ.negsuc m) (ℤ.negsuc n) =
    ((λ e. ap ℤ.negsuc ((==_iff m n).0 e)), λ e. (==_iff m n).1 cc)
int_eq_iff (ℤ.pos m) (ℤ.negsuc n) = ((λ e. absurd cc), λ e. absurd cc)
int_eq_iff (ℤ.negsuc m) (ℤ.pos n) = ((λ e. absurd cc), λ e. absurd cc)

-- `a < b` on integers
unfoldable pub int_ltb : ℤ → ℤ → Bool
int_ltb (ℤ.pos m) (ℤ.pos n) = ltb m n
int_ltb (ℤ.pos m) (ℤ.negsuc n) = false
int_ltb (ℤ.negsuc m) (ℤ.pos n) = true
int_ltb (ℤ.negsuc m) (ℤ.negsuc n) = ltb n m

-- One round for each digit is enough, and a number has no more digits than its own size.
unfoldable pub digits : ℕ → ℕ → Text
digits zero n = []
digits (suc fuel) n =
    if ltb n 10 then (b'0' + n) ∷ [] else digits fuel (n / 10) ++ (b'0' + n % 10) ∷ []

unfoldable pub decimal : ℕ → Text
decimal n = digits (n + 1) n

unfoldable pub itoa : ℤ → Text
itoa (ℤ.pos n) = decimal n
itoa (ℤ.negsuc n) = b'-' ∷ decimal (n + 1)

-- The number that a text of decimal digits stands for, from `n` on.
unfoldable pub read_digits : ℕ → Text → ℕ
read_digits n [] = n
read_digits n (c ∷ s) = read_digits (10 * n + (c - b'0')) s

read_digits-append :
    (n : ℕ) (s : Text) (c : ℕ) → read_digits n (s ++ c ∷ []) ≡ 10 * read_digits n s + (c - b'0')
unfolding read_digits
read_digits-append n [] c = refl
read_digits-append n (d ∷ s) c = read_digits-append (10 * n + (d - b'0')) s c

read_digits-digits : (fuel n : ℕ) → n < fuel → read_digits 0 (digits fuel n) ≡ n
unfolding read_digits digits
read_digits-digits zero n h = absurd (omega arith)
read_digits-digits (suc fuel) n h = elim (Bool-cases (ltb n 10)) [
  | inl small ↦ rw small (omega arith)
  | inr large ↦
      let more : 10 ≤ n = ground (arith, large) in
      let rest = read_digits-digits fuel (n / 10) (omega (arith, more, h)) in
      rw large (read_digits-append 0 (digits fuel (n / 10)) (b'0' + n % 10) ∙ omega (arith, rest))
]

-- A decimal numeral is read back as its number.
pub read_digits-decimal : (n : ℕ) → read_digits 0 (decimal n) ≡ n
unfolding decimal
read_digits-decimal n = read_digits-digits (n + 1) n (omega arith)

is_decimal-digit : (d : ℕ) → d < 10 → is_decimal (b'0' + d) ≡ true
is_decimal-digit d h = ground (arith, h)

all-digits : (fuel n : ℕ) → all is_decimal (digits fuel n) ≡ true
unfolding digits
all-digits zero n = refl
all-digits (suc fuel) n = elim (Bool-cases (ltb n 10)) [
  | inl small ↦ rw (small, is_decimal-digit n (ground (arith, small)))
  | inr large ↦ rw large (
      all-append is_decimal (digits fuel (n / 10)) ((b'0' + n % 10) ∷ []) (all-digits fuel (n / 10))
        (rw (is_decimal-digit (n % 10) (omega arith))))
]

pub all-decimal : (n : ℕ) → all is_decimal (decimal n) ≡ true
unfolding decimal
all-decimal n = all-digits (n + 1) n

pub decimal_injective : (m n : ℕ) → decimal m ≡ decimal n → m ≡ n
decimal_injective m n e = sym (read_digits-decimal m) ∙ ap (read_digits 0) e ∙ read_digits-decimal n

not_negative : (m n : ℕ) → decimal m ≢ b'-' ∷ decimal n
not_negative m n e =
    let is : all is_decimal (b'-' ∷ decimal n) ≡ true =
      subst (λ s. all is_decimal s ≡ true) e (all-decimal m) in
    absurd cc

pub itoa_injective : (m n : ℤ) → itoa m ≡ itoa n → m ≡ n
unfolding itoa
itoa_injective (ℤ.pos m) (ℤ.pos n) e = ap ℤ.pos (decimal_injective m n e)
itoa_injective (ℤ.pos m) (ℤ.negsuc n) e = absurd (not_negative m (n + 1) e)
itoa_injective (ℤ.negsuc m) (ℤ.pos n) e = absurd (not_negative n (m + 1) (sym e))
itoa_injective (ℤ.negsuc m) (ℤ.negsuc n) e =
    let same : m + 1 ≡ n + 1 = decimal_injective (m + 1) (n + 1) (cons_tail e) in
    ap ℤ.negsuc (omega arith)
