-- ===== src/Prelude/Text.antt =====
-- Text as a list of runes (code points), the form in which the lexer and the parser walk it.
use Prim.Native.Char.{code}
use Prim.Native.Nat.{ℕ}
use Prim.Native.String.{String}
use mathlib.Core.Bool.{Bool, true, false, ◌&&◌}
use mathlib.Core.List.{List, [], ◌∷◌, ◌++◌}
use mathlib.Core.Logic.{◌↔◌, ◌≢◌, inl, inr}
use mathlib.Core.Path.{◌≡◌, refl, sym, ◌∙◌}
use native.Mathlib.Omega.{arith}
use fraise.Prelude.Tests.{◌==◌, Bool-cases}

abbrev pub Text : Type 0
Text = List ℕ

-- The runes of a Go string literal.
abbrev pub codes : String → Text
codes String.[] = []
codes (String.◌∷◌ c s) = code c ∷ codes s

abbrev pub all : (ℕ → Bool) → Text → Bool
all p [] = true
all p (c ∷ w) = p c && all p w

-- `a == b` on strings
unfoldable pub text_eq : Text → Text → Bool
text_eq [] [] = true
text_eq (a ∷ s) (b ∷ t) = a == b && text_eq s t
text_eq _ _ = false

pub text_eq_iff : (s t : Text) → (text_eq s t ≡ true) ↔ (s ≡ t)
unfolding text_eq
text_eq_iff (a ∷ s) (b ∷ t) = ground (arith, text_eq_iff s t)
text_eq_iff _ _ = ground arith

pub text_eq_refl : (s : Text) → text_eq s s ≡ true
text_eq_refl s = (text_eq_iff s s).1 refl

pub text_discrete : Discrete Text
text_discrete s t = elim (Bool-cases (text_eq s t)) [
  | inl e ↦ yes ((text_eq_iff s t).0 e)
  | inr n ↦ no (λ e. true-ne-false (sym ((text_eq_iff s t).1 e) ∙ n))
]
  where
    true-ne-false : true ≢ false
    true-ne-false e = cc

-- `strings.Join(s, " ")`
unfoldable pub join : List Text → Text
join [] = []
join (s ∷ []) = s
join (s ∷ t ∷ ss) = s ++ b' ' ∷ join (t ∷ ss)
