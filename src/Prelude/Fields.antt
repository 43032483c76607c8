-- ===== src/Prelude/Fields.antt =====
-- Text in fields: what stands in front of the first delimiter, and a part of a known length.
use Prim.Native.Nat.{ℕ}
use mathlib.Core.Bool.{Bool, true, false, ◌&&◌}
use mathlib.Core.List.{[], ◌∷◌, ◌++◌}
use mathlib.Core.Path.{◌≡◌, refl, ap}
use native.Mathlib.Omega.{arith}
use fraise.Prelude.Text.{Text, all}
use fraise.Prelude.Lists.{length}

pub cons_head : {x y : ℕ} {s t : Text} → x ∷ s ≡ y ∷ t → x ≡ y
cons_head e = cc

pub cons_tail : {x y : ℕ} {s t : Text} → x ∷ s ≡ y ∷ t → s ≡ t
cons_tail e = cc

pub and_left : (a b : Bool) → (a && b) ≡ true → a ≡ true
and_left true b e = refl
and_left false b e = e

pub and_right : (a b : Bool) → (a && b) ≡ true → b ≡ true
and_right true b e = e
and_right false b e = absurd cc

pub all-append :
    (p : ℕ → Bool) (s t : Text) → all p s ≡ true → all p t ≡ true → all p (s ++ t) ≡ true
all-append p [] t h k = k
all-append p (c ∷ s) t h k =
    rw (and_left (p c) (all p s) h) (all-append p s t (and_right (p c) (all p s) h) k)

-- Two texts agree on the field in front of the first delimiter, on the delimiter and on the rest.
pub field_unique :
    (p : ℕ → Bool) (a b : Text) (x y : ℕ) (s t : Text)
    → all p a ≡ true
    → all p b ≡ true
    → p x ≡ false
    → p y ≡ false
    → a ++ x ∷ s ≡ b ++ y ∷ t
    → (a ≡ b) × (x ≡ y) × (s ≡ t)
field_unique p [] [] x y s t ha hb hx hy e = (refl, cons_head e, cons_tail e)
field_unique p [] (c ∷ b) x y s t ha hb hx hy e =
    let in_field : p c ≡ true = and_left (p c) (all p b) hb in
    let same : p x ≡ p c = ap p (cons_head e) in absurd cc
field_unique p (c ∷ a) [] x y s t ha hb hx hy e =
    let in_field : p c ≡ true = and_left (p c) (all p a) ha in
    let same : p c ≡ p y = ap p (cons_head e) in absurd cc
field_unique p (c ∷ a) (d ∷ b) x y s t ha hb hx hy e =
    let (u, v, w) =
      field_unique p a b x y s t (and_right (p c) (all p a) ha) (and_right (p d) (all p b) hb) hx hy
        (cons_tail e) in
    let same : c ≡ d = cons_head e in (cc, v, w)

-- Two texts agree on a part of the same length and on the rest.
pub part_unique : (a b s t : Text) → length a ≡ length b → a ++ s ≡ b ++ t → (a ≡ b) × (s ≡ t)
part_unique [] [] s t h e = (refl, e)
part_unique [] (c ∷ b) s t h e = absurd (omega (arith, h))
part_unique (c ∷ a) [] s t h e = absurd (omega (arith, h))
part_unique (c ∷ a) (d ∷ b) s t h e =
    let (u, v) = part_unique a b s t (omega (arith, h)) (cons_tail e) in
    let same : c ≡ d = cons_head e in (cc, v)
