-- ===== src/Containers/Array.antt =====
-- Slices under native indices: what a write and an exchange leave at every index.
use fraise.Prelude.{
  ℕ, zero, suc, ◌≤◌, ◌<◌, ◌≡◌, refl, ap, ◌∙◌, List, [], ◌∷◌, ◌++◌, none, some, arith, length,
  get_elem?, set, take, length-set, ◌==◌, if◌then◌else◌,
}
use mathlib.Core.List.{Perm, perm_middle, append-nil}
use mathlib.Core.List.Perm

module _ {ℓ} {A : Type ℓ} where
  pub get_elem?-set :
      (a : List A) (i j : ℕ) (v : A)
      → i < length a
      → get_elem? (set a i v) j ≡ (if i == j then some v else get_elem? a j)
  get_elem?-set [] i j v h = absurd (omega arith)
  get_elem?-set (x ∷ a) zero zero v h = refl
  get_elem?-set (x ∷ a) zero (suc j) v h = ground arith
  get_elem?-set (x ∷ a) (suc i) zero v h = ground arith
  get_elem?-set (x ∷ a) (suc i) (suc j) v h = ground (arith, get_elem?-set a i j v)

  pub get_elem?-some : (a : List A) (i : ℕ) → i < length a → (x : A) × (get_elem? a i ≡ some x)
  get_elem?-some [] i h = absurd (omega arith)
  get_elem?-some (x ∷ a) zero h = (x, refl)
  get_elem?-some (x ∷ a) (suc i) h = get_elem?-some a i (omega arith)

  pub inside_of_some : (a : List A) (i : ℕ) {x : A} → get_elem? a i ≡ some x → i < length a
  inside_of_some [] i e = cc
  inside_of_some (x ∷ a) zero e = omega arith
  inside_of_some (x ∷ a) (suc i) e = omega (arith, inside_of_some a i e)

  pub get_elem?-concat :
      (a : List A) (v : A) (i : ℕ)
      → get_elem? (a ++ v ∷ []) i ≡ (if i == length a then some v else get_elem? a i)
  get_elem?-concat [] v zero = refl
  get_elem?-concat [] v (suc i) = ground arith
  get_elem?-concat (x ∷ a) v zero = ground arith
  get_elem?-concat (x ∷ a) v (suc i) = ground (arith, get_elem?-concat a v i)

  pub get_elem?-take : (n : ℕ) (a : List A) (i : ℕ) → i < n → get_elem? (take n a) i ≡ get_elem? a i
  get_elem?-take zero a i h = absurd (omega arith)
  get_elem?-take (suc n) [] i h = refl
  get_elem?-take (suc n) (x ∷ a) zero h = refl
  get_elem?-take (suc n) (x ∷ a) (suc i) h = get_elem?-take n a i (omega arith)

  pub length-take : (n : ℕ) (a : List A) → n ≤ length a → length (take n a) ≡ n
  length-take zero a h = refl
  length-take (suc n) [] h = absurd (omega arith)
  length-take (suc n) (x ∷ a) h = omega (arith, length-take n a (omega arith))

  -- A write trades the old entry for the new one.
  pub set-perm :
      (a : List A) (i : ℕ) (v : A) {x : A} → get_elem? a i ≡ some x → Perm (x ∷ set a i v) (v ∷ a)
  set-perm [] i v e = absurd (no_entry e)
    where
      no_entry : {x : A} → none ≡ some x → ⊥
      no_entry e = cc
  set-perm (y ∷ a) zero v {x} e = rw (same e) (Perm.swap v y a)
    where
      same : some y ≡ some x → x ≡ y
      same e = cc
  set-perm (y ∷ a) (suc i) v {x} e =
      Perm.trans (Perm.swap y x (set a i v))
        (Perm.trans (Perm.cons y (set-perm a i v e)) (Perm.swap v y a))

  pub concat-perm : (a : List A) (v : A) → Perm (a ++ v ∷ []) (v ∷ a)
  concat-perm a v = rw (append-nil a) at (perm_middle {a = v} a [])

  pub take-concat :
      (n : ℕ) (a : List A) {v : A}
      → length a ≡ suc n
      → get_elem? a n ≡ some v
      → take n a ++ v ∷ [] ≡ a
  take-concat n [] h e = absurd (omega arith)
  take-concat zero (x ∷ []) h e = ground arith
  take-concat zero (x ∷ y ∷ a) h e = absurd (omega arith)
  take-concat (suc n) (x ∷ a) h e = ap (◌∷◌ x) (take-concat n a (omega arith) e)

  -- The last entry dropped.
  pub drop_last-perm :
      (n : ℕ) (a : List A) {x : A}
      → length a ≡ suc n
      → get_elem? a n ≡ some x
      → Perm (x ∷ take n a) a
  drop_last-perm n a {x} size e =
      rw (take-concat n a size e) at (Perm.symm (concat-perm (take n a) x))

  -- The last entry moved into slot `i`, whose own entry `x` leaves.
  pub move_last-perm :
      (i n : ℕ) (a : List A) {x y : A}
      → length a ≡ suc n
      → i < n
      → get_elem? a i ≡ some x
      → get_elem? a n ≡ some y
      → Perm (x ∷ take n (set a i y)) a
  move_last-perm i n a {x} {y} size below ei en =
      let size' : length (set a i y) ≡ suc n = length-set a i y ∙ size in
      let last : get_elem? (set a i y) n ≡ some y =
        get_elem?-set a i n y (omega arith) ∙ ground arith in
      let whole = Perm.cons x (drop_last-perm n (set a i y) size' last) in
      Perm.cons_inv
        (Perm.trans (Perm.swap x y (take n (set a i y))) (Perm.trans whole (set-perm a i y ei)))

  -- `a[i], a[j] = a[j], a[i]`, on the entries read
  abbrev pub exchange : List A → ℕ → ℕ → A → A → List A
  exchange a i j x y = set (set a i y) j x

  module _ (a : List A) (i j : ℕ) (x y : A) (ei : get_elem? a i ≡ some x)
      (ej : get_elem? a j ≡ some y) where
    pub get_elem?-exchange :
        (c : ℕ)
        → get_elem? (exchange a i j x y) c
          ≡ (if j == c then some x else if i == c then some y else get_elem? a c)
    get_elem?-exchange c = rw (
      get_elem?-set (set a i y) j c x (rw length-set (inside_of_some a j ej)),
      get_elem?-set a i c y (inside_of_some a i ei),
    )

    pub exchange-perm : Perm (exchange a i j x y) a
    exchange-perm =
        let at_j : get_elem? (set a i y) j ≡ some y =
          get_elem?-set a i j y (inside_of_some a i ei) ∙ ground arith in
        Perm.cons_inv (Perm.trans (set-perm (set a i y) j x at_j) (set-perm a i y ei))

    pub length-exchange : length (exchange a i j x y) ≡ length a
    length-exchange = rw (length-set, length-set)
