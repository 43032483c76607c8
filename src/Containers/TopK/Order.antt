-- ===== src/Containers/TopK/Order.antt =====
-- The heap order of `TopK`, with the worst pair at the root: `up` and `down` restore it.
use fraise.Prelude.{
  ℕ, ◌<◌, ◌≡◌, refl, ap, sym, ◌∙◌, Bool, true, false, List, Option, none, some, ◌==◌, if◌then◌else◌,
  length, get_elem?, inl, inr, Bool-cases,
}
use fraise.Containers.Array.{
  exchange, get_elem?-exchange, exchange-perm, length-exchange, get_elem?-some,
}
use fraise.Containers.Heap.{parent}
use fraise.Containers.TopK.{Entry, Ranking, worse, worse_than, swap_entries}
use mathlib.Core.List.{Perm}

-- `worse` is a strict weak order.
pub record IsOrder {K P : Type 0} (rank : Ranking K P) : Type 0 where
  pub asym : (a b : Entry K P) → worse rank a b ≡ true → worse rank b a ≡ false
  pub weak :
      (a b c : Entry K P) → worse rank a b ≡ false → worse rank b c ≡ false → worse rank a c ≡ false

-- Where the entry in slot `c` stood before the slots `i` and `j` were exchanged.
abbrev pub turn : ℕ → ℕ → ℕ → ℕ
turn i j c = if j == c then i else if i == c then j else c

module _ {K P : Type 0} (rank : Ranking K P) where
  abbrev pub pair_worse : Option (Entry K P) → Option (Entry K P) → Bool
  pair_worse none q = false
  pair_worse (some x) none = false
  pair_worse (some x) (some y) = worse rank x y

  -- The entry in slot `i` is worse than the one in slot `j`.
  abbrev pub is_worse : List (Entry K P) → ℕ → ℕ → Bool
  is_worse a i j = pair_worse (get_elem? a i) (get_elem? a j)

  pub worse_than-is_worse :
      (a : List (Entry K P)) (i j : ℕ)
      → i < length a
      → j < length a
      → worse_than rank a i j ≡ some (is_worse a i j)
  unfolding worse_than
  worse_than-is_worse a i j hi hj =
      let (x, ei) = get_elem?-some a i hi in let (y, ej) = get_elem?-some a j hj in rw (ei, ej) refl

  -- No entry is worse than the one above it.
  abbrev pub IsHeap : List (Entry K P) → Type 0
  IsHeap a = (c : ℕ) → 0 < c → c < length a → is_worse a c (parent c) ≡ false

  pub record Swapped (a : List (Entry K P)) (i j : ℕ) : Type 0 where
    pub after : List (Entry K P)
    pub returns : swap_entries rank a i j ≡ some after
    pub same : Perm after a
    pub size : length after ≡ length a
    pub slots : (c : ℕ) → get_elem? after c ≡ get_elem? a (turn i j c)

  pub swap-Swapped : (a : List (Entry K P)) (i j : ℕ) → i < length a → j < length a → Swapped a i j
  unfolding swap_entries
  swap-Swapped a i j hi hj =
      let (x, ei) = get_elem?-some a i hi in
      let (y, ej) = get_elem?-some a j hj in
      record {
        after = exchange a i j x y;
        returns = rw (ei, ej) refl;
        same = exchange-perm a i j x y ei ej;
        size = length-exchange a i j x y ei ej;
        slots = λ c. get_elem?-exchange a i j x y ei ej c ∙ elim (Bool-cases (j == c)) [
          | inl e ↦ rw e (sym ei)
          | inr n ↦ elim (Bool-cases (i == c)) [
            | inl e ↦ rw (n, e) (sym ej)
            | inr m ↦ rw (n, m) refl
          ]
        ];
      }

  pub seen :
      {a : List (Entry K P)} {i j : ℕ} (s : Swapped a i j) (c d : ℕ) {c' d' : ℕ}
      → turn i j c ≡ c'
      → turn i j d ≡ d'
      → is_worse a c' d' ≡ false
      → is_worse s.after c d ≡ false
  seen {a} s c d e f h =
      ap (λ o. pair_worse o (get_elem? s.after d)) (s.slots c ∙ ap (get_elem? a) e)
      ∙ ap (pair_worse (get_elem? a _)) (s.slots d ∙ ap (get_elem? a) f)
      ∙ h

  module _ (order : IsOrder rank) where
    asym_lem : (o q : Option (Entry K P)) → pair_worse o q ≡ true → pair_worse q o ≡ false
    asym_lem none q e = absurd cc
    asym_lem (some x) none e = absurd cc
    asym_lem (some x) (some y) e = order.asym x y e

    weak_lem :
        (o q : Option (Entry K P)) (y : Entry K P)
        → pair_worse o (some y) ≡ false
        → pair_worse (some y) q ≡ false
        → pair_worse o q ≡ false
    weak_lem none q y e f = refl
    weak_lem (some x) none y e f = refl
    weak_lem (some x) (some z) y e f = order.weak x y z e f

    module _ (a : List (Entry K P)) where
      pub worse-asym : (i j : ℕ) → is_worse a i j ≡ true → is_worse a j i ≡ false
      worse-asym i j = asym_lem (get_elem? a i) (get_elem? a j)

      pub worse_irrefl : (i : ℕ) → is_worse a i i ≡ false
      worse_irrefl i = elim (Bool-cases (is_worse a i i)) [ inl e ↦ worse-asym i i e | inr e ↦ e ]

      pub worse-weak :
          (i j k : ℕ)
          → j < length a
          → is_worse a i j ≡ false
          → is_worse a j k ≡ false
          → is_worse a i k ≡ false
      worse-weak i j k h e f =
          let (y, at_j) = get_elem?-some a j h in
          weak_lem (get_elem? a i) (get_elem? a k) y (rw at_j at e) (rw at_j at f)
