-- ===== src/Containers/TopK/Ranks.antt =====
-- When scores and keys rank the pairs, `worse` orders them, and the root of the heap is the worst.
use fraise.Prelude.{
  ℕ, zero, suc, ◌<◌, ◌≡◌, ap, sym, ◌∙◌, true, false, List, [], ◌∷◌, some, length, get_elem?, arith,
  inl, inr, Bool-cases,
}
use fraise.Prelude.Decimal.{ℤ, int_ltb}
use fraise.Containers.Array.{inside_of_some}
use fraise.Containers.Heap.{parent}
use fraise.Containers.TopK.{Entry, Ranking, worse}
use fraise.Containers.TopK.Kept.{RanksAbove}
use fraise.Containers.TopK.Order.{IsOrder, IsHeap, is_worse, worse-weak, worse_irrefl}
use mathlib.Core.List.{Mem, not-mem-nil, eq-or-mem_of_mem-cons}
use mathlib.Core.Logic.Or
use mathlib.Core.HLevel.{¬_prop}

-- `==` and `<` on scores and the comparator of keys rank the pairs: no pair ranks above one that ranks
-- above it, the pairs that none of two ranks above are interchangeable, and the comparator changes
-- its sign with its arguments.
pub record IsRanking {K P : Type 0} (rank : Ranking K P) : Type 0 where
  pub strict : (a b : Entry K P) → RanksAbove rank a b → ¬ RanksAbove rank b a
  pub weak :
      (a b c : Entry K P) → ¬ RanksAbove rank a b → ¬ RanksAbove rank b c → ¬ RanksAbove rank a c
  pub apart : (x y : P) → rank.same_score x y ≡ true → rank.less_score x y ≡ false
  pub mirrored : (x y : P) → rank.same_score x y ≡ rank.same_score y x
  pub flips :
      (k l : K)
      → int_ltb (ℤ.pos 0) (rank.compare_keys k l) ≡ int_ltb (rank.compare_keys l k) (ℤ.pos 0)

module _ {K P : Type 0} (rank : Ranking K P) where
  module _ (r : IsRanking rank) where
    worse-RanksAbove : (a b : Entry K P) → worse rank a b ≡ true → RanksAbove rank b a
    unfolding worse
    worse-RanksAbove a b e = elim (Bool-cases (rank.same_score a.score b.score)) [
      | inl same ↦
          RanksAbove.by_key (sym (r.mirrored a.score b.score) ∙ same)
            (sym (r.flips a.key b.key) ∙ rw same at e)
      | inr other ↦ RanksAbove.by_score (rw other at e)
    ]

    not_worse : (a b : Entry K P) → worse rank a b ≡ false → ¬ RanksAbove rank b a
    unfolding worse
    not_worse a b e (RanksAbove.by_score h) = absurd (ground (arith, e, h, r.apart a.score b.score))
    not_worse a b e (RanksAbove.by_key s h) =
        absurd (ground (arith, e, s, h, r.mirrored a.score b.score, r.flips a.key b.key))

    worse-false : (a b : Entry K P) → ¬ RanksAbove rank b a → worse rank a b ≡ false
    worse-false a b n = elim (Bool-cases (worse rank a b)) [
      | inl e ↦ absurd (n (worse-RanksAbove a b e))
      | inr e ↦ e
    ]

    pub order : IsOrder rank
    order = record {
      asym = λ a b e. worse-false b a (r.strict b a (worse-RanksAbove a b e));
      weak = λ a b c e f. worse-false a c (r.weak c b a (not_worse b c f) (not_worse a b e));
    }

    not_above_none :
        (xs : List (Entry K P)) (b : Entry K P)
        → ((i : ℕ) (y : Entry K P) → get_elem? xs i ≡ some y → ¬ RanksAbove rank b y)
        → (y : Entry K P) → Mem y xs
        → ¬ RanksAbove rank b y
    not_above_none [] b h y m = absurd (not-mem-nil m)
    not_above_none (x ∷ xs) b h y m =
        Or.elim ¬_prop (eq-or-mem_of_mem-cons m) (λ e. h 0 y (ap some (sym e)))
          (λ m'. not_above_none xs b (λ i. h (suc i)) y m')

    -- No entry of a heap is worse than the root.
    root_worst_below :
        (fuel : ℕ) (root : Entry K P) (a : List (Entry K P)) (i : ℕ)
        → IsHeap rank (root ∷ a)
        → i < fuel
        → i < length (root ∷ a)
        → is_worse rank (root ∷ a) i 0 ≡ false
    root_worst_below zero root a i v f h = absurd (omega arith)
    root_worst_below (suc fuel) root a zero v f h = worse_irrefl rank order (root ∷ a) 0
    root_worst_below (suc fuel) root a (suc i) v f h =
        worse-weak rank order (root ∷ a) (suc i) (parent (suc i)) 0 (omega (arith, h))
          (v (suc i) (omega arith) h)
          (root_worst_below fuel root a (parent (suc i)) v (omega (arith, f)) (omega (arith, h)))

    pub root_least :
        (root : Entry K P) (a : List (Entry K P))
        → IsHeap rank (root ∷ a)
        → (y : Entry K P) → Mem y (root ∷ a)
        → ¬ RanksAbove rank root y
    root_least root a v = not_above_none (root ∷ a) root (λ i y e. not_worse y root (
        rw e at
          (root_worst_below (suc i) root a i v (omega arith) (inside_of_some (root ∷ a) i e))))
