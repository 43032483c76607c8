-- ===== src/Containers/TopK/Kept.antt =====
-- What `Offer` keeps: the loops only move entries about, and end.
use fraise.Prelude.{
  ◌≤◌, ◌<◌, ◌≡◌, true, false, List, ◌∷◌, Option, some, length, get_elem?, arith, inl, inr, ◌⊎◌,
  Bool-cases,
}
use fraise.Prelude.Decimal.{ℤ, int_ltb}
use fraise.Containers.TopK.{Entry, Ranking, TopK, better, offer}
use mathlib.Core.List.{Perm}
use mathlib.Core.List.Perm

module _ {K P : Type 0} (rank : Ranking K P) where
  -- `r` is `a` with its entries in another order.
  record Moved (a : List (Entry K P)) (r : Option (List (Entry K P))) : Type 0 where
    after : List (Entry K P)
    returns : r ≡ some after
    same : Perm after a
    size : length after ≡ length a

  -- `a` ranks above `b`: its score is higher, or the scores are the same and its key comes first.
  pub data RanksAbove (a b : Entry K P) : Type 0 where
    by_score : rank.less_score b.score a.score ≡ true → RanksAbove a b
    by_key :
        rank.same_score a.score b.score ≡ true
        → int_ltb (rank.compare_keys a.key b.key) (ℤ.pos 0) ≡ true
        → RanksAbove a b

  pub better-RanksAbove : (a b : Entry K P) → better rank a b ≡ true → RanksAbove a b
  unfolding better
  better-RanksAbove a b e = elim (Bool-cases (rank.less_score b.score a.score)) [
    | inl higher ↦ RanksAbove.by_score higher
    | inr other ↦ RanksAbove.by_key (ground (arith, e, other)) (ground (arith, e, other))
  ]

  pub not_better : (a b : Entry K P) → better rank a b ≡ false → ¬ RanksAbove a b
  unfolding better
  not_better a b e (RanksAbove.by_score h) = absurd (ground (arith, e, h))
  not_better a b e (RanksAbove.by_key s h) = absurd (ground (arith, e, s, h))

  -- What an offer does: the pair is added while there is room, and always without a bound; at
  -- capacity it takes the place of the root if it ranks above it, and is dropped if not.
  pub data Offered (e : Entry K P) (t t' : TopK K P) : Type 0 where
    added : (t.k ≡ 0) ⊎ (length t.entries < t.k) → Perm t'.entries (e ∷ t.entries) → Offered e t t'
    dropped :
        (root : Entry K P)
        → get_elem? t.entries 0 ≡ some root
        → ¬ RanksAbove e root
        → t' ≡ t
        → Offered e t t'
    replaced :
        (root : Entry K P) (others : List (Entry K P))
        → t.entries ≡ root ∷ others
        → RanksAbove e root
        → Perm t'.entries (e ∷ others)
        → Offered e t t'

  -- An offer that ends with `t'`, which keeps the bound.
  pub record Offering (e : Entry K P) (t : TopK K P) : Type 0 where
    pub after : TopK K P
    pub returns : offer rank e t ≡ some after
    pub bound : after.k ≡ t.k
    pub fits : 0 < t.k → length after.entries ≤ t.k
    pub offered : Offered e t after
