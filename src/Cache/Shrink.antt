-- ===== src/Cache/Shrink.antt =====
-- What `Delete` and `Resize` leave of the list of entries.
use fraise.Prelude.{
  ℕ, zero, suc, ◌+◌, ◌-◌, ◌≤◌, ◌<◌, ◌≡◌, refl, ap, ◌∙◌, List, [], ◌∷◌, Option, none, some, arith,
  length, take, ◌==◌, Bool, true, false, sym, ltb, length-take-le, Option-cases, inl, inr,
  Bool-cases,
}
use fraise.Prelude.Maps.{delete, empty}
use fraise.Cache.Lru
use fraise.Cache.Lru.{LruCache, Result, CacheError, remove, evict_oldest, shrink}
use fraise.Cache.Recency.{find, drop_key}
use fraise.Cache.Cells.{
  Cell, view, handle_of, drop_cell, Holds, handle_of_fresh, view-drop_cell, drop_cell-AreDistinct,
  drop_cell-AreStored, drop_cell-AreBelow, handle_of-drop_cell, find-none, drop_cell_miss, located,
}
use fraise.Cache.Oldest.{
  view-take, length-view, length-handles, length-take-suc, take_of_length-le, evict_oldest-Holds,
}
use fraise.Cache.Methods.{Refines}
use mathlib.Core.Logic.{if_pos, if_neg}

pub is_some {ℓ} : {A : Type ℓ} → Option A → Bool
is_some none = false
is_some (some a) = true

take-take {ℓ} : {A : Type ℓ} (n m : ℕ) (s : List A) → n ≤ m → take n (take m s) ≡ take n s
take-take zero m s h = refl
take-take (suc n) zero s h = absurd (omega arith)
take-take (suc n) (suc m) [] h = refl
take-take (suc n) (suc m) (x ∷ s) h = ap (◌∷◌ x) (take-take n m s (omega arith))

module _ {ℓ} {K V : Type ℓ} (dec : Discrete K) where
  -- What `NewLRUCache` returns: an error for a capacity that is not positive, and for any other
  -- a cache of that capacity that holds nothing.
  pub data Constructed (n : ℕ) : Result (LruCache K V) → Type ℓ where
    no_capacity : n ≡ 0 → Constructed n (Result.err CacheError.cache_capacity)
    vacant : {c : LruCache K V} → Refines dec c [] → c.capacity ≡ n → Constructed n (Result.ok c)

  empty-Refines :
      (n : ℕ)
      → 0 < n
      → Refines {V = V} dec
          (record { capacity = n; items = empty; order = []; entries = empty; fresh = 0 })
          []
  unfolding handle_of
  empty-Refines n h = record {
    cells = [];
    holds = record { order_is = refl; indexed = λ k. refl; stored = tt; below = tt; distinct = tt };
    view_is = refl;
    positive = h;
    bounded = omega arith;
  }

  -- `NewLRUCache` refuses a capacity that is not positive with ErrCacheCapacity, and makes of any
  -- other a cache of that capacity that refines the empty list of entries.
  pub new-Constructed : (n : ℕ) → Constructed n (Lru.new {K = K} {V = V} n)
  unfolding Lru.new
  new-Constructed zero = Constructed.no_capacity refl
  new-Constructed (suc n) =
      let positive : (suc n == 0) ≡ false = ground arith in
      rw positive (Constructed.vacant (empty-Refines (suc n) (omega arith)) refl)

  module _ (c : LruCache K V) (t : List (K × V)) (r : Refines dec c t) where
    deleted-Holds :
        (k : K) (h : ℕ)
        → handle_of dec k r.cells ≡ some h
        → Holds dec
            (record c { order = remove h c.order; items = delete dec c.items k })
            (drop_cell dec k r.cells)
    deleted-Holds k h hit =
        let l = located dec k h c.entries r.cells hit r.holds.stored r.holds.distinct in
        let (inner, gone) = drop_cell-AreDistinct dec k r.cells r.holds.distinct in
        record {
          order_is = rw r.holds.order_is l.removed;
          indexed = λ j. elim (dec j k) [
            | yes p ↦
                if_pos (dec j k) p _ _
                ∙ sym (rw p (handle_of_fresh dec k (drop_cell dec k r.cells) gone))
            | no n ↦
                if_neg (dec j k) n _ _
                ∙ r.holds.indexed j
                ∙ sym (handle_of-drop_cell dec k j r.cells n)
          ];
          stored = drop_cell-AreStored dec k c.entries r.cells r.holds.stored;
          below = drop_cell-AreBelow dec k c.fresh r.cells r.holds.below;
          distinct = inner;
        }

    -- On a cache that holds the entries `t`, `Delete` takes the entry of the key away, if there is one, and says whether there was.
    pub delete_key-Refines :
        (k : K)
        → ((Lru.delete_key dec k c).0 ≡ is_some (find dec k t))
          × Refines dec (Lru.delete_key dec k c).1 (drop_key dec k t)
    unfolding Lru.delete_key is_some
    delete_key-Refines k = elim (Option-cases (handle_of dec k r.cells)) [
      | inl miss ↦
          let no_value = rw r.view_is at (find-none dec k r.cells miss) in
          let kept : drop_key dec k t ≡ t =
            rw (← r.view_is)
              (sym (view-drop_cell dec k r.cells) ∙ ap view (drop_cell_miss dec k r.cells miss)) in
          rw (r.holds.indexed k, miss, no_value, kept, Lru.delete_key, is_some) (refl, r)
      | inr (h, hit) ↦
          let l = located dec k h c.entries r.cells hit r.holds.stored r.holds.distinct in
          let value : find dec k t ≡ some l.value = rw r.view_is at l.found in
          let left : view (drop_cell dec k r.cells) ≡ drop_key dec k t =
            view-drop_cell dec k r.cells ∙ ap (drop_key dec k) r.view_is in
          rw (r.holds.indexed k, hit, value, Lru.delete_key, is_some)
            (
              refl,
              record {
                cells = drop_cell dec k r.cells;
                holds = deleted-Holds k h hit;
                view_is = left;
                positive = r.positive;
                bounded = rw (← left) (
                    omega (
                      arith,
                      l.shorter,
                      length-view r.cells,
                      ap length r.view_is,
                      length-view (drop_cell dec k r.cells),
                      r.bounded,
                    ));
              },
            )
    ]

  -- The rounds of `Resize` leave the first `n` cells, and count the others.
  shrink-Holds :
      (fuel n k : ℕ) (c : LruCache K V) (s : List (Cell K V))
      → Holds dec c s
      → length s < fuel
      → (c' : LruCache K V) × (shrink dec fuel n k c ≡ some (k + (length s - n), c'))
        × Holds dec c' (take n s)
  unfolding shrink
  shrink-Holds zero n k c s h f = absurd (omega arith)
  shrink-Holds (suc fuel) n k c s h f = elim (Bool-cases (ltb n (length c.order))) [
    | inl over ↦
        let m = length s - 1 in
        let many : n < length s = ground (arith, size) in
        let last : length s ≡ suc m = omega arith in
        let (c1, found, h1, _) = evict_oldest-Holds dec c s m h last in
        let less : length (take m s) ≡ m = length-take-suc m s last in
        let (c', counted, h') =
          shrink-Holds fuel n (k + 1) c1 (take m s) h1 (omega (arith, less)) in
        let count : k + 1 + (length (take m s) - n) ≡ k + (length s - n) = omega (arith, less) in
        (
          c',
          rw (over, found) (counted ∙ ap (λ (x : ℕ). some (x, c')) count),
          rw (take-take n m s (omega arith)) at h',
        )
    | inr fits ↦
        let few : length s ≤ n = ground (arith, size) in
        let none_gone : k ≡ k + (length s - n) = omega arith in
        (c, rw fits (ap (λ (x : ℕ). some (x, c)) none_gone), rw (take_of_length-le n s few) h)
  ]
    where
      size : length c.order ≡ length s
      size = ap length h.order_is ∙ length-handles s

  module _ (c : LruCache K V) (t : List (K × V)) (r : Refines dec c t) where
    cells_length : length r.cells ≡ length t
    cells_length = sym (length-view r.cells) ∙ ap length r.view_is

    -- On a cache that holds the entries `t`, `Resize` to a positive capacity keeps the most recently used entries that fit, counts the
    -- others, which it evicts, and follows no dangling pointer.
    pub resize-Refines :
        (n : ℕ)
        → 0 < n
        → (c' : LruCache K V) × (Lru.resize dec n c ≡ some (Result.ok (length t - n), c'))
          × Refines dec c' (take n t)
          × (c'.capacity ≡ n)
    unfolding Lru.resize
    resize-Refines n pos = elim (Bool-cases (ltb n c.capacity)) [
      | inl shrinks ↦
          let (c', run, h') =
            shrink-Holds (length c.order + 1) n 0 c r.cells r.holds
              (omega (arith, ap length r.holds.order_is, length-handles r.cells)) in
          let count : 0 + (length r.cells - n) ≡ length t - n = omega (arith, cells_length) in
          (
            record c' { capacity = n },
            ground (arith, run, count),
            record {
              cells = take n r.cells;
              holds = record {
                order_is = h'.order_is;
                indexed = h'.indexed;
                stored = h'.stored;
                below = h'.below;
                distinct = h'.distinct;
              };
              view_is = view-take n r.cells ∙ ap (take n) r.view_is;
              positive = pos;
              bounded = length-take-le n t;
            },
            refl,
          )
      | inr grows ↦
          let fits : length t ≤ n = ground (arith, r.bounded) in
          let none_gone : 0 ≡ length t - n = omega arith in
          (
            record c { capacity = n },
            ground arith,
            record {
              cells = r.cells;
              holds = record {
                order_is = r.holds.order_is;
                indexed = r.holds.indexed;
                stored = r.holds.stored;
                below = r.holds.below;
                distinct = r.holds.distinct;
              };
              view_is = r.view_is ∙ sym (take_of_length-le n t fits);
              positive = pos;
              bounded = length-take-le n t;
            },
            refl,
          )
    ]
