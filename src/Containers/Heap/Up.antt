-- ===== src/Containers/Heap/Up.antt =====
-- `percolateUp` restores the heap order above one slot.
use fraise.Prelude.{
  ℕ, zero, suc, ◌≤◌, ◌<◌, ◌≡◌, ◌≢◌, List, Option, some, ltb, length, arith, inl, inr, Bool-cases,
}
use fraise.Containers.Heap.{Item, Heap, parent, percolate_up}
use fraise.Containers.Heap.Order.{
  prio, IsHeapFrom, Rearranged, Rearranged-refl, Rearranged-trans, Swapped, swap-Swapped,
  above-prio,
}

module _ {ℓ} {K T : Type ℓ} where
  -- Only the edge above slot `i` may be out of order.
  pub record UpInv (a : List (Item K T)) (i : ℕ) : Type 0 where
    pub inside : i < length a
    pub edges : (c : ℕ) → 0 < c → c < length a → c ≢ i → prio a c ≤ prio a (parent c)
    pub bridged :
        (c : ℕ) → 0 < c → c < length a → parent c ≡ i → 0 < i → prio a c ≤ prio a (parent i)

module _ {ℓ} {K T : Type ℓ} (dec : Discrete K) where
  -- What a sift leaves: the same items, in order from slot `lo` on.
  pub record Sifted (lo : ℕ) (h : Heap K T) (r : Option (Heap K T)) : Type ℓ where
    pub after : Heap K T
    pub returns : r ≡ some after
    pub ordered : IsHeapFrom lo after.items
    pub rearranged : Rearranged h after

  Swapped-UpInv :
      (i : ℕ) (h : Heap K T) (s : Swapped dec i (parent i) h)
      → UpInv h.items i
      → 0 < i
      → prio h.items (parent i) < prio h.items i
      → UpInv s.after.items (parent i)
  Swapped-UpInv i h s v pos rises =
      let size = s.rearranged.size in
      let above_i : parent i < i = omega arith in
      record {
        inside = omega (arith, size, v.inside);
        edges = λ c p q n. ground (
          arith,
          size,
          s.priorities c,
          s.priorities (parent c),
          v.edges c,
          v.bridged c,
          v.inside,
        );
        bridged = λ c p q e t. ground (
          arith,
          size,
          s.priorities c,
          s.priorities (parent (parent i)),
          v.edges c,
          v.edges (parent i),
          v.inside,
        );
      }

  pub percolate_up-Sifted :
      (fuel i : ℕ) (h : Heap K T)
      → i < fuel
      → UpInv h.items i
      → Sifted 0 h (percolate_up dec fuel i h)
  unfolding percolate_up
  percolate_up-Sifted zero i h f v = absurd (omega arith)
  percolate_up-Sifted (suc fuel) i h f v = elim (Bool-cases (ltb 0 i)) [
    | inr root ↦ record {
      after = h;
      returns = rw root;
      ordered = λ c p q _. v.edges c p q (ground arith);
      rearranged = Rearranged-refl h;
    }
    | inl inner ↦
        let pos : 0 < i = ground arith in
        let up_inside : parent i < length h.items = omega (arith, v.inside) in
        let compared = above-prio h.items i (parent i) v.inside up_inside in
        elim (Bool-cases (ltb (prio h.items (parent i)) (prio h.items i))) [
          | inr settled ↦ record {
            after = h;
            returns = rw (inner, compared, settled);
            ordered = λ c p q _. ground (arith, v.edges c);
            rearranged = Rearranged-refl h;
          }
          | inl rises ↦
              let s = swap-Swapped dec i (parent i) h v.inside up_inside in
              let t =
                percolate_up-Sifted fuel (parent i) s.after (omega arith)
                  (Swapped-UpInv i h s v pos (ground arith)) in
              record {
                after = t.after;
                returns = rw (inner, compared, rises, s.returns) t.returns;
                ordered = t.ordered;
                rearranged = Rearranged-trans s.rearranged t.rearranged;
              }
        ]
  ]
