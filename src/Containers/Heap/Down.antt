-- ===== src/Containers/Heap/Down.antt =====
-- `percolateDown` restores the heap order below one slot, and `NewHeapCap` orders a whole slice.
use fraise.Prelude.{
  ℕ, zero, suc, ◌+◌, ◌-◌, ◌*◌, ◌≤◌, ◌<◌, ◌≡◌, ◌≢◌, refl, List, some, ltb, if◌then◌else◌, length,
  arith, inl, inr, Bool-cases, ◌⊎◌,
}
use fraise.Containers.Heap.{Item, Heap, parent, larger, largest_of, percolate_down, heapify}
use fraise.Containers.Heap.Order.{
  prio, IsHeapFrom, Rearranged-refl, Rearranged-trans, Swapped, swap-Swapped, above-prio,
}
use fraise.Containers.Slots.{eq_or_ne}
use fraise.Containers.Heap.Up.{Sifted}

module _ {ℓ} {K T : Type ℓ} where
  -- Only the edges below slot `i` may be out of order, among those from `lo` on.
  pub record DownInv (lo : ℕ) (a : List (Item K T)) (i : ℕ) : Type 0 where
    pub edges :
        (c : ℕ) → 0 < c → c < length a → lo ≤ parent c → parent c ≢ i → prio a c ≤ prio a (parent c)
    pub bridged :
        (c : ℕ)
        → 0 < c
        → c < length a
        → parent c ≡ i
        → 0 < i
        → lo ≤ parent i
        → prio a c ≤ prio a (parent i)

  -- `m` is the largest of slot `i` and its children.
  record Largest (a : List (Item K T)) (i : ℕ) : Type 0 where
    slot : ℕ
    returns : largest_of a i ≡ some slot
    inside : slot < length a
    place : (slot ≡ i) ⊎ ((parent slot ≡ i) × (i < slot) × (prio a i < prio a slot))
    most : prio a i ≤ prio a slot
    greatest : (c : ℕ) → 0 < c → c < length a → parent c ≡ i → prio a c ≤ prio a slot

  larger_lem :
      (a : List (Item K T)) (s l : ℕ)
      → l < length a
      → larger a s l
        ≡ some (if ltb s (length a) then (if ltb (prio a l) (prio a s) then s else l) else l)
  unfolding larger
  larger_lem a s l h = elim (Bool-cases (ltb s (length a))) [
    | inl e ↦ rw (e, above-prio a s l (ground arith) h)
    | inr e ↦ rw e
  ]

  largest_of_lem : (a : List (Item K T)) (i : ℕ) → i < length a → Largest a i
  unfolding largest_of
  largest_of_lem a i h =
      let left : ℕ =
        if ltb (2 * i + 1) (length a)
        then (if ltb (prio a i) (prio a (2 * i + 1)) then 2 * i + 1 else i)
        else i in
      let first = larger_lem a (2 * i + 1) i h in
      let left_inside : left < length a = ground arith in
      let second = larger_lem a (2 * i + 2) left left_inside in
      let best : ℕ =
        if ltb (2 * i + 2) (length a)
        then (if ltb (prio a left) (prio a (2 * i + 2)) then 2 * i + 2 else left)
        else left in
      record {
        slot = best;
        returns = rw first second;
        inside = ground arith;
        place = ground arith;
        most = ground arith;
        greatest = λ c p q e. elim (eq_or_ne c (2 * i + 1)) [
          | inl s ↦ rw s (ground (arith, rw s at q))
          | inr n ↦ let s : c ≡ 2 * i + 2 = omega arith in rw s (ground (arith, rw s at q))
        ];
      }

module _ {ℓ} {K T : Type ℓ} (dec : Discrete K) where
  Swapped-DownInv :
      (lo i m : ℕ) (h : Heap K T) (s : Swapped dec i m h)
      → DownInv lo h.items i
      → m < length h.items
      → parent m ≡ i
      → i < m
      → prio h.items i < prio h.items m
      → ((c : ℕ) → 0 < c → c < length h.items → parent c ≡ i → prio h.items c ≤ prio h.items m)
      → DownInv lo s.after.items m
  Swapped-DownInv lo i m h s v inside child below rises greatest =
      let size = s.rearranged.size in
      record {
        edges = λ c p q r t. ground (
          arith,
          size,
          s.priorities c,
          s.priorities (parent c),
          v.edges c,
          v.bridged m,
          greatest c,
        );
        bridged =
            λ c p q r t u. ground (arith, size, s.priorities c, s.priorities (parent m), v.edges c);
      }

  pub percolate_down-Sifted :
      (fuel lo i : ℕ) (h : Heap K T)
      → length h.items - i < fuel
      → DownInv lo h.items i
      → Sifted dec lo h (percolate_down dec fuel i h)
  unfolding percolate_down
  percolate_down-Sifted zero lo i h f v = absurd (omega arith)
  percolate_down-Sifted (suc fuel) lo i h f v = elim (Bool-cases (ltb i (length h.items))) [
    | inr out ↦ record {
      after = h;
      returns = rw out;
      ordered = λ c p q r. v.edges c p q r (ground arith);
      rearranged = Rearranged-refl h;
    }
    | inl inner ↦
        let inside : i < length h.items = ground arith in
        let m = largest_of_lem h.items i inside in
        elim (eq_or_ne m.slot i) [
          | inl stays ↦ record {
            after = h;
            returns = rw (inner, m.returns) (ground arith);
            ordered = λ c p q r. ground (arith, v.edges c, m.greatest c, stays);
            rearranged = Rearranged-refl h;
          }
          | inr sinks ↦
              let s = swap-Swapped dec i m.slot h inside m.inside in
              let below : i < m.slot = ground (arith, m.place) in
              let t =
                percolate_down-Sifted fuel lo m.slot s.after
                  (omega (arith, s.rearranged.size, m.inside))
                  (Swapped-DownInv lo i m.slot h s v m.inside (ground (arith, m.place)) below
                    (ground (arith, m.place)) m.greatest) in
              record {
                after = t.after;
                returns = rw (inner, m.returns) (ground (arith, s.returns, t.returns));
                ordered = t.ordered;
                rearranged = Rearranged-trans s.rearranged t.rearranged;
              }
        ]
  ]

  -- Each round of `NewHeapCap` extends the ordered part of the heap by one parent.
  pub heapify-Sifted :
      (n : ℕ) (h : Heap K T) → IsHeapFrom n h.items → Sifted dec 0 h (heapify dec n h)
  unfolding heapify
  heapify-Sifted zero h v = record {
    after = h;
    returns = refl;
    ordered = v;
    rearranged = Rearranged-refl h;
  }
  heapify-Sifted (suc n) h v =
      let s = percolate_down-Sifted (length h.items + 1) n n h (omega arith) (record {
        edges = λ c p q r t. v c p q (omega arith);
        bridged = λ c p q r t u. absurd (omega arith);
      }) in
      let t = heapify-Sifted n s.after s.ordered in
      record {
        after = t.after;
        returns = rw s.returns t.returns;
        ordered = t.ordered;
        rearranged = Rearranged-trans s.rearranged t.rearranged;
      }
