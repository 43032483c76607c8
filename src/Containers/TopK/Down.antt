-- ===== src/Containers/TopK/Down.antt =====
-- `down` restores the heap order of `TopK`.
use fraise.Prelude.{
  ℕ, zero, suc, ◌+◌, ◌-◌, ◌*◌, ◌<◌, ◌≡◌, ◌≢◌, refl, ◌∙◌, true, false, List, some, ◌==◌, ltb, length,
  arith, inl, inr, ◌⊎◌, Bool-cases,
}
use fraise.Containers.Slots.{eq_or_ne}
use fraise.Containers.Heap.{parent}
use fraise.Containers.TopK.{Entry, Ranking, worse_slot, worst_of, sink_entry}
use fraise.Containers.TopK.Order.{
  IsOrder, Swapped, swap-Swapped, seen, is_worse, worse_than-is_worse, worse-asym, worse_irrefl,
  worse-weak,
}
use mathlib.Core.List.Perm
use fraise.Containers.TopK.Up.{Sifted}

module _ {K P : Type 0} (rank : Ranking K P) (order : IsOrder rank) where
  -- Only the edges below slot `i` may be out of order.
  pub record DownInv (a : List (Entry K P)) (i : ℕ) : Type 0 where
    pub edges : (c : ℕ) → 0 < c → c < length a → parent c ≢ i → is_worse rank a c (parent c) ≡ false
    pub bridged :
        (c : ℕ) → 0 < c → c < length a → parent c ≡ i → 0 < i → is_worse rank a c (parent i) ≡ false

  -- What one comparison with the slot `s` leaves of the slot `w`.
  record Compared (a : List (Entry K P)) (s w : ℕ) : Type 0 where
    slot : ℕ
    returns : worse_slot rank a s w ≡ some slot
    inside : slot < length a
    place :
        ((slot ≡ w) × (s < length a → is_worse rank a s w ≡ false))
        ⊎ ((slot ≡ s) × (is_worse rank a s w ≡ true))

  compare_slot : (a : List (Entry K P)) (s w : ℕ) → w < length a → Compared a s w
  unfolding worse_slot
  compare_slot a s w h = elim (Bool-cases (ltb s (length a))) [
    | inr out ↦ record {
      slot = w;
      returns = rw out refl;
      inside = h;
      place = inl (refl, λ k. absurd (ground (arith, out, k)));
    }
    | inl here ↦
        let k : s < length a = ground arith in
        let compared = worse_than-is_worse rank a s w k h in
        elim (Bool-cases (is_worse rank a s w)) [
          | inl e ↦ record {
            slot = s;
            returns = rw (here, compared, e) refl;
            inside = k;
            place = inr (refl, e);
          }
          | inr e ↦ record {
            slot = w;
            returns = rw (here, compared, e) refl;
            inside = h;
            place = inl (refl, λ _. e);
          }
        ]
  ]

  -- The worst of slot `i` and its children.
  record Worst (a : List (Entry K P)) (i : ℕ) : Type 0 where
    slot : ℕ
    returns : worst_of rank a i ≡ some slot
    inside : slot < length a
    place : (slot ≡ i) ⊎ ((parent slot ≡ i) × (i < slot) × (is_worse rank a slot i ≡ true))
    least : (c : ℕ) → 0 < c → c < length a → parent c ≡ i → is_worse rank a c slot ≡ false

  module _ (a : List (Entry K P)) (i : ℕ) (h : i < length a) where
    -- No child is worse than `m` if neither of the two slots is.
    both_children :
        (m : ℕ)
        → (2 * i + 1 < length a → is_worse rank a (2 * i + 1) m ≡ false)
        → (2 * i + 2 < length a → is_worse rank a (2 * i + 2) m ≡ false)
        → (c : ℕ) → 0 < c
        → c < length a
        → parent c ≡ i
        → is_worse rank a c m ≡ false
    both_children m l r c p q e = elim (eq_or_ne c (2 * i + 1)) [
      | inl s ↦ rw s (l (rw s at q))
      | inr n ↦ let s : c ≡ 2 * i + 2 = omega (arith, p, e, n) in rw s (r (rw s at q))
    ]

    -- A slot worse than one that is worse than slot `i`.
    worse_through :
        (m l : ℕ)
        → l < length a
        → i < length a
        → is_worse rank a m l ≡ true
        → is_worse rank a l i ≡ true
        → is_worse rank a m i ≡ true
    worse_through m l hl hi e f = elim (Bool-cases (is_worse rank a m i)) [
      | inl x ↦ x
      | inr x ↦
          let y = worse-weak rank order a m i l hi x (worse-asym rank order a l i f) in
          absurd (ground (arith, e, y))
    ]

    worst_of_lem : Worst a i
    unfolding worst_of
    worst_of_lem =
        let first = compare_slot a (2 * i + 1) i h in
        let second = compare_slot a (2 * i + 2) first.slot first.inside in
        record {
          slot = second.slot;
          returns = rw (first.returns) second.returns;
          inside = second.inside;
          place = elim (second.place) [
            | inl (same, _) ↦ elim (first.place) [
              | inl (stays, _) ↦ inl (same ∙ stays)
              | inr (left, e) ↦
                  inr (omega (arith, same, left), omega (arith, same, left), rw (same, left) e)
            ]
            | inr (right, e) ↦ elim (first.place) [
              | inl (stays, _) ↦
                  inr (omega (arith, right), omega (arith, right), rw right (rw stays at e))
              | inr (left, f) ↦ inr (
                omega (arith, right),
                omega (arith, right),
                rw right (
                    worse_through (2 * i + 2) (2 * i + 1) (rw left at first.inside) h (rw left at e)
                      f),
              )
            ]
          ];
          least = elim (second.place) [
            | inl (same, not_right) ↦ elim (first.place) [
              | inl (stays, not_left) ↦
                  both_children second.slot (λ k. rw (same, stays) (not_left k))
                    (λ k. rw same (not_right k))
              | inr (left, e) ↦
                  both_children second.slot
                    (λ k. rw (same, left) (worse_irrefl rank order a (2 * i + 1)))
                    (λ k. rw same (not_right k))
            ]
            | inr (right, e) ↦
                let irrefl = worse_irrefl rank order a (2 * i + 2) in
                elim (first.place) [
                  | inl (stays, not_left) ↦
                      both_children second.slot
                        (λ k. rw right (
                          worse-weak rank order a (2 * i + 1) i (2 * i + 2) h (not_left k)
                            (worse-asym rank order a (2 * i + 2) i (rw stays at e))))
                        (λ k. rw right irrefl)
                  | inr (left, f) ↦
                      both_children second.slot
                        (λ k.
                          rw right (worse-asym rank order a (2 * i + 2) (2 * i + 1) (rw left at e)))
                        (λ k. rw right irrefl)
                ]
          ];
        }

  module _ (a : List (Entry K P)) (i m : ℕ) (s : Swapped rank a i m) (v : DownInv a i)
      (inside : m < length a) (child : parent m ≡ i) (below : i < m)
      (sinks : is_worse rank a m i ≡ true)
      (least : (c : ℕ) → 0 < c → c < length a → parent c ≡ i → is_worse rank a c m ≡ false) where
    down_edges :
        (c : ℕ) → 0 < c → c < length a → parent c ≢ m → is_worse rank s.after c (parent c) ≡ false
    down_edges c p q n = elim (eq_or_ne c m) [
      | inl e ↦
          seen rank s c (parent c) {c' = i} {d' = m} (ground (arith, below))
            (ground (arith, child, below)) (worse-asym rank order a m i sinks)
      | inr k ↦ elim (eq_or_ne (parent c) i) [
        | inl e ↦
            seen rank s c (parent c) {c' = c} {d' = m} (ground (arith, below))
              (ground (arith, below)) (least c p q e)
        | inr l ↦ elim (eq_or_ne c i) [
          | inl is ↦
              seen rank s c (parent c) {c' = m} {d' = parent i} (ground (arith, below))
                (ground (arith, below, is, p))
                (v.bridged m (omega (arith, below)) inside child (omega (arith, is, p)))
          | inr o ↦
              seen rank s c (parent c) {c' = c} {d' = parent c} (ground (arith, below))
                (ground (arith, below)) (v.edges c p q l)
        ]
      ]
    ]

    down_bridged :
        (c : ℕ) → 0 < c → c < length a → parent c ≡ m → is_worse rank s.after c (parent m) ≡ false
    down_bridged c p q e =
        seen rank s c (parent m) {c' = c} {d' = m} (ground (arith, below, child, e))
          (ground (arith, below, child)) (rw e at (v.edges c p q (omega (arith, e, below))))

  pub sink_entry-Sifted :
      (fuel i : ℕ) (a : List (Entry K P))
      → length a - i < fuel
      → i < length a
      → DownInv a i
      → Sifted rank order a (sink_entry rank fuel i a)
  unfolding sink_entry
  sink_entry-Sifted zero i a f h v = absurd (omega arith)
  sink_entry-Sifted (suc fuel) i a f h v =
      let w = worst_of_lem a i h in
      let found = w.returns in
      elim (w.place) [
        | inl stays ↦ record {
          after = a;
          returns = rw found (ground (arith, stays));
          same = Perm.refl a;
          size = refl;
          ordered = λ c p q. elim (eq_or_ne (parent c) i) [
            | inl e ↦ rw e (rw stays at (w.least c p q e))
            | inr n ↦ v.edges c p q n
          ];
        }
        | inr (child, below, sinks) ↦
            let s = swap-Swapped rank a i w.slot h w.inside in
            let t =
              sink_entry-Sifted fuel w.slot s.after (omega (arith, s.size, below, f, w.inside))
                (omega (arith, s.size, w.inside))
                (record {
                  edges = λ c p q n.
                      down_edges a i w.slot s v w.inside child below sinks w.least c p
                        (omega (arith, s.size, q)) n;
                  bridged = λ c p q e l.
                      down_bridged a i w.slot s v w.inside child below sinks w.least c p
                        (omega (arith, s.size, q)) e;
                }) in
            let apart : (w.slot == i) ≡ false = ground (arith, below) in
            record {
              after = t.after;
              returns = rw (found, apart, s.returns, t.returns) refl;
              same = Perm.trans t.same s.same;
              size = t.size ∙ s.size;
              ordered = t.ordered;
            }
      ]
