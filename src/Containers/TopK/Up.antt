-- ===== src/Containers/TopK/Up.antt =====
-- `up` restores the heap order of `TopK`.
use fraise.Prelude.{
  ℕ, zero, suc, ◌<◌, ◌≡◌, ◌≢◌, refl, ◌∙◌, true, false, List, Option, some, ltb, length, arith, inl,
  inr, Bool-cases,
}
use fraise.Containers.Slots.{eq_or_ne}
use fraise.Containers.Heap.{parent}
use fraise.Containers.TopK.{Entry, Ranking, raise_entry}
use fraise.Containers.TopK.Order.{
  IsOrder, IsHeap, Swapped, swap-Swapped, seen, is_worse, worse_than-is_worse, worse-asym,
  worse-weak,
}
use mathlib.Core.List.{Perm}
use mathlib.Core.List.Perm

module _ {K P : Type 0} (rank : Ranking K P) (order : IsOrder rank) where
  -- What a sift leaves: the same entries, in heap order.
  pub record Sifted (a : List (Entry K P)) (r : Option (List (Entry K P))) : Type 0 where
    pub after : List (Entry K P)
    pub returns : r ≡ some after
    pub same : Perm after a
    pub size : length after ≡ length a
    pub ordered : IsHeap rank after

  -- Only the edge above slot `i` may be out of order.
  pub record UpInv (a : List (Entry K P)) (i : ℕ) : Type 0 where
    pub inside : i < length a
    pub edges : (c : ℕ) → 0 < c → c < length a → c ≢ i → is_worse rank a c (parent c) ≡ false
    pub bridged :
        (c : ℕ) → 0 < c → c < length a → parent c ≡ i → 0 < i → is_worse rank a c (parent i) ≡ false

  module _ (a : List (Entry K P)) (i : ℕ) (s : Swapped rank a i (parent i)) (v : UpInv a i)
      (pos : 0 < i) (rises : is_worse rank a i (parent i) ≡ true) where
    up_inside : parent i < length a
    up_inside = omega (arith, v.inside, pos)

    up_settled : is_worse rank a (parent i) i ≡ false
    up_settled = worse-asym rank order a i (parent i) rises

    up_edges :
        (c : ℕ) → 0 < c → c < length a → c ≢ parent i → is_worse rank s.after c (parent c) ≡ false
    up_edges c p q n = elim (eq_or_ne c i) [
      | inl e ↦
          seen rank s c (parent c) {c' = parent i} {d' = i} (ground (arith, pos))
            (ground (arith, pos)) up_settled
      | inr m ↦ elim (eq_or_ne (parent c) (parent i)) [
        | inl e ↦
            seen rank s c (parent c) {c' = c} {d' = i} (ground (arith, pos)) (ground (arith, pos)) (
              worse-weak rank order a c (parent i) i up_inside (rw e at (v.edges c p q m))
                up_settled)
        | inr k ↦ elim (eq_or_ne (parent c) i) [
          | inl e ↦
              seen rank s c (parent c) {c' = c} {d' = parent i} (ground (arith, pos))
                (ground (arith, pos)) (v.bridged c p q e pos)
          | inr l ↦
              seen rank s c (parent c) {c' = c} {d' = parent c} (ground (arith, pos))
                (ground (arith, pos)) (v.edges c p q m)
        ]
      ]
    ]

    up_bridged :
        (c : ℕ)
        → 0 < c
        → c < length a
        → parent c ≡ parent i
        → 0 < parent i
        → is_worse rank s.after c (parent (parent i)) ≡ false
    up_bridged c p q e above =
        let up = v.edges (parent i) above up_inside (omega (arith, pos)) in
        elim (eq_or_ne c i) [
          | inl is ↦
              seen rank s c (parent (parent i)) {c' = parent i} {d' = parent (parent i)}
                (ground (arith, pos)) (ground (arith, pos, above)) up
          | inr n ↦
              seen rank s c (parent (parent i)) {c' = c} {d' = parent (parent i)}
                (ground (arith, pos, above)) (ground (arith, pos, above))
                (worse-weak rank order a c (parent i) (parent (parent i)) up_inside
                  (rw e at (v.edges c p q n)) up)
        ]

  pub raise_entry-Sifted :
      (fuel i : ℕ) (a : List (Entry K P))
      → i < fuel
      → UpInv a i
      → Sifted a (raise_entry rank fuel i a)
  unfolding raise_entry
  raise_entry-Sifted zero i a f v = absurd (omega arith)
  raise_entry-Sifted (suc fuel) i a f v = elim (Bool-cases (ltb 0 i)) [
    | inr root ↦ record {
      after = a;
      returns = rw root refl;
      same = Perm.refl a;
      size = refl;
      ordered = λ c p q. v.edges c p q (ground arith);
    }
    | inl inner ↦
        let pos : 0 < i = ground arith in
        let inside : parent i < length a = omega (arith, v.inside, pos) in
        let compared = worse_than-is_worse rank a i (parent i) v.inside inside in
        elim (Bool-cases (is_worse rank a i (parent i))) [
          | inr stays ↦ record {
            after = a;
            returns = rw (inner, compared, stays) refl;
            same = Perm.refl a;
            size = refl;
            ordered = λ c p q. elim (eq_or_ne c i) [ inl e ↦ rw e stays | inr n ↦ v.edges c p q n ];
          }
          | inl rises ↦
              let s = swap-Swapped rank a i (parent i) v.inside inside in
              let t = raise_entry-Sifted fuel (parent i) s.after (omega (arith, pos, f)) (record {
                inside = omega (arith, s.size, inside);
                edges = λ c p q n. up_edges a i s v pos rises c p (omega (arith, s.size, q)) n;
                bridged =
                    λ c p q e l. up_bridged a i s v pos rises c p (omega (arith, s.size, q)) e l;
              }) in
              record {
                after = t.after;
                returns = rw (inner, compared, rises, s.returns, t.returns) refl;
                same = Perm.trans t.same s.same;
                size = t.size ∙ s.size;
                ordered = t.ordered;
              }
        ]
  ]
