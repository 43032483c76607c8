-- ===== src/Containers/TopK/Step.antt =====
-- One offer to a `TopK` that holds the best of the pairs seen so far.
use fraise.Prelude.{
  ℕ, zero, suc, ◌+◌, ◌-◌, ◌≤◌, ◌<◌, ◌≡◌, ◌≢◌, refl, ◌∙◌, true, false, List, [], ◌∷◌, ◌++◌, some,
  ◌==◌, ltb, length, get_elem?, arith, inl, inr, Bool-cases, length-append,
}
use fraise.Containers.Array.{get_elem?-concat, concat-perm}
use fraise.Containers.Heap.{parent}
use fraise.Containers.TopK.{Entry, Ranking, TopK, better, offer}
use fraise.Containers.TopK.Kept.{RanksAbove, better-RanksAbove, not_better}
use fraise.Containers.TopK.Order.{IsHeap, is_worse}
use fraise.Containers.TopK.Up.{raise_entry-Sifted}
use fraise.Containers.TopK.Down.{sink_entry-Sifted}
use mathlib.Core.List.{
  Perm, Mem, not-mem-nil, mem-cons_self, eq-or-mem_of_mem-cons, mem-cons_of_mem,
}
use mathlib.Core.List.Perm
use mathlib.Core.List.{perm_middle}
use mathlib.Core.Logic.Or
use mathlib.Core.HLevel.{¬_prop}
use fraise.Containers.TopK.Ranks.{IsRanking, order, root_least}

module _ {K P : Type 0} (rank : Ranking K P) where
  -- The heap that keeps the best `k` of the pairs `offered`, with the others.
  pub record Best (k : ℕ) (offered : List (Entry K P)) (t : TopK K P) : Type 0 where
    pub bound : t.k ≡ k
    pub fits : length t.entries ≤ k
    pub dropped : List (Entry K P)
    pub all : Perm (t.entries ++ dropped) offered
    pub full : length t.entries < k → dropped ≡ []
    pub best : (x y : Entry K P) → Mem x t.entries → Mem y dropped → ¬ RanksAbove rank y x

  -- The same, with the entries in heap order.
  pub record Held (k : ℕ) (offered : List (Entry K P)) (t : TopK K P) : Type 0 where
    pub kept : Best k offered t
    pub heap : IsHeap rank t.entries

  module _ (r : IsRanking rank) (k : ℕ) (positive : 0 < k) (e : Entry K P)
      (seen : List (Entry K P)) where
    bounded : (k == 0) ≡ false
    bounded = ground (arith, positive)

    grown_edges :
        (a : List (Entry K P))
        → IsHeap rank a
        → (c : ℕ) → 0 < c
        → c < length (a ++ e ∷ [])
        → c ≢ length (a ++ e ∷ []) - 1
        → is_worse rank (a ++ e ∷ []) c (parent c) ≡ false
    grown_edges a v c p q n =
        let size = length-append a (e ∷ []) in
        let inside : c < length a = omega (arith, q, n, size) in
        let at_c : get_elem? (a ++ e ∷ []) c ≡ get_elem? a c =
          get_elem?-concat a e c ∙ ground (arith, inside) in
        let at_parent : get_elem? (a ++ e ∷ []) (parent c) ≡ get_elem? a (parent c) =
          get_elem?-concat a e (parent c) ∙ ground (arith, inside, p) in
        rw (at_c, at_parent) (v c p inside)

    room_lem :
        (a : List (Entry K P))
        → Held k seen (record { k = k; entries = a })
        → length a < k
        → (t' : TopK K P) × (offer rank e (record { k = k; entries = a }) ≡ some t')
          × Held k (e ∷ seen) t'
    unfolding offer
    room_lem a h room =
        let size = length-append a (e ∷ []) in
        let s =
          raise_entry-Sifted rank (order rank r) (length (a ++ e ∷ [])) (length (a ++ e ∷ []) - 1)
            (a ++ e ∷ []) (omega (arith, size))
            (record {
              inside = omega (arith, size);
              edges = grown_edges a h.heap;
              bridged = λ c p q m l. absurd (omega (arith, p, q, m, size));
            }) in
        let free : ltb (length a) k ≡ true = ground (arith, room) in
        let nothing = h.kept.full room in
        (
          record { k = k; entries = s.after },
          rw (bounded, free, s.returns) refl,
          record {
            kept = record {
              bound = refl;
              fits = omega (arith, s.size, size, room);
              dropped = [];
              all =
                  Perm.trans (Perm.append_right [] (Perm.trans s.same (concat-perm a e)))
                    (Perm.cons e (rw nothing at h.kept.all));
              full = λ _. refl;
              best = λ x y m n. absurd (not-mem-nil n);
            };
            heap = s.ordered;
          },
        )

    module _ (root : Entry K P) (others : List (Entry K P))
        (h : Held k seen (record { k = k; entries = root ∷ others }))
        (full : length (root ∷ others) ≡ k) where
      no_room : ltb (length (root ∷ others)) k ≡ false
      no_room = ground (arith, full)

      same_tail : (c : ℕ) → 0 < c → get_elem? (e ∷ others) c ≡ get_elem? (root ∷ others) c
      same_tail zero p = absurd (omega arith)
      same_tail (suc c) p = refl

      new_edges :
          (c : ℕ)
          → 0 < c
          → c < length (e ∷ others)
          → parent c ≢ 0
          → is_worse rank (e ∷ others) c (parent c) ≡ false
      new_edges c p q n = rw (same_tail c p, same_tail (parent c) (omega (arith, n))) (h.heap c p q)

      replaced_best :
          RanksAbove rank e root
          → (x y : Entry K P) → Mem x (e ∷ others)
          → Mem y (root ∷ h.kept.dropped)
          → ¬ RanksAbove rank y x
      replaced_best above x y m n =
          Or.elim ¬_prop (eq-or-mem_of_mem-cons m)
            (λ is_new.
              Or.elim ¬_prop (eq-or-mem_of_mem-cons n)
                (λ is_root. rw (is_new, is_root) (r.strict e root above))
                (λ n'.
                  rw is_new (
                    r.weak y root e (h.kept.best root y mem-cons_self n') (r.strict e root above))))
            (λ m'.
              Or.elim ¬_prop (eq-or-mem_of_mem-cons n)
                (λ is_root.
                  rw is_root (root_least rank r root others h.heap x (mem-cons_of_mem root m')))
                (λ n'. h.kept.best x y (mem-cons_of_mem root m') n'))

      dropped_best :
          ¬ RanksAbove rank e root
          → (x y : Entry K P) → Mem x (root ∷ others)
          → Mem y (e ∷ h.kept.dropped)
          → ¬ RanksAbove rank y x
      dropped_best below x y m n =
          Or.elim ¬_prop (eq-or-mem_of_mem-cons n)
            (λ is_new. rw is_new (r.weak e root x below (root_least rank r root others h.heap x m)))
            (λ n'. h.kept.best x y m n')

      full_lem :
          (t' : TopK K P) × (offer rank e (record { k = k; entries = root ∷ others }) ≡ some t')
          × Held k (e ∷ seen) t'
      unfolding offer
      full_lem = elim (Bool-cases (better rank e root)) [
        | inl wins ↦
            let s =
              sink_entry-Sifted rank (order rank r) (length (root ∷ others) + 1) 0 (e ∷ others)
                (omega arith) (omega arith)
                (record { edges = new_edges; bridged = λ c p q m l. absurd (omega (arith, l)) }) in
            (
              record { k = k; entries = s.after },
              rw (bounded, no_room, wins, s.returns) refl,
              record {
                kept = record {
                  bound = refl;
                  fits = omega (arith, s.size, full);
                  dropped = root ∷ h.kept.dropped;
                  all =
                      Perm.trans (Perm.append_right (root ∷ h.kept.dropped) s.same)
                        (Perm.cons e (Perm.trans (perm_middle others h.kept.dropped) h.kept.all));
                  full = λ l. absurd (omega (arith, l, s.size, full));
                  best = λ x y m n.
                      replaced_best (better-RanksAbove rank e root wins) x y
                        ((Perm.mem_iff s.same).0 m) n;
                };
                heap = s.ordered;
              },
            )
        | inr loses ↦ (
          record { k = k; entries = root ∷ others },
          rw (bounded, no_room, loses) refl,
          record {
            kept = record {
              bound = refl;
              fits = h.kept.fits;
              dropped = e ∷ h.kept.dropped;
              all =
                  Perm.trans (perm_middle (root ∷ others) h.kept.dropped) (Perm.cons e h.kept.all);
              full = λ l. absurd (omega (arith, l, full));
              best = dropped_best (not_better rank e root loses);
            };
            heap = h.heap;
          },
        )
      ]

    pub offer-Held :
        (a : List (Entry K P))
        → Held k seen (record { k = k; entries = a })
        → (t' : TopK K P) × (offer rank e (record { k = k; entries = a }) ≡ some t')
          × Held k (e ∷ seen) t'
    offer-Held a h = elim (Bool-cases (ltb (length a) k)) [
      | inl room ↦ room_lem a h (ground (arith, room))
      | inr taken ↦ at_capacity a h (omega (arith, h.kept.fits, le_of_not_ltb (length a) k taken))
    ]
      where
        le_of_not_ltb : (m n : ℕ) → ltb m n ≡ false → n ≤ m
        le_of_not_ltb m n f = ground arith

        at_capacity :
            (a : List (Entry K P))
            → Held k seen (record { k = k; entries = a })
            → length a ≡ k
            → (t' : TopK K P) × (offer rank e (record { k = k; entries = a }) ≡ some t')
              × Held k (e ∷ seen) t'
        at_capacity [] h full = absurd (omega (arith, full, positive))
        at_capacity (root ∷ others) h full = full_lem root others h full
