-- ===== src/Containers/BTree/Fill.antt =====
-- internal/containers/trees/btree.go: before a deletion descends, `fill` leaves the child more than the
-- fewest values.
use fraise.Prelude.{
  ℕ, zero, suc, ◌+◌, ◌-◌, ◌≤◌, ◌<◌, ◌≡◌, inl, inr, refl, ap, sym, ◌∙◌, subst, true, false, ◌&&◌,
  Bool-cases, List, [], ◌∷◌, ◌++◌, Option, some, arith, length, length-append, ltb, ◌==◌,
  if◌then◌else◌,
}
use Prim.Native.Nat.{Ordering}
use mathlib.Core.List.{append_assoc, append-nil}
use fraise.Containers.Heap.{◌>>=◌}
use fraise.Containers.BTree.{
  BTreeNode, values, children, Descent, min_values, is_rich, fill, merge_children,
  borrow_from_right,
}
use fraise.Containers.BTree.Order.{IsOrder, Below, Above, Below-append_left, Above-append_right}
use fraise.Containers.BTree.Layout.{get_at, shift, length-shift}
use fraise.Containers.BTree.Shape.{flat, Opened, pre, post, flat-Opened}
use fraise.Containers.BTree.Descend.{Located}
use fraise.Containers.BTree.Pair.{lead, tail, Pair-Opens, pair_left, pair_right}
use fraise.Containers.BTree.Rebalance.{
  merge_children-Merged, borrow_from_left-Traded, borrow_from_right-Traded,
}

module _ {T : Type 0} (compare : T → T → Ordering) (o : IsOrder compare) (v : T) (d : ℕ)
    (two : 2 ≤ d) where
  -- The descent goes on into a child that can lose a value, over the same values.
  pub data Refilled (h : ℕ) (n : BTreeNode T) : Option (Descent T) → Type 0 where
    onward :
        {p : BTreeNode T} {i : ℕ} (at : Located compare o v d h i p)
        → flat (suc h) p ≡ flat (suc h) n
        → length (values n) ≤ length (values p) + 1
        → length (values p) ≤ length (values n)
        → min_values d < length (values at.opened.c)
        → Refilled h n (some (record { parent = p; index = i; value = v }))

  -- A node over the same values whose child takes in what surrounded the one it stands for.
  widen :
      (h i j : ℕ) (n p : BTreeNode T) (at : Located compare o v d h i n) (k : Opened d h j p)
      (l r : List T)
      → pre at.opened ≡ pre k ++ l
      → post at.opened ≡ r ++ post k
      → flat h k.c ≡ l ++ (flat h at.opened.c ++ r)
      → length (values n) ≤ length (values p) + 1
      → length (values p) ≤ length (values n)
      → min_values d < length (values k.c)
      → Refilled h n (some (record { parent = p; index = j; value = v }))
  widen h i j n p at k l r before after whole a b rich =
      Refilled.onward
        (record {
          opened = k;
          low = Below-append_left compare v (pre k) l (subst (Below compare v) before at.low);
          high = Above-append_right compare v r (post k) (subst (Above compare v) after at.high);
        })
        (flat-Opened d h j p k
          ∙ ap (λ t. pre k ++ (t ++ post k)) whole
          ∙ regroup (pre k) l (flat h at.opened.c) r (post k)
          ∙ ap (λ t. t ++ (flat h at.opened.c ++ (r ++ post k))) (sym before)
          ∙ ap (λ t. pre at.opened ++ (flat h at.opened.c ++ t)) (sym after)
          ∙ sym (flat-Opened d h i n at.opened))
        a b rich
    where
      regroup : (a b c d e : List T) → a ++ ((b ++ (c ++ d)) ++ e) ≡ (a ++ b) ++ (c ++ (d ++ e))
      regroup a b c d e =
          ap (λ t. a ++ t) (append_assoc b (c ++ d) e ∙ ap (λ t. b ++ t) (append_assoc c d e))
          ∙ sym (append_assoc a b (c ++ (d ++ e)))

  rich_at :
      (cs l : List (BTreeNode T)) (c : BTreeNode T) (r : List (BTreeNode T)) (i : ℕ)
      → cs ≡ l ++ c ∷ r
      → length l ≡ i
      → is_rich d cs i ≡ ltb (min_values d) (length (values c))
  unfolding is_rich
  rich_at cs l c r i e m = rw (is_rich, get_at cs l c r i e m) refl

  module _ (h i : ℕ) (n : BTreeNode T) (at : Located compare o v d h i n)
      (poor : length (values at.opened.c) ≡ min_values d) where
    -- The child to the right lends a value, or is merged in.
    right_Refilled :
        (other : Option (Descent T))
        → 1 ≤ length at.opened.vr
        → Refilled h n (
            if ltb (i + 1) (length (children n)) && is_rich d (children n) (i + 1)
            then (borrow_from_right n i >>= λ m. some (record { parent = m; index = i; value = v }))
            else if ltb (i + 1) (length (children n))
            then (merge_children n i >>= λ m. some (record { parent = m; index = i; value = v }))
            else other)
    right_Refilled other some_right =
        let (q, qa, ql, qt, _) = pair_right d h i n at.opened some_right in
        let count : ltb (i + 1) (length (children n)) ≡ true =
          ground
            (arith, ap length q.same_children, length-append q.cl (q.a ∷ q.b ∷ q.cr), q.at_child) in
        let small : length (values q.a) ≡ min_values d = ap (λ c. length (values c)) qa ∙ poor in
        let wealth =
          rich_at (children n) (q.cl ++ q.a ∷ []) q.b q.cr (i + 1)
            (q.same_children ∙ shift q.cl q.a (q.b ∷ q.cr)) (length-shift q.cl q.a i q.at_child) in
        elim (Bool-cases (ltb (min_values d) (length (values q.b)))) [
          | inl rich ↦
              let (p, done, t, size, lent, grown, left) =
                borrow_from_right-Traded d h i n q (ground (arith, rich))
                  (omega (arith, small, two)) in
              let k = Pair-Opens d h i p t.pair in
              rw (count, wealth, rich, done)
                (widen h i i n p at k.lower [] lent
                  (sym ql ∙ sym t.same_lead ∙ sym k.lower_pre ∙ sym (append-nil (pre k.lower)))
                  (sym qt
                    ∙ ap (λ z. z ++ tail q) left
                    ∙ append_assoc lent (t.pair.s ∷ flat h t.pair.b) (tail q)
                    ∙ ap (λ z. lent ++ z)
                        (ap (λ z. t.pair.s ∷ flat h t.pair.b ++ z) (sym t.same_tail)
                          ∙ sym k.lower_post))
                  (ap (flat h) k.lower_child ∙ grown ∙ ap (λ c. flat h c ++ lent) qa)
                  (omega (arith, t.same_size)) (omega (arith, t.same_size))
                  (omega (arith, ap (λ c. length (values c)) k.lower_child, size, small)))
          | inr scarce ↦
              let sized = q.good_b.1 in
              let m =
                merge_children-Merged d h i n q (ground (arith, scarce, small, sized.0, two)) in
              rw (count, wealth, scarce, m.done)
                (widen h i i n m.parent at m.one [] (q.s ∷ flat h q.b)
                  (sym ql ∙ sym m.same_lead ∙ sym (append-nil (pre m.one)))
                  (sym qt ∙ ap (λ z. q.s ∷ flat h q.b ++ z) (sym m.same_tail))
                  (m.contents ∙ ap (λ c. flat h c ++ q.s ∷ flat h q.b) qa) (omega (arith, m.fewer))
                  (omega (arith, m.fewer)) (omega (arith, m.size, small, sized.0, two)))
        ]

  -- The child to the left lends a value, or takes the child in if none is to the right.
  left_Refilled :
      (h j : ℕ) (n : BTreeNode T) (at : Located compare o v d h (j + 1) n)
      → length (values at.opened.c) ≡ min_values d
      → Refilled h n (fill d v n (j + 1))
  unfolding fill
  left_Refilled h j n at poor =
      let (q, qb, ql, qt) = pair_left d h j n at.opened in
      let back : j + 1 - 1 ≡ j = omega arith in
      let first : ltb 0 (j + 1) ≡ true = ground arith in
      let small : length (values q.b) ≡ min_values d = ap (λ c. length (values c)) qb ∙ poor in
      let wealth = rich_at (children n) q.cl q.a (q.b ∷ q.cr) j q.same_children q.at_child in
      elim (Bool-cases (ltb (min_values d) (length (values q.a)))) [
        | inl rich ↦
            let (p, done, t, size, lent, grown, left) =
              borrow_from_left-Traded d h j n q (ground (arith, rich))
                (omega (arith, small, two)) in
            let k = Pair-Opens d h j p t.pair in
            rw (first, back, wealth, rich, done)
              (widen h (j + 1) (j + 1) n p at k.upper lent []
                (sym ql
                  ∙ ap (λ z. lead q ++ z) left
                  ∙ sym (append_assoc (lead q) (flat h t.pair.a ++ t.pair.s ∷ []) lent)
                  ∙ ap (λ z. z ++ (flat h t.pair.a ++ t.pair.s ∷ []) ++ lent) (sym t.same_lead)
                  ∙ ap (λ z. z ++ lent) (sym k.upper_pre))
                (sym qt ∙ sym t.same_tail ∙ sym k.upper_post)
                (ap (flat h) k.upper_child
                  ∙ grown
                  ∙ ap (λ c. lent ++ flat h c) qb
                  ∙ ap (λ z. lent ++ z) (sym (append-nil (flat h at.opened.c))))
                (omega (arith, t.same_size)) (omega (arith, t.same_size))
                (omega (arith, ap (λ c. length (values c)) k.upper_child, size, small)))
        | inr scarce ↦ elim (Bool-cases (ltb (j + 1 + 1) (length (children n)))) [
          | inl more ↦
              let right : 1 ≤ length at.opened.vr = ground (
                arith,
                more,
                ap length at.opened.same_children,
                length-append at.opened.cl (at.opened.c ∷ at.opened.cr),
                at.opened.at_child,
                at.opened.rest,
              ) in
              rw (first, back, wealth, scarce) (right_Refilled h (j + 1) n at poor _ right)
          | inr last ↦
              let sized = q.good_a.1 in
              let m =
                merge_children-Merged d h j n q (ground (arith, scarce, small, sized.0, two)) in
              let later : (j + 1 == 0) ≡ false = ground arith in
              rw (first, back, wealth, scarce, last, later, m.done)
                (widen h (j + 1) j n m.parent at m.one (flat h q.a ++ q.s ∷ []) []
                  (sym ql ∙ ap (λ z. z ++ (flat h q.a ++ q.s ∷ [])) (sym m.same_lead))
                  (sym qt ∙ sym m.same_tail)
                  (m.contents
                    ∙ shift (flat h q.a) q.s (flat h q.b)
                    ∙ ap (λ c. (flat h q.a ++ q.s ∷ []) ++ flat h c) qb
                    ∙ ap (λ z. (flat h q.a ++ q.s ∷ []) ++ z)
                        (sym (append-nil (flat h at.opened.c))))
                  (omega (arith, m.fewer)) (omega (arith, m.fewer))
                  (omega (arith, m.size, small, sized.0, two)))
        ]
      ]

  pub fill-Refilled :
      (h i : ℕ) (n : BTreeNode T) (at : Located compare o v d h i n)
      → length (values at.opened.c) ≡ min_values d
      → 1 ≤ length (values n)
      → Refilled h n (fill d v n i)
  unfolding fill
  fill-Refilled h zero n at poor some_value = right_Refilled h 0 n at poor _ (
      omega (
        arith,
        some_value,
        ap length at.opened.same_values,
        length-append at.opened.vl at.opened.vr,
        at.opened.at_value,
      ))
  fill-Refilled h (suc j) n at poor some_value =
      let next : j + 1 ≡ suc j = omega arith in
      subst
        (λ i.
          (at : Located compare o v d h i n)
          → length (values at.opened.c) ≡ min_values d
          → Refilled h n (fill d v n i))
        next (left_Refilled h j n) at poor
