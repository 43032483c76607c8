-- ===== src/Containers/BTree/Replace.antt =====
-- internal/containers/trees/btree.go: a value of an inner node is deleted by way of the greatest value
-- before it or the smallest after it, or within its two children merged.
use fraise.Prelude.{
  ℕ, suc, ◌+◌, ◌≤◌, ◌<◌, ◌≡◌, inl, inr, ap, sym, ◌∙◌, subst, true, Bool-cases, List, [], ◌∷◌, ◌++◌,
  Option, some, arith, length, length-set, set, ltb,
}
use Prim.Native.Nat.{Ordering}
use mathlib.Core.List.{append_assoc, append-nil}
use fraise.Containers.Heap.{◌>>=◌}
use fraise.Containers.BTree.{
  BTreeNode, values, children, make, Written, put_child, descend, min_values,
}
use fraise.Containers.BTree.Write.{replace}
use fraise.Containers.BTree.Order.{
  IsOrder, Below, Above, Ascending, Below-append_left, Below-IsOrder, Above-IsOrder,
  Above-append_right, Below-Ascending, Above-Ascending, refl_lem, lookup, remove, lookup_found,
  remove_found,
}
use fraise.Containers.BTree.Layout.{get_at, set_at, shift, length-shift}
use fraise.Containers.BTree.Shape.{
  to_list-of_list, flat, Opened, pre, post, flat-Opened, Opened-Good,
}
use fraise.Containers.BTree.Descend.{put_child-Replaced, descend-some, Located, child-Ascending}
use fraise.Containers.BTree.Pair.{Pair, lead, tail, Pair-Opens}
use fraise.Containers.BTree.Rebalance.{Merged, merge_children-Merged}
use fraise.Containers.BTree.Fill.{Refilled}
use fraise.Containers.BTree.Extremes.{max_value-last, min_value-first}
use fraise.Containers.BTree.Removal.{
  Removes, removed_lem, Deleted, Deletes, still_Good, descend-Deleted,
}

module _ {T : Type 0} (compare : T → T → Ordering) (o : IsOrder compare) (d : ℕ) (two : 2 ≤ d) where
  module _ (h i : ℕ) (n : BTreeNode T) (v : T) (write : T → BTreeNode T → Option (Written T))
      (rec : Deletes compare o d two h write) (a : Ascending compare (flat (suc h) n))
      (q : Pair d h i n) (same : compare v q.s ≡ Ordering.eq) where
    own : flat (suc h) n ≡ (lead q ++ flat h q.a) ++ q.s ∷ (flat h q.b ++ tail q)
    own =
        (Pair-Opens d h i n q).whole
        ∙ ap (λ t. lead q ++ t) (append_assoc (flat h q.a) (q.s ∷ flat h q.b) (tail q))
        ∙ sym (append_assoc (lead q) (flat h q.a) (q.s ∷ (flat h q.b ++ tail q)))

    ordered : Ascending compare ((lead q ++ flat h q.a) ++ q.s ∷ (flat h q.b ++ tail q))
    ordered = subst (Ascending compare) own a

    own-Removes :
        (ys : List T)
        → ys ≡ (lead q ++ flat h q.a) ++ (flat h q.b ++ tail q)
        → Removes compare o d two v (flat (suc h) n) ys true
    own-Removes ys e =
        Removes.removed q.s
          (ap (lookup compare v) own
            ∙ lookup_found compare o v q.s (lead q ++ flat h q.a) (flat h q.b ++ tail q) ordered
                same)
          (e
            ∙ sym (
                ap (remove compare v) own
                ∙ remove_found compare o v q.s (lead q ++ flat h q.a) (flat h q.b ++ tail q) ordered
                    same))

    -- The pair about another value.
    replaced : (x : T) → Pair d h i (make (set (values n) i x) (children n))
    replaced x = record {
      vl = q.vl;
      s = x;
      vr = q.vr;
      cl = q.cl;
      a = q.a;
      b = q.b;
      cr = q.cr;
      same_values = set_at (values n) q.vl q.s x q.vr i q.same_values q.at_value;
      same_children = to_list-of_list (children n) ∙ q.same_children;
      at_value = q.at_value;
      at_child = q.at_child;
      rest = q.rest;
      good_left = q.good_left;
      good_a = q.good_a;
      good_b = q.good_b;
      good_right = q.good_right;
    }

    -- Once `x` stands for the node's own value, `x` is deleted below.
    swapped-Deleted :
        (x y : T) (j : ℕ) (k : Opened d h j (make (set (values n) i x) (children n)))
        → lookup compare x (flat h k.c) ≡ some y
        → Ascending compare (flat h k.c)
        → min_values d < length (values k.c)
        → pre k ++ (remove compare x (flat h k.c) ++ post k)
          ≡ (lead q ++ flat h q.a) ++ (flat h q.b ++ tail q)
        → (w : Written T) × (descend write
              (record { parent = make (set (values n) i x) (children n); index = j; value = x })
            ≡ some w)
          × Deleted compare o d two v (suc h) n w
    swapped-Deleted x y j k e asc rich whole =
        let p = make (set (values n) i x) (children n) in
        let good = Opened-Good d h j p k in
        let (w, done, ih) = rec x k.c good asc rich in
        let (changed, gone) =
          removed_lem compare o d two x y (flat h k.c) (flat h w.node) w.changed e ih.contents in
        let r =
          put_child-Replaced d h j p k w.node (still_Good compare o d two x h k.c w good rich ih) in
        let result : Written T = record { node = put_child p j w.node; changed = w.changed } in
        let size : length (set (values n) i x) ≡ length (values n) = length-set (values n) i x in
        (
          result,
          descend-some d h j p k write x w done,
          record {
            shaped = r.shaped;
            fewer = omega (arith, size);
            no_more = omega (arith, size);
            contents = rw changed (
                own-Removes (flat (suc h) (put_child p j w.node))
                  (r.contents ∙ ap (λ t. pre k ++ (t ++ post k)) gone ∙ whole));
          },
        )

    below_a : Ascending compare (flat h q.a)
    below_a =
        let opens = Pair-Opens d h i n q in
        subst (λ c. Ascending compare (flat h c)) opens.lower_child
          (child-Ascending compare o d h i n opens.lower a)

    below_b : Ascending compare (flat h q.b)
    below_b =
        let opens = Pair-Opens d h i n q in
        subst (λ c. Ascending compare (flat h c)) opens.upper_child
          (child-Ascending compare o d h (i + 1) n opens.upper a)

    pred-Deleted :
        (l : List T) (m : T)
        → flat h q.a ≡ l ++ m ∷ []
        → min_values d < length (values q.a)
        → (w : Written T) × (descend write
              (record { parent = make (set (values n) i m) (children n); index = i; value = m })
            ≡ some w)
          × Deleted compare o d two v (suc h) n w
    unfolding replaced
    pred-Deleted l m e rich =
        let p = make (set (values n) i m) (children n) in
        let opens = Pair-Opens d h i p (replaced m) in
        let k = opens.lower in
        let whole : flat h k.c ≡ l ++ m ∷ [] = ap (flat h) opens.lower_child ∙ e in
        let sorted : Ascending compare (l ++ m ∷ []) = subst (Ascending compare) e below_a in
        let self = refl_lem compare o m in
        swapped-Deleted m m i k
          (ap (lookup compare m) whole ∙ lookup_found compare o m m l [] sorted self)
          (rw whole sorted) (omega (arith, ap (λ c. length (values c)) opens.lower_child, rich))
          (ap (λ t. pre k ++ (t ++ post k))
              (ap (remove compare m) whole
                ∙ remove_found compare o m m l [] sorted self
                ∙ append-nil l)
            ∙ ap (λ t. t ++ (l ++ post k)) opens.lower_pre
            ∙ ap (λ t. lead q ++ (l ++ t)) opens.lower_post
            ∙ regroup (lead q) l m (flat h q.b ++ tail q)
            ∙ ap (λ t. (lead q ++ t) ++ (flat h q.b ++ tail q)) (sym e))
      where
        regroup :
            (a l : List T) (m : T) (t : List T) → a ++ (l ++ m ∷ t) ≡ (a ++ (l ++ m ∷ [])) ++ t
        regroup a l m t = ap (λ z. a ++ z) (shift l m t) ∙ sym (append_assoc a (l ++ m ∷ []) t)

    succ-Deleted :
        (m : T) (r : List T)
        → flat h q.b ≡ m ∷ r
        → min_values d < length (values q.b)
        → (w : Written T) × (descend write
              (record { parent = make (set (values n) i m) (children n); index = i + 1; value = m })
            ≡ some w)
          × Deleted compare o d two v (suc h) n w
    unfolding replaced
    succ-Deleted m r e rich =
        let p = make (set (values n) i m) (children n) in
        let opens = Pair-Opens d h i p (replaced m) in
        let k = opens.upper in
        let whole : flat h k.c ≡ m ∷ r = ap (flat h) opens.upper_child ∙ e in
        let sorted : Ascending compare (m ∷ r) = subst (Ascending compare) e below_b in
        let self = refl_lem compare o m in
        swapped-Deleted m m (i + 1) k
          (ap (lookup compare m) whole ∙ lookup_found compare o m m [] r sorted self)
          (rw whole sorted) (omega (arith, ap (λ c. length (values c)) opens.upper_child, rich))
          (ap (λ t. pre k ++ (t ++ post k))
              (ap (remove compare m) whole ∙ remove_found compare o m m [] r sorted self)
            ∙ ap (λ t. t ++ (r ++ post k)) opens.upper_pre
            ∙ ap (λ t. (lead q ++ (flat h q.a ++ m ∷ [])) ++ (r ++ t)) opens.upper_post
            ∙ regroup (lead q) (flat h q.a) m (r ++ tail q)
            ∙ ap (λ t. (lead q ++ flat h q.a) ++ (t ++ tail q)) (sym e))
      where
        regroup :
            (a l : List T) (m : T) (t : List T) → (a ++ (l ++ m ∷ [])) ++ t ≡ (a ++ l) ++ m ∷ t
        regroup a l m t =
            ap (λ z. z ++ t) (sym (append_assoc a l (m ∷ []))) ∙ sym (shift (a ++ l) m t)

    merged-Deleted :
        (m : Merged d h i n q)
        → min_values d < length (values m.one.c)
        → (w : Written T) × (descend write (record { parent = m.parent; index = i; value = v })
            ≡ some w)
          × Deleted compare o d two v (suc h) n w
    merged-Deleted m rich =
        let opens = Pair-Opens d h i n q in
        let same_list : flat (suc h) m.parent ≡ flat (suc h) n =
          flat-Opened d h i m.parent m.one
          ∙ rw (m.same_lead, m.contents, m.same_tail) (sym opens.whole) in
        let low : Below compare v (lead q) = Below-append_left compare v (lead q) (flat h q.a) (
          Below-IsOrder compare o v q.s (lead q ++ flat h q.a) same (
            Below-Ascending compare o (lead q ++ flat h q.a) (flat h q.b ++ tail q) q.s ordered)) in
        let high : Above compare v (tail q) = Above-append_right compare v (flat h q.b) (tail q) (
          Above-IsOrder compare o v q.s (flat h q.b ++ tail q) same (
            Above-Ascending compare o (lead q ++ flat h q.a) (flat h q.b ++ tail q) q.s ordered)) in
        let at : Located compare o v d h i m.parent = record {
          opened = m.one;
          low = rw m.same_lead low;
          high = rw m.same_tail high;
        } in
        descend-Deleted compare o d two h n v write
          (some (record { parent = m.parent; index = i; value = v })) a rec
          (Refilled.onward at same_list (omega (arith, m.fewer)) (omega (arith, m.fewer)) rich)

    -- A node's own value is deleted by way of a neighbour in the list, or within the merged children.
    pub replace-Deleted :
        (fuel : ℕ)
        → h < fuel
        → (w : Written T) × ((replace compare fuel d v n i >>= descend write) ≡ some w)
          × Deleted compare o d two v (suc h) n w
    unfolding replace
    replace-Deleted fuel f =
        let (shaped_a, sized_a) = q.good_a in
        let (shaped_b, sized_b) = q.good_b in
        let left = get_at (children n) q.cl q.a (q.b ∷ q.cr) i q.same_children q.at_child in
        let right =
          get_at (children n) (q.cl ++ q.a ∷ []) q.b q.cr (i + 1)
            (q.same_children ∙ shift q.cl q.a (q.b ∷ q.cr)) (length-shift q.cl q.a i q.at_child) in
        elim (Bool-cases (ltb (min_values d) (length (values q.a)))) [
          | inl rich ↦
              let (l, m, found, e) =
                max_value-last d two fuel h q.a f shaped_a (omega (arith, sized_a.0, two)) in
              rw (left, right, rich, found) (pred-Deleted l m e (ground (arith, rich)))
          | inr poor ↦ elim (Bool-cases (ltb (min_values d) (length (values q.b)))) [
            | inl rich ↦
                let (m, r, found, e) =
                  min_value-first d two fuel h q.b f shaped_b (omega (arith, sized_b.0, two)) in
                rw (left, right, poor, rich, found) (succ-Deleted m r e (ground (arith, rich)))
            | inr scarce ↦
                let m =
                  merge_children-Merged d h i n q
                    (ground (arith, poor, scarce, sized_a.0, sized_b.0, two)) in
                rw (left, right, poor, scarce, m.done)
                  (merged-Deleted m (omega (arith, m.size, sized_a.0, sized_b.0, two)))
          ]
        ]
