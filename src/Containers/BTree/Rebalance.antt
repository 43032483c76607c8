-- ===== src/Containers/BTree/Rebalance.antt =====
-- internal/containers/trees/btree.go: merging two neighbouring children, and shifting a value from one
-- to the other, leaves the values as they were.
use fraise.Prelude.{
  ℕ, zero, suc, ◌+◌, ◌-◌, ◌≤◌, ◌<◌, ◌≡◌, refl, ap, sym, ◌∙◌, List, [], ◌∷◌, ◌++◌, some, arith,
  length, length-append, take, drop,
}
use mathlib.Core.List.{append_assoc}
use fraise.Containers.BTree.{
  BTreeNode, values, children, make, max_values, min_values, last, merge_children, borrow_from_left,
  borrow_from_right,
}
use fraise.Containers.BTree.Layout.{
  open_last, nonempty, get_at, set_at, take_at, drop_at, shift, length-shift, remove_mid,
}
use fraise.Containers.BTree.Shape.{
  to_list-of_list, All-append, flat, Shaped, Good, Opened, opened_around, pre, post,
}
use fraise.Containers.BTree.Join.{make-values, unjoin, join_lem}
use fraise.Containers.BTree.Pair.{Pair, lead, tail, both}

module _ {T : Type 0} (d h j : ℕ) (n : BTreeNode T) (q : Pair d h j n) where
  abbrev joined : BTreeNode T
  joined = make (values q.a ++ q.s ∷ values q.b) (children q.a ++ children q.b)

  -- The two children in one.
  pub record Merged : Type 0 where
    pub parent : BTreeNode T
    pub done : merge_children n j ≡ some parent
    pub one : Opened d h j parent
    pub contents : flat h one.c ≡ both q
    pub same_lead : pre one ≡ lead q
    pub same_tail : post one ≡ tail q
    pub size : length (values one.c) ≡ length (values q.a) + 1 + length (values q.b)
    pub fewer : length (values parent) + 1 ≡ length (values n)

  pub merge_children-Merged : length (values q.a) + 1 + length (values q.b) ≤ max_values d → Merged
  unfolding merge_children
  merge_children-Merged fits =
      let (shaped_a, sized_a) = q.good_a in
      let (shaped_b, sized_b) = q.good_b in
      let join =
        join_lem d h (values q.a) (children q.a) q.s (values q.b) (children q.b)
          (rw (make-values q.a) shaped_a) (rw (make-values q.b) shaped_b) in
      let size : length (values q.a ++ q.s ∷ values q.b)
          ≡ length (values q.a) + 1 + length (values q.b) =
        omega (arith, length-append (values q.a) (q.s ∷ values q.b)) in
      let next = shift q.cl joined (q.b ∷ q.cr) in
      record {
        parent = make (q.vl ++ q.vr) (q.cl ++ joined ∷ q.cr);
        done =
            rw
              (
                get_at (children n) q.cl q.a (q.b ∷ q.cr) j q.same_children q.at_child,
                get_at (children n) (q.cl ++ q.a ∷ []) q.b q.cr (j + 1)
                    (q.same_children ∙ shift q.cl q.a (q.b ∷ q.cr))
                    (length-shift q.cl q.a j q.at_child),
                get_at (values n) q.vl q.s q.vr j q.same_values q.at_value,
                remove_mid (values n) q.vl q.s q.vr j q.same_values q.at_value,
                set_at (children n) q.cl q.a joined (q.b ∷ q.cr) j q.same_children q.at_child,
                remove_mid (q.cl ++ joined ∷ q.b ∷ q.cr) (q.cl ++ joined ∷ []) q.b q.cr (j + 1) next
                    (length-shift q.cl joined j q.at_child),
                append_assoc q.cl (joined ∷ []) q.cr,
              )
              refl;
        one = opened_around d h j q.vl q.vr q.cl joined q.cr q.at_value q.at_child q.rest (
            All-append (Good d h) q.cl (joined ∷ q.cr) q.good_left (
              (join.shaped, (omega (arith, size, sized_a.0), omega (arith, size, fits))),
              q.good_right,
            ));
        contents = join.whole ∙ rw (make-values q.a, make-values q.b) refl;
        same_lead = refl;
        same_tail = refl;
        size = size;
        fewer = omega (
          arith,
          length-append q.vl q.vr,
          length-append q.vl (q.s ∷ q.vr),
          ap length q.same_values,
        );
      }

  -- The two children with other values about another one, which make up the same list.
  pub record Traded (p : BTreeNode T) : Type 0 where
    pub pair : Pair d h j p
    pub contents : both pair ≡ both q
    pub same_lead : lead pair ≡ lead q
    pub same_tail : tail pair ≡ tail q
    pub same_size : length (values p) ≡ length (values n)

  trade_lem :
      (x : T) (a b : BTreeNode T)
      → Good d h a
      → Good d h b
      → flat h a ++ x ∷ flat h b ≡ both q
      → (t : Traded (make (q.vl ++ x ∷ q.vr) (q.cl ++ a ∷ b ∷ q.cr))) × (t.pair.a ≡ a)
        × (t.pair.b ≡ b)
        × (t.pair.s ≡ x)
  trade_lem x a b ga gb e = (
    record {
      pair = record {
        vl = q.vl;
        s = x;
        vr = q.vr;
        cl = q.cl;
        a = a;
        b = b;
        cr = q.cr;
        same_values = refl;
        same_children = to_list-of_list (q.cl ++ a ∷ b ∷ q.cr);
        at_value = q.at_value;
        at_child = q.at_child;
        rest = q.rest;
        good_left = q.good_left;
        good_a = ga;
        good_b = gb;
        good_right = q.good_right;
      };
      contents = e;
      same_lead = refl;
      same_tail = refl;
      same_size = omega (
        arith,
        length-append q.vl (x ∷ q.vr),
        length-append q.vl (q.s ∷ q.vr),
        ap length q.same_values,
      );
    },
    refl,
    refl,
    refl,
  )

  child_count :
      (h : ℕ) (c : BTreeNode T)
      → Shaped d h c
      → 1 ≤ length (children c)
      → length (children c) ≡ length (values c) + 1
  child_count zero c leaf some_child = absurd (omega (arith, ap length leaf, some_child))
  child_count (suc h) c (count, _) some_child = count

  -- The left child lends its last value.
  pub borrow_from_left-Traded :
      min_values d < length (values q.a)
      → length (values q.b) < max_values d
      → (p : BTreeNode T) × (borrow_from_left n (j + 1) ≡ some p)
        × (t : Traded p) × (length (values t.pair.b) ≡ length (values q.b) + 1)
        × (lent : List T) × (flat h t.pair.b ≡ lent ++ flat h q.b)
        × (flat h q.a ++ q.s ∷ [] ≡ (flat h t.pair.a ++ t.pair.s ∷ []) ++ lent)
  unfolding borrow_from_left
  borrow_from_left-Traded rich room =
      let (shaped_a, sized_a) = q.good_a in
      let (shaped_b, sized_b) = q.good_b in
      let (lv, x, e, m) = open_last (values q.a) (omega (arith, rich)) in
      let size : length lv ≡ length (values q.a) - 1 = omega (arith, m) in
      let parts =
        unjoin d h q.a lv x [] (length (children q.a) - 1) shaped_a e
          (λ some_child. omega (arith, child_count h q.a shaped_a some_child, m)) in
      let stub =
        join_lem d h [] (last (children q.a)) q.s (values q.b) (children q.b) parts.right
          (rw (make-values q.b) shaped_b) in
      let a' = make lv (take (length (children q.a) - 1) (children q.a)) in
      let b' = make (q.s ∷ values q.b) (last (children q.a) ++ children q.b) in
      let stub_node = make [] (last (children q.a)) in
      let left_whole : flat h b' ≡ flat h stub_node ++ q.s ∷ flat h q.b =
        stub.whole ∙ rw (make-values q.b) refl in
      let one_more : suc (length (values q.b)) ≡ length (values q.b) + 1 = omega arith in
      let (t, ea, eb, es) =
        trade_lem x a' b' (parts.left, (omega (arith, size, rich), omega (arith, size, sized_a.1)))
          (stub.shaped, (omega (arith, sized_b.0), omega (arith, room)))
          (ap (λ z. flat h a' ++ x ∷ z) left_whole
            ∙ sym (append_assoc (flat h a') (x ∷ flat h stub_node) (q.s ∷ flat h q.b))
            ∙ ap (λ z. z ++ q.s ∷ flat h q.b) (sym parts.whole)) in
      let back : j + 1 - 1 ≡ j = omega arith in
      (
        make (q.vl ++ x ∷ q.vr) (q.cl ++ a' ∷ b' ∷ q.cr),
        rw
            (
              back,
              get_at (children n) (q.cl ++ q.a ∷ []) q.b q.cr (j + 1)
                  (q.same_children ∙ shift q.cl q.a (q.b ∷ q.cr))
                  (length-shift q.cl q.a j q.at_child),
              get_at (children n) q.cl q.a (q.b ∷ q.cr) j q.same_children q.at_child,
              get_at (values n) q.vl q.s q.vr j q.same_values q.at_value,
              get_at (values q.a) lv x [] (length (values q.a) - 1) e size,
              take_at (values q.a) lv (x ∷ []) (length (values q.a) - 1) e size,
              set_at (values n) q.vl q.s x q.vr j q.same_values q.at_value,
              set_at (children n) q.cl q.a a' (q.b ∷ q.cr) j q.same_children q.at_child,
              set_at (q.cl ++ a' ∷ q.b ∷ q.cr) (q.cl ++ a' ∷ []) q.b b' q.cr (j + 1)
                  (shift q.cl a' (q.b ∷ q.cr)) (length-shift q.cl a' j q.at_child),
              append_assoc q.cl (a' ∷ []) (b' ∷ q.cr),
            )
            refl,
        t,
        ap (λ c. length (values c)) eb ∙ one_more,
        flat h stub_node ++ q.s ∷ [],
        ap (flat h) eb ∙ left_whole ∙ sym (append_assoc (flat h stub_node) (q.s ∷ []) (flat h q.b)),
        ap (λ z. z ++ q.s ∷ []) parts.whole
            ∙ append_assoc (flat h a') (x ∷ flat h stub_node) (q.s ∷ [])
            ∙ sym (append_assoc (flat h a') (x ∷ []) (flat h stub_node ++ q.s ∷ []))
            ∙ rw (ea, es) refl,
      )

  -- The right child lends its first value.
  pub borrow_from_right-Traded :
      min_values d < length (values q.b)
      → length (values q.a) < max_values d
      → (p : BTreeNode T) × (borrow_from_right n j ≡ some p)
        × (t : Traded p) × (length (values t.pair.a) ≡ length (values q.a) + 1)
        × (lent : List T) × (flat h t.pair.a ≡ flat h q.a ++ lent)
        × (q.s ∷ flat h q.b ≡ lent ++ t.pair.s ∷ flat h t.pair.b)
  unfolding borrow_from_right
  borrow_from_right-Traded rich room =
      let (shaped_a, sized_a) = q.good_a in
      let (shaped_b, sized_b) = q.good_b in
      let (x, rv, e) = nonempty (values q.b) (omega (arith, rich)) in
      let size : length rv + 1 ≡ length (values q.b) = omega (arith, ap length e) in
      let parts = unjoin d h q.b [] x rv 1 shaped_b e (λ some_child. omega arith) in
      let stub =
        join_lem d h (values q.a) (children q.a) q.s [] (take 1 (children q.b))
          (rw (make-values q.a) shaped_a) parts.left in
      let a' = make (values q.a ++ q.s ∷ []) (children q.a ++ take 1 (children q.b)) in
      let b' = make rv (drop 1 (children q.b)) in
      let right_whole : flat h a' ≡ flat h q.a ++ q.s ∷ flat h (make [] (take 1 (children q.b))) =
        stub.whole ∙ rw (make-values q.a) refl in
      let grown : length (values q.a ++ q.s ∷ []) ≡ length (values q.a) + 1 =
        omega (arith, length-append (values q.a) (q.s ∷ [])) in
      let (t, ea, eb, es) =
        trade_lem x a' b'
          (stub.shaped, (omega (arith, sized_a.0, grown), omega (arith, room, grown)))
          (parts.right, (omega (arith, size, rich), omega (arith, size, sized_b.1)))
          (ap (λ z. z ++ x ∷ flat h b') right_whole
            ∙ append_assoc (flat h q.a) (q.s ∷ flat h (make [] (take 1 (children q.b))))
                (x ∷ flat h b')
            ∙ ap (λ z. flat h q.a ++ q.s ∷ z) (sym parts.whole)) in
      (
        make (q.vl ++ x ∷ q.vr) (q.cl ++ a' ∷ b' ∷ q.cr),
        rw
            (
              get_at (children n) q.cl q.a (q.b ∷ q.cr) j q.same_children q.at_child,
              get_at (children n) (q.cl ++ q.a ∷ []) q.b q.cr (j + 1)
                  (q.same_children ∙ shift q.cl q.a (q.b ∷ q.cr))
                  (length-shift q.cl q.a j q.at_child),
              get_at (values n) q.vl q.s q.vr j q.same_values q.at_value,
              get_at (values q.b) [] x rv 0 e refl,
              drop_at (values q.b) (x ∷ []) rv 1 e refl,
              set_at (values n) q.vl q.s x q.vr j q.same_values q.at_value,
              set_at (children n) q.cl q.a a' (q.b ∷ q.cr) j q.same_children q.at_child,
              set_at (q.cl ++ a' ∷ q.b ∷ q.cr) (q.cl ++ a' ∷ []) q.b b' q.cr (j + 1)
                  (shift q.cl a' (q.b ∷ q.cr)) (length-shift q.cl a' j q.at_child),
              append_assoc q.cl (a' ∷ []) (b' ∷ q.cr),
            )
            refl,
        t,
        ap (λ c. length (values c)) ea ∙ grown,
        q.s ∷ flat h (make [] (take 1 (children q.b))),
        ap (flat h) ea ∙ right_whole,
        ap (λ z. q.s ∷ z) parts.whole ∙ rw (eb, es) refl,
      )
