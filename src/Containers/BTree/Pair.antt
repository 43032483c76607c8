-- ===== src/Containers/BTree/Pair.antt =====
-- internal/containers/trees/btree.go: two neighbouring children and the value between them, which a
-- merge joins and a borrow shifts.
use fraise.Prelude.{
  ℕ, suc, ◌+◌, ◌≤◌, ◌≡◌, refl, ap, sym, ◌∙◌, subst, List, [], ◌∷◌, ◌++◌, arith, length, map,
}
use mathlib.Core.List.{append_assoc, map-append}
use fraise.Containers.BTree.{BTreeNode, values, children}
use fraise.Containers.BTree.Layout.{
  before, after, before-concat, open_last, nonempty, shift, length-shift,
}
use fraise.Containers.BTree.Shape.{
  All, All-append, All-append_left, All-append_right, flat, Good, Opened, pre, post, flat-Opened,
  length-map,
}

module _ {T : Type 0} where
  -- The node's children `j` and `j + 1`, `a` and `b`, about its own value `s`.
  pub record Pair (d h j : ℕ) (n : BTreeNode T) : Type 0 where
    pub vl : List T
    pub s : T
    pub vr : List T
    pub cl : List (BTreeNode T)
    pub a : BTreeNode T
    pub b : BTreeNode T
    pub cr : List (BTreeNode T)
    pub same_values : values n ≡ vl ++ s ∷ vr
    pub same_children : children n ≡ cl ++ a ∷ b ∷ cr
    pub at_value : length vl ≡ j
    pub at_child : length cl ≡ j
    pub rest : length vr ≡ length cr
    pub good_left : All (Good d h) cl
    pub good_a : Good d h a
    pub good_b : Good d h b
    pub good_right : All (Good d h) cr

  module _ {d h j : ℕ} {n : BTreeNode T} where
    abbrev pub lead : Pair d h j n → List T
    lead q = before q.vl (map (flat h) q.cl)

    abbrev pub tail : Pair d h j n → List T
    tail q = after q.vr (map (flat h) q.cr)

  -- The pair's list, and the node opened at its first and at its second child.
  abbrev pub both : {d h j : ℕ} {n : BTreeNode T} → Pair d h j n → List T
  both {h = h} q = flat h q.a ++ q.s ∷ flat h q.b

  pub record Opens (d h j : ℕ) (n : BTreeNode T) (q : Pair d h j n) : Type 0 where
    pub lower : Opened d h j n
    pub lower_child : lower.c ≡ q.a
    pub lower_pre : pre lower ≡ lead q
    pub lower_post : post lower ≡ q.s ∷ flat h q.b ++ tail q
    pub upper : Opened d h (j + 1) n
    pub upper_child : upper.c ≡ q.b
    pub upper_pre : pre upper ≡ lead q ++ (flat h q.a ++ q.s ∷ [])
    pub upper_post : post upper ≡ tail q
    pub whole : flat (suc h) n ≡ lead q ++ (both q ++ tail q)

  pub Pair-Opens : (d h j : ℕ) (n : BTreeNode T) (q : Pair d h j n) → Opens d h j n q
  Pair-Opens d h j n q =
      let good : All (Good d h) (q.cl ++ q.a ∷ q.b ∷ q.cr) =
        All-append (Good d h) q.cl (q.a ∷ q.b ∷ q.cr) q.good_left
          (q.good_a, (q.good_b, q.good_right)) in
      let lower : Opened d h j n = record {
        vl = q.vl;
        vr = q.s ∷ q.vr;
        cl = q.cl;
        c = q.a;
        cr = q.b ∷ q.cr;
        same_values = q.same_values;
        same_children = q.same_children;
        at_value = q.at_value;
        at_child = q.at_child;
        rest = ap suc q.rest;
        good = good;
      } in
      record {
        lower = lower;
        lower_child = refl;
        lower_pre = refl;
        lower_post = refl;
        upper = record {
          vl = q.vl ++ q.s ∷ [];
          vr = q.vr;
          cl = q.cl ++ q.a ∷ [];
          c = q.b;
          cr = q.cr;
          same_values = q.same_values ∙ shift q.vl q.s q.vr;
          same_children = q.same_children ∙ shift q.cl q.a (q.b ∷ q.cr);
          at_value = length-shift q.vl q.s j q.at_value;
          at_child = length-shift q.cl q.a j q.at_child;
          rest = q.rest;
          good = subst (All (Good d h)) (shift q.cl q.a (q.b ∷ q.cr)) good;
        };
        upper_child = refl;
        upper_pre =
            ap (before (q.vl ++ q.s ∷ [])) (map-append (flat h) q.cl (q.a ∷ []))
            ∙ before-concat q.vl (map (flat h) q.cl) q.s (flat h q.a)
                (q.at_value ∙ sym q.at_child ∙ sym (length-map h q.cl));
        upper_post = refl;
        whole =
            flat-Opened d h j n lower
            ∙ ap (λ t. lead q ++ t) (sym (append_assoc (flat h q.a) (q.s ∷ flat h q.b) (tail q)));
      }

  -- The pair to the right of a child, and the one to its left.
  pub pair_right :
      (d h i : ℕ) (n : BTreeNode T) (k : Opened d h i n)
      → 1 ≤ length k.vr
      → (q : Pair d h i n) × (q.a ≡ k.c)
        × (lead q ≡ pre k)
        × (q.s ∷ flat h q.b ++ tail q ≡ post k)
        × (q.s ∷ q.vr ≡ k.vr)
  pair_right d h i n k some_right =
      let (s, vr, e) = nonempty k.vr some_right in
      let (b, cr, f) = nonempty k.cr (omega (arith, some_right, k.rest)) in
      let good = subst (λ t. All (Good d h) (k.cl ++ k.c ∷ t)) f k.good in
      let right = All-append_right (Good d h) k.cl (k.c ∷ b ∷ cr) good in
      (
        record {
          vl = k.vl;
          s = s;
          vr = vr;
          cl = k.cl;
          a = k.c;
          b = b;
          cr = cr;
          same_values = k.same_values ∙ ap (λ t. k.vl ++ t) e;
          same_children = k.same_children ∙ ap (λ t. k.cl ++ k.c ∷ t) f;
          at_value = k.at_value;
          at_child = k.at_child;
          rest = omega (arith, k.rest, ap length e, ap length f);
          good_left = All-append_left (Good d h) k.cl (k.c ∷ b ∷ cr) good;
          good_a = right.0;
          good_b = right.1.0;
          good_right = right.1.1;
        },
        refl,
        refl,
        rw (e, f) refl,
        sym e,
      )

  pub pair_left :
      (d h i : ℕ) (n : BTreeNode T) (k : Opened d h (i + 1) n)
      → (q : Pair d h i n) × (q.b ≡ k.c)
        × (lead q ++ (flat h q.a ++ q.s ∷ []) ≡ pre k)
        × (tail q ≡ post k)
  pair_left d h i n k =
      let (vl, s, e, m) = open_last k.vl (omega (arith, k.at_value)) in
      let (cl, a, f, l) = open_last k.cl (omega (arith, k.at_child)) in
      let good = subst (λ t. All (Good d h) (t ++ k.c ∷ k.cr)) f k.good in
      let left = All-append_left (Good d h) (cl ++ a ∷ []) (k.c ∷ k.cr) good in
      let right = All-append_right (Good d h) (cl ++ a ∷ []) (k.c ∷ k.cr) good in
      let at_value : length vl ≡ i = omega (arith, m, k.at_value) in
      let at_child : length cl ≡ i = omega (arith, l, k.at_child) in
      (
        record {
          vl = vl;
          s = s;
          vr = k.vr;
          cl = cl;
          a = a;
          b = k.c;
          cr = k.cr;
          same_values = k.same_values ∙ ap (λ t. t ++ k.vr) e ∙ sym (shift vl s k.vr);
          same_children =
              k.same_children ∙ ap (λ t. t ++ k.c ∷ k.cr) f ∙ sym (shift cl a (k.c ∷ k.cr));
          at_value = at_value;
          at_child = at_child;
          rest = k.rest;
          good_left = All-append_left (Good d h) cl (a ∷ []) left;
          good_a = (All-append_right (Good d h) cl (a ∷ []) left).0;
          good_b = right.0;
          good_right = right.1;
        },
        refl,
        sym (
              before-concat vl (map (flat h) cl) s (flat h a)
                (at_value ∙ sym at_child ∙ sym (length-map h cl)))
            ∙ rw (e, f, map-append (flat h) cl (a ∷ [])) refl,
        refl,
      )
