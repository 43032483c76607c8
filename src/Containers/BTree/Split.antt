-- ===== src/Containers/BTree/Split.antt =====
-- internal/containers/trees/btree.go: what splitting a full child leaves.
use fraise.Prelude.{
  ℕ, suc, ◌+◌, ◌-◌, ◌≤◌, ◌≡◌, refl, ap, sym, ◌∙◌, subst, [], ◌∷◌, ◌++◌, some, arith, length,
  length-append, map, get_elem?, take, drop,
}
use mathlib.Core.List.{append_assoc, map-append}
use fraise.Containers.BTree.{BTreeNode, values, children, make, max_values, split_child}
use fraise.Containers.BTree.Layout.{
  before, before-concat, open_mid, get_at, set_at, take_at, drop_at, shift, length-shift,
  insert_mid,
}
use fraise.Containers.BTree.Join.{unjoin}
use fraise.Containers.BTree.Shape.{
  to_list-of_list, All, All-append, All-append_left, All-append_right, flat, Shaped, Good, Opened,
  pre, post, flat-Opened, Opened-Good, opened_around, length-map,
}

module _ {T : Type 0} (d : ℕ) (two : 2 ≤ d) where
  abbrev pub left_half : BTreeNode T → BTreeNode T
  left_half c = make (take (d - 1) (values c)) (take d (children c))

  abbrev pub right_half : BTreeNode T → BTreeNode T
  right_half c = make (drop d (values c)) (drop d (children c))

  -- A full node's halves about its middle value.
  pub record Halved (h : ℕ) (c : BTreeNode T) : Type 0 where
    pub mid : T
    pub read : get_elem? (values c) (d - 1) ≡ some mid
    pub left_size : length (values (left_half c)) ≡ d - 1
    pub right_size : length (values (right_half c)) ≡ d - 1
    pub left : Good d h (left_half c)
    pub right : Good d h (right_half c)
    pub whole : flat h c ≡ flat h (left_half c) ++ mid ∷ flat h (right_half c)

  halve_lem :
      (h : ℕ) (c : BTreeNode T) → Shaped d h c → length (values c) ≡ max_values d → Halved h c
  halve_lem h c shaped full =
      let (a, m, b, e, n) = open_mid (values c) (d - 1) (omega (arith, full, two)) in
      let size : length (values c) ≡ length a + suc (length b) =
        ap length e ∙ length-append a (m ∷ b) in
      let ea : take (d - 1) (values c) ≡ a = take_at (values c) a (m ∷ b) (d - 1) e n in
      let eb : drop d (values c) ≡ b =
        drop_at (values c) (a ++ m ∷ []) b d (e ∙ shift a m b)
          (omega (arith, length-append a (m ∷ []), n, two)) in
      let parts = unjoin d h c a m b d shaped e (λ some_child. omega (arith, n, two)) in
      record {
        mid = m;
        read = get_at (values c) a m b (d - 1) e n;
        left_size = ap length ea ∙ n;
        right_size = ap length eb ∙ omega (arith, size, full, n, two);
        left = (rw ea parts.left, rw ea (omega (arith, n), omega (arith, n, two)));
        right = (
          rw eb parts.right,
          rw eb (omega (arith, size, full, n, two), omega (arith, size, full, n, two)),
        );
        whole = rw (ea, eb) parts.whole;
      }

  -- The parent with the halves in the child's place: opened at the first half, and at the second.
  pub record Splits (h i : ℕ) (p : BTreeNode T) (k : Opened d h i p) : Type 0 where
    pub parent : BTreeNode T
    pub done : split_child d p i ≡ some parent
    pub mid : T
    pub read : get_elem? (values parent) i ≡ some mid
    pub more : length (values parent) ≡ length (values p) + 1
    pub lower : Opened d h i parent
    pub lower_pre : pre lower ≡ pre k
    pub lower_child : lower.c ≡ left_half k.c
    pub lower_size : length (values lower.c) ≡ d - 1
    pub lower_post : post lower ≡ mid ∷ flat h (right_half k.c) ++ post k
    pub upper : Opened d h (i + 1) parent
    pub upper_pre : pre upper ≡ pre k ++ (flat h (left_half k.c) ++ mid ∷ [])
    pub upper_size : length (values upper.c) ≡ d - 1
    pub upper_child : upper.c ≡ right_half k.c
    pub upper_post : post upper ≡ post k
    pub same : flat (suc h) parent ≡ flat (suc h) p

  pub split_child-Splits :
      (h i : ℕ) (p : BTreeNode T) (k : Opened d h i p)
      → length (values k.c) ≡ max_values d
      → Splits h i p k
  unfolding split_child
  split_child-Splits h i p k full =
      let half = halve_lem h k.c ((Opened-Good d h i p k).0) full in
      let m = half.mid in
      let vs = k.vl ++ m ∷ k.vr in
      let cs = k.cl ++ left_half k.c ∷ right_half k.c ∷ k.cr in
      let good : All (Good d h) cs =
        All-append (Good d h) k.cl (left_half k.c ∷ right_half k.c ∷ k.cr)
          (All-append_left (Good d h) k.cl (k.c ∷ k.cr) k.good)
          (half.left, (half.right, (All-append_right (Good d h) k.cl (k.c ∷ k.cr) k.good).1)) in
      let lower =
        opened_around d h i k.vl (m ∷ k.vr) k.cl (left_half k.c) (right_half k.c ∷ k.cr) k.at_value
          k.at_child (ap suc k.rest) good in
      let upper : Opened d h (i + 1) (make vs cs) = record {
        vl = k.vl ++ m ∷ [];
        vr = k.vr;
        cl = k.cl ++ left_half k.c ∷ [];
        c = right_half k.c;
        cr = k.cr;
        same_values = shift k.vl m k.vr;
        same_children = to_list-of_list cs ∙ shift k.cl (left_half k.c) (right_half k.c ∷ k.cr);
        at_value = length-shift k.vl m i k.at_value;
        at_child = length-shift k.cl (left_half k.c) i k.at_child;
        rest = k.rest;
        good = subst (All (Good d h)) (shift k.cl (left_half k.c) (right_half k.c ∷ k.cr)) good;
      } in
      record {
        parent = make vs cs;
        done =
            rw
              (
                get_at (children p) k.cl k.c k.cr i k.same_children k.at_child,
                half.read,
                insert_mid (values p) k.vl k.vr m i k.same_values k.at_value,
                set_at (children p) k.cl k.c (left_half k.c) k.cr i k.same_children k.at_child,
                insert_mid (k.cl ++ left_half k.c ∷ k.cr) (k.cl ++ left_half k.c ∷ []) k.cr
                    (right_half k.c) (i + 1) (shift k.cl (left_half k.c) k.cr)
                    (length-shift k.cl (left_half k.c) i k.at_child),
                append_assoc k.cl (left_half k.c ∷ []) (right_half k.c ∷ k.cr),
              )
              refl;
        mid = m;
        read = get_at vs k.vl m k.vr i refl k.at_value;
        more = omega (
          arith,
          length-append k.vl (m ∷ k.vr),
          ap length k.same_values,
          length-append k.vl k.vr,
        );
        lower = lower;
        lower_pre = refl;
        lower_child = refl;
        lower_size = half.left_size;
        upper_size = half.right_size;
        lower_post = refl;
        upper = upper;
        upper_pre =
            ap (before (k.vl ++ m ∷ [])) (map-append (flat h) k.cl (left_half k.c ∷ []))
            ∙ before-concat k.vl (map (flat h) k.cl) m (flat h (left_half k.c))
                (k.at_value ∙ sym k.at_child ∙ sym (length-map h k.cl));
        upper_child = refl;
        upper_post = refl;
        same =
            flat-Opened d h i (make vs cs) lower
            ∙ ap (λ t. pre k ++ t)
                (sym (append_assoc (flat h (left_half k.c)) (m ∷ flat h (right_half k.c)) (post k))
                  ∙ ap (λ t. t ++ post k) (sym half.whole))
            ∙ sym (flat-Opened d h i p k);
      }
