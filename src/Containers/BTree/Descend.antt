-- ===== src/Containers/BTree/Descend.antt =====
-- internal/containers/trees/btree.go: the descent into the child that may hold a value.
use fraise.Prelude.{
  ℕ, zero, suc, ◌+◌, ◌≤◌, ◌≡◌, refl, ap, sym, ◌∙◌, subst, true, false, List, [], ◌∷◌, ◌++◌, Option,
  some, arith, length, map, set,
}
use Prim.Native.Nat.{Ordering}
use mathlib.Core.List.{append_assoc}
use fraise.Containers.BTree.{
  BTreeNode, values, children, is_leaf, is_empty, Written, put_child, descend,
}
use fraise.Containers.BTree.Order.{
  IsOrder, Below, Above, Ascending, Below-append, Above-append_right, Below-compare, Above-compare,
  Below-Ascending, Ascending-append_left, Ascending-append_right, lookup, lookup_found,
}
use fraise.Containers.BTree.Layout.{weave, before, after, get_at, set_at}
use fraise.Containers.BTree.Shape.{
  to_list-of_list, All-append_middle, flat, Shaped, Good, Opened, pre, post, flat-Opened,
  Opened-Shaped, length-map,
}

module _ {T : Type 0} where
  pub is_leaf-zero : (n : BTreeNode T) → children n ≡ [] → is_leaf n ≡ true
  is_leaf-zero n e = ap is_empty e

  pub is_leaf-suc : (n : BTreeNode T) → 1 ≤ length (children n) → is_leaf n ≡ false
  is_leaf-suc n h = inner (children n) h
    where
      inner : {A : Type 0} (xs : List A) → 1 ≤ length xs → is_empty xs ≡ false
      inner [] h = absurd (omega arith)
      inner (x ∷ xs) h = refl

  -- The node with another child at the place where it is opened.
  pub record Replaced (d h i : ℕ) (p : BTreeNode T) (k : Opened d h i p) (c : BTreeNode T)
      : Type 0 where
    pub shaped : Shaped d (suc h) (put_child p i c)
    pub contents : flat (suc h) (put_child p i c) ≡ pre k ++ (flat h c ++ post k)

  pub put_child-Replaced :
      (d h i : ℕ) (p : BTreeNode T) (k : Opened d h i p) (c : BTreeNode T)
      → Good d h c
      → Replaced d h i p k c
  put_child-Replaced d h i p k c good =
      let k' : Opened d h i (put_child p i c) = record {
        vl = k.vl;
        vr = k.vr;
        cl = k.cl;
        c = c;
        cr = k.cr;
        same_values = k.same_values;
        same_children =
            to_list-of_list (set (children p) i c)
            ∙ set_at (children p) k.cl k.c c k.cr i k.same_children k.at_child;
        at_value = k.at_value;
        at_child = k.at_child;
        rest = k.rest;
        good = All-append_middle (Good d h) k.cl k.c c k.cr k.good good;
      } in
      record {
        shaped = Opened-Shaped d h i (put_child p i c) k';
        contents = flat-Opened d h i (put_child p i c) k';
      }

  pub descend-some :
      (d h i : ℕ) (p : BTreeNode T) (k : Opened d h i p)
      (write : T → BTreeNode T → Option (Written T)) (v : T) (w : Written T)
      → write v k.c ≡ some w
      → descend write (record { parent = p; index = i; value = v })
        ≡ some (record { node = put_child p i w.node; changed = w.changed })
  unfolding descend
  descend-some d h i p k write v w e =
      rw (get_at (children p) k.cl k.c k.cr i k.same_children k.at_child, e) refl

module _ {T : Type 0} (compare : T → T → Ordering) (o : IsOrder compare) where
  -- What stands before the values that are below `v` is below it, and so above.
  before-Below :
      (v : T) (vs : List T) (fs : List (List T))
      → Below compare v vs
      → Ascending compare (before vs fs)
      → Below compare v (before vs fs)
  before-Below v [] fs h a = tt
  before-Below v (x ∷ vs) [] h a = tt
  before-Below v (x ∷ vs) (f ∷ fs) (e, h) a =
      Below-append compare v f (x ∷ before vs fs)
        (Below-compare compare o v x f e (Below-Ascending compare o f (before vs fs) x a))
        (e, before-Below v vs fs h ((Ascending-append_right compare f (x ∷ before vs fs) a).1))

  after-Above :
      (v : T) (vs : List T) (fs : List (List T))
      → Above compare v vs
      → Ascending compare (after vs fs)
      → Above compare v (after vs fs)
  after-Above v [] fs h a = tt
  after-Above v (x ∷ vs) [] h a = tt
  after-Above v (x ∷ vs) (f ∷ fs) (e, h) (a, _) =
      (e, Above-compare compare o v x (f ++ after vs fs) e a)

  Above-after :
      (v : T) (vs : List T) (fs : List (List T))
      → length vs ≡ length fs
      → Above compare v (after vs fs)
      → Above compare v vs
  Above-after v [] fs n h = tt
  Above-after v (x ∷ vs) [] n h = absurd (omega (arith, n))
  Above-after v (x ∷ vs) (f ∷ fs) n (e, h) =
      (e, Above-after v vs fs (omega (arith, n)) (Above-append_right compare v f (after vs fs) h))

  Ascending-after :
      (vs : List T) (fs : List (List T))
      → length vs ≡ length fs
      → Ascending compare (after vs fs)
      → Ascending compare vs
  Ascending-after [] fs n a = tt
  Ascending-after (x ∷ vs) [] n a = absurd (omega (arith, n))
  Ascending-after (x ∷ vs) (f ∷ fs) n (e, a) = (
    Above-after x vs fs (omega (arith, n)) (Above-append_right compare x f (after vs fs) e),
    Ascending-after vs fs (omega (arith, n)) (Ascending-append_right compare f (after vs fs) a),
  )

  Ascending-weave :
      (vs : List T) (fs : List (List T))
      → length fs ≡ length vs + 1
      → Ascending compare (weave vs fs)
      → Ascending compare vs
  Ascending-weave vs [] n a = absurd (omega (arith, n))
  Ascending-weave vs (f ∷ fs) n a =
      Ascending-after vs fs (omega (arith, n)) (Ascending-append_right compare f (after vs fs) a)

  pub Ascending-values :
      (d h : ℕ) (n : BTreeNode T)
      → Shaped d h n
      → Ascending compare (flat h n)
      → Ascending compare (values n)
  Ascending-values d zero n s a = a
  Ascending-values d (suc h) n (size, _) a =
      Ascending-weave (values n) (map (flat h) (children n)) (length-map h (children n) ∙ size) a

  -- `v` can only be below the child at which the node is opened.
  pub record Located (v : T) (d h i : ℕ) (p : BTreeNode T) : Type 0 where
    pub opened : Opened d h i p
    pub low : Below compare v (pre opened)
    pub high : Above compare v (post opened)

  pub locate :
      (v : T) (d h i : ℕ) (p : BTreeNode T) (k : Opened d h i p)
      → Ascending compare (flat (suc h) p)
      → Below compare v k.vl
      → Above compare v k.vr
      → Located v d h i p
  locate v d h i p k a low high =
      let whole = subst (Ascending compare) (flat-Opened d h i p k) a in
      let tail = Ascending-append_right compare (pre k) (flat h k.c ++ post k) whole in
      record {
        opened = k;
        low =
            before-Below v k.vl (map (flat h) k.cl) low
              (Ascending-append_left compare (pre k) (flat h k.c ++ post k) whole);
        high =
            after-Above v k.vr (map (flat h) k.cr) high
              (Ascending-append_right compare (flat h k.c) (post k) tail);
      }

  pub child-Ascending :
      (d h i : ℕ) (p : BTreeNode T) (k : Opened d h i p)
      → Ascending compare (flat (suc h) p)
      → Ascending compare (flat h k.c)
  child-Ascending d h i p k a = Ascending-append_left compare (flat h k.c) (post k) (
      Ascending-append_right compare (pre k) (flat h k.c ++ post k)
        (subst (Ascending compare) (flat-Opened d h i p k) a))

  after-weave :
      (x : T) (vs : List T) (fs : List (List T))
      → 1 ≤ length fs
      → after (x ∷ vs) fs ≡ x ∷ weave vs fs
  after-weave x vs [] n = absurd (omega arith)
  after-weave x vs (f ∷ fs) n = refl

  -- A node's own value between what is below its left child and what is below its right one.
  pub flat_own :
      (d h i : ℕ) (p : BTreeNode T) (k : Opened d h i p) (x : T) (r : List T)
      → k.vr ≡ x ∷ r
      → flat (suc h) p ≡ (pre k ++ flat h k.c) ++ x ∷ weave r (map (flat h) k.cr)
  flat_own d h i p k x r e =
      flat-Opened d h i p k
      ∙ ap (λ t. pre k ++ (flat h k.c ++ after t (map (flat h) k.cr))) e
      ∙ ap (λ t. pre k ++ (flat h k.c ++ t))
          (after-weave x r (map (flat h) k.cr)
            (omega (arith, length-map h k.cr, k.rest, ap length e)))
      ∙ sym (append_assoc (pre k) (flat h k.c) (x ∷ weave r (map (flat h) k.cr)))

  pub lookup_own :
      (d h i : ℕ) (p : BTreeNode T) (k : Opened d h i p) (v x : T) (r : List T)
      → Ascending compare (flat (suc h) p)
      → k.vr ≡ x ∷ r
      → compare v x ≡ Ordering.eq
      → lookup compare v (flat (suc h) p) ≡ some x
  lookup_own d h i p k v x r a e c =
      let own = flat_own d h i p k x r e in
      ap (lookup compare v) own
      ∙ lookup_found compare o v x (pre k ++ flat h k.c) (weave r (map (flat h) k.cr))
          (subst (Ascending compare) own a) c
