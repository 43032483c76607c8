-- ===== src/Containers/BTree/Removal.antt =====
-- internal/containers/trees/btree.go: what a deletion makes of a list and leaves of a node, and its descent.
use fraise.Prelude.{
  ℕ, suc, ◌+◌, ◌≤◌, ◌<◌, ◌≡◌, inl, inr, refl, ap, sym, ◌∙◌, subst, Bool, true, false, Bool-cases,
  List, ◌++◌, Option, none, some, arith, length, ◌==◌, ==_iff,
}
use Prim.Native.Nat.{Ordering}
use fraise.Containers.Heap.{◌>>=◌}
use fraise.Containers.BTree.{
  BTreeNode, values, children, Written, Descent, put_child, descend, min_values,
}
use fraise.Containers.BTree.Write.{approach}
use fraise.Containers.BTree.Order.{
  IsOrder, Below, Above, Ascending, lookup, remove, lookup-Below, lookup-Above, remove-Below,
  remove-Above,
}
use fraise.Containers.BTree.Layout.{after, before, get_at}
use fraise.Containers.BTree.Shape.{flat, Shaped, Good, pre, post, flat-Opened, Opened-Good}
use fraise.Containers.BTree.Descend.{put_child-Replaced, descend-some, Located, child-Ascending}
use fraise.Containers.BTree.Fill.{Refilled, fill-Refilled}

module _ {T : Type 0} (compare : T → T → Ordering) (o : IsOrder compare) (d : ℕ) (two : 2 ≤ d) where
  -- What a deletion makes of a list: it takes out the value that is there.
  pub data Removes (v : T) (xs ys : List T) : Bool → Type 0 where
    removed :
        (x : T) → lookup compare v xs ≡ some x → ys ≡ remove compare v xs → Removes v xs ys true
    absent : lookup compare v xs ≡ none → ys ≡ xs → Removes v xs ys false

  pub Removes-append :
      (v : T) (before xs ys after : List T) (b : Bool)
      → Below compare v before
      → Above compare v after
      → Removes v xs ys b
      → Removes v (before ++ (xs ++ after)) (before ++ (ys ++ after)) b
  Removes-append v before xs ys after b low high (Removes.removed x e f) =
      Removes.removed x
        (lookup-Below compare v before (xs ++ after) low ∙ lookup-Above compare v xs after high ∙ e)
        (ap (λ t. before ++ (t ++ after)) f
          ∙ sym (
              remove-Below compare v before (xs ++ after) low
              ∙ ap (λ t. before ++ t) (remove-Above compare v xs after high)))
  Removes-append v before xs ys after b low high (Removes.absent e f) =
      Removes.absent
        (lookup-Below compare v before (xs ++ after) low ∙ lookup-Above compare v xs after high ∙ e)
        (ap (λ t. before ++ (t ++ after)) f)

  -- What is removed when the list holds it.
  pub removed_lem :
      (v x : T) (xs ys : List T) (b : Bool)
      → lookup compare v xs ≡ some x
      → Removes v xs ys b
      → (b ≡ true) × (ys ≡ remove compare v xs)
  removed_lem v x xs ys _ e (Removes.removed y f g) = (refl, g)
  removed_lem v x xs ys _ e (Removes.absent f g) = absurd (some_none (sym e ∙ f))
    where
      some_none : some x ≡ none → ⊥
      some_none z = cc

  -- What a deletion leaves of a node of height `h`.
  pub record Deleted (v : T) (h : ℕ) (n : BTreeNode T) (w : Written T) : Type 0 where
    pub shaped : Shaped d h w.node
    pub fewer : length (values n) ≤ length (values w.node) + 1
    pub no_more : length (values w.node) ≤ length (values n)
    pub contents : Removes v (flat h n) (flat h w.node) w.changed

  -- The recursive call on a child that can lose a value.
  abbrev pub Deletes : ℕ → (T → BTreeNode T → Option (Written T)) → Type 0
  Deletes h write =
      (v : T) (c : BTreeNode T)
      → Good d h c
      → Ascending compare (flat h c)
      → min_values d < length (values c)
      → (w : Written T) × (write v c ≡ some w) × Deleted v h c w

  pub still_Good :
      (v : T) (h : ℕ) (c : BTreeNode T) (w : Written T)
      → Good d h c
      → min_values d < length (values c)
      → Deleted v h c w
      → Good d h w.node
  still_Good v h c w good rich i =
      (i.shaped, (omega (arith, rich, i.fewer), omega (arith, good.1.1, i.no_more)))

  pub descend-Deleted :
      (h : ℕ) (n : BTreeNode T) (v : T) (write : T → BTreeNode T → Option (Written T))
      (r : Option (Descent T))
      → Ascending compare (flat (suc h) n)
      → Deletes h write
      → Refilled compare o v d two h n r
      → (w : Written T) × ((r >>= descend write) ≡ some w) × Deleted v (suc h) n w
  descend-Deleted h n v write _ a rec (Refilled.onward {p} {i} at same fewer no_more rich) =
      let k = at.opened in
      let good = Opened-Good d h i p k in
      let (w, e, ih) =
        rec v k.c good
          (child-Ascending compare o d h i p k (subst (Ascending compare) (sym same) a)) rich in
      let r = put_child-Replaced d h i p k w.node (still_Good v h k.c w good rich ih) in
      let result : Written T = record { node = put_child p i w.node; changed = w.changed } in
      (
        result,
        descend-some d h i p k write v w e,
        record {
          shaped = r.shaped;
          fewer = fewer;
          no_more = no_more;
          contents =
              rw (sym same ∙ flat-Opened d h i p k, r.contents)
                (Removes-append v (pre k) (flat h k.c) (flat h w.node) (post k) w.changed at.low
                  at.high ih.contents);
        },
      )

  pub approach-Refilled :
      (h i : ℕ) (n : BTreeNode T) (v : T)
      → 1 ≤ length (values n)
      → (at : Located compare o v d h i n)
      → Refilled compare o v d two h n (approach compare d v n i)
  unfolding approach
  approach-Refilled h i n v some_value at =
      let k = at.opened in
      let read = get_at (children n) k.cl k.c k.cr i k.same_children k.at_child in
      elim (Bool-cases (length (values k.c) == min_values d)) [
        | inl poor ↦
            rw (read, poor)
              (fill-Refilled compare o v d two h i n at
                ((==_iff (length (values k.c)) (min_values d)).0 poor) some_value)
        | inr rich ↦
            let sized = (Opened-Good d h i n k).1 in
            rw (read, rich)
              (Refilled.onward at refl (omega arith) (omega arith) (ground (arith, rich, sized.0)))
      ]
