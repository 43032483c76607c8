-- ===== src/Containers/BTree/Delete.antt =====
-- internal/containers/trees/btree.go: `delete` takes a value out of the subtree of a node.
use fraise.Prelude.{
  ℕ, zero, suc, ◌+◌, ◌≤◌, ◌<◌, ◌≡◌, ◌⊎◌, inl, inr, refl, ap, sym, ◌∙◌, subst, Bool, true, false,
  List, [], ◌∷◌, Option, some, arith, length, length-append,
}
use Prim.Native.Nat.{Ordering}
use fraise.Containers.Heap.{◌>>=◌}
use fraise.Containers.BTree.{BTreeNode, values, children, make, remove_at, Written, find}
use fraise.Containers.BTree.Write.{approach, delete_found, delete_node}
use fraise.Containers.BTree.Order.{
  IsOrder, Ascending, lookup, remove, lookup_found, remove_found, lookup-Below, lookup-Above,
}
use fraise.Containers.BTree.Layout.{remove_mid}
use fraise.Containers.BTree.Search.{Found, find-Found}
use fraise.Containers.BTree.Shape.{flat, Shaped, Shaped-Opened}
use fraise.Containers.BTree.Descend.{is_leaf-zero, is_leaf-suc, Ascending-values, locate}
use fraise.Containers.BTree.Pair.{pair_right}
use fraise.Containers.BTree.Removal.{Removes, Deleted, Deletes, descend-Deleted, approach-Refilled}
use fraise.Containers.BTree.Replace.{replace-Deleted}

module _ {T : Type 0} (compare : T → T → Ordering) (o : IsOrder compare) (d : ℕ) (two : 2 ≤ d) where
  leaf_case-Deleted :
      (v : T) (fuel : ℕ) (n : BTreeNode T) (write : T → BTreeNode T → Option (Written T))
      (r : Option (ℕ × Bool))
      → children n ≡ []
      → Ascending compare (values n)
      → Found compare v (values n) r
      → (w : Written T) × ((r >>= delete_found compare write fuel d v n) ≡ some w)
        × Deleted compare o d two v 0 n w
  unfolding delete_found
  leaf_case-Deleted v fuel n write _ leaf a (Found.hit {i} l x r e m c) =
      let cut = remove_mid (values n) l x r i e m in
      let sorted = subst (Ascending compare) e a in
      let size : length (values n) ≡ length (remove_at i (values n)) + 1 =
        omega (arith, ap length cut, length-append l r, ap length e, length-append l (x ∷ r)) in
      (
        record { node = make (remove_at i (values n)) (children n); changed = true },
        rw (is_leaf-zero n leaf) refl,
        record {
          shaped = rw leaf refl;
          fewer = omega (arith, size);
          no_more = omega (arith, size);
          contents =
              Removes.removed x (ap (lookup compare v) e ∙ lookup_found compare o v x l r sorted c)
                (cut ∙ sym (ap (remove compare v) e ∙ remove_found compare o v x l r sorted c));
        },
      )
  leaf_case-Deleted v fuel n write _ leaf a (Found.miss l r e m low high) = (
    record { node = n; changed = false },
    rw (is_leaf-zero n leaf) refl,
    record {
      shaped = leaf;
      fewer = omega arith;
      no_more = omega arith;
      contents =
          Removes.absent
            (ap (lookup compare v) e
              ∙ lookup-Below compare v l r low
              ∙ lookup-Above compare v [] r high)
            refl;
    },
  )

  inner_case-Deleted :
      (v : T) (fuel h : ℕ) (n : BTreeNode T) (write : T → BTreeNode T → Option (Written T))
      (r : Option (ℕ × Bool))
      → h < fuel
      → 1 ≤ length (values n)
      → Shaped d (suc h) n
      → Ascending compare (flat (suc h) n)
      → Deletes compare o d two h write
      → Found compare v (values n) r
      → (w : Written T) × ((r >>= delete_found compare write fuel d v n) ≡ some w)
        × Deleted compare o d two v (suc h) n w
  unfolding delete_found
  inner_case-Deleted v fuel h n write _ f some_value s a rec (Found.hit {i} l x r e m c) =
      let (k, kl, kr) = Shaped-Opened d h i n s l (x ∷ r) e m in
      let (q, _, _, _, own) = pair_right d h i n k (omega (arith, ap length kr)) in
      let is : q.s ≡ x = head_eq (own ∙ kr) in
      rw (is_leaf-suc n (omega (arith, s.0)))
        (replace-Deleted compare o d two h i n v write rec a q (ap (compare v) is ∙ c) fuel f)
    where
      head_eq : {y z : T} {ys zs : List T} → y ∷ ys ≡ z ∷ zs → y ≡ z
      head_eq e = cc
  inner_case-Deleted v fuel h n write _ f some_value s a rec (Found.miss {i} l r e m low high) =
      let (k, kl, kr) = Shaped-Opened d h i n s l r e m in
      let at = locate compare o v d h i n k a (rw kl low) (rw kr high) in
      rw (is_leaf-suc n (omega (arith, s.0))) (
        descend-Deleted compare o d two h n v write (approach compare d v n i) a rec
          (approach-Refilled compare o d two h i n v some_value at))

  -- A leaf, or an inner node with a value, loses the value that it is asked for, for any fuel above its
  -- height.
  pub delete_node-Deleted :
      (fuel h : ℕ) (v : T) (n : BTreeNode T)
      → h < fuel
      → (h ≡ 0) ⊎ (1 ≤ length (values n))
      → Shaped d h n
      → Ascending compare (flat h n)
      → (w : Written T) × (delete_node compare fuel d v n ≡ some w)
        × Deleted compare o d two v h n w
  unfolding delete_node
  delete_node-Deleted zero h v n f some_value s a = absurd (omega arith)
  delete_node-Deleted (suc fuel) zero v n f some_value s a =
      leaf_case-Deleted v fuel n (delete_node compare fuel d) (find compare v (values n)) s a
        (find-Found compare o v (values n) a)
  delete_node-Deleted (suc fuel) (suc h) v n f (inl none_left) s a =
      absurd (omega (arith, none_left))
  delete_node-Deleted (suc fuel) (suc h) v n f (inr some_value) s a =
      inner_case-Deleted v fuel h n (delete_node compare fuel d) (find compare v (values n))
        (omega (arith, f)) some_value s a
        (λ x c good ac rich.
          delete_node-Deleted fuel h x c (omega (arith, f)) (inr (omega (arith, rich))) good.0 ac)
        (find-Found compare o v (values n) (Ascending-values compare o d (suc h) n s a))
