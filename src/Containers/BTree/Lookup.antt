-- ===== src/Containers/BTree/Lookup.antt =====
-- internal/containers/trees/btree.go: `Find` and `Values` read the values below a node.
use fraise.Prelude.{
  ℕ, zero, suc, ◌+◌, ◌-◌, ◌<◌, ◌≡◌, refl, ap, sym, ◌∙◌, subst, Bool, List, [], ◌∷◌, ◌++◌, Option,
  none, some, arith, length, length-append, map,
}
use Prim.Native.Nat.{Ordering}
use mathlib.Core.List.{append-nil}
use fraise.Containers.Heap.{◌>>=◌}
use fraise.Containers.BTree.{
  BTreeNode, values, children, find, find_found, find_node, walk_values, walk_node,
}
use fraise.Containers.BTree.Order.{
  IsOrder, Ascending, lookup, lookup_found, lookup-Below, lookup-Above,
}
use fraise.Containers.BTree.Layout.{weave, get_at, shift, length-shift}
use fraise.Containers.BTree.Search.{Found, find-Found}
use fraise.Containers.BTree.Shape.{
  All, flat, Shaped, Good, pre, post, flat-Opened, Opened-Good, Shaped-Opened,
}
use fraise.Containers.BTree.Descend.{
  is_leaf-zero, is_leaf-suc, Ascending-values, locate, child-Ascending, lookup_own,
}

module _ {T : Type 0} (compare : T → T → Ordering) (o : IsOrder compare) (v : T) (d : ℕ) where
  leaf_lem :
      (n : BTreeNode T) (below : BTreeNode T → Option (Option T)) (r : Option (ℕ × Bool))
      → children n ≡ []
      → Ascending compare (values n)
      → Found compare v (values n) r
      → (r >>= find_found compare below n) ≡ some (lookup compare v (values n))
  unfolding find_found
  leaf_lem n below _ leaf a (Found.hit {i} l x r e m c) =
      let here : lookup compare v (values n) ≡ some x =
        ap (lookup compare v) e
        ∙ lookup_found compare o v x l r (subst (Ascending compare) e a) c in
      rw (get_at (values n) l x r i e m, here) refl
  leaf_lem n below _ leaf a (Found.miss l r e m low high) =
      let gone : lookup compare v (values n) ≡ none =
        ap (lookup compare v) e
        ∙ lookup-Below compare v l r low
        ∙ lookup-Above compare v [] r high in
      rw (is_leaf-zero n leaf, gone) refl

  inner_lem :
      (h : ℕ) (n : BTreeNode T) (below : BTreeNode T → Option (Option T)) (r : Option (ℕ × Bool))
      → Shaped d (suc h) n
      → Ascending compare (flat (suc h) n)
      → ((c : BTreeNode T)
          → Good d h c
          → Ascending compare (flat h c)
          → below c ≡ some (lookup compare v (flat h c)))
      → Found compare v (values n) r
      → (r >>= find_found compare below n) ≡ some (lookup compare v (flat (suc h) n))
  unfolding find_found
  inner_lem h n below _ s a rec (Found.hit {i} l x r e m c) =
      let (k, _, kr) = Shaped-Opened d h i n s l (x ∷ r) e m in
      rw (get_at (values n) l x r i e m)
        (ap some (sym (lookup_own compare o d h i n k v x r a kr c)))
  inner_lem h n below _ s a rec (Found.miss {i} l r e m low high) =
      let (k, kl, kr) = Shaped-Opened d h i n s l r e m in
      let at = locate compare o v d h i n k a (rw kl low) (rw kr high) in
      let j = at.opened in
      rw
        (
          is_leaf-suc n (omega (arith, s.0)),
          get_at (children n) j.cl j.c j.cr i j.same_children j.at_child,
        )
        (rec j.c (Opened-Good d h i n j) (child-Ascending compare o d h i n j a)
          ∙ ap some (
              sym (
                ap (lookup compare v) (flat-Opened d h i n j)
                ∙ lookup-Below compare v (pre j) (flat h j.c ++ post j) at.low
                ∙ lookup-Above compare v (flat h j.c) (post j) at.high)))

  -- The descent finds what the list of the values holds, for any fuel above the height.
  pub find_node_lem :
      (fuel h : ℕ) (n : BTreeNode T)
      → h < fuel
      → Shaped d h n
      → Ascending compare (flat h n)
      → find_node compare fuel v n ≡ some (lookup compare v (flat h n))
  unfolding find_node
  find_node_lem zero h n f s a = absurd (omega arith)
  find_node_lem (suc fuel) zero n f s a =
      leaf_lem n (find_node compare fuel v) (find compare v (values n)) s a
        (find-Found compare o v (values n) a)
  find_node_lem (suc fuel) (suc h) n f s a =
      inner_lem h n (find_node compare fuel v) (find compare v (values n)) s a
        (λ c good ac. find_node_lem fuel h c (omega (arith, f)) good.0 ac)
        (find-Found compare o v (values n) (Ascending-values compare o d (suc h) n s a))

module _ {T : Type 0} (d : ℕ) where
  walk_values-zero :
      (n : BTreeNode T) (walk : BTreeNode T → Option (List T)) (vs : List T) (i : ℕ)
      → children n ≡ []
      → walk_values walk n vs i ≡ some vs
  unfolding walk_values
  walk_values-zero n walk [] i leaf = rw (is_leaf-zero n leaf) refl
  walk_values-zero n walk (v ∷ vs) i leaf =
      rw (is_leaf-zero n leaf, walk_values-zero n walk vs (i + 1) leaf) refl

  walk_values-suc :
      (h : ℕ) (n : BTreeNode T) (walk : BTreeNode T → Option (List T)) (vs : List T) (i : ℕ)
      (cl cs : List (BTreeNode T))
      → children n ≡ cl ++ cs
      → length cl ≡ i
      → length cs ≡ length vs + 1
      → All (Good d h) cs
      → ((c : BTreeNode T) → Good d h c → walk c ≡ some (flat h c))
      → walk_values walk n vs i ≡ some (weave vs (map (flat h) cs))
  unfolding walk_values
  walk_values-suc h n walk vs i cl [] e m size good rec = absurd (omega (arith, size))
  walk_values-suc h n walk [] i cl (c ∷ j ∷ cs) e m size good rec = absurd (omega (arith, size))
  walk_values-suc h n walk [] i cl (c ∷ []) e m size good rec =
      let total = ap length e ∙ length-append cl (c ∷ []) in
      rw
        (
          is_leaf-suc n (omega (arith, total)),
          get_at (children n) cl c [] (length (children n) - 1) e (omega (arith, total)),
          rec c good.0,
          append-nil (flat h c),
        )
        refl
  walk_values-suc h n walk (v ∷ vs) i cl (c ∷ []) e m size good rec = absurd (omega (arith, size))
  walk_values-suc h n walk (v ∷ vs) i cl (c ∷ j ∷ cs) e m size good rec =
      rw
        (
          is_leaf-suc n (omega (arith, ap length e ∙ length-append cl (c ∷ j ∷ cs))),
          get_at (children n) cl c (j ∷ cs) i e m,
          rec c good.0,
          walk_values-suc h n walk vs (i + 1) (cl ++ c ∷ []) (j ∷ cs) (e ∙ shift cl c (j ∷ cs))
              (length-shift cl c i m) (omega (arith, size)) good.1 rec,
        )
        refl

  pub walk_node_lem :
      (fuel h : ℕ) (n : BTreeNode T) → h < fuel → Shaped d h n → walk_node fuel n ≡ some (flat h n)
  unfolding walk_node
  walk_node_lem zero h n f s = absurd (omega arith)
  walk_node_lem (suc fuel) zero n f s = walk_values-zero n (walk_node fuel) (values n) 0 s
  walk_node_lem (suc fuel) (suc h) n f s =
      walk_values-suc h n (walk_node fuel) (values n) 0 [] (children n) refl refl s.0 s.1
        (λ c good. walk_node_lem fuel h c (omega (arith, f)) good.0)
