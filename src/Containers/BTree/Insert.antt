-- ===== src/Containers/BTree/Insert.antt =====
-- internal/containers/trees/btree.go: `Insert` stores a value where the order wants it, once.
use fraise.Prelude.{
  ℕ, zero, suc, ◌+◌, ◌≤◌, ◌<◌, ◌≡◌, refl, ap, sym, ◌∙◌, subst, Bool, true, false, List, [], ◌∷◌,
  ◌++◌, Option, none, some, arith, length, length-append,
}
use Prim.Native.Nat.{Ordering}
use fraise.Containers.Heap.{◌>>=◌}
use fraise.Containers.BTree.{
  BTreeNode, values, children, make, Written, put_child, max_values, insert_at, find,
}
use fraise.Containers.BTree.Write.{Room, make_room, enter, insert_found, insert_non_full}
use fraise.Containers.BTree.Order.{
  IsOrder, Below, Above, Ascending, lookup, put, lookup_found, lookup-Below, lookup-Above,
  put-Below, put-Above,
}
use fraise.Containers.BTree.Layout.{insert_mid}
use fraise.Containers.BTree.Search.{Found, find-Found}
use fraise.Containers.BTree.Shape.{
  flat, Shaped, Good, pre, post, flat-Opened, Opened-Good, Shaped-Opened,
}
use fraise.Containers.BTree.Descend.{
  is_leaf-zero, is_leaf-suc, put_child-Replaced, descend-some, Ascending-values, locate,
  child-Ascending, lookup_own,
}
use fraise.Containers.BTree.Room.{Ready, make_room-Ready}

module _ {T : Type 0} (compare : T → T → Ordering) (o : IsOrder compare) (v : T) where
  -- What an insertion makes of a list: a new value is put in its place, one that is there is left.
  pub data Puts (xs ys : List T) : Bool → Type 0 where
    stored : lookup compare v xs ≡ none → ys ≡ put compare v xs → Puts xs ys true
    present : (x : T) → lookup compare v xs ≡ some x → ys ≡ xs → Puts xs ys false

  pub Puts-append :
      (before xs ys after : List T) (b : Bool)
      → Below compare v before
      → Above compare v after
      → Puts xs ys b
      → Puts (before ++ (xs ++ after)) (before ++ (ys ++ after)) b
  Puts-append before xs ys after b low high (Puts.stored e f) =
      Puts.stored
        (lookup-Below compare v before (xs ++ after) low ∙ lookup-Above compare v xs after high ∙ e)
        (ap (λ t. before ++ (t ++ after)) f
          ∙ sym (
              put-Below compare v before (xs ++ after) low
              ∙ ap (λ t. before ++ t) (put-Above compare v xs after high)))
  Puts-append before xs ys after b low high (Puts.present x e f) =
      Puts.present x
        (lookup-Below compare v before (xs ++ after) low ∙ lookup-Above compare v xs after high ∙ e)
        (ap (λ t. before ++ (t ++ after)) f)

  module _ (d : ℕ) (two : 2 ≤ d) where
    -- What an insertion leaves of a node of height `h` that is not full.
    pub record Inserted (h : ℕ) (n : BTreeNode T) (w : Written T) : Type 0 where
      pub shaped : Shaped d h w.node
      pub grows : length (values n) ≤ length (values w.node)
      pub grows_le : length (values w.node) ≤ length (values n) + 1
      pub contents : Puts (flat h n) (flat h w.node) w.changed

    enter-Inserted :
        (h : ℕ) (n : BTreeNode T) (write : T → BTreeNode T → Option (Written T))
        (room : Option (Room T))
        → Ascending compare (flat (suc h) n)
        → ((c : BTreeNode T)
            → Good d h c
            → Ascending compare (flat h c)
            → length (values c) < max_values d
            → (w : Written T) × (write v c ≡ some w) × Inserted h c w)
        → Ready compare o v d two h n room
        → (w : Written T) × (room >>= enter compare write ≡ some w) × Inserted (suc h) n w
    unfolding enter
    enter-Inserted h n write _ a rec (Ready.duplicate {p} shaped same grows grows_le x e) = (
      record { node = p; changed = false },
      refl,
      record {
        shaped = shaped;
        grows = grows;
        grows_le = grows_le;
        contents = Puts.present x e same;
      },
    )
    enter-Inserted h n write _ a rec (Ready.onward {p} {i} at same grows grows_le room) =
        let k = at.opened in
        let (shaped, sized) = Opened-Good d h i p k in
        let (w, e, ih) =
          rec k.c (shaped, sized)
            (child-Ascending compare o d h i p k (subst (Ascending compare) (sym same) a)) room in
        let good : Good d h w.node =
          (ih.shaped, (omega (arith, sized.0, ih.grows), omega (arith, room, ih.grows_le))) in
        let r = put_child-Replaced d h i p k w.node good in
        let result : Written T = record { node = put_child p i w.node; changed = w.changed } in
        (
          result,
          descend-some d h i p k write v w e,
          record {
            shaped = r.shaped;
            grows = grows;
            grows_le = grows_le;
            contents =
                rw (sym same ∙ flat-Opened d h i p k, r.contents)
                  (Puts-append (pre k) (flat h k.c) (flat h w.node) (post k) w.changed at.low
                    at.high ih.contents);
          },
        )

    leaf-Inserted :
        (n : BTreeNode T) (l r : List T) (i : ℕ)
        → children n ≡ []
        → values n ≡ l ++ r
        → length l ≡ i
        → Below compare v l
        → Above compare v r
        → Inserted 0 n
            (record { node = make (insert_at i v (values n)) (children n); changed = true })
    leaf-Inserted n l r i leaf e m low high =
        let put_it = insert_mid (values n) l r v i e m in
        let size : length (insert_at i v (values n)) ≡ length (values n) + 1 =
          omega
            (arith, ap length put_it, length-append l (v ∷ r), ap length e, length-append l r) in
        record {
          shaped = rw leaf refl;
          grows = omega (arith, size);
          grows_le = omega (arith, size);
          contents =
              rw (put_it, e)
                (Puts.stored (lookup-Below compare v l r low ∙ lookup-Above compare v [] r high) (
                  sym (
                    put-Below compare v l r low
                    ∙ ap (λ t. l ++ t) (put-Above compare v [] r high))));
        }

    leaf_case-Inserted :
        (n : BTreeNode T) (write : T → BTreeNode T → Option (Written T)) (r : Option (ℕ × Bool))
        → children n ≡ []
        → Ascending compare (values n)
        → Found compare v (values n) r
        → (w : Written T) × ((r >>= insert_found compare write d v n) ≡ some w) × Inserted 0 n w
    unfolding insert_found
    leaf_case-Inserted n write _ leaf a (Found.hit l x r e m c) = (
      record { node = n; changed = false },
      refl,
      record {
        shaped = leaf;
        grows = omega arith;
        grows_le = omega arith;
        contents =
            Puts.present x
              (ap (lookup compare v) e
                ∙ lookup_found compare o v x l r (subst (Ascending compare) e a) c)
              refl;
      },
    )
    leaf_case-Inserted n write _ leaf a (Found.miss {i} l r e m low high) = (
      record { node = make (insert_at i v (values n)) (children n); changed = true },
      rw (is_leaf-zero n leaf) refl,
      leaf-Inserted n l r i leaf e m low high,
    )

    inner_case-Inserted :
        (h : ℕ) (n : BTreeNode T) (write : T → BTreeNode T → Option (Written T))
        (r : Option (ℕ × Bool))
        → Shaped d (suc h) n
        → Ascending compare (flat (suc h) n)
        → ((c : BTreeNode T)
            → Good d h c
            → Ascending compare (flat h c)
            → length (values c) < max_values d
            → (w : Written T) × (write v c ≡ some w) × Inserted h c w)
        → Found compare v (values n) r
        → (w : Written T) × ((r >>= insert_found compare write d v n) ≡ some w)
          × Inserted (suc h) n w
    unfolding insert_found
    inner_case-Inserted h n write _ s a rec (Found.hit {i} l x r e m c) =
        let (k, _, kr) = Shaped-Opened d h i n s l (x ∷ r) e m in
        (
          record { node = n; changed = false },
          refl,
          record {
            shaped = s;
            grows = omega arith;
            grows_le = omega arith;
            contents = Puts.present x (lookup_own compare o d h i n k v x r a kr c) refl;
          },
        )
    inner_case-Inserted h n write _ s a rec (Found.miss {i} l r e m low high) =
        let (k, kl, kr) = Shaped-Opened d h i n s l r e m in
        let (w, f, done) = enter-Inserted h n write (make_room compare d v n i) a rec (
          make_room-Ready compare o v d two h i n a
            (locate compare o v d h i n k a (rw kl low) (rw kr high))) in
        (w, rw (is_leaf-suc n (omega (arith, s.0))) f, done)

    -- A node that is not full takes the value, for any fuel above its height.
    pub insert_non_full-Inserted :
        (fuel h : ℕ) (n : BTreeNode T)
        → h < fuel
        → Shaped d h n
        → Ascending compare (flat h n)
        → length (values n) < max_values d
        → (w : Written T) × (insert_non_full compare fuel d v n ≡ some w) × Inserted h n w
    unfolding insert_non_full
    insert_non_full-Inserted zero h n f s a room = absurd (omega arith)
    insert_non_full-Inserted (suc fuel) zero n f s a room =
        leaf_case-Inserted n (insert_non_full compare fuel d) (find compare v (values n)) s a
          (find-Found compare o v (values n) a)
    insert_non_full-Inserted (suc fuel) (suc h) n f s a room =
        inner_case-Inserted h n (insert_non_full compare fuel d) (find compare v (values n)) s a
          (λ c good ac roomy. insert_non_full-Inserted fuel h c (omega (arith, f)) good.0 ac roomy)
          (find-Found compare o v (values n) (Ascending-values compare o d (suc h) n s a))
