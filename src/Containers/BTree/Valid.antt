-- ===== src/Containers/BTree/Valid.antt =====
-- internal/containers/trees/btree.go: the B-tree as the ascending list of its values.
use fraise.Prelude.{
  ℕ, zero, suc, ◌+◌, ◌≤◌, ◌<◌, ◌≡◌, ◌⊎◌, inl, inr, refl, ap, sym, ◌∙◌, subst, Bool, true, false,
  Bool-cases, List, [], ◌∷◌, Option, none, some, arith, length, ◌==◌, ==_iff, if◌then◌else◌,
}
use Prim.Native.Nat.{Ordering}
use mathlib.Core.List.{append-nil}
use fraise.Containers.BTree.{BTreeNode, Nodes, values, make, max_values, split_child}
use fraise.Containers.BTree.Write.{BTree, height, new_btree, insert, find_value, values_of}
use fraise.Containers.BTree.Order.{IsOrder, Ascending, lookup, put, put-Ascending}
use fraise.Containers.BTree.Shape.{flat, Shaped, opened_around, Opened-Shaped}
use fraise.Containers.BTree.Split.{split_child-Splits}
use fraise.Containers.BTree.Insert.{Puts, insert_non_full-Inserted}
use fraise.Containers.BTree.Lookup.{find_node_lem, walk_node_lem}

module _ {T : Type 0} where
  pub height-Shaped : (d h : ℕ) (n : BTreeNode T) → Shaped d h n → height n ≡ h
  unfolding height
  height-Shaped d zero (BTreeNode.node vs Nodes.end) s = refl
  height-Shaped d zero (BTreeNode.node vs (Nodes.cons c cs)) s = absurd (cc)
  height-Shaped d (suc h) (BTreeNode.node vs Nodes.end) (size, _) = absurd (omega (arith, size))
  height-Shaped d (suc h) (BTreeNode.node vs (Nodes.cons c cs)) (_, good) =
      ap suc (height-Shaped d h c (good.0.0))

  -- The values of a tree, ascending where the tree is valid.
  abbrev pub entries : BTree T → List T
  entries t = flat (height t.root) t.root

module _ {T : Type 0} (compare : T → T → Ordering) where
  -- The invariant: all leaves are at one depth, every top but the root holds between `minValues` and
  -- `maxValues` values, an inner root at least one, the values ascend, and the length counts them.
  pub record IsValid (t : BTree T) : Type 0 where
    pub two : 2 ≤ t.degree
    pub shaped : Shaped t.degree (height t.root) t.root
    pub rooted : (height t.root ≡ 0) ⊎ (1 ≤ length (values t.root))
    pub room : length (values t.root) ≤ max_values t.degree
    pub ascending : Ascending compare (entries t)
    pub counted : t.length ≡ length (entries t)

  pub new_btree-IsValid : (degree : ℕ) → IsValid (new_btree degree)
  unfolding new_btree height
  new_btree-IsValid degree = record {
    two = ground arith;
    shaped = refl;
    rooted = inl refl;
    room = ground arith;
    ascending = tt;
    counted = refl;
  }

  length-put : (v : T) (xs : List T) → length (put compare v xs) ≡ length xs + 1
  length-put v [] = refl
  length-put v (x ∷ xs) = ground (arith, length-put v xs)

  module _ (o : IsOrder compare) where
    -- What `Insert` returns: it stores a new value in its place, and refuses one that is there.
    pub data Inserts (v : T) (t : BTree T) : Option (BTree T × Bool) → Type 0 where
      stored :
          {t' : BTree T}
          → lookup compare v (entries t) ≡ none
          → IsValid t'
          → entries t' ≡ put compare v (entries t)
          → Inserts v t (some (t', true))
      present :
          {t' : BTree T} (x : T)
          → lookup compare v (entries t) ≡ some x
          → IsValid t'
          → entries t' ≡ entries t
          → Inserts v t (some (t', false))

    -- The root that is not full, over the same values.
    record Roomy (t : BTree T) (root : BTreeNode T) : Type 0 where
      h : ℕ
      shaped : Shaped t.degree h root
      same : flat h root ≡ entries t
      rooted : (h ≡ 0) ⊎ (1 ≤ length (values root))
      room : length (values root) < max_values t.degree

    root_lem :
        (t : BTree T)
        → IsValid t
        → (root : BTreeNode T) × ((if length (values t.root) == max_values t.degree
              then split_child t.degree (make [] (t.root ∷ [])) 0
              else some t.root)
            ≡ some root)
          × Roomy t root
    root_lem t k = elim (Bool-cases (length (values t.root) == max_values t.degree)) [
      | inr roomy ↦ (
        t.root,
        rw roomy refl,
        record {
          h = height t.root;
          shaped = k.shaped;
          same = refl;
          rooted = k.rooted;
          room = ground (arith, roomy, k.room);
        },
      )
      | inl full ↦
          let e = (==_iff (length (values t.root)) (max_values t.degree)).0 full in
          let h = height t.root in
          let above =
            opened_around t.degree h 0 [] [] [] t.root [] refl refl refl
              ((k.shaped, (omega (arith, e, k.two), omega (arith, e))), tt) in
          let s = split_child-Splits t.degree k.two h 0 (make [] (t.root ∷ [])) above e in
          (
            s.parent,
            rw full s.done,
            record {
              h = suc h;
              shaped = Opened-Shaped t.degree h 0 s.parent s.lower;
              same = s.same ∙ append-nil (flat h t.root);
              rooted = inr (omega (arith, s.more));
              room = omega (arith, s.more, k.two);
            },
          )
    ]

    -- A tree of the values of `t`, or of those with one more.
    module _ (t : BTree T) (k : IsValid t) (top : BTreeNode T) (h : ℕ)
        (shaped : Shaped t.degree h top) (rooted : (h ≡ 0) ⊎ (1 ≤ length (values top)))
        (room : length (values top) ≤ max_values t.degree) where
      unfoldable pub tree : ℕ → BTree T
      tree n = record { root = top; degree = t.degree; length = n }

      tall : height top ≡ h
      tall = height-Shaped t.degree h top shaped

      pub whole : flat (height top) top ≡ flat h top
      whole = ap (λ n. flat n top) tall

      pub tree-IsValid :
          (n : ℕ) → Ascending compare (flat h top) → n ≡ length (flat h top) → IsValid (tree n)
      unfolding tree
      tree-IsValid n a e = record {
        two = k.two;
        shaped = rw tall shaped;
        rooted = rw tall rooted;
        room = room;
        ascending = rw whole a;
        counted = e ∙ ap length (sym whole);
      }

      insert_end-Inserts :
          (v : T) (b : Bool)
          → Puts compare o v (entries t) (flat h top) b
          → Inserts v t (some (tree (if b then t.length + 1 else t.length), b))
      unfolding tree
      insert_end-Inserts v _ (Puts.stored e f) =
          Inserts.stored e
            (tree-IsValid (t.length + 1)
              (rw f (put-Ascending compare o v (entries t) k.ascending e))
              (omega (arith, k.counted, length-put v (entries t), ap length f)))
            (whole ∙ f)
      insert_end-Inserts v _ (Puts.present x e f) =
          Inserts.present x e
            (tree-IsValid t.length (rw f k.ascending) (k.counted ∙ ap length (sym f))) (whole ∙ f)

    pub insert-Inserts : (v : T) (t : BTree T) → IsValid t → Inserts v t (insert compare v t)
    unfolding insert tree
    insert-Inserts v t k =
        let (root, opened, r) = root_lem t k in
        let fuel : r.h < height root + 1 =
          omega (arith, height-Shaped t.degree r.h root r.shaped) in
        let (w, done, i) =
          insert_non_full-Inserted compare o v t.degree k.two (height root + 1) r.h root fuel
            r.shaped (rw r.same k.ascending) r.room in
        rw (opened, done)
          (insert_end-Inserts t k w.node r.h i.shaped (grown r.h root w.node r.rooted i.grows)
            (omega (arith, r.room, i.grows_le)) v w.changed
            (subst (λ xs. Puts compare o v xs (flat r.h w.node) w.changed) r.same i.contents))
      where
        grown :
            (h : ℕ) (m n : BTreeNode T)
            → (h ≡ 0) ⊎ (1 ≤ length (values m))
            → length (values m) ≤ length (values n)
            → (h ≡ 0) ⊎ (1 ≤ length (values n))
        grown h m n (inl e) l = inl e
        grown h m n (inr e) l = inr (omega (arith, e, l))

    -- `Find` finds what the list of the values holds, `Values` returns the list, and it ascends.
    pub find_value-values_of :
        (v : T) (t : BTree T)
        → IsValid t
        → (find_value compare v t ≡ some (lookup compare v (entries t)))
          × (values_of t ≡ some (entries t))
          × Ascending compare (entries t)
    unfolding find_value values_of
    find_value-values_of v t k = (
      find_node_lem compare o v t.degree (height t.root + 1) (height t.root) t.root (omega arith)
          k.shaped k.ascending,
      walk_node_lem t.degree (height t.root + 1) (height t.root) t.root (omega arith) k.shaped,
      k.ascending,
    )
