-- ===== src/Containers/BTree/Deletion.antt =====
-- internal/containers/trees/btree.go: `Delete` on a valid tree.
use fraise.Prelude.{
  ℕ, zero, suc, ◌+◌, ◌-◌, ◌≤◌, ◌≡◌, ◌⊎◌, inl, inr, refl, ap, sym, ◌∙◌, Bool, true, false, List, [],
  ◌∷◌, Option, none, some, arith, length, if◌then◌else◌, not, ◌&&◌, get_elem?,
}
use Prim.Native.Nat.{Ordering}
use mathlib.Core.List.{append-nil}
use fraise.Containers.Heap.{◌>>=◌}
use fraise.Containers.BTree.{BTreeNode, Nodes, values, children, is_leaf, is_empty, max_values}
use fraise.Containers.BTree.Write.{BTree, height, delete}
use fraise.Containers.BTree.Order.{IsOrder, Ordering-cases, lookup, remove, remove-Ascending}
use fraise.Containers.BTree.Shape.{flat, Shaped}
use fraise.Containers.BTree.Removal.{Removes}
use fraise.Containers.BTree.Delete.{delete_node-Deleted}
use fraise.Containers.BTree.Descend.{is_leaf-zero}
use fraise.Containers.BTree.Valid.{IsValid, entries, height-Shaped, tree, whole, tree-IsValid}

module _ {T : Type 0} (compare : T → T → Ordering) (o : IsOrder compare) where
  length-remove :
      (v x : T) (xs : List T)
      → lookup compare v xs ≡ some x
      → length xs ≡ length (remove compare v xs) + 1
  length-remove v x [] e = absurd (cc)
  length-remove v x (y ∷ xs) e = elim (Ordering-cases (compare v y)) [
    | inl c ↦ rw (remove, c) (ap suc (length-remove v x xs (ground (arith, c, e))) ∙ omega arith)
    | inr (inl c) ↦ rw (remove, c) (omega arith)
    | inr (inr c) ↦
        rw (remove, c) (ap suc (length-remove v x xs (ground (arith, c, e))) ∙ omega arith)
  ]

  -- What `Delete` returns: it takes out the value that is there, and the tree stays valid; if the value
  -- is not there, it leaves the values and the length.
  pub data Deletes (v : T) (t : BTree T) : Option (BTree T × Bool) → Type 0 where
    removed :
        {t' : BTree T} (x : T)
        → lookup compare v (entries t) ≡ some x
        → IsValid compare t'
        → entries t' ≡ remove compare v (entries t)
        → Deletes v t (some (t', true))
    absent :
        {t' : BTree T}
        → lookup compare v (entries t) ≡ none
        → entries t' ≡ entries t
        → t'.length ≡ t.length
        → Deletes v t (some (t', false))

  -- The root loses its last value only to its one child, which takes its place.
  collapse_lem :
      (t : BTree T) (k : IsValid compare t) (top : BTreeNode T) (h : ℕ)
      → Shaped t.degree h top
      → length (values top) ≤ max_values t.degree
      → (root : BTreeNode T) × (g : ℕ) × ((if is_empty (values top) && not (is_leaf top)
            then get_elem? (children top) 0
            else some top)
          ≡ some root)
        × Shaped t.degree g root
        × ((g ≡ 0) ⊎ (1 ≤ length (values root)))
        × (length (values root) ≤ max_values t.degree)
        × (flat g root ≡ flat h top)
  collapse_lem t k (BTreeNode.node vs cs) zero s room = (
    BTreeNode.node vs cs,
    0,
    rw (is_leaf-zero (BTreeNode.node vs cs) s) (stays (is_empty vs) _ _),
    s,
    inl refl,
    room,
    refl,
  )
    where
      stays : {A : Type 0} (b : Bool) (x y : A) → (if b && not true then x else y) ≡ y
      stays true x y = refl
      stays false x y = refl
  collapse_lem t k (BTreeNode.node (v ∷ vs) cs) (suc h) s room =
      (BTreeNode.node (v ∷ vs) cs, suc h, refl, s, inr (omega arith), room, refl)
  collapse_lem t k (BTreeNode.node [] Nodes.end) (suc h) s room = absurd (omega (arith, s.0))
  collapse_lem t k (BTreeNode.node [] (Nodes.cons c Nodes.end)) (suc h) (_, good) room = (
    c,
    h,
    refl,
    good.0.0,
    inr (omega (arith, good.0.1.0, k.two)),
    good.0.1.1,
    sym (append-nil (flat h c)),
  )
  collapse_lem t k (BTreeNode.node [] (Nodes.cons c (Nodes.cons e cs))) (suc h) s room =
      absurd (omega (arith, s.0))

  delete_end-Deletes :
      (v : T) (t : BTree T) (k : IsValid compare t) (top : BTreeNode T) (b : Bool)
      → Shaped t.degree (height t.root) top
      → length (values top) ≤ max_values t.degree
      → Removes compare o t.degree k.two v (entries t) (flat (height t.root) top) b
      → Deletes v t (
          if b
          then ((if is_empty (values top) && not (is_leaf top)
                then get_elem? (children top) 0
                else some top)
              >>= λ root.
                  some (record { root = root; degree = t.degree; length = t.length - 1 }, true))
          else some (record { root = top; degree = t.degree; length = t.length }, false))
  unfolding tree
  delete_end-Deletes v t k top _ s room (Removes.removed x e f) =
      let (root, g, done, shaped, rooted, small, same) =
        collapse_lem t k top (height t.root) s room in
      rw done (
        Deletes.removed x e
          (tree-IsValid compare o t k root g shaped rooted small (t.length - 1)
            (rw (same, f) (remove-Ascending compare o v (entries t) k.ascending))
            (omega (arith, k.counted, length-remove v x (entries t) e, ap length (same ∙ f))))
          (whole compare o t k root g shaped rooted small ∙ same ∙ f))
  delete_end-Deletes v t k top _ s room (Removes.absent e f) =
      Deletes.absent e (ap (λ n. flat n top) (height-Shaped t.degree (height t.root) top s) ∙ f)
        refl

  -- On a valid tree, whether it holds the value or not, `Delete` returns.
  pub delete-Deletes : (v : T) (t : BTree T) → IsValid compare t → Deletes v t (delete compare v t)
  unfolding delete
  delete-Deletes v t k =
      let (w, done, i) =
        delete_node-Deleted compare o t.degree k.two (height t.root + 1) (height t.root) v t.root
          (omega arith) k.rooted k.shaped k.ascending in
      rw done (
        delete_end-Deletes v t k w.node w.changed i.shaped (omega (arith, i.no_more, k.room))
          i.contents)
