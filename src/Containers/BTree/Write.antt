-- ===== src/Containers/BTree/Write.antt =====
-- internal/containers/trees/btree.go: `Insert` and `Delete`.
use fraise.Prelude.{
  ℕ, zero, suc, ◌+◌, ◌-◌, Bool, true, false, not, ◌&&◌, List, [], ◌∷◌, Option, none, some, ◌==◌,
  ltb, if◌then◌else◌, length, get_elem?, set,
}
use Prim.Native.Nat.{Ordering}
use fraise.Containers.Heap.{◌>>=◌}
use fraise.Containers.BTree.{
  BTreeNode, Nodes, values, children, make, is_leaf, is_empty, insert_at, remove_at, find,
  max_values, min_values, Written, Descent, descend, split_child, merge_children, fill, max_value,
  min_value, find_node, walk_node,
}

unfoldable mutual
  pub height : {T : Type 0} → BTreeNode T → ℕ
  height (BTreeNode.node vs cs) = height_below cs

  pub height_below : {T : Type 0} → Nodes T → ℕ
  height_below Nodes.end = 0
  height_below (Nodes.cons n ns) = suc (height n)

pub record BTree (T : Type 0) : Type 0 where
  pub root : BTreeNode T
  pub degree : ℕ
  pub length : ℕ

unfoldable pub new_btree : {T : Type 0} → ℕ → BTree T
new_btree degree = record {
  root = make [] [];
  degree = if ltb degree 2 then 2 else degree;
  length = 0;
}

-- What `insertNonFull` does before it descends: it ends at a duplicate that a split moved up.
pub data Room (T : Type 0) : Type 0 where
  onward : Descent T → Room T
  duplicate : BTreeNode T → Room T

module _ {T : Type 0} (compare : T → T → Ordering) where
  unfoldable pub make_room : ℕ → T → BTreeNode T → ℕ → Option (Room T)
  make_room degree v n i = do
    c ← get_elem? (children n) i
    if length (values c) == max_values degree
        then (do
          m ← split_child degree n i
          mid ← get_elem? (values m) i
          elim (compare v mid) [
            | Ordering.eq ↦ some (Room.duplicate m)
            | Ordering.gt ↦ some (Room.onward (record { parent = m; index = i + 1; value = v }))
            | Ordering.lt ↦ some (Room.onward (record { parent = m; index = i; value = v }))
          ])
        else some (Room.onward (record { parent = n; index = i; value = v }))

  unfoldable pub enter : (T → BTreeNode T → Option (Written T)) → Room T → Option (Written T)
  enter write (Room.duplicate n) = some (record { node = n; changed = false })
  enter write (Room.onward d) = descend write d

  -- The rest of `insertNonFull`, after the search; `write` is its recursive call.
  unfoldable pub insert_found :
      (T → BTreeNode T → Option (Written T)) → ℕ → T → BTreeNode T → ℕ × Bool → Option (Written T)
  insert_found write degree v n (i, found) =
      if found
      then some (record { node = n; changed = false })
      else if is_leaf n
      then some (record { node = make (insert_at i v (values n)) (children n); changed = true })
      else make_room degree v n i >>= enter write

  unfoldable pub insert_non_full : ℕ → ℕ → T → BTreeNode T → Option (Written T)
  insert_non_full zero degree v n = none
  insert_non_full (suc fuel) degree v n =
      find compare v (values n) >>= insert_found (insert_non_full fuel degree) degree v n

  -- `Insert`; the result says whether the value was not there before.
  unfoldable pub insert : T → BTree T → Option (BTree T × Bool)
  insert v t = do
    root ←
        if length (values t.root) == max_values t.degree
        then split_child t.degree (make [] (t.root ∷ [])) 0
        else some t.root
    w ← insert_non_full (height root + 1) t.degree v root
    some (
      record {
        root = w.node;
        degree = t.degree;
        length = if w.changed then t.length + 1 else t.length;
      },
      w.changed,
    )

  -- What `delete` does before it descends, at an inner node.
  unfoldable pub replace : ℕ → ℕ → T → BTreeNode T → ℕ → Option (Descent T)
  replace fuel degree v n i = do
    left ← get_elem? (children n) i
    right ← get_elem? (children n) (i + 1)
    if ltb (min_values degree) (length (values left))
        then (do
          pred ← max_value fuel left
          some (record {
            parent = make (set (values n) i pred) (children n);
            index = i;
            value = pred;
          }))
        else if ltb (min_values degree) (length (values right))
        then (do
          succ ← min_value fuel right
          some (record {
            parent = make (set (values n) i succ) (children n);
            index = i + 1;
            value = succ;
          }))
        else (do m ← merge_children n i; some (record { parent = m; index = i; value = v }))

  unfoldable pub approach : ℕ → T → BTreeNode T → ℕ → Option (Descent T)
  approach degree v n i = do
    c ← get_elem? (children n) i
    if length (values c) == min_values degree
        then fill degree v n i
        else some (record { parent = n; index = i; value = v })

  -- The rest of `delete`, after the search; `write` is its recursive call.
  unfoldable pub delete_found :
      (T → BTreeNode T → Option (Written T))
      → ℕ
      → ℕ
      → T
      → BTreeNode T
      → ℕ × Bool
      → Option (Written T)
  delete_found write fuel degree v n (i, found) =
      if is_leaf n
      then some (
          if found
          then record { node = make (remove_at i (values n)) (children n); changed = true }
          else record { node = n; changed = false })
      else (if found then replace fuel degree v n i else approach degree v n i) >>= descend write

  unfoldable pub delete_node : ℕ → ℕ → T → BTreeNode T → Option (Written T)
  delete_node zero degree v n = none
  delete_node (suc fuel) degree v n =
      find compare v (values n) >>= delete_found (delete_node fuel degree) fuel degree v n

  -- `Delete`; the result says whether a value was removed.
  unfoldable pub delete : T → BTree T → Option (BTree T × Bool)
  delete v t = do
    w ← delete_node (height t.root + 1) t.degree v t.root
    if w.changed
        then (do
          root ←
              if is_empty (values w.node) && not (is_leaf w.node)
              then get_elem? (children w.node) 0
              else some w.node
          some (record { root = root; degree = t.degree; length = t.length - 1 }, true))
        else some (record { root = w.node; degree = t.degree; length = t.length }, false)

  -- `Find`
  unfoldable pub find_value : T → BTree T → Option (Option T)
  find_value v t = find_node compare (height t.root + 1) v t.root

-- `Values`
unfoldable pub values_of : {T : Type 0} → BTree T → Option (List T)
values_of t = walk_node (height t.root + 1) t.root
