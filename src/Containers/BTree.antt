-- ===== src/Containers/BTree.antt =====
-- internal/containers/trees/btree.go: the B-tree of a text index's terms. A node is a value, since no
-- two nodes share a child, and an operation returns the node that the code leaves behind the pointer.
-- The comparator is a parameter, of which only the sign of the result is used. An index out of range is
-- `none`, and so is a descent that would need more levels than its fuel, the height of the tree.
-- A slice past the end of a list is what the list has there; the code takes one only of the children of
-- a leaf, behind a test.
pub mod Order
pub mod Write
pub mod Layout
pub mod Search
pub mod Shape
pub mod Join
pub mod Split
pub mod Descend
pub mod Room
pub mod Insert
pub mod Lookup
pub mod Pair
pub mod Rebalance
pub mod Fill
pub mod Extremes
pub mod Removal
pub mod Replace
pub mod Delete
pub mod Valid
pub mod Deletion
pub mod Built
mod Tests
use fraise.Prelude.{
  ℕ, zero, suc, ◌+◌, ◌-◌, ◌*◌, ◌/◌, Bool, true, false, ◌&&◌, List, [], ◌∷◌, ◌++◌, Option, none,
  some, ◌==◌, ltb, if◌then◌else◌, length, get_elem?, set, take, drop,
}
use Prim.Native.Nat.{Ordering}
use fraise.Containers.Heap.{◌>>=◌}

mutual
  pub data BTreeNode (T : Type 0) : Type 0 where
    node : List T → Nodes T → BTreeNode T

  pub data Nodes (T : Type 0) : Type 0 where
    end : Nodes T
    cons : BTreeNode T → Nodes T → Nodes T

abbrev pub is_empty : {A : Type 0} → List A → Bool
is_empty [] = true
is_empty (x ∷ xs) = false

module _ {T : Type 0} where
  abbrev pub to_list : Nodes T → List (BTreeNode T)
  to_list Nodes.end = []
  to_list (Nodes.cons n ns) = n ∷ to_list ns

  abbrev pub of_list : List (BTreeNode T) → Nodes T
  of_list [] = Nodes.end
  of_list (n ∷ ns) = Nodes.cons n (of_list ns)

  abbrev pub values : BTreeNode T → List T
  values (BTreeNode.node vs cs) = vs

  abbrev pub children : BTreeNode T → List (BTreeNode T)
  children (BTreeNode.node vs cs) = to_list cs

  abbrev pub make : List T → List (BTreeNode T) → BTreeNode T
  make vs cs = BTreeNode.node vs (of_list cs)

  abbrev pub is_leaf : BTreeNode T → Bool
  is_leaf n = is_empty (children n)

-- `append`, then `copy` to make room at `i`, then the write.
abbrev pub insert_at : {A : Type 0} → ℕ → A → List A → List A
insert_at i x xs = take i xs ++ x ∷ drop i xs

abbrev pub remove_at : {A : Type 0} → ℕ → List A → List A
remove_at i xs = take i xs ++ drop (i + 1) xs

module _ {T : Type 0} (compare : T → T → Ordering) where
  -- The binary search of `find`, between `lo` and `hi`.
  unfoldable pub find_from : ℕ → T → List T → ℕ → ℕ → Option (ℕ × Bool)
  find_from zero v vs lo hi = none
  find_from (suc rounds) v vs lo hi =
      if ltb lo hi
      then (do
        x ← get_elem? vs ((lo + hi) / 2)
        elim (compare v x) [
          | Ordering.eq ↦ some ((lo + hi) / 2, true)
          | Ordering.lt ↦ find_from rounds v vs lo ((lo + hi) / 2)
          | Ordering.gt ↦ find_from rounds v vs ((lo + hi) / 2 + 1) hi
        ])
      else some (lo, false)

  unfoldable pub find : T → List T → Option (ℕ × Bool)
  find v vs = find_from (length vs + 1) v vs 0 (length vs)

  -- The rest of `Find`, after the search of a node; `below` is the loop's next round.
  unfoldable pub find_found :
      (BTreeNode T → Option (Option T)) → BTreeNode T → ℕ × Bool → Option (Option T)
  find_found below n (i, found) =
      if found
      then (do x ← get_elem? (values n) i; some (some x))
      else if is_leaf n
      then some none
      else (do c ← get_elem? (children n) i; below c)

  unfoldable pub find_node : ℕ → T → BTreeNode T → Option (Option T)
  find_node zero v n = none
  find_node (suc fuel) v n = find v (values n) >>= find_found (find_node fuel v) n

module _ {T : Type 0} where
  -- The loop of `Values` over a node's values, then its last child.
  unfoldable pub walk_values :
      (BTreeNode T → Option (List T)) → BTreeNode T → List T → ℕ → Option (List T)
  walk_values walk n [] i =
      if is_leaf n
      then some []
      else (do c ← get_elem? (children n) (length (children n) - 1); walk c)
  walk_values walk n (v ∷ vs) i = do
    below ← if is_leaf n then some [] else (get_elem? (children n) i >>= walk)
    more ← walk_values walk n vs (i + 1)
    some (below ++ v ∷ more)

  unfoldable pub walk_node : ℕ → BTreeNode T → Option (List T)
  walk_node zero n = none
  walk_node (suc fuel) n = walk_values (walk_node fuel) n (values n) 0

abbrev pub max_values : ℕ → ℕ
max_values degree = 2 * degree - 1

abbrev pub min_values : ℕ → ℕ
min_values degree = degree - 1

-- The last entry, as a list, if there is one.
abbrev pub last : {A : Type 0} → List A → List A
last xs = drop (length xs - 1) xs

-- What a write returns: the node that it leaves, and whether the tree has gained or lost a value.
pub record Written (T : Type 0) : Type 0 where
  pub node : BTreeNode T
  pub changed : Bool

-- Where a write goes on: the node as it is by then, the child it descends into, and the value.
pub record Descent (T : Type 0) : Type 0 where
  pub parent : BTreeNode T
  pub index : ℕ
  pub value : T

module _ {T : Type 0} where
  abbrev pub put_child : BTreeNode T → ℕ → BTreeNode T → BTreeNode T
  put_child n i c = make (values n) (set (children n) i c)

  -- The child's write, put back into the parent.
  unfoldable pub descend : (T → BTreeNode T → Option (Written T)) → Descent T → Option (Written T)
  descend write d = do
    c ← get_elem? (children d.parent) d.index
    w ← write d.value c
    some (record { node = put_child d.parent d.index w.node; changed = w.changed })

  -- The parent that `splitChild` leaves. A leaf has no children to divide.
  unfoldable pub split_child : ℕ → BTreeNode T → ℕ → Option (BTreeNode T)
  split_child degree parent i = do
    c ← get_elem? (children parent) i
    mid ← get_elem? (values c) (degree - 1)
    some (
        make (insert_at i mid (values parent)) (
          insert_at (i + 1) (make (drop degree (values c)) (drop degree (children c))) (
            set (children parent) i
              (make (take (degree - 1) (values c)) (take degree (children c))))))

  unfoldable pub merge_children : BTreeNode T → ℕ → Option (BTreeNode T)
  merge_children n i = do
    left ← get_elem? (children n) i
    right ← get_elem? (children n) (i + 1)
    sep ← get_elem? (values n) i
    some (
        make (remove_at i (values n)) (
          remove_at (i + 1) (
            set (children n) i
              (make (values left ++ sep ∷ values right) (children left ++ children right)))))

  unfoldable pub borrow_from_left : BTreeNode T → ℕ → Option (BTreeNode T)
  borrow_from_left n i = do
    c ← get_elem? (children n) i
    left ← get_elem? (children n) (i - 1)
    sep ← get_elem? (values n) (i - 1)
    up ← get_elem? (values left) (length (values left) - 1)
    some (
        make (set (values n) (i - 1) up) (
          set
            (set (children n) (i - 1) (
              make (take (length (values left) - 1) (values left))
                (take (length (children left) - 1) (children left))))
            i (make (sep ∷ values c) (last (children left) ++ children c))))

  unfoldable pub borrow_from_right : BTreeNode T → ℕ → Option (BTreeNode T)
  borrow_from_right n i = do
    c ← get_elem? (children n) i
    right ← get_elem? (children n) (i + 1)
    sep ← get_elem? (values n) i
    up ← get_elem? (values right) 0
    some (
        make (set (values n) i up) (
          set
            (set (children n) i
              (make (values c ++ sep ∷ []) (children c ++ take 1 (children right))))
            (i + 1) (make (drop 1 (values right)) (drop 1 (children right)))))

  -- `len(children[i].values) > minValues()`
  unfoldable pub is_rich : ℕ → List (BTreeNode T) → ℕ → Bool
  is_rich degree cs i = elim (get_elem? cs i) [
    | none ↦ false
    | some c ↦ ltb (min_values degree) (length (values c))
  ]

  -- The parent that `fill` leaves, and the child to descend into. A lone child has no sibling: the code
  -- reads the child at index -1.
  unfoldable pub fill : ℕ → T → BTreeNode T → ℕ → Option (Descent T)
  fill degree v n i =
      if ltb 0 i && is_rich degree (children n) (i - 1)
      then (do m ← borrow_from_left n i; some (record { parent = m; index = i; value = v }))
      else if ltb (i + 1) (length (children n)) && is_rich degree (children n) (i + 1)
      then (do m ← borrow_from_right n i; some (record { parent = m; index = i; value = v }))
      else if ltb (i + 1) (length (children n))
      then (do m ← merge_children n i; some (record { parent = m; index = i; value = v }))
      else if i == 0
      then none
      else (do m ← merge_children n (i - 1); some (record { parent = m; index = i - 1; value = v }))

  unfoldable pub max_value : ℕ → BTreeNode T → Option T
  max_value zero n = none
  max_value (suc fuel) n =
      if is_leaf n
      then get_elem? (values n) (length (values n) - 1)
      else (do c ← get_elem? (children n) (length (children n) - 1); max_value fuel c)

  unfoldable pub min_value : ℕ → BTreeNode T → Option T
  min_value zero n = none
  min_value (suc fuel) n =
      if is_leaf n
      then get_elem? (values n) 0
      else (do c ← get_elem? (children n) 0; min_value fuel c)
