-- ===== src/Containers/BTree/Tests.antt =====
-- Runs of the B-tree on numbers, with the smallest degree.
use fraise.Prelude.{ℕ, ◌+◌, ◌≡◌, inr, refl, arith, List, [], ◌∷◌, Option, some, none}
use Prim.Native.Nat.{compare}
use fraise.Containers.Heap.{◌>>=◌}
use fraise.Containers.BTree.{
  BTreeNode, make, find_from, find, walk_values, walk_node, descend, split_child, merge_children,
  fill, borrow_from_left, borrow_from_right, is_rich, max_value, min_value,
}
use fraise.Containers.BTree.Write.{
  BTree, new_btree, height, make_room, enter, insert_found, insert_non_full, insert, replace,
  approach, delete_found, delete_node, delete, find_value, values_of,
}
use fraise.Containers.BTree.Order.{IsOrder, Ascending, lookup}
use fraise.Containers.BTree.Shape.{Good}
use fraise.Containers.BTree.Built.{insert_all, insert_all-new_btree}
use fraise.Containers.BTree.Deletion.{Deletes, delete-Deletes}
use fraise.Containers.BTree.Valid.{IsValid, entries, Inserts, insert-Inserts, find_value-values_of}

abbrev inserts : List ℕ → BTree ℕ → Option (BTree ℕ)
inserts [] t = some t
inserts (v ∷ vs) t = insert compare v t >>= λ r. inserts vs r.0

abbrev deletes : List ℕ → BTree ℕ → Option (BTree ℕ)
deletes [] t = some t
deletes (v ∷ vs) t = delete compare v t >>= λ r. deletes vs r.0

abbrev leaf : ℕ → BTreeNode ℕ
leaf n = make (n ∷ []) []

abbrev branch : ℕ → BTreeNode ℕ
branch n = make ((n + 2) ∷ []) (leaf n ∷ leaf (n + 4) ∷ [])

-- Seven values in nodes of one.
abbrev sparse : BTree ℕ
sparse = record { root = make (8 ∷ []) (branch 2 ∷ branch 10 ∷ []); degree = 2; length = 7 }

inserts_values :
    (inserts (5 ∷ 3 ∷ 8 ∷ 1 ∷ 9 ∷ 2 ∷ 7 ∷ 4 ∷ 6 ∷ 3 ∷ []) (new_btree 2) >>= values_of)
    ≡ some (1 ∷ 2 ∷ 3 ∷ 4 ∷ 5 ∷ 6 ∷ 7 ∷ 8 ∷ 9 ∷ [])
unfolding new_btree height insert insert_non_full insert_found make_room enter descend split_child
    find find_from values_of walk_node walk_values
inserts_values = refl

deletes_values : (deletes (8 ∷ 2 ∷ 14 ∷ []) sparse >>= values_of) ≡ some (4 ∷ 6 ∷ 10 ∷ 12 ∷ [])
unfolding height delete delete_node delete_found replace approach fill merge_children
    borrow_from_left borrow_from_right is_rich max_value min_value descend find find_from values_of
    walk_node walk_values
deletes_values = refl

-- Two values that are not there empty the root above its one child, which then is at its fewest: the
-- deletion of a value that is there reads the child at index -1.
deletes_hollow : deletes (1 ∷ 15 ∷ 2 ∷ []) sparse ≡ none
unfolding height delete delete_node delete_found replace approach fill merge_children
    borrow_from_left borrow_from_right is_rich max_value min_value descend find find_from
deletes_hollow = refl

compare-IsOrder : IsOrder compare
compare-IsOrder = record {
  flip_lt = λ a b e. ground (arith, e);
  flip_gt = λ a b e. ground (arith, e);
  trans = λ a b c d e. ground (arith, d, e);
  same = λ a b c e. ground (arith, e);
}

leaf-Good : (n : ℕ) → Good 2 0 (leaf n)
leaf-Good n = (refl, (omega arith, omega arith))

branch-Good : (n : ℕ) → Good 2 1 (branch n)
branch-Good n = ((refl, (leaf-Good n, (leaf-Good (n + 4), tt))), (omega arith, omega arith))

sparse-IsValid : IsValid compare sparse
unfolding height
sparse-IsValid = record {
  two = omega arith;
  shaped = (refl, (branch-Good 2, (branch-Good 10, tt)));
  rooted = inr (omega arith);
  room = omega arith;
  ascending = ground arith;
  counted = refl;
}

insert-Inserts_example : Inserts compare compare-IsOrder 7 sparse (insert compare 7 sparse)
insert-Inserts_example = insert-Inserts compare compare-IsOrder 7 sparse sparse-IsValid

delete-Deletes_example : Deletes compare compare-IsOrder 8 sparse (delete compare 8 sparse)
delete-Deletes_example = delete-Deletes compare compare-IsOrder 8 sparse sparse-IsValid

find_value-values_of_example :
    (find_value compare 6 sparse ≡ some (lookup compare 6 (entries sparse)))
    × (values_of sparse ≡ some (entries sparse))
    × Ascending compare (entries sparse)
find_value-values_of_example = find_value-values_of compare compare-IsOrder 6 sparse sparse-IsValid

insert_all-new_btree_example :
    (t : BTree ℕ) × (insert_all compare (3 ∷ 1 ∷ 2 ∷ 3 ∷ []) (new_btree 0) ≡ some t)
    × IsValid compare t
    × ((w : ℕ) → find_value compare w t ≡ some (lookup compare w (3 ∷ 1 ∷ 2 ∷ 3 ∷ [])))
    × (values_of t ≡ some (entries t))
    × Ascending compare (entries t)
insert_all-new_btree_example = insert_all-new_btree compare compare-IsOrder 0 (3 ∷ 1 ∷ 2 ∷ 3 ∷ [])
