-- ===== src/Containers/BTree/Room.antt =====
-- internal/containers/trees/btree.go: `insertNonFull` splits a full child before it descends.
use fraise.Prelude.{
  ℕ, suc, ◌+◌, ◌≤◌, ◌<◌, ◌≡◌, inl, inr, refl, ap, sym, ◌∙◌, subst, Bool-cases, [], ◌∷◌, ◌++◌,
  Option, some, arith, length, ◌==◌, ==_iff,
}
use Prim.Native.Nat.{Ordering}
use mathlib.Core.List.{append_assoc}
use fraise.Containers.BTree.{BTreeNode, values, children, max_values}
use fraise.Containers.BTree.Write.{Room, make_room}
use fraise.Containers.BTree.Order.{
  IsOrder, Ordering-cases, Below, Ascending, Below-append, Above-compare, Below-compare,
  Below-Ascending, Above-Ascending, lookup, lookup_found,
}
use fraise.Containers.BTree.Layout.{get_at}
use fraise.Containers.BTree.Shape.{flat, Shaped, pre, post, flat-Opened, Opened-Good, Opened-Shaped}
use fraise.Containers.BTree.Split.{left_half, right_half, split_child-Splits}
use fraise.Containers.BTree.Descend.{Located}

module _ {T : Type 0} (compare : T → T → Ordering) (o : IsOrder compare) (v : T) where
  module _ (d : ℕ) (two : 2 ≤ d) where
    -- The node is ready for the descent, with its values as they were.
    pub data Ready (h : ℕ) (n : BTreeNode T) : Option (Room T) → Type 0 where
      onward :
          {p : BTreeNode T} {i : ℕ} (at : Located compare o v d h i p)
          → flat (suc h) p ≡ flat (suc h) n
          → length (values n) ≤ length (values p)
          → length (values p) ≤ length (values n) + 1
          → length (values at.opened.c) < max_values d
          → Ready h n (some (Room.onward (record { parent = p; index = i; value = v })))
      duplicate :
          {p : BTreeNode T}
          → Shaped d (suc h) p
          → flat (suc h) p ≡ flat (suc h) n
          → length (values n) ≤ length (values p)
          → length (values p) ≤ length (values n) + 1
          → (x : T) → lookup compare v (flat (suc h) n) ≡ some x
          → Ready h n (some (Room.duplicate p))

    pub make_room-Ready :
        (h i : ℕ) (n : BTreeNode T)
        → Ascending compare (flat (suc h) n)
        → (at : Located compare o v d h i n) → Ready h n (make_room compare d v n i)
    unfolding make_room
    make_room-Ready h i n a at =
        let k = at.opened in
        let read = get_at (children n) k.cl k.c k.cr i k.same_children k.at_child in
        elim (Bool-cases (length (values k.c) == max_values d)) [
          | inr room ↦
              let sized = (Opened-Good d h i n k).1 in
              rw (read, room)
                (Ready.onward at refl (omega arith) (omega arith) (ground (arith, room, sized.1)))
          | inl full ↦
              let s =
                split_child-Splits d two h i n k
                  ((==_iff (length (values k.c)) (max_values d)).0 full) in
              let p = s.parent in
              let m = s.mid in
              let less = pre k ++ flat h (left_half d two k.c) in
              let more = flat h (right_half d two k.c) ++ post k in
              let whole : flat (suc h) n ≡ less ++ m ∷ more =
                sym s.same
                ∙ flat-Opened d h i p s.lower
                ∙ rw (s.lower_pre, s.lower_child, s.lower_post)
                    (sym (append_assoc (pre k) (flat h (left_half d two k.c)) (m ∷ more))) in
              let sorted = subst (Ascending compare) whole a in
              let grows : length (values n) ≤ length (values p) = omega (arith, s.more) in
              let grows_le : length (values p) ≤ length (values n) + 1 = omega (arith, s.more) in
              rw (read, full, s.done, s.read)
                (elim (Ordering-cases (compare v m)) [
                  | inr (inl c) ↦ rw c (
                      Ready.duplicate (Opened-Shaped d h i p s.lower) s.same grows grows_le m (
                        ap (lookup compare v) whole
                        ∙ lookup_found compare o v m less more sorted c))
                  | inl c ↦ rw c (
                      Ready.onward
                        (record {
                          opened = s.lower;
                          low = rw s.lower_pre at.low;
                          high = rw s.lower_post (
                            c,
                            Above-compare compare o v m more c
                                (Above-Ascending compare o less more m sorted),
                          );
                        })
                        s.same grows grows_le (omega (arith, s.lower_size, two)))
                  | inr (inr c) ↦ rw c (
                      Ready.onward
                        (record {
                          opened = s.upper;
                          low = rw s.upper_pre (
                              subst (Below compare v)
                                (append_assoc (pre k) (flat h (left_half d two k.c)) (m ∷ []))
                                (Below-append compare v less (m ∷ [])
                                  (Below-compare compare o v m less c
                                    (Below-Ascending compare o less more m sorted))
                                  (c, tt)));
                          high = rw s.upper_post at.high;
                        })
                        s.same grows grows_le (omega (arith, s.upper_size, two)))
                ])
        ]
