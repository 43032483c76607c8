-- ===== src/Containers/BTree/Built.antt =====
-- internal/containers/trees/btree.go: a tree built by insertions holds the first of the values that the
-- comparator calls equal.
use fraise.Prelude.{ℕ, ◌+◌, ◌≡◌, refl, ap, ◌∙◌, Bool, List, [], ◌∷◌, Option, none, some, arith}
use Prim.Native.Nat.{Ordering}
use fraise.Containers.Heap.{◌>>=◌}
use fraise.Containers.BTree.Write.{BTree, height, new_btree, insert, find_value, values_of}
use fraise.Containers.BTree.Order.{IsOrder, Ascending, lookup, put}
use fraise.Containers.BTree.Lookup.{walk_node_lem}
use fraise.Containers.BTree.Valid.{
  IsValid, entries, new_btree-IsValid, Inserts, insert-Inserts, find_value-values_of,
}

module _ {T : Type 0} (compare : T → T → Ordering) where
  -- The values inserted one after the other.
  unfoldable pub insert_all : List T → BTree T → Option (BTree T)
  insert_all [] t = some t
  insert_all (v ∷ vs) t = insert compare v t >>= λ r. insert_all vs r.0

  abbrev either : Option T → Option T → Option T
  either none y = y
  either (some x) y = some x

  module _ (o : IsOrder compare) where
    lookup-IsOrder :
        (w v : T) (xs : List T)
        → compare w v ≡ Ordering.eq
        → lookup compare w xs ≡ lookup compare v xs
    lookup-IsOrder w v [] e = refl
    lookup-IsOrder w v (x ∷ xs) e = ground (arith, o.same w v x e, lookup-IsOrder w v xs e)

    lookup-put :
        (w v : T) (xs : List T)
        → lookup compare w (put compare v xs)
          ≡ elim (compare w v) [ Ordering.eq ↦ some v | _ ↦ lookup compare w xs ]
    lookup-put w v [] = ground arith
    lookup-put w v (x ∷ xs) = ground (arith, o.same w v x, lookup-put w v xs)

    -- What a tree holds after further insertions.
    record Holds (t : BTree T) (vs : List T) (t' : BTree T) : Type 0 where
      valid : IsValid compare t'
      found :
          (w : T)
          → lookup compare w (entries t')
            ≡ either (lookup compare w (entries t)) (lookup compare w vs)

    step_lem :
        (v : T) (t : BTree T) (vs : List T) (r : Option (BTree T × Bool))
        → Inserts compare o v t r
        → ((t' : BTree T)
            → IsValid compare t'
            → (s : BTree T) × (insert_all vs t' ≡ some s) × Holds t' vs s)
        → (s : BTree T) × ((r >>= λ p. insert_all vs p.0) ≡ some s) × Holds t (v ∷ vs) s
    step_lem v t vs _ (Inserts.stored {t'} new valid e) rec =
        let (s, done, h) = rec t' valid in
        (
          s,
          done,
          record {
            valid = h.valid;
            found = λ w.
                h.found w
                ∙ ground (
                  arith,
                  ap (lookup compare w) e ∙ lookup-put w v (entries t),
                  lookup-IsOrder w v (entries t),
                  new,
                );
          },
        )
    step_lem v t vs _ (Inserts.present {t'} x old valid e) rec =
        let (s, done, h) = rec t' valid in
        (
          s,
          done,
          record {
            valid = h.valid;
            found = λ w.
                h.found w
                ∙ ground (arith, ap (lookup compare w) e, lookup-IsOrder w v (entries t), old);
          },
        )

    insert_all-Holds :
        (vs : List T) (t : BTree T)
        → IsValid compare t
        → (s : BTree T) × (insert_all vs t ≡ some s) × Holds t vs s
    unfolding insert_all
    insert_all-Holds [] t k =
        (t, refl, record { valid = k; found = λ w. either_none (lookup compare w (entries t)) })
      where
        either_none : (x : Option T) → x ≡ either x none
        either_none none = refl
        either_none (some x) = refl
    insert_all-Holds (v ∷ vs) t k =
        step_lem v t vs (insert compare v t) (insert-Inserts compare o v t k)
          (λ t' k'. insert_all-Holds vs t' k')

    -- Under a comparator that orders, whatever the degree and the values: a tree made by NewBTree takes
    -- them one after the other, and is then valid. Find returns, for any value, the first one inserted
    -- that equals it, or none, and Values an ascending list.
    pub insert_all-new_btree :
        (degree : ℕ) (vs : List T)
        → (t : BTree T) × (insert_all vs (new_btree degree) ≡ some t)
          × IsValid compare t
          × ((w : T) → find_value compare w t ≡ some (lookup compare w vs))
          × (values_of t ≡ some (entries t))
          × Ascending compare (entries t)
    unfolding new_btree height values_of
    insert_all-new_btree degree vs =
        let (t, done, h) =
          insert_all-Holds vs (new_btree degree) (new_btree-IsValid compare degree) in
        (
          t,
          done,
          h.valid,
          (λ w. (find_value-values_of compare o w t h.valid).0 ∙ ap some (h.found w)),
          walk_node_lem t.degree (height t.root + 1) (height t.root) t.root (omega arith)
              h.valid.shaped,
          h.valid.ascending,
        )
