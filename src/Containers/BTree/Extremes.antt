-- ===== src/Containers/BTree/Extremes.antt =====
-- internal/containers/trees/btree.go: the greatest and the smallest value below a node.
use fraise.Prelude.{
  ℕ, zero, suc, ◌-◌, ◌≤◌, ◌<◌, ◌≡◌, refl, ap, sym, ◌∙◌, List, [], ◌∷◌, ◌++◌, some, arith, length,
  map,
}
use mathlib.Core.List.{append_assoc, append-nil}
use fraise.Containers.BTree.{BTreeNode, values, children, max_value, min_value}
use fraise.Containers.BTree.Layout.{after, before, open_last, nonempty, get_at}
use fraise.Containers.BTree.Shape.{flat, Shaped, pre, post, flat-Opened, Opened-Good, Shaped-Opened}
use fraise.Containers.BTree.Descend.{is_leaf-zero, is_leaf-suc}

module _ {T : Type 0} (d : ℕ) (two : 2 ≤ d) where
  -- The greatest value below a node is the last of its list, and the smallest the first.
  pub max_value-last :
      (fuel h : ℕ) (n : BTreeNode T)
      → h < fuel
      → Shaped d h n
      → 1 ≤ length (values n)
      → (l : List T) × (m : T) × (max_value fuel n ≡ some m) × (flat h n ≡ l ++ m ∷ [])
  unfolding max_value
  max_value-last zero h n f s some_value = absurd (omega arith)
  max_value-last (suc fuel) zero n f s some_value =
      let (l, m, e, size) = open_last (values n) some_value in
      (
        l,
        m,
        rw
            (
              is_leaf-zero n s,
              get_at (values n) l m [] (length (values n) - 1) e (omega (arith, size)),
            )
            refl,
        e,
      )
  max_value-last (suc fuel) (suc h) n f s some_value =
      let (k, kl, kr) =
        Shaped-Opened d h (length (values n)) n s (values n) [] (sym (append-nil (values n)))
          refl in
      let (shaped, sized) = Opened-Good d h (length (values n)) n k in
      let (l, m, done, e) =
        max_value-last fuel h k.c (omega (arith, f)) shaped (omega (arith, sized.0, two)) in
      (
        pre k ++ l,
        m,
        rw
            (
              is_leaf-suc n (omega (arith, s.0)),
              get_at (children n) k.cl k.c k.cr (length (children n) - 1) k.same_children
                  (omega (arith, k.at_child, s.0)),
            )
            done,
        flat-Opened d h (length (values n)) n k
            ∙ ap (λ t. pre k ++ (flat h k.c ++ after t (map (flat h) k.cr))) kr
            ∙ ap (λ t. pre k ++ t) (append-nil (flat h k.c) ∙ e)
            ∙ sym (append_assoc (pre k) l (m ∷ [])),
      )

  pub min_value-first :
      (fuel h : ℕ) (n : BTreeNode T)
      → h < fuel
      → Shaped d h n
      → 1 ≤ length (values n)
      → (m : T) × (r : List T) × (min_value fuel n ≡ some m) × (flat h n ≡ m ∷ r)
  unfolding min_value
  min_value-first zero h n f s some_value = absurd (omega arith)
  min_value-first (suc fuel) zero n f s some_value =
      let (m, r, e) = nonempty (values n) some_value in
      (m, r, rw (is_leaf-zero n s, get_at (values n) [] m r 0 e refl) refl, e)
  min_value-first (suc fuel) (suc h) n f s some_value =
      let (k, kl, kr) = Shaped-Opened d h 0 n s [] (values n) refl refl in
      let (shaped, sized) = Opened-Good d h 0 n k in
      let (m, r, done, e) =
        min_value-first fuel h k.c (omega (arith, f)) shaped (omega (arith, sized.0, two)) in
      (
        m,
        r ++ post k,
        rw
            (
              is_leaf-suc n (omega (arith, s.0)),
              get_at (children n) k.cl k.c k.cr 0 k.same_children k.at_child,
            )
            done,
        flat-Opened d h 0 n k
            ∙ ap (λ t. before t (map (flat h) k.cl) ++ (flat h k.c ++ post k)) kl
            ∙ ap (λ t. t ++ post k) e,
      )
