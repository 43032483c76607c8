-- ===== src/Graph/Bfs/Forest.antt =====
-- internal/graph/bfs.go: the order and the parents that the traversal records.
use fraise.Prelude.{
  ℕ, ◌+◌, ◌≡◌, ◌≢◌, refl, ap, sym, ◌∙◌, true, false, List, [], ◌∷◌, ◌++◌, none, some, ◌==◌, ==_iff,
  arith, Bool-cases, inl, inr,
}
use fraise.Graph.Bfs.{Direction, Graph, TraversalResult, neighbours, visit, nothing}
use fraise.Graph.Bfs.Depths.{elem, elem-append, visit_self, visit-Extends, visit_inv}

abbrev pub Distinct : List ℕ → Type 0
Distinct [] = Unit
Distinct (v ∷ vs) = (elem v vs ≡ false) × Distinct vs

Distinct-append : (vs : List ℕ) (v : ℕ) → Distinct vs → elem v vs ≡ false → Distinct (vs ++ v ∷ [])
Distinct-append [] v h new = (refl, tt)
Distinct-append (w ∷ vs) v (h, rest) new = (
  ground (arith, h, new, elem-append w vs (v ∷ [])),
  Distinct-append vs v rest (ground (arith, new)),
)

module _ (dir : Direction) (g : Graph) where
  -- A vertex at depth 0 is its own parent, and another one's parent is a neighbour one edge nearer.
  pub data Parented (r : TraversalResult) (v d : ℕ) : Type 0 where
    root : d ≡ 0 → r.parent v ≡ some v → Parented r v d
    child :
        {u e : ℕ}
        → r.parent v ≡ some u
        → r.depth u ≡ some e
        → d ≡ e + 1
        → elem v (neighbours dir g u) ≡ true
        → Parented r v d

  pub record Forest (r : TraversalResult) : Type 0 where
    pub parented : (v d : ℕ) → r.depth v ≡ some d → Parented r v d
    pub listed : (v d : ℕ) → r.depth v ≡ some d → elem v r.order ≡ true
    pub visited : (v : ℕ) → elem v r.order ≡ true → (d : ℕ) × (r.depth v ≡ some d)
    pub distinct : Distinct r.order

  pub nothing-Forest : Forest nothing
  nothing-Forest = record {
    parented = λ v d e. absurd cc;
    listed = λ v d e. absurd cc;
    visited = λ v e. absurd cc;
    distinct = tt;
  }

  module _ (r : TraversalResult) (v u d : ℕ) (new : r.depth v ≡ none) where
    Parented-visit : (w e : ℕ) → r.depth w ≡ some e → Parented r w e → Parented (visit v u d r) w e
    unfolding visit
    Parented-visit w e h p =
        let x = visit-Extends r v u d new in
        elim (Bool-cases (w == v)) [
          | inl same ↦ absurd (none-some (sym new ∙ ap r.depth (sym ((==_iff w v).0 same)) ∙ h))
          | inr other ↦ elim p [
            | root z at ↦ Parented.root z (rw other at)
            | child {u = y} {e = j} at k same near ↦
                Parented.child (rw other at) (x y j k) same near
          ]
        ]
      where
        none-some : {a : ℕ} → none ≢ some a
        none-some e = cc

    pub visit-Forest : Forest r → Parented (visit v u d r) v d → Forest (visit v u d r)
    unfolding visit
    visit-Forest k p = record {
      parented = λ w e h. elim (visit_inv r v u d w e h) [
        | inl (is, same) ↦ rw (is, same) p
        | inr old ↦ Parented-visit w e old (k.parented w e old)
      ];
      listed = λ w e h. elim (visit_inv r v u d w e h) [
        | inl (is, _) ↦ ground (arith, is, elem-append w r.order (v ∷ []))
        | inr old ↦ ground (arith, k.listed w e old, elem-append w r.order (v ∷ []))
      ];
      visited = λ w e. elim (Bool-cases (w == v)) [
        | inl same ↦ (d, rw ((==_iff w v).0 same) (visit_self r v u d))
        | inr other ↦
            let (j, old) = k.visited w (ground (arith, e, other, elem-append w r.order (v ∷ []))) in
            (j, visit-Extends r v u d new w j old)
      ];
      distinct = Distinct-append r.order v k.distinct (elim (Bool-cases (elem v r.order)) [
        | inr out ↦ out
        | inl within ↦ let (j, old) = k.visited v within in absurd (some-none (sym old ∙ new))
      ]);
    }
      where
        some-none : {a : ℕ} → some a ≢ none
        some-none e = cc
