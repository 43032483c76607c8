-- ===== src/Graph/Bfs/Walk.antt =====
-- internal/graph/bfs.go: every vertex the queue holds or held was reached at its depth, and the walk
-- ends with all their neighbours visited.
use fraise.Prelude.{
  ℕ, zero, suc, ◌+◌, ◌≤◌, ◌<◌, ◌≡◌, ◌⊎◌, refl, ap, sym, subst, ◌∙◌, Bool, true, false, List, [],
  ◌∷◌, ◌++◌, none, some, ◌==◌, ==_iff, arith, length, length-append, Bool-cases, inl, inr,
}
use fraise.Graph.Bfs.{
  Direction, Graph, TraversalResult, neighbours, is_visited, depth_of, visit, discover, walk,
}
use fraise.Graph.Bfs.Forest.{Parented, Forest, visit-Forest}
use fraise.Graph.Bfs.Depths.{
  visit-parent, elem, elem-append, Extends, Rises, Below, Covers, unvisited, is_visited-none,
  is_visited-some, some_inj, visit_self, visit-Extends, visit_inv, unvisited-visit, Rises-Extends,
  Rises-append, Covers-cons,
}

-- `v` is reached from a source in the graph by `n` edges.
pub data Reaches (dir : Direction) (g : Graph) (sources : List ℕ) : ℕ → ℕ → Type 0 where
  at_source : {v : ℕ} → elem v sources ≡ true → g.holds v ≡ true → Reaches dir g sources 0 v
  along :
      {n m u v : ℕ}
      → Reaches dir g sources n u
      → elem v (neighbours dir g u) ≡ true
      → m ≡ n + 1
      → Reaches dir g sources m v

module _ (dir : Direction) (g : Graph) (sources universe : List ℕ) where
  -- What the traversal keeps: every vertex it visited was reached at its depth, and waits in the
  -- queue or has all its neighbours visited, no more than one edge deeper. `busy` is the vertex whose
  -- neighbours are being looked at.
  pub record Keeps (b : ℕ) (busy : ℕ → Bool) (r : TraversalResult) (queue : List ℕ) : Type 0 where
    pub sound : (v d : ℕ) → r.depth v ≡ some d → Reaches dir g sources d v
    pub forest : Forest dir g r
    pub rises : Rises r b queue
    pub below : Below r (b + 1)
    pub closed :
        (v d : ℕ)
        → r.depth v ≡ some d
        → (busy v ≡ true) ⊎ ((elem v queue ≡ true) ⊎ Covers r (d + 1) (neighbours dir g v))

  Covers-Extends :
      (r s : TraversalResult) (m : ℕ) (vs : List ℕ) → Extends r s → Covers r m vs → Covers s m vs
  Covers-Extends r s m vs x c w e = let (d, k, l) = c w e in (d, x w d k, l)

  module _ (b : ℕ) (busy : ℕ → Bool) (r : TraversalResult) (queue : List ℕ)
      (k : Keeps b busy r queue) (v u : ℕ) where
    -- A vertex is visited at the deepest depth so far.
    visit-Keeps :
        r.depth v ≡ none
        → Reaches dir g sources (b + 1) v
        → Parented dir g (visit v u (b + 1) r) v (b + 1)
        → Keeps b busy (visit v u (b + 1) r) (queue ++ v ∷ [])
    visit-Keeps new reached placed =
        let s = visit v u (b + 1) r in
        let x = visit-Extends r v u (b + 1) new in
        let deep : Below s (b + 1) = λ w e h. elim (visit_inv r v u (b + 1) w e h) [
          | inl (_, same) ↦ omega (arith, same)
          | inr old ↦ k.below w e old
        ] in
        record {
          sound = λ w e h. elim (visit_inv r v u (b + 1) w e h) [
            | inl (is, same) ↦ rw (is, same) reached
            | inr old ↦ k.sound w e old
          ];
          forest = visit-Forest dir g r v u (b + 1) new k.forest placed;
          rises =
              Rises-append s b (b + 1) queue v (Rises-Extends r s b queue x k.rises) deep
                (omega arith) (visit_self r v u (b + 1));
          below = deep;
          closed = λ w e h. elim (visit_inv r v u (b + 1) w e h) [
            | inl (is, _) ↦ inr (inl (ground (arith, is, elem-append w queue (v ∷ []))))
            | inr old ↦ elim (k.closed w e old) [
              | inl y ↦ inl y
              | inr (inl y) ↦ inr (inl (ground (arith, y, elem-append w queue (v ∷ []))))
              | inr (inr c) ↦ inr (inr (Covers-Extends r s (e + 1) (neighbours dir g w) x c))
            ]
          ];
        }

  -- What the loop over the neighbours of `u` has done.
  record Discovers (b : ℕ) (busy : ℕ → Bool) (vs : List ℕ) (r : TraversalResult) (queue : List ℕ)
      (t : TraversalResult × List ℕ) : Type 0 where
    keeps : Keeps b busy t.0 t.1
    extends : Extends r t.0
    covers : Covers t.0 (b + 1) vs
    fewer : unvisited universe t.0 + length t.1 ≤ unvisited universe r + length queue

  discover-Discovers :
      (b u : ℕ) (busy : ℕ → Bool) (vs : List ℕ) (r : TraversalResult) (queue : List ℕ)
      → r.depth u ≡ some b
      → ((w : ℕ) → elem w vs ≡ true → elem w (neighbours dir g u) ≡ true)
      → ((w : ℕ) → elem w vs ≡ true → elem w universe ≡ true)
      → Keeps b busy r queue
      → Discovers b busy vs r queue (discover u vs (r, queue))
  unfolding discover
  discover-Discovers b u busy [] r queue e near known k = record {
    keeps = k;
    extends = λ v d h. h;
    covers = λ w h. absurd cc;
    fewer = omega arith;
  }
  discover-Discovers b u busy (v ∷ vs) r queue e near known k = elim (Bool-cases (is_visited r v)) [
    | inl old ↦
        let h =
          discover-Discovers b u busy vs r queue e (λ w m. near w (ground (arith, m)))
            (λ w m. known w (ground (arith, m))) k in
        let t = discover u vs (r, queue) in
        rw (old, discover)
          (record {
            keeps = h.keeps;
            extends = h.extends;
            covers =
                let (d, f) = is_visited-some r v old in
                Covers-cons t.0 (b + 1) v vs h.covers d (h.extends v d f) (k.below v d f);
            fewer = h.fewer;
          })
    | inr fresh ↦
        let new = is_visited-none r v fresh in
        let first : elem v (v ∷ vs) ≡ true = ground arith in
        let s = visit v u (b + 1) r in
        let x = visit-Extends r v u (b + 1) new in
        let h =
          discover-Discovers b u busy vs s (queue ++ v ∷ []) (x u b e)
            (λ w m. near w (ground (arith, m))) (λ w m. known w (ground (arith, m)))
            (visit-Keeps b busy r queue k v u new (along (k.sound u b e) (near v first) refl)
              (Parented.child (visit-parent r v u (b + 1)) (x u b e) refl (near v first))) in
        let t = discover u vs (s, queue ++ v ∷ []) in
        let at : depth_of r u ≡ b = rw (depth_of, e) refl in
        let same : discover u vs (visit v u (depth_of r u + 1) r, queue ++ v ∷ []) ≡ t =
          ap (λ m. discover u vs (visit v u (m + 1) r, queue ++ v ∷ [])) at in
        rw fresh (
          subst (λ z. Discovers b busy (v ∷ vs) r queue z) (sym same)
            (record {
              keeps = h.keeps;
              extends = λ w d f. h.extends w d (x w d f);
              covers =
                  Covers-cons t.0 (b + 1) v vs h.covers (b + 1)
                    (h.extends v (b + 1) (visit_self r v u (b + 1))) (omega arith);
              fewer = omega (
                arith,
                h.fewer,
                length-append queue (v ∷ []),
                unvisited-visit r v u (b + 1) universe new (known v first),
              );
            }))
  ]

  abbrev pub nobody : ℕ → Bool
  nobody v = false

  pop-Keeps :
      (b u d : ℕ) (r : TraversalResult) (queue : List ℕ)
      → Keeps b nobody r (u ∷ queue)
      → b ≤ d
      → Rises r d queue
      → Keeps d (λ v. v == u) r queue
  pop-Keeps b u d r queue k l h = record {
    forest = k.forest;
    sound = k.sound;
    rises = h;
    below = λ v e x. omega (arith, k.below v e x, l);
    closed = λ v e x. elim (k.closed v e x) [
      | inl y ↦ absurd (ground (arith, y))
      | inr (inr c) ↦ inr (inr c)
      | inr (inl y) ↦ elim (Bool-cases (v == u)) [
        | inl same ↦ inl same
        | inr other ↦ inr (inl (ground (arith, y, other)))
      ]
    ];
  }

  done-Keeps :
      (d u : ℕ) (r : TraversalResult) (queue : List ℕ)
      → Keeps d (λ v. v == u) r queue
      → r.depth u ≡ some d
      → Covers r (d + 1) (neighbours dir g u)
      → Keeps d nobody r queue
  done-Keeps d u r queue k e c = record {
    forest = k.forest;
    sound = k.sound;
    rises = k.rises;
    below = k.below;
    closed = λ v f x. elim (k.closed v f x) [
      | inr y ↦ inr y
      | inl y ↦
          let at : v ≡ u = (==_iff v u).0 y in
          let same : f ≡ d = some_inj (sym x ∙ ap r.depth at ∙ e) in inr (inr (rw (at, same) c))
    ];
  }

  module _ (known : (u w : ℕ) → elem w (neighbours dir g u) ≡ true → elem w universe ≡ true) where
    pub walk-Keeps :
        (fuel b : ℕ) (r : TraversalResult) (queue : List ℕ)
        → Keeps b nobody r queue
        → unvisited universe r + length queue < fuel
        → (t : TraversalResult) × (c : ℕ) × (walk dir g fuel (r, queue) ≡ some t)
          × Keeps c nobody t []
          × Extends r t
    unfolding walk
    walk-Keeps zero b r queue k f = absurd (omega arith)
    walk-Keeps (suc fuel) b r [] k f = (r, b, refl, k, λ v d h. h)
    walk-Keeps (suc fuel) b r (u ∷ queue) k f =
        let (d, e, l, h) = k.rises in
        let s =
          discover-Discovers d u (λ v. v == u) (neighbours dir g u) r queue e (λ w m. m) (known u)
            (pop-Keeps b u d r queue k l h) in
        let next = discover u (neighbours dir g u) (r, queue) in
        let (t, c, found, kt, x) =
          walk-Keeps fuel d next.0 next.1
            (done-Keeps d u next.0 next.1 s.keeps (s.extends u d e) s.covers)
            (omega (arith, s.fewer, f)) in
        (t, c, found, kt, λ v j y. x v j (s.extends v j y))
