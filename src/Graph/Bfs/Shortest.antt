-- ===== src/Graph/Bfs/Shortest.antt =====
-- internal/graph/bfs.go: the breadth-first traversal visits just what the sources reach, at its shortest
-- distance.
use fraise.Prelude.{
  ℕ, ◌+◌, ◌≤◌, ◌<◌, ◌≡◌, refl, ap, sym, ◌∙◌, true, false, not, ◌||◌, List, [], ◌∷◌, ◌++◌, none,
  some, ◌==◌, ==_iff, arith, length, length-append, Bool-cases, inl, inr,
}
use fraise.Graph.Bfs.{
  Direction, Graph, TraversalResult, Traversed, neighbours, is_visited, visit, add_sources, nothing,
  traversed, from_sources, traverse,
}
use fraise.Graph.Bfs.Forest.{Parented, Forest, visit-Forest, nothing-Forest}
use fraise.Graph.Bfs.Depths.{
  visit-parent, elem, elem-append, Extends, Rises, unvisited, is_visited-none, is_visited-some,
  visit_self, visit-Extends, visit_inv, unvisited-visit, Rises-Extends, Rises-append,
}
use fraise.Graph.Bfs.Walk.{Reaches, Keeps, nobody, walk-Keeps}

module _ (dir : Direction) (g : Graph) (sources universe : List ℕ) where
  abbrev IsHeld : ℕ → Type 0
  IsHeld v = (elem v sources ≡ true) × (g.holds v ≡ true)

  -- The sources looked at so far are queued, at depth 0.
  record Starts (r : TraversalResult) (queue : List ℕ) : Type 0 where
    held : (v d : ℕ) → r.depth v ≡ some d → (d ≡ 0) × IsHeld v
    queued : (v d : ℕ) → r.depth v ≡ some d → elem v queue ≡ true
    forest : Forest dir g r
    rises : Rises r 0 queue
    fewer : unvisited universe r + length queue ≤ length universe

  visit-Starts :
      (r : TraversalResult) (queue : List ℕ) (v : ℕ)
      → Starts r queue
      → r.depth v ≡ none
      → IsHeld v
      → elem v universe ≡ true
      → Starts (visit v v 0 r) (queue ++ v ∷ [])
  visit-Starts r queue v k new h known =
      let s = visit v v 0 r in
      let x = visit-Extends r v v 0 new in
      let zeros : (w d : ℕ) → s.depth w ≡ some d → (d ≡ 0) × IsHeld w = λ w d e.
        elim (visit_inv r v v 0 w d e) [
          | inl (is, same) ↦ (same, rw is h)
          | inr old ↦ k.held w d old
        ] in
      record {
        held = zeros;
        queued = λ w d e. elim (visit_inv r v v 0 w d e) [
          | inl (is, same) ↦ ground (arith, is, elem-append w queue (v ∷ []))
          | inr old ↦ ground (arith, k.queued w d old, elem-append w queue (v ∷ []))
        ];
        forest =
            visit-Forest dir g r v v 0 new k.forest (Parented.root refl (visit-parent r v v 0));
        rises =
            Rises-append s 0 0 queue v (Rises-Extends r s 0 queue x k.rises)
              (λ w d e. omega (arith, (zeros w d e).0)) (omega arith) (visit_self r v v 0);
        fewer = omega (
          arith,
          k.fewer,
          length-append queue (v ∷ []),
          unvisited-visit r v v 0 universe new known,
        );
      }

  unvisited-nothing : (vs : List ℕ) → unvisited vs nothing ≡ length vs
  unfolding unvisited
  unvisited-nothing [] = refl
  unvisited-nothing (v ∷ vs) = omega (arith, unvisited-nothing vs)

  -- What the loop over the sources has done.
  record Sourced (rest : List ℕ) (r : TraversalResult) (t : TraversalResult × List ℕ) : Type 0 where
    starts : Starts t.0 t.1
    extends : Extends r t.0
    found : (v : ℕ) → elem v rest ≡ true → g.holds v ≡ true → (d : ℕ) × (t.0.depth v ≡ some d)

  add_sources-Sourced :
      (rest : List ℕ) (r : TraversalResult) (queue : List ℕ)
      → ((w : ℕ) → elem w rest ≡ true → elem w sources ≡ true)
      → ((w : ℕ) → elem w rest ≡ true → g.holds w ≡ true → elem w universe ≡ true)
      → Starts r queue
      → Sourced rest r (add_sources g rest (r, queue))
  unfolding add_sources
  add_sources-Sourced [] r queue near known k = record {
    starts = k;
    extends = λ v d e. e;
    found = λ v e h. absurd cc;
  }
  add_sources-Sourced (v ∷ rest) r queue near known k =
      let near' : (w : ℕ) → elem w rest ≡ true → elem w sources ≡ true =
        λ w m. near w (ground (arith, m)) in
      let known' : (w : ℕ) → elem w rest ≡ true → g.holds w ≡ true → elem w universe ≡ true =
        λ w m. known w (ground (arith, m)) in
      let first : elem v (v ∷ rest) ≡ true = ground arith in
      elim (Bool-cases (is_visited r v || not (g.holds v))) [
        | inl skipped ↦
            let h = add_sources-Sourced rest r queue near' known' k in
            rw skipped (record {
              starts = h.starts;
              extends = h.extends;
              found = λ w e held. elim (Bool-cases (w == v)) [
                | inr other ↦ h.found w (ground (arith, e, other)) held
                | inl same ↦
                    let at : w ≡ v = (==_iff w v).0 same in
                    let (d, f) =
                      is_visited-some r v (ground (arith, skipped, sym (ap g.holds at) ∙ held)) in
                    (d, h.extends w d (ap r.depth at ∙ f))
              ];
            })
        | inr taken ↦
            let new : r.depth v ≡ none = is_visited-none r v (ground (arith, taken)) in
            let held : g.holds v ≡ true = ground (arith, taken) in
            let s = visit v v 0 r in
            let x = visit-Extends r v v 0 new in
            let h =
              add_sources-Sourced rest s (queue ++ v ∷ []) near' known'
                (visit-Starts r queue v k new (near v first, held) (known v first held)) in
            rw taken (record {
              starts = h.starts;
              extends = λ w d e. h.extends w d (x w d e);
              found = λ w e held. elim (Bool-cases (w == v)) [
                | inr other ↦ h.found w (ground (arith, e, other)) held
                | inl same ↦
                    let at : w ≡ v = (==_iff w v).0 same in
                    (0, rw at (h.extends v 0 (visit_self r v v 0)))
              ];
            })
      ]

  -- The result has just the vertices that the sources reach, at their distance from the nearest one,
  -- with the order and the parents of a forest.
  pub record IsShortest (t : TraversalResult) : Type 0 where
    pub sound : (v d : ℕ) → t.depth v ≡ some d → Reaches dir g sources d v
    pub forest : Forest dir g t
    pub complete : (v n : ℕ) → Reaches dir g sources n v → (d : ℕ) × (t.depth v ≡ some d) × (d ≤ n)

  pub data Outcome : Traversed → Type 0 where
    walked : {t : TraversalResult} {v : ℕ} → IsHeld v → IsShortest t → Outcome (Traversed.ok t)
    refused :
        ((v : ℕ) → elem v sources ≡ true → g.holds v ≡ false) → Outcome Traversed.source_not_found

  Starts-Keeps :
      (r : TraversalResult) (queue : List ℕ)
      → Starts r queue
      → Keeps dir g sources universe 0 (nobody dir g sources universe) r queue
  Starts-Keeps r queue k = record {
    sound = λ v d e. let (zero', held) = k.held v d e in rw zero' (Reaches.at_source held.0 held.1);
    forest = k.forest;
    rises = k.rises;
    below = λ v d e. omega (arith, (k.held v d e).0);
    closed = λ v d e. inr (inl (k.queued v d e));
  }

  complete_lem :
      (c : ℕ) (t : TraversalResult)
      → Keeps dir g sources universe c (nobody dir g sources universe) t []
      → ((v : ℕ) → elem v sources ≡ true → g.holds v ≡ true → t.depth v ≡ some 0)
      → (n v : ℕ) → Reaches dir g sources n v
      → (d : ℕ) × (t.depth v ≡ some d) × (d ≤ n)
  complete_lem c t k z _ v (Reaches.at_source e h) = (0, z v e h, omega arith)
  complete_lem c t k z m v (Reaches.along {n} {u} h e at) =
      let (d, f, l) = complete_lem c t k z n u h in
      elim (k.closed u d f) [
        | inl y ↦ absurd cc
        | inr (inl y) ↦ absurd cc
        | inr (inr covers) ↦ let (j, found, l') = covers v e in (j, found, omega (arith, at, l, l'))
      ]

  module _ (known : (u w : ℕ) → elem w (neighbours dir g u) ≡ true → elem w universe ≡ true)
      (fuel : ℕ) (enough : length universe < fuel) where
    from_sources-Outcome :
        (r : TraversalResult) (queue : List ℕ)
        → Sourced sources nothing (r, queue)
        → Outcome (from_sources dir g fuel (r, queue))
    unfolding from_sources traversed
    from_sources-Outcome r [] h = Outcome.refused (λ v e. elim (Bool-cases (g.holds v)) [
      | inr missing ↦ missing
      | inl there ↦ let (d, f) = h.found v e there in absurd (ground (arith, h.starts.queued v d f))
    ])
    from_sources-Outcome r (u ∷ queue) h =
        let k = h.starts in
        let (t, c, same, kt, x) =
          walk-Keeps dir g sources universe known fuel 0 r (u ∷ queue)
            (Starts-Keeps r (u ∷ queue) k) (omega (arith, k.fewer, enough)) in
        let (d, first, _, _) = k.rises in
        rw same (
          Outcome.walked (k.held u d first).1 (record {
            sound = kt.sound;
            forest = kt.forest;
            complete = λ v n.
                complete_lem c t kt
                  (λ w e held.
                    let (d, f) = h.found w e held in
                    let zero' : d ≡ 0 = (k.held w d f).0 in x w 0 (rw (sym zero') f))
                  n v;
          }))

    -- If the universe holds every neighbour and every source that the graph holds, and the fuel is above
    -- its length, the breadth-first traversal ends, for either direction and for both: with a result
    -- that has just the vertices that the sources reach, each at its distance from the nearest source,
    -- each once in the order, and with a parent that is a neighbour one edge nearer, or itself where it
    -- is at depth 0, if the graph holds one of the sources; and with ErrSourceNotFound if it holds
    -- none of them.
    pub traverse-Outcome :
        ((v : ℕ) → elem v sources ≡ true → g.holds v ≡ true → elem v universe ≡ true)
        → Outcome (traverse dir g fuel sources)
    unfolding traverse
    traverse-Outcome held =
        let s = add_sources g sources (nothing, []) in
        from_sources-Outcome s.0 s.1 (
          add_sources-Sourced sources nothing [] (λ w m. m) held
            (record {
              held = λ v d e. absurd cc;
              queued = λ v d e. absurd cc;
              forest = nothing-Forest dir g;
              rises = tt;
              fewer = omega (arith, unvisited-nothing universe);
            }))
