-- ===== src/Graph/Bfs/Tests.antt =====
-- Runs of the breadth-first traversal, on the edges 1 → 2, 1 → 3, 2 → 3, 3 → 4 and 5 → 1.
use fraise.Prelude.{
  ℕ, ◌≡◌, refl, true, ◌==◌, arith, List, if◌then◌else◌, [], ◌∷◌, Option, some, none,
}
use fraise.Graph.Bfs.{
  Direction, Graph, Traversed, traverse, add_sources, discover, walk, neighbours, visit, traversed,
  from_sources,
}
use fraise.Graph.Bfs.Depths.{elem}
use fraise.Graph.Bfs.Shortest.{Outcome, traverse-Outcome}

abbrev successors : ℕ → List ℕ
successors u =
    if u == 1
    then 2 ∷ 3 ∷ []
    else if u == 2
    then 3 ∷ []
    else if u == 3
    then 4 ∷ []
    else if u == 5
    then 1 ∷ []
    else []

abbrev edges : Graph
edges = record {
  holds = λ v. elem v (1 ∷ 2 ∷ 3 ∷ 4 ∷ 5 ∷ []);
  adjacency = successors;
  predecessors = λ v. [];
}

abbrev order_of : Traversed → List ℕ
order_of (Traversed.ok t) = t.order
order_of Traversed.source_not_found = []
order_of Traversed.unfinished = []

abbrev deep : Traversed → ℕ → Option ℕ
deep (Traversed.ok t) v = t.depth v
deep Traversed.source_not_found v = none
deep Traversed.unfinished v = none

traverse_order :
    order_of (traverse Direction.outgoing edges 9 (1 ∷ 9 ∷ 1 ∷ [])) ≡ 1 ∷ 2 ∷ 3 ∷ 4 ∷ []
unfolding traverse add_sources discover walk neighbours visit traversed from_sources
traverse_order = refl

traverse_depth : deep (traverse Direction.outgoing edges 9 (1 ∷ [])) 4 ≡ some 2
unfolding traverse add_sources discover walk neighbours visit traversed from_sources
traverse_depth = refl

traverse_missing : traverse Direction.outgoing edges 9 (9 ∷ []) ≡ Traversed.source_not_found
unfolding traverse add_sources discover walk neighbours visit traversed from_sources
traverse_missing = refl

successors_known : (u w : ℕ) → elem w (successors u) ≡ true → elem w (1 ∷ 2 ∷ 3 ∷ 4 ∷ []) ≡ true
successors_known u w e = ground (arith, e)

traverse-Outcome_example :
    Outcome Direction.outgoing edges
      (1 ∷ 9 ∷ [])
      (1 ∷ 2 ∷ 3 ∷ 4 ∷ [])
      (traverse Direction.outgoing edges 9 (1 ∷ 9 ∷ []))
unfolding neighbours
traverse-Outcome_example =
    traverse-Outcome Direction.outgoing edges (1 ∷ 9 ∷ []) (1 ∷ 2 ∷ 3 ∷ 4 ∷ []) successors_known 9
      (omega arith) (λ v e h. ground (arith, e, h))
