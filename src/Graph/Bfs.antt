-- ===== src/Graph/Bfs.antt =====
-- internal/graph/bfs.go: the breadth-first traversal of a graph, of which it reads the vertices it
-- holds and the two maps of its edges. A key is a number, and the order in which Go ranges over a
-- map is that of the lists, whatever it is.
pub mod Depths
pub mod Forest
pub mod Walk
pub mod Shortest
mod Tests
use fraise.Prelude.{
  ℕ, zero, suc, ◌+◌, Bool, true, false, not, ◌||◌, List, [], ◌∷◌, ◌++◌, Option, none, some, ◌==◌,
  if◌then◌else◌,
}

pub data Direction : Type 0 where
  outgoing incoming both : Direction

-- `Get(k) != nil`, and the keys of `AdjacencyMap()[k]` and of `PredecessorMap()[k]`.
pub record Graph : Type 0 where
  pub holds : ℕ → Bool
  pub adjacency : ℕ → List ℕ
  pub predecessors : ℕ → List ℕ

pub record TraversalResult : Type 0 where
  pub order : List ℕ
  pub parent : ℕ → Option ℕ
  pub depth : ℕ → Option ℕ

unfoldable pub neighbours : Direction → Graph → ℕ → List ℕ
neighbours Direction.outgoing g u = g.adjacency u
neighbours Direction.incoming g u = g.predecessors u
neighbours Direction.both g u = g.adjacency u ++ g.predecessors u

abbrev pub is_visited : TraversalResult → ℕ → Bool
is_visited r v = elim (r.depth v) [ none ↦ false | some d ↦ true ]

-- `result.Depth[u]`
abbrev pub depth_of : TraversalResult → ℕ → ℕ
depth_of r u = elim (r.depth u) [ none ↦ 0 | some d ↦ d ]

unfoldable pub visit : ℕ → ℕ → ℕ → TraversalResult → TraversalResult
visit v u d r = record {
  order = r.order ++ v ∷ [];
  parent = λ j. if j == v then some u else r.parent j;
  depth = λ j. if j == v then some d else r.depth j;
}

-- The loop over the sources.
unfoldable pub add_sources : Graph → List ℕ → TraversalResult × List ℕ → TraversalResult × List ℕ
unfolding visit
add_sources g [] s = s
add_sources g (source ∷ sources) (r, queue) =
    if is_visited r source || not (g.holds source)
    then add_sources g sources (r, queue)
    else add_sources g sources (visit source source 0 r, queue ++ source ∷ [])

-- The loop over the neighbours of `u`.
unfoldable pub discover : ℕ → List ℕ → TraversalResult × List ℕ → TraversalResult × List ℕ
unfolding visit
discover u [] s = s
discover u (v ∷ vs) (r, queue) =
    if is_visited r v
    then discover u vs (r, queue)
    else discover u vs (visit v u (depth_of r u + 1) r, queue ++ v ∷ [])

-- The loop over the queue, a round for each vertex.
unfoldable pub walk : Direction → Graph → ℕ → TraversalResult × List ℕ → Option TraversalResult
unfolding neighbours discover
walk dir g zero s = none
walk dir g (suc fuel) (r, []) = some r
walk dir g (suc fuel) (r, u ∷ queue) = walk dir g fuel (discover u (neighbours dir g u) (r, queue))

abbrev pub nothing : TraversalResult
nothing = record { order = []; parent = λ j. none; depth = λ j. none }

pub data Traversed : Type 0 where
  ok : TraversalResult → Traversed
  source_not_found : Traversed
  unfinished : Traversed

unfoldable pub traversed : Option TraversalResult → Traversed
traversed none = Traversed.unfinished
traversed (some r) = Traversed.ok r

-- `traverse`, once the sources are queued.
unfoldable pub from_sources : Direction → Graph → ℕ → TraversalResult × List ℕ → Traversed
unfolding walk traversed
from_sources dir g fuel (r, []) = Traversed.source_not_found
from_sources dir g fuel (r, u ∷ queue) = traversed (walk dir g fuel (r, u ∷ queue))

unfoldable pub traverse : Direction → Graph → ℕ → List ℕ → Traversed
unfolding add_sources from_sources
traverse dir g fuel sources = from_sources dir g fuel (add_sources g sources (nothing, []))
