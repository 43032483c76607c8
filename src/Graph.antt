-- ===== src/Graph.antt =====
-- internal/graph: the breadth-first traversal.
pub mod Bfs
