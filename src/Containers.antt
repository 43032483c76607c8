-- ===== src/Containers.antt =====
-- internal/containers: the heap and what is built on it.
pub mod Array
pub mod Slots
pub mod Heap
pub mod PriorityQueue
pub mod TopK
pub mod Vector
pub mod Time
pub mod BTree
