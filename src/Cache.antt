-- ===== src/Cache.antt =====
-- internal/cache: the LRU cache.
pub mod Lru
pub mod Recency
pub mod Cells
pub mod Oldest
pub mod Methods
pub mod Shrink
mod Tests
