-- ===== src/Query.antt =====
-- internal/query: the commands and what keys them in the plan cache, and internal/query/optimisation.
pub mod Command
pub mod Material
pub mod Equality
pub mod Dedupe
mod Tests
pub mod Build
pub mod Limits
pub mod Parse
pub mod Answers
