-- ===== src/Parser.antt =====
-- internal/query/parser: the syntax tree, the parser that builds it, and what becomes of it.
pub mod Ast
pub mod Print
pub mod Message
pub mod Number
pub mod Machine
pub mod Errors
pub mod Clauses
pub mod Terms
pub mod Warnings
pub mod Commands
pub mod Entry
pub mod Written
pub mod WellFormed
pub mod Safety
mod Tests
