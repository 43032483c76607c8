-- ===== src/Lexer.antt =====
-- internal/query/lexer
pub mod Token
pub mod Ascii
pub mod Scan
mod Tests
pub mod Cursor
pub mod Loops
pub mod Grammar
pub mod Next
pub mod Tokens
pub mod RoundTrip
