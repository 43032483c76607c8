-- ===== src/Lexer/Ascii.antt =====
-- The ASCII part of Go's `unicode` tables, on which the tests run the lexer.
use fraise.Prelude.{refl, leb, ◌==◌, ◌&&◌, ◌||◌, ◌+◌, if◌then◌else◌}
use fraise.Lexer.Token.{Unicode, IsStandard}

-- The ASCII part of the tables.
abbrev pub ascii : Unicode
ascii = record {
  is_letter = λ c. (leb b'a' c && leb c b'z') || (leb b'A' c && leb c b'Z');
  is_digit = λ c. leb b'0' c && leb c b'9';
  is_symbol_other = λ c. c == 169;
  is_space = λ c. c == b' ' || (leb 9 c && leb c 13);
  to_lower = λ c. if leb b'A' c && leb c b'Z' then c + 32 else c;
}

pub ascii-IsStandard : IsStandard ascii
ascii-IsStandard = record { nul_letter = refl; nul_digit = refl }
