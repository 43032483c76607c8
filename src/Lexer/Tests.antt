-- ===== src/Lexer/Tests.antt =====
-- Runs of the lexer.
use fraise.Prelude.{ℕ, ◌≡◌, refl, some, none, List, [], ◌∷◌, suc, zero}
use fraise.Prelude.Text.{Text, codes}
use fraise.Lexer.Token.{TokenType, keyword}
use fraise.Lexer.Scan.{
  Lexer, peek, read_character, new, is_blank, is_word_character, scan_while, scan_whitespace,
  scan_string, scan_phrase_loop, scan_phrase, single, word_type, scan_word, scan_blanks, symbol,
  scan_at, scan, next,
}
use fraise.Prelude.{length}
use fraise.Lexer.Token.{Token}
use fraise.Lexer.Cursor.{IsValid, rest, new-IsValid, rest-new}
use fraise.Lexer.Ascii.{ascii, ascii-IsStandard}
use fraise.Lexer.Grammar.{Returned}
use fraise.Lexer.Next.{next-Returned}
use fraise.Lexer.Loops.{double}
use fraise.Lexer.Tokens.{tokens, Spells, tokens_total}
use fraise.Lexer.RoundTrip.{next-quote}
use fraise.Prelude.{◌+◌}

-- All that a run computes with.
lexer : Unit {0}
unfolding peek read_character new is_blank is_word_character scan_while scan_whitespace scan_string
    scan_phrase_loop scan_phrase single word_type scan_word scan_blanks symbol scan_at scan next
    keyword
lexer = tt

lex : ℕ → Lexer → List (TokenType × Text × ℕ)
lex zero l = []
lex (suc n) l = elim (next ascii l) [
  | none ↦ []
  | some (t, l') ↦ (t.type, t.literal, t.pos) ∷ lex n l'
]

lex_recall :
    lex 6 (new (codes "recall 'it''s' DEPTH:"))
    ≡ (TokenType.recall, codes "recall", 6)
      ∷ (TokenType.whitespace, codes " ", 7)
      ∷ (TokenType.phrase, codes "it's", 14)
      ∷ (TokenType.whitespace, codes " ", 15)
      ∷ (TokenType.depth, codes "DEPTH", 20)
      ∷ (TokenType.colon, codes ":", 21)
      ∷ []
unfolding lex lexer
lex_recall = refl

abbrev recall_text : Text
recall_text = codes "recall 'it''s' DEPTH:"

next-Returned_example : Returned ascii (new recall_text)
next-Returned_example =
    next-Returned ascii ascii-IsStandard (new recall_text) (new-IsValid recall_text)

tokens_total_example :
    (ts : List Token) × (tokens (length recall_text + 1) ascii (new recall_text) ≡ some ts)
    × Spells ascii 0 recall_text ts
tokens_total_example = tokens_total ascii recall_text ascii-IsStandard

next-quote_example :
    (l' : Lexer) × (next ascii (new (codes "'it''s' x"))
      ≡ some (
        record {
          type = TokenType.phrase;
          literal = codes "it's";
          pos = (new (codes "'it''s' x")).current_pos + 7;
        },
        l',
      ))
    × (rest l' ≡ codes " x")
    × IsValid l'
unfolding double
next-quote_example =
    next-quote ascii (codes "it's") (codes " x") (new (codes "'it''s' x"))
      (new-IsValid (codes "'it''s' x")) (rest-new (codes "'it''s' x")) refl
