-- ===== src/Lexer/RoundTrip.antt =====
-- What is printed as a quoted phrase is read back as that phrase.
use fraise.Prelude.{◌+◌, ◌≡◌, ◌∙◌, true, false, [], ◌∷◌, ◌++◌, arith, length, some, length-append}
use fraise.Prelude.Text.{Text}
use fraise.Lexer.Token.{Unicode, TokenType}
use fraise.Lexer.Scan.{Lexer, next, scan_phrase, scan, scan_at, symbol, fuel_for, read_character}
use fraise.Lexer.Cursor.{
  IsValid, rest, advance, advance-Moved, peek-cons, read-IsValid, rest-read, length-rest-le,
}
use fraise.Lexer.Loops.{starts, is_quote, double, scan_phrase_loop-double, length-le-double}
use fraise.Lexer.Grammar.{quote}
use mathlib.Core.List.{append_assoc}

module _ (u : Unicode) (s r : Text) (l : Lexer) (v : IsValid l) (e : rest l ≡ quote s ++ r) where
  scan_phrase-quote :
      starts is_quote r ≡ false → scan_phrase l ≡ some (TokenType.phrase, s, advance l (quote s))
  unfolding scan_phrase advance
  scan_phrase-quote h =
      scan_phrase_loop-double s true r (fuel_for l) (read_character l) [] (read-IsValid l v e)
        (rest-read l v e ∙ append_assoc (double s) (b'\'' ∷ []) r) h (λ x. cc)
        (omega (
          arith,
          length-rest-le l (quote s ++ r) e,
          length-append (quote s) r,
          length-append (double s) (b'\'' ∷ []),
          length-le-double s,
        ))

  scan-quote :
      starts is_quote r ≡ false → scan u l ≡ some (TokenType.phrase, s, advance l (quote s))
  unfolding scan scan_at symbol
  scan-quote h = rw (peek-cons l v e) (scan_phrase-quote h)

  -- Whatever text `s` a phrase is to hold, quotes, blanks and reserved words included, its quoted
  -- form is read back by `Next`, from a valid state in front of it, as one PHRASE token with the
  -- literal `s`, if no quote follows. The
  -- lexer then stands behind the closing quote, and that is the token's position.
  pub next-quote :
      starts is_quote r ≡ false
      → (l' : Lexer) × (next u l
          ≡ some (
            record { type = TokenType.phrase; literal = s; pos = l.current_pos + length (quote s) },
            l',
          ))
        × (rest l' ≡ r)
        × IsValid l'
  unfolding next
  next-quote h =
      let m = advance-Moved (quote s) r l v e in
      (advance l (quote s), ground (arith, scan-quote h, m.moved), m.left, m.valid)
