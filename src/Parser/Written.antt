-- ===== src/Parser/Written.antt =====
-- internal/query/lexer/lexer.go as the parser calls it: the tokens of a query in their order, so that
-- a node of a command can be held against the token that it was read from.
use fraise.Prelude.{ℕ, zero, suc, ◌≡◌, refl, Option, none, some}
use fraise.Prelude.Text.{Text}
use fraise.Lexer.Token.{Unicode, Token}
use fraise.Lexer.Scan.{Lexer, new}
use fraise.Lexer.Scan as Scan
use fraise.Parser.Machine.{Parser}

module _ (u : Unicode) (text : Text) where
  -- The lexer once it has returned that many tokens.
  unfoldable pub lexer_at : ℕ → Option Lexer
  lexer_at zero = some (new text)
  lexer_at (suc i) = elim (lexer_at i) [
    | none ↦ none
    | some l ↦ elim (Scan.next u l) [ none ↦ none | some (t, l') ↦ some l' ]
  ]

  -- The token of that number, counted from 0.
  unfoldable pub token_at : ℕ → Option Token
  token_at i = elim (lexer_at i) [
    | none ↦ none
    | some l ↦ elim (Scan.next u l) [ none ↦ none | some (t, l') ↦ some t ]
  ]

  -- The window stands on the tokens `i` and `i + 1`, and the lexer behind them.
  pub record At (i : ℕ) (p : Parser) : Type 0 where
    pub cur_is : token_at i ≡ some p.cur
    pub peek_is : token_at (suc i) ≡ some p.peek
    pub lexer_is : lexer_at (suc (suc i)) ≡ some p.l

  -- One token further.
  abbrev pub Moves : Parser → Parser → Type 0
  Moves p q = (i : ℕ) → At i p → At (suc i) q

  module _ (i : ℕ) {l l' : Lexer} {t : Token} (here : lexer_at i ≡ some l)
      (e : Scan.next u l ≡ some (t, l')) where
    pub token_at-next : token_at i ≡ some t
    unfolding token_at
    token_at-next = rw (here, token_at, e) refl

    pub lexer_at-next : lexer_at (suc i) ≡ some l'
    unfolding lexer_at
    lexer_at-next = rw (here, lexer_at, e) refl
