-- ===== src/Parser/Entry.antt =====
-- internal/query/parser/parser.go: `Parse`.
use fraise.Prelude.{
  ℕ, zero, suc, ◌+◌, not, ◌||◌, List, [], ◌∷◌, Option, none, some, ◌==◌, if◌then◌else◌, length,
}
use fraise.Prelude.Text.{Text}
use fraise.Lexer.Token.{Unicode, TokenType, type_eq, describe_token}
use fraise.Lexer.Scan.{new}
use fraise.Containers.Time.{Clock}
use fraise.Parser.Ast.{CommandNode}
use fraise.Parser.Message.{Message, error_at}
use fraise.Parser.Machine.{Parser, Outcome, M, ◌>>=◌, ◌>>◌, pure, fail, fail_if, window, next}
use fraise.Parser.Terms.{no_token}
use fraise.Parser.Commands.{parse_remember, parse_recall}

module _ (u : Unicode) where
  -- The loop of `Parse` over the blank lines behind the command.
  unfoldable pub skip_blank_lines : ℕ → M (Unit {0})
  unfolding next type_eq
  skip_blank_lines zero p = Outcome.stuck
  skip_blank_lines (suc fuel) p =
      let more = skip_blank_lines fuel in
      (if type_eq p.cur.type TokenType.newline || type_eq p.cur.type TokenType.whitespace
          then (do next u; more)
          else pure tt)
        p

module _ (u : Unicode) {P Time : Type 0} (clock : Clock Time)
    (params : Text → Option (List P)) where
  -- The `switch` of `parseQuery`.
  unfoldable pub parse_command : ℕ → TokenType → M (CommandNode P Time)
  unfolding parse_remember parse_recall describe_token
  parse_command fuel TokenType.remember = do
    r ← parse_remember u clock params fuel
    pure (CommandNode.remember r)
  parse_command fuel TokenType.recall = do
    r ← parse_recall u clock params fuel
    pure (CommandNode.recall r)
  parse_command fuel _ = do
    p ← window
    fail (error_at p.cur.pos (Message.expected_command (describe_token p.cur)))

  unfoldable pub parse_query : ℕ → M (CommandNode P Time)
  unfolding parse_command
  parse_query fuel p = parse_command fuel p.cur.type p

  -- `Parse` once the text is known to be UTF-8.
  unfoldable pub parse_text : ℕ → M (CommandNode P Time)
  unfolding next parse_query skip_blank_lines type_eq describe_token
  parse_text fuel = do
    next u
    next u
    command ← parse_query fuel
    skip_blank_lines u fuel
    p ← window
    fail_if (not (type_eq p.cur.type TokenType.eol))
        (error_at p.cur.pos (Message.unexpected_after_end (describe_token p.cur)))
    pure command

-- The column of the first `utf8.RuneError`, which is also how an invalid byte is read.
unfoldable pub rune_error : ℕ → Text → Option ℕ
rune_error col [] = none
rune_error col (c ∷ q) = if c == 65533 then some (suc col) else rune_error (suc col) q

unfoldable pub start : Text → Parser
unfolding new
start q = record { l = new q; cur = no_token; peek = no_token; warns = [] }

-- Three rounds more than there are runes are never needed.
unfoldable pub parse :
    {P Time : Type 0}
    → Unicode
    → Clock Time
    → (Text → Option (List P))
    → Text
    → Outcome (CommandNode P Time)
unfolding rune_error start parse_text
parse u clock params q = elim (rune_error 0 q) [
  | some col ↦ Outcome.failed (error_at col Message.not_utf8) []
  | none ↦ parse_text u clock params (length q + 3) (start q)
]
