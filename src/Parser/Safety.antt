-- ===== src/Parser/Safety.antt =====
-- What every production of the parser keeps, and that it ends: the window stands on tokens of the
-- query, and no production leaves more to read than there was.
pub mod Steps
pub mod Clauses
pub mod Head
pub mod Loops
pub mod Commands
pub mod Finish
pub mod Entry
use fraise.Prelude.{ℕ, ◌+◌, ◌≤◌, ◌≡◌, List, [], ◌∷◌, length, if◌then◌else◌}
use fraise.Prelude.Text.{Text}
use fraise.Parser.Written.{At}
use fraise.Lexer.Token.{Unicode, TokenType, type_eq}
use fraise.Lexer.Cursor.{IsValid, rest}
use fraise.Parser.Message.{Error, Warning}
use fraise.Parser.Machine.{Parser, Outcome, M}

abbrev pub weight : TokenType → ℕ
weight t = if type_eq t TokenType.eol then 0 else 1

-- The tokens that a parser can still move past, those of the window included.
abbrev pub remaining : Parser → ℕ
remaining p = length (rest p.l) + weight p.cur.type + weight p.peek.type

abbrev pub AllWithin : ℕ → List Warning → Type 0
AllWithin N [] = Unit
AllWithin N (w ∷ ws) = (w.pos ≤ N) × AllWithin N ws

-- A parser in the query, its window on two tokens that follow each other.
pub record Ready (u : Unicode) (text : Text) (p : Parser) : Type 0 where
  pub valid : IsValid p.l
  pub size : length p.l.input ≡ length text
  pub cur_within : p.cur.pos ≤ length text
  pub peek_within : p.peek.pos ≤ length text
  pub warns_within : AllWithin (length text) p.warns
  pub placed : (i : ℕ) × At u text i p

-- A production ended, within the query and with at most `n` left, and not for want of fuel. `Q`
-- holds of what it returned.
pub data Ends {A : Type 0} (u : Unicode) (text : Text) (n : ℕ) (Q : A → Parser → Type 0)
    : Outcome A → Type 0 where
  returned :
      {a : A} {p : Parser}
      → Ready u text p
      → remaining p ≤ n
      → Q a p
      → Ends u text n Q (Outcome.done a p)
  refused :
      {e : Error} {ws : List Warning}
      → e.pos ≤ length text
      → AllWithin (length text) ws
      → Ends u text n Q (Outcome.failed e ws)

-- From every state with at most `n` left, the production ends with at most `n` left.
abbrev pub Fine : {A : Type 0} → Unicode → Text → (A → Parser → Type 0) → M A → Type 0
Fine u text Q m = (n : ℕ) (p : Parser) → Ready u text p → remaining p ≤ n → Ends u text n Q (m p)
