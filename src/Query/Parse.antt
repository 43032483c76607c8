-- ===== src/Query/Parse.antt =====
-- internal/query/query.go: `Parse`, which reads a text, and makes a query of the command.
use fraise.Prelude.{List, Option}
use fraise.Prelude.Text.{Text}
use fraise.Lexer.Token.{Unicode}
use fraise.Containers.Time.{Clock}
use fraise.Parser.Ast.{CommandNode}
use fraise.Parser.Message.{Error, Warning}
use fraise.Parser.Machine.{Outcome}
use fraise.Parser.Entry.{parse}
use fraise.Query.Command.{Query}
use fraise.Query.Build.{Limits, QueryError, Built, build}

-- `unfinished` is a parse that ran out of fuel.
pub data Answer (A : Type 0) : Type 0 where
  answer : A → List Warning → Answer A
  parse_failed : Error → Answer A
  query_failed : QueryError → Answer A
  unfinished : Answer A

-- The warnings are dropped where the command is refused.
unfoldable pub with_warnings : {A : Type 0} → List Warning → Built A → Answer A
with_warnings ws (Built.ok q) = Answer.answer q ws
with_warnings ws (Built.err e) = Answer.query_failed e

-- What becomes of a parse.
unfoldable pub answer_of :
    {P Time : Type 0} → Limits → Outcome (CommandNode P Time) → Answer (Query P Time)
unfolding with_warnings build
answer_of c (Outcome.done cmd p) = with_warnings p.warns (build c cmd)
answer_of c (Outcome.failed e ws) = Answer.parse_failed e
answer_of c Outcome.stuck = Answer.unfinished

unfoldable pub parse_into :
    {P Time : Type 0}
    → Unicode
    → Clock Time
    → (Text → Option (List P))
    → Limits
    → Text
    → Answer (Query P Time)
unfolding parse answer_of
parse_into u clock params c q = answer_of c (parse u clock params q)
