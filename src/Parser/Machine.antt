-- ===== src/Parser/Machine.antt =====
-- internal/query/parser/parser.go: the parser's state, the two-token window, and what a production
-- does: it returns a value, or it ends the parse with an error.
use fraise.Prelude.{
  Bool, true, false, not, ◌&&◌, ◌||◌, List, [], ◌∷◌, ◌++◌, none, some, if◌then◌else◌,
}
use fraise.Lexer.Token.{Unicode, TokenType, Token, type_eq, is_keyword, describe_token}
use fraise.Lexer.Scan.{Lexer}
use fraise.Lexer.Scan as Scan
use fraise.Parser.Message.{Message, Error, Warning, error_at}

-- The vectors in `params` never change, and are an argument of the productions.
pub record Parser : Type 0 where
  pub l : Lexer
  pub cur : Token
  pub peek : Token
  pub warns : List Warning

-- A parse that ends in an error keeps the warnings up to there. `stuck` is a loop out of fuel.
pub data Outcome (A : Type 0) : Type 0 where
  done : A → Parser → Outcome A
  failed : Error → List Warning → Outcome A
  stuck : Outcome A

abbrev pub M : Type 0 → Type 0
M A = Parser → Outcome A

infixl 5 ◌>>=◌ ◌>>◌
unfoldable pub ◌>>=◌ : {A B : Type 0} → M A → (A → M B) → M B
◌>>=◌ m f p = elim (m p) [ done a p' ↦ f a p' | failed e ws ↦ failed e ws | stuck ↦ stuck ]

abbrev pub ◌>>◌ : {A B : Type 0} → M A → M B → M B
m >> k = m >>= λ _. k

module _ {A : Type 0} where
  abbrev pub pure : A → M A
  pure a p = done a p

  abbrev pub gets : (Parser → A) → M A
  gets f p = done (f p) p

  abbrev pub fail : Error → M A
  fail e p = failed e p.warns

  abbrev pub out_of_fuel : M A
  out_of_fuel p = stuck

unfoldable pub fail_if : Bool → Error → M (Unit {0})
fail_if c e = if c then fail e else pure tt

unfoldable pub warn : Warning → M (Unit {0})
warn w p = done tt (record p { warns = p.warns ++ w ∷ [] })

-- The window as it stands.
abbrev pub window : M Parser
window p = done p p

module _ (u : Unicode) where
  unfoldable pub next : M (Unit {0})
  next p = elim (Scan.next u p.l) [
    | none ↦ stuck
    | some (t, l') ↦ done tt (record p { l = l'; cur = p.peek; peek = t })
  ]

  unfoldable pub take : M Token
  unfolding next
  take p = (do next; pure p.cur) p

  -- `expect`, with the error that its caller makes of a token of another type.
  unfoldable pub expect_or : TokenType → (Token → Error) → M Token
  unfolding take type_eq
  expect_or t err p = if type_eq p.cur.type t then take p else failed (err p.cur) p.warns

  unfoldable pub expect : TokenType → M Token
  unfolding expect_or describe_token
  expect t = expect_or t (λ tok. error_at tok.pos (Message.expected_type t (describe_token tok)))

unfoldable pub after_blank : Parser → Token
unfolding type_eq
after_blank p = if type_eq p.cur.type TokenType.whitespace then p.peek else p.cur

unfoldable pub is_at_end : Parser → Bool
unfolding type_eq
is_at_end p = type_eq p.cur.type TokenType.eol || type_eq p.cur.type TokenType.newline

unfoldable pub is_value : Parser → Bool
unfolding type_eq is_keyword
is_value p =
    if type_eq p.cur.type TokenType.literal || type_eq p.cur.type TokenType.phrase
    then true
    else if is_keyword p.cur.type
    then not (type_eq p.peek.type TokenType.colon)
    else false

unfoldable pub is_dangling_keyword : Parser → Bool
unfolding is_keyword type_eq
is_dangling_keyword p =
    is_keyword p.cur.type
    && (type_eq p.peek.type TokenType.eol || type_eq p.peek.type TokenType.newline)
