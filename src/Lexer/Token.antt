-- ===== src/Lexer/Token.antt =====
-- internal/query/lexer/token.go: the token types, the reserved words and the predicates on them.
use fraise.Prelude.{
  ℕ, ◌↔◌, ◌≡◌, Bool, true, false, List, [], ◌∷◌, map, Option, none, some, ◌==◌, if◌then◌else◌,
  arith,
}
use fraise.Prelude.Text.{Text, codes, text_eq}
use Prim.Native.String.{String}

-- Go's `unicode` package, which is not part of the repository: `is_symbol_other` is the category So.
-- `strings.ToLower` maps `to_lower` over the runes.
pub record Unicode : Type 0 where
  pub is_letter : ℕ → Bool
  pub is_digit : ℕ → Bool
  pub is_symbol_other : ℕ → Bool
  pub is_space : ℕ → Bool
  pub to_lower : ℕ → ℕ

-- Documented facts about the tables: the rune 0 is a control character.
pub record IsStandard (u : Unicode) : Type 0 where
  pub nul_letter : u.is_letter 0 ≡ false
  pub nul_digit : u.is_digit 0 ≡ false

abbrev pub lower : Unicode → Text → Text
lower u = map u.to_lower

pub data TokenType : Type 0 where
  illegal literal phrase : TokenType
  describe explain : TokenType
  recall remember forget update : TokenType
  plus tilde minus : TokenType
  lparen rparen : TokenType
  at colon dollar : TokenType
  whitespace nul special : TokenType
  eol newline : TokenType
  topic entity since until top depth : TokenType
  vec : TokenType

-- The value that `iota` gives each constant.
unfoldable pub value : TokenType → ℕ
value TokenType.illegal = 0
value TokenType.literal = 1
value TokenType.phrase = 2
value TokenType.describe = 3
value TokenType.explain = 4
value TokenType.recall = 5
value TokenType.remember = 6
value TokenType.forget = 7
value TokenType.update = 8
value TokenType.plus = 9
value TokenType.tilde = 10
value TokenType.minus = 11
value TokenType.lparen = 12
value TokenType.rparen = 13
value TokenType.at = 14
value TokenType.colon = 15
value TokenType.dollar = 16
value TokenType.whitespace = 17
value TokenType.nul = 18
value TokenType.special = 19
value TokenType.eol = 20
value TokenType.newline = 21
value TokenType.topic = 22
value TokenType.entity = 23
value TokenType.since = 24
value TokenType.until = 25
value TokenType.top = 26
value TokenType.depth = 27
value TokenType.vec = 28

-- `a == b` on token types
unfoldable pub type_eq : TokenType → TokenType → Bool
unfolding value
type_eq a b = value a == value b

-- A column: runes, counted from 1 at the last rune of a token.
abbrev pub Position : Type 0
Position = ℕ

pub record Token : Type 0 where
  pub type : TokenType
  pub literal : Text
  pub pos : Position

abbrev word : String → TokenType → Text × TokenType
word s t = (codes s, t)

abbrev pub keywords_map : List (Text × TokenType)
keywords_map =
    word "recall" TokenType.recall
    ∷ word "remember" TokenType.remember
    ∷ word "forget" TokenType.forget
    ∷ word "update" TokenType.update
    ∷ word "explain" TokenType.explain
    ∷ word "describe" TokenType.describe
    ∷ word "topic" TokenType.topic
    ∷ word "entity" TokenType.entity
    ∷ word "since" TokenType.since
    ∷ word "until" TokenType.until
    ∷ word "top" TokenType.top
    ∷ word "depth" TokenType.depth
    ∷ word "vec" TokenType.vec
    ∷ []

lookup : Text → List (Text × TokenType) → Option TokenType
lookup s [] = none
lookup s ((w, t) ∷ m) = if text_eq s w then some t else lookup s m

-- `t, ok := KeywordsMap[s]`
unfoldable pub keyword : Text → Option TokenType
unfolding lookup text_eq
keyword s = lookup s keywords_map

-- `String`: the spelling of a token type in messages; `ILLEGAL` is missing from the map.
unfoldable pub token_map : TokenType → Text
token_map TokenType.describe = codes "describe"
token_map TokenType.explain = codes "explain"
token_map TokenType.recall = codes "recall"
token_map TokenType.remember = codes "remember"
token_map TokenType.forget = codes "forget"
token_map TokenType.update = codes "update"
token_map TokenType.colon = codes ":"
token_map TokenType.lparen = codes "("
token_map TokenType.rparen = codes ")"
token_map TokenType.dollar = codes "$"
token_map TokenType.phrase = codes "phrase"
token_map TokenType.newline = b'\n' ∷ []
token_map TokenType.nul = 0 ∷ []
token_map TokenType.plus = codes "+"
token_map TokenType.tilde = codes "~"
token_map TokenType.minus = codes "-"
token_map TokenType.topic = codes "topic"
token_map TokenType.entity = codes "entity"
token_map TokenType.since = codes "since"
token_map TokenType.until = codes "until"
token_map TokenType.top = codes "top"
token_map TokenType.depth = codes "depth"
token_map TokenType.literal = codes "literal"
token_map TokenType.vec = codes "vec"
token_map TokenType.eol = codes "eol"
token_map TokenType.at = codes "@"
token_map TokenType.whitespace = codes "whitespace"
token_map TokenType.special = codes "special"
token_map TokenType.illegal = []

unfoldable pub is_keyword : TokenType → Bool
is_keyword TokenType.recall = true
is_keyword TokenType.remember = true
is_keyword TokenType.forget = true
is_keyword TokenType.update = true
is_keyword TokenType.topic = true
is_keyword TokenType.entity = true
is_keyword TokenType.since = true
is_keyword TokenType.until = true
is_keyword TokenType.top = true
is_keyword TokenType.depth = true
is_keyword TokenType.vec = true
is_keyword TokenType.explain = true
is_keyword TokenType.describe = true
is_keyword _ = false

unfoldable pub is_command : TokenType → Bool
is_command TokenType.recall = true
is_command TokenType.remember = true
is_command TokenType.forget = true
is_command TokenType.update = true
is_command _ = false

unfoldable pub is_prefix : TokenType → Bool
is_prefix TokenType.explain = true
is_prefix TokenType.describe = true
is_prefix _ = false

unfoldable pub is_blank_type : TokenType → Bool
is_blank_type TokenType.whitespace = true
is_blank_type TokenType.nul = true
is_blank_type _ = false

unfoldable pub is_end_of_line : TokenType → Bool
is_end_of_line TokenType.eol = true
is_end_of_line TokenType.newline = true
is_end_of_line _ = false

unfoldable pub is_separator : TokenType → Bool
is_separator TokenType.at = true
is_separator TokenType.colon = true
is_separator TokenType.dollar = true
is_separator _ = false

-- `Token.Describe`: the end of the input and a newline are named, the rest is quoted text.
pub data Description : Type 0 where
  end_of_input a_new_line : Description
  quoted : Text → Description

unfoldable pub describe_token : Token → Description
describe_token t = elim (t.type) [
  | TokenType.eol ↦ Description.end_of_input
  | TokenType.newline ↦ Description.a_new_line
  | _ ↦ Description.quoted t.literal
]

is_some : Option TokenType → Bool
is_some none = false
is_some (some t) = true

unfoldable pub is_mis_cased_keyword : Unicode → Token → Bool
unfolding type_eq keyword is_some
is_mis_cased_keyword u t =
    if type_eq t.type TokenType.literal then is_some (keyword (lower u t.literal)) else false

abbrev AllKeywords : List (Text × TokenType) → Type 0
AllKeywords [] = Unit
AllKeywords ((w, k) ∷ m) = (is_keyword k ≡ true) × AllKeywords m

lookup-is_keyword :
    (s : Text) (t : TokenType) (m : List (Text × TokenType))
    → AllKeywords m
    → lookup s m ≡ some t
    → is_keyword t ≡ true
unfolding lookup
lookup-is_keyword s t [] a h = cc
lookup-is_keyword s t ((w, k) ∷ m) a h = ground (arith, lookup-is_keyword s t m)

-- Every type that the spelling of a bare word can have is a keyword's.
pub keyword-is_keyword : (s : Text) (t : TokenType) → keyword s ≡ some t → is_keyword t ≡ true
unfolding keyword is_keyword
keyword-is_keyword s t h = lookup-is_keyword s t keywords_map (ground arith) h

pub type_eq_iff : (a b : TokenType) → (type_eq a b ≡ true) ↔ (a ≡ b)
unfolding type_eq
type_eq_iff TokenType.illegal b = ground arith
type_eq_iff _ b = ground arith
