-- ===== src/Lexer/Grammar.antt =====
-- The tokens that a text may begin with, told apart by the text alone; the lexer is proved against
-- this in `Lexer/Next`.
use fraise.Prelude.{
  ℕ, ◌≡◌, ◌≢◌, Bool, true, false, ◌||◌, [], ◌∷◌, ◌++◌, none, some, ◌==◌, if◌then◌else◌,
}
use fraise.Prelude.Text.{Text, all}
use fraise.Lexer.Token.{Unicode, lower, TokenType, Token, keyword}
use fraise.Lexer.Scan.{Lexer, next, symbol, is_blank, is_word_character}
use fraise.Lexer.Cursor.{rest, Moved}
use fraise.Lexer.Loops.{starts, double, is_quote}

-- A phrase as the source spells it: `quote` of internal/query/parser/ast.go.
abbrev pub quote : Text → Text
quote s = b'\'' ∷ (double s ++ b'\'' ∷ [])

abbrev pub is_colon : ℕ → Bool
is_colon c = c == b':'

is_symbol : ℕ → Bool
is_symbol c = elim (symbol c) [ some _ ↦ true | none ↦ false ]

-- A rune that no word starts with, whatever the tables say.
unfoldable pub is_syntax : ℕ → Bool
unfolding is_symbol symbol is_blank
is_syntax c = is_symbol c || is_quote c || is_blank c || c == 0

-- The type of the bare word `w` in front of `r`.
unfoldable pub word_kind : Unicode → Text → Text → TokenType
word_kind u w r = elim (keyword w) [
  | some t ↦ t
  | none ↦ elim (keyword (lower u w)) [
    | some t ↦ if starts is_colon r then t else TokenType.literal
    | none ↦ TokenType.literal
  ]
]

-- A token of type `t` with literal `s` is spelled `w` in front of `r`.
pub data Lexes (u : Unicode) (t : TokenType) (s w r : Text) : Type 0 where
  symbol_rune : (c : ℕ) → symbol c ≡ some t → w ≡ c ∷ [] → s ≡ w → Lexes u t s w r
  blanks :
      t ≡ TokenType.whitespace
      → w ≢ []
      → all is_blank w ≡ true
      → starts is_blank r ≡ false
      → s ≡ w
      → Lexes u t s w r
  closed_phrase : t ≡ TokenType.phrase → w ≡ quote s → starts is_quote r ≡ false → Lexes u t s w r
  open_phrase : t ≡ TokenType.illegal → w ≡ b'\'' ∷ double s → r ≡ [] → Lexes u t s w r
  nul_rune : t ≡ TokenType.nul → w ≡ 0 ∷ [] → s ≡ w → Lexes u t s w r
  bare_word :
      w ≢ []
      → starts is_syntax w ≡ false
      → all (is_word_character u) w ≡ true
      → starts (is_word_character u) r ≡ false
      → t ≡ word_kind u w r
      → s ≡ w
      → Lexes u t s w r
  special_rune :
      (c : ℕ)
      → t ≡ TokenType.special
      → is_syntax c ≡ false
      → is_word_character u c ≡ false
      → w ≡ c ∷ []
      → s ≡ w
      → Lexes u t s w r
  end : t ≡ TokenType.eol → w ≡ [] → r ≡ [] → s ≡ [] → Lexes u t s w r

-- What a call of `Next` returns, and the text that it consumed.
pub record Returned (u : Unicode) (l : Lexer) : Type 0 where
  pub token : Token
  pub after : Lexer
  pub spelling : Text
  pub left : Text
  pub returns : next u l ≡ some (token, after)
  pub parts : rest l ≡ spelling ++ left
  pub moved : Moved l after spelling left
  pub position : token.pos ≡ after.current_pos
  pub lexes : Lexes u token.type token.literal spelling left
