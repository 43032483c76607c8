-- ===== src/Lexer/Scan.antt =====
-- internal/query/lexer/lexer.go: the `Lexer` and its scanning methods. A loop takes fuel and gives
-- `none` without it.
use fraise.Prelude.{
  ℕ, zero, suc, ◌+◌, Bool, ◌||◌, [], ◌∷◌, ◌++◌, Option, none, some, ◌==◌, leb, ltb, if◌then◌else◌,
  length, get_or,
}
use fraise.Prelude.Text.{Text}
use fraise.Lexer.Token.{Unicode, lower, TokenType, Position, Token, keyword}

pub record Lexer : Type 0 where
  pub input : Text
  pub character : ℕ
  pub current_pos : Position
  pub next_pos : Position

-- The rune at the current position, or 0 past the end.
unfoldable pub peek : Lexer → ℕ
peek l = if leb (length l.input) l.current_pos then 0 else get_or l.input l.current_pos 0

unfoldable pub read_character : Lexer → Lexer
read_character l = record l {
  character = peek l;
  current_pos = l.next_pos;
  next_pos = l.next_pos + 1;
}

unfoldable pub new : Text → Lexer
new input =
    record (read_character
      (record { input = input; character = 0; current_pos = 0; next_pos = 0 })) {
        current_pos = 0;
        next_pos = 1;
      }

unfoldable pub is_blank : ℕ → Bool
is_blank c = c == b' ' || c == b'\t' || c == b'\r'

unfoldable pub is_word_character : Unicode → ℕ → Bool
is_word_character u c = u.is_letter c || u.is_digit c

-- The loop of `scanWhitespace` and `scanString`: read while the test holds.
unfoldable pub scan_while : (ℕ → Bool) → ℕ → Lexer → Text → Option (Text × Lexer)
scan_while p zero l res = none
scan_while p (suc fuel) l res =
    let more = scan_while p fuel (read_character l) (res ++ peek l ∷ []) in
    if p (peek l) then more else some (res, l)

-- More rounds than there are runes are never needed.
abbrev pub fuel_for : Lexer → ℕ
fuel_for l = length l.input + 1

unfoldable pub scan_whitespace : Lexer → Option (Text × Lexer)
scan_whitespace l = scan_while is_blank (fuel_for l) l []

unfoldable pub scan_string : Unicode → Lexer → Option (Text × Lexer)
scan_string u l = scan_while (is_word_character u) (fuel_for l) l []

-- A token with its position not yet set, and the lexer behind it.
abbrev pub Scanned : Type 0
Scanned = TokenType × Text × Lexer

unfoldable pub scan_phrase_loop : ℕ → Lexer → Text → Option Scanned
scan_phrase_loop zero l res = none
scan_phrase_loop (suc fuel) l res =
    let after = read_character l in
    let doubled = scan_phrase_loop fuel (read_character after) (res ++ b'\'' ∷ []) in
    let inside = scan_phrase_loop fuel after (res ++ peek l ∷ []) in
    if leb (length l.input) l.current_pos
    then some (TokenType.illegal, res, l)
    else if peek l == b'\''
    then if peek after == b'\'' then doubled else some (TokenType.phrase, res, after)
    else inside

unfoldable pub scan_phrase : Lexer → Option Scanned
scan_phrase l = scan_phrase_loop (fuel_for l) (read_character l) []

-- A token of one rune.
unfoldable pub single : TokenType → Lexer → Option Scanned
single t l = let l' = read_character l in some (t, l'.character ∷ [], l')

-- The type of a bare word `w` before the rune `c`: a mis-cased keyword is one before a ':'.
unfoldable pub word_type : Unicode → Text → ℕ → TokenType
word_type u w c = elim (keyword w) [
  | some t ↦ t
  | none ↦
      if c == b':'
      then elim (keyword (lower u w)) [ some t ↦ t | none ↦ TokenType.literal ]
      else TokenType.literal
]

unfoldable pub scan_word : Unicode → Lexer → Option Scanned
scan_word u l = elim (scan_string u l) [
  | none ↦ none
  | some (w, l') ↦ some (word_type u w (peek l'), w, l')
]

unfoldable pub scan_blanks : Lexer → Option Scanned
scan_blanks l = elim (scan_whitespace l) [
  | none ↦ none
  | some (w, l') ↦ some (TokenType.whitespace, w, l')
]

-- The type of a rune that is always a token by itself.
unfoldable pub symbol : ℕ → Option TokenType
symbol c =
    if c == b':'
    then some TokenType.colon
    else if c == b'('
    then some TokenType.lparen
    else if c == b')'
    then some TokenType.rparen
    else if c == b'$'
    then some TokenType.dollar
    else if c == b'+'
    then some TokenType.plus
    else if c == b'-'
    then some TokenType.minus
    else if c == b'~'
    then some TokenType.tilde
    else if c == b'@'
    then some TokenType.at
    else if c == b'\n'
    then some TokenType.newline
    else none

-- The `switch` of `Next` at the rune `c` that `peek` returns.
unfoldable pub scan_at : Unicode → Lexer → ℕ → Option Scanned
scan_at u l c = elim (symbol c) [
  | some t ↦ single t l
  | none ↦
      if c == b'\''
      then scan_phrase l
      else if is_blank c
      then scan_blanks l
      else if c == 0
      then (if ltb l.current_pos (length l.input)
          then single TokenType.nul l
          else some (TokenType.eol, [], l))
      else if is_word_character u c
      then scan_word u l
      else single TokenType.special l
]

unfoldable pub scan : Unicode → Lexer → Option Scanned
scan u l = scan_at u l (peek l)

-- The position of a token is that of its last rune.
unfoldable pub next : Unicode → Lexer → Option (Token × Lexer)
next u l = elim (scan u l) [
  | none ↦ none
  | some (t, s, l') ↦ some (record { type = t; literal = s; pos = l'.current_pos }, l')
]

-- `SkipBlank`, which nothing in the repository calls.
unfoldable pub skip_blank : ℕ → Lexer → Option Lexer
skip_blank zero l = none
skip_blank (suc fuel) l =
    let rest = skip_blank fuel (read_character l) in if is_blank (peek l) then rest else some l
