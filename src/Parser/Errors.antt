-- ===== src/Parser/Errors.antt =====
-- internal/query/parser/parser.go: the builders of errors, which choose the repair that a message
-- names.
use fraise.Prelude.{Bool, true, false, ◌&&◌, ◌||◌, [], ◌∷◌, none, some, if◌then◌else◌}
use fraise.Prelude.Text.{Text, codes}
use fraise.Lexer.Token.{
  Unicode, lower, TokenType, Token, type_eq, keyword, is_keyword, is_command, is_prefix,
  is_mis_cased_keyword, describe_token,
}
use fraise.Lexer.Grammar.{quote}
use fraise.Containers.Time.{Clock, TimeValue, TimeResult, parse_time_value}
use fraise.Parser.Message.{Message, Error, error_at}

-- `KeywordsMap[s]`, the zero type for a word that is not in it.
unfoldable pub keyword_type : Text → TokenType
unfolding keyword
keyword_type s = elim (keyword s) [ some t ↦ t | none ↦ TokenType.illegal ]

unfoldable pub is_relative : {Time : Type 0} → TimeValue Time → Bool
is_relative (TimeValue.relative dur) = true
is_relative _ = false

unfoldable pub reads_duration : {Time : Type 0} → TimeResult Time → Bool
unfolding is_relative
reads_duration (TimeResult.ok t) = is_relative t
reads_duration (TimeResult.err e) = false

module _ (u : Unicode) where
  unfoldable pub clause_placeholder : Token → Text
  unfolding keyword_type type_eq
  clause_placeholder key =
      if type_eq (keyword_type (lower u key.literal)) TokenType.vec
      then codes "$<name>"
      else codes "<value>"

  unfoldable pub err_keyword_as_clause : Token → Error
  unfolding is_command is_prefix clause_placeholder describe_token
  err_keyword_as_clause tok = error_at tok.pos (
      if is_command tok.type
      then Message.second_command_word (describe_token tok) tok.literal
      else if is_prefix tok.type
      then Message.prefix_word (describe_token tok) tok.literal
      else Message.keyword_as_clause (describe_token tok) (lower u tok.literal)
          (clause_placeholder tok) tok.literal)

  -- The last cases of `errUnexpected`, which the type of the token does not decide alone.
  unfoldable pub err_other : Token → Error
  unfolding err_keyword_as_clause is_command is_keyword is_mis_cased_keyword clause_placeholder
      describe_token
  err_other tok =
      if is_command tok.type
      then error_at tok.pos (Message.second_command (describe_token tok))
      else if is_keyword tok.type
      then err_keyword_as_clause tok
      else if is_mis_cased_keyword u tok
      then error_at tok.pos
          (Message.mis_cased_keyword tok.literal (lower u tok.literal) (clause_placeholder tok))
      else error_at tok.pos (Message.unexpected (describe_token tok))

  unfoldable pub err_unexpected : Token → Error
  unfolding err_other describe_token
  err_unexpected tok =
      let at = error_at tok.pos in
      let found = describe_token tok in
      elim (tok.type) [
        | TokenType.illegal ↦ at Message.unterminated_phrase
        | TokenType.lparen ↦ at (Message.no_grouping found)
        | TokenType.rparen ↦ at (Message.no_grouping found)
        | TokenType.nul ↦ at Message.bare_nul
        | TokenType.special ↦ at (Message.quoted_only found)
        | TokenType.plus ↦ at (Message.quoted_only found)
        | TokenType.tilde ↦ at (Message.quoted_only found)
        | TokenType.minus ↦ at (Message.quoted_only found)
        | TokenType.newline ↦ at (Message.unexpected_line found)
        | TokenType.colon ↦ at (Message.stray_colon found)
        | _ ↦ err_other tok
      ]

  unfoldable pub err_keyword_as_term : Token → Text → Error
  unfolding is_command is_prefix
  err_keyword_as_term tok value = error_at tok.pos (
      if is_command tok.type
      then Message.term_is_command tok.literal
      else if is_prefix tok.type
      then Message.term_is_prefix tok.literal
      else Message.term_is_keyword tok.literal (lower u tok.literal) value)

  unfoldable pub err_missing_colon : Token → Text → Error
  unfolding describe_token
  err_missing_colon key value =
      error_at key.pos (Message.missing_colon (describe_token key) (lower u key.literal) value)

  unfoldable pub err_recall_clause_on_write : Token → Error
  err_recall_clause_on_write tok =
      error_at tok.pos (Message.recall_clause_on_write (lower u tok.literal))

  unfoldable pub err_duplicate : Token → Error
  err_duplicate tok = error_at tok.pos (Message.duplicate_clause (lower u tok.literal))

  -- A phrase as the value of a clause of the type `kind`.
  unfoldable pub phrase_value : {Time : Type 0} → Clock Time → TokenType → Text → Text
  unfolding parse_time_value reads_duration type_eq
  phrase_value clock kind s =
      if (type_eq kind TokenType.since || type_eq kind TokenType.until)
        && reads_duration (parse_time_value clock s)
      then s
      else quote s

  unfoldable pub clause_value : {Time : Type 0} → Clock Time → Token → Token → Text
  unfolding keyword_type clause_placeholder type_eq phrase_value
  clause_value clock key tok =
      let kind = keyword_type (lower u key.literal) in
      if type_eq kind TokenType.vec then clause_placeholder key else elim (tok.type) [
        | TokenType.literal ↦ tok.literal
        | TokenType.phrase ↦ phrase_value clock kind tok.literal
        | _ ↦ clause_placeholder key
      ]

  -- `strings.TrimSpace(value) != ""` fails
  unfoldable pub is_empty_value : Text → Bool
  is_empty_value [] = true
  is_empty_value (c ∷ s) = u.is_space c && is_empty_value s
