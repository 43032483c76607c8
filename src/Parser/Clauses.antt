-- ===== src/Parser/Clauses.antt =====
-- internal/query/parser/parser.go: the productions below a command, from the separator to a clause.
use fraise.Prelude.{ℕ, ◌^◌, ◌-◌, Bool, true, false, not, ◌&&◌, ◌||◌, List, Option, if◌then◌else◌}
use fraise.Prelude.Text.{Text}
use fraise.Prelude.Decimal.{ℤ, int_ltb}
use fraise.Lexer.Token.{
  Unicode, lower, TokenType, Token, Position, type_eq, is_blank_type, is_end_of_line,
  describe_token,
}
use fraise.Containers.Time.{Clock, TimeValue, TimeResult, TimeError, parse_time_value}
use fraise.Parser.Ast.{PhraseNode, NameFieldNode, VecFieldNode}
use fraise.Parser.Message.{Message, Role, Error, error_at}
use fraise.Parser.Number.{IntParsed, atoi, uint8}
use fraise.Parser.Machine.{
  Parser, M, ◌>>=◌, ◌>>◌, pure, fail, fail_if, window, take, expect, expect_or, is_value,
}
use fraise.Parser.Errors.{
  is_relative, err_unexpected, err_keyword_as_clause, err_missing_colon, clause_value,
  is_empty_value,
}

module _ (u : Unicode) where
  -- `errEmpty`, which the callers return at once.
  unfoldable pub refuse_empty : Role → Text → Position → M (Unit {0})
  unfolding is_empty_value
  refuse_empty role value pos =
      fail_if (is_empty_value u value) (error_at pos (Message.must_not_be_empty role))

  module _ {Time : Type 0} (clock : Clock Time) where
    -- What stands after a keyword and a blank.
    unfoldable pub err_blank_separator : Token → Token → Token → Error
    unfolding err_keyword_as_clause err_missing_colon clause_value
    err_blank_separator key blank after = elim (after.type) [
      | TokenType.colon ↦ error_at blank.pos Message.space_before_colon
      | TokenType.eol ↦ err_keyword_as_clause u key
      | TokenType.newline ↦ err_keyword_as_clause u key
      | _ ↦ err_missing_colon u key (clause_value u clock key after)
    ]

    -- What stands in place of the `:`.
    unfoldable pub err_separator : Token → Token → Error
    unfolding is_end_of_line err_keyword_as_clause err_missing_colon clause_value
    err_separator key found =
        if is_end_of_line found.type
        then err_keyword_as_clause u key
        else err_missing_colon u key (clause_value u clock key found)

    unfoldable pub parse_separator : Token → M (Unit {0})
    unfolding type_eq err_blank_separator expect_or err_separator
    parse_separator key = do
      p ← window
      fail_if (type_eq p.cur.type TokenType.whitespace) (err_blank_separator key p.cur p.peek)
      expect_or u TokenType.colon (err_separator key)
      q ← window
      fail_if (type_eq q.cur.type TokenType.whitespace)
          (error_at q.cur.pos Message.space_after_colon)

    -- What a value slot makes of the number that `strconv.Atoi` read.
    unfoldable pub int_value : Token → Token → IntParsed → M ℤ
    unfolding describe_token
    int_value key tok (IntParsed.value i) = pure i
    int_value key tok IntParsed.range_error =
        fail
          (error_at tok.pos (Message.int_out_of_range (lower u key.literal) (describe_token tok)))
    int_value key tok IntParsed.syntax_error =
        fail
          (error_at tok.pos (Message.not_whole_number (lower u key.literal) (describe_token tok)))

    unfoldable pub parse_int_field : M (Token × ℤ)
    unfolding take parse_separator type_eq err_unexpected int_value atoi
    parse_int_field = do
      key ← take u
      parse_separator key
      tok ← take u
      fail_if (type_eq tok.type TokenType.illegal) (err_unexpected u tok)
      i ← int_value key tok (atoi tok.literal)
      pure (key, i)

    -- What a value slot makes of the time that `ParseTimeValue` read.
    unfoldable pub time_value : Token → Token → TimeResult Time → M (TimeValue Time)
    unfolding describe_token is_relative type_eq
    time_value key tok (TimeResult.ok t) = do
      fail_if (is_relative t && type_eq tok.type TokenType.phrase) (
          error_at tok.pos
            (Message.quoted_duration (lower u key.literal) (describe_token tok) tok.literal))
      pure t
    time_value key tok (TimeResult.err (TimeError.duration_range s max unit)) = fail (
        error_at tok.pos
          (Message.time_out_of_range (lower u key.literal) (describe_token tok) max unit))
    time_value key tok (TimeResult.err _) =
        fail (error_at tok.pos (Message.not_time (lower u key.literal) (describe_token tok)))

    unfoldable pub parse_time_field : M (Token × Token × TimeValue Time)
    unfolding take parse_separator type_eq err_unexpected time_value parse_time_value
    parse_time_field = do
      key ← take u
      parse_separator key
      tok ← take u
      fail_if (type_eq tok.type TokenType.illegal) (err_unexpected u tok)
      t ← time_value key tok (parse_time_value clock tok.literal)
      pure (key, tok, t)

    -- The types that `parseValue` gives the diagnosis of `errUnexpected`.
    unfoldable pub err_not_value : Token → Error
    unfolding err_unexpected describe_token
    err_not_value tok = elim (tok.type) [
      | TokenType.illegal ↦ err_unexpected u tok
      | TokenType.lparen ↦ err_unexpected u tok
      | TokenType.rparen ↦ err_unexpected u tok
      | TokenType.newline ↦ err_unexpected u tok
      | TokenType.nul ↦ err_unexpected u tok
      | TokenType.special ↦ err_unexpected u tok
      | TokenType.plus ↦ err_unexpected u tok
      | TokenType.tilde ↦ err_unexpected u tok
      | TokenType.minus ↦ err_unexpected u tok
      | _ ↦ error_at tok.pos (Message.expected_word (describe_token tok))
    ]

    unfoldable pub parse_value : M Token
    unfolding is_value take err_not_value
    parse_value = do p ← window; fail_if (not (is_value p)) (err_not_value p.cur); take u

    unfoldable pub parse_anchor_field : M NameFieldNode
    unfolding take parse_separator parse_value refuse_empty
    parse_anchor_field = do
      key ← take u
      parse_separator key
      tok ← parse_value
      refuse_empty Role.anchor_value tok.literal tok.pos
      pure (record { key = key; token = tok; value = lower u tok.literal; pos = 0; end = 0 })

    unfoldable pub parse_vec_field : {P : Type 0} → (Text → Option (List P)) → M (VecFieldNode P)
    unfolding take parse_separator expect_or expect type_eq describe_token
    parse_vec_field params = do
      key ← take u
      parse_separator key
      expect_or u TokenType.dollar
          (λ tok. error_at tok.pos (Message.expected_dollar (describe_token tok)))
      p ← window
      fail_if (type_eq p.cur.type TokenType.whitespace)
          (error_at p.cur.pos Message.space_after_dollar)
      tok ← expect u TokenType.literal
      pure (record { key = key; param = tok; value = params tok.literal; pos = 0; end = 0 })

  -- The selector's number, which `strconv.Atoi` read.
  unfoldable pub selector_value : Token → IntParsed → M ℕ
  unfolding uint8 int_ltb describe_token
  selector_value tok (IntParsed.value i) = do
    fail_if (int_ltb i (ℤ.pos 0) || int_ltb (ℤ.pos (2 ^ 8 - 1)) i)
        (error_at tok.pos (Message.selector_out_of_range i (2 ^ 8 - 1)))
    pure (uint8 i)
  selector_value tok _ = fail (error_at tok.pos (Message.not_selector (describe_token tok)))

  -- A blank and a number behind the `@`.
  unfoldable pub is_spaced_selector : Parser → Bool
  unfolding type_eq atoi
  is_spaced_selector p =
      type_eq p.cur.type TokenType.whitespace
      && (type_eq p.peek.type TokenType.literal
          && elim (atoi p.peek.literal) [ IntParsed.value i ↦ true | _ ↦ false ])

  unfoldable pub parse_graph_selector : M (Token × ℕ)
  unfolding take is_spaced_selector selector_value atoi
  parse_graph_selector = do
    key ← take u
    p ← window
    fail_if (is_spaced_selector p) (error_at p.cur.pos Message.space_after_at)
    tok ← take u
    i ← selector_value tok (atoi tok.literal)
    pure (key, i)

  unfoldable pub parse_phrase : M PhraseNode
  unfolding type_eq err_unexpected expect_or refuse_empty is_blank_type is_end_of_line
      describe_token
  parse_phrase = do
    p ← window
    fail_if (type_eq p.cur.type TokenType.illegal) (error_at p.cur.pos Message.unterminated_phrase)
    fail_if (type_eq p.cur.type TokenType.nul) (err_unexpected u p.cur)
    tok ←
        expect_or u TokenType.phrase
          (λ tok. error_at tok.pos (Message.expected_phrase (describe_token tok)))
    refuse_empty Role.remembered_fact tok.literal tok.pos
    q ← window
    fail_if (not (is_blank_type q.cur.type) && not (is_end_of_line q.cur.type))
        (error_at q.cur.pos (Message.expected_whitespace (describe_token q.cur)))
    pure (record { value = tok.literal; pos = tok.pos; end = 0 })
