-- ===== src/Parser/Message.antt =====
-- internal/query/parser/parser.go: the errors and the warnings of a parse. A message is kept as its
-- template and the values that are printed into it; `%s` of a described token is its description.
use fraise.Prelude.{ℕ}
use fraise.Prelude.Text.{Text}
use fraise.Prelude.Decimal.{ℤ}
use fraise.Lexer.Token.{TokenType, Position, Description}

-- What a value that may not be empty is called.
pub data Role : Type 0 where
  search_term remembered_fact anchor_value : Role

pub data Message : Type 0 where
  not_utf8 no_seed bare_nul unterminated_phrase : Message
  space_before_colon space_after_colon space_after_at space_after_dollar : Message
  space_before_at : Text → Message
  unexpected unexpected_after_end unexpected_line : Description → Message
  expected_type : TokenType → Description → Message
  expected_command expected_space expected_phrase expected_whitespace : Description → Message
  expected_word expected_dollar : Description → Message
  no_grouping quoted_only stray_colon : Description → Message
  second_command second_selector : Description → Message
  second_command_word prefix_word : Description → Text → Message
  mis_cased_keyword : Text → Text → Text → Message
  keyword_as_clause : Description → Text → Text → Text → Message
  term_is_command term_is_prefix : Text → Message
  term_is_keyword : Text → Text → Text → Message
  missing_colon : Description → Text → Text → Message
  recall_clause_on_write duplicate_clause : Text → Message
  only_stop_word only_stop_words : Text → Message
  must_not_be_empty : Role → Message
  int_out_of_range not_whole_number not_time : Text → Description → Message
  time_out_of_range : Text → Description → ℕ → ℕ → Message
  quoted_duration : Text → Description → Text → Message
  not_selector : Description → Message
  selector_out_of_range : ℤ → ℕ → Message

pub record Error : Type 0 where
  pub msg : Message
  pub pos : Position

pub data Notice : Type 0 where
  ran_as_clause : Text → Text → Notice
  depth_without_graph anchors_without_depth : Text → Notice
  stop_word : Text → Notice

pub record Warning : Type 0 where
  pub msg : Notice
  pub pos : Position

-- `errf`
abbrev pub error_at : Position → Message → Error
error_at pos msg = record { msg = msg; pos = pos }
