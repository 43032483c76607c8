-- ===== src/Parser/Terms.antt =====
-- internal/query/parser/parser.go: what stands in front of the clauses, the selector and the terms.
use fraise.Prelude.{
  ℕ, zero, suc, Bool, true, false, not, ◌&&◌, ◌||◌, List, [], ◌∷◌, ◌++◌, if◌then◌else◌,
}
use fraise.Prelude.Text.{text_eq}
use fraise.Lexer.Token.{
  Unicode, lower, TokenType, Token, type_eq, is_keyword, is_mis_cased_keyword, describe_token,
}
use fraise.Containers.Time.{Clock}
use fraise.Parser.Ast.{GraphSelectorNode, TermNode}
use fraise.Parser.Message.{Message, Role, Notice, error_at}
use fraise.Parser.Machine.{
  Outcome, M, ◌>>=◌, ◌>>◌, pure, fail, fail_if, warn, window, next, take, expect_or, after_blank,
  is_at_end, is_value,
}
use fraise.Parser.Errors.{err_unexpected, err_keyword_as_term, clause_value}
use fraise.Parser.Clauses.{refuse_empty, parse_graph_selector}

-- Go's zero values
abbrev pub no_token : Token
no_token = record { type = TokenType.illegal; literal = []; pos = 0 }

abbrev pub no_selector : GraphSelectorNode
no_selector = record { key = no_token; value = 0; pos = 0; end = 0 }

module _ (u : Unicode) where
  unfoldable pub optional_selector : Bool → M GraphSelectorNode
  unfolding parse_graph_selector type_eq describe_token
  optional_selector false = pure no_selector
  optional_selector true = do
    (key, value) ← parse_graph_selector u
    p ← window
    fail_if (type_eq p.cur.type TokenType.at)
        (error_at p.cur.pos (Message.second_selector (describe_token p.cur)))
    pure (record { key = key; value = value; pos = 0; end = 0 })

  unfoldable pub parse_selector : Token → M GraphSelectorNode
  unfolding optional_selector expect_or type_eq describe_token
  parse_selector cmd = do
    p ← window
    selector ← optional_selector (type_eq p.cur.type TokenType.at)
    expect_or u TokenType.whitespace
        (λ tok. error_at tok.pos (Message.expected_space (describe_token tok)))
    q ← window
    fail_if (type_eq q.cur.type TokenType.at)
        (error_at q.cur.pos (Message.space_before_at cmd.literal))
    pure selector

  unfoldable pub warn_mis_cased_keyword : Token → M (Unit {0})
  unfolding is_keyword text_eq
  warn_mis_cased_keyword tok =
      if not (is_keyword tok.type) || text_eq tok.literal (lower u tok.literal)
      then pure tt
      else warn
          (record { msg = Notice.ran_as_clause tok.literal (lower u tok.literal); pos = tok.pos })

  module _ {Time : Type 0} (clock : Clock Time) where
    -- A reserved word in the terms, which is refused.
    unfoldable pub parse_keyword_term : M (Unit {0})
    unfolding take type_eq err_keyword_as_term clause_value after_blank
    parse_keyword_term = do
      key ← take u
      p ← window
      fail_if (type_eq p.cur.type TokenType.whitespace && type_eq p.peek.type TokenType.colon)
          (error_at p.cur.pos Message.space_before_colon)
      fail (err_keyword_as_term u key (clause_value u clock key (after_blank p)))

    unfoldable pub parse_term : M TermNode
    unfolding take refuse_empty
    parse_term = do
      tok ← take u
      refuse_empty u Role.search_term tok.literal tok.pos
      pure (record { token = tok; value = lower u tok.literal; pos = 0; end = 0 })

    -- The loop of `parseTerms`, after the terms that it has read.
    unfoldable pub parse_terms : ℕ → List TermNode → M (List TermNode)
    unfolding next type_eq is_at_end is_mis_cased_keyword is_value is_keyword err_unexpected
        parse_keyword_term parse_term
    parse_terms zero terms p = Outcome.stuck
    parse_terms (suc fuel) terms p =
        let more = parse_terms fuel in
        (if is_at_end p
            then pure terms
            else if type_eq p.cur.type TokenType.whitespace
            then (do next u; more terms)
            else if is_mis_cased_keyword u p.cur
            then fail (err_unexpected u p.cur)
            else if not (is_value p)
            then pure terms
            else if is_keyword p.cur.type
            then (do parse_keyword_term; pure terms)
            else do t ← parse_term; more (terms ++ t ∷ []))
          p
