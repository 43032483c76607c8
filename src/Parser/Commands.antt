-- ===== src/Parser/Commands.antt =====
-- internal/query/parser/parser.go: the two commands.
use fraise.Prelude.{ℕ, zero, suc, List, [], ◌∷◌, ◌++◌, Option, none, some, if◌then◌else◌}
use fraise.Prelude.Text.{Text}
use fraise.Prelude.Decimal.{ℤ}
use fraise.Lexer.Token.{Unicode, TokenType, type_eq}
use fraise.Containers.Time.{Clock}
use fraise.Parser.Ast.{
  FieldNode, AnchorFieldNode, BoundFieldNode, NumberFieldNode, RecallCommandNode,
  RememberCommandNode,
}
use fraise.Parser.Message.{Error}
use fraise.Parser.Machine.{
  Parser, Outcome, M, ◌>>=◌, ◌>>◌, pure, fail, fail_if, next, take, is_at_end, is_dangling_keyword,
}
use fraise.Parser.Errors.{
  err_unexpected, err_keyword_as_clause, err_recall_clause_on_write, err_duplicate,
}
use fraise.Parser.Clauses.{
  parse_int_field, parse_time_field, parse_anchor_field, parse_vec_field, parse_phrase,
}
use fraise.Parser.Terms.{no_token, parse_selector, parse_terms, warn_mis_cased_keyword}
use fraise.Parser.Warnings.{is_present, finish_recall}

abbrev pub no_number : NumberFieldNode
no_number = record { key = no_token; value = ℤ.pos 0; pos = 0; end = 0 }

abbrev pub no_bound : {Time : Type 0} → BoundFieldNode Time
no_bound = record { key = no_token; token = no_token; value = none; pos = 0; end = 0 }

abbrev pub anchor_of : FieldNode → AnchorFieldNode
anchor_of field = record { clause = none; token = no_token; field = field }

module _ (u : Unicode) where
  -- The loop over the clauses of either command, whose `switch` is `clause`.
  unfoldable pub parse_clauses : {A : Type 0} → (TokenType → Parser → A → M A) → ℕ → A → M A
  unfolding is_at_end is_dangling_keyword err_keyword_as_clause warn_mis_cased_keyword
  parse_clauses clause zero r p = Outcome.stuck
  parse_clauses clause (suc fuel) r p =
      let more = parse_clauses clause fuel in
      (if is_at_end p then pure r else do
        fail_if (is_dangling_keyword p) (err_keyword_as_clause u p.cur)
        warn_mis_cased_keyword u p.cur
        r' ← clause p.cur.type p r
        more r')
        p

  -- A recall's clause on a remember.
  unfoldable pub err_clause_on_write : Parser → Error
  unfolding type_eq err_recall_clause_on_write err_unexpected
  err_clause_on_write p =
      if type_eq p.peek.type TokenType.colon
      then err_recall_clause_on_write u p.cur
      else err_unexpected u p.cur

  module _ {P Time : Type 0} (clock : Clock Time) (params : Text → Option (List P)) where
    -- The `switch` of `parseRemember`, on the type of the token that `p` stands on.
    unfoldable pub remember_clause :
        TokenType → Parser → RememberCommandNode P → M (RememberCommandNode P)
    unfolding next parse_anchor_field parse_vec_field err_unexpected err_duplicate
        err_clause_on_write
    remember_clause TokenType.entity p r = do
      f ← parse_anchor_field u clock
      pure (record r { anchors = r.anchors ++ anchor_of (FieldNode.entity_field f) ∷ [] })
    remember_clause TokenType.topic p r = do
      f ← parse_anchor_field u clock
      pure (record r { anchors = r.anchors ++ anchor_of (FieldNode.topic_field f) ∷ [] })
    remember_clause TokenType.vec p r = do
      fail_if (is_present r.vec) (err_duplicate u p.cur)
      v ← parse_vec_field u clock params
      pure (record r { vec = some v })
    remember_clause TokenType.since p r = fail (err_clause_on_write p)
    remember_clause TokenType.until p r = fail (err_clause_on_write p)
    remember_clause TokenType.top p r = fail (err_clause_on_write p)
    remember_clause TokenType.depth p r = fail (err_clause_on_write p)
    remember_clause TokenType.whitespace p r = do next u; pure r
    remember_clause _ p r = fail (err_unexpected u p.cur)

    unfoldable pub parse_remember : ℕ → M (RememberCommandNode P)
    unfolding take parse_selector parse_phrase parse_clauses remember_clause
    parse_remember fuel = do
      key ← take u
      selector ← parse_selector u key
      phrase ← parse_phrase u
      parse_clauses remember_clause fuel (record {
        key = key;
        selector = selector;
        value = phrase;
        anchors = [];
        vec = none;
        pos = 0;
        end = 0;
      })

    -- The `switch` of `parseRecall`, on the type of the token that `p` stands on.
    unfoldable pub recall_clause :
        TokenType → Parser → RecallCommandNode P Time → M (RecallCommandNode P Time)
    unfolding next type_eq parse_anchor_field parse_time_field parse_int_field parse_vec_field
        err_unexpected err_duplicate
    recall_clause TokenType.entity p r = do
      f ← parse_anchor_field u clock
      pure (record r { entities = r.entities ++ anchor_of (FieldNode.entity_field f) ∷ [] })
    recall_clause TokenType.topic p r = do
      f ← parse_anchor_field u clock
      pure (record r { topics = r.topics ++ anchor_of (FieldNode.topic_field f) ∷ [] })
    recall_clause TokenType.until p r = do
      fail_if (type_eq r.until.key.type TokenType.until) (err_duplicate u p.cur)
      (key, tok, t) ← parse_time_field u clock
      pure
          (record r { until = record { key = key; token = tok; value = some t; pos = 0; end = 0 } })
    recall_clause TokenType.since p r = do
      fail_if (type_eq r.since.key.type TokenType.since) (err_duplicate u p.cur)
      (key, tok, t) ← parse_time_field u clock
      pure
          (record r { since = record { key = key; token = tok; value = some t; pos = 0; end = 0 } })
    recall_clause TokenType.depth p r = do
      fail_if (type_eq r.depth.key.type TokenType.depth) (err_duplicate u p.cur)
      (key, value) ← parse_int_field u clock
      pure (record r { depth = record { key = key; value = value; pos = 0; end = 0 } })
    recall_clause TokenType.top p r = do
      fail_if (type_eq r.top.key.type TokenType.top) (err_duplicate u p.cur)
      (key, value) ← parse_int_field u clock
      pure (record r { top = record { key = key; value = value; pos = 0; end = 0 } })
    recall_clause TokenType.vec p r = do
      fail_if (is_present r.vec) (err_duplicate u p.cur)
      v ← parse_vec_field u clock params
      pure (record r { vec = some v })
    recall_clause TokenType.whitespace p r = do next u; pure r
    recall_clause _ p r = fail (err_unexpected u p.cur)

  module _ {P Time : Type 0} (clock : Clock Time) (params : Text → Option (List P)) where
    unfoldable pub parse_recall : ℕ → M (RecallCommandNode P Time)
    unfolding take parse_selector parse_terms parse_clauses recall_clause finish_recall
    parse_recall fuel = do
      key ← take u
      selector ← parse_selector u key
      terms ← parse_terms u clock fuel []
      r ← parse_clauses (recall_clause clock params) fuel (record {
        key = key;
        selector = selector;
        terms = terms;
        entities = [];
        topics = [];
        top = no_number;
        depth = no_number;
        since = no_bound;
        until = no_bound;
        vec = none;
        pos = 0;
        end = 0;
      })
      finish_recall u r
