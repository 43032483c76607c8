-- ===== src/Parser/Warnings.antt =====
-- internal/query/parser/parser.go: the warnings on a recall, and what a recall is refused for once its
-- clauses are read.
use fraise.Prelude.{
  Bool, true, false, not, ◌&&◌, ◌||◌, List, [], ◌∷◌, Option, none, some, ltb, if◌then◌else◌, length,
}
use fraise.Prelude.Text.{text_eq}
use fraise.Prelude.Decimal.{ℤ, int_eq}
use fraise.Lexer.Token.{Unicode, TokenType, Token, type_eq}
use fraise.Nlp.{clean_content, english_tag}
use fraise.Parser.Ast.{TermNode, RecallCommandNode, has_depth, anchored_search}
use fraise.Parser.Print.{print_number}
use fraise.Parser.Message.{Message, Notice, error_at}
use fraise.Parser.Machine.{M, ◌>>◌, pure, fail, fail_if, warn}

abbrev pub is_present : {A : Type 0} → Option A → Bool
is_present none = false
is_present (some a) = true

abbrev is_zero : ℤ → Bool
is_zero i = int_eq i (ℤ.pos 0)

module _ (u : Unicode) where
  -- The bare terms that are stop words, and whether some other term or a vector seeds the search.
  unfoldable pub is_stop_term : TermNode → Bool
  unfolding type_eq text_eq clean_content
  is_stop_term t =
      type_eq t.token.type TokenType.literal
      && text_eq (clean_content u t.token.literal english_tag) []

  unfoldable pub stop_tokens : List TermNode → List Token
  unfolding is_stop_term
  stop_tokens [] = []
  stop_tokens (t ∷ terms) =
      let stops = stop_tokens terms in if is_stop_term t then t.token ∷ stops else stops

  unfoldable pub has_other_term : List TermNode → Bool
  unfolding is_stop_term
  has_other_term [] = false
  has_other_term (t ∷ terms) = not (is_stop_term t) || has_other_term terms

  unfoldable pub warn_each : List Token → M (Unit {0})
  warn_each [] = pure tt
  warn_each (tok ∷ stops) = do
    warn (record { msg = Notice.stop_word tok.literal; pos = tok.pos })
    warn_each stops

  -- What `warnStopWords` makes of the stop words it found.
  unfoldable pub judge_stop_words : Bool → List Token → M (Unit {0})
  unfolding warn_each
  judge_stop_words seeded [] = pure tt
  judge_stop_words true (tok ∷ stops) = warn_each (tok ∷ stops)
  judge_stop_words false (tok ∷ []) = fail (error_at tok.pos (Message.only_stop_word tok.literal))
  judge_stop_words false (tok ∷ more ∷ stops) =
      fail (error_at tok.pos (Message.only_stop_words tok.literal))

  module _ {P Time : Type 0} where
    unfoldable pub warn_stop_words : RecallCommandNode P Time → M (Unit {0})
    unfolding judge_stop_words stop_tokens has_other_term
    warn_stop_words r =
        judge_stop_words (is_present r.vec || has_other_term r.terms) (stop_tokens r.terms)

    unfoldable pub warn_depth_without_graph : RecallCommandNode P Time → M (Unit {0})
    unfolding has_depth int_eq print_number
    warn_depth_without_graph r =
        if not (has_depth r)
          || is_zero r.depth.value
          || ltb 0 (length r.topics)
          || ltb 0 (length r.entities)
        then pure tt
        else warn (record {
          msg = Notice.depth_without_graph (print_number r.depth);
          pos = r.depth.key.pos;
        })

    unfoldable pub warn_anchors_without_depth : RecallCommandNode P Time → M (Unit {0})
    unfolding has_depth int_eq anchored_search print_number
    warn_anchors_without_depth r =
        if not (has_depth r) || not (is_zero r.depth.value) || not (anchored_search r)
        then pure tt
        else warn (record {
          msg = Notice.anchors_without_depth (print_number r.depth);
          pos = r.depth.key.pos;
        })

    unfoldable pub has_seed : RecallCommandNode P Time → Bool
    has_seed r =
        ltb 0 (length r.terms)
        || ltb 0 (length r.topics)
        || ltb 0 (length r.entities)
        || is_present r.vec

    -- What `parseRecall` does once the clauses are read.
    unfoldable pub finish_recall : RecallCommandNode P Time → M (RecallCommandNode P Time)
    unfolding has_seed warn_stop_words warn_depth_without_graph warn_anchors_without_depth
    finish_recall r = do
      fail_if (not (has_seed r)) (error_at r.key.pos Message.no_seed)
      warn_stop_words r
      warn_depth_without_graph r
      warn_anchors_without_depth r
      pure r
