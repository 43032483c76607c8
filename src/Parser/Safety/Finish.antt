-- ===== src/Parser/Safety/Finish.antt =====
-- The warnings on a recall lie within the query, and a recall that passes has something to search.
use fraise.Prelude.{
  ◌≤◌, ◌≡◌, ◌⊎◌, refl, Bool, true, false, not, ◌||◌, ltb, List, [], ◌∷◌, arith, length, Bool-cases,
  inl, inr,
}
use fraise.Prelude.Decimal.{ℤ, int_eq}
use fraise.Prelude.Text.{Text}
use fraise.Lexer.Token.{Unicode, Token}
use fraise.Parser.Ast.{TermNode, RecallCommandNode, has_depth, anchored_search}
use fraise.Parser.Message.{Message, error_at}
use fraise.Parser.Warnings.{
  is_present, is_stop_term, stop_tokens, has_other_term, warn_each, judge_stop_words,
  warn_stop_words, warn_depth_without_graph, warn_anchors_without_depth, has_seed, finish_recall,
}
use fraise.Parser.WellFormed.{IsTerm, Every, IsSeeded}
use fraise.Parser.Safety.{returned, Fine}
use fraise.Parser.Safety.Steps.{bind-Ends, if-Ends, fail-Ends, map-Ends, fail_if-Ends, warn-Ends}

module _ (u : Unicode) where
  stop_tokens-within :
      (text : Text) (terms : List TermNode)
      → Every (IsTerm u text) terms
      → Every (λ (t : Token). t.pos ≤ length text) (stop_tokens u terms)
  unfolding stop_tokens
  stop_tokens-within text [] a = tt
  stop_tokens-within text (t ∷ terms) (b, a) = elim (Bool-cases (is_stop_term u t)) [
    | inl e ↦ rw e (b.within, stop_tokens-within text terms a)
    | inr e ↦ rw e (stop_tokens-within text terms a)
  ]

module _ (u : Unicode) {text : Text} where
  warn_each-Fine :
      (stops : List Token)
      → Every (λ (t : Token). t.pos ≤ length text) stops
      → Fine u text (λ _ _. Unit {0}) (warn_each u stops)
  unfolding warn_each
  warn_each-Fine [] a n p g h = returned g h tt
  warn_each-Fine (tok ∷ stops) (b, a) n p g h =
      bind-Ends _ _ p (warn-Ends p g h _ b) (λ _ q g' h' _. warn_each-Fine stops a n q g' h')

  judge_stop_words-Fine :
      (seeded : Bool) (stops : List Token)
      → Every (λ (t : Token). t.pos ≤ length text) stops
      → Fine u text (λ _ _. (stops ≡ []) ⊎ (seeded ≡ true)) (judge_stop_words u seeded stops)
  unfolding judge_stop_words
  judge_stop_words-Fine seeded [] a n p g h = returned g h (inl refl)
  judge_stop_words-Fine true (tok ∷ stops) a n p g h =
      map-Ends _ (warn_each-Fine (tok ∷ stops) a n p g h) (λ _ _ _. inr refl)
  judge_stop_words-Fine false (tok ∷ []) a n p g h =
      fail-Ends (error_at tok.pos (Message.only_stop_word tok.literal)) p g a.0
  judge_stop_words-Fine false (tok ∷ more ∷ stops) a n p g h =
      fail-Ends (error_at tok.pos (Message.only_stop_words tok.literal)) p g a.0

  module _ {P Time : Type 0} (r : RecallCommandNode P Time)
      (k : r.depth.key.pos ≤ length text) where
    warn_depth_without_graph-Fine : Fine u text (λ _ _. Unit {0}) (warn_depth_without_graph u r)
    unfolding warn_depth_without_graph
    warn_depth_without_graph-Fine n p g h =
        if-Ends
          (not (has_depth r)
            || int_eq r.depth.value (ℤ.pos 0)
            || ltb 0 (length r.topics)
            || ltb 0 (length r.entities))
          _ _ p (λ _. returned g h tt) (λ _. map-Ends _ (warn-Ends p g h _ k) (λ _ _ _. tt))

    warn_anchors_without_depth-Fine : Fine u text (λ _ _. Unit {0}) (warn_anchors_without_depth u r)
    unfolding warn_anchors_without_depth
    warn_anchors_without_depth-Fine n p g h =
        if-Ends
          (not (has_depth r) || not (int_eq r.depth.value (ℤ.pos 0)) || not (anchored_search r)) _ _
          p (λ _. returned g h tt) (λ _. map-Ends _ (warn-Ends p g h _ k) (λ _ _ _. tt))

    pub finish_recall-Fine :
        r.key.pos ≤ length text
        → Every (IsTerm u text) r.terms
        → Fine u text (λ r' _. (r' ≡ r) × IsSeeded u r) (finish_recall u r)
    unfolding finish_recall warn_stop_words
    finish_recall-Fine b a n p g h =
        bind-Ends _ _ p (fail_if-Ends p g h (not (has_seed u r)) _ b) (λ _ p1 g1 h1 (seed, _).
          bind-Ends _ _ p1
            (judge_stop_words-Fine (is_present r.vec || has_other_term u r.terms)
              (stop_tokens u r.terms) (stop_tokens-within u text r.terms a) n p1 g1 h1)
            (λ _ p2 g2 h2 some_word.
              bind-Ends _ _ p2 (warn_depth_without_graph-Fine n p2 g2 h2) (λ _ p3 g3 h3 _.
                bind-Ends _ _ p3 (warn_anchors_without_depth-Fine n p3 g3 h3) (λ _ p4 g4 h4 _.
                  returned g4 h4 (
                    refl,
                    record { seed = ground (arith, seed); not_only_stop_words = some_word },
                  )))))
