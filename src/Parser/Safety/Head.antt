-- ===== src/Parser/Safety/Head.antt =====
-- What stands in front of the clauses ends within the query: the selector, the fact and the terms.
use fraise.Prelude.{
  some, inl, inr, ◌⊎◌, ℕ, length, ◌≤◌, ◌≡◌, ap, refl, ◌%◌, ◌^◌, Bool, true, false, arith,
}
use fraise.Prelude.Text.{Text}
use fraise.Prelude.Decimal.{ℤ, int_ltb}
use fraise.Lexer.Token.{Unicode, IsStandard, TokenType, Token, type_eq, type_eq_iff, describe_token}
use fraise.Parser.Message.{Message, Role}
use fraise.Parser.Number.{IntParsed, atoi, uint8}
use fraise.Parser.Clauses.{selector_value, parse_graph_selector, parse_phrase}
use fraise.Parser.Terms.{optional_selector, parse_selector}
use fraise.Parser.Written.{token_at, At}
use fraise.Parser.Machine.{Parser}
use fraise.Parser.WellFormed.{IsGraph, IsSelector, IsFact}
use fraise.Parser.Safety.{Ready, remaining, Ends, returned, refused, Fine}
use fraise.Parser.Safety.Steps.{bind-Ends, window-Ends, fail_if-Ends, take-Ends, expect_at-Ends}
use fraise.Parser.Safety.Clauses.{err_unexpected-pos, refuse_empty-Fine}

uint8_fits :
    (i : ℤ)
    → int_ltb i (ℤ.pos 0) ≡ false
    → int_ltb (ℤ.pos 255) i ≡ false
    → (uint8 i ≤ 255) × (i ≡ ℤ.pos (uint8 i))
unfolding uint8 int_ltb
uint8_fits (ℤ.pos n) a b =
    let small : n ≤ 255 = ground (arith, b) in
    let same : n ≡ n % 2 ^ 8 = omega (arith, small) in (omega arith, ap ℤ.pos same)
uint8_fits (ℤ.negsuc n) a b = absurd cc

module _ (u : Unicode) (std : IsStandard u) {text : Text} where
  selector_value-Fine :
      (tok : Token)
      → tok.pos ≤ length text
      → (i : IntParsed)
      → Fine u text (λ v _. (v ≤ 255) × (i ≡ IntParsed.value (ℤ.pos v))) (selector_value u tok i)
  unfolding selector_value
  selector_value-Fine tok k (IntParsed.value i) n p g h =
      bind-Ends _ _ p (fail_if-Ends p g h _ _ k) (λ _ p1 g1 h1 (free, _).
        let (small, same) = uint8_fits i (ground (arith, free)) (ground (arith, free)) in
        returned g1 h1 (small, ap IntParsed.value same))
  selector_value-Fine tok k IntParsed.range_error n p g h = refused k g.warns_within
  selector_value-Fine tok k IntParsed.syntax_error n p g h = refused k g.warns_within

  parse_graph_selector-Ends :
      (n : ℕ) (p : Parser)
      → Ready u text p
      → remaining p ≤ n
      → At u text 1 p
      → p.cur.type ≡ TokenType.at
      → Ends u text n
          (λ r _.
            (r.0.pos ≤ length text)
            × IsGraph u text r.1
            × ((r.0.type ≡ TokenType.illegal) ⊎ (token_at u text 1 ≡ some r.0)))
          (parse_graph_selector u p)
  unfolding parse_graph_selector
  parse_graph_selector-Ends n p g h a e =
      bind-Ends _ _ p (take-Ends u std p g h) (λ key p1 g1 h1 (is_key, k, m). window-Ends _ p1 (
        bind-Ends _ _ p1 (fail_if-Ends p1 g1 h1 _ _ g1.cur_within) (λ _ p2 g2 h2 (_, same).
          bind-Ends _ _ p2 (take-Ends u std p2 g2 h2) (λ tok p3 g3 h3 (is_tok, b, _).
            bind-Ends _ _ p3 (selector_value-Fine tok b (atoi tok.literal) n p3 g3 h3)
              (λ i p4 g4 h4 (small, read). returned g4 h4 (
                k,
                IsGraph.written p.cur tok a.cur_is e (rw (is_tok, same) ((m 1 a).cur_is)) read
                    small,
                inr (rw is_key a.cur_is),
              ))))))

  optional_selector-Ends :
      (c : Bool) (n : ℕ) (p : Parser)
      → type_eq p.cur.type TokenType.at ≡ c
      → Ready u text p
      → remaining p ≤ n
      → At u text 1 p
      → Ends u text n (λ s _. IsSelector u text s) (optional_selector u c p)
  unfolding optional_selector
  optional_selector-Ends false n p e g h a = returned g h (
    omega arith,
    IsGraph.default p.cur a.cur_is (λ is. ground (arith, e, type_eq_iff p.cur.type TokenType.at)),
    inl refl,
  )
  optional_selector-Ends true n p e g h a =
      bind-Ends _ _ p (parse_graph_selector-Ends n p g h a ((type_eq_iff _ _).0 e)) (λ r p1 g1 h1 b.
        window-Ends _ p1 (
          bind-Ends _ _ p1 (fail_if-Ends p1 g1 h1 _ _ g1.cur_within)
            (λ _ p2 g2 h2 _. returned g2 h2 b)))

  -- The selector of a command whose verb is the token 0.
  pub parse_selector-Ends :
      (cmd : Token) (n : ℕ) (p : Parser)
      → Ready u text p
      → remaining p ≤ n
      → At u text 1 p
      → Ends u text n (λ s _. IsSelector u text s) (parse_selector u cmd p)
  unfolding parse_selector
  parse_selector-Ends cmd n p g h a = window-Ends _ p (
      bind-Ends _ _ p (optional_selector-Ends (type_eq p.cur.type TokenType.at) n p refl g h a)
        (λ s p1 g1 h1 b.
          bind-Ends _ _ p1
            (expect_at-Ends u std p1 g1 h1 TokenType.whitespace
              (λ tok. Message.expected_space (describe_token tok)))
            (λ _ p2 g2 h2 _. window-Ends _ p2 (
              bind-Ends _ _ p2 (fail_if-Ends p2 g2 h2 _ _ g2.cur_within)
                (λ _ p3 g3 h3 _. returned g3 h3 b)))))

  pub parse_phrase-Fine : Fine u text (λ f _. IsFact u text f) (parse_phrase u)
  unfolding parse_phrase
  parse_phrase-Fine n p g h = window-Ends _ p (
      bind-Ends _ _ p (fail_if-Ends p g h _ _ g.cur_within) (λ _ p1 g1 h1 _.
        bind-Ends _ _ p1 (fail_if-Ends p1 g1 h1 _ _ (rw (err_unexpected-pos u p.cur) g.cur_within))
          (λ _ p2 g2 h2 _.
            bind-Ends _ _ p2
              (expect_at-Ends u std p2 g2 h2 TokenType.phrase
                (λ tok. Message.expected_phrase (describe_token tok)))
              (λ tok p3 g3 h3 (b, kind, is_tok, _).
                bind-Ends _ _ p3
                  (refuse_empty-Fine u Role.remembered_fact tok.literal tok.pos b n p3 g3 h3)
                  (λ _ p4 g4 h4 e. window-Ends _ p4 (
                    bind-Ends _ _ p4 (fail_if-Ends p4 g4 h4 _ _ g4.cur_within) (λ _ p5 g5 h5 _.
                      returned g5 h5 (
                        tok,
                        (g2.placed.0, rw is_tok g2.placed.1.cur_is),
                        kind,
                        refl,
                        refl,
                        b,
                        e,
                      ))))))))
