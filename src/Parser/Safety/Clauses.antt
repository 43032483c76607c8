-- ===== src/Parser/Safety/Clauses.antt =====
-- The productions below a command end within the query.
use fraise.Prelude.{
  ℕ, suc, length, some, ◌∙◌, ◌+◌, ◌≤◌, ◌≡◌, ◌≢◌, refl, ap, true, false, List, Option, arith,
}
use fraise.Prelude.Text.{Text}
use fraise.Lexer.Token.{
  Unicode, IsStandard, TokenType, Token, Position, type_eq_iff, describe_token,
}
use fraise.Containers.Time.{Clock, TimeResult, TimeError, parse_time_value}
use fraise.Parser.Message.{Message, Role}
use fraise.Parser.Machine.{Parser, expect}
use fraise.Parser.Errors.{
  err_other, err_unexpected, err_keyword_as_clause, err_missing_colon, is_empty_value, is_relative,
}
use fraise.Parser.Clauses.{
  refuse_empty, err_blank_separator, err_separator, parse_separator, err_not_value, parse_value,
  parse_anchor_field, parse_int_field, int_value, parse_time_field, time_value, parse_vec_field,
}
use fraise.Parser.Number.{IntParsed, atoi}
use fraise.Parser.Written.{token_at, At}
use fraise.Parser.WellFormed.{IsName, AreClause}
use fraise.Parser.Safety.{Ready, weight, remaining, Ends, returned, refused, Fine}
use fraise.Parser.Safety.Steps.{
  bind-Ends, window-Ends, map-Ends, fail_if-Ends, take-Ends, take_shrinks, expect_or-Ends,
  expect_at-Ends,
}

module _ (u : Unicode) where
  pub err_unexpected-pos : (tok : Token) → (err_unexpected u tok).pos ≡ tok.pos
  unfolding err_unexpected err_other err_keyword_as_clause
  err_unexpected-pos tok = ground arith

  pub refuse_empty-Fine :
      {text : Text} (role : Role) (s : Text) (pos : Position)
      → pos ≤ length text
      → Fine u text (λ _ _. is_empty_value u s ≡ false) (refuse_empty u role s pos)
  unfolding refuse_empty
  refuse_empty-Fine role s pos k n p g h = map-Ends _ (fail_if-Ends p g h _ _ k) (λ _ _ x. x.0)

  module _ {Time : Type 0} (clock : Clock Time) where
    err_blank_separator-within :
        {N : ℕ} (key blank after : Token)
        → key.pos ≤ N
        → blank.pos ≤ N
        → (err_blank_separator u clock key blank after).pos ≤ N
    unfolding err_blank_separator err_keyword_as_clause err_missing_colon
    err_blank_separator-within key blank after k b = ground arith

    err_not_value-pos : (tok : Token) → (err_not_value u clock tok).pos ≡ tok.pos
    unfolding err_not_value
    err_not_value-pos tok = ground (arith, err_unexpected-pos tok)

    err_separator-pos : (key found : Token) → (err_separator u clock key found).pos ≡ key.pos
    unfolding err_separator err_keyword_as_clause err_missing_colon
    err_separator-pos key found = ground arith

    module _ {text : Text} (key tok : Token) (k : tok.pos ≤ length text) where
      int_value-Fine :
          (i : IntParsed) → Fine u text (λ v _. i ≡ IntParsed.value v) (int_value u clock key tok i)
      unfolding int_value
      int_value-Fine (IntParsed.value i) n p g h = returned g h refl
      int_value-Fine IntParsed.range_error n p g h = refused k g.warns_within
      int_value-Fine IntParsed.syntax_error n p g h = refused k g.warns_within

      time_value-Fine :
          (r : TimeResult Time)
          → Fine u text
              (λ t _. (r ≡ TimeResult.ok t) × (is_relative t ≡ true → tok.type ≢ TokenType.phrase))
              (time_value u clock key tok r)
      unfolding time_value
      time_value-Fine (TimeResult.ok t) n p g h =
          bind-Ends _ _ p (fail_if-Ends p g h _ _ k) (λ _ p1 g1 h1 (free, _).
            returned g1 h1
              (refl, λ r e. ground (arith, free, type_eq_iff tok.type TokenType.phrase)))
      time_value-Fine (TimeResult.err (TimeError.duration_range s max unit)) n p g h =
          refused k g.warns_within
      time_value-Fine (TimeResult.err _) n p g h = refused k g.warns_within

    module _ (std : IsStandard u) {text : Text} where
      -- The separator is one token.
      parse_separator-Ends :
          (key : Token) (i n : ℕ) (p : Parser)
          → key.pos ≤ length text
          → Ready u text p
          → remaining p ≤ n
          → At u text i p
          → Ends u text n (λ _ q. At u text (suc i) q) (parse_separator u clock key p)
      unfolding parse_separator
      parse_separator-Ends key i n p k g h a = window-Ends _ p (
          bind-Ends _ _ p
            (fail_if-Ends p g h _ _ (err_blank_separator-within key p.cur p.peek k g.cur_within))
            (λ _ p1 g1 h1 (_, same).
              bind-Ends _ _ p1
                (expect_or-Ends u std p1 g1 h1 TokenType.colon (err_separator u clock key)
                  (rw (err_separator-pos key p1.cur) k))
                (λ _ p2 g2 h2 (_, _, _, m). window-Ends _ p2 (
                  map-Ends _ (fail_if-Ends p2 g2 h2 _ _ g2.cur_within)
                    (λ _ q x. rw x.1 (m i (rw same a)))))))

      parse_value-Ends :
          (n : ℕ) (p : Parser)
          → Ready u text p
          → remaining p ≤ n
          → Ends u text n (λ tok _. (tok ≡ p.cur) × (tok.pos ≤ length text)) (parse_value u clock p)
      unfolding parse_value
      parse_value-Ends n p g h = window-Ends _ p (
          bind-Ends _ _ p (fail_if-Ends p g h _ _ (rw (err_not_value-pos p.cur) g.cur_within))
            (λ _ p1 g1 h1 (_, same).
              map-Ends _ (take-Ends u std p1 g1 h1)
                (λ tok _ x. (x.0 ∙ ap (λ (q : Parser). q.cur) same, x.1))))

      module _ (n : ℕ) (p : Parser) (g : Ready u text p)
          (h : remaining p ≤ n + weight p.cur.type) where
        pub parse_int_field-Ends :
            Ends u text n
              (λ r _.
                (r.0 ≡ p.cur)
                × ((tok : Token) × AreClause u text p.cur tok
                    × (atoi tok.literal ≡ IntParsed.value r.1)))
              (parse_int_field u clock p)
        unfolding parse_int_field
        parse_int_field-Ends =
            let (i, a) = g.placed in
            bind-Ends _ _ p (take_shrinks u std n p g h) (λ key p1 g1 h1 (is_key, k, m1).
              bind-Ends _ _ p1 (parse_separator-Ends key (suc i) n p1 k g1 h1 (m1 i a))
                (λ _ p2 g2 h2 a2.
                  bind-Ends _ _ p2 (take-Ends u std p2 g2 h2) (λ tok p3 g3 h3 (is_tok, b, _).
                    bind-Ends _ _ p3 (fail_if-Ends p3 g3 h3 _ _ (rw (err_unexpected-pos tok) b))
                      (λ _ p4 g4 h4 _.
                        bind-Ends _ _ p4 (int_value-Fine key tok b (atoi tok.literal) n p4 g4 h4)
                          (λ v p5 g5 h5 e.
                            returned g5 h5
                              (is_key, (tok, (i, a.cur_is, rw is_tok a2.cur_is), e)))))))

        pub parse_time_field-Ends :
            Ends u text n
              (λ (key, tok, t) _.
                (key ≡ p.cur)
                × AreClause u text p.cur tok
                × (tok.pos ≤ length text)
                × (parse_time_value clock tok.literal ≡ TimeResult.ok t)
                × (is_relative t ≡ true → tok.type ≢ TokenType.phrase))
              (parse_time_field u clock p)
        unfolding parse_time_field
        parse_time_field-Ends =
            let (i, a) = g.placed in
            bind-Ends _ _ p (take_shrinks u std n p g h) (λ key p1 g1 h1 (is_key, k, m1).
              bind-Ends _ _ p1 (parse_separator-Ends key (suc i) n p1 k g1 h1 (m1 i a))
                (λ _ p2 g2 h2 a2.
                  bind-Ends _ _ p2 (take-Ends u std p2 g2 h2) (λ tok p3 g3 h3 (is_tok, b, _).
                    bind-Ends _ _ p3 (fail_if-Ends p3 g3 h3 _ _ (rw (err_unexpected-pos tok) b))
                      (λ _ p4 g4 h4 _.
                        bind-Ends _ _ p4
                          (time_value-Fine key tok b (parse_time_value clock tok.literal) n p4 g4
                            h4)
                          (λ t p5 g5 h5 (e, q).
                            returned g5 h5
                              (is_key, (i, a.cur_is, rw is_tok a2.cur_is), b, e, q))))))

        pub parse_anchor_field-Ends :
            Ends u text n (λ f _. IsName u text p.cur.type f) (parse_anchor_field u clock p)
        unfolding parse_anchor_field
        parse_anchor_field-Ends =
            let (i, a) = g.placed in
            bind-Ends _ _ p (take_shrinks u std n p g h) (λ key p1 g1 h1 (is_key, k, m1).
              bind-Ends _ _ p1 (parse_separator-Ends key (suc i) n p1 k g1 h1 (m1 i a))
                (λ _ p2 g2 h2 a2.
                  bind-Ends _ _ p2 (parse_value-Ends n p2 g2 h2) (λ tok p3 g3 h3 (is_tok, b).
                    bind-Ends _ _ p3
                      (refuse_empty-Fine Role.anchor_value tok.literal tok.pos b n p3 g3 h3)
                      (λ _ p4 g4 h4 e. returned g4 h4 (record {
                        key_type = ap (λ (t : Token). t.type) is_key;
                        not_empty = e;
                        folded = refl;
                        written = (i, rw is_key a.cur_is, rw is_tok a2.cur_is);
                        key_within = k;
                        within = b;
                      })))))

        pub parse_vec_field-Ends :
            {P : Type 0} (params : Text → Option (List P))
            → Ends u text n
                (λ v _.
                  (v.key ≡ p.cur)
                  × (v.param.pos ≤ length text)
                  × (v.param.type ≡ TokenType.literal)
                  × (v.value ≡ params v.param.literal)
                  × ((i : ℕ) × (token_at u text i ≡ some p.cur)
                      × (token_at u text (suc (suc (suc i))) ≡ some v.param)))
                (parse_vec_field u clock params p)
        unfolding parse_vec_field expect
        parse_vec_field-Ends params =
            let (i, a) = g.placed in
            bind-Ends _ _ p (take_shrinks u std n p g h) (λ key p1 g1 h1 (is_key, k, m1).
              bind-Ends _ _ p1 (parse_separator-Ends key (suc i) n p1 k g1 h1 (m1 i a))
                (λ _ p2 g2 h2 a2.
                  bind-Ends _ _ p2
                    (expect_at-Ends u std p2 g2 h2 TokenType.dollar
                      (λ tok. Message.expected_dollar (describe_token tok)))
                    (λ _ p3 g3 h3 (_, _, _, m3). window-Ends _ p3 (
                      bind-Ends _ _ p3 (fail_if-Ends p3 g3 h3 _ _ g3.cur_within)
                        (λ _ p4 g4 h4 (_, same).
                          bind-Ends _ _ p4
                            (expect_at-Ends u std p4 g4 h4 TokenType.literal
                              (λ tok. Message.expected_type TokenType.literal (describe_token tok)))
                            (λ tok p5 g5 h5 (b, e, is_tok, _). returned g5 h5 (
                              is_key,
                              b,
                              e,
                              refl,
                              (i, a.cur_is, rw (is_tok, same) ((m3 (suc (suc i)) a2).cur_is)),
                            )))))))
