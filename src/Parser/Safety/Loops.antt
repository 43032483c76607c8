-- ===== src/Parser/Safety/Loops.antt =====
-- The loops of the parser end: each round moves past a token, and there is a round for each of them.
use fraise.Prelude.{
  length, ℕ, zero, suc, ◌+◌, ◌-◌, ◌≤◌, ◌<◌, ◌≡◌, ◌⊎◌, refl, ap, ◌∙◌, true, false, not, ◌||◌, List,
  [], ◌∷◌, ◌++◌, arith, Bool-cases, inl, inr,
}
use fraise.Prelude.Text.{Text, text_eq}
use fraise.Lexer.Token.{
  Unicode, IsStandard, TokenType, Token, lower, type_eq, type_eq_iff, is_keyword,
  is_mis_cased_keyword,
}
use fraise.Containers.Time.{Clock}
use fraise.Parser.Ast.{TermNode}
use fraise.Parser.Message.{Role}
use fraise.Parser.Machine.{Parser, M, is_at_end, is_value, is_dangling_keyword}
use fraise.Parser.Errors.{
  err_unexpected, err_keyword_as_term, err_keyword_as_clause, is_empty_value,
}
use fraise.Parser.Terms.{parse_keyword_term, parse_term, parse_terms, warn_mis_cased_keyword}
use fraise.Parser.Commands.{parse_clauses}
use fraise.Parser.WellFormed.{IsTerm, Every}
use fraise.Parser.Safety.{Ready, weight, remaining, Ends, returned, refused, Fine}
use fraise.Parser.Safety.Steps.{
  bind-Ends, if-Ends, fail-Ends, window-Ends, fail_if-Ends, warn-Ends, take-Ends, take_shrinks,
  next-Ends,
}
use fraise.Parser.Safety.Clauses.{err_unexpected-pos, refuse_empty-Fine}

pub Every-append :
    {A : Type 0} (P : A → Type 0) (xs : List A) (x : A) → Every P xs → P x → Every P (xs ++ x ∷ [])
Every-append P [] x a h = (h, tt)
Every-append P (y ∷ xs) x (b, a) h = (b, Every-append P xs x a h)

-- Anywhere but at the end there is something left.
pub weight_inside : (p : Parser) → is_at_end p ≡ false → weight p.cur.type ≡ 1
unfolding is_at_end
weight_inside p e = ground (arith, e)

value_kind :
    (p : Parser)
    → is_value p ≡ true
    → is_keyword p.cur.type ≡ false
    → (p.cur.type ≡ TokenType.literal) ⊎ (p.cur.type ≡ TokenType.phrase)
unfolding is_value
value_kind p v k = elim (Bool-cases (type_eq p.cur.type TokenType.literal)) [
  | inl e ↦ inl ((type_eq_iff _ _).0 e)
  | inr e ↦ inr (ground (arith, e, v, k, type_eq_iff p.cur.type TokenType.phrase))
]

module _ (u : Unicode) (std : IsStandard u) {text : Text} where
  module _ {Time : Type 0} (clock : Clock Time) where
    parse_keyword_term-Fine : Fine u text (λ _ _. Unit {0}) (parse_keyword_term u clock)
    unfolding parse_keyword_term err_keyword_as_term
    parse_keyword_term-Fine n p g h =
        bind-Ends _ _ p (take-Ends u std p g h) (λ key p1 g1 h1 (_, k, _). window-Ends _ p1 (
          bind-Ends _ _ p1 (fail_if-Ends p1 g1 h1 _ _ g1.cur_within)
            (λ _ p2 g2 h2 _. refused k g2.warns_within)))

    parse_term-Ends :
        (n : ℕ) (p : Parser)
        → Ready u text p
        → remaining p ≤ n + weight p.cur.type
        → Ends u text n
            (λ t _.
              (t.token ≡ p.cur)
              × (is_empty_value u t.token.literal ≡ false)
              × (t.value ≡ lower u t.token.literal))
            (parse_term u clock p)
    unfolding parse_term
    parse_term-Ends n p g h =
        bind-Ends _ _ p (take_shrinks u std n p g h) (λ tok p1 g1 h1 (is, k, _).
          bind-Ends _ _ p1 (refuse_empty-Fine u Role.search_term tok.literal tok.pos k n p1 g1 h1)
            (λ _ p2 g2 h2 e. returned g2 h2 (is, e, refl)))

    pub parse_terms-Ends :
        (fuel : ℕ) (terms : List TermNode) (n : ℕ) (p : Parser)
        → Ready u text p
        → remaining p ≤ n
        → remaining p < fuel
        → Every (IsTerm u text) terms
        → Ends u text n (λ ts _. Every (IsTerm u text) ts) (parse_terms u clock fuel terms p)
    unfolding parse_terms
    parse_terms-Ends zero terms n p g h f a = absurd (omega arith)
    parse_terms-Ends (suc fuel) terms n p g h f a =
        if-Ends (is_at_end p) _ _ p (λ _. returned g h a)
          (λ inside.
            let w = weight_inside p inside in
            let m = remaining p - 1 in
            if-Ends (type_eq p.cur.type TokenType.whitespace) _ _ p
              (λ _. bind-Ends _ _ p (next-Ends u std m p g (omega (arith, w))) (λ _ q b s _.
                parse_terms-Ends fuel terms n q b (omega (arith, s, h)) (omega (arith, s, f, w)) a))
              (λ _.
                if-Ends (is_mis_cased_keyword u p.cur) _ _ p
                  (λ _.
                    fail-Ends (err_unexpected u p.cur) p g
                      (rw (err_unexpected-pos u p.cur) g.cur_within))
                  (λ known.
                    if-Ends (not (is_value p)) _ _ p (λ _. returned g h a)
                      (λ here.
                        if-Ends (is_keyword p.cur.type) _ _ p
                          (λ _.
                            bind-Ends _ _ p (parse_keyword_term-Fine n p g h)
                              (λ _ q b s _. returned b s a))
                          (λ word.
                            bind-Ends _ _ p (parse_term-Ends m p g (omega (arith, w)))
                              (λ t q b s (is, not_empty, folded).
                                parse_terms-Ends fuel (terms ++ t ∷ []) n q b (omega (arith, s, h))
                                  (omega (arith, s, f, w))
                                  (Every-append (IsTerm u text) terms t a (record {
                                    kind = rw is (value_kind p (ground (arith, here)) word);
                                    not_reserved = rw is known;
                                    not_empty = not_empty;
                                    folded = folded;
                                    written = (g.placed.0, rw is g.placed.1.cur_is);
                                    within = rw is g.cur_within;
                                  }))))))))

  warn_mis_cased_keyword-Ends :
      (n : ℕ) (p : Parser) (tok : Token)
      → Ready u text p
      → remaining p ≤ n
      → tok.pos ≤ length text
      → Ends u text n (λ _ q. q.cur ≡ p.cur) (warn_mis_cased_keyword u tok p)
  unfolding warn_mis_cased_keyword
  warn_mis_cased_keyword-Ends n p tok g h k =
      if-Ends (not (is_keyword tok.type) || text_eq tok.literal (lower u tok.literal)) _ _ p
        (λ _. returned g h refl) (λ _. warn-Ends p g h _ k)

  -- The loop over the clauses, with what each clause keeps of the command.
  module _ {A : Type 0} (Kept : A → Type 0) (clause : TokenType → Parser → A → M A)
      (step : (n : ℕ) (p q : Parser) (r : A)
        → Kept r
        → Ready u text p
        → Ready u text q
        → q.cur ≡ p.cur
        → remaining q ≤ n + weight q.cur.type
        → Ends u text n (λ r' _. Kept r') (clause p.cur.type p r q)) where
    pub parse_clauses-Ends :
        (fuel : ℕ) (r : A) (n : ℕ) (p : Parser)
        → Ready u text p
        → remaining p ≤ n
        → remaining p < fuel
        → Kept r
        → Ends u text n (λ r' q. Kept r') (parse_clauses u clause fuel r p)
    unfolding parse_clauses err_keyword_as_clause
    parse_clauses-Ends zero r n p g h f k = absurd (omega arith)
    parse_clauses-Ends (suc fuel) r n p g h f k =
        if-Ends (is_at_end p) _ _ p (λ _. returned g h k)
          (λ inside.
            let w = weight_inside p inside in
            let m = remaining p - 1 in
            bind-Ends _ _ p (fail_if-Ends p g (omega arith) (is_dangling_keyword p) _ g.cur_within)
              (λ _ p1 g1 h1 (_, same).
                bind-Ends _ _ p1
                  (warn_mis_cased_keyword-Ends (remaining p) p1 p.cur g1 h1 g.cur_within)
                  (λ _ q b s e.
                    bind-Ends _ _ q
                      (step m p q r k g b (e ∙ ap (λ (x : Parser). x.cur) same) (
                        omega (
                          arith,
                          s,
                          w,
                          ap (λ (t : Token). weight t.type) (e ∙ ap (λ (x : Parser). x.cur) same),
                        )))
                      (λ r' q' b' s' k'.
                        parse_clauses-Ends fuel r' n q' b' (omega (arith, s', h))
                          (omega (arith, s', f, w)) k'))))
