-- ===== src/Parser/Safety/Entry.antt =====
-- `Parse` ends on every text, and what it returns.
use fraise.Prelude.{
  ap, ◌∙◌, ℕ, zero, suc, ◌+◌, ◌-◌, ◌≤◌, ◌<◌, ◌≡◌, ◌≢◌, refl, subst, not, ◌||◌, ◌==◌, List, [], ◌∷◌,
  Option, some, arith, length, Bool-cases, Option-cases, inl, inr,
}
use fraise.Prelude.Text.{Text}
use fraise.Lexer.Token.{Unicode, IsStandard, TokenType, type_eq, type_eq_iff, describe_token}
use fraise.Lexer.Cursor.{new-IsValid, rest-new}
use fraise.Lexer.Scan.{new, read_character}
use fraise.Containers.Time.{Clock}
use fraise.Parser.Message.{Message, Error, Warning, error_at}
use fraise.Parser.Machine.{◌>>=◌, ◌>>◌, pure, fail_if, window, next, Parser, Outcome}
use fraise.Parser.Commands.{parse_remember, parse_recall, remember_clause, recall_clause}
use fraise.Parser.Entry.{
  parse_command, parse_query, skip_blank_lines, parse_text, rune_error, start, parse,
}
use fraise.Parser.Written.{At, lexer_at, token_at-next, lexer_at-next}
use fraise.Parser.Terms.{no_token}
use fraise.Parser.WellFormed.{IsRecall, IsRemember, IsSeeded, IsAccepted}
use fraise.Parser.Safety.{AllWithin, Ready, weight, remaining, Ends, returned, refused}
use fraise.Parser.Safety.Steps.{
  bind-Ends, if-Ends, fail-Ends, window-Ends, map-Ends, fail_if-Ends, take-Ends, next-Ends,
  next-Scanned, next-Scanned_lem, bind-done, Scanned,
}
use fraise.Parser.Safety.Head.{parse_selector-Ends, parse_phrase-Fine}
use fraise.Parser.Safety.Loops.{parse_terms-Ends, parse_clauses-Ends}
use fraise.Parser.Safety.Commands.{remember_clause-Ends, recall_clause-Ends}
use fraise.Parser.Safety.Finish.{finish_recall-Fine}

module _ (u : Unicode) (std : IsStandard u) {text : Text} {P Time : Type 0} (clock : Clock Time)
    (params : Text → Option (List P)) (fuel : ℕ) where
  parse_remember-Ends :
      (n : ℕ) (p : Parser)
      → p.cur.type ≡ TokenType.remember
      → At u text 0 p
      → Ready u text p
      → remaining p ≤ n
      → n < fuel
      → Ends u text n (λ r _. IsRemember u text params r) (parse_remember u clock params fuel p)
  unfolding parse_remember
  parse_remember-Ends n p k a g h f =
      bind-Ends _ _ p (take-Ends u std p g h) (λ key p1 g1 h1 (is, o, m).
        bind-Ends _ _ p1 (parse_selector-Ends u std key n p1 g1 h1 (m 0 a))
          (λ selector p2 g2 h2 names.
            bind-Ends _ _ p2 (parse_phrase-Fine u std n p2 g2 h2) (λ phrase p3 g3 h3 fact.
              parse_clauses-Ends u std (IsRemember u text params) (remember_clause u clock params)
                (λ m q q' r w b b' e s.
                  remember_clause-Ends u std clock params q.cur.type m q q' r refl w b b' e s)
                fuel _ n p3 g3 h3 (omega arith)
                (record {
                  verb = rw is k;
                  verb_within = o;
                  command = rw is a.cur_is;
                  selector = names;
                  fact = fact;
                  anchors = tt;
                  vec = tt;
                }))))

  parse_recall-Ends :
      (n : ℕ) (p : Parser)
      → p.cur.type ≡ TokenType.recall
      → At u text 0 p
      → Ready u text p
      → remaining p ≤ n
      → n < fuel
      → Ends u text n
          (λ r _. IsRecall u text clock params r × IsSeeded u r)
          (parse_recall u clock params fuel p)
  unfolding parse_recall
  parse_recall-Ends n p k a g h f =
      bind-Ends _ _ p (take-Ends u std p g h) (λ key p1 g1 h1 (is, o, m).
        bind-Ends _ _ p1 (parse_selector-Ends u std key n p1 g1 h1 (m 0 a))
          (λ selector p2 g2 h2 names.
            bind-Ends _ _ p2 (parse_terms-Ends u std clock fuel [] n p2 g2 h2 (omega arith) tt)
              (λ terms p3 g3 h3 all_terms.
                bind-Ends _ _ p3
                  (parse_clauses-Ends u std (IsRecall u text clock params)
                    (recall_clause u clock params)
                    (λ m q q' r w b b' e s.
                      recall_clause-Ends u std clock params q.cur.type m q q' r refl w b b' e s)
                    fuel _ n p3 g3 h3 (omega arith)
                    (record {
                      verb = rw is k;
                      verb_within = o;
                      command = rw is a.cur_is;
                      selector = names;
                      terms = all_terms;
                      entities = tt;
                      topics = tt;
                      top = (omega arith, inl refl);
                      depth = (omega arith, inl refl);
                      since = (omega arith, omega arith, inl (refl, refl));
                      until = (omega arith, omega arith, inl (refl, refl));
                      vec = tt;
                    }))
                  (λ r p4 g4 h4 w.
                    map-Ends _ (finish_recall-Fine u r w.depth.0 w.verb_within w.terms n p4 g4 h4)
                      (λ r' _ (same, seeded). rw same (w, seeded))))))

  parse_command-Ends :
      (t : TokenType) (n : ℕ) (p : Parser)
      → p.cur.type ≡ t
      → At u text 0 p
      → Ready u text p
      → remaining p ≤ n
      → n < fuel
      → Ends u text n
          (λ c _. IsAccepted u text clock params c)
          (parse_command u clock params fuel t p)
  unfolding parse_command
  parse_command-Ends TokenType.remember n p k a g h f =
      bind-Ends _ _ p (parse_remember-Ends n p k a g h f) (λ r q g' h' w. returned g' h' w)
  parse_command-Ends TokenType.recall n p k a g h f =
      bind-Ends _ _ p (parse_recall-Ends n p k a g h f) (λ r q g' h' w. returned g' h' w)
  parse_command-Ends _ n p k a g h f = window-Ends _ p (
      fail-Ends (error_at p.cur.pos (Message.expected_command (describe_token p.cur))) p g
        g.cur_within)

module _ (u : Unicode) (std : IsStandard u) {text : Text} where
  skip_blank_lines-Ends :
      (fuel n : ℕ) (p : Parser)
      → Ready u text p
      → remaining p ≤ n
      → remaining p < fuel
      → Ends u text n (λ _ _. Unit {0}) (skip_blank_lines u fuel p)
  unfolding skip_blank_lines
  skip_blank_lines-Ends zero n p g h f = absurd (omega arith)
  skip_blank_lines-Ends (suc fuel) n p g h f =
      if-Ends (type_eq p.cur.type TokenType.newline || type_eq p.cur.type TokenType.whitespace) _ _
        p
        (λ e.
          let w : weight p.cur.type ≡ 1 = ground (arith, e) in
          bind-Ends _ _ p (next-Ends u std (remaining p - 1) p g (omega (arith, w))) (λ _ q g' h' _.
            skip_blank_lines-Ends fuel n q g' (omega (arith, h', h)) (omega (arith, h', f, w))))
        (λ _. returned g h tt)

rune_error-le : (col : ℕ) (q : Text) (c : ℕ) → rune_error col q ≡ some c → c ≤ col + length q
unfolding rune_error
rune_error-le col [] c e = absurd cc
rune_error-le col (x ∷ q) c e = elim (Bool-cases (x == 65533)) [
  | inl h ↦ ground (arith, h, e)
  | inr h ↦ omega (arith, rune_error-le (suc col) q c (rw h at e))
]

module _ (u : Unicode) (std : IsStandard u) {P Time : Type 0} (clock : Clock Time)
    (params : Text → Option (List P)) (q : Text) where
  opened-At :
      (s : Scanned u (new q)) (t : Scanned u s.after)
      → At u q 0 (record { l = t.after; cur = s.token; peek = t.token; warns = [] })
  unfolding lexer_at
  opened-At s t =
      let behind = lexer_at-next u q 0 refl s.returns in
      record {
        cur_is = token_at-next u q 0 refl s.returns;
        peek_is = token_at-next u q 1 behind t.returns;
        lexer_is = lexer_at-next u q 1 behind t.returns;
      }

  -- From the window on the first two tokens on.
  query-Ends :
      (p : Parser)
      → At u q 0 p
      → Ready u q p
      → remaining p ≤ length q + 2
      → Ends u q
          (length q + 2)
          (λ c p. IsAccepted u q clock params c × (p.cur.type ≡ TokenType.eol))
          ((do
            command ← parse_query u clock params (length q + 3)
            skip_blank_lines u (length q + 3)
            p ← window
            fail_if
                (not (type_eq p.cur.type TokenType.eol))
                (error_at p.cur.pos (Message.unexpected_after_end (describe_token p.cur)))
            pure command)
            p)
  unfolding parse_query
  query-Ends p a g h =
      let n = length q + 2 in
      bind-Ends _ _ p
        (parse_command-Ends u std clock params (length q + 3) p.cur.type n p refl a g h
          (omega arith))
        (λ c p3 g3 h3 w.
          bind-Ends _ _ p3
            (skip_blank_lines-Ends u std (length q + 3) n p3 g3 h3 (omega (arith, h3)))
            (λ _ p4 g4 h4 _. window-Ends _ p4 (
              bind-Ends _ _ p4
                (fail_if-Ends p4 g4 h4 (not (type_eq p4.cur.type TokenType.eol)) _ g4.cur_within)
                (λ _ p5 g5 h5 (e, same).
                  returned g5 h5 (w, rw same ((type_eq_iff _ _).0 (ground (arith, e))))))))

  parse_text-Ends :
      Ends u q
        (length q + 2)
        (λ c p. IsAccepted u q clock params c × (p.cur.type ≡ TokenType.eol))
        (parse_text u clock params (length q + 3) (start q))
  unfolding parse_text start read_character
  parse_text-Ends =
      let s = next-Scanned u std (new q) (new-IsValid q) in
      let t = next-Scanned u std s.after s.valid in
      let p1 : Parser = record { l = s.after; cur = no_token; peek = s.token; warns = [] } in
      let p2 : Parser = record { l = t.after; cur = s.token; peek = t.token; warns = [] } in
      rw (bind-done (next u) _ (start q) (next-Scanned_lem u (start q) s)) (
        rw (bind-done (next u) _ p1 (next-Scanned_lem u p1 t)) (
          query-Ends p2 (opened-At s t)
            (record {
              valid = t.valid;
              size = t.size ∙ s.size;
              cur_within = s.within;
              peek_within = rw s.size at t.within;
              warns_within = tt;
              placed = (0, opened-At s t);
            })
            (omega (arith, s.less, t.less, ap length (rest-new q)))))

  -- What `Parse` does, on every text.
  pub parse-Ends :
      Ends u q
        (length q + 2)
        (λ c p. IsAccepted u q clock params c × (p.cur.type ≡ TokenType.eol))
        (parse u clock params q)
  unfolding parse
  parse-Ends = elim (Option-cases (rune_error 0 q)) [
    | inl e ↦ rw (e, parse) parse_text-Ends
    | inr (col, e) ↦ rw (e, parse) (refused (omega (arith, rune_error-le 0 q col e)) tt)
  ]

module _ {u : Unicode} {text : Text} {n : ℕ} {A : Type 0} {Q : A → Parser → Type 0} where
  Ends-refused :
      {e : Error} {ws : List Warning}
      → Ends u text n Q (Outcome.failed e ws)
      → (e.pos ≤ length text) × AllWithin (length text) ws
  Ends-refused (refused b a) = (b, a)

  Ends-not_stuck : (o : Outcome A) → Ends u text n Q o → o ≢ Outcome.stuck
  Ends-not_stuck o (returned g h x) e = cc
  Ends-not_stuck o (refused b a) e = cc

module _ (u : Unicode) (std : IsStandard u) {P Time : Type 0} (clock : Clock Time)
    (params : Text → Option (List P)) (q : Text) where
  -- If the rune 0 is no letter and no digit, `Parse` ends on every text: no loop of the parser, and
  -- none of the lexer below it, needs more rounds than it is given.
  pub parse_ends : parse u clock params q ≢ Outcome.stuck
  parse_ends = Ends-not_stuck _ (parse-Ends u std clock params q)

  -- If the rune 0 is no letter and no digit, an error that `Parse` returns has a column within the
  -- query, and so has every warning returned beside it.
  pub parse-failed :
      (e : Error) (ws : List Warning)
      → parse u clock params q ≡ Outcome.failed e ws
      → (e.pos ≤ length q) × AllWithin (length q) ws
  parse-failed e ws h = Ends-refused (subst (Ends _ _ _ _) h (parse-Ends u std clock params q))
