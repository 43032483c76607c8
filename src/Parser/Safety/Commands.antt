-- ===== src/Parser/Safety/Commands.antt =====
-- The two commands end within the query, with what an accepted command satisfies.
use fraise.Prelude.{ℕ, ◌+◌, ◌≤◌, ◌≡◌, refl, ap, ◌∙◌, Bool, List, Option, arith, inl, inr}
use fraise.Prelude.Text.{Text}
use fraise.Lexer.Token.{Unicode, IsStandard, TokenType, type_eq}
use fraise.Containers.Time.{Clock}
use fraise.Parser.Ast.{RecallCommandNode, RememberCommandNode, FieldNode}
use fraise.Parser.Machine.{Parser, M, ◌>>◌, fail_if}
use fraise.Parser.Errors.{err_unexpected, err_duplicate}
use fraise.Parser.Clauses.{parse_anchor_field}
use fraise.Parser.Warnings.{is_present}
use fraise.Parser.Commands.{anchor_of, err_clause_on_write, remember_clause, recall_clause}
use fraise.Parser.WellFormed.{IsName, IsRecall, IsRemember}
use fraise.Parser.Safety.{Ready, weight, remaining, Ends, returned}
use fraise.Parser.Safety.Steps.{bind-Ends, fail-Ends, map-Ends, fail_if-Ends, next-Ends}
use fraise.Parser.Safety.Clauses.{
  err_unexpected-pos, parse_int_field-Ends, parse_time_field-Ends, parse_anchor_field-Ends,
  parse_vec_field-Ends,
}
use fraise.Parser.Safety.Loops.{Every-append}

err_clause_on_write-pos : (u : Unicode) (p : Parser) → (err_clause_on_write u p).pos ≡ p.cur.pos
unfolding err_clause_on_write
err_clause_on_write-pos u p = ground (arith, err_unexpected-pos u p.cur)

-- A clause that starts at `q`, where the loop has read the token of `p`.
module _ (u : Unicode) (std : IsStandard u) {text : Text} (n : ℕ) (p q : Parser)
    (g : Ready u text p) (b : Ready u text q) (e : q.cur ≡ p.cur)
    (h : remaining q ≤ n + weight q.cur.type) where
  unless_duplicate :
      {A : Type 0} {R : A → Parser → Type 0} (c : Bool) (k : M A)
      → ((q' : Parser)
          → Ready u text q'
          → q'.cur ≡ p.cur
          → remaining q' ≤ n + weight q'.cur.type
          → Ends u text n R (k q'))
      → Ends u text n R ((fail_if c (err_duplicate u p.cur) >> k) q)
  unfolding err_duplicate
  unless_duplicate c k next =
      bind-Ends _ _ q (fail_if-Ends q b h c (err_duplicate u p.cur) g.cur_within)
        (λ _ q' b' h' (_, same). next q' b' (ap (λ (x : Parser). x.cur) same ∙ e) (rw same h))

  anchor-Ends :
      {Time : Type 0} (clock : Clock Time) (t : TokenType)
      → p.cur.type ≡ t
      → Ends u text n (λ f _. IsName u text t f) (parse_anchor_field u clock q)
  anchor-Ends clock t k =
      map-Ends _ (parse_anchor_field-Ends u clock std n q b h) (λ f _ is. rw (e, k) at is)

module _ (u : Unicode) (std : IsStandard u) {text : Text} {P Time : Type 0} (clock : Clock Time)
    (params : Text → Option (List P)) where
  pub remember_clause-Ends :
      (t : TokenType) (n : ℕ) (p q : Parser) (r : RememberCommandNode P)
      → p.cur.type ≡ t
      → IsRemember u text params r
      → Ready u text p
      → Ready u text q
      → q.cur ≡ p.cur
      → remaining q ≤ n + weight q.cur.type
      → Ends u text n (λ r' _. IsRemember u text params r') (remember_clause u clock params t p r q)
  unfolding remember_clause
  remember_clause-Ends TokenType.entity n p q r k w g b e h =
      bind-Ends _ _ q (anchor-Ends u std n p q g b e h clock TokenType.entity k) (λ f q1 b1 h1 is.
        returned b1 h1 (record {
          verb = w.verb;
          verb_within = w.verb_within;
          command = w.command;
          selector = w.selector;
          fact = w.fact;
          anchors =
              Every-append _ r.anchors (anchor_of (FieldNode.entity_field f)) w.anchors
                (inl (f, refl, is));
          vec = w.vec;
        }))
  remember_clause-Ends TokenType.topic n p q r k w g b e h =
      bind-Ends _ _ q (anchor-Ends u std n p q g b e h clock TokenType.topic k) (λ f q1 b1 h1 is.
        returned b1 h1 (record {
          verb = w.verb;
          verb_within = w.verb_within;
          command = w.command;
          selector = w.selector;
          fact = w.fact;
          anchors =
              Every-append _ r.anchors (anchor_of (FieldNode.topic_field f)) w.anchors
                (inr (f, refl, is));
          vec = w.vec;
        }))
  remember_clause-Ends TokenType.vec n p q r k w g b e h =
      unless_duplicate u std n p q g b e h (is_present r.vec) _ (λ q1 b1 e1 h1.
        bind-Ends _ _ q1 (parse_vec_field-Ends u clock std n q1 b1 h1 params)
          (λ v q2 b2 h2 (is, o, kind, bound, (i, at_key, at_param)). returned b2 h2 (record {
            verb = w.verb;
            verb_within = w.verb_within;
            command = w.command;
            selector = w.selector;
            fact = w.fact;
            anchors = w.anchors;
            vec = (rw is b1.cur_within, o, rw (is, e1) k, kind, bound, (i, rw is at_key, at_param));
          })))
  remember_clause-Ends TokenType.whitespace n p q r k w g b e h =
      bind-Ends _ _ q (next-Ends u std n q b h) (λ _ q1 b1 h1 _. returned b1 h1 w)
  remember_clause-Ends TokenType.since n p q r k w g b e h =
      fail-Ends (err_clause_on_write u p) q b (rw (err_clause_on_write-pos u p) g.cur_within)
  remember_clause-Ends TokenType.until n p q r k w g b e h =
      fail-Ends (err_clause_on_write u p) q b (rw (err_clause_on_write-pos u p) g.cur_within)
  remember_clause-Ends TokenType.top n p q r k w g b e h =
      fail-Ends (err_clause_on_write u p) q b (rw (err_clause_on_write-pos u p) g.cur_within)
  remember_clause-Ends TokenType.depth n p q r k w g b e h =
      fail-Ends (err_clause_on_write u p) q b (rw (err_clause_on_write-pos u p) g.cur_within)
  remember_clause-Ends _ n p q r k w g b e h =
      fail-Ends (err_unexpected u p.cur) q b (rw (err_unexpected-pos u p.cur) g.cur_within)

  pub recall_clause-Ends :
      (t : TokenType) (n : ℕ) (p q : Parser) (r : RecallCommandNode P Time)
      → p.cur.type ≡ t
      → IsRecall u text clock params r
      → Ready u text p
      → Ready u text q
      → q.cur ≡ p.cur
      → remaining q ≤ n + weight q.cur.type
      → Ends u text n
          (λ r' _. IsRecall u text clock params r')
          (recall_clause u clock params t p r q)
  unfolding recall_clause
  recall_clause-Ends TokenType.entity n p q r k w g b e h =
      bind-Ends _ _ q (anchor-Ends u std n p q g b e h clock TokenType.entity k) (λ f q1 b1 h1 is.
        returned b1 h1 (record {
          verb = w.verb;
          verb_within = w.verb_within;
          command = w.command;
          selector = w.selector;
          terms = w.terms;
          entities =
              Every-append _ r.entities (anchor_of (FieldNode.entity_field f)) w.entities
                (f, refl, is);
          topics = w.topics;
          top = w.top;
          depth = w.depth;
          since = w.since;
          until = w.until;
          vec = w.vec;
        }))
  recall_clause-Ends TokenType.topic n p q r k w g b e h =
      bind-Ends _ _ q (anchor-Ends u std n p q g b e h clock TokenType.topic k) (λ f q1 b1 h1 is.
        returned b1 h1 (record {
          verb = w.verb;
          verb_within = w.verb_within;
          command = w.command;
          selector = w.selector;
          terms = w.terms;
          entities = w.entities;
          topics =
              Every-append _ r.topics (anchor_of (FieldNode.topic_field f)) w.topics (f, refl, is);
          top = w.top;
          depth = w.depth;
          since = w.since;
          until = w.until;
          vec = w.vec;
        }))
  recall_clause-Ends TokenType.until n p q r k w g b e h =
      unless_duplicate u std n p q g b e h (type_eq r.until.key.type TokenType.until) _
        (λ q1 b1 e1 h1.
          bind-Ends _ _ q1 (parse_time_field-Ends u clock std n q1 b1 h1)
            (λ (key, tok, t) q2 b2 h2 (is, both, o, read, bare). returned b2 h2 (record {
              verb = w.verb;
              verb_within = w.verb_within;
              command = w.command;
              selector = w.selector;
              terms = w.terms;
              entities = w.entities;
              topics = w.topics;
              top = w.top;
              depth = w.depth;
              since = w.since;
              until =
                  (rw is b1.cur_within, o, inr (rw (is, e1) k, rw is both, (t, refl, read, bare)));
              vec = w.vec;
            })))
  recall_clause-Ends TokenType.since n p q r k w g b e h =
      unless_duplicate u std n p q g b e h (type_eq r.since.key.type TokenType.since) _
        (λ q1 b1 e1 h1.
          bind-Ends _ _ q1 (parse_time_field-Ends u clock std n q1 b1 h1)
            (λ (key, tok, t) q2 b2 h2 (is, both, o, read, bare). returned b2 h2 (record {
              verb = w.verb;
              verb_within = w.verb_within;
              command = w.command;
              selector = w.selector;
              terms = w.terms;
              entities = w.entities;
              topics = w.topics;
              top = w.top;
              depth = w.depth;
              since =
                  (rw is b1.cur_within, o, inr (rw (is, e1) k, rw is both, (t, refl, read, bare)));
              until = w.until;
              vec = w.vec;
            })))
  recall_clause-Ends TokenType.depth n p q r k w g b e h =
      unless_duplicate u std n p q g b e h (type_eq r.depth.key.type TokenType.depth) _
        (λ q1 b1 e1 h1.
          bind-Ends _ _ q1 (parse_int_field-Ends u clock std n q1 b1 h1)
            (λ (key, i) q2 b2 h2 (is, (tok, both, read)). returned b2 h2 (record {
              verb = w.verb;
              verb_within = w.verb_within;
              command = w.command;
              selector = w.selector;
              terms = w.terms;
              entities = w.entities;
              topics = w.topics;
              top = w.top;
              depth = (rw is b1.cur_within, inr (rw (is, e1) k, (tok, rw is both, read)));
              since = w.since;
              until = w.until;
              vec = w.vec;
            })))
  recall_clause-Ends TokenType.top n p q r k w g b e h =
      unless_duplicate u std n p q g b e h (type_eq r.top.key.type TokenType.top) _ (λ q1 b1 e1 h1.
        bind-Ends _ _ q1 (parse_int_field-Ends u clock std n q1 b1 h1)
          (λ (key, i) q2 b2 h2 (is, (tok, both, read)). returned b2 h2 (record {
            verb = w.verb;
            verb_within = w.verb_within;
            command = w.command;
            selector = w.selector;
            terms = w.terms;
            entities = w.entities;
            topics = w.topics;
            top = (rw is b1.cur_within, inr (rw (is, e1) k, (tok, rw is both, read)));
            depth = w.depth;
            since = w.since;
            until = w.until;
            vec = w.vec;
          })))
  recall_clause-Ends TokenType.vec n p q r k w g b e h =
      unless_duplicate u std n p q g b e h (is_present r.vec) _ (λ q1 b1 e1 h1.
        bind-Ends _ _ q1 (parse_vec_field-Ends u clock std n q1 b1 h1 params)
          (λ v q2 b2 h2 (is, o, kind, bound, (i, at_key, at_param)). returned b2 h2 (record {
            verb = w.verb;
            verb_within = w.verb_within;
            command = w.command;
            selector = w.selector;
            terms = w.terms;
            entities = w.entities;
            topics = w.topics;
            top = w.top;
            depth = w.depth;
            since = w.since;
            until = w.until;
            vec = (rw is b1.cur_within, o, rw (is, e1) k, kind, bound, (i, rw is at_key, at_param));
          })))
  recall_clause-Ends TokenType.whitespace n p q r k w g b e h =
      bind-Ends _ _ q (next-Ends u std n q b h) (λ _ q1 b1 h1 _. returned b1 h1 w)
  recall_clause-Ends _ n p q r k w g b e h =
      fail-Ends (err_unexpected u p.cur) q b (rw (err_unexpected-pos u p.cur) g.cur_within)
