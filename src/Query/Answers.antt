-- ===== src/Query/Answers.antt =====
-- What a text becomes: a query that has something to run on, or one error.
use fraise.Prelude.{
  ℕ, ◌≤◌, ◌+◌, ◌≡◌, ◌⊎◌, refl, ap, ◌∙◌, sym, true, false, ◌&&◌, ◌||◌, List, [], ◌∷◌, Option, none,
  some, ltb, length, arith, inl, inr, suc,
}
use fraise.Prelude.Text.{Text}
use fraise.Prelude.Decimal.{ℤ, int_ltb}
use fraise.Lexer.Token.{Unicode, IsStandard, TokenType}
use fraise.Containers.Time.{Clock}
use fraise.Containers.Vector.{Vector}
use fraise.Parser.Ast.{
  AnchorFieldNode, TermNode, RecallCommandNode, RememberCommandNode, CommandNode, VecFieldNode,
  term_values, anchor_values, vec_param, vec_value, anchored_search,
}
use fraise.Parser.Message.{Error, Warning}
use fraise.Parser.Machine.{Outcome}
use fraise.Parser.Errors.{is_empty_value}
use fraise.Parser.Entry.{parse}
use fraise.Parser.Warnings.{has_seed}
use fraise.Parser.WellFormed.{IsGraph, IsVec, IsRecall, IsRemember, IsSeeded, IsAccepted}
use fraise.Parser.Safety.{AllWithin, Ends, returned, refused}
use fraise.Parser.Safety.Entry.{parse-Ends}
use fraise.Query.Command.{Recall, Remember, Query}
use fraise.Query.Build.{
  Limits, QueryError, Built, bound_vector, with_vector, recall_query, remember_query, build_recall,
  build_remember, build,
}
use fraise.Query.Limits.{Bound, bound_vector-Bound, build_recall-Outcome}
use fraise.Query.Limits as L
use fraise.Query.Parse.{Answer, with_warnings, answer_of, parse_into}

-- A vector that the client sent under some name, within the limit.
abbrev pub IsSent : {P : Type 0} → (Text → Option (List P)) → ℤ → List P → Type 0
IsSent params max v =
    (name : Text) × (params name ≡ some v) × (int_ltb max (ℤ.pos (length v)) ≡ false)

module _ {P Time : Type 0} (u : Unicode) (text : Text) (params : Text → Option (List P))
    (max : ℤ) where
  pub record RunsRecall (q : Recall P Time) : Type 0 where
    pub graph : IsGraph u text q.context.graph_id
    pub seeded :
        ((ltb 0 (length q.keywords) || ltb 0 (length q.topics) || ltb 0 (length q.entities)) ≡ true)
        ⊎ IsSent params max q.vector.coordinates
    pub vector : (q.vector.coordinates ≡ []) ⊎ IsSent params max q.vector.coordinates
    pub transmits :
        ((ltb 0 (length q.topics) || ltb 0 (length q.entities)) && ltb 0 (length q.keywords)) ≡ true
        → int_ltb q.parameters.depth (ℤ.pos 1) ≡ false

module _ {P : Type 0} (u : Unicode) (text : Text) (params : Text → Option (List P)) (max : ℤ) where
  pub record RunsRemember (q : Remember P) : Type 0 where
    pub graph : IsGraph u text q.context.graph_id
    pub not_empty : is_empty_value u q.value ≡ false
    pub vector : (q.vector.coordinates ≡ []) ⊎ IsSent params max q.vector.coordinates

module _ {P Time : Type 0} (u : Unicode) (params : Text → Option (List P)) (max : ℤ)
    (text : Text) where
  abbrev pub Runs : Query P Time → Type 0
  Runs (Query.recall q) = RunsRecall u text params max q
  Runs (Query.remember q) = RunsRemember u text params max q

  -- What `Parse` may return for the query `text`.
  pub data Answered : Answer (Query P Time) → Type 0 where
    answered :
        {q : Query P Time} {ws : List Warning}
        → Runs q
        → AllWithin (length text) ws
        → Answered (Answer.answer q ws)
    not_parsed : {e : Error} → e.pos ≤ length text → Answered (Answer.parse_failed e)
    over_limit : {e : QueryError} → Answered (Answer.query_failed e)

length-term_values : (terms : List TermNode) → length (term_values terms) ≡ length terms
unfolding term_values
length-term_values [] = refl
length-term_values (t ∷ terms) = ap suc (length-term_values terms)

length-anchor_values :
    (anchors : List AnchorFieldNode) → length (anchor_values anchors) ≡ length anchors
unfolding anchor_values
length-anchor_values [] = refl
length-anchor_values (a ∷ anchors) = ap suc (length-anchor_values anchors)

module _ {P : Type 0} (u : Unicode) (params : Text → Option (List P)) (max : ℤ) (text : Text) where
  vector_origin :
      (f : Option (VecFieldNode P)) (v : Vector P)
      → IsVec u text params f
      → Bound (vec_param f) (vec_value f) max (Built.ok v)
      → ((f ≡ none) × (v.coordinates ≡ [])) ⊎ IsSent params max v.coordinates
  unfolding vec_param vec_value
  vector_origin none v w (Bound.no_clause e) = inl (refl, refl)
  vector_origin none v w (Bound.fits s x e k h) = absurd cc
  vector_origin (some f) v w (Bound.no_clause e) = absurd cc
  vector_origin (some f) v (_, _, _, _, bound, _) (Bound.fits s x e k h) =
      inr (f.param.literal, sym bound ∙ k, h)

  Bound-IsSent :
      (f : Option (VecFieldNode P)) (v : Vector P)
      → IsVec u text params f
      → Bound (vec_param f) (vec_value f) max (Built.ok v)
      → (v.coordinates ≡ []) ⊎ IsSent params max v.coordinates
  Bound-IsSent f v w b = elim (vector_origin f v w b) [ inl (_, e) ↦ inl e | inr e ↦ inr e ]

module _ (u : Unicode) {P Time : Type 0} (clock : Clock Time) (params : Text → Option (List P))
    (c : Limits) (text : Text) where
  recall_query-Runs :
      (n : RecallCommandNode P Time) (v : Vector P)
      → IsRecall u text clock params n
      → IsSeeded u n
      → Bound (vec_param n.vec) (vec_value n.vec) c.max_vector_dimension (Built.ok v)
      → L.InLimits c n (recall_query c n v)
      → RunsRecall u text params c.max_vector_dimension (recall_query c n v)
  unfolding recall_query has_seed anchored_search
  recall_query-Runs n v w s b l =
      let terms = length-term_values n.terms in
      let topics = length-anchor_values n.topics in
      let entities = length-anchor_values n.entities in
      record {
        graph = w.selector.1;
        seeded = elim (vector_origin u params c.max_vector_dimension text n.vec v w.vec b) [
          | inl (absent, _) ↦ inl (ground (arith, terms, topics, entities, absent, s.seed))
          | inr sent ↦ inr sent
        ];
        vector = Bound-IsSent u params c.max_vector_dimension text n.vec v w.vec b;
        transmits = λ e. l.transmits (ground (arith, terms, topics, entities, e));
      }

  module _ (ws : List Warning) (a : AllWithin (length text) ws) where
    recall-Answered :
        (n : RecallCommandNode P Time) (b : Built (Recall P Time))
        → IsRecall u text clock params n
        → IsSeeded u n
        → L.Outcome c n b
        → Answered u params c.max_vector_dimension text (
            with_warnings ws (elim b as (λ _. Built (Query P Time)) [
              | Built.ok q ↦ Built.ok (Query.recall q)
              | Built.err e ↦ Built.err e
            ]))
    unfolding with_warnings
    recall-Answered n b w s (L.Outcome.top_refused _ _) = over_limit
    recall-Answered n b w s (L.Outcome.depth_refused _ _) = over_limit
    recall-Answered n b w s (L.Outcome.vector_refused e _) = over_limit
    recall-Answered n b w s (L.Outcome.accepted v o l) = answered (recall_query-Runs n v w s o l) a

    remember-Answered :
        (n : RememberCommandNode P) (b : Built (Vector P))
        → IsRemember u text params n
        → Bound (vec_param n.vec) (vec_value n.vec) c.max_vector_dimension b
        → Answered {Time = Time} u params c.max_vector_dimension text (
            with_warnings ws
              (elim (with_vector (remember_query n) b) as (λ _. Built (Query P Time)) [
                | Built.ok q ↦ Built.ok (Query.remember q)
                | Built.err e ↦ Built.err e
              ]))
    unfolding with_warnings with_vector remember_query
    remember-Answered n (Built.ok v) w b =
        answered
          (record {
            graph = w.selector.1;
            not_empty = w.fact.6;
            vector = Bound-IsSent u params c.max_vector_dimension text n.vec v w.vec b;
          })
          a
    remember-Answered n (Built.err e) w b = over_limit

    build-Answered :
        (cmd : CommandNode P Time)
        → IsAccepted u text clock params cmd
        → Answered u params c.max_vector_dimension text (with_warnings ws (build c cmd))
    unfolding build build_remember
    build-Answered (CommandNode.recall n) (w, s) =
        recall-Answered n (build_recall c n) w s (build_recall-Outcome c n)
    build-Answered (CommandNode.remember n) w =
        remember-Answered n
          (bound_vector (vec_param n.vec) (vec_value n.vec) c.max_vector_dimension) w
          (bound_vector-Bound _ _ _)

outcome-Answered :
    {P Time : Type 0} (u : Unicode) (clock : Clock Time) (params : Text → Option (List P))
    (c : Limits) (text : Text) (n : ℕ) (o : Outcome (CommandNode P Time))
    → Ends u text n (λ cmd p. IsAccepted u text clock params cmd × (p.cur.type ≡ TokenType.eol)) o
    → Answered u params c.max_vector_dimension text (answer_of c o)
unfolding answer_of
outcome-Answered u clock params c text n o (returned g h (w, _)) =
    build-Answered u clock params c text _ g.warns_within _ w
outcome-Answered u clock params c text n o (refused b _) = not_parsed b

-- If the rune 0 is no letter and no digit, `Parse` of the query layer ends on every text, with an
-- error at a column of the text, with the error of a limit, or with a query to run: its graph is the
-- number that the third token of the text spells, which fits a byte, if the second is an `@`, and the
-- default 0 if it is not; a vector that it has was sent by the client and is within the limit; a recall
-- has a keyword, an anchor or a sent vector, and runs at depth 1 at least where an anchor stands beside
-- a keyword; a remember's fact is not blank. Its warnings lie within the text.
pub parse_into-Answered :
    {P Time : Type 0} (u : Unicode) (clock : Clock Time) (params : Text → Option (List P))
    (c : Limits) (q : Text)
    → IsStandard u
    → Answered u params c.max_vector_dimension q (parse_into u clock params c q)
unfolding parse_into
parse_into-Answered u clock params c q std =
    outcome-Answered u clock params c q (length q + 2) (parse u clock params q)
      (parse-Ends u std clock params q)
