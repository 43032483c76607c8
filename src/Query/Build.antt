-- ===== src/Query/Build.antt =====
-- internal/query/query.go: what `Parse` makes of a parsed command, and the limits it holds it to.
use fraise.Prelude.{◌&&◌, ◌||◌, List, [], Option, none, some, if◌then◌else◌, length}
use fraise.Prelude.Text.{Text}
use fraise.Prelude.Decimal.{ℤ, int_ltb}
use fraise.Containers.Vector.{Vector}
use fraise.Query.Command.{Recall, Remember, Query}
use fraise.Parser.Ast.{
  RecallCommandNode, RememberCommandNode, CommandNode, term_values, anchor_values, entities_of,
  topics_of, vec_value, vec_param, has_top, top_or, has_depth, depth_or,
}

-- The fields of the database configuration that `Parse` reads.
pub record Limits : Type 0 where
  pub default_top : ℤ
  pub max_top : ℤ
  pub default_depth : ℤ
  pub max_depth : ℤ
  pub max_vector_dimension : ℤ

pub data QueryError : Type 0 where
  missing_parameter : Text → QueryError
  vector_limit : Text → ℤ → QueryError
  top_limit : ℤ → QueryError
  depth_limit : ℤ → QueryError

pub data Built (A : Type 0) : Type 0 where
  ok : A → Built A
  err : QueryError → Built A

module _ {P : Type 0} where
  -- `checkVector`, and the vector where it passes.
  unfoldable pub check_vector : Text → Option (List P) → ℤ → Built (Vector P)
  check_vector name none max_dim = Built.err (QueryError.missing_parameter name)
  check_vector name (some vector) max_dim =
      if int_ltb max_dim (ℤ.pos (length vector))
      then Built.err (QueryError.vector_limit name (ℤ.pos (length vector)))
      else Built.ok (record { coordinates = vector })

  -- The vector of the query: the zero vector without a `vec:` clause.
  unfoldable pub bound_vector : Option Text → Option (List P) → ℤ → Built (Vector P)
  bound_vector none value max_dim = Built.ok (record { coordinates = [] })
  bound_vector (some name) value max_dim = check_vector name value max_dim

unfoldable pub with_vector : {A P : Type 0} → (Vector P → A) → Built (Vector P) → Built A
with_vector f (Built.ok v) = Built.ok (f v)
with_vector f (Built.err e) = Built.err e

unfoldable pub remember_query : {P : Type 0} → RememberCommandNode P → Vector P → Remember P
remember_query n v = record {
  value = n.value.value;
  entities = entities_of n.anchors;
  topics = topics_of n.anchors;
  vector = v;
  context = record { graph_id = n.selector.value };
}

unfoldable pub build_remember : {P : Type 0} → Limits → RememberCommandNode P → Built (Remember P)
unfolding remember_query
build_remember c n =
    with_vector (remember_query n)
      (bound_vector (vec_param n.vec) (vec_value n.vec) c.max_vector_dimension)

module _ {P Time : Type 0} (c : Limits) where
  unfoldable pub recall_query : RecallCommandNode P Time → Vector P → Recall P Time
  recall_query n v = record {
    keywords = term_values n.terms;
    vector = v;
    entities = anchor_values n.entities;
    topics = anchor_values n.topics;
    parameters = record {
      top = top_or n c.default_top;
      depth = depth_or n c.default_depth;
      since = n.since.value;
      until = n.until.value;
    };
    context = record { graph_id = n.selector.value };
  }

  unfoldable pub build_recall : RecallCommandNode P Time → Built (Recall P Time)
  build_recall n =
      let top = top_or n c.default_top in
      let depth = depth_or n c.default_depth in
      if has_top n && (int_ltb top (ℤ.pos 1) || int_ltb c.max_top top)
      then Built.err (QueryError.top_limit top)
      else if has_depth n && int_ltb c.max_depth depth
      then Built.err (QueryError.depth_limit depth)
      else with_vector (recall_query n)
          (bound_vector (vec_param n.vec) (vec_value n.vec) c.max_vector_dimension)

  unfoldable pub build : CommandNode P Time → Built (Query P Time)
  build (CommandNode.recall n) = elim (build_recall n) [
    | Built.ok q ↦ Built.ok (Query.recall q)
    | Built.err e ↦ Built.err e
  ]
  build (CommandNode.remember n) = elim (build_remember c n) [
    | Built.ok q ↦ Built.ok (Query.remember q)
    | Built.err e ↦ Built.err e
  ]
