-- ===== src/Query/Limits.antt =====
-- What becomes of a parsed recall: a query within the configured limits, or the error that names the
-- limit it breaks.
use fraise.Prelude.{
  ◌≡◌, refl, Bool, true, false, ◌&&◌, ◌||◌, List, [], Option, none, some, if◌then◌else◌, length,
  inl, inr, Bool-cases,
}
use fraise.Prelude.Text.{Text}
use fraise.Prelude.Fields.{and_left, and_right}
use fraise.Prelude.Decimal.{ℤ, int_ltb}
use fraise.Containers.Vector.{Vector}
use fraise.Query.Command.{Recall}
use fraise.Query.Build.{
  QueryError, Built, check_vector, bound_vector, with_vector, recall_query, build_recall,
}
use fraise.Query.Build as Build
use fraise.Parser.Ast.{
  RecallCommandNode, vec_value, vec_param, has_top, top_or, has_depth, depth_or, anchored_search,
}

or_false : (a b : Bool) → (a || b) ≡ false → (a ≡ false) × (b ≡ false)
or_false false b e = (refl, e)
or_false true b e = absurd cc

and_false : (a b : Bool) → a ≡ true → (a && b) ≡ false → b ≡ false
and_false true b e h = h
and_false false b e h = absurd cc

-- The vector that a `vec:` clause is bound to, or the reason why there is none.
pub data Bound {P : Type 0} (name : Option Text) (value : Option (List P)) (max : ℤ)
    : Built (Vector P) → Type 0 where
  no_clause : name ≡ none → Bound name value max (Built.ok (record { coordinates = [] }))
  missing :
      (s : Text)
      → name ≡ some s
      → value ≡ none
      → Bound name value max (Built.err (QueryError.missing_parameter s))
  too_long :
      (s : Text) (v : List P)
      → name ≡ some s
      → value ≡ some v
      → int_ltb max (ℤ.pos (length v)) ≡ true
      → Bound name value max (Built.err (QueryError.vector_limit s (ℤ.pos (length v))))
  fits :
      (s : Text) (v : List P)
      → name ≡ some s
      → value ≡ some v
      → int_ltb max (ℤ.pos (length v)) ≡ false
      → Bound name value max (Built.ok (record { coordinates = v }))

pub bound_vector-Bound :
    {P : Type 0} (name : Option Text) (value : Option (List P)) (max : ℤ)
    → Bound name value max (bound_vector name value max)
unfolding bound_vector check_vector
bound_vector-Bound none value max = Bound.no_clause refl
bound_vector-Bound (some s) none max = Bound.missing s refl refl
bound_vector-Bound (some s) (some v) max = elim (Bool-cases (int_ltb max (ℤ.pos (length v)))) [
  | inl long ↦ rw long (Bound.too_long s v refl refl long)
  | inr short ↦ rw short (Bound.fits s v refl refl short)
]

module _ {P Time : Type 0} (c : Build.Limits) (n : RecallCommandNode P Time) where
  -- An explicit `top:` is from 1 to the ceiling, and an explicit `depth:` is not above its own, which
  -- is all that is asked of it: the depth runs as it was written, a negative one too, but for a
  -- recall with anchors beside something to match, which runs at depth 1 at least.
  pub record InLimits (q : Recall P Time) : Type 0 where
    pub positive : has_top n ≡ true → int_ltb q.parameters.top (ℤ.pos 1) ≡ false
    pub top_bounded : has_top n ≡ true → int_ltb c.max_top q.parameters.top ≡ false
    pub depth_bounded : has_depth n ≡ true → int_ltb c.max_depth q.parameters.depth ≡ false
    pub transmits : anchored_search n ≡ true → int_ltb q.parameters.depth (ℤ.pos 1) ≡ false
    pub as_written :
        has_depth n ≡ true → anchored_search n ≡ false → q.parameters.depth ≡ n.depth.value

  pub data Outcome : Built (Recall P Time) → Type 0 where
    top_refused :
        has_top n ≡ true
        → (int_ltb (top_or n c.default_top) (ℤ.pos 1) || int_ltb c.max_top (top_or n c.default_top))
          ≡ true
        → Outcome (Built.err (QueryError.top_limit (top_or n c.default_top)))
    depth_refused :
        has_depth n ≡ true
        → int_ltb c.max_depth (depth_or n c.default_depth) ≡ true
        → Outcome (Built.err (QueryError.depth_limit (depth_or n c.default_depth)))
    vector_refused :
        (e : QueryError)
        → Bound (vec_param n.vec) (vec_value n.vec) c.max_vector_dimension (Built.err e)
        → Outcome (Built.err e)
    accepted :
        (v : Vector P)
        → Bound (vec_param n.vec) (vec_value n.vec) c.max_vector_dimension (Built.ok v)
        → InLimits (recall_query c n v)
        → Outcome (Built.ok (recall_query c n v))

  depth_transmits : (v : ℤ) → anchored_search n ≡ true → int_ltb (depth_or n v) (ℤ.pos 1) ≡ false
  unfolding depth_or
  depth_transmits v a =
      elim (Bool-cases (int_ltb (if has_depth n then n.depth.value else v) (ℤ.pos 1))) [
        | inl low ↦ rw (low, a) (unfold int_ltb in refl)
        | inr high ↦ rw high high
      ]

  depth_as_written :
      (v : ℤ) → has_depth n ≡ true → anchored_search n ≡ false → depth_or n v ≡ n.depth.value
  unfolding depth_or
  depth_as_written v d a = elim (Bool-cases (int_ltb n.depth.value (ℤ.pos 1))) [
    | inl low ↦ rw (d, low, a) refl
    | inr high ↦ rw (d, high) refl
  ]

  vector-Outcome :
      InLimits (recall_query c n (record { coordinates = [] }))
      → (b : Built (Vector P)) → Bound (vec_param n.vec) (vec_value n.vec) c.max_vector_dimension b
      → Outcome (with_vector (recall_query c n) b)
  unfolding with_vector recall_query
  vector-Outcome w (Built.ok v) b = Outcome.accepted v b (record {
    positive = w.positive;
    top_bounded = w.top_bounded;
    depth_bounded = w.depth_bounded;
    transmits = w.transmits;
    as_written = w.as_written;
  })
  vector-Outcome w (Built.err e) b = Outcome.vector_refused e b

  depth-Outcome :
      (has_top n ≡ true
        → (int_ltb (top_or n c.default_top) (ℤ.pos 1) || int_ltb c.max_top (top_or n c.default_top))
          ≡ false)
      → Outcome (
          if has_depth n && int_ltb c.max_depth (depth_or n c.default_depth)
          then Built.err (QueryError.depth_limit (depth_or n c.default_depth))
          else with_vector
              (recall_query c n)
              (bound_vector (vec_param n.vec) (vec_value n.vec) c.max_vector_dimension))
  unfolding recall_query
  depth-Outcome ranged =
      elim (Bool-cases (has_depth n && int_ltb c.max_depth (depth_or n c.default_depth))) [
        | inl deep ↦
            rw deep (
              Outcome.depth_refused (and_left (has_depth n) _ deep)
                (and_right (has_depth n) _ deep))
        | inr shallow ↦ rw shallow (
            vector-Outcome
              (record {
                positive = λ t. (or_false _ _ (ranged t)).0;
                top_bounded = λ t. (or_false _ _ (ranged t)).1;
                depth_bounded = λ d. and_false (has_depth n) _ d shallow;
                transmits = depth_transmits c.default_depth;
                as_written = depth_as_written c.default_depth;
              })
              (bound_vector (vec_param n.vec) (vec_value n.vec) c.max_vector_dimension)
              (bound_vector-Bound (vec_param n.vec) (vec_value n.vec) c.max_vector_dimension))
      ]

  pub build_recall-Outcome : Outcome (build_recall c n)
  unfolding build_recall
  build_recall-Outcome =
      let top = top_or n c.default_top in
      elim (Bool-cases (has_top n && (int_ltb top (ℤ.pos 1) || int_ltb c.max_top top))) [
        | inl bad ↦
            rw bad (Outcome.top_refused (and_left (has_top n) _ bad) (and_right (has_top n) _ bad))
        | inr good ↦ rw good (depth-Outcome (λ t. and_false (has_top n) _ t good))
      ]
