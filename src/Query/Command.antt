-- ===== src/Query/Command.antt =====
-- internal/query: `Recall`, `Remember` and their parameters (recall.go, remember.go, query.go), how
-- they hash themselves and when they are equal. Text is a list of bytes.
use fraise.Prelude.{
  ℕ, Bool, true, false, ◌&&◌, List, [], ◌∷◌, ◌++◌, Option, none, some, ◌==◌, length,
}
use fraise.Prelude.Text.{Text, codes, text_eq}
use fraise.Prelude.Decimal.{ℤ, decimal, itoa, int_eq}
use fraise.Containers.Vector.{Float, Vector, vector_material, vector_equal}
use fraise.Containers.Time.{Clock, TimeValue, time_material, time_equal, resolve}

-- A hasher of text, and how `fmt.Sprint` renders one of its keys.
pub record Hasher (K : Type 0) : Type 0 where
  pub hash : Text → K
  pub render : K → Text

pub record QueryParameters (Time : Type 0) : Type 0 where
  pub top : ℤ
  pub depth : ℤ
  pub since : Option (TimeValue Time)
  pub until : Option (TimeValue Time)

pub record QueryContext : Type 0 where
  pub graph_id : ℕ

pub record Recall (P Time : Type 0) : Type 0 where
  pub keywords : List Text
  pub vector : Vector P
  pub entities : List Text
  pub topics : List Text
  pub parameters : QueryParameters Time
  pub context : QueryContext

pub record Remember (P : Type 0) : Type 0 where
  pub value : Text
  pub entities : List Text
  pub topics : List Text
  pub vector : Vector P
  pub context : QueryContext

-- The two implementations of the interface `Query`.
pub data Query (P Time : Type 0) : Type 0 where
  recall : Recall P Time → Query P Time
  remember : Remember P → Query P Time

unfoldable pub write_strings : List Text → Text
write_strings [] = []
write_strings (s ∷ ss) = decimal (length s) ++ b':' ∷ (s ++ write_strings ss)

-- What a `strings.Builder` holds after these writes.
abbrev pub written : List Text → Text
written [] = []
written (s ∷ ss) = s ++ written ss

-- `slices.Equal`
unfoldable pub texts_eq : List Text → List Text → Bool
texts_eq [] [] = true
texts_eq (s ∷ ss) (t ∷ ts) = text_eq s t && texts_eq ss ts
texts_eq _ _ = false

module _ {Time : Type 0} (clock : Clock Time) where
  unfoldable pub bound_equal : Option (TimeValue Time) → Option (TimeValue Time) → Bool
  bound_equal none none = true
  bound_equal (some t) (some u) = time_equal clock t u
  bound_equal _ _ = false

  unfoldable pub parameters_equal : QueryParameters Time → QueryParameters Time → Bool
  parameters_equal p other =
      int_eq p.top other.top
      && int_eq p.depth other.depth
      && bound_equal p.since other.since
      && bound_equal p.until other.until

module _ {P Time : Type 0} (clock : Clock Time) (float : Float P) where
  -- `Equal`, once the type assertion holds.
  unfoldable pub recall_equal : Recall P Time → Recall P Time → Bool
  recall_equal r o =
      o.context.graph_id == r.context.graph_id
      && texts_eq o.keywords r.keywords
      && texts_eq o.entities r.entities
      && texts_eq o.topics r.topics
      && parameters_equal clock o.parameters r.parameters
      && vector_equal float o.vector r.vector

  unfoldable pub remember_equal : Remember P → Remember P → Bool
  remember_equal r o =
      o.context.graph_id == r.context.graph_id
      && text_eq o.value r.value
      && texts_eq o.entities r.entities
      && texts_eq o.topics r.topics
      && vector_equal float o.vector r.vector

  unfoldable pub equal : Query P Time → Query P Time → Bool
  equal (Query.recall r) (Query.recall o) = recall_equal r o
  equal (Query.remember r) (Query.remember o) = remember_equal r o
  equal _ _ = false

module _ {Time K : Type 0} (clock : Clock Time) (hasher : Hasher K) where
  unfoldable pub time_hash : TimeValue Time → Text
  time_hash t = hasher.render (hasher.hash (time_material clock t))

  -- The hash of a bound, or nothing without one.
  unfoldable pub bound_hash : Option (TimeValue Time) → Text
  bound_hash none = []
  bound_hash (some t) = time_hash t

unfoldable pub vector_hash : {P K : Type 0} → Float P → Hasher K → Vector P → Text
vector_hash float hasher v = hasher.render (hasher.hash (vector_material float v.coordinates))

module _ {P Time K : Type 0} (clock : Clock Time) (float : Float P) (hasher : Hasher K) where
  -- The text that `Hash` builds and hands to the hasher.
  unfoldable pub recall_material : Recall P Time → Text
  recall_material r = written (
      (codes "g=")
      ∷ (decimal r.context.graph_id)
      ∷ (codes "|kw=")
      ∷ (write_strings r.keywords)
      ∷ (codes "|en=")
      ∷ (write_strings r.entities)
      ∷ (codes "|to=")
      ∷ (write_strings r.topics)
      ∷ (codes "|d=")
      ∷ (itoa r.parameters.depth)
      ∷ (codes "|t=")
      ∷ (itoa r.parameters.top)
      ∷ (codes "|s=")
      ∷ (bound_hash clock hasher r.parameters.since)
      ∷ (codes "|u=")
      ∷ (bound_hash clock hasher r.parameters.until)
      ∷ (codes "|vec=")
      ∷ (vector_hash float hasher r.vector)
      ∷ [])

  unfoldable pub remember_material : Remember P → Text
  remember_material r = written (
      (codes "g=")
      ∷ (decimal r.context.graph_id)
      ∷ (codes "|v=")
      ∷ (write_strings (r.value ∷ []))
      ∷ (codes "|en=")
      ∷ (write_strings r.entities)
      ∷ (codes "|to=")
      ∷ (write_strings r.topics)
      ∷ (codes "|vec=")
      ∷ (vector_hash float hasher r.vector)
      ∷ [])

  unfoldable pub material : Query P Time → Text
  material (Query.recall r) = recall_material r
  material (Query.remember r) = remember_material r

  unfoldable pub hash_query : Query P Time → K
  hash_query q = hasher.hash (material q)

-- `Since` and `Until`: none is the zero time, which means no bound.
unfoldable pub resolved :
    {Time : Type 0} → Clock Time → Option (TimeValue Time) → Time → Option Time
resolved clock none now = none
resolved clock (some t) now = some (resolve clock t now)

unfoldable pub is_write : {P Time : Type 0} → Query P Time → Bool
is_write (Query.recall r) = false
is_write (Query.remember r) = true

unfoldable pub get_graph_id : {P Time : Type 0} → Query P Time → ℕ
get_graph_id (Query.recall r) = r.context.graph_id
get_graph_id (Query.remember r) = r.context.graph_id

unfoldable pub set_graph_id : {P Time : Type 0} → ℕ → Query P Time → Query P Time
set_graph_id id (Query.recall r) = Query.recall (record r { context = record { graph_id = id } })
set_graph_id id (Query.remember r) =
    Query.remember (record r { context = record { graph_id = id } })
