-- ===== src/Config.antt =====
-- internal/config/validate.go: the settings that a server starts with. Of a `ConfigSet` (config.go)
-- this keeps the groups that `validate` reads, without the seed of the hash and the vector search. A
-- floating-point number is a value of `F`. A setting that `Canonical` rewrites in place is the next
-- configuration's, and an error leaves none, since it must not be used then.
pub mod Valid
mod Tests
use fraise.Prelude.{Bool, true, false, not, ◌&&◌, ◌||◌, List, [], ◌∷◌, if◌then◌else◌}
use fraise.Prelude.Text.{Text, codes}
use fraise.Prelude.Decimal.{ℤ, int_ltb}

pub record LogConfig : Type 0 where
  pub level : Text
  pub format : Text
  pub disable_timestamp : Bool

pub record DbConfig (F : Type 0) : Type 0 where
  pub precision : Text
  pub num_graphs : ℤ
  pub default_top : ℤ
  pub default_depth : ℤ
  pub max_top : ℤ
  pub max_depth : ℤ
  pub max_vector_dimension : ℤ
  pub seed_size : ℤ
  pub min_score_ratio : F
  pub window_gamma : F
  pub hashing_function : Text
  pub search_algorithm : Text
  pub scoring_algorithm : Text
  pub relevance_model : Text

pub record ConfigSet (F : Type 0) : Type 0 where
  pub log : LogConfig
  pub db : DbConfig F
  pub workers : ℤ

abbrev pub log_levels : List Text
log_levels = codes "DEBUG" ∷ codes "INFO" ∷ codes "WARN" ∷ codes "ERROR" ∷ []

abbrev pub log_formats : List Text
log_formats = codes "text" ∷ codes "json" ∷ []

abbrev pub precisions : List Text
precisions = codes "float32" ∷ codes "float64" ∷ []

abbrev pub hashing_functions : List Text
hashing_functions = codes "xxhash" ∷ codes "t1ha" ∷ []

abbrev pub search_algorithms : List Text
search_algorithms = codes "none" ∷ codes "bfs" ∷ codes "excess" ∷ []

abbrev pub scoring_algorithms : List Text
scoring_algorithms = codes "information" ∷ codes "excess" ∷ codes "rrf" ∷ []

abbrev pub relevance_models : List Text
relevance_models = codes "bm25" ∷ codes "matchcount" ∷ []

-- ErrInvalidValue, by the setting that its message names.
pub data InvalidValue (F : Type 0) : Type 0 where
  no_such_name : Text → Text → List Text → InvalidValue F
  min_score_ratio window_gamma : F → InvalidValue F
  workers max_depth max_top num_graphs : ℤ → InvalidValue F

pub data Result (F A : Type 0) : Type 0 where
  ok : A → Result F A
  err : InvalidValue F → Result F A

infixl 5 ◌>>=◌ ◌>>◌
unfoldable pub ◌>>=◌ : {F A B : Type 0} → Result F A → (A → Result F B) → Result F B
◌>>=◌ (Result.ok a) f = f a
◌>>=◌ (Result.err e) f = Result.err e

abbrev pub ◌>>◌ : {F A B : Type 0} → Result F A → Result F B → Result F B
m >> k = m >>= λ _. k

-- `if bad { return e }`
unfoldable pub refuse_if : {F : Type 0} → Bool → InvalidValue F → Result F Unit
refuse_if bad e = if bad then Result.err e else Result.ok tt

-- `strings.EqualFold`, and the comparison of floating-point numbers with its 0 and its 1.
pub record Outside (F : Type 0) : Type 0 where
  pub equal_fold : Text → Text → Bool
  pub at_most : F → F → Bool
  pub nought : F
  pub one : F

module _ {F : Type 0} (o : Outside F) where
  unfoldable pub canonical_from : Text → Text → List Text → List Text → Result F Text
  canonical_from v name accepted [] = Result.err (InvalidValue.no_such_name name v accepted)
  canonical_from v name accepted (want ∷ wants) =
      if o.equal_fold v want then Result.ok want else canonical_from v name accepted wants

  unfoldable pub canonical : Text → Text → List Text → Result F Text
  unfolding canonical_from
  canonical v name accepted = canonical_from v name accepted accepted

  -- The loop over the settings with a fixed vocabulary.
  unfoldable pub canonical_names : ConfigSet F → Result F (ConfigSet F)
  unfolding canonical ◌>>=◌
  canonical_names c = do
    level ← canonical c.log.level (codes "log.level") log_levels
    format ← canonical c.log.format (codes "log.format") log_formats
    precision ← canonical c.db.precision (codes "db.precision") precisions
    hashing ← canonical c.db.hashing_function (codes "db.hashing-function.name") hashing_functions
    search ← canonical c.db.search_algorithm (codes "db.search-algorithm.name") search_algorithms
    scoring ←
        canonical c.db.scoring_algorithm (codes "db.scoring-algorithm.name") scoring_algorithms
    relevance ← canonical c.db.relevance_model (codes "db.relevance-model.name") relevance_models
    Result.ok (record {
      log = record { level = level; format = format; disable_timestamp = c.log.disable_timestamp };
      db = record {
        precision = precision;
        num_graphs = c.db.num_graphs;
        default_top = c.db.default_top;
        default_depth = c.db.default_depth;
        max_top = c.db.max_top;
        max_depth = c.db.max_depth;
        max_vector_dimension = c.db.max_vector_dimension;
        seed_size = c.db.seed_size;
        min_score_ratio = c.db.min_score_ratio;
        window_gamma = c.db.window_gamma;
        hashing_function = hashing;
        search_algorithm = search;
        scoring_algorithm = scoring;
        relevance_model = relevance;
      };
      workers = c.workers;
    })

  -- The checks of the numbers.
  unfoldable pub check_numbers : ConfigSet F → Result F Unit
  unfolding ◌>>=◌ refuse_if
  check_numbers c = do
    refuse_if
        (not (o.at_most o.nought c.db.min_score_ratio && o.at_most c.db.min_score_ratio o.one))
        (InvalidValue.min_score_ratio c.db.min_score_ratio)
    refuse_if (not (o.at_most c.db.window_gamma o.one))
        (InvalidValue.window_gamma c.db.window_gamma)
    refuse_if (int_ltb c.workers (ℤ.pos 1)) (InvalidValue.workers c.workers)
    refuse_if (int_ltb c.db.max_depth (ℤ.pos 0) || int_ltb (ℤ.pos 2) c.db.max_depth)
        (InvalidValue.max_depth c.db.max_depth)
    refuse_if (int_ltb c.db.max_top (ℤ.pos 1)) (InvalidValue.max_top c.db.max_top)
    refuse_if (int_ltb c.db.num_graphs (ℤ.pos 1) || int_ltb (ℤ.pos 256) c.db.num_graphs)
        (InvalidValue.num_graphs c.db.num_graphs)

  unfoldable pub validate : ConfigSet F → Result F (ConfigSet F)
  unfolding ◌>>=◌ canonical_names check_numbers
  validate c = do d ← canonical_names c; check_numbers d; Result.ok d
