-- ===== src/Config/Tests.antt =====
-- Runs of validate, with exact comparison for case folding and percentages for the fractions.
use fraise.Prelude.{ℕ, ◌≡◌, refl, false, leb}
use fraise.Prelude.Text.{codes, text_eq}
use fraise.Prelude.Decimal.{ℤ, int_ltb}
use fraise.Config.{
  ConfigSet, InvalidValue, Result, Outside, ◌>>=◌, refuse_if, canonical_from, canonical,
  canonical_names, check_numbers, validate,
}
use fraise.Config.Valid.{Ends, Blamed, IsNamed, IsInRange, validate-Ends}

abbrev outside : Outside ℕ
outside = record { equal_fold = text_eq; at_most = leb; nought = 0; one = 100 }

abbrev sample : ℤ → ConfigSet ℕ
sample depth = record {
  log = record { level = codes "INFO"; format = codes "json"; disable_timestamp = false };
  db = record {
    precision = codes "float32";
    num_graphs = ℤ.pos 8;
    default_top = ℤ.pos 10;
    default_depth = ℤ.pos 0;
    max_top = ℤ.pos 1000;
    max_vector_dimension = ℤ.pos 4096;
    seed_size = ℤ.pos 10;
    max_depth = depth;
    min_score_ratio = 0;
    window_gamma = 30;
    hashing_function = codes "t1ha";
    search_algorithm = codes "excess";
    scoring_algorithm = codes "rrf";
    relevance_model = codes "bm25";
  };
  workers = ℤ.pos 2;
}

run_valid : validate outside (sample (ℤ.pos 2)) ≡ Result.ok (sample (ℤ.pos 2))
unfolding validate canonical_names check_numbers canonical canonical_from ◌>>=◌ refuse_if text_eq
    int_ltb
run_valid = refl

run_deep : validate outside (sample (ℤ.pos 3)) ≡ Result.err (InvalidValue.max_depth (ℤ.pos 3))
unfolding validate canonical_names check_numbers canonical canonical_from ◌>>=◌ refuse_if text_eq
    int_ltb
run_deep = refl

validate-Ends_example :
    Ends
      (λ d. IsNamed outside (sample (ℤ.pos 2)) d × IsInRange outside d)
      (Blamed outside (sample (ℤ.pos 2)))
      (validate outside (sample (ℤ.pos 2)))
validate-Ends_example = validate-Ends outside (sample (ℤ.pos 2))
