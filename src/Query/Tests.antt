-- ===== src/Query/Tests.antt =====
-- Runs on concrete queries.
use fraise.Prelude.{ℕ, ◌≡◌, refl, ◌==◌, ==_iff, true, List, [], ◌∷◌, none, some, length}
use fraise.Prelude.Text.{Text, codes, text_eq}
use fraise.Prelude.Decimal.{ℤ, decimal, itoa, int_eq}
use fraise.Containers.Vector.{Float, vector_equal, coordinates_equal}
use fraise.Containers.Time.{Clock, TimeValue, time_equal}
use fraise.Query.Command.{
  Hasher, Recall, Query, texts_eq, bound_equal, parameters_equal, recall_equal,
}
use fraise.Query.Material.{all-decimal_plain, SameFields, material-SameFields}
use fraise.Query.Equality.{ReadsAlike, recall_equal-ReadsAlike}
use fraise.Query.Dedupe.{optimise}
use fraise.Query.Dedupe.Fresh.{Deduped, dedupe_strings-Deduped, Optimised, optimise-Optimised}
use fraise.Lexer.Token.{TokenType, Token, type_eq}
use fraise.Prelude.Decimal.{int_ltb}
use fraise.Parser.Ast.{
  NumberFieldNode, BoundFieldNode, RecallCommandNode, has_top, top_or, has_depth, depth_or,
}
use fraise.Query.Build
use fraise.Query.Build.{QueryError, build_recall}
use fraise.Prelude.{Option}
use fraise.Lexer.Ascii.{ascii, ascii-IsStandard}
use fraise.Query.Parse.{parse_into}
use fraise.Query.Answers.{Answered, parse_into-Answered}

abbrev clock : Clock ℕ
clock = record {
  same_instant = λ t u. t == u;
  add = λ t d. t;
  rfc3339_nano = decimal;
  duration_string = itoa;
  parse_date = λ s. none;
  parse_rfc3339 = λ s. none;
}

abbrev whole : Float ℕ
whole = record { equal = λ x y. x == y; hexadecimal = decimal }

abbrev sizes : Hasher ℕ
sizes = record { hash = length; render = decimal }

abbrev words : List Text
words = codes "a|b" ∷ codes "c:d" ∷ codes "a|b" ∷ []

abbrev asked : Recall ℕ ℕ
asked = record {
  keywords = words;
  vector = record { coordinates = 3 ∷ 4 ∷ [] };
  entities = codes "acme" ∷ [];
  topics = [];
  parameters = record {
    top = ℤ.pos 5;
    depth = ℤ.pos 2;
    since = some (TimeValue.relative (ℤ.pos 7));
    until = none;
  };
  context = record { graph_id = 1 };
}

material-SameFields_example : SameFields clock whole sizes (Query.recall asked) (Query.recall asked)
material-SameFields_example =
    material-SameFields clock whole sizes all-decimal_plain (Query.recall asked)
      (Query.recall asked) refl

equal_asked : recall_equal clock whole asked asked ≡ true
unfolding text_eq texts_eq int_eq time_equal bound_equal parameters_equal coordinates_equal
    vector_equal recall_equal
equal_asked = refl

recall_equal-ReadsAlike_example : ReadsAlike clock whole asked asked
recall_equal-ReadsAlike_example =
    recall_equal-ReadsAlike clock (λ t. (==_iff t t).1 refl) whole asked asked equal_asked

dedupe_strings-Deduped_example : Deduped words
dedupe_strings-Deduped_example = dedupe_strings-Deduped words

optimise-Optimised_example : Optimised (Query.recall asked) (optimise (Query.recall asked))
optimise-Optimised_example = optimise-Optimised (Query.recall asked)

abbrev token : TokenType → Token
token t = record { type = t; literal = []; pos = 0 }

abbrev no_number : NumberFieldNode
no_number = record { key = token TokenType.eol; value = ℤ.pos 0; pos = 0; end = 0 }

abbrev no_bound : BoundFieldNode ℕ
no_bound = record {
  key = token TokenType.eol;
  token = token TokenType.eol;
  value = none;
  pos = 0;
  end = 0;
}

-- `recall billing top:500`
abbrev greedy : RecallCommandNode ℕ ℕ
greedy = record {
  key = token TokenType.recall;
  selector = record { key = token TokenType.eol; value = 0; pos = 0; end = 0 };
  terms =
      (record { token = token TokenType.literal; value = codes "billing"; pos = 0; end = 0 }) ∷ [];
  entities = [];
  topics = [];
  top = record { key = token TokenType.top; value = ℤ.pos 500; pos = 0; end = 0 };
  depth = no_number;
  since = no_bound;
  until = no_bound;
  vec = none;
  pos = 0;
  end = 0;
}

abbrev limits : Build.Limits
limits = record {
  default_top = ℤ.pos 10;
  max_top = ℤ.pos 100;
  default_depth = ℤ.pos 1;
  max_depth = ℤ.pos 3;
  max_vector_dimension = ℤ.pos 8;
}

greedy_refused : build_recall limits greedy ≡ Build.err (QueryError.top_limit (ℤ.pos 500))
unfolding build_recall has_top top_or has_depth depth_or int_ltb type_eq
greedy_refused = refl

abbrev sent : Text → Option (List ℕ)
sent s = some (1 ∷ 2 ∷ [])

parse_into-Answered_example :
    Answered ascii sent
      (ℤ.pos 8)
      (codes "recall x topic:a vec:$v")
      (parse_into ascii clock sent limits (codes "recall x topic:a vec:$v"))
parse_into-Answered_example =
    parse_into-Answered ascii clock sent limits (codes "recall x topic:a vec:$v") ascii-IsStandard
