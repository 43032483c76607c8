-- ===== src/Parser/Tests.antt =====
-- Runs of the parser.
use fraise.Lexer.Token.{
  value, type_eq, keyword, is_keyword, is_command, is_prefix, is_blank_type, is_end_of_line,
  describe_token, is_mis_cased_keyword,
}
use fraise.Lexer.Scan.{
  peek, read_character, new, is_blank, is_word_character, scan_while, scan_whitespace, scan_string,
  scan_phrase_loop, scan_phrase, single, word_type, scan_word, scan_blanks, symbol, scan_at, scan,
  skip_blank,
}
use fraise.Lexer.Scan as Scan
use fraise.Lexer.Loops.{double}
use fraise.Nlp.{is_term_rune, flush, fields_func, words, sets, in_set, kept, clean_content}
use fraise.Prelude.Text.{text_eq, join}
use fraise.Prelude.Decimal.{int_eq, int_ltb, itoa, decimal, digits}
use fraise.Containers.Time.{
  int64, negate, parse_uint, parse_int, split_last, unit_duration, parse_absolute, parse_relative,
  parse_split, parse_time_value,
}
use fraise.Parser.Ast.{has_top, top_or, has_depth, anchored_search, depth_or}
use fraise.Parser.Print.{print_number}
use fraise.Parser.Number.{parse_magnitude, with_sign, atoi, uint8}
use fraise.Parser.Safety.{AllWithin}
use fraise.Parser.Safety.Entry.{parse_ends, parse-failed}
use fraise.Parser.Terms.{no_token, no_selector}
use fraise.Prelude.{◌≢◌, ◌≤◌, length}
use fraise.Lexer.Ascii.{ascii-IsStandard}
use fraise.Parser.Machine.{Parser}
use fraise.Parser.Message.{Error}
use fraise.Parser.Machine.{
  next, take, expect_or, expect, after_blank, is_at_end, is_value, is_dangling_keyword,
}
use fraise.Parser.Errors.{
  keyword_type, is_relative, reads_duration, clause_placeholder, err_keyword_as_clause, err_other,
  err_unexpected, err_keyword_as_term, err_missing_colon, err_recall_clause_on_write, err_duplicate,
  phrase_value, clause_value, is_empty_value,
}
use fraise.Parser.Clauses.{
  refuse_empty, err_blank_separator, err_separator, parse_separator, int_value, parse_int_field,
  time_value, parse_time_field, err_not_value, parse_value, parse_anchor_field, parse_vec_field,
  selector_value, is_spaced_selector, parse_graph_selector, parse_phrase,
}
use fraise.Parser.Terms.{
  optional_selector, parse_selector, warn_mis_cased_keyword, parse_keyword_term, parse_term,
  parse_terms,
}
use fraise.Parser.Warnings.{
  is_stop_term, stop_tokens, has_other_term, warn_each, judge_stop_words, warn_stop_words,
  warn_depth_without_graph, warn_anchors_without_depth, has_seed, finish_recall,
}
use fraise.Parser.Commands.{
  parse_clauses, err_clause_on_write, remember_clause, parse_remember, recall_clause, parse_recall,
}
use fraise.Parser.Entry.{
  parse_command, parse_query, skip_blank_lines, parse_text, rune_error, start, parse,
}
use fraise.Prelude.{ℕ, ◌≡◌, refl, List, [], ◌∷◌, Option, none, some, ◌==◌}
use fraise.Lexer.Token.{Description}
use fraise.Lexer.Ascii.{ascii}
use fraise.Containers.Time.{Clock, TimeValue}
use fraise.Prelude.Text.{codes, Text}
use fraise.Prelude.Decimal.{ℤ}
use fraise.Parser.Ast.{CommandNode, term_values, anchor_values, anchor_value, field_value}
use fraise.Parser.Message.{Message, Notice, Warning}
use fraise.Parser.Machine.{Outcome, ◌>>=◌, fail_if, warn}

-- A clock that stands still and reads no date.
abbrev still : Clock ℕ
still = record {
  same_instant = λ t u. t == u;
  add = λ t d. t;
  rfc3339_nano = decimal;
  duration_string = itoa;
  parse_date = λ s. none;
  parse_rfc3339 = λ s. none;
}

abbrev no_params : Text → Option (List ℕ)
no_params s = none

-- What is compared of a run: the terms, topics, top, depth and since of a recall, or the message.
data Run : Type 0 where
  recalled : List Text → List Text → ℤ → ℤ → Option (TimeValue ℕ) → List Notice → Run
  remembered : Text → Run
  refused : Message → ℕ → Run
  unfinished : Run

notices : List Warning → List Notice
notices [] = []
notices (w ∷ ws) = w.msg ∷ notices ws

run : Text → Run
unfolding notices
run q = elim (parse ascii still no_params q) [
  | Outcome.done (CommandNode.recall r) p ↦
      Run.recalled (term_values r.terms) (anchor_values r.topics) r.top.value r.depth.value
        r.since.value (notices p.warns)
  | Outcome.done (CommandNode.remember r) p ↦ Run.remembered r.value.value
  | Outcome.failed e ws ↦ Run.refused e.msg e.pos
  | Outcome.stuck ↦ Run.unfinished
]

-- All that a run computes with.
parser : Unit {0}
unfolding run ◌>>=◌ fail_if warn parse_command notices term_values anchor_values field_value
    anchor_value value type_eq keyword is_keyword is_command is_prefix is_blank_type is_end_of_line
    describe_token is_mis_cased_keyword peek read_character new is_blank is_word_character
    scan_while scan_whitespace scan_string scan_phrase_loop scan_phrase single word_type scan_word
    scan_blanks symbol scan_at scan skip_blank Scan.next double is_term_rune flush fields_func words
    sets in_set kept clean_content text_eq join int_eq int_ltb itoa decimal digits int64 negate
    parse_uint parse_int split_last unit_duration parse_absolute parse_relative parse_split
    parse_time_value has_top top_or has_depth anchored_search depth_or print_number parse_magnitude
    with_sign atoi uint8 next take expect_or expect after_blank is_at_end is_value
    is_dangling_keyword keyword_type is_relative reads_duration clause_placeholder
    err_keyword_as_clause err_other err_unexpected err_keyword_as_term err_missing_colon
    err_recall_clause_on_write err_duplicate phrase_value clause_value is_empty_value refuse_empty
    err_blank_separator err_separator parse_separator int_value parse_int_field time_value
    parse_time_field err_not_value parse_value parse_anchor_field parse_vec_field selector_value
    is_spaced_selector parse_graph_selector parse_phrase optional_selector parse_selector
    warn_mis_cased_keyword parse_keyword_term parse_term parse_terms is_stop_term stop_tokens
    has_other_term warn_each judge_stop_words warn_stop_words warn_depth_without_graph
    warn_anchors_without_depth has_seed finish_recall parse_clauses err_clause_on_write
    remember_clause parse_remember recall_clause parse_recall parse_query skip_blank_lines
    parse_text rune_error start parse
parser = tt

billing : List Text
billing = codes "billing" ∷ codes "the" ∷ codes "it's" ∷ []

run_recall :
    run (codes "recall@3 Billing the 'It''s' TOPIC:Ops since:7d depth:2")
    ≡ Run.recalled billing
        (codes "ops" ∷ [])
        (ℤ.pos 0)
        (ℤ.pos 2)
        (some (TimeValue.relative (ℤ.pos 604800000000000)))
        (Notice.ran_as_clause (codes "TOPIC") (codes "topic") ∷ Notice.stop_word (codes "the") ∷ [])
unfolding billing parser
run_recall = refl

run_remember : run (codes "remember 'Ana''s cat' entity:Ana") ≡ Run.remembered (codes "Ana's cat")
unfolding parser
run_remember = refl

run_missing_colon :
    run (codes "recall x since 7d")
    ≡ Run.refused (Message.term_is_keyword (codes "since") (codes "since") (codes "7d")) 14
unfolding parser
run_missing_colon = refl

run_stop_words : run (codes "recall the") ≡ Run.refused (Message.only_stop_word (codes "the")) 10
unfolding parser
run_stop_words = refl

run_selector :
    run (codes "recall@256 x") ≡ Run.refused (Message.selector_out_of_range (ℤ.pos 256) 255) 10
unfolding parser
run_selector = refl

run_second_command :
    run (codes "recall x\nrecall y")
    ≡ Run.refused (Message.unexpected_after_end (Description.quoted (codes "recall"))) 15
unfolding parser
run_second_command = refl

run_empty : run [] ≡ Run.refused (Message.expected_command Description.end_of_input) 0
unfolding parser
run_empty = refl

-- A quoted number keeps its sign: the message of a refusal says "a non-negative whole number".
run_negative_depth :
    run (codes "recall x depth:'-5'")
    ≡ Run.recalled
        (codes "x" ∷ [])
        []
        (ℤ.pos 0)
        (ℤ.negsuc 4)
        none
        (Notice.depth_without_graph (codes "depth:-5") ∷ [])
unfolding parser
run_negative_depth = refl

abbrev short_query : Text
short_query = codes "remember 'x' topic:a"

abbrev parse_short : Outcome (CommandNode ℕ ℕ)
parse_short = parse ascii still no_params short_query

command_or : CommandNode ℕ ℕ → Outcome (CommandNode ℕ ℕ) → CommandNode ℕ ℕ
command_or d (Outcome.done c p) = c
command_or d _ = d

parser_or : Parser → Outcome (CommandNode ℕ ℕ) → Parser
parser_or d (Outcome.done c p) = p
parser_or d _ = d

abbrev no_command : CommandNode ℕ ℕ
no_command = CommandNode.remember (record {
  key = no_token;
  selector = no_selector;
  value = record { value = []; pos = 0; end = 0 };
  anchors = [];
  vec = none;
  pos = 0;
  end = 0;
})

abbrev short_command : CommandNode ℕ ℕ
short_command = command_or no_command parse_short

abbrev short_end : Parser
short_end = parser_or (start short_query) parse_short

parse_ends_example : parse_short ≢ Outcome.stuck
parse_ends_example = parse_ends ascii ascii-IsStandard still no_params short_query

abbrev bad_selector : Text
bad_selector = codes "recall@256 x"

abbrev bad_selector_error : Error
bad_selector_error = record { msg = Message.selector_out_of_range (ℤ.pos 256) 255; pos = 10 }

bad_selector_refused :
    parse {P = ℕ} ascii still no_params bad_selector ≡ Outcome.failed bad_selector_error []
unfolding parser
bad_selector_refused = refl

parse-failed_example : (10 ≤ length bad_selector) × AllWithin (length bad_selector) []
parse-failed_example =
    parse-failed ascii ascii-IsStandard still no_params bad_selector bad_selector_error []
      bad_selector_refused
