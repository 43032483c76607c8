-- ===== src/Nlp/Tests.antt =====
-- Runs of the tokenizer and of stop-word cleaning.
use fraise.Prelude.{◌≡◌, refl, [], ◌∷◌}
use fraise.Prelude.Text.{Text, codes, join}
use fraise.Lexer.Ascii.{ascii}
use fraise.Nlp.{
  is_term_rune, flush, fields_func, words, simple_tokenize, sets, in_set, kept, clean_content,
  english_tag,
}
use fraise.Nlp.Cleaned.{Cleaned, clean_content-Cleaned}

abbrev sentence : Text
sentence = codes "The Deploy isn't on-call"

tokenize_sentence :
    simple_tokenize ascii sentence
    ≡ codes "the" ∷ codes "deploy" ∷ codes "isn" ∷ codes "t" ∷ codes "on" ∷ codes "call" ∷ []
unfolding simple_tokenize words fields_func flush is_term_rune
tokenize_sentence = refl

clean_sentence : clean_content ascii sentence english_tag ≡ codes "Deploy isn t call"
unfolding clean_content words fields_func flush is_term_rune kept in_set sets join
clean_sentence = refl

clean_content-Cleaned_example :
    Cleaned ascii sentence english_tag (clean_content ascii sentence english_tag)
unfolding is_term_rune
clean_content-Cleaned_example = clean_content-Cleaned ascii sentence english_tag refl
