-- ===== src/Nlp.antt =====
-- internal/index/nlp: where a term ends (tokenizer.go) and what the stop words leave of a text
-- (stopwords/stopwords.go). What the code takes from the Snowball stemmer and from
-- golang.org/x/text is a parameter.
mod English
pub mod Cleaned
mod Tests
use fraise.Prelude.{
  ℕ, Bool, true, false, not, ◌||◌, List, [], ◌∷◌, ◌++◌, map, Option, none, some, if◌then◌else◌,
}
use fraise.Prelude.Text.{Text, codes, text_eq, join}
use fraise.Lexer.Token.{Unicode, lower}
use fraise.Nlp.English.{english}

unfoldable pub is_term_rune : Unicode → ℕ → Bool
is_term_rune u c = u.is_letter c || u.is_digit c || u.is_symbol_other c

-- A run that ended, which is a field unless it is empty.
unfoldable pub flush : Text → List Text → List Text
flush [] fields = fields
flush (c ∷ run) fields = (c ∷ run) ∷ fields

-- `strings.FieldsFunc(s, func(r) { return !keep(r) })`, inside a field that has begun with `run`.
unfoldable pub fields_func : (ℕ → Bool) → Text → Text → List Text
unfolding flush
fields_func keep run [] = flush run []
fields_func keep run (c ∷ s) =
    let longer = fields_func keep (run ++ c ∷ []) s in
    let other = fields_func keep [] s in if keep c then longer else flush run other

unfoldable pub words : Unicode → Text → List Text
unfolding is_term_rune fields_func
words u s = fields_func (is_term_rune u) [] s

unfoldable pub simple_tokenize : Unicode → Text → List Text
unfolding words
simple_tokenize u s = words u (lower u s)

-- `stem` is what the Snowball package makes of a term.
unfoldable pub stemming_tokenize : Unicode → (Text → Text) → Text → List Text
unfolding simple_tokenize
stemming_tokenize u stem s = map stem (simple_tokenize u s)

-- What `Base` returns for a language tag.
pub record Tag : Type 0 where
  pub base : Text
  pub exact : Bool

abbrev pub english_tag : Tag
english_tag = record { base = codes "en"; exact = true }

-- `set, ok := sets[base]`
unfoldable pub sets : Text → Option (List Text)
unfolding text_eq
sets base = if text_eq base (codes "en") then some english else none

unfoldable pub in_set : Text → List Text → Bool
unfolding text_eq
in_set s [] = false
in_set s (w ∷ set) = text_eq s w || in_set s set

-- The loop of `CleanContent`.
unfoldable pub kept : Unicode → List Text → List Text → List Text
unfolding in_set
kept u set [] = []
kept u set (w ∷ ws) = let rest = kept u set ws in if in_set (lower u w) set then rest else w ∷ rest

unfoldable pub clean_content : Unicode → Text → Tag → Text
unfolding words kept join sets
clean_content u content tag =
    if not tag.exact
    then content
    else elim (sets tag.base) [ none ↦ content | some set ↦ join (kept u set (words u content)) ]
