-- ===== src/Nlp/English.antt =====
-- internal/index/nlp/stopwords/en.go: the English stop words.
use fraise.Prelude.{List, [], ◌∷◌}
use fraise.Prelude.Text.{Text, codes}

abbrev pub english : List Text
english =
    codes "a"
    ∷ codes "about"
    ∷ codes "above"
    ∷ codes "after"
    ∷ codes "again"
    ∷ codes "against"
    ∷ codes "all"
    ∷ codes "am"
    ∷ codes "an"
    ∷ codes "and"
    ∷ codes "any"
    ∷ codes "are"
    ∷ codes "as"
    ∷ codes "at"
    ∷ codes "be"
    ∷ codes "because"
    ∷ codes "been"
    ∷ codes "before"
    ∷ codes "being"
    ∷ codes "below"
    ∷ codes "between"
    ∷ codes "both"
    ∷ codes "but"
    ∷ codes "by"
    ∷ codes "could"
    ∷ codes "did"
    ∷ codes "do"
    ∷ codes "does"
    ∷ codes "doing"
    ∷ codes "down"
    ∷ codes "during"
    ∷ codes "each"
    ∷ codes "few"
    ∷ codes "for"
    ∷ codes "from"
    ∷ codes "further"
    ∷ codes "had"
    ∷ codes "has"
    ∷ codes "have"
    ∷ codes "having"
    ∷ codes "he"
    ∷ codes "her"
    ∷ codes "here"
    ∷ codes "hers"
    ∷ codes "herself"
    ∷ codes "him"
    ∷ codes "himself"
    ∷ codes "his"
    ∷ codes "how"
    ∷ codes "i"
    ∷ codes "if"
    ∷ codes "in"
    ∷ codes "into"
    ∷ codes "is"
    ∷ codes "it"
    ∷ codes "its"
    ∷ codes "itself"
    ∷ codes "me"
    ∷ codes "more"
    ∷ codes "most"
    ∷ codes "my"
    ∷ codes "myself"
    ∷ codes "of"
    ∷ codes "off"
    ∷ codes "on"
    ∷ codes "once"
    ∷ codes "only"
    ∷ codes "or"
    ∷ codes "other"
    ∷ codes "ought"
    ∷ codes "our"
    ∷ codes "ours"
    ∷ codes "ourselves"
    ∷ codes "out"
    ∷ codes "over"
    ∷ codes "own"
    ∷ codes "same"
    ∷ codes "she"
    ∷ codes "should"
    ∷ codes "so"
    ∷ codes "some"
    ∷ codes "such"
    ∷ codes "than"
    ∷ codes "that"
    ∷ codes "the"
    ∷ codes "their"
    ∷ codes "theirs"
    ∷ codes "them"
    ∷ codes "themselves"
    ∷ codes "then"
    ∷ codes "there"
    ∷ codes "these"
    ∷ codes "they"
    ∷ codes "this"
    ∷ codes "those"
    ∷ codes "through"
    ∷ codes "to"
    ∷ codes "too"
    ∷ codes "under"
    ∷ codes "until"
    ∷ codes "up"
    ∷ codes "very"
    ∷ codes "was"
    ∷ codes "we"
    ∷ codes "were"
    ∷ codes "what"
    ∷ codes "when"
    ∷ codes "where"
    ∷ codes "which"
    ∷ codes "while"
    ∷ codes "who"
    ∷ codes "whom"
    ∷ codes "why"
    ∷ codes "with"
    ∷ codes "would"
    ∷ codes "you"
    ∷ codes "your"
    ∷ codes "yours"
    ∷ codes "yourself"
    ∷ codes "yourselves"
    ∷ []
