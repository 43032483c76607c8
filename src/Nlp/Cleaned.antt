-- ===== src/Nlp/Cleaned.antt =====
-- What stop-word cleaning leaves of a text: the words that are not on the list, and only them.
use fraise.Prelude.{
  ℕ, ◌≡◌, ◌≢◌, ◌⊎◌, refl, ap, ◌∙◌, Bool, true, false, List, [], ◌∷◌, ◌++◌, some, arith, Bool-cases,
  none, inl, inr,
}
use mathlib.Core.List.{append_assoc, append-nil}
use fraise.Prelude.Text.{Text, codes, text_eq, text_eq_iff, all, join}
use fraise.Prelude.Fields.{all-append}
use fraise.Nlp.English.{english}
use fraise.Lexer.Token.{Unicode, lower}
use fraise.Nlp.{is_term_rune, flush, fields_func, words, in_set, kept, sets, Tag, clean_content}

abbrev AreFields : (ℕ → Bool) → List Text → Type 0
AreFields keep [] = Unit
AreFields keep (w ∷ ws) = (w ≢ []) × (all keep w ≡ true) × AreFields keep ws

module _ (keep : ℕ → Bool) where
  fields_func-run :
      (w run s : Text)
      → all keep w ≡ true
      → fields_func keep run (w ++ s) ≡ fields_func keep (run ++ w) s
  unfolding fields_func
  fields_func-run [] run s a = rw append-nil
  fields_func-run (c ∷ w) run s a =
      let first : keep c ≡ true = ground arith in
      rw first (fields_func-run w (run ++ c ∷ []) s (ground arith) ∙ rw append_assoc)

  flush-field : (w : Text) (ws : List Text) → w ≢ [] → flush w ws ≡ w ∷ ws
  unfolding flush
  flush-field [] ws n = absurd (n refl)
  flush-field (c ∷ w) ws n = refl

  fields_func-join :
      (ws : List Text) → keep b' ' ≡ false → AreFields keep ws → fields_func keep [] (join ws) ≡ ws
  unfolding fields_func join
  fields_func-join [] z f = refl
  fields_func-join (w ∷ []) z (n, a, f) =
      (rw append-nil at (fields_func-run w [] [] a)) ∙ flush-field w [] n
  fields_func-join (w ∷ v ∷ ws) z (n, a, f) =
      fields_func-run w [] (b' ' ∷ join (v ∷ ws)) a
      ∙ rw z (flush-field w _ n ∙ ap (◌∷◌ w) (fields_func-join (v ∷ ws) z f))

  flush-AreFields :
      (run : Text) (ws : List Text)
      → all keep run ≡ true
      → AreFields keep ws
      → AreFields keep (flush run ws)
  unfolding flush
  flush-AreFields [] ws a f = f
  flush-AreFields (c ∷ run) ws a f = ((λ e. absurd cc), a, f)

  fields_func-AreFields :
      (run s : Text) → all keep run ≡ true → AreFields keep (fields_func keep run s)
  unfolding fields_func
  fields_func-AreFields run [] a = flush-AreFields run [] a tt
  fields_func-AreFields run (c ∷ s) a = elim (Bool-cases (keep c)) [
    | inl h ↦ rw h (
        fields_func-AreFields (run ++ c ∷ []) s
          (all-append keep run (c ∷ []) a (ground (arith, h))))
    | inr h ↦ rw h (flush-AreFields run _ a (fields_func-AreFields [] s refl))
  ]

module _ (u : Unicode) (set : List Text) where
  kept-AreFields :
      (keep : ℕ → Bool) (ws : List Text) → AreFields keep ws → AreFields keep (kept u set ws)
  unfolding kept
  kept-AreFields keep [] f = tt
  kept-AreFields keep (w ∷ ws) (n, a, f) = elim (Bool-cases (in_set (lower u w) set)) [
    | inl h ↦ rw h (kept-AreFields keep ws f)
    | inr h ↦ rw h (n, a, kept-AreFields keep ws f)
  ]

-- `t` is one of the words.
abbrev pub Listed : Text → List Text → Type 0
Listed t [] = ⊥
Listed t (w ∷ set) = (t ≡ w) ⊎ Listed t set

-- `ks` is `ws` without the words whose lowercase form is listed.
pub data Without (u : Unicode) (set : List Text) : List Text → List Text → Type 0 where
  none_left : Without u set [] []
  stop_word :
      {w : Text} {ws ks : List Text}
      → Listed (lower u w) set
      → Without u set ws ks
      → Without u set (w ∷ ws) ks
  other_word :
      {w : Text} {ws ks : List Text}
      → ¬ Listed (lower u w) set
      → Without u set ws ks
      → Without u set (w ∷ ws) (w ∷ ks)

in_set-Listed : (t : Text) (set : List Text) → in_set t set ≡ true → Listed t set
unfolding in_set
in_set-Listed t [] e = absurd cc
in_set-Listed t (w ∷ set) e = elim (Bool-cases (text_eq t w)) [
  | inl h ↦ inl ((text_eq_iff t w).0 h)
  | inr h ↦ inr (in_set-Listed t set (rw h at e))
]

Listed-in_set : (t : Text) (set : List Text) → Listed t set → in_set t set ≡ true
unfolding in_set
Listed-in_set t [] l = absurd l
Listed-in_set t (w ∷ set) (inl e) = rw ((text_eq_iff t w).1 e) refl
Listed-in_set t (w ∷ set) (inr h) = ground (arith, Listed-in_set t set h)

kept-Without : (u : Unicode) (set ws : List Text) → Without u set ws (kept u set ws)
unfolding kept
kept-Without u set [] = Without.none_left
kept-Without u set (w ∷ ws) = elim (Bool-cases (in_set (lower u w) set)) [
  | inl h ↦ rw h (Without.stop_word (in_set-Listed (lower u w) set h) (kept-Without u set ws))
  | inr h ↦ rw h (
      Without.other_word (λ l. absurd (ground (arith, h, Listed-in_set (lower u w) set l)))
        (kept-Without u set ws))
]

module _ (u : Unicode) (tag : Tag) where
  clean-inexact : tag.exact ≡ false → (s : Text) → clean_content u s tag ≡ s
  unfolding clean_content
  clean-inexact x s = rw x

  clean-unlisted : tag.exact ≡ true → sets tag.base ≡ none → (s : Text) → clean_content u s tag ≡ s
  unfolding clean_content
  clean-unlisted x e s = rw (x, e)

  clean-listed :
      {set : List Text}
      → tag.exact ≡ true
      → sets tag.base ≡ some set
      → (s : Text) → clean_content u s tag ≡ join (kept u set (words u s))
  unfolding clean_content
  clean-listed x e s = rw (x, e)

words-join :
    (u : Unicode) (set : List Text) (s : Text)
    → is_term_rune u b' ' ≡ false
    → words u (join (kept u set (words u s))) ≡ kept u set (words u s)
unfolding words
words-join u set s z = fields_func-join (is_term_rune u) (kept u set (words u s)) z (
    kept-AreFields u set (is_term_rune u) (words u s)
      (fields_func-AreFields (is_term_rune u) [] s refl))

-- What is left of the text `s`: under a tag that states English exactly, its words in their order and
-- spelling, without those whose lowercase form is an English stop word; under any other, `s`.
pub data Cleaned (u : Unicode) (s : Text) (tag : Tag) (r : Text) : Type 0 where
  cleaned :
      tag.exact ≡ true
      → tag.base ≡ codes "en"
      → Without u english (words u s) (words u r)
      → Cleaned u s tag r
  inexact : tag.exact ≡ false → r ≡ s → Cleaned u s tag r
  other_language : tag.base ≢ codes "en" → r ≡ s → Cleaned u s tag r

-- If a space delimits terms, `CleanContent` leaves, under a tag that states English exactly, a text
-- whose terms are those of the content, in their spelling and order, without just those whose
-- lowercase form is an English stop word; under any other tag it leaves the content as it is.
pub clean_content-Cleaned :
    (u : Unicode) (s : Text) (tag : Tag)
    → is_term_rune u b' ' ≡ false
    → Cleaned u s tag (clean_content u s tag)
unfolding sets
clean_content-Cleaned u s tag z = elim (Bool-cases tag.exact) [
  | inr x ↦ Cleaned.inexact x (clean-inexact u tag x s)
  | inl x ↦ elim (Bool-cases (text_eq tag.base (codes "en"))) [
    | inr other ↦
        Cleaned.other_language (λ e. absurd (ground (arith, other, (text_eq_iff _ _).1 e)))
          (clean-unlisted u tag x (rw other refl) s)
    | inl same ↦ Cleaned.cleaned x ((text_eq_iff _ _).0 same) (
        rw (clean-listed u tag {set = english} x (rw same refl) s, words-join u english s z)
          (kept-Without u english (words u s)))
  ]
]
