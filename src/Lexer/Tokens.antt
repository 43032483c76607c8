-- ===== src/Lexer/Tokens.antt =====
-- Calling `Next` until the end of the input.
use fraise.Prelude.{
  ℕ, zero, suc, ◌+◌, ◌<◌, ◌≤◌, ◌≡◌, ◌≢◌, refl, ap, ◌∙◌, sym, List, [], ◌∷◌, ◌++◌, arith, length,
  Option, some, none, if◌then◌else◌, ◌⊎◌, length-append, Bool-cases, inl, inr,
}
use fraise.Prelude.Text.{Text}
use fraise.Lexer.Token.{
  Unicode, IsStandard, TokenType, Token, type_eq, type_eq_iff, keyword-is_keyword, is_keyword,
  lower,
}
use fraise.Lexer.Scan.{Lexer, next, new, symbol}
use fraise.Lexer.Cursor.{IsValid, rest, new-IsValid, rest-new}
use fraise.Lexer.Grammar.{
  Lexes, Returned, symbol_rune, blanks, closed_phrase, open_phrase, nul_rune, bare_word,
  special_rune, end, word_kind,
}
use fraise.Lexer.Next.{next-Returned}

-- The tokens up to the first EOL, that one included.
pub tokens : ℕ → Unicode → Lexer → Option (List Token)
tokens zero u l = none
tokens (suc fuel) u l = elim (next u l) [
  | none ↦ none
  | some (t, l') ↦
      let more = tokens fuel u l' in
      if type_eq t.type TokenType.eol
      then some (t ∷ [])
      else elim more [ none ↦ none | some ts ↦ some (t ∷ ts) ]
]

length-pos : (s : Text) → s ≢ [] → 0 < length s
length-pos [] n = absurd (n refl)
length-pos (c ∷ s) n = omega arith

type_is : (a b : TokenType) → (a ≡ b) ⊎ (a ≢ b)
type_is a b = elim (Bool-cases (type_eq a b)) [
  | inl e ↦ inl ((type_eq_iff a b).0 e)
  | inr n ↦ inr (λ e. ground (arith, type_eq_iff a b))
]

-- The tokens `ts` spell the text `s` from the position `n` on, each by a part of its own that is
-- not empty, and only the last one is an EOL.
pub data Spells (u : Unicode) : ℕ → Text → List Token → Type 0 where
  last :
      (t : Token) {n : ℕ} {s : Text}
      → t.type ≡ TokenType.eol
      → t.pos ≡ n
      → s ≡ []
      → Spells u n s (t ∷ [])
  then_more :
      (t : Token) (w r : Text) {n : ℕ} {s : Text} {ts : List Token}
      → Lexes u t.type t.literal w r
      → t.type ≢ TokenType.eol
      → w ≢ []
      → s ≡ w ++ r
      → t.pos ≡ n + length w
      → Spells u t.pos r ts
      → Spells u n s (t ∷ ts)

-- An EOL is spelled by nothing at the end, and any other token by some rune.
symbol-ne-eol : (c : ℕ) → symbol c ≢ some TokenType.eol
unfolding symbol
symbol-ne-eol c = ground arith

word_kind-ne-eol : (u : Unicode) (w r : Text) → word_kind u w r ≢ TokenType.eol
unfolding word_kind is_keyword
word_kind-ne-eol u w r =
    ground (arith, keyword-is_keyword w TokenType.eol, keyword-is_keyword (lower u w) TokenType.eol)

eol_spelling :
    (u : Unicode) (t : TokenType) (s w r : Text)
    → Lexes u t s w r
    → t ≡ TokenType.eol
    → (w ≡ []) × (r ≡ [])
eol_spelling u t s w r (symbol_rune c h _ _) e = absurd (symbol-ne-eol c (h ∙ ap some e))
eol_spelling u t s w r (blanks h _ _ _ _) e = cc
eol_spelling u t s w r (closed_phrase h _ _) e = cc
eol_spelling u t s w r (open_phrase h _ _) e = cc
eol_spelling u t s w r (nul_rune h _ _) e = cc
eol_spelling u t s w r (bare_word _ _ _ _ h _) e = absurd (word_kind-ne-eol u w r (sym h ∙ e))
eol_spelling u t s w r (special_rune c h _ _ _ _) e = cc
eol_spelling u t s w r (end h a b _) e = (a, b)

nil_spelling :
    (u : Unicode) (t : TokenType) (s w r : Text) → Lexes u t s w r → w ≡ [] → t ≡ TokenType.eol
nil_spelling u t s w r (symbol_rune c _ h _) e = ground arith
nil_spelling u t s w r (blanks _ h _ _ _) e = absurd (h e)
nil_spelling u t s w r (closed_phrase _ h _) e = ground arith
nil_spelling u t s w r (open_phrase _ h _) e = ground arith
nil_spelling u t s w r (nul_rune _ h _) e = ground arith
nil_spelling u t s w r (bare_word h _ _ _ _ _) e = absurd (h e)
nil_spelling u t s w r (special_rune c _ _ _ h _) e = ground arith
nil_spelling u t s w r (end h _ _ _) e = h

abbrev Tokenised : Unicode → ℕ → Lexer → Type 0
Tokenised u fuel l =
    (ts : List Token) × (tokens fuel u l ≡ some ts) × Spells u l.current_pos (rest l) ts

module _ (u : Unicode) (fuel : ℕ) (l : Lexer) (r : Returned u l) where
  tokens_last : r.token.type ≡ TokenType.eol → Tokenised u (suc fuel) l
  unfolding tokens type_eq
  tokens_last e =
      let (none_read, none_left) = eol_spelling u _ _ _ _ r.lexes e in
      (
        r.token ∷ [],
        ground (arith, r.returns, e),
        Spells.last r.token e (r.position ∙ omega (arith, r.moved.moved, ap length none_read))
            (r.parts ∙ cc (none_read, none_left)),
      )

  tokens_more : r.token.type ≢ TokenType.eol → Tokenised u fuel r.after → Tokenised u (suc fuel) l
  unfolding tokens
  tokens_more n (ts, found, spelled) =
      let at : r.token.pos ≡ l.current_pos + length r.spelling = r.position ∙ r.moved.moved in
      (
        r.token ∷ ts,
        ground (arith, r.returns, found, n, type_eq_iff r.token.type TokenType.eol),
        Spells.then_more r.token r.spelling r.left r.lexes n
            (λ e. n (nil_spelling u _ _ _ _ r.lexes e)) r.parts at
            (rw (r.position, ← r.moved.left) spelled),
      )

  left_shorter : r.token.type ≢ TokenType.eol → length (rest r.after) < length (rest l)
  left_shorter n = ground (
    arith,
    nil_spelling u _ _ _ _ r.lexes,
    length-append r.spelling r.left,
    length-pos r.spelling,
    ap length r.parts,
    ap length r.moved.left,
  )

-- A token takes a rune at least, and an EOL none.
pub fewer_left :
    (u : Unicode) (l : Lexer) (r : Returned u l)
    → length (rest r.after) + (if type_eq r.token.type TokenType.eol then 0 else 1)
      ≤ length (rest l)
fewer_left u l r = elim (type_is r.token.type TokenType.eol) [
  | inl e ↦
      rw ((type_eq_iff _ _).1 e)
        (omega (arith, length-append r.spelling r.left, ap length r.parts, ap length r.moved.left))
  | inr n ↦ ground (arith, left_shorter u 0 l r n, type_eq_iff r.token.type TokenType.eol)
]

tokens-next :
    (u : Unicode)
    → IsStandard u
    → (fuel : ℕ) (l : Lexer) → IsValid l
    → length (rest l) < fuel
    → Tokenised u fuel l
tokens-next u std zero l v f = absurd (omega arith)
tokens-next u std (suc fuel) l v f =
    let r = next-Returned u std l v in
    let ih = tokens-next u std fuel r.after r.moved.valid in
    elim (type_is r.token.type TokenType.eol) [
      | inl e ↦ tokens_last u fuel l r e
      | inr n ↦ tokens_more u fuel l r n (ih (omega (arith, left_shorter u fuel l r n)))
    ]

-- If the rune 0 is no letter and no digit, every text is a sequence of tokens of the grammar, spelled one after another by parts of the
-- text that are not empty, each with the position of its last rune, and closed by one EOL at the
-- end. `Next`, called from `New` on, returns them within one call more than there are runes.
pub tokens_total :
    (u : Unicode) (s : Text)
    → IsStandard u
    → (ts : List Token) × (tokens (length s + 1) u (new s) ≡ some ts) × Spells u 0 s ts
unfolding new
tokens_total u s std =
    let e = rest-new s in
    let (ts, found, spelled) =
      tokens-next u std (length s + 1) (new s) (new-IsValid s) (rw e (omega arith)) in
    (ts, found, rw e at spelled)
