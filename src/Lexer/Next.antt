-- ===== src/Lexer/Next.antt =====
-- `Next` returns exactly one token of the grammar, from every valid state.
use fraise.Prelude.{
  ℕ, ◌≡◌, ◌≢◌, refl, ap, ◌∙◌, Bool, true, false, [], ◌∷◌, ◌++◌, arith, length, ◌==◌, some, none,
  ==_iff, inl, inr, Bool-cases, length-append, Option-cases,
}
use mathlib.Core.List.{append_assoc, append-nil}
use fraise.Prelude.Text.{Text}
use fraise.Lexer.Token.{Unicode, IsStandard, TokenType}
use fraise.Lexer.Scan.{
  Lexer, peek, read_character, scan_while, scan_string, scan_whitespace, scan_phrase, single,
  word_type, scan_at, scan_word, scan_blanks, symbol, scan, next, is_blank, is_word_character,
  fuel_for,
}
use fraise.Lexer.Cursor.{
  IsValid, rest, advance, peek-cons, peek-nil, rest-read, read-IsValid, inside_of_rest, at_end,
  advance-Moved, Moved, length-rest-le,
}
use fraise.Lexer.Loops.{
  starts, double, length-le-double, is_quote, split, scan_while-run, split_phrase, phrase_type,
  closing, scan_phrase_loop-double, Split, PhraseSplit,
}
use fraise.Lexer.Grammar.{
  is_colon, is_syntax, word_kind, Lexes, symbol_rune, blanks, closed_phrase, open_phrase, nul_rune,
  bare_word, special_rune, end, Returned,
}

-- What the `switch` of `Next` returns at the text `s`.
record ScanReturned (u : Unicode) (l : Lexer) (s : Text) : Type 0 where
  type : TokenType
  literal : Text
  spelling : Text
  left : Text
  returns : scan u l ≡ some (type, literal, advance l spelling)
  parts : s ≡ spelling ++ left
  lexes : Lexes u type literal spelling left

phrase-Lexes :
    (u : Unicode) (closed : Bool) (value after : Text)
    → starts is_quote after ≡ false
    → (closed ≡ false → after ≡ [])
    → Lexes u (phrase_type closed) value (b'\'' ∷ (double value ++ closing closed)) after
phrase-Lexes u true value after s x = closed_phrase refl refl s
phrase-Lexes u false value after s x =
    open_phrase refl (ap (◌∷◌ b'\'') (append-nil (double value))) (x refl)

run_starts :
    (p q : ℕ → Bool) (c : ℕ) (s : Text) (t : Split p (c ∷ s)) → q c ≡ false → starts q t.run ≡ false
run_starts p q c s t h = go t.run t.parts
  where
    go : (run : Text) → c ∷ s ≡ run ++ t.after → starts q run ≡ false
    go [] parts = refl
    go (x ∷ run) parts = ground arith

run-ne-nil : (p : ℕ → Bool) (c : ℕ) (s : Text) (t : Split p (c ∷ s)) → p c ≡ true → t.run ≢ []
run-ne-nil p c s t h = λ e. go t.after (rw e at t.parts) t.stops
  where
    go : (r : Text) → c ∷ s ≡ r → starts p r ≡ false → ⊥
    go r parts stops = ground arith

module _ (l : Lexer) (v : IsValid l) {c : ℕ} {s : Text} (e : rest l ≡ c ∷ s) where
  scan_phrase-split :
      (p : PhraseSplit s)
      → scan_phrase l
        ≡ some (
          phrase_type p.closed,
          p.value,
          advance l (b'\'' ∷ (double p.value ++ closing p.closed)),
        )
  unfolding scan_phrase advance
  scan_phrase-split p =
      scan_phrase_loop-double p.value p.closed p.after (fuel_for l) (read_character l) []
        (read-IsValid l v e) (rest-read l v e ∙ p.parts) p.ends p.exhausted
        (omega (
          arith,
          length-rest-le l _ e,
          ap length p.parts,
          length-append (double p.value) (closing p.closed ++ p.after),
          length-le-double p.value,
        ))

  scan_while-Split :
      (q : ℕ → Bool)
      → q 0 ≡ false
      → (p : Split q (c ∷ s)) → scan_while q (fuel_for l) l [] ≡ some (p.run, advance l p.run)
  scan_while-Split q z p =
      scan_while-run q p.run p.after (fuel_for l) l [] v (e ∙ p.parts) p.passes p.stops z
        (omega (arith, length-rest-le l _ e, ap length p.parts, length-append p.run p.after))

module _ (l : Lexer) (v : IsValid l) where
  peek-colon : (r : Text) → rest l ≡ r → (peek l == b':') ≡ starts is_colon r
  peek-colon [] e = rw (peek-nil l v e)
  peek-colon (c ∷ r) e = rw (peek-cons l v e)

  word_type-word_kind :
      (u : Unicode) (w r : Text) → rest l ≡ r → word_type u w (peek l) ≡ word_kind u w r
  unfolding word_type word_kind
  word_type-word_kind u w r e = ground (arith, peek-colon r e)

module _ (u : Unicode) (std : IsStandard u) (l : Lexer) (v : IsValid l) where
  nul-not-word : is_word_character u 0 ≡ false
  unfolding is_word_character
  nul-not-word = rw (std.nul_letter, std.nul_digit)

  scan-nil : rest l ≡ [] → ScanReturned u l []
  unfolding advance scan scan_at symbol is_blank
  scan-nil e = record {
    type = TokenType.eol;
    literal = [];
    spelling = [];
    left = [];
    returns = rw (peek-nil l v e) (ground (arith, at_end l v e));
    parts = refl;
    lexes = end refl refl refl refl;
  }

  module _ {c : ℕ} {s : Text} (e : rest l ≡ c ∷ s) where
    single-cons : (t : TokenType) → single t l ≡ some (t, c ∷ [], advance l (c ∷ []))
    unfolding single advance read_character
    single-cons t = rw (peek-cons l v e)

    scan-symbol : (t : TokenType) → symbol c ≡ some t → ScanReturned u l (c ∷ s)
    unfolding scan scan_at
    scan-symbol t h = record {
      type = t;
      literal = c ∷ [];
      spelling = c ∷ [];
      left = s;
      returns = rw (peek-cons l v e) (ground (arith, single-cons t));
      parts = refl;
      lexes = symbol_rune c h refl refl;
    }

    scan-nul : symbol c ≡ none → c ≡ 0 → ScanReturned u l (c ∷ s)
    unfolding scan scan_at is_blank
    scan-nul h z = record {
      type = TokenType.nul;
      literal = c ∷ [];
      spelling = c ∷ [];
      left = s;
      returns =
          rw (peek-cons l v e) (ground (arith, single-cons TokenType.nul, inside_of_rest l v e));
      parts = refl;
      lexes = nul_rune refl (ap (λ (x : ℕ). x ∷ []) z) refl;
    }

    scan-special :
        symbol c ≡ none
        → (c == b'\'') ≡ false
        → is_blank c ≡ false
        → (c == 0) ≡ false
        → is_word_character u c ≡ false
        → ScanReturned u l (c ∷ s)
    unfolding scan scan_at is_syntax
    scan-special h q b z w = record {
      type = TokenType.special;
      literal = c ∷ [];
      spelling = c ∷ [];
      left = s;
      returns = rw (peek-cons l v e) (ground (arith, single-cons TokenType.special));
      parts = refl;
      lexes = special_rune c refl (ground arith) w refl refl;
    }

    scan-phrase : symbol c ≡ none → c ≡ b'\'' → ScanReturned u l (c ∷ s)
    unfolding scan scan_at
    scan-phrase h q =
        let p = split_phrase s in
        record {
          type = phrase_type p.closed;
          literal = p.value;
          spelling = b'\'' ∷ (double p.value ++ closing p.closed);
          left = p.after;
          returns = rw (peek-cons l v e) (ground (arith, scan_phrase-split l v e p));
          parts = cc (q, p.parts, append_assoc (double p.value) (closing p.closed) p.after);
          lexes = phrase-Lexes u p.closed p.value p.after p.ends p.exhausted;
        }

    scan-blanks :
        symbol c ≡ none → (c == b'\'') ≡ false → is_blank c ≡ true → ScanReturned u l (c ∷ s)
    unfolding scan scan_at scan_blanks scan_whitespace is_blank
    scan-blanks h q b =
        let p = split is_blank (c ∷ s) in
        record {
          type = TokenType.whitespace;
          literal = p.run;
          spelling = p.run;
          left = p.after;
          returns = rw (peek-cons l v e) (ground (arith, scan_while-Split l v e is_blank refl p));
          parts = p.parts;
          lexes = blanks refl (run-ne-nil is_blank c s p b) p.passes p.stops refl;
        }

    scan-word :
        symbol c ≡ none
        → (c == b'\'') ≡ false
        → is_blank c ≡ false
        → (c == 0) ≡ false
        → is_word_character u c ≡ true
        → ScanReturned u l (c ∷ s)
    unfolding scan scan_at scan_word scan_string is_syntax
    scan-word h q b z w =
        let p = split (is_word_character u) (c ∷ s) in
        record {
          type = word_kind u p.run p.after;
          literal = p.run;
          spelling = p.run;
          left = p.after;
          returns = rw (peek-cons l v e) (
              ground (
                arith,
                scan_while-Split l v e (is_word_character u) nul-not-word p,
                word_type-word_kind (advance l p.run) (behind p).valid u p.run p.after
                    (behind p).left,
              ));
          parts = p.parts;
          lexes =
              bare_word (run-ne-nil (is_word_character u) c s p w)
                (run_starts (is_word_character u) is_syntax c s p (ground arith)) p.passes p.stops
                refl refl;
        }
      where
        behind : (p : Split (is_word_character u) (c ∷ s)) → Moved l (advance l p.run) p.run p.after
        behind p = advance-Moved p.run p.after l v (e ∙ p.parts)

    scan-cons : ScanReturned u l (c ∷ s)
    scan-cons = elim (Option-cases (symbol c)) [
      | inr (t, h) ↦ scan-symbol t h
      | inl h ↦ elim (Bool-cases (c == b'\'')) [
        | inl q ↦ scan-phrase h ((==_iff c b'\'').0 q)
        | inr q ↦ elim (Bool-cases (is_blank c)) [
          | inl b ↦ scan-blanks h q b
          | inr b ↦ elim (Bool-cases (c == 0)) [
            | inl z ↦ scan-nul h ((==_iff c 0).0 z)
            | inr z ↦ elim (Bool-cases (is_word_character u c)) [
              | inl w ↦ scan-word h q b z w
              | inr w ↦ scan-special h q b z w
            ]
          ]
        ]
      ]
    ]

  scan-rest : (s : Text) → rest l ≡ s → ScanReturned u l s
  scan-rest [] e = scan-nil e
  scan-rest (c ∷ s) e = scan-cons e

  -- If the rune 0 is no letter and no digit, `Next` returns a token from every valid state: one that the grammar allows in front of what
  -- is left, spelled by exactly the runes that it consumed, with the position of the last of them.
  pub next-Returned : Returned u l
  unfolding next
  next-Returned =
      let r = scan-rest (rest l) refl in
      let m = advance-Moved r.spelling r.left l v r.parts in
      record {
        token = record {
          type = r.type;
          literal = r.literal;
          pos = (advance l r.spelling).current_pos;
        };
        after = advance l r.spelling;
        spelling = r.spelling;
        left = r.left;
        returns = rw (r.returns, next);
        parts = r.parts;
        moved = m;
        position = refl;
        lexes = r.lexes;
      }
