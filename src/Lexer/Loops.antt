-- ===== src/Lexer/Loops.antt =====
-- What the scanning loops of the lexer return: a run of runes, and a phrase without its quotes.
use fraise.Prelude.{
  ℕ, ◌≤◌, zero, suc, ◌<◌, ◌≡◌, refl, ap, ◌∙◌, Bool, true, false, [], ◌∷◌, ◌++◌, arith, length, leb,
  ◌==◌, some, if◌then◌else◌, ==_iff, inl, inr, Bool-cases,
}
use fraise.Prelude.Text.{Text, all}
use fraise.Lexer.Token.{TokenType}
use fraise.Lexer.Scan.{Lexer, peek, read_character, scan_while, scan_phrase_loop}
use fraise.Lexer.Cursor.{
  IsValid, rest, advance, peek-cons, peek-nil, rest-read, read-IsValid, inside_of_rest, at_end,
}
use mathlib.Core.List.{append_assoc, append-nil}

abbrev pub starts : (ℕ → Bool) → Text → Bool
starts p [] = false
starts p (c ∷ r) = p c

-- The longest run of runes that pass a test, and what is left.
pub record Split (p : ℕ → Bool) (s : Text) : Type 0 where
  pub run : Text
  pub after : Text
  pub parts : s ≡ run ++ after
  pub passes : all p run ≡ true
  pub stops : starts p after ≡ false

pub split : (p : ℕ → Bool) (s : Text) → Split p s
split p [] = record { run = []; after = []; parts = refl; passes = refl; stops = refl }
split p (c ∷ s) = elim (Bool-cases (p c)) [
  | inl h ↦
      let t = split p s in
      record {
        run = c ∷ t.run;
        after = t.after;
        parts = ap (◌∷◌ c) t.parts;
        passes = rw h t.passes;
        stops = t.stops;
      }
  | inr h ↦ record { run = []; after = c ∷ s; parts = refl; passes = refl; stops = h }
]

peek_stops :
    (p : ℕ → Bool) (l : Lexer) (r : Text)
    → IsValid l
    → rest l ≡ r
    → p 0 ≡ false
    → starts p r ≡ false
    → p (peek l) ≡ false
peek_stops p l [] v e z h = rw (peek-nil l v e) z
peek_stops p l (c ∷ r) v e z h = rw (peek-cons l v e) h

pub scan_while-run :
    (p : ℕ → Bool) (w r : Text) (fuel : ℕ) (l : Lexer) (res : Text)
    → IsValid l
    → rest l ≡ w ++ r
    → all p w ≡ true
    → starts p r ≡ false
    → p 0 ≡ false
    → length w < fuel
    → scan_while p fuel l res ≡ some (res ++ w, advance l w)
unfolding scan_while advance
scan_while-run p w r zero l res v e a s z f = absurd (omega arith)
scan_while-run p [] r (suc fuel) l res v e a s z f = rw (peek_stops p l r v e z s, append-nil res)
scan_while-run p (c ∷ w) r (suc fuel) l res v e a s z f =
    let ih =
      scan_while-run p w r fuel (read_character l) (res ++ c ∷ []) (read-IsValid l v e)
        (rest-read l v e) (ground arith) s z (omega arith) in
    let first : p c ≡ true = ground arith in rw (peek-cons l v e, first) (ih ∙ rw append_assoc)

-- `strings.ReplaceAll(s, "'", "''")`
unfoldable pub double : Text → Text
double [] = []
double (c ∷ s) = if c == b'\'' then b'\'' ∷ b'\'' ∷ double s else c ∷ double s

abbrev pub is_quote : ℕ → Bool
is_quote c = c == b'\''

pub length-le-double : (s : Text) → length s ≤ length (double s)
unfolding double
length-le-double [] = omega arith
length-le-double (c ∷ s) = ground (arith, length-le-double s)

-- What closes a phrase, and the type of the token read.
abbrev pub closing : Bool → Text
closing closed = if closed then b'\'' ∷ [] else []

abbrev pub phrase_type : Bool → TokenType
phrase_type closed = if closed then TokenType.phrase else TokenType.illegal

-- A phrase's text and its doubled form, read from where the opening quote stands.
pub record PhraseSplit (s : Text) : Type 0 where
  pub closed : Bool
  pub value : Text
  pub after : Text
  pub parts : s ≡ double value ++ (closing closed ++ after)
  pub ends : starts is_quote after ≡ false
  pub exhausted : closed ≡ false → after ≡ []

pub split_phrase : (s : Text) → PhraseSplit s
unfolding double
split_phrase [] = record {
  closed = false;
  value = [];
  after = [];
  parts = refl;
  ends = refl;
  exhausted = λ _. refl;
}
split_phrase (c ∷ []) = elim (Bool-cases (c == b'\'')) [
  | inl q ↦ record {
    closed = true;
    value = [];
    after = [];
    parts = ap (λ (x : ℕ). x ∷ []) ((==_iff c b'\'').0 q);
    ends = refl;
    exhausted = λ _. refl;
  }
  | inr n ↦ record {
    closed = false;
    value = c ∷ [];
    after = [];
    parts = rw n;
    ends = refl;
    exhausted = λ _. refl;
  }
]
split_phrase (c ∷ d ∷ s) =
    let inner = split_phrase s in
    let tail = split_phrase (d ∷ s) in
    elim (Bool-cases (c == b'\'')) [
      | inl q ↦ elim (Bool-cases (d == b'\'')) [
        | inl q' ↦ record {
          closed = inner.closed;
          value = b'\'' ∷ inner.value;
          after = inner.after;
          parts = ground (arith, inner.parts);
          ends = inner.ends;
          exhausted = inner.exhausted;
        }
        | inr n ↦ record {
          closed = true;
          value = [];
          after = d ∷ s;
          parts = ground arith;
          ends = n;
          exhausted = λ h. cc;
        }
      ]
      | inr n ↦ record {
        closed = tail.closed;
        value = c ∷ tail.value;
        after = tail.after;
        parts = rw n (ap (◌∷◌ c) tail.parts);
        ends = tail.ends;
        exhausted = tail.exhausted;
      }
    ]

module _ (l : Lexer) (res : Text) (fuel : ℕ) (v : IsValid l) where
  step-end : rest l ≡ [] → scan_phrase_loop (suc fuel) l res ≡ some (TokenType.illegal, res, l)
  unfolding scan_phrase_loop
  step-end e = ground (arith, at_end l v e)

  step-doubled :
      {s : Text}
      → rest l ≡ b'\'' ∷ b'\'' ∷ s
      → scan_phrase_loop (suc fuel) l res
        ≡ scan_phrase_loop fuel (read_character (read_character l)) (res ++ b'\'' ∷ [])
  unfolding scan_phrase_loop
  step-doubled e =
      let more : leb (length l.input) l.current_pos ≡ false =
        ground (arith, inside_of_rest l v e) in
      rw
        (more, peek-cons l v e, peek-cons (read_character l) (read-IsValid l v e) (rest-read l v e))

  step-close :
      {r : Text}
      → rest l ≡ b'\'' ∷ r
      → starts is_quote r ≡ false
      → scan_phrase_loop (suc fuel) l res ≡ some (TokenType.phrase, res, read_character l)
  unfolding scan_phrase_loop
  step-close {r} e s =
      let more : leb (length l.input) l.current_pos ≡ false =
        ground (arith, inside_of_rest l v e) in
      rw (
        more,
        peek-cons l v e,
        peek_stops is_quote (read_character l) r (read-IsValid l v e) (rest-read l v e) refl s,
      )

  step-inside :
      {c : ℕ} {s : Text}
      → rest l ≡ c ∷ s
      → (c == b'\'') ≡ false
      → scan_phrase_loop (suc fuel) l res ≡ scan_phrase_loop fuel (read_character l) (res ++ c ∷ [])
  unfolding scan_phrase_loop
  step-inside e n =
      let more : leb (length l.input) l.current_pos ≡ false =
        ground (arith, inside_of_rest l v e) in
      rw (more, peek-cons l v e, n)

-- What the loop of `scanPhrase` returns from inside a phrase.
pub scan_phrase_loop-double :
    (value : Text) (closed : Bool) (r : Text) (fuel : ℕ) (l : Lexer) (res : Text)
    → IsValid l
    → rest l ≡ double value ++ (closing closed ++ r)
    → starts is_quote r ≡ false
    → (closed ≡ false → r ≡ [])
    → length value < fuel
    → scan_phrase_loop fuel l res
      ≡ some (phrase_type closed, res ++ value, advance l (double value ++ closing closed))
unfolding advance double
scan_phrase_loop-double value closed r zero l res v e s x f = absurd (omega arith)
scan_phrase_loop-double [] true r (suc fuel) l res v e s x f =
    step-close l res fuel v e s ∙ rw append-nil
scan_phrase_loop-double [] false r (suc fuel) l res v e s x f =
    step-end l res fuel v (e ∙ x refl) ∙ rw append-nil
scan_phrase_loop-double (c ∷ value) closed r (suc fuel) l res v e s x f =
    elim (Bool-cases (c == b'\'')) [
      | inl q ↦
          let is : c ≡ b'\'' = (==_iff c b'\'').0 q in
          let e' : rest l ≡ b'\'' ∷ b'\'' ∷ (double value ++ (closing closed ++ r)) = rw q at e in
          let once = read-IsValid l v e' in
          let twice = read-IsValid (read_character l) once (rest-read l v e') in
          let behind = rest-read (read_character l) once (rest-read l v e') in
          let ih =
            scan_phrase_loop-double value closed r fuel (read_character (read_character l))
              (res ++ b'\'' ∷ []) twice behind s x (omega arith) in
          rw (q, is) (step-doubled l res fuel v e' ∙ ih ∙ rw append_assoc)
      | inr n ↦
          let e' : rest l ≡ c ∷ (double value ++ (closing closed ++ r)) = rw n at e in
          let ih =
            scan_phrase_loop-double value closed r fuel (read_character l) (res ++ c ∷ [])
              (read-IsValid l v e') (rest-read l v e') s x (omega arith) in
          rw n (step-inside l res fuel v e' n ∙ ih ∙ rw append_assoc)
    ]
