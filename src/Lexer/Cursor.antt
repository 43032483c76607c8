-- ===== src/Lexer/Cursor.antt =====
-- The lexer as a cursor: what is left to read, and where it stands once a run of runes is read.
use fraise.Prelude.{
  ℕ, zero, suc, ◌+◌, ◌≤◌, ◌<◌, ◌≡◌, refl, [], ◌∷◌, ◌++◌, arith, length, drop, get_or,
}
use fraise.Prelude.Text.{Text}
use fraise.Lexer.Scan.{Lexer, peek, read_character, new}

pub record IsValid (l : Lexer) : Type 0 where
  pub inside : l.current_pos ≤ length l.input
  pub following : l.next_pos ≡ l.current_pos + 1

abbrev pub rest : Lexer → Text
rest l = drop l.current_pos l.input

-- The lexer once `w` is read.
unfoldable pub advance : Lexer → Text → Lexer
advance l [] = l
advance l (c ∷ w) = advance (read_character l) w

drop-cons :
    (n : ℕ) (s : Text) {c : ℕ} {cs : Text}
    → drop n s ≡ c ∷ cs
    → (n < length s) × (get_or s n 0 ≡ c) × (drop (suc n) s ≡ cs)
drop-cons zero [] e = ground arith
drop-cons zero (x ∷ s) e = ground arith
drop-cons (suc n) [] e = ground arith
drop-cons (suc n) (x ∷ s) e = let (a, b, c) = drop-cons n s e in (omega arith, b, c)

drop-nil : (n : ℕ) (s : Text) → drop n s ≡ [] → n ≤ length s → n ≡ length s
drop-nil zero [] e h = refl
drop-nil zero (x ∷ s) e h = ground arith
drop-nil (suc n) [] e h = absurd (omega arith)
drop-nil (suc n) (x ∷ s) e h = omega (arith, drop-nil n s e (omega arith))

length-drop-le : (n : ℕ) (s : Text) → length (drop n s) ≤ length s
length-drop-le zero s = omega arith
length-drop-le (suc n) [] = omega arith
length-drop-le (suc n) (x ∷ s) = omega (arith, length-drop-le n s)

pub length-rest-le : (l : Lexer) (s : Text) → rest l ≡ s → length s ≤ length l.input
length-rest-le l s e = rw (← e) (length-drop-le l.current_pos l.input)

module _ (l : Lexer) (v : IsValid l) where
  module _ {c : ℕ} {cs : Text} (e : rest l ≡ c ∷ cs) where
    pub inside_of_rest : l.current_pos < length l.input
    inside_of_rest = (drop-cons l.current_pos l.input e).0

    pub peek-cons : peek l ≡ c
    unfolding peek
    peek-cons = ground (arith, drop-cons l.current_pos l.input e)

    pub rest-read : rest (read_character l) ≡ cs
    unfolding read_character
    rest-read =
        let at : l.next_pos ≡ suc l.current_pos = omega arith in
        rw at ((drop-cons l.current_pos l.input e).2)

    pub read-IsValid : IsValid (read_character l)
    unfolding read_character
    read-IsValid = omega (arith, inside_of_rest)

  pub peek-nil : rest l ≡ [] → peek l ≡ 0
  unfolding peek
  peek-nil e = ground (arith, drop-nil l.current_pos l.input e)

  pub at_end : rest l ≡ [] → l.current_pos ≡ length l.input
  at_end e = drop-nil l.current_pos l.input e v.inside

-- Where the lexer stands after reading `w` out of `w ++ r`.
pub record Moved (l l' : Lexer) (w r : Text) : Type 0 where
  pub valid : IsValid l'
  pub left : rest l' ≡ r
  pub same_input : l'.input ≡ l.input
  pub moved : l'.current_pos ≡ l.current_pos + length w

pub advance-Moved :
    (w r : Text) (l : Lexer) → IsValid l → rest l ≡ w ++ r → Moved l (advance l w) w r
unfolding advance read_character
advance-Moved [] r l v e = record { valid = v; left = e; same_input = refl; moved = omega arith }
advance-Moved (c ∷ w) r l v e =
    let m = advance-Moved w r (read_character l) (read-IsValid l v e) (rest-read l v e) in
    record {
      valid = m.valid;
      left = m.left;
      same_input = m.same_input;
      moved = omega (arith, m.moved);
    }

pub new-IsValid : (s : Text) → IsValid (new s)
unfolding new read_character
new-IsValid s = omega arith

pub rest-new : (s : Text) → rest (new s) ≡ s
unfolding new read_character
rest-new s = refl
