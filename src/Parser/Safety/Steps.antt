-- ===== src/Parser/Safety/Steps.antt =====
-- The steps of the parser's machine: moving the window, and the rule for one step after another.
use fraise.Prelude.{
  ℕ, suc, ◌+◌, ◌≤◌, ◌≡◌, refl, ap, ◌∙◌, Bool, true, false, List, [], ◌∷◌, ◌++◌, some, arith, length,
  if◌then◌else◌, Bool-cases, inl, inr,
}
use fraise.Lexer.Token.{Unicode, IsStandard, TokenType, Token, type_eq, type_eq_iff}
use fraise.Lexer.Scan.{Lexer}
use fraise.Lexer.Scan as Scan
use fraise.Lexer.Cursor.{IsValid, rest}
use fraise.Lexer.Next.{next-Returned}
use fraise.Lexer.Tokens.{fewer_left}
use fraise.Parser.Message.{Message, Error, Warning, error_at}
use fraise.Parser.Machine.{
  Parser, Outcome, M, ◌>>=◌, fail, fail_if, warn, next, take, expect_or, window,
}
use fraise.Parser.Written.{Moves, token_at-next, lexer_at-next}
use fraise.Prelude.Text.{Text}
use fraise.Parser.Safety.{weight, remaining, AllWithin, Ready, Ends, returned, refused}

-- `Next` returns a token of the text, and leaves less unless it is the end.
pub record Scanned (u : Unicode) (l : Lexer) : Type 0 where
  pub token : Token
  pub after : Lexer
  pub returns : Scan.next u l ≡ some (token, after)
  pub valid : IsValid after
  pub size : length after.input ≡ length l.input
  pub within : token.pos ≤ length l.input
  pub less : length (rest after) + weight token.type ≤ length (rest l)

pub warns-append :
    (N : ℕ) (ws : List Warning) (w : Warning)
    → AllWithin N ws
    → w.pos ≤ N
    → AllWithin N (ws ++ w ∷ [])
warns-append N [] w a h = (h, tt)
warns-append N (v ∷ ws) w (b, a) h = (b, warns-append N ws w a h)

module _ {u : Unicode} {text : Text} {m n : ℕ} {A B : Type 0} {Q : A → Parser → Type 0}
    {R : B → Parser → Type 0} where
  after :
      (o : Outcome A) (f : A → M B)
      → Ends u text m Q o
      → ((a : A) (q : Parser) → Ready u text q → remaining q ≤ m → Q a q → Ends u text n R (f a q))
      → Ends u text n R (elim o as (λ _. Outcome B) [
        | Outcome.done a q ↦ f a q
        | Outcome.failed e ws ↦ Outcome.failed e ws
        | Outcome.stuck ↦ Outcome.stuck
      ])
  after o f (returned g h x) k = k _ _ g h x
  after o f (refused b ws) k = refused b ws

  -- One step after another.
  pub bind-Ends :
      (c : M A) (f : A → M B) (p : Parser)
      → Ends u text m Q (c p)
      → ((a : A) (q : Parser) → Ready u text q → remaining q ≤ m → Q a q → Ends u text n R (f a q))
      → Ends u text n R ((c >>= f) p)
  unfolding ◌>>=◌
  bind-Ends c f p e k = after (c p) f e k

-- A look at the window moves nothing.
pub window-Ends :
    {u : Unicode} {text : Text} {n : ℕ} {B : Type 0} {R : B → Parser → Type 0} (f : Parser → M B)
    (p : Parser)
    → Ends u text n R (f p p)
    → Ends u text n R ((window >>= f) p)
unfolding ◌>>=◌
window-Ends f p e = e

pub fail-Ends :
    {u : Unicode} {text : Text} {n : ℕ} {A : Type 0} {R : A → Parser → Type 0} (e : Error)
    (p : Parser)
    → Ready u text p
    → e.pos ≤ length text
    → Ends u text n R (fail e p)
fail-Ends e p g b = refused b g.warns_within

-- A test decides how the production goes on.
pub if-Ends :
    {u : Unicode} {text : Text} {n : ℕ} {A : Type 0} {R : A → Parser → Type 0} (c : Bool)
    (a b : M A) (p : Parser)
    → (c ≡ true → Ends u text n R (a p))
    → (c ≡ false → Ends u text n R (b p))
    → Ends u text n R ((if c then a else b) p)
if-Ends true a b p h k = h refl
if-Ends false a b p h k = k refl

module _ {u : Unicode} {text : Text} {n : ℕ} {A : Type 0} {Q R : A → Parser → Type 0} where
  pub map-Ends :
      (o : Outcome A)
      → Ends u text n Q o
      → ((a : A) (q : Parser) → Q a q → R a q)
      → Ends u text n R o
  map-Ends o (returned g h x) k = returned g h (k _ _ x)
  map-Ends o (refused b ws) k = refused b ws

module _ {u : Unicode} {text : Text} {n : ℕ} (p : Parser) (g : Ready u text p)
    (h : remaining p ≤ n) where
  pub fail_if-Ends :
      (c : Bool) (e : Error)
      → e.pos ≤ length text
      → Ends u text n (λ _ q. (c ≡ false) × (q ≡ p)) (fail_if c e p)
  unfolding fail_if
  fail_if-Ends true e b = refused b g.warns_within
  fail_if-Ends false e b = returned g h (refl, refl)

  pub warn-Ends :
      (w : Warning) → w.pos ≤ length text → Ends u text n (λ _ q. q.cur ≡ p.cur) (warn w p)
  unfolding warn
  warn-Ends w b =
      returned
        (record {
          valid = g.valid;
          size = g.size;
          cur_within = g.cur_within;
          peek_within = g.peek_within;
          warns_within = warns-append (length text) p.warns w g.warns_within b;
          placed = (
            g.placed.0,
            record {
              cur_is = g.placed.1.cur_is;
              peek_is = g.placed.1.peek_is;
              lexer_is = g.placed.1.lexer_is;
            },
          );
        })
        h refl

module _ (u : Unicode) (std : IsStandard u) where
  pub next-Scanned : (l : Lexer) → IsValid l → Scanned u l
  next-Scanned l v =
      let r = next-Returned u std l v in
      record {
        token = r.token;
        after = r.after;
        returns = r.returns;
        valid = r.moved.valid;
        size = ap length r.moved.same_input;
        within = rw r.position (omega (arith, r.moved.valid.inside, ap length r.moved.same_input));
        less = fewer_left u l r;
      }

  module _ {text : Text} (n : ℕ) (p : Parser) (g : Ready u text p) where
    -- The window that `next` leaves is one token further.
    next-At :
        (s : Scanned u p.l)
        → Moves u text p (record p { l = s.after; cur = p.peek; peek = s.token })
    next-At s i a = record {
      cur_is = a.peek_is;
      peek_is = token_at-next u text (suc (suc i)) a.lexer_is s.returns;
      lexer_is = lexer_at-next u text (suc (suc i)) a.lexer_is s.returns;
    }

    pub next-Ends :
        remaining p ≤ n + weight p.cur.type
        → Ends u text n
            (λ _ q. (q.cur ≡ p.peek) × (q.warns ≡ p.warns) × Moves u text p q)
            (next u p)
    unfolding next
    next-Ends h =
        let s = next-Scanned p.l g.valid in
        rw (s.returns, next)
          (returned
            (record {
              valid = s.valid;
              size = s.size ∙ g.size;
              cur_within = g.peek_within;
              peek_within = rw g.size at s.within;
              warns_within = g.warns_within;
              placed = (suc g.placed.0, next-At s g.placed.0 g.placed.1);
            })
            (omega (arith, h, s.less)) (refl, refl, next-At s))

    -- A step over a token that is not an EOL leaves less.
    pub take_shrinks :
        remaining p ≤ n + weight p.cur.type
        → Ends u text n
            (λ tok q. (tok ≡ p.cur) × (tok.pos ≤ length text) × Moves u text p q)
            (take u p)
    unfolding take
    take_shrinks h =
        bind-Ends _ _ p (next-Ends h)
          (λ _ q g' h' (_, _, m). returned g' h' (refl, g.cur_within, m))

  module _ {text : Text} {n : ℕ} (p : Parser) (g : Ready u text p) (h : remaining p ≤ n) where
    pub take-Ends :
        Ends u text n
          (λ tok q. (tok ≡ p.cur) × (tok.pos ≤ length text) × Moves u text p q)
          (take u p)
    take-Ends = take_shrinks n p g (omega (arith, h))

    pub expect_or-Ends :
        (t : TokenType) (err : Token → Error)
        → (err p.cur).pos ≤ length text
        → Ends u text n
            (λ tok q. (tok.pos ≤ length text) × (tok.type ≡ t) × (tok ≡ p.cur) × Moves u text p q)
            (expect_or u t err p)
    unfolding expect_or
    expect_or-Ends t err b = elim (Bool-cases (type_eq p.cur.type t)) [
      | inl e ↦ rw e (
          map-Ends (take u p) take-Ends (λ tok q x.
            (x.1, ap (λ (k : Token). k.type) x.0 ∙ (type_eq_iff p.cur.type t).0 e, x.0, x.2)))
      | inr e ↦ rw e (refused b g.warns_within)
    ]

    -- The same, where the error names the token that was found.
    pub expect_at-Ends :
        (t : TokenType) (msg : Token → Message)
        → Ends u text n
            (λ tok q. (tok.pos ≤ length text) × (tok.type ≡ t) × (tok ≡ p.cur) × Moves u text p q)
            (expect_or u t (λ tok. error_at tok.pos (msg tok)) p)
    expect_at-Ends t msg = expect_or-Ends t (λ tok. error_at tok.pos (msg tok)) g.cur_within

-- The window stands on what `next` has left of it, whatever stood there.
pub next-Scanned_lem :
    (u : Unicode) (p : Parser) (s : Scanned u p.l)
    → next u p ≡ Outcome.done tt (record p { l = s.after; cur = p.peek; peek = s.token })
unfolding next
next-Scanned_lem u p s = rw (s.returns, next) refl

pub bind-done :
    {A B : Type 0} (c : M A) (f : A → M B) (p : Parser) {a : A} {q : Parser}
    → c p ≡ Outcome.done a q
    → (c >>= f) p ≡ f a q
unfolding ◌>>=◌
bind-done c f p e = rw (e, ◌>>=◌) refl
