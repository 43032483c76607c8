-- ===== src/Containers/Slots.antt =====
-- A map from keys to slots that agrees with the keys in the slots, under the writes of the heap.
use fraise.Prelude.{
  ℕ, ◌≤◌, ◌<◌, ◌≡◌, ◌≢◌, ◌↔◌, refl, ap, ◌∙◌, sym, true, false, Option, none, some, ◌==◌,
  if◌then◌else◌, arith, inl, inr, ◌⊎◌, Bool-cases, ==_iff,
}
use fraise.Prelude.Maps.{Map, update, delete}
use native.Mathlib.Decide.{dec_lt}
use mathlib.Core.Logic.{if_pos, if_neg}

pub some_eq {ℓ} : {A : Type ℓ} {a b : A} → some a ≡ some b → a ≡ b
some_eq e = cc

none-ne-some {ℓ} : {A : Type ℓ} {a : A} → none ≢ some a
none-ne-some e = cc

==-true : (a b : ℕ) → a ≡ b → (a == b) ≡ true
==-true a b e = ground arith

==-false : (a b : ℕ) → a ≢ b → (a == b) ≡ false
==-false a b n = ground arith

pub at_if {ℓ} : {A : Type ℓ} (a b : ℕ) (x y : A) → a ≡ b → (if a == b then x else y) ≡ x
at_if a b x y e = rw (==-true a b e)

pub off_if {ℓ} : {A : Type ℓ} (a b : ℕ) (x y : A) → a ≢ b → (if a == b then x else y) ≡ y
off_if a b x y n = rw (==-false a b n)

pub eq_or_ne : (a b : ℕ) → (a ≡ b) ⊎ (a ≢ b)
eq_or_ne a b = elim (Bool-cases (a == b)) [
  | inl e ↦ inl ((==_iff a b).0 e)
  | inr n ↦ inr (λ e. ground arith)
]

pub lt_or_le : (a b : ℕ) → (a < b) ⊎ (b ≤ a)
lt_or_le a b = elim (dec_lt a b) [ yes p ↦ inl p | no n ↦ inr (omega arith) ]

lt_irrefl : {a b : ℕ} → a ≡ b → ¬ (a < b)
lt_irrefl e h = omega arith

module _ {ℓ} {K : Type ℓ} where
  -- `f` gives the key in each slot, and `m` the slot of each key.
  abbrev pub Agrees : Map K ℕ → (ℕ → Option K) → Type ℓ
  Agrees m f = (k : K) (i : ℕ) → (m k ≡ some i) ↔ (f i ≡ some k)

module _ {ℓ} {K : Type ℓ} (dec : Discrete K) (m : Map K ℕ) (f : ℕ → Option K) (v : Agrees m f) where
  same_slot : (k : K) {i j : ℕ} → f i ≡ some k → f j ≡ some k → i ≡ j
  same_slot k p q = some_eq (sym ((v k _).1 p) ∙ (v k _).1 q)

  module _ (i j : ℕ) (x y : K) (fi : f i ≡ some x) (fj : f j ≡ some y) where
    exchanged_map : Map K ℕ
    exchanged_map = update dec (update dec m y i) x j

    exchanged_keys : ℕ → Option K
    exchanged_keys c = if j == c then some x else if i == c then some y else f c

    map_to_key : (k : K) (c : ℕ) → exchanged_map k ≡ some c → exchanged_keys c ≡ some k
    unfolding exchanged_map exchanged_keys
    map_to_key k c e = elim (dec k x) [
      | yes p ↦
          let is : j ≡ c = some_eq (sym (if_pos (dec k x) p _ _) ∙ e) in
          at_if j c _ _ is ∙ ap some (sym p)
      | no n ↦
          let e' = sym (if_neg (dec k x) n _ _) ∙ e in
          elim (dec k y) [
            | yes q ↦
                let is : i ≡ c = some_eq (sym (if_pos (dec k y) q _ _) ∙ e') in
                let apart : j ≢ c = λ s. n (q ∙ some_eq (sym fj ∙ ap f (s ∙ sym is) ∙ fi)) in
                off_if j c _ _ apart ∙ at_if i c _ _ is ∙ ap some (sym q)
            | no q ↦
                let old : f c ≡ some k = (v k c).0 (sym (if_neg (dec k y) q _ _) ∙ e') in
                off_if j c _ _ (λ s. q (some_eq (sym old ∙ ap f (sym s) ∙ fj)))
                ∙ off_if i c _ _ (λ s. n (some_eq (sym old ∙ ap f (sym s) ∙ fi)))
                ∙ old
          ]
    ]

    key_to_map : (k : K) (c : ℕ) → exchanged_keys c ≡ some k → exchanged_map k ≡ some c
    unfolding exchanged_map exchanged_keys
    key_to_map k c e = elim (eq_or_ne j c) [
      | inl s ↦
          let is : x ≡ k = some_eq (sym (at_if j c _ _ s) ∙ e) in
          if_pos (dec k x) (sym is) _ _ ∙ ap some s
      | inr s ↦
          let e' = sym (off_if j c _ _ s) ∙ e in
          elim (eq_or_ne i c) [
            | inl r ↦
                let is : y ≡ k = some_eq (sym (at_if i c _ _ r) ∙ e') in
                if_neg (dec k x) (λ p. s (same_slot y fj (fi ∙ ap some (sym p ∙ sym is)) ∙ r)) _ _
                ∙ if_pos (dec k y) (sym is) _ _
                ∙ ap some r
            | inr r ↦
                let old : f c ≡ some k = sym (off_if i c _ _ r) ∙ e' in
                if_neg (dec k x) (λ p. r (same_slot k (fi ∙ ap some (sym p)) old)) _ _
                ∙ if_neg (dec k y) (λ p. s (same_slot k (fj ∙ ap some (sym p)) old)) _ _
                ∙ (v k c).1 old
          ]
    ]

    -- Two slots exchanged, and the map told of both.
    pub exchange-Agrees :
        (f' : ℕ → Option K)
        → ((c : ℕ) → f' c ≡ (if j == c then some x else if i == c then some y else f c))
        → Agrees (update dec (update dec m y i) x j) f'
    unfolding exchanged_map exchanged_keys
    exchange-Agrees f' h k c = (λ e. h c ∙ map_to_key k c e, λ e. key_to_map k c (sym (h c) ∙ e))

    pub exchange_absent : (k : K) → m k ≡ none → update dec (update dec m y i) x j k ≡ none
    exchange_absent k e =
        if_neg (dec k x) (λ p. none-ne-some (sym e ∙ ap m p ∙ (v x i).1 fi)) _ _
        ∙ if_neg (dec k y) (λ p. none-ne-some (sym e ∙ ap m p ∙ (v y j).1 fj)) _ _
        ∙ e

  -- A key written behind the last of `n` slots.
  pub append-Agrees :
      (n : ℕ) (x : K) (f' : ℕ → Option K)
      → m x ≡ none
      → f n ≡ none
      → ((c : ℕ) → f' c ≡ (if c == n then some x else f c))
      → Agrees (update dec m x n) f'
  append-Agrees n x f' fresh free h k c = (
    λ e. h c ∙ elim (dec k x) [
      | yes p ↦ at_if c n _ _ (some_eq (sym e ∙ if_pos (dec k x) p _ _)) ∙ ap some (sym p)
      | no q ↦
          let old : f c ≡ some k = (v k c).0 (sym (if_neg (dec k x) q _ _) ∙ e) in
          off_if c n _ _ (λ s. none-ne-some (sym free ∙ ap f (sym s) ∙ old)) ∙ old
    ],
    λ e. elim (eq_or_ne c n) [
      | inl s ↦
          let is : x ≡ k = some_eq (sym (at_if c n _ _ s) ∙ sym (h c) ∙ e) in
          if_pos (dec k x) (sym is) _ _ ∙ ap some (sym s)
      | inr s ↦
          let old : f c ≡ some k = sym (off_if c n _ _ s) ∙ sym (h c) ∙ e in
          if_neg (dec k x) (λ p. none-ne-some (sym fresh ∙ ap m (sym p) ∙ (v k c).1 old)) _ _
          ∙ (v k c).1 old
    ],
  )

  -- The key of slot `i` dropped, and the last of `n + 1` slots moved into that slot.
  pub move_last-Agrees :
      (i n : ℕ) (x y : K) (f' : ℕ → Option K)
      → i < n
      → f i ≡ some x
      → f n ≡ some y
      → ((c : ℕ) → c < n → f' c ≡ (if i == c then some y else f c))
      → ((c : ℕ) → n ≤ c → f' c ≡ none)
      → ((c : ℕ) → n < c → f c ≡ none)
      → Agrees (update dec (delete dec m x) y i) f'
  move_last-Agrees i n x y f' below fi fn h past free k c = (to_key, to_slot)
    where
      to_key : update dec (delete dec m x) y i k ≡ some c → f' c ≡ some k
      to_key e = elim (dec k y) [
        | yes p ↦
            let is : i ≡ c = some_eq (sym (if_pos (dec k y) p _ _) ∙ e) in
            h c (rw (← is) below) ∙ at_if i c _ _ is ∙ ap some (sym p)
        | no p ↦
            let e' = sym (if_neg (dec k y) p _ _) ∙ e in
            elim (dec k x) [
              | yes q ↦ absurd (none-ne-some (sym (if_pos (dec k x) q _ _) ∙ e'))
              | no q ↦
                  let old : f c ≡ some k = (v k c).0 (sym (if_neg (dec k x) q _ _) ∙ e') in
                  let ne_n : c ≢ n = λ s. p (some_eq (sym old ∙ ap f s ∙ fn)) in
                  let ne_i : i ≢ c = λ s. q (some_eq (sym old ∙ ap f (sym s) ∙ fi)) in
                  elim (lt_or_le c n) [
                    | inl lt ↦ h c lt ∙ off_if i c _ _ ne_i ∙ old
                    | inr ge ↦ absurd (none-ne-some (sym (free c (omega arith)) ∙ old))
                  ]
            ]
      ]

      to_slot : f' c ≡ some k → update dec (delete dec m x) y i k ≡ some c
      to_slot e = elim (lt_or_le c n) [
        | inr ge ↦ absurd (none-ne-some (sym (past c ge) ∙ e))
        | inl lt ↦ elim (eq_or_ne i c) [
          | inl s ↦
              let is : y ≡ k = some_eq (sym (at_if i c _ _ s) ∙ sym (h c lt) ∙ e) in
              if_pos (dec k y) (sym is) _ _ ∙ ap some s
          | inr s ↦
              let old : f c ≡ some k = sym (off_if i c _ _ s) ∙ sym (h c lt) ∙ e in
              let ne_y : k ≢ y = λ p. lt_irrefl (same_slot k old (fn ∙ ap some (sym p))) lt in
              let ne_x : k ≢ x = λ p. s (same_slot k (fi ∙ ap some (sym p)) old) in
              if_neg (dec k y) ne_y _ _ ∙ if_neg (dec k x) ne_x _ _ ∙ (v k c).1 old
        ]
      ]

  pub move_last_absent :
      (i n : ℕ) (x y : K)
      → i ≢ n
      → f i ≡ some x
      → f n ≡ some y
      → update dec (delete dec m x) y i x ≡ none
  move_last_absent i n x y ne fi fn =
      if_neg (dec x y) (λ p. ne (same_slot x fi (fn ∙ ap some (sym p)))) _ _
      ∙ if_pos (dec x x) refl _ _

  -- The key of the last of `n + 1` slots dropped with the slot.
  pub drop_last-Agrees :
      (n : ℕ) (x : K) (f' : ℕ → Option K)
      → f n ≡ some x
      → ((c : ℕ) → c < n → f' c ≡ f c)
      → ((c : ℕ) → n ≤ c → f' c ≡ none)
      → ((c : ℕ) → n < c → f c ≡ none)
      → Agrees (delete dec m x) f'
  drop_last-Agrees n x f' fn h past free k c = (
    λ e. elim (dec k x) [
      | yes q ↦ absurd (none-ne-some (sym (if_pos (dec k x) q _ _) ∙ e))
      | no q ↦
          let old : f c ≡ some k = (v k c).0 (sym (if_neg (dec k x) q _ _) ∙ e) in
          let ne_n : c ≢ n = λ s. q (some_eq (sym old ∙ ap f s ∙ fn)) in
          elim (lt_or_le c n) [
            | inl lt ↦ h c lt ∙ old
            | inr ge ↦ absurd (none-ne-some (sym (free c (omega arith)) ∙ old))
          ]
    ],
    λ e. elim (lt_or_le c n) [
      | inr ge ↦ absurd (none-ne-some (sym (past c ge) ∙ e))
      | inl lt ↦
          let old : f c ≡ some k = sym (h c lt) ∙ e in
          if_neg (dec k x) (λ p. lt_irrefl (same_slot k old (fn ∙ ap some (sym p))) lt) _ _
          ∙ (v k c).1 old
    ],
  )
