-- ===== src/Containers/BTree/Layout.antt =====
-- The list of the values below a node, between which the children's lists are woven, and lists at a
-- position.
use fraise.Prelude.{
  ℕ, zero, suc, ◌+◌, ◌-◌, ◌≤◌, ◌<◌, ◌≡◌, refl, ap, sym, ◌∙◌, List, [], ◌∷◌, ◌++◌, some, arith,
  length, get_elem?, set, take, drop, drop-append, length-append,
}
use mathlib.Core.List.{append_assoc}
use fraise.Containers.BTree.{insert_at, remove_at}

module _ {A : Type 0} where
  -- Reads and writes at the position where a list is opened.
  pub get_at :
      (xs l : List A) (x : A) (r : List A) (i : ℕ)
      → xs ≡ l ++ x ∷ r
      → length l ≡ i
      → get_elem? xs i ≡ some x
  get_at xs l x r i e n = ap (λ t. get_elem? t i) e ∙ ap (get_elem? (l ++ x ∷ r)) (sym n) ∙ read l
    where
      read : (l : List A) → get_elem? (l ++ x ∷ r) (length l) ≡ some x
      read [] = refl
      read (y ∷ l) = read l

  pub set_at :
      (xs l : List A) (x y : A) (r : List A) (i : ℕ)
      → xs ≡ l ++ x ∷ r
      → length l ≡ i
      → set xs i y ≡ l ++ y ∷ r
  set_at xs l x y r i e n = ap (λ t. set t i y) e ∙ ap (λ k. set (l ++ x ∷ r) k y) (sym n) ∙ write l
    where
      write : (l : List A) → set (l ++ x ∷ r) (length l) y ≡ l ++ y ∷ r
      write [] = refl
      write (z ∷ l) = ap (◌∷◌ z) (write l)

  pub take_at : (xs l r : List A) (i : ℕ) → xs ≡ l ++ r → length l ≡ i → take i xs ≡ l
  take_at xs l r i e n = ap (take i) e ∙ ap (λ k. take k (l ++ r)) (sym n) ∙ first l
    where
      first : (l : List A) → take (length l) (l ++ r) ≡ l
      first [] = refl
      first (x ∷ l) = ap (◌∷◌ x) (first l)

  pub drop_at : (xs l r : List A) (i : ℕ) → xs ≡ l ++ r → length l ≡ i → drop i xs ≡ r
  drop_at xs l r i e n = ap (drop i) e ∙ ap (λ k. drop k (l ++ r)) (sym n) ∙ drop-append l r

  -- The first of the rest counted with what is before it.
  pub shift : (l : List A) (x : A) (r : List A) → l ++ x ∷ r ≡ (l ++ x ∷ []) ++ r
  shift l x r = sym (append_assoc l (x ∷ []) r)

  pub length-shift : (l : List A) (x : A) (i : ℕ) → length l ≡ i → length (l ++ x ∷ []) ≡ i + 1
  length-shift l x i n = omega (arith, length-append l (x ∷ []), n)

  pub insert_mid :
      (xs l r : List A) (x : A) (i : ℕ) → xs ≡ l ++ r → length l ≡ i → insert_at i x xs ≡ l ++ x ∷ r
  insert_mid xs l r x i e n = rw (take_at xs l r i e n, drop_at xs l r i e n) refl

  pub remove_mid :
      (xs l : List A) (x : A) (r : List A) (i : ℕ)
      → xs ≡ l ++ x ∷ r
      → length l ≡ i
      → remove_at i xs ≡ l ++ r
  remove_mid xs l x r i e n =
      rw
        (
          take_at xs l (x ∷ r) i e n,
          drop_at xs (l ++ x ∷ []) r (i + 1) (e ∙ shift l x r) (length-shift l x i n),
        )
        refl

  -- A list opened at a position.
  pub open_at :
      (xs : List A) (i : ℕ)
      → i ≤ length xs
      → (l : List A) × (r : List A) × (xs ≡ l ++ r) × (length l ≡ i)
  open_at xs zero h = ([], xs, refl, refl)
  open_at [] (suc i) h = absurd (omega arith)
  open_at (x ∷ xs) (suc i) h =
      let (l, r, e, n) = open_at xs i (omega arith) in (x ∷ l, r, ap (◌∷◌ x) e, ap suc n)

  pub nonempty : (xs : List A) → 1 ≤ length xs → (x : A) × (r : List A) × (xs ≡ x ∷ r)
  nonempty [] h = absurd (omega arith)
  nonempty (x ∷ r) h = (x, r, refl)

  pub open_mid :
      (xs : List A) (i : ℕ)
      → i < length xs
      → (l : List A) × (x : A) × (r : List A) × (xs ≡ l ++ x ∷ r) × (length l ≡ i)
  open_mid xs i h =
      let (l, t, e, n) = open_at xs i (omega arith) in
      let (x, r, f) = nonempty t (omega (arith, ap length e, length-append l t)) in
      (l, x, r, e ∙ ap (◌++◌ l) f, n)

  -- The last entry apart.
  pub open_last :
      (xs : List A)
      → 1 ≤ length xs
      → (l : List A) × (x : A) × (xs ≡ l ++ x ∷ []) × (length l + 1 ≡ length xs)
  open_last xs h =
      let (l, x, r, e, n) = open_mid xs (length xs - 1) (omega arith) in
      let size : length r ≡ 0 = omega (arith, ap length e, length-append l (x ∷ r), n, h) in
      (l, x, e ∙ ap (λ t. l ++ x ∷ t) (empty r size), omega (arith, n, h))
    where
      empty : (r : List A) → length r ≡ 0 → r ≡ []
      empty [] h = refl
      empty (x ∷ r) h = absurd (omega arith)

  -- The values, each before the list that follows it.
  abbrev pub after : List A → List (List A) → List A
  after [] fs = []
  after (v ∷ vs) [] = []
  after (v ∷ vs) (f ∷ fs) = v ∷ f ++ after vs fs

  abbrev pub before : List A → List (List A) → List A
  before [] fs = []
  before (v ∷ vs) [] = []
  before (v ∷ vs) (f ∷ fs) = f ++ v ∷ before vs fs

  -- One list more than there are values.
  abbrev pub weave : List A → List (List A) → List A
  weave vs [] = []
  weave vs (f ∷ fs) = f ++ after vs fs

  pub after-append :
      (vl : List A) (fl : List (List A)) (vr : List A) (fr : List (List A))
      → length vl ≡ length fl
      → after (vl ++ vr) (fl ++ fr) ≡ after vl fl ++ after vr fr
  after-append [] [] vr fr h = refl
  after-append [] (f ∷ fl) vr fr h = absurd (omega (arith, h))
  after-append (v ∷ vl) [] vr fr h = absurd (omega (arith, h))
  after-append (v ∷ vl) (f ∷ fl) vr fr h =
      rw (after-append vl fl vr fr (omega arith), append_assoc) refl

  pub weave_at :
      (vl : List A) (fl : List (List A)) (f : List A) (vr : List A) (fr : List (List A))
      → length vl ≡ length fl
      → weave (vl ++ vr) (fl ++ f ∷ fr) ≡ before vl fl ++ (f ++ after vr fr)
  weave_at [] [] f vr fr h = refl
  weave_at [] (g ∷ fl) f vr fr h = absurd (omega (arith, h))
  weave_at (v ∷ vl) [] f vr fr h = absurd (omega (arith, h))
  weave_at (v ∷ vl) (g ∷ []) f vr fr h =
      rw (weave_at vl [] f vr fr (omega arith), append_assoc) refl
  weave_at (v ∷ vl) (g ∷ k ∷ fl) f vr fr h =
      ap (λ t. g ++ v ∷ t) (weave_at vl (k ∷ fl) f vr fr (omega arith))
      ∙ sym (append_assoc g (v ∷ before vl (k ∷ fl)) (f ++ after vr fr))

  pub before-concat :
      (vl : List A) (fl : List (List A)) (v : A) (f : List A)
      → length vl ≡ length fl
      → before (vl ++ v ∷ []) (fl ++ f ∷ []) ≡ before vl fl ++ (f ++ v ∷ [])
  before-concat [] [] v f h = refl
  before-concat [] (g ∷ fl) v f h = absurd (omega (arith, h))
  before-concat (w ∷ vl) [] v f h = absurd (omega (arith, h))
  before-concat (w ∷ vl) (g ∷ fl) v f h =
      rw (before-concat vl fl v f (omega arith), append_assoc) refl
