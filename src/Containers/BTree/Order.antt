-- ===== src/Containers/BTree/Order.antt =====
-- Ascending lists without duplicates, under a comparator: what the B-tree's operations do to the list
-- of its values.
use fraise.Prelude.{◌≡◌, ◌⊎◌, inl, inr, refl, ◌∙◌, List, [], ◌∷◌, ◌++◌, Option, none, some, arith}
use Prim.Native.Nat.{Ordering}

pub Ordering-cases : (c : Ordering) → (c ≡ Ordering.lt) ⊎ ((c ≡ Ordering.eq) ⊎ (c ≡ Ordering.gt))
Ordering-cases Ordering.lt = inl refl
Ordering-cases Ordering.eq = inr (inl refl)
Ordering-cases Ordering.gt = inr (inr refl)

module _ {T : Type 0} (compare : T → T → Ordering) where
  -- A comparator orders: it is opposite on exchanged arguments, transitive, and does not tell apart
  -- what it calls equal.
  pub record IsOrder : Type 0 where
    pub flip_lt : (a b : T) → compare a b ≡ Ordering.lt → compare b a ≡ Ordering.gt
    pub flip_gt : (a b : T) → compare a b ≡ Ordering.gt → compare b a ≡ Ordering.lt
    pub trans :
        (a b c : T)
        → compare a b ≡ Ordering.lt
        → compare b c ≡ Ordering.lt
        → compare a c ≡ Ordering.lt
    pub same : (a b c : T) → compare a b ≡ Ordering.eq → compare a c ≡ compare b c

  abbrev pub Below : T → List T → Type 0
  Below v [] = Unit
  Below v (x ∷ xs) = (compare v x ≡ Ordering.gt) × Below v xs

  abbrev pub Above : T → List T → Type 0
  Above v [] = Unit
  Above v (x ∷ xs) = (compare v x ≡ Ordering.lt) × Above v xs

  abbrev pub Ascending : List T → Type 0
  Ascending [] = Unit
  Ascending (x ∷ xs) = Above x xs × Ascending xs

  abbrev pub lookup : T → List T → Option T
  lookup v [] = none
  lookup v (x ∷ xs) = elim (compare v x) [ Ordering.eq ↦ some x | _ ↦ lookup v xs ]

  abbrev pub put : T → List T → List T
  put v [] = v ∷ []
  put v (x ∷ xs) = elim (compare v x) [ Ordering.gt ↦ x ∷ put v xs | _ ↦ v ∷ x ∷ xs ]

  abbrev pub remove : T → List T → List T
  remove v [] = []
  remove v (x ∷ xs) = elim (compare v x) [ Ordering.eq ↦ xs | _ ↦ x ∷ remove v xs ]

  pub Below-append : (v : T) (xs ys : List T) → Below v xs → Below v ys → Below v (xs ++ ys)
  Below-append v [] ys h k = k
  Below-append v (x ∷ xs) ys (e, h) k = (e, Below-append v xs ys h k)

  pub Below-append_left : (v : T) (xs ys : List T) → Below v (xs ++ ys) → Below v xs
  Below-append_left v [] ys h = tt
  Below-append_left v (x ∷ xs) ys (e, h) = (e, Below-append_left v xs ys h)

  pub Above-append : (v : T) (xs ys : List T) → Above v xs → Above v ys → Above v (xs ++ ys)
  Above-append v [] ys h k = k
  Above-append v (x ∷ xs) ys (e, h) k = (e, Above-append v xs ys h k)

  pub Above-append_left : (v : T) (xs ys : List T) → Above v (xs ++ ys) → Above v xs
  Above-append_left v [] ys h = tt
  Above-append_left v (x ∷ xs) ys (e, h) = (e, Above-append_left v xs ys h)

  pub Above-append_right : (v : T) (xs ys : List T) → Above v (xs ++ ys) → Above v ys
  Above-append_right v [] ys h = h
  Above-append_right v (x ∷ xs) ys (e, h) = Above-append_right v xs ys h

  pub Ascending-append_right : (xs ys : List T) → Ascending (xs ++ ys) → Ascending ys
  Ascending-append_right [] ys h = h
  Ascending-append_right (x ∷ xs) ys (_, h) = Ascending-append_right xs ys h

  pub Ascending-append_left : (xs ys : List T) → Ascending (xs ++ ys) → Ascending xs
  Ascending-append_left [] ys h = tt
  Ascending-append_left (x ∷ xs) ys (a, h) =
      (Above-append_left x xs ys a, Ascending-append_left xs ys h)

  pub lookup-Below : (v : T) (xs ys : List T) → Below v xs → lookup v (xs ++ ys) ≡ lookup v ys
  lookup-Below v [] ys h = refl
  lookup-Below v (x ∷ xs) ys (e, h) = rw e (lookup-Below v xs ys h)

  pub lookup-Above : (v : T) (xs ys : List T) → Above v ys → lookup v (xs ++ ys) ≡ lookup v xs
  lookup-Above v [] [] h = refl
  lookup-Above v [] (y ∷ ys) (e, h) = rw e (lookup-Above v [] ys h)
  lookup-Above v (x ∷ xs) ys h = ground (arith, lookup-Above v xs ys h)

  pub put-Below : (v : T) (xs ys : List T) → Below v xs → put v (xs ++ ys) ≡ xs ++ put v ys
  put-Below v [] ys h = refl
  put-Below v (x ∷ xs) ys (e, h) = rw (e, put-Below v xs ys h) refl

  pub put-Above : (v : T) (xs ys : List T) → Above v ys → put v (xs ++ ys) ≡ put v xs ++ ys
  put-Above v [] [] h = refl
  put-Above v [] (y ∷ ys) (e, h) = rw e refl
  put-Above v (x ∷ xs) ys h = ground (arith, put-Above v xs ys h)

  pub remove-Below : (v : T) (xs ys : List T) → Below v xs → remove v (xs ++ ys) ≡ xs ++ remove v ys
  remove-Below v [] ys h = refl
  remove-Below v (x ∷ xs) ys (e, h) = rw (e, remove-Below v xs ys h) refl

  remove_absent : (v : T) (xs : List T) → Above v xs → remove v xs ≡ xs
  remove_absent v [] h = refl
  remove_absent v (x ∷ xs) (e, h) = ground (arith, e, remove_absent v xs h)

  pub remove-Above : (v : T) (xs ys : List T) → Above v ys → remove v (xs ++ ys) ≡ remove v xs ++ ys
  remove-Above v [] ys h = remove_absent v ys h
  remove-Above v (x ∷ xs) ys h = ground (arith, remove-Above v xs ys h)

  module _ (o : IsOrder) where
    pub refl_lem : (v : T) → compare v v ≡ Ordering.eq
    refl_lem v = ground (arith, o.flip_lt v v, o.flip_gt v v)

    -- What is below `x` is below what is above `x` or equal to it.
    pub Below-compare :
        (v x : T) (xs : List T) → compare v x ≡ Ordering.gt → Below x xs → Below v xs
    Below-compare v x [] e h = tt
    Below-compare v x (y ∷ xs) e (d, h) = (
      o.flip_lt y v (o.trans y x v (o.flip_gt x y d) (o.flip_gt v x e)),
      Below-compare v x xs e h,
    )

    pub Above-compare :
        (v x : T) (xs : List T) → compare v x ≡ Ordering.lt → Above x xs → Above v xs
    Above-compare v x [] e h = tt
    Above-compare v x (y ∷ xs) e (d, h) = (o.trans v x y e d, Above-compare v x xs e h)

    pub Below-IsOrder :
        (v x : T) (xs : List T) → compare v x ≡ Ordering.eq → Below x xs → Below v xs
    Below-IsOrder v x [] e h = tt
    Below-IsOrder v x (y ∷ xs) e (d, h) = (o.same v x y e ∙ d, Below-IsOrder v x xs e h)

    pub Above-IsOrder :
        (v x : T) (xs : List T) → compare v x ≡ Ordering.eq → Above x xs → Above v xs
    Above-IsOrder v x [] e h = tt
    Above-IsOrder v x (y ∷ xs) e (d, h) = (o.same v x y e ∙ d, Above-IsOrder v x xs e h)

    -- What stands before an element of an ascending list is below it, and the rest above.
    pub Below-Ascending : (xs ys : List T) (x : T) → Ascending (xs ++ x ∷ ys) → Below x xs
    Below-Ascending [] ys x h = tt
    Below-Ascending (y ∷ xs) ys x (a, h) =
        (o.flip_lt y x ((Above-append_right y xs (x ∷ ys) a).0), Below-Ascending xs ys x h)

    pub Above-Ascending : (xs ys : List T) (x : T) → Ascending (xs ++ x ∷ ys) → Above x ys
    Above-Ascending [] ys x h = h.0
    Above-Ascending (y ∷ xs) ys x (_, h) = Above-Ascending xs ys x h

    -- An element equal to `v` is the one that is found and removed.
    module _ (v x : T) (xs ys : List T) (h : Ascending (xs ++ x ∷ ys))
        (e : compare v x ≡ Ordering.eq) where
      pub lookup_found : lookup v (xs ++ x ∷ ys) ≡ some x
      lookup_found =
          lookup-Below v xs (x ∷ ys) (Below-IsOrder v x xs e (Below-Ascending xs ys x h))
          ∙ rw (lookup, e) refl

      pub remove_found : remove v (xs ++ x ∷ ys) ≡ xs ++ ys
      remove_found =
          remove-Below v xs (x ∷ ys) (Below-IsOrder v x xs e (Below-Ascending xs ys x h))
          ∙ rw (remove, e) refl

    Above-put :
        (w v : T) (xs : List T) → compare w v ≡ Ordering.lt → Above w xs → Above w (put v xs)
    Above-put w v [] e h = (e, tt)
    Above-put w v (x ∷ xs) e (d, h) = ground (arith, Above-put w v xs e h)

    pub put-Ascending :
        (v : T) (xs : List T) → Ascending xs → lookup v xs ≡ none → Ascending (put v xs)
    put-Ascending v [] h e = (tt, tt)
    put-Ascending v (x ∷ xs) (a, h) e = elim (Ordering-cases (compare v x)) [
      | inl c ↦ rw (put, c) ((c, Above-compare v x xs c a), (a, h))
      | inr (inl c) ↦ absurd (ground (arith, c, e))
      | inr (inr c) ↦
          rw (put, c)
            (Above-put x v xs (o.flip_gt v x c) a, put-Ascending v xs h (ground (arith, c, e)))
    ]

    Above-remove : (w v : T) (xs : List T) → Above w xs → Above w (remove v xs)
    Above-remove w v [] h = tt
    Above-remove w v (x ∷ xs) (d, h) = ground (arith, Above-remove w v xs h)

    pub remove-Ascending : (v : T) (xs : List T) → Ascending xs → Ascending (remove v xs)
    remove-Ascending v [] h = tt
    remove-Ascending v (x ∷ xs) (a, h) =
        ground (arith, Above-remove x v xs a, remove-Ascending v xs h)
