-- ===== src/Containers/BTree/Search.antt =====
-- internal/containers/trees/btree.go: the binary search of a node's values.
use fraise.Prelude.{
  ℕ, zero, suc, ◌+◌, ◌-◌, ◌/◌, ◌≤◌, ◌<◌, ◌≡◌, inl, inr, refl, ap, sym, ◌∙◌, subst, Bool, true,
  false, Bool-cases, List, [], ◌∷◌, ◌++◌, Option, some, arith, ltb, length, get_elem?,
  length-append,
}
use Prim.Native.Nat.{Ordering}
use mathlib.Core.List.{append_assoc, append-nil}
use fraise.Containers.BTree.{find_from, find}
use fraise.Containers.BTree.Order.{
  IsOrder, Ordering-cases, Below, Above, Ascending, Below-append, Below-compare, Above-compare,
  Below-Ascending, Above-Ascending,
}
use fraise.Containers.BTree.Layout.{get_at, open_mid}

module _ {T : Type 0} (compare : T → T → Ordering) where
  -- Where the search ends: at a value equal to `v`, or between the smaller and the greater ones.
  pub data Found (v : T) (vs : List T) : Option (ℕ × Bool) → Type 0 where
    hit :
        {i : ℕ} (l : List T) (x : T) (r : List T)
        → vs ≡ l ++ x ∷ r
        → length l ≡ i
        → compare v x ≡ Ordering.eq
        → Found v vs (some (i, true))
    miss :
        {i : ℕ} (l r : List T)
        → vs ≡ l ++ r
        → length l ≡ i
        → Below compare v l
        → Above compare v r
        → Found v vs (some (i, false))

  module _ (o : IsOrder compare) (v : T) (vs : List T) (ordered : Ascending compare vs) where
    find_from-Found :
        (rounds : ℕ) (l m r : List T) (lo hi : ℕ)
        → vs ≡ l ++ (m ++ r)
        → lo ≡ length l
        → hi ≡ length l + length m
        → length m < rounds
        → Below compare v l
        → Above compare v r
        → Found v vs (find_from compare rounds v vs lo hi)
    unfolding find_from
    find_from-Found zero l m r lo hi e el eh f low high = absurd (omega arith)
    find_from-Found (suc rounds) l m r lo hi e el eh f low high = elim (Bool-cases (ltb lo hi)) [
      | inr done ↦
          let none_left : length m ≡ 0 = ground (arith, done, el, eh) in
          rw done
            (Found.miss l r (e ∙ ap (λ t. l ++ (t ++ r)) (empty m none_left)) (sym el) low high)
      | inl more ↦
          let mid : ℕ = (lo + hi) / 2 in
          let within : mid < hi = ground (arith, more) in
          let from : lo ≤ mid = ground (arith, more) in
          let (a, x, b, em, en) = open_mid m (mid - lo) (omega (arith, within, from, el, eh)) in
          let here : length (l ++ a) ≡ mid = omega (arith, length-append l a, en, el, from) in
          let whole : vs ≡ (l ++ a) ++ x ∷ (b ++ r) =
            e ∙ ap (λ t. l ++ (t ++ r)) em ∙ regroup l a x b r in
          let size : length m ≡ length a + suc (length b) =
            ap length em ∙ length-append a (x ∷ b) in
          let sorted : Ascending compare ((l ++ a) ++ x ∷ (b ++ r)) =
            subst (Ascending compare) whole ordered in
          let read : get_elem? vs mid ≡ some x = get_at vs (l ++ a) x (b ++ r) mid whole here in
          rw (more, read)
            (elim (Ordering-cases (compare v x)) [
              | inr (inl c) ↦ rw c (Found.hit (l ++ a) x (b ++ r) whole here c)
              | inl c ↦ rw c (
                  find_from-Found rounds l a (x ∷ (b ++ r)) lo mid
                    (whole ∙ append_assoc l a (x ∷ (b ++ r))) el
                    (omega (arith, here, length-append l a)) (omega (arith, size, f)) low
                    (
                      c,
                      Above-compare compare o v x (b ++ r) c
                          (Above-Ascending compare o (l ++ a) (b ++ r) x sorted),
                    ))
              | inr (inr c) ↦
                  let past : length ((l ++ a) ++ x ∷ []) ≡ mid + 1 =
                    omega (arith, length-append (l ++ a) (x ∷ []), here) in
                  rw c (
                    find_from-Found rounds ((l ++ a) ++ x ∷ []) b r (mid + 1) hi
                      (whole ∙ sym (append_assoc (l ++ a) (x ∷ []) (b ++ r))) (sym past)
                      (omega (arith, past, size, en, el, eh, from)) (omega (arith, size, f))
                      (Below-append compare v (l ++ a) (x ∷ [])
                        (Below-compare compare o v x (l ++ a) c
                          (Below-Ascending compare o (l ++ a) (b ++ r) x sorted))
                        (c, tt))
                      high)
            ])
    ]
      where
        empty : (m : List T) → length m ≡ 0 → m ≡ []
        empty [] h = refl
        empty (x ∷ m) h = absurd (omega arith)

        regroup :
            (l a : List T) (x : T) (b r : List T)
            → l ++ ((a ++ x ∷ b) ++ r) ≡ (l ++ a) ++ x ∷ (b ++ r)
        regroup l a x b r = rw (append_assoc, append_assoc) refl

    pub find-Found : Found v vs (find compare v vs)
    unfolding find
    find-Found =
        find_from-Found (length vs + 1) [] vs [] 0 (length vs) (sym (append-nil vs)) refl
          (omega arith) (omega arith) tt tt
