-- ===== src/Containers/Heap/Build.antt =====
-- `NewHeapCap`: the map filled from the slots, then Floyd's loop.
use fraise.Prelude.{
  ℕ, zero, suc, ◌+◌, ◌/◌, ◌<◌, ◌≡◌, refl, ap, ◌∙◌, sym, List, [], ◌∷◌, ◌++◌, none, some, length,
  get_elem?, subst, arith, if◌then◌else◌, ◌==◌, inl, inr, Option-cases, length-append,
}
use fraise.Prelude.Maps.{Map, empty, update}
use fraise.Containers.Array.{get_elem?-concat, inside_of_some}
use fraise.Containers.Slots.{append-Agrees, Agrees}
use fraise.Containers.Heap.{Item, Heap, index_items, new_heap}
use fraise.Containers.Heap.Order.{key_at, key_of, Indexed}
use fraise.Containers.Heap.Down.{heapify-Sifted}
use fraise.Containers.Heap.Root.{IsValid, past_end, key_if}
use mathlib.Core.List.{Perm, append_assoc, append-nil}

module _ {ℓ} {A : Type ℓ} where
  get_elem?-append : (a b : List A) (i : ℕ) → i < length a → get_elem? (a ++ b) i ≡ get_elem? a i
  get_elem?-append [] b i h = absurd (omega arith)
  get_elem?-append (x ∷ a) b zero h = refl
  get_elem?-append (x ∷ a) b (suc i) h = get_elem?-append a b i (omega (arith, h))

  get_elem?-middle : (a b : List A) (x : A) → get_elem? (a ++ x ∷ b) (length a) ≡ some x
  get_elem?-middle [] b x = refl
  get_elem?-middle (y ∷ a) b x = get_elem?-middle a b x

module _ {ℓ} {K T : Type ℓ} where
  -- No two slots have one key.
  abbrev pub AreDistinct : List (Item K T) → Type ℓ
  AreDistinct items = (i j : ℕ) (k : K) → key_at items i ≡ some k → key_at items j ≡ some k → i ≡ j

  key_inside : (a : List (Item K T)) (i : ℕ) (k : K) → key_at a i ≡ some k → i < length a
  key_inside a i k e = elim (Option-cases (get_elem? a i)) [
    | inl n ↦ absurd cc
    | inr (x, s) ↦ inside_of_some a i s
  ]

module _ {ℓ} {K T : Type ℓ} (dec : Discrete K) where
  new_key :
      (a b : List (Item K T)) (x : Item K T) (m : Map K ℕ)
      → AreDistinct (a ++ x ∷ b)
      → Agrees m (key_at a)
      → m x.key ≡ none
  new_key a b x m d v = elim (Option-cases (m x.key)) [
    | inl n ↦ n
    | inr (i, e) ↦
        let old : key_at a i ≡ some x.key = (v x.key i).0 e in
        let inside : i < length a = key_inside a i x.key old in
        let is : i ≡ length a =
          d i (length a) x.key (ap key_of (get_elem?-append a (x ∷ b) i inside) ∙ old)
            (ap key_of (get_elem?-middle a b x)) in
        absurd (omega arith)
  ]

  -- The map filled from the slots behind `a` on agrees with all of them.
  index_items-Agrees :
      (a b all : List (Item K T)) (n : ℕ) (m : Map K ℕ)
      → all ≡ a ++ b
      → n ≡ length a
      → AreDistinct all
      → Agrees m (key_at a)
      → Agrees (index_items dec n b m) (key_at all)
  unfolding index_items
  index_items-Agrees a [] all n m e s d v =
      subst (λ z. Agrees m (key_at z)) (sym (e ∙ append-nil a)) v
  index_items-Agrees a (x ∷ b) all n m e s d v =
      let fresh : m x.key ≡ none = new_key a b x m (subst AreDistinct e d) v in
      index_items-Agrees (a ++ x ∷ []) b all (n + 1) (update dec m x.key n)
        (e ∙ sym (append_assoc a (x ∷ []) b)) (ap (λ i. i + 1) s ∙ sym (length-append a (x ∷ []))) d
        (append-Agrees dec m (key_at a) v n x.key (key_at (a ++ x ∷ [])) fresh
          (ap key_of (past_end a n (omega (arith, s))))
          (λ c.
            ap key_of (get_elem?-concat a x c)
            ∙ key_if (c == length a) x (get_elem? a c)
            ∙ ap (λ l. if c == l then some x.key else key_at a c) (sym s)))

  -- `NewHeapCap` on items with different keys ends, reads no slot out of range and gives a valid
  -- heap of just those items.
  pub new_heap-IsValid :
      (items : List (Item K T))
      → AreDistinct items
      → (h : Heap K T) × (new_heap dec items ≡ some h) × IsValid h × Perm h.items items
  unfolding new_heap
  new_heap-IsValid items d =
      let start : Heap K T = record { items = items; lookup = index_items dec 0 items empty } in
      let s = heapify-Sifted dec (length items / 2) start (λ c p q r. absurd (omega arith)) in
      let filled : Indexed start = index_items-Agrees [] items items 0 empty refl refl d nowhere in
      (
        s.after,
        s.returns,
        record { ordered = s.ordered; indexed = s.rearranged.agrees filled },
        s.rearranged.same,
      )
    where
      nowhere : Agrees empty (key_at {K = K} {T = T} [])
      nowhere k i = ((λ e. absurd cc), λ e. absurd cc)
