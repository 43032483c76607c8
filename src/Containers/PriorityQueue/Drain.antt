-- ===== src/Containers/PriorityQueue/Drain.antt =====
-- A queue that is dequeued until it is empty gives its items in order of priority.
use fraise.Prelude.{
  ℕ, zero, suc, subst, ◌==◌, ◌≤◌, ◌<◌, ◌≡◌, refl, ap, sym, ◌∙◌, List, [], ◌∷◌, some, arith, length,
  get_elem?, inl, inr, true, false,
}
use fraise.Containers.Slots.{eq_or_ne}
use fraise.Containers.Heap
use fraise.Containers.Heap.{Item, Heap, ◌>>=◌}
use fraise.Containers.Heap.Root.{IsValid}
use fraise.Containers.Heap.Take.{pop-Taken}
use fraise.Containers.PriorityQueue.{PriorityQueue, dequeue, drain}
use mathlib.Core.List.{
  Perm, Mem, not-mem-nil, mem-cons_self, eq-or-mem_of_mem-cons, mem-cons_of_mem,
}
use mathlib.Core.List.Perm
use mathlib.Core.Logic.Or
use native.Mathlib.Bridge.{le_prop, from_ℕ}
use mathlib.Core.List as L

module _ {ℓ} {K T : Type ℓ} where
  -- No item is above one that stands before it.
  abbrev pub IsDescending : List (Item K T) → Type ℓ
  IsDescending [] = Unit
  IsDescending (x ∷ xs) = ((y : Item K T) → Mem y xs → y.priority ≤ x.priority) × IsDescending xs

  bound_of_mem :
      (xs : List (Item K T)) (b : ℕ)
      → ((i : ℕ) (y : Item K T) → get_elem? xs i ≡ some y → y.priority ≤ b)
      → (y : Item K T) → Mem y xs
      → y.priority ≤ b
  bound_of_mem [] b h y m = absurd (not-mem-nil m)
  bound_of_mem (x ∷ xs) b h y m =
      Or.elim le_prop (eq-or-mem_of_mem-cons m) (λ e. h 0 y (ap some (sym e)))
        (λ m'. bound_of_mem xs b (λ i. h (suc i)) y m')

  native_length : (xs : List (Item K T)) → length xs ≡ from_ℕ (L.length xs)
  unfolding from_ℕ
  native_length [] = refl
  native_length (x ∷ xs) = ap suc (native_length xs)

  perm_length : {xs ys : List (Item K T)} → Perm xs ys → length xs ≡ length ys
  perm_length {xs = xs} {ys = ys} p =
      native_length xs ∙ ap from_ℕ (Perm.length-eq p) ∙ sym (native_length ys)

  nothing_of_length : (xs : List (Item K T)) → length xs ≡ 0 → xs ≡ []
  nothing_of_length [] e = refl
  nothing_of_length (x ∷ xs) e = absurd (omega (arith, e))

module _ {ℓ} {K T : Type ℓ} (dec : Discrete K) where
  -- Dequeued until it is empty, a queue on a valid heap gives every item once, none above one that
  -- came before it. One round more than there are items is enough.
  pub drain-IsDescending :
      (fuel : ℕ) (p : PriorityQueue K T)
      → IsValid p.h
      → length p.h.items < fuel
      → (xs : List (Item K T)) × (drain dec fuel p ≡ some xs) × IsDescending xs × Perm xs p.h.items
  unfolding drain dequeue Heap.len
  drain-IsDescending zero p v enough = absurd (omega arith)
  drain-IsDescending (suc fuel) p v enough = elim (eq_or_ne (length p.h.items) 0) [
    | inl e ↦
        let is : (length p.h.items == 0) ≡ true = ground (arith, e) in
        ([], rw is, tt, subst (λ a. Perm [] a) (sym (nothing_of_length p.h.items e)) (Perm.refl []))
    | inr n ↦
        let some_left : (length p.h.items == 0) ≡ false = ground (arith, n) in
        let (x, h, run, t, highest) = pop-Taken dec p.h v (omega (arith, n)) in
        let (xs, rest, sorted, same) =
          drain-IsDescending fuel (record p { h = h }) t.valid
            (omega (arith, perm_length t.same, enough)) in
        let all = Perm.trans (Perm.cons x same) t.same in
        (
          x ∷ xs,
          rw (some_left, run, rest),
          (
            λ y m.
                bound_of_mem p.h.items x.priority highest y
                  ((Perm.mem_iff all).0 (mem-cons_of_mem x m)),
            sorted,
          ),
          all,
        )
  ]
