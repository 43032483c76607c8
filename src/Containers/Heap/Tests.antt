-- ===== src/Containers/Heap/Tests.antt =====
-- Runs of the heap.
use fraise.Prelude.{
  ℕ, zero, suc, ◌*◌, ◌≤◌, ◌≡◌, refl, ◌∙◌, sym, [], ◌∷◌, true, some, arith, get_elem?, subst,
}
use fraise.Prelude.Maps.{empty, update}
use fraise.Containers.Slots.{some_eq}
use fraise.Containers.Heap
use fraise.Containers.Heap.{
  Item, Heap, ◌>>=◌, above, larger, largest_of, swap, percolate_up, percolate_down, index_items,
  heapify, new_heap, push_new, remove_slot, remove_inner,
}
use fraise.Containers.Heap.Root.{IsValid}
use fraise.Containers.Heap.Take.{Taken, pop-Taken, remove-Taken}
use fraise.Containers.Heap.Put.{Pushed, push-Pushed}
use fraise.Containers.Heap.Build.{AreDistinct, new_heap-IsValid}
use mathlib.Core.List.{Perm}
use native.Mathlib.Decide.{ℕ_discrete}

abbrev pub item : ℕ → ℕ → Item ℕ ℕ
item k p = record { key = k; value = 10 * k; priority = p }

abbrev vacant : Heap ℕ ℕ
vacant = record { items = []; lookup = empty }

abbrev pub single : Heap ℕ ℕ
single = record { items = item 1 5 ∷ []; lookup = update ℕ_discrete empty 1 0 }

abbrev pub couple : Heap ℕ ℕ
couple = record {
  items = item 2 9 ∷ item 1 5 ∷ [];
  lookup =
      update ℕ_discrete
        (update ℕ_discrete (update ℕ_discrete (update ℕ_discrete empty 1 0) 2 1) 1 1) 2 0;
}

vacant-IsValid : IsValid vacant
vacant-IsValid = record {
  ordered = λ c p q r. absurd (omega arith);
  indexed = λ k i. (λ e. absurd cc, λ e. absurd cc);
}

-- All that a run computes with.
heap : Unit {0}
unfolding above larger largest_of swap percolate_up percolate_down index_items heapify new_heap
    push_new remove_slot remove_inner Heap.push
heap = tt

pushed-IsValid :
    (x : Item ℕ ℕ) (h h' : Heap ℕ ℕ) → IsValid h → Heap.push ℕ_discrete x h ≡ some h' → IsValid h'
pushed-IsValid x h h' v run =
    let (g, e, w, _) = push-Pushed ℕ_discrete x h v in subst IsValid (some_eq (sym e ∙ run)) w

push-single : Heap.push ℕ_discrete (item 1 5) vacant ≡ some single
unfolding heap
push-single = refl

push-couple : Heap.push ℕ_discrete (item 2 9) single ≡ some couple
unfolding heap ℕ_discrete
push-couple = refl

pub couple-IsValid : IsValid couple
couple-IsValid =
    pushed-IsValid (item 2 9) single couple
      (pushed-IsValid (item 1 5) vacant single vacant-IsValid push-single) push-couple

couple-AreDistinct : AreDistinct (item 1 5 ∷ item 2 9 ∷ [])
couple-AreDistinct zero zero k p q = refl
couple-AreDistinct zero (suc zero) k p q = absurd (omega (arith, some_eq p, some_eq q))
couple-AreDistinct zero (suc (suc j)) k p q = absurd cc
couple-AreDistinct (suc zero) zero k p q = absurd (omega (arith, some_eq p, some_eq q))
couple-AreDistinct (suc zero) (suc zero) k p q = refl
couple-AreDistinct (suc zero) (suc (suc j)) k p q = absurd cc
couple-AreDistinct (suc (suc i)) j k p q = absurd cc

push-Pushed_example :
    (h : Heap ℕ ℕ) × (Heap.push ℕ_discrete (item 1 12) couple ≡ some h)
    × IsValid h
    × Pushed ℕ_discrete (item 1 12) couple h
push-Pushed_example = push-Pushed ℕ_discrete (item 1 12) couple couple-IsValid

pop-Taken_example :
    (x : Item ℕ ℕ) × (h : Heap ℕ ℕ) × (Heap.pop ℕ_discrete couple ≡ some (some x, h))
    × Taken ℕ_discrete x couple h
    × ((i : ℕ) (y : Item ℕ ℕ) → get_elem? couple.items i ≡ some y → y.priority ≤ x.priority)
pop-Taken_example = pop-Taken ℕ_discrete couple couple-IsValid (omega arith)

remove-Taken_example :
    (x : Item ℕ ℕ) × (h : Heap ℕ ℕ) × (get_elem? couple.items 1 ≡ some x)
    × (x.key ≡ 1)
    × (Heap.remove ℕ_discrete 1 couple ≡ some (true, h))
    × Taken ℕ_discrete x couple h
unfolding ℕ_discrete
remove-Taken_example = remove-Taken ℕ_discrete couple 1 1 couple-IsValid refl

new_heap-IsValid_example :
    (h : Heap ℕ ℕ) × (new_heap ℕ_discrete (item 1 5 ∷ item 2 9 ∷ []) ≡ some h)
    × IsValid h
    × Perm h.items (item 1 5 ∷ item 2 9 ∷ [])
new_heap-IsValid_example = new_heap-IsValid ℕ_discrete (item 1 5 ∷ item 2 9 ∷ []) couple-AreDistinct
