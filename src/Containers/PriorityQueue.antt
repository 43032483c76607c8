-- ===== src/Containers/PriorityQueue.antt =====
-- internal/containers/priority_queue.go: `PriorityQueue`, a heap behind a lock. Each method runs as a
-- whole under the lock, which is not modelled; `none` is a panic, as for the heap.
pub mod Drain
mod Tests
use fraise.Prelude.{
  ℕ, zero, suc, Bool, List, [], ◌∷◌, Option, none, some, ◌==◌, ltb, if◌then◌else◌, get_elem?,
}
use fraise.Containers.Heap
use fraise.Containers.Heap.{Item, Heap, new_heap, ◌>>=◌}

pub data QueueError : Type 0 where
  priority_queue_capacity : QueueError
  empty_priority_queue : QueueError

pub data Result {ℓ} (A : Type ℓ) : Type ℓ where
  ok : A → Result A
  err : QueueError → Result A

-- The capacity of the last allocation is not modelled: `capacity` is the constructor's hint.
pub record PriorityQueue {ℓ} (K T : Type ℓ) : Type ℓ where
  pub h : Heap K T
  pub capacity : ℕ

module _ {ℓ} {K T : Type ℓ} where
  unfoldable pub queue_len : PriorityQueue K T → ℕ
  queue_len p = Heap.len p.h

  unfoldable pub queue_empty : PriorityQueue K T → Bool
  queue_empty p = Heap.len p.h == 0

  unfoldable pub queue_peek : PriorityQueue K T → Option (Item K T)
  queue_peek p = Heap.peek p.h

  unfoldable pub less : ℕ → ℕ → PriorityQueue K T → Option Bool
  less i j p = do
    x ← get_elem? p.h.items i
    y ← get_elem? p.h.items j
    some (ltb x.priority y.priority)

module _ {ℓ} {K T : Type ℓ} (dec : Discrete K) where
  unfoldable pub new_priority_queue : ℕ → List (Item K T) → Option (Result (PriorityQueue K T))
  new_priority_queue capacity items =
      if capacity == 0
      then some (Result.err QueueError.priority_queue_capacity)
      else (do h ← new_heap dec items; some (Result.ok (record { h = h; capacity = capacity })))

  unfoldable pub enqueue : Item K T → PriorityQueue K T → Option (PriorityQueue K T)
  enqueue i p = do h ← Heap.push dec i p.h; some (record p { h = h })

  -- The item, which `Pop` gives as none on an empty heap, and the queue after the call.
  unfoldable pub dequeue :
      PriorityQueue K T → Option (Result (Option (Item K T)) × PriorityQueue K T)
  dequeue p =
      if Heap.len p.h == 0
      then some (Result.err QueueError.empty_priority_queue, p)
      else (do (item, h) ← Heap.pop dec p.h; some (Result.ok item, record p { h = h }))

  -- A client that dequeues until the queue is empty.
  unfoldable pub drain : ℕ → PriorityQueue K T → Option (List (Item K T))
  drain zero p = none
  drain (suc fuel) p = do
    (r, p') ← dequeue p
    let rest = drain fuel p'
    elim r [
      | Result.err e ↦ some []
      | Result.ok none ↦ none
      | Result.ok (some x) ↦ do xs ← rest; some (x ∷ xs)
    ]
