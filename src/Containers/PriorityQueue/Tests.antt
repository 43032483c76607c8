-- ===== src/Containers/PriorityQueue/Tests.antt =====
-- A run of the priority queue.
use fraise.Prelude.{ℕ, ◌≡◌, List, some, arith}
use fraise.Containers.Heap.{Item}
use fraise.Containers.Heap.Tests.{couple, couple-IsValid}
use fraise.Containers.PriorityQueue.{PriorityQueue, drain}
use fraise.Containers.PriorityQueue.Drain.{IsDescending, drain-IsDescending}
use mathlib.Core.List.{Perm}
use native.Mathlib.Decide.{ℕ_discrete}

abbrev two_queued : PriorityQueue ℕ ℕ
two_queued = record { h = couple; capacity = 4 }

drain-IsDescending_example :
    (xs : List (Item ℕ ℕ)) × (drain ℕ_discrete 3 two_queued ≡ some xs)
    × IsDescending xs
    × Perm xs couple.items
drain-IsDescending_example = drain-IsDescending ℕ_discrete 3 two_queued couple-IsValid (omega arith)
