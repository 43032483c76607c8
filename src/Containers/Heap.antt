-- ===== src/Containers/Heap.antt =====
-- internal/containers/heap.go: `Heap`, a max-heap in a slice with a map from keys to slots. An index
-- out of range panics, which is `none`; so is a loop that would need more rounds than its fuel.
pub mod Order
pub mod Up
pub mod Down
pub mod Root
pub mod Take
pub mod Put
pub mod Build
pub mod Tests
use fraise.Prelude.{
  ℕ, zero, suc, ◌+◌, ◌-◌, ◌*◌, ◌/◌, Bool, true, false, not, ◌&&◌, List, [], ◌∷◌, ◌++◌, Option, none,
  some, ◌==◌, ltb, leb, if◌then◌else◌, length, get_elem?, set, take,
}
use fraise.Prelude.Maps.{Map, empty, update, delete}
use fraise.Containers.Array.{exchange}

pub record Item {ℓ} (K T : Type ℓ) : Type ℓ where
  pub key : K
  pub value : T
  pub priority : ℕ

pub record Heap {ℓ} (K T : Type ℓ) : Type ℓ where
  pub items : List (Item K T)
  pub lookup : Map K ℕ

infixl 5 ◌>>=◌
abbrev pub ◌>>=◌ {ℓ κ} : {A : Type ℓ} {B : Type κ} → Option A → (A → Option B) → Option B
none >>= f = none
some a >>= f = f a

abbrev pub parent : ℕ → ℕ
parent index = (index - 1) / 2

module _ {ℓ} {K T : Type ℓ} where
  unfoldable pub len : Heap K T → ℕ
  len h = length h.items

  unfoldable pub clear : Heap K T → Heap K T
  clear h = if ltb 0 (length h.items) then record { items = []; lookup = empty } else h

  unfoldable pub peek : Heap K T → Option (Item K T)
  peek h = get_elem? h.items 0

  unfoldable pub has : K → Heap K T → Bool
  has key h = elim (h.lookup key) [ none ↦ false | some _ ↦ true ]

  -- `h.items[i].Priority > h.items[j].Priority`
  unfoldable pub above : List (Item K T) → ℕ → ℕ → Option Bool
  above items i j = do
    x ← get_elem? items i
    y ← get_elem? items j
    some (ltb y.priority x.priority)

  -- `if slot < size && h.items[slot].Priority > h.items[largest].Priority { largest = slot }`
  unfoldable pub larger : List (Item K T) → ℕ → ℕ → Option ℕ
  larger items slot largest =
      if ltb slot (length items)
      then (do b ← above items slot largest; some (if b then slot else largest))
      else some largest

  -- The larger child of `index`, or `index` where no child is above it.
  unfoldable pub largest_of : List (Item K T) → ℕ → Option ℕ
  largest_of items index = do
    largest ← larger items (2 * index + 1) index
    larger items (2 * index + 2) largest

module _ {ℓ} {K T : Type ℓ} (dec : Discrete K) where
  unfoldable pub swap : ℕ → ℕ → Heap K T → Option (Heap K T)
  swap i j h = do
    x ← get_elem? h.items i
    y ← get_elem? h.items j
    some (record {
      items = exchange h.items i j x y;
      lookup = update dec (update dec h.lookup y.key i) x.key j;
    })

  unfoldable pub percolate_up : ℕ → ℕ → Heap K T → Option (Heap K T)
  percolate_up zero index h = none
  percolate_up (suc fuel) index h =
      let rise = swap index (parent index) h >>= percolate_up fuel (parent index) in
      let step = above h.items index (parent index) >>= λ b. if b then rise else some h in
      if ltb 0 index then step else some h

  unfoldable pub percolate_down : ℕ → ℕ → Heap K T → Option (Heap K T)
  percolate_down zero index h = none
  percolate_down (suc fuel) index h =
      let step : Option (Heap K T) = do
        largest ← largest_of h.items index
        let sink = swap index largest h >>= percolate_down fuel largest
        if largest == index then some h else sink
      in if ltb index (length h.items) then step else some h

  -- The loop of `NewHeapCap` that fills the map, from slot `i` on.
  unfoldable pub index_items : ℕ → List (Item K T) → Map K ℕ → Map K ℕ
  index_items i [] m = m
  index_items i (x ∷ items) m = index_items (i + 1) items (update dec m x.key i)

  -- Floyd's loop, from the last of `n` parents up.
  unfoldable pub heapify : ℕ → Heap K T → Option (Heap K T)
  heapify zero h = some h
  heapify (suc i) h = percolate_down (length h.items + 1) i h >>= heapify i

  -- `NewHeapCap`; the capacity is a hint to the allocator alone.
  unfoldable pub new_heap : List (Item K T) → Option (Heap K T)
  new_heap items =
      heapify (length items / 2) (record { items = items; lookup = index_items 0 items empty })

  -- `remove`: the last item takes the slot, and the map follows it.
  unfoldable pub remove_slot : ℕ → ℕ → Heap K T → Option (Heap K T)
  remove_slot index size h = do
    last ← get_elem? h.items (size - 1)
    some (record {
      items = take (size - 1) (set h.items index last);
      lookup = update dec h.lookup last.key index;
    })

  -- `Pop`: the item, if any, and the heap after the call.
  unfoldable pub pop : Heap K T → Option (Option (Item K T) × Heap K T)
  pop h = if length h.items == 0 then some (none, h) else do
    first ← get_elem? h.items 0
    let dropped = record h { lookup = delete dec h.lookup first.key }
    h' ←
        if length h.items == 1
        then some (record dropped { items = [] })
        else remove_slot 0 (length h.items) dropped >>= percolate_down (length h.items + 1) 0
    some (some first, h')

  -- `Remove` past its early returns.
  unfoldable pub remove_inner : ℕ → K → Heap K T → Option (Heap K T)
  remove_inner index key h =
      let size = length h.items in
      let dropped = record h { lookup = delete dec h.lookup key } in
      if index == size - 1 then some (record dropped { items = take (size - 1) h.items }) else do
        h' ← remove_slot index size dropped
        b ← above h'.items index (parent index)
        if b then percolate_up (index + 1) index h' else percolate_down (size + 1) index h'

  unfoldable pub remove : K → Heap K T → Option (Bool × Heap K T)
  remove key h = elim (h.lookup key) [
    | none ↦ some (false, h)
    | some index ↦
        if index == 0
        then (do (i, h') ← pop h; some (elim i [ none ↦ false | some _ ↦ true ], h'))
        else (do h' ← remove_inner index key h; some (true, h'))
  ]

  unfoldable pub push_new : Item K T → Heap K T → Option (Heap K T)
  push_new item h =
      let size = length h.items + 1 in
      percolate_up size (size - 1)
        (record { items = h.items ++ item ∷ []; lookup = update dec h.lookup item.key (size - 1) })

  unfoldable pub push : Item K T → Heap K T → Option (Heap K T)
  push item h = elim (h.lookup item.key) [
    | none ↦ push_new item h
    | some i ↦ do
      old ← get_elem? h.items i
      let replaced = remove item.key h >>= λ r. push_new item r.1
      if ltb item.priority old.priority then some h else replaced
  ]
