-- ===== src/Cache/Lru.antt =====
-- internal/cache/lru_cache.go: `LRUCache`. The map holds pointers into a doubly linked list, so the
-- elements are handles into a store of entries, and the list is the sequence of their handles. A
-- method gives `none` where it would follow a dangling pointer. The lock is not modelled: each
-- method runs as a whole under it.
use fraise.Prelude.{
  ℕ, zero, suc, ◌+◌, Bool, true, false, List, [], ◌∷◌, Option, none, some, ◌==◌, ltb, if◌then◌else◌,
  length,
}
use fraise.Prelude.Maps.{Map, empty, update, delete}
use native.Mathlib.Decide.{ℕ_discrete}

-- `container/list` on handles.
unfoldable pub remove : ℕ → List ℕ → List ℕ
remove h [] = []
remove h (x ∷ order) = if x == h then order else x ∷ remove h order

unfoldable pub contains : ℕ → List ℕ → Bool
contains h [] = false
contains h (x ∷ order) = if x == h then true else contains h order

unfoldable pub move_to_front : ℕ → List ℕ → List ℕ
move_to_front h order = if contains h order then h ∷ remove h order else order

unfoldable pub back : List ℕ → Option ℕ
back [] = none
back (h ∷ []) = some h
back (h ∷ x ∷ order) = back (x ∷ order)

pub record LruCache {ℓ} (K V : Type ℓ) : Type ℓ where
  pub capacity : ℕ
  pub items : Map K ℕ
  pub order : List ℕ
  pub entries : Map ℕ (K × V)
  pub fresh : ℕ

pub data CacheError : Type 0 where
  cache_capacity : CacheError

pub data Result {ℓ} (A : Type ℓ) : Type ℓ where
  ok : A → Result A
  err : CacheError → Result A

module _ {ℓ} {K V : Type ℓ} where
  -- `NewLRUCache`; a capacity that is not positive is 0 here.
  unfoldable pub new : ℕ → Result (LruCache K V)
  new capacity =
      if capacity == 0
      then Result.err CacheError.cache_capacity
      else Result.ok
          (record { capacity = capacity; items = empty; order = []; entries = empty; fresh = 0 })

  unfoldable pub len : LruCache K V → ℕ
  len c = length c.order

  unfoldable pub clear : LruCache K V → LruCache K V
  clear c = record c { items = empty; order = [] }

module _ {ℓ} {K V : Type ℓ} (dec : Discrete K) where
  -- The value that was found, if any, and the cache after the call.
  unfoldable pub get : K → LruCache K V → Option (Option V × LruCache K V)
  get key c = elim (c.items key) [
    | none ↦ some (none, c)
    | some h ↦ elim (c.entries h) [
      | none ↦ none
      | some (_, v) ↦ some (some v, record c { order = move_to_front h c.order })
    ]
  ]

  -- `oldest := c.order.Back()` and what removes it.
  unfoldable pub evict_oldest : LruCache K V → Option (LruCache K V)
  evict_oldest c = elim (back c.order) [
    | none ↦ some c
    | some h ↦ elim (c.entries h) [
      | none ↦ none
      | some (k, _) ↦ some (record c { order = remove h c.order; items = delete dec c.items k })
    ]
  ]

  unfoldable pub put_new : K → V → LruCache K V → LruCache K V
  put_new key value c = record c {
    items = update dec c.items key c.fresh;
    order = c.fresh ∷ c.order;
    entries = update ℕ_discrete c.entries c.fresh (key, value);
    fresh = c.fresh + 1;
  }

  unfoldable pub put : K → V → LruCache K V → Option (LruCache K V)
  put key value c = elim (c.items key) [
    | some h ↦ elim (c.entries h) [
      | none ↦ none
      | some (k, _) ↦ some (record c {
        order = move_to_front h c.order;
        entries = update ℕ_discrete c.entries h (k, value);
      })
    ]
    | none ↦
        let grown = put_new key value c in
        if ltb grown.capacity (length grown.order) then evict_oldest grown else some grown
  ]

  -- `Delete`: whether the key was present, and the cache after the call.
  unfoldable pub delete_key : K → LruCache K V → Bool × LruCache K V
  delete_key key c = elim (c.items key) [
    | none ↦ (false, c)
    | some h ↦ (true, record c { order = remove h c.order; items = delete dec c.items key })
  ]

  -- The loop of `Resize`, with the count of the entries evicted. One round for each entry is
  -- enough, and `none` also stands for a loop that needs more.
  unfoldable pub shrink : ℕ → ℕ → ℕ → LruCache K V → Option (ℕ × LruCache K V)
  shrink zero capacity entries c = none
  shrink (suc fuel) capacity entries c =
      let more : Option (ℕ × LruCache K V) = elim (evict_oldest c) [
        | none ↦ none
        | some c' ↦ shrink fuel capacity (entries + 1) c'
      ] in
      if ltb capacity (length c.order) then more else some (entries, c)

  -- `Resize`: the outer `none` is a fault, as above.
  unfoldable pub resize : ℕ → LruCache K V → Option (Result ℕ × LruCache K V)
  resize capacity c =
      if capacity == 0
      then some (Result.err CacheError.cache_capacity, c)
      else if ltb capacity c.capacity
      then elim (shrink (length c.order + 1) capacity 0 c) [
        | none ↦ none
        | some (n, c') ↦ some (Result.ok n, record c' { capacity = capacity })
      ]
      else some (Result.ok 0, record c { capacity = capacity })
