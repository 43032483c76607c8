-- ===== src/Cache/Methods.antt =====
-- Each method of the LRU cache against the list of entries by recency: the same answer, the same
-- entries after it, and no dangling pointer on the way.
use fraise.Prelude.{
  ℕ, suc, ◌+◌, ◌≤◌, ◌<◌, ◌≡◌, refl, ap, ◌∙◌, List, ◌∷◌, none, some, arith, length, take, true,
  false, sym, ltb, length-take-le, Option-cases, inl, inr, Bool-cases,
}
use fraise.Prelude.Maps.{Map, update}
use fraise.Cache.Lru
use fraise.Cache.Lru.{
  LruCache, Result, CacheError, remove, contains, move_to_front, evict_oldest, put_new, shrink, ok,
  err, cache_capacity,
}
use fraise.Cache.Recency.{find, drop_key, touch}
use fraise.Cache.Cells.{
  Cell, handles, view, FreshHandle, AreStored, handle_of, drop_cell, Holds, view-drop_cell,
  drop_cell-AreDistinct, drop_cell-AreStored, drop_cell-AreBelow, handle_of-drop_cell,
  fresh_of_none, find-none, drop_cell_miss, Located, located, below_of_located, update-AreStored,
  fresh_of_below, AreBelow-suc,
}
use fraise.Cache.Oldest.{
  view-take, length-view, take_of_length-le, length-handles, evict_oldest-Holds,
}
use mathlib.Core.Logic.{if_pos, if_neg}
use native.Mathlib.Decide.{ℕ_discrete}

module _ {ℓ} {K V : Type ℓ} (dec : Discrete K) where
  -- The entries of `c`, most recently used first, are `t`, and they fit.
  pub record Refines (c : LruCache K V) (t : List (K × V)) : Type ℓ where
    pub cells : List (Cell K V)
    pub holds : Holds dec c cells
    pub view_is : view cells ≡ t
    pub positive : 0 < c.capacity
    pub bounded : length t ≤ c.capacity

  -- A read makes its entry the most recent one; a miss changes nothing.
  unfoldable pub used : K → List (K × V) → List (K × V)
  used k t = elim (find dec k t) [ none ↦ t | some v ↦ touch dec k v t ]

  module _ (k : K) (h : ℕ) (c : LruCache K V) (s : List (Cell K V)) (hs : Holds dec c s)
      (e : handle_of dec k s ≡ some h) where
    at : Located dec k h c.entries s
    at = located dec k h c.entries s e hs.stored hs.distinct

    front : move_to_front h c.order ≡ h ∷ handles (drop_cell dec k s)
    unfolding move_to_front
    front = rw (hs.order_is, at.inside, at.removed)

    -- Moved to the front, with the value `v` in its entry.
    moved-Holds :
        (v : V) (m : Map ℕ (K × V))
        → m h ≡ some (k, v)
        → AreStored m (drop_cell dec k s)
        → Holds dec
            (record c { order = move_to_front h c.order; entries = m })
            (record { handle = h; key = k; value = v } ∷ drop_cell dec k s)
    unfolding handle_of
    moved-Holds v m stored others = record {
      order_is = front;
      indexed = λ j. hs.indexed j ∙ elim (dec k j) [
        | yes p ↦ rw (← p) (e ∙ sym (if_pos (dec k k) refl _ _))
        | no n ↦ sym (if_neg (dec k j) n _ _ ∙ handle_of-drop_cell dec k j s (λ p. n (sym p)))
      ];
      stored = (stored, others);
      below = (
        below_of_located dec k h c.fresh s e hs.below,
        drop_cell-AreBelow dec k c.fresh s hs.below,
      );
      distinct =
          let (inner, gone) = drop_cell-AreDistinct dec k s hs.distinct in (at.gone, gone, inner);
    }

  module _ (c : LruCache K V) (t : List (K × V)) (r : Refines c t) where
    cells_of_find :
        (k : K) (h : ℕ) → handle_of dec k r.cells ≡ some h → Located dec k h c.entries r.cells
    cells_of_find k h e = at k h c r.cells r.holds e

    touched_view :
        (k : K) (v : V) (h : ℕ)
        → view (record { handle = h; key = k; value = v } ∷ drop_cell dec k r.cells)
          ≡ touch dec k v t
    unfolding touch
    touched_view k v h =
        ap (◌∷◌ (k, v)) (view-drop_cell dec k r.cells ∙ ap (drop_key dec k) r.view_is)

    touched_fits :
        (k : K) (v : V) (h : ℕ)
        → handle_of dec k r.cells ≡ some h
        → length (touch dec k v t) ≤ c.capacity
    touched_fits k v h hit =
        let l = cells_of_find k h hit in
        rw (← touched_view k v h) (
          omega (
            arith,
            l.shorter,
            length-view r.cells,
            ap length r.view_is,
            length-view (drop_cell dec k r.cells),
            r.bounded,
          ))

    moved-Refines :
        (k : K) (v : V) (h : ℕ) (hit : handle_of dec k r.cells ≡ some h) (m : Map ℕ (K × V))
        → m h ≡ some (k, v)
        → AreStored m (drop_cell dec k r.cells)
        → Refines (record c { order = move_to_front h c.order; entries = m }) (touch dec k v t)
    moved-Refines k v h hit m stored others = record {
      cells = record { handle = h; key = k; value = v } ∷ drop_cell dec k r.cells;
      holds = moved-Holds k h c r.cells r.holds hit v m stored others;
      view_is = touched_view k v h;
      positive = r.positive;
      bounded = touched_fits k v h hit;
    }

    -- On a cache that holds the entries `t`, `Get` returns what the list of entries holds under the key, and makes a hit the most recently
    -- used entry. It follows no dangling pointer.
    pub get-Refines :
        (k : K)
        → (c' : LruCache K V) × (Lru.get dec k c ≡ some (find dec k t, c'))
          × Refines c' (used k t)
          × (c'.capacity ≡ c.capacity)
    unfolding Lru.get used
    get-Refines k = elim (Option-cases (handle_of dec k r.cells)) [
      | inl miss ↦
          let no_value = rw r.view_is at (find-none dec k r.cells miss) in
          (c, rw (r.holds.indexed k, miss, Lru.get) (rw no_value), rw (no_value, used) r, refl)
      | inr (h, hit) ↦
          let l = cells_of_find k h hit in
          let value : find dec k t ≡ some l.value = rw r.view_is at l.found in
          (
            record c { order = move_to_front h c.order },
            rw (r.holds.indexed k, hit, l.entry, value, Lru.get),
            rw (value, used)
                (moved-Refines k l.value h hit c.entries l.entry
                  (drop_cell-AreStored dec k c.entries r.cells r.holds.stored)),
            refl,
          )
    ]

    module _ (k : K) (v : V) (miss : handle_of dec k r.cells ≡ none) where
      newest : Cell K V
      newest = record { handle = c.fresh; key = k; value = v }

      newest-Holds : Holds dec (put_new dec k v c) (newest ∷ r.cells)
      unfolding newest put_new handle_of
      newest-Holds = record {
        order_is = ap (◌∷◌ c.fresh) r.holds.order_is;
        indexed = λ j. elim (dec k j) [
          | yes p ↦ if_pos (dec j k) (sym p) _ _ ∙ sym (if_pos (dec k j) p _ _)
          | no n ↦
              if_neg (dec j k) (λ p. n (sym p)) _ _
              ∙ r.holds.indexed j
              ∙ sym (if_neg (dec k j) n _ _)
        ];
        stored = (
          if_pos (ℕ_discrete c.fresh c.fresh) refl _ _,
          update-AreStored c.entries c.fresh (k, v) r.cells unused r.holds.stored,
        );
        below = (omega arith, AreBelow-suc c.fresh r.cells r.holds.below);
        distinct = (unused, fresh_of_none dec k r.cells miss, r.holds.distinct);
      }
        where
          unused : FreshHandle c.fresh r.cells
          unused = fresh_of_below c.fresh r.cells r.holds.below

      view-newest : view (newest ∷ r.cells) ≡ touch dec k v t
      unfolding newest
      view-newest = rw (drop_cell_miss dec k r.cells miss) at (touched_view k v c.fresh)

      length-newest : length (newest ∷ r.cells) ≡ length t + 1
      length-newest = omega (arith, length-view r.cells, ap length r.view_is)

      grown_length : length (put_new dec k v c).order ≡ length t + 1
      grown_length =
          ap length newest-Holds.order_is ∙ length-handles (newest ∷ r.cells) ∙ length-newest

      newest_evicts :
          ltb (put_new dec k v c).capacity (length (put_new dec k v c).order) ≡ true
          → (c' : LruCache K V) × (evict_oldest dec (put_new dec k v c) ≡ some c')
            × Refines c' (take c.capacity (touch dec k v t))
            × (c'.capacity ≡ c.capacity)
      unfolding put_new
      newest_evicts full =
          let over : length (newest ∷ r.cells) ≡ suc c.capacity =
            ground (arith, grown_length, length-newest, r.bounded) in
          let (c', found, hs, same) =
            evict_oldest-Holds dec (put_new dec k v c) (newest ∷ r.cells) c.capacity newest-Holds
              over in
          (
            c',
            found,
            record {
              cells = take c.capacity (newest ∷ r.cells);
              holds = hs;
              view_is = view-take c.capacity (newest ∷ r.cells) ∙ ap (take c.capacity) view-newest;
              positive = rw same r.positive;
              bounded = rw same (length-take-le c.capacity (touch dec k v t));
            },
            same,
          )

      newest_fits :
          ltb (put_new dec k v c).capacity (length (put_new dec k v c).order) ≡ false
          → Refines (put_new dec k v c) (take c.capacity (touch dec k v t))
      unfolding put_new
      newest_fits room =
          let fits : length (touch dec k v t) ≤ c.capacity =
            rw (← view-newest)
              (ground (arith, grown_length, length-newest, length-view (newest ∷ r.cells))) in
          record {
            cells = newest ∷ r.cells;
            holds = newest-Holds;
            view_is = view-newest ∙ sym (take_of_length-le c.capacity _ fits);
            positive = r.positive;
            bounded = length-take-le c.capacity (touch dec k v t);
          }

      put_new-Refines :
          (c' : LruCache K V) × (Lru.put dec k v c ≡ some c')
          × Refines c' (take c.capacity (touch dec k v t))
          × (c'.capacity ≡ c.capacity)
      unfolding Lru.put
      put_new-Refines =
          let grown = put_new dec k v c in
          elim (Bool-cases (ltb grown.capacity (length grown.order))) [
            | inl full ↦
                let (c', found, refines, same) = newest_evicts full in
                (c', rw (r.holds.indexed k, miss, full, Lru.put) found, refines, same)
            | inr room ↦ (
              grown,
              rw (r.holds.indexed k, miss, room, Lru.put),
              newest_fits room,
              unfold put_new in refl,
            )
          ]

    -- On a cache that holds the entries `t`, `Put` puts the entry in front of the others and keeps as many entries as the capacity allows,
    -- so that what it evicts is the least recently used one. It follows no dangling pointer.
    pub put-Refines :
        (k : K) (v : V)
        → (c' : LruCache K V) × (Lru.put dec k v c ≡ some c')
          × Refines c' (take c.capacity (touch dec k v t))
          × (c'.capacity ≡ c.capacity)
    unfolding Lru.put
    put-Refines k v = elim (Option-cases (handle_of dec k r.cells)) [
      | inl miss ↦ put_new-Refines k v miss
      | inr (h, hit) ↦
          let l = cells_of_find k h hit in
          let m = update ℕ_discrete c.entries h (k, v) in
          (
            record c { order = move_to_front h c.order; entries = m },
            rw (r.holds.indexed k, hit, l.entry, Lru.put),
            rw (take_of_length-le c.capacity (touch dec k v t) (touched_fits k v h hit)) (
                moved-Refines k v h hit m (if_pos (ℕ_discrete h h) refl _ _) (
                  update-AreStored c.entries h (k, v) (drop_cell dec k r.cells) l.gone
                    (drop_cell-AreStored dec k c.entries r.cells r.holds.stored))),
            refl,
          )
    ]
