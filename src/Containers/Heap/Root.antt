-- ===== src/Containers/Heap/Root.antt =====
-- Valid heaps: the root, and what `remove` leaves in the slots and in the map.
use fraise.Prelude.{
  ℕ, zero, suc, ◌-◌, ◌≤◌, ◌<◌, ◌≡◌, refl, ap, ◌∙◌, sym, Bool, true, false, List, [], ◌∷◌, Option,
  none, some, ◌==◌, if◌then◌else◌, length, get_elem?, set, take, arith, length-set,
}
use fraise.Prelude.Maps.{update, delete}
use fraise.Containers.Array.{
  get_elem?-set, get_elem?-some, get_elem?-take, length-take, move_last-perm,
}
use fraise.Containers.Slots.{move_last-Agrees, move_last_absent, drop_last-Agrees}
use fraise.Containers.Heap.{Item, Heap, parent, remove_slot}
use fraise.Containers.Heap.Order.{prio, prio_of, key_at, key_of, IsHeapFrom, Indexed}
use mathlib.Core.List.{Perm}

module _ {ℓ} {K T : Type ℓ} where
  pub record IsValid (h : Heap K T) : Type ℓ where
    pub ordered : IsHeapFrom 0 h.items
    pub indexed : Indexed h

  root_most_below :
      (fuel : ℕ) (a : List (Item K T)) (i : ℕ)
      → IsHeapFrom 0 a
      → i < fuel
      → i < length a
      → prio a i ≤ prio a 0
  root_most_below zero a i v f h = absurd (omega arith)
  root_most_below (suc fuel) a zero v f h = omega arith
  root_most_below (suc fuel) a (suc i) v f h = omega (
    arith,
    v (suc i) (omega arith) h (omega arith),
    root_most_below fuel a (parent (suc i)) v (omega arith) (omega arith),
  )

  pub root_most :
      (a : List (Item K T)) (i : ℕ) → IsHeapFrom 0 a → i < length a → prio a i ≤ prio a 0
  root_most a i v h = root_most_below (suc i) a i v (omega arith) h

  pub past_end : (a : List (Item K T)) (i : ℕ) → length a ≤ i → get_elem? a i ≡ none
  past_end [] i h = refl
  past_end (x ∷ a) zero h = absurd (omega arith)
  past_end (x ∷ a) (suc i) h = past_end a i (omega arith)

  pub key_if :
      (b : Bool) (x : Item K T) (o : Option (Item K T))
      → key_of (if b then some x else o) ≡ (if b then some x.key else key_of o)
  key_if true x o = refl
  key_if false x o = refl

  pub prio_if :
      (b : Bool) (x : Item K T) (o : Option (Item K T))
      → prio_of (if b then some x else o) ≡ (if b then x.priority else prio_of o)
  prio_if true x o = refl
  prio_if false x o = refl

module _ {ℓ} {K T : Type ℓ} (dec : Discrete K) where
  -- Slot `i` given to the last of `n + 1` items, and the map told of it; `x` is the item that left.
  pub record Removed (i n : ℕ) (x : Item K T) (h : Heap K T) : Type ℓ where
    pub after : Heap K T
    pub returns :
        remove_slot dec i (length h.items) (record h { lookup = delete dec h.lookup x.key })
        ≡ some after
    pub size : length after.items ≡ n
    pub priorities :
        (c : ℕ) → c < n → prio after.items c ≡ (if i == c then prio h.items n else prio h.items c)
    pub same : Perm (x ∷ after.items) h.items
    pub agrees : Indexed after
    pub absent : after.lookup x.key ≡ none

  module _ (i n : ℕ) (x y : Item K T) (h : Heap K T) (v : Indexed h) (size : length h.items ≡ suc n)
      (ei : get_elem? h.items i ≡ some x) (en : get_elem? h.items n ≡ some y) (below : i < n) where
    kept :
        (c : ℕ)
        → c < n
        → get_elem? (take n (set h.items i y)) c ≡ (if i == c then some y else get_elem? h.items c)
    kept c lt = get_elem?-take n (set h.items i y) c lt ∙ get_elem?-set h.items i c y (omega arith)

    left_length : length (take n (set h.items i y)) ≡ n
    left_length = length-take n (set h.items i y) (omega (arith, length-set h.items i y))

    moved_last : Removed i n x h
    unfolding remove_slot
    moved_last =
        let n_is : length h.items - 1 ≡ n = omega arith in
        record {
          after = record {
            items = take n (set h.items i y);
            lookup = update dec (delete dec h.lookup x.key) y.key i;
          };
          returns = rw (n_is, en);
          size = left_length;
          priorities = λ c lt.
              ap prio_of (kept c lt)
              ∙ prio_if (i == c) y (get_elem? h.items c)
              ∙ ap (λ (m : ℕ). if i == c then m else prio h.items c) (sym (ap prio_of en));
          same = move_last-perm i n h.items size below ei en;
          agrees =
              move_last-Agrees dec h.lookup (key_at h.items) v i n x.key y.key
                (key_at (take n (set h.items i y))) below (ap key_of ei) (ap key_of en)
                (λ c lt. ap key_of (kept c lt) ∙ key_if (i == c) y (get_elem? h.items c))
                (λ c ge.
                  ap key_of (past_end (take n (set h.items i y)) c (omega (arith, left_length))))
                (λ c gt. ap key_of (past_end h.items c (omega arith)));
          absent =
              move_last_absent dec h.lookup (key_at h.items) v i n x.key y.key (omega arith)
                (ap key_of ei) (ap key_of en);
        }

  pub removed :
      (i n : ℕ) (x : Item K T) (h : Heap K T)
      → Indexed h
      → length h.items ≡ suc n
      → get_elem? h.items i ≡ some x
      → i < n
      → Removed i n x h
  removed i n x h v size ei below =
      let (y, en) = get_elem?-some h.items n (omega arith) in
      moved_last i n x y h v size ei en below

  -- The last slot dropped with its key.
  pub dropped-Indexed :
      (n : ℕ) (x : Item K T) (h : Heap K T)
      → Indexed h
      → length h.items ≡ suc n
      → get_elem? h.items n ≡ some x
      → Indexed (record { items = take n h.items; lookup = delete dec h.lookup x.key })
  dropped-Indexed n x h v size en =
      let len = length-take n h.items (omega arith) in
      drop_last-Agrees dec h.lookup (key_at h.items) v n x.key (key_at (take n h.items))
        (ap key_of en) (λ c lt. ap key_of (get_elem?-take n h.items c lt))
        (λ c ge. ap key_of (past_end (take n h.items) c (omega (arith, len))))
        (λ c gt. ap key_of (past_end h.items c (omega arith)))
