-- ===== src/Containers/Heap/Take.antt =====
-- `Pop` and `Remove`.
use fraise.Prelude.{
  ℕ, zero, suc, ◌+◌, ◌-◌, ◌≤◌, ◌<◌, ◌≡◌, refl, ap, ◌∙◌, sym, true, false, [], ◌∷◌, Option, none,
  some, ◌==◌, ltb, length, get_elem?, take, arith, inl, inr, Bool-cases,
}
use fraise.Prelude.Maps.{delete}
use fraise.Containers.Array.{
  get_elem?-some, inside_of_some, length-take, get_elem?-take, drop_last-perm,
}
use fraise.Containers.Slots.{eq_or_ne, lt_or_le, some_eq}
use fraise.Containers.Heap
use fraise.Containers.Heap.{
  Item, Heap, parent, above, remove_slot, remove_inner, percolate_up, percolate_down, ◌>>=◌,
}
use fraise.Containers.Heap.Order.{prio, prio_of, key_of, above-prio}
use fraise.Containers.Heap.Up.{UpInv, Sifted, percolate_up-Sifted}
use fraise.Containers.Heap.Down.{DownInv, percolate_down-Sifted}
use fraise.Containers.Heap.Root.{IsValid, root_most, Removed, removed, dropped-Indexed}
use mathlib.Core.Logic.{if_pos}
use mathlib.Core.List.{Perm}
use mathlib.Core.List.Perm

module _ {ℓ} {K T : Type ℓ} (dec : Discrete K) where
  -- `h'` is valid and holds what `h` holds but the item `x`, whose key is unknown to it.
  pub record Taken (x : Item K T) (h h' : Heap K T) : Type ℓ where
    pub valid : IsValid h'
    pub same : Perm (x ∷ h'.items) h.items
    pub absent : h'.lookup x.key ≡ none

  Sifted-Taken :
      {i n : ℕ} {x : Item K T} {h : Heap K T} {r : Option (Heap K T)} (m : Removed dec i n x h)
      → (s : Sifted dec 0 m.after r) → Taken x h s.after
  Sifted-Taken {x = x} m s = record {
    valid = record { ordered = s.ordered; indexed = s.rearranged.agrees m.agrees };
    same = Perm.trans (Perm.cons x s.rearranged.same) m.same;
    absent = s.rearranged.absent m.agrees x.key m.absent;
  }

  module _ (i n : ℕ) (x : Item K T) (h : Heap K T) (v : IsValid h) (m : Removed dec i n x h)
      (size : length h.items ≡ suc n) (below : i < n) where
    -- The last item may belong below the slot that it was moved into,
    after-DownInv :
        (0 < i → prio m.after.items i ≤ prio m.after.items (parent i)) → DownInv 0 m.after.items i
    after-DownInv under = record {
      edges = λ c p q r t.
          ground (arith, size, m.size, m.priorities c, m.priorities (parent c), v.ordered c, under);
      bridged = λ c p q r t u.
          ground (
            arith,
            size,
            m.size,
            m.priorities c,
            m.priorities (parent i),
            v.ordered c,
            v.ordered i,
          );
    }

    -- or above it.
    after-UpInv :
        0 < i → prio m.after.items (parent i) < prio m.after.items i → UpInv m.after.items i
    after-UpInv pos over = record {
      inside = omega (arith, m.size);
      edges = λ c p q t. ground (
        arith,
        size,
        m.size,
        m.priorities c,
        m.priorities (parent c),
        m.priorities (parent i),
        v.ordered c,
        v.ordered i,
      );
      bridged = λ c p q r t.
          ground (
            arith,
            size,
            m.size,
            m.priorities c,
            m.priorities (parent i),
            v.ordered c,
            v.ordered i,
          );
    }

  -- On an empty heap `Pop` returns nothing and changes nothing.
  pop_empty : (h : Heap K T) → h.items ≡ [] → Heap.pop dec h ≡ some (none, h)
  unfolding Heap.pop
  pop_empty h e = ground (arith, ap length e)

  root_highest :
      (h : Heap K T) (x : Item K T)
      → IsValid h
      → get_elem? h.items 0 ≡ some x
      → (i : ℕ) (y : Item K T) → get_elem? h.items i ≡ some y
      → y.priority ≤ x.priority
  root_highest h x v e0 i y e = omega (
    arith,
    root_most h.items i v.ordered (inside_of_some h.items i e),
    ap prio_of e,
    ap prio_of e0,
  )

  dropped-Taken :
      (n : ℕ) (x : Item K T) (h : Heap K T)
      → IsValid h
      → length h.items ≡ suc n
      → get_elem? h.items n ≡ some x
      → Taken x h (record { items = take n h.items; lookup = delete dec h.lookup x.key })
  dropped-Taken n x h v size en =
      let len = length-take n h.items (omega arith) in
      record {
        valid = record {
          ordered = λ c p q r. kept c p (omega (arith, len)) (v.ordered c);
          indexed = dropped-Indexed dec n x h v.indexed size en;
        };
        same = drop_last-perm n h.items size en;
        absent = if_pos (dec x.key x.key) refl _ _;
      }
    where
      kept :
          (c : ℕ)
          → 0 < c
          → c < n
          → (0 < c → c < length h.items → 0 ≤ parent c → prio h.items c ≤ prio h.items (parent c))
          → prio (take n h.items) c ≤ prio (take n h.items) (parent c)
      kept c pos lt under =
          rw (get_elem?-take n h.items c lt, get_elem?-take n h.items (parent c) (omega arith))
            (under pos (omega arith) (omega arith))

  pop_several :
      (n : ℕ) (x : Item K T) (h : Heap K T)
      → IsValid h
      → length h.items ≡ suc n
      → get_elem? h.items 0 ≡ some x
      → 0 < n
      → (h' : Heap K T) × (Heap.pop dec h ≡ some (some x, h')) × Taken x h h'
  unfolding Heap.pop
  pop_several n x h v size e0 pos =
      let m = removed dec 0 n x h v.indexed size e0 pos in
      let s =
        percolate_down-Sifted dec (length h.items + 1) 0 0 m.after (omega (arith, m.size))
          (after-DownInv 0 n x h v m size pos (λ z. absurd (omega arith))) in
      let not_empty : (length h.items == 0) ≡ false = ground arith in
      let not_one : (length h.items == 1) ≡ false = ground arith in
      (s.after, rw (not_empty, e0, not_one, m.returns, s.returns), Sifted-Taken m s)

  pop_one :
      (x : Item K T) (h : Heap K T)
      → IsValid h
      → length h.items ≡ 1
      → get_elem? h.items 0 ≡ some x
      → (h' : Heap K T) × (Heap.pop dec h ≡ some (some x, h')) × Taken x h h'
  unfolding Heap.pop
  pop_one x h v size e0 =
      let not_empty : (length h.items == 0) ≡ false = ground arith in
      let is_one : (length h.items == 1) ≡ true = ground arith in
      (
        record { items = []; lookup = delete dec h.lookup x.key },
        rw (not_empty, e0, is_one),
        dropped-Taken 0 x h v size e0,
      )

  pop_first :
      (x : Item K T) (h : Heap K T)
      → IsValid h
      → get_elem? h.items 0 ≡ some x
      → (h' : Heap K T) × (Heap.pop dec h ≡ some (some x, h')) × Taken x h h'
  pop_first x h v e0 =
      let pos = inside_of_some h.items 0 e0 in
      elim (eq_or_ne (length h.items) 1) [
        | inl one ↦ pop_one x h v one e0
        | inr more ↦ pop_several (length h.items - 1) x h v (omega arith) e0 (omega arith)
      ]

  -- `Pop` on a valid heap with items returns one of the highest priority and leaves a valid heap of
  -- the others, without its key. It reads no slot out of range, and its loop ends.
  pub pop-Taken :
      (h : Heap K T)
      → IsValid h
      → 0 < length h.items
      → (x : Item K T) × (h' : Heap K T) × (Heap.pop dec h ≡ some (some x, h'))
        × Taken x h h'
        × ((i : ℕ) (y : Item K T) → get_elem? h.items i ≡ some y → y.priority ≤ x.priority)
  pop-Taken h v pos =
      let (x, e0) = get_elem?-some h.items 0 pos in
      let (h', run, t) = pop_first x h v e0 in (x, h', run, t, root_highest h x v e0)

  module _ (i n : ℕ) (x : Item K T) (h : Heap K T) (v : IsValid h) (size : length h.items ≡ suc n)
      (ei : get_elem? h.items i ≡ some x) (pos : 0 < i) where
    inner_last : i ≡ n → (h' : Heap K T) × (remove_inner dec i x.key h ≡ some h') × Taken x h h'
    unfolding remove_inner
    inner_last e =
        let n_is : length h.items - 1 ≡ n = omega arith in
        let is_last : (i == n) ≡ true = ground arith in
        (
          record { items = take n h.items; lookup = delete dec h.lookup x.key },
          rw (n_is, is_last),
          dropped-Taken n x h v size (ap (get_elem? h.items) (sym e) ∙ ei),
        )

    inner_moved : i < n → (h' : Heap K T) × (remove_inner dec i x.key h ≡ some h') × Taken x h h'
    unfolding remove_inner
    inner_moved below =
        let m = removed dec i n x h v.indexed size ei below in
        let not_last : (i == length h.items - 1) ≡ false = ground arith in
        let compared =
          above-prio m.after.items i (parent i) (omega (arith, m.size)) (omega (arith, m.size)) in
        elim (Bool-cases (ltb (prio m.after.items (parent i)) (prio m.after.items i))) [
          | inl rises ↦
              let s =
                percolate_up-Sifted dec (i + 1) i m.after (omega arith)
                  (after-UpInv i n x h v m size below pos (ground arith)) in
              (s.after, rw (not_last, m.returns, compared, rises) s.returns, Sifted-Taken m s)
          | inr sinks ↦
              let s =
                percolate_down-Sifted dec (length h.items + 1) 0 i m.after (omega (arith, m.size))
                  (after-DownInv i n x h v m size below (λ p. ground arith)) in
              (s.after, rw (not_last, m.returns, compared, sinks) s.returns, Sifted-Taken m s)
        ]

  remove_inside :
      (i : ℕ) (x : Item K T) (h : Heap K T)
      → IsValid h
      → get_elem? h.items i ≡ some x
      → 0 < i
      → (h' : Heap K T) × (remove_inner dec i x.key h ≡ some h') × Taken x h h'
  remove_inside i x h v ei pos =
      let n = length h.items - 1 in
      let inside = inside_of_some h.items i ei in
      let size : length h.items ≡ suc n = omega arith in
      elim (lt_or_le i n) [
        | inl below ↦ inner_moved i n x h v size ei pos below
        | inr last ↦ inner_last i n x h v size ei pos (omega arith)
      ]

  remove_at :
      (i : ℕ) (x : Item K T) (h : Heap K T)
      → IsValid h
      → h.lookup x.key ≡ some i
      → get_elem? h.items i ≡ some x
      → (h' : Heap K T) × (Heap.remove dec x.key h ≡ some (true, h')) × Taken x h h'
  unfolding Heap.remove
  remove_at zero x h v e ei =
      let (h', run, t) = pop_first x h v ei in (h', rw (e, Heap.remove) (rw run), t)
  remove_at (suc i) x h v e ei =
      let (h', run, t) = remove_inside (suc i) x h v ei (omega arith) in
      let inner : (suc i == 0) ≡ false = ground arith in
      (h', rw (e, Heap.remove) (rw (inner, run)), t)

  -- `Remove` of a key that stands in a slot takes exactly that item away, leaves a valid heap of the
  -- others, and reports true.
  pub remove-Taken :
      (h : Heap K T) (k : K) (i : ℕ)
      → IsValid h
      → h.lookup k ≡ some i
      → (x : Item K T) × (h' : Heap K T) × (get_elem? h.items i ≡ some x)
        × (x.key ≡ k)
        × (Heap.remove dec k h ≡ some (true, h'))
        × Taken x h h'
  remove-Taken h k i v e =
      let (x, ei, is) = slot_of (get_elem? h.items i) refl ((v.indexed k i).0 e) in
      let (h', run, t) = remove_at i x h v (ap h.lookup is ∙ e) ei in
      (x, h', ei, is, ap (λ j. Heap.remove dec j h) (sym is) ∙ run, t)
    where
      slot_of :
          (o : Option (Item K T))
          → get_elem? h.items i ≡ o
          → key_of o ≡ some k
          → (x : Item K T) × (get_elem? h.items i ≡ some x) × (x.key ≡ k)
      slot_of none p q = cc
      slot_of (some x) p q = (x, p, some_eq q)

  -- `Remove` of an unknown key changes nothing and reports false.
  pub remove_absent :
      (h : Heap K T) (k : K) → h.lookup k ≡ none → Heap.remove dec k h ≡ some (false, h)
  unfolding Heap.remove
  remove_absent h k e = rw (e, Heap.remove)
