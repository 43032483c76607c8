-- ===== src/Containers/Heap/Put.antt =====
-- `Push`.
use fraise.Prelude.{
  ℕ, ◌+◌, ◌-◌, ◌≤◌, ◌<◌, ◌≡◌, refl, ap, ◌∙◌, sym, List, [], ◌∷◌, ◌++◌, none, some, ◌==◌, ltb,
  if◌then◌else◌, length, get_elem?, arith, inl, inr, Bool-cases, Option-cases, length-append,
}
use fraise.Prelude.Maps.{update}
use fraise.Containers.Array.{get_elem?-concat, concat-perm}
use fraise.Containers.Slots.{append-Agrees}
use fraise.Containers.Heap
use fraise.Containers.Heap.{Item, Heap, parent, push_new, percolate_up, heapify, index_items, ◌>>=◌}
use fraise.Containers.Heap.Order.{prio, prio_of, key_at, key_of, Indexed}
use fraise.Containers.Heap.Up.{UpInv, percolate_up-Sifted}
use fraise.Containers.Heap.Root.{IsValid, past_end, prio_if, key_if}
use fraise.Containers.Heap.Take.{remove-Taken}
use mathlib.Core.List.{Perm}
use mathlib.Core.List.Perm

module _ {ℓ} {K T : Type ℓ} (dec : Discrete K) where
  module _ (x : Item K T) (h : Heap K T) (v : IsValid h) (fresh : h.lookup x.key ≡ none) where
    n : ℕ
    n = length h.items

    grown : Heap K T
    unfolding n
    grown = record { items = h.items ++ x ∷ []; lookup = update dec h.lookup x.key n }

    grown_length : length grown.items ≡ n + 1
    unfolding n grown
    grown_length = length-append h.items (x ∷ [])

    grown_prio : (c : ℕ) → prio grown.items c ≡ (if c == n then x.priority else prio h.items c)
    unfolding n grown
    grown_prio c =
        ap prio_of (get_elem?-concat h.items x c) ∙ prio_if (c == n) x (get_elem? h.items c)

    grown-Indexed : Indexed grown
    unfolding n grown
    grown-Indexed =
        append-Agrees dec h.lookup (key_at h.items) v.indexed n x.key (key_at grown.items) fresh
          (ap key_of (past_end h.items n (omega arith)))
          (λ c. ap key_of (get_elem?-concat h.items x c) ∙ key_if (c == n) x (get_elem? h.items c))

    grown-UpInv : UpInv grown.items n
    unfolding n
    grown-UpInv = record {
      inside = omega (arith, grown_length);
      edges =
          λ c p q t. ground (arith, grown_length, grown_prio c, grown_prio (parent c), v.ordered c);
      bridged = λ c p q r t. absurd (omega (arith, grown_length));
    }

    push_new_from : push_new dec x h ≡ percolate_up dec (n + 1) n grown
    unfolding push_new n grown
    push_new_from =
        let last : length h.items + 1 - 1 ≡ length h.items = omega arith in
        ap
          (λ i.
            percolate_up dec (length h.items + 1) i
              (record { items = h.items ++ x ∷ []; lookup = update dec h.lookup x.key i }))
          last

    push_new-Added :
        (h' : Heap K T) × (push_new dec x h ≡ some h') × IsValid h' × Perm h'.items (x ∷ h.items)
    unfolding n grown
    push_new-Added =
        let s = percolate_up-Sifted dec (n + 1) n grown (omega arith) grown-UpInv in
        (
          s.after,
          push_new_from ∙ s.returns,
          record { ordered = s.ordered; indexed = s.rearranged.agrees grown-Indexed },
          Perm.trans s.rearranged.same (concat-perm h.items x),
        )

  -- What `Push` does to the item `old` that has the key already: the higher priority stays, and the
  -- new item on a tie.
  pub data Pushed (x : Item K T) (h h' : Heap K T) : Type ℓ where
    added : h.lookup x.key ≡ none → Perm h'.items (x ∷ h.items) → Pushed x h h'
    kept :
        (i : ℕ) (old : Item K T)
        → h.lookup x.key ≡ some i
        → get_elem? h.items i ≡ some old
        → x.priority < old.priority
        → h' ≡ h
        → Pushed x h h'
    replaced :
        (i : ℕ) (old : Item K T) (others : List (Item K T))
        → h.lookup x.key ≡ some i
        → get_elem? h.items i ≡ some old
        → old.priority ≤ x.priority
        → Perm (old ∷ others) h.items
        → Perm h'.items (x ∷ others)
        → Pushed x h h'

  push_known :
      (x : Item K T) (h : Heap K T) (i : ℕ)
      → IsValid h
      → h.lookup x.key ≡ some i
      → (h' : Heap K T) × (Heap.push dec x h ≡ some h') × IsValid h' × Pushed x h h'
  unfolding Heap.push
  push_known x h i v e =
      let (old, h1, ei, is, run, t) = remove-Taken dec h x.key i v e in
      let (h', again, valid, same) =
        push_new-Added x h1 t.valid (ap h1.lookup (sym is) ∙ t.absent) in
      elim (Bool-cases (ltb x.priority old.priority)) [
        | inl lower ↦
            (h, rw (e, Heap.push) (rw (ei, lower)), v, kept i old e ei (ground arith) refl)
        | inr higher ↦ (
          h',
          rw (e, Heap.push) (rw (ei, higher, run) again),
          valid,
          replaced i old h1.items e ei (ground arith) t.same same,
        )
      ]

  -- `Push` on a valid heap ends, reads no slot out of range and leaves a valid heap: the item is
  -- added under a new key; under a known one the item of the higher priority stays, the new one on a
  -- tie, and the other items are untouched.
  pub push-Pushed :
      (x : Item K T) (h : Heap K T)
      → IsValid h
      → (h' : Heap K T) × (Heap.push dec x h ≡ some h') × IsValid h' × Pushed x h h'
  unfolding Heap.push
  push-Pushed x h v = elim (Option-cases (h.lookup x.key)) [
    | inl fresh ↦
        let (h', run, valid, same) = push_new-Added x h v fresh in
        (h', rw (fresh, Heap.push) run, valid, added fresh same)
    | inr (i, e) ↦ push_known x h i v e
  ]
