-- ===== src/Containers/Heap/Order.antt =====
-- The heap order, the map's agreement with the slots, and what an exchange of two slots does to them.
use fraise.Prelude.{
  ℕ, ◌≤◌, ◌<◌, ◌≡◌, refl, ap, ◌∙◌, sym, Bool, true, false, List, Option, none, some, ◌==◌, ltb,
  if◌then◌else◌, length, get_elem?,
}
use fraise.Prelude.Maps.{update}
use fraise.Containers.Array.{
  exchange, get_elem?-exchange, exchange-perm, length-exchange, get_elem?-some,
}
use fraise.Containers.Slots.{Agrees, exchange-Agrees, exchange_absent}
use fraise.Containers.Heap.{Item, Heap, parent, above, swap}
use mathlib.Core.List.{Perm}
use mathlib.Core.List.Perm

module _ {ℓ} {K T : Type ℓ} where
  -- The priority in a slot, and the key.
  abbrev pub prio_of : Option (Item K T) → ℕ
  prio_of none = 0
  prio_of (some x) = x.priority

  abbrev pub key_of : Option (Item K T) → Option K
  key_of none = none
  key_of (some x) = some x.key

  abbrev pub prio : List (Item K T) → ℕ → ℕ
  prio a i = prio_of (get_elem? a i)

  abbrev pub key_at : List (Item K T) → ℕ → Option K
  key_at a i = key_of (get_elem? a i)

  pub above-prio :
      (a : List (Item K T)) (i j : ℕ)
      → i < length a
      → j < length a
      → above a i j ≡ some (ltb (prio a j) (prio a i))
  unfolding above
  above-prio a i j hi hj =
      let (x, ei) = get_elem?-some a i hi in let (y, ej) = get_elem?-some a j hj in rw (ei, ej)

  -- Every slot whose parent is at `lo` or later is not above its parent.
  abbrev pub IsHeapFrom : ℕ → List (Item K T) → Type 0
  IsHeapFrom lo a = (c : ℕ) → 0 < c → c < length a → lo ≤ parent c → prio a c ≤ prio a (parent c)

  -- The map and the slots name the same items, so that no key stands in two slots.
  abbrev pub Indexed : Heap K T → Type ℓ
  Indexed h = Agrees h.lookup (key_at h.items)

  -- `h'` holds the items of `h`, in the same number of slots, and its map agrees with them.
  pub record Rearranged (h h' : Heap K T) : Type ℓ where
    pub same : Perm h'.items h.items
    pub size : length h'.items ≡ length h.items
    pub agrees : Indexed h → Indexed h'
    pub absent : Indexed h → (k : K) → h.lookup k ≡ none → h'.lookup k ≡ none

  pub Rearranged-refl : (h : Heap K T) → Rearranged h h
  Rearranged-refl h = record {
    same = Perm.refl h.items;
    size = refl;
    agrees = λ v. v;
    absent = λ v k e. e;
  }

  pub Rearranged-trans :
      {h h' h'' : Heap K T} → Rearranged h h' → Rearranged h' h'' → Rearranged h h''
  Rearranged-trans p q = record {
    same = Perm.trans q.same p.same;
    size = q.size ∙ p.size;
    agrees = λ v. q.agrees (p.agrees v);
    absent = λ v k e. q.absent (p.agrees v) k (p.absent v k e);
  }

apply_if {ℓ κ} :
    {A : Type ℓ} {B : Type κ} (g : Option A → B) (b b' : Bool) (x y : A) (o : Option A)
    → g (if b then some x else if b' then some y else o)
      ≡ (if b then g (some x) else if b' then g (some y) else g o)
apply_if g true b' x y o = refl
apply_if g false true x y o = refl
apply_if g false false x y o = refl

module _ {ℓ} {K T : Type ℓ} (dec : Discrete K) where
  -- Two slots exchanged.
  pub record Swapped (i j : ℕ) (h : Heap K T) : Type ℓ where
    pub after : Heap K T
    pub returns : swap dec i j h ≡ some after
    pub priorities :
        (c : ℕ)
        → prio after.items c
          ≡ (if j == c then prio h.items i else if i == c then prio h.items j else prio h.items c)
    pub rearranged : Rearranged h after

  pub swap-Swapped :
      (i j : ℕ) (h : Heap K T) → i < length h.items → j < length h.items → Swapped i j h
  unfolding swap
  swap-Swapped i j h hi hj =
      let (x, ei) = get_elem?-some h.items i hi in
      let (y, ej) = get_elem?-some h.items j hj in
      let at = get_elem?-exchange h.items i j x y ei ej in
      record {
        after = record {
          items = exchange h.items i j x y;
          lookup = update dec (update dec h.lookup y.key i) x.key j;
        };
        returns = rw (ei, ej);
        priorities = λ c.
            ap prio_of (at c)
            ∙ apply_if prio_of (j == c) (i == c) x y (get_elem? h.items c)
            ∙ ap (λ (n : ℕ). if j == c then n else if i == c then y.priority else prio h.items c)
                (sym (ap prio_of ei))
            ∙ ap
                (λ (n : ℕ). if j == c then prio h.items i else if i == c then n else prio h.items c)
                (sym (ap prio_of ej));
        rearranged = record {
          same = exchange-perm h.items i j x y ei ej;
          size = length-exchange h.items i j x y ei ej;
          absent = λ v.
              exchange_absent dec h.lookup (key_at h.items) v i j x.key y.key (ap key_of ei)
                (ap key_of ej);
          agrees = λ v.
              exchange-Agrees dec h.lookup (key_at h.items) v i j x.key y.key (ap key_of ei)
                (ap key_of ej) (key_at (exchange h.items i j x y))
                (λ c.
                  ap key_of (at c) ∙ apply_if key_of (j == c) (i == c) x y (get_elem? h.items c));
        };
      }
