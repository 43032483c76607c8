-- ===== src/Cache/Cells.antt =====
-- The entries of the LRU cache with their handles: what ties its map, its list and its store
-- together.
use fraise.Prelude.{
  ℕ, suc, ◌+◌, ◌<◌, ◌≡◌, ◌≢◌, refl, ap, ◌∙◌, List, [], ◌∷◌, Option, none, some, arith, length,
  subst, true, sym,
}
use fraise.Prelude.Maps.{Map, update}
use fraise.Cache.Lru.{LruCache, remove, contains}
use fraise.Cache.Recency.{find, drop_key}
use mathlib.Core.Logic.{ite, if_pos, if_neg}
use native.Mathlib.Decide.{ℕ_discrete}

pub record Cell {ℓ} (K V : Type ℓ) : Type ℓ where
  pub handle : ℕ
  pub key : K
  pub value : V

module _ {ℓ} {K V : Type ℓ} where
  abbrev pub handles : List (Cell K V) → List ℕ
  handles [] = []
  handles (x ∷ s) = x.handle ∷ handles s

  abbrev pub view : List (Cell K V) → List (K × V)
  view [] = []
  view (x ∷ s) = (x.key, x.value) ∷ view s

  -- No cell has the handle `h`.
  abbrev pub FreshHandle : ℕ → List (Cell K V) → Type 0
  FreshHandle h [] = Unit
  FreshHandle h (x ∷ s) = (x.handle ≢ h) × FreshHandle h s

  abbrev pub FreshKey : K → List (Cell K V) → Type ℓ
  FreshKey k [] = Unit
  FreshKey k (x ∷ s) = (x.key ≢ k) × FreshKey k s

  abbrev pub AreDistinct : List (Cell K V) → Type ℓ
  AreDistinct [] = Unit
  AreDistinct (x ∷ s) = FreshHandle x.handle s × FreshKey x.key s × AreDistinct s

  abbrev pub AreStored : Map ℕ (K × V) → List (Cell K V) → Type ℓ
  AreStored m [] = Unit
  AreStored m (x ∷ s) = (m x.handle ≡ some (x.key, x.value)) × AreStored m s

  abbrev pub AreBelow : ℕ → List (Cell K V) → Type 0
  AreBelow n [] = Unit
  AreBelow n (x ∷ s) = (x.handle < n) × AreBelow n s

some-ne-none : {h : ℕ} → some h ≢ none
some-ne-none e = cc

module _ {ℓ} {K V : Type ℓ} (dec : Discrete K) where
  unfoldable pub handle_of : K → List (Cell K V) → Option ℕ
  handle_of k [] = none
  handle_of k (x ∷ s) = ite (dec x.key k) (some x.handle) (handle_of k s)

  unfoldable pub drop_cell : K → List (Cell K V) → List (Cell K V)
  drop_cell k [] = []
  drop_cell k (x ∷ s) = ite (dec x.key k) s (x ∷ drop_cell k s)

  -- The cache `c` holds the cells `s`, most recently used first.
  pub record Holds (c : LruCache K V) (s : List (Cell K V)) : Type ℓ where
    pub order_is : c.order ≡ handles s
    pub indexed : (k : K) → c.items k ≡ handle_of k s
    pub stored : AreStored c.entries s
    pub below : AreBelow c.fresh s
    pub distinct : AreDistinct s

  pub view-drop_cell :
      (k : K) (s : List (Cell K V)) → view (drop_cell k s) ≡ drop_key dec k (view s)
  unfolding drop_cell drop_key
  view-drop_cell k [] = refl
  view-drop_cell k (x ∷ s) = ground (arith, view-drop_cell k s)

  pub drop_cell-FreshHandle :
      (k : K) (h : ℕ) (s : List (Cell K V)) → FreshHandle h s → FreshHandle h (drop_cell k s)
  unfolding drop_cell
  drop_cell-FreshHandle k h [] f = tt
  drop_cell-FreshHandle k h (x ∷ s) f = ground (arith, drop_cell-FreshHandle k h s f.1)

  pub drop_cell-FreshKey :
      (k j : K) (s : List (Cell K V)) → FreshKey j s → FreshKey j (drop_cell k s)
  unfolding drop_cell
  drop_cell-FreshKey k j [] f = tt
  drop_cell-FreshKey k j (x ∷ s) f = ground (arith, drop_cell-FreshKey k j s f.1)

  pub drop_cell-AreDistinct :
      (k : K) (s : List (Cell K V))
      → AreDistinct s
      → AreDistinct (drop_cell k s) × FreshKey k (drop_cell k s)
  unfolding drop_cell
  drop_cell-AreDistinct k [] d = (tt, tt)
  drop_cell-AreDistinct k (x ∷ s) d = elim (dec x.key k) [
    | yes p ↦ rw (if_pos _ p) (d.2, subst (λ j. FreshKey j s) p d.1)
    | no n ↦
        let (inner, gone) = drop_cell-AreDistinct k s d.2 in
        rw (if_neg _ n) (
          (drop_cell-FreshHandle k x.handle s d.0, drop_cell-FreshKey k x.key s d.1, inner),
          (n, gone),
        )
  ]

  pub drop_cell-AreStored :
      (k : K) (m : Map ℕ (K × V)) (s : List (Cell K V))
      → AreStored m s
      → AreStored m (drop_cell k s)
  unfolding drop_cell
  drop_cell-AreStored k m [] f = tt
  drop_cell-AreStored k m (x ∷ s) f = ground (arith, drop_cell-AreStored k m s f.1)

  pub drop_cell-AreBelow :
      (k : K) (n : ℕ) (s : List (Cell K V)) → AreBelow n s → AreBelow n (drop_cell k s)
  unfolding drop_cell
  drop_cell-AreBelow k n [] f = tt
  drop_cell-AreBelow k n (x ∷ s) f = ground (arith, drop_cell-AreBelow k n s f.1)

  pub handle_of-drop_cell :
      (k j : K) (s : List (Cell K V)) → j ≢ k → handle_of j (drop_cell k s) ≡ handle_of j s
  unfolding handle_of drop_cell
  handle_of-drop_cell k j [] n = refl
  handle_of-drop_cell k j (x ∷ s) n = elim (dec x.key k) [
    | yes p ↦ rw (if_pos (dec x.key k) p, if_neg (dec x.key j) (λ e. n (sym e ∙ p)))
    | no m ↦
        rw (if_neg (dec x.key k) m)
          (ap (λ o. ite (dec x.key j) (some x.handle) o) (handle_of-drop_cell k j s n))
  ]

  pub handle_of_fresh : (k : K) (s : List (Cell K V)) → FreshKey k s → handle_of k s ≡ none
  unfolding handle_of
  handle_of_fresh k [] f = refl
  handle_of_fresh k (x ∷ s) f = ground (arith, handle_of_fresh k s f.1)

  pub fresh_of_none : (k : K) (s : List (Cell K V)) → handle_of k s ≡ none → FreshKey k s
  unfolding handle_of
  fresh_of_none k [] e = tt
  fresh_of_none k (x ∷ s) e = ground (arith, fresh_of_none k s)

  pub find-none : (k : K) (s : List (Cell K V)) → handle_of k s ≡ none → find dec k (view s) ≡ none
  unfolding handle_of find
  find-none k [] e = refl
  find-none k (x ∷ s) e = elim (dec x.key k) [
    | yes p ↦ absurd (some-ne-none (rw (if_pos (dec x.key k) p) at e))
    | no n ↦ rw (if_neg (dec x.key k) n) (find-none k s (rw (if_neg (dec x.key k) n) at e))
  ]

  pub drop_cell_miss : (k : K) (s : List (Cell K V)) → handle_of k s ≡ none → drop_cell k s ≡ s
  unfolding handle_of drop_cell
  drop_cell_miss k [] e = refl
  drop_cell_miss k (x ∷ s) e = elim (dec x.key k) [
    | yes p ↦ absurd (some-ne-none (rw (if_pos (dec x.key k) p) at e))
    | no n ↦
        rw (if_neg (dec x.key k) n)
          (ap (◌∷◌ x) (drop_cell_miss k s (rw (if_neg (dec x.key k) n) at e)))
  ]

  -- The cell that the map points at: its value, and the list without it.
  pub record Located (k : K) (h : ℕ) (m : Map ℕ (K × V)) (s : List (Cell K V)) : Type ℓ where
    pub value : V
    pub entry : m h ≡ some (k, value)
    pub found : find dec k (view s) ≡ some value
    pub inside : contains h (handles s) ≡ true
    pub removed : remove h (handles s) ≡ handles (drop_cell k s)
    pub gone : FreshHandle h (drop_cell k s)
    pub shorter : length s ≡ suc (length (drop_cell k s))

  fresh_of_located :
      (k : K) (h n : ℕ) (s : List (Cell K V)) → handle_of k s ≡ some h → FreshHandle n s → n ≢ h
  unfolding handle_of
  fresh_of_located k h n [] e f = ground arith
  fresh_of_located k h n (x ∷ s) e f = ground (arith, fresh_of_located k h n s)

  pub located :
      (k : K) (h : ℕ) (m : Map ℕ (K × V)) (s : List (Cell K V))
      → handle_of k s ≡ some h
      → AreStored m s
      → AreDistinct s
      → Located k h m s
  unfolding handle_of drop_cell find contains remove
  located k h m [] e st d = cc
  located k h m (x ∷ s) e st d = elim (dec x.key k) [
    | yes p ↦
        let is : x.handle ≡ h = ground arith in
        record {
          value = x.value;
          entry = ground arith;
          found = ground arith;
          inside = ground arith;
          removed = ground arith;
          gone = rw (if_pos (dec x.key k) p) (subst (λ n. FreshHandle n s) is d.0);
          shorter = ground arith;
        }
    | no n ↦
        let t = located k h m s (rw (if_neg (dec x.key k) n) at e) st.1 d.2 in
        let other : x.handle ≢ h =
          fresh_of_located k h x.handle s (rw (if_neg (dec x.key k) n) at e) d.0 in
        record {
          value = t.value;
          entry = t.entry;
          found = rw (if_neg (dec x.key k) n) t.found;
          inside = ground (arith, t.inside);
          removed = ground (arith, t.removed);
          gone = rw (if_neg (dec x.key k) n) (other, t.gone);
          shorter = ground (arith, t.shorter);
        }
  ]

  pub below_of_located :
      (k : K) (h n : ℕ) (s : List (Cell K V)) → handle_of k s ≡ some h → AreBelow n s → h < n
  unfolding handle_of
  below_of_located k h n [] e f = cc
  below_of_located k h n (x ∷ s) e f = ground (arith, below_of_located k h n s)

module _ {ℓ} {K V : Type ℓ} where
  pub update-AreStored :
      (m : Map ℕ (K × V)) (h : ℕ) (e : K × V) (s : List (Cell K V))
      → FreshHandle h s
      → AreStored m s
      → AreStored (update ℕ_discrete m h e) s
  update-AreStored m h e [] f st = tt
  update-AreStored m h e (x ∷ s) f st =
      (if_neg (ℕ_discrete x.handle h) f.0 _ _ ∙ st.0, update-AreStored m h e s f.1 st.1)

  pub fresh_of_below : (n : ℕ) (s : List (Cell K V)) → AreBelow n s → FreshHandle n s
  fresh_of_below n [] b = tt
  fresh_of_below n (x ∷ s) b = (omega arith, fresh_of_below n s b.1)

  pub AreBelow-suc : (n : ℕ) (s : List (Cell K V)) → AreBelow n s → AreBelow (n + 1) s
  AreBelow-suc n [] b = tt
  AreBelow-suc n (x ∷ s) b = (omega arith, AreBelow-suc n s b.1)
