-- ===== src/Cache/Oldest.antt =====
-- The last cell, which an eviction takes away.
use fraise.Prelude.{
  ℕ, zero, suc, ◌≤◌, ◌≡◌, ◌≢◌, refl, ap, ◌∙◌, List, [], ◌∷◌, none, some, arith, length, take, sym,
}
use fraise.Prelude.Maps.{Map, delete}
use fraise.Cache.Lru.{LruCache, remove, back, evict_oldest}
use fraise.Cache.Cells.{
  Cell, handles, view, FreshHandle, FreshKey, AreDistinct, AreStored, AreBelow, handle_of, Holds,
}
use mathlib.Core.Logic.{ite, if_pos, if_neg}

pub length-take-suc {ℓ} :
    {A : Type ℓ} (n : ℕ) (s : List A) → length s ≡ suc n → length (take n s) ≡ n
length-take-suc zero s e = refl
length-take-suc (suc n) [] e = absurd (omega arith)
length-take-suc (suc n) (x ∷ s) e = omega (arith, length-take-suc n s (omega arith))

pub take_of_length-le {ℓ} : {A : Type ℓ} (n : ℕ) (s : List A) → length s ≤ n → take n s ≡ s
take_of_length-le zero [] h = refl
take_of_length-le zero (x ∷ s) h = absurd (omega arith)
take_of_length-le (suc n) [] h = refl
take_of_length-le (suc n) (x ∷ s) h = ap (◌∷◌ x) (take_of_length-le n s (omega arith))

module _ {ℓ} {K V : Type ℓ} where
  pub view-take : (n : ℕ) (s : List (Cell K V)) → view (take n s) ≡ take n (view s)
  view-take zero s = refl
  view-take (suc n) [] = refl
  view-take (suc n) (x ∷ s) = ap (◌∷◌ (x.key, x.value)) (view-take n s)

  pub length-view : (s : List (Cell K V)) → length (view s) ≡ length s
  length-view [] = refl
  length-view (x ∷ s) = ap suc (length-view s)

  pub length-handles : (s : List (Cell K V)) → length (handles s) ≡ length s
  length-handles [] = refl
  length-handles (x ∷ s) = ap suc (length-handles s)

  pub take-FreshHandle :
      (n h : ℕ) (s : List (Cell K V)) → FreshHandle h s → FreshHandle h (take n s)
  take-FreshHandle zero h s f = tt
  take-FreshHandle (suc n) h [] f = tt
  take-FreshHandle (suc n) h (x ∷ s) f = (f.0, take-FreshHandle n h s f.1)

  pub take-FreshKey : (n : ℕ) (k : K) (s : List (Cell K V)) → FreshKey k s → FreshKey k (take n s)
  take-FreshKey zero k s f = tt
  take-FreshKey (suc n) k [] f = tt
  take-FreshKey (suc n) k (x ∷ s) f = (f.0, take-FreshKey n k s f.1)

  pub take-AreDistinct : (n : ℕ) (s : List (Cell K V)) → AreDistinct s → AreDistinct (take n s)
  take-AreDistinct zero s d = tt
  take-AreDistinct (suc n) [] d = tt
  take-AreDistinct (suc n) (x ∷ s) d =
      (take-FreshHandle n x.handle s d.0, take-FreshKey n x.key s d.1, take-AreDistinct n s d.2)

  pub take-AreStored :
      (n : ℕ) (m : Map ℕ (K × V)) (s : List (Cell K V)) → AreStored m s → AreStored m (take n s)
  take-AreStored zero m s d = tt
  take-AreStored (suc n) m [] d = tt
  take-AreStored (suc n) m (x ∷ s) d = (d.0, take-AreStored n m s d.1)

  pub take-AreBelow : (n b : ℕ) (s : List (Cell K V)) → AreBelow b s → AreBelow b (take n s)
  take-AreBelow zero b s d = tt
  take-AreBelow (suc n) b [] d = tt
  take-AreBelow (suc n) b (x ∷ s) d = (d.0, take-AreBelow n b s d.1)

module _ {ℓ} {K V : Type ℓ} (dec : Discrete K) where
  -- The last of `n + 1` cells.
  record Oldest (n : ℕ) (m : Map ℕ (K × V)) (s : List (Cell K V)) : Type ℓ where
    cell : Cell K V
    is_back : back (handles s) ≡ some cell.handle
    entry : m cell.handle ≡ some (cell.key, cell.value)
    removed : remove cell.handle (handles s) ≡ handles (take n s)
    hidden : (k : K) → ite (dec k cell.key) none (handle_of dec k s) ≡ handle_of dec k (take n s)
    apart : (h : ℕ) → FreshHandle h s → h ≢ cell.handle
    other : (k : K) → FreshKey k s → k ≢ cell.key

  oldest :
      (n : ℕ) (m : Map ℕ (K × V)) (s : List (Cell K V))
      → length s ≡ suc n
      → AreStored m s
      → AreDistinct s
      → Oldest n m s
  unfolding back remove handle_of
  oldest n m [] e st d = absurd (omega arith)
  oldest zero m (x ∷ []) e st d = record {
    cell = x;
    is_back = refl;
    entry = st.0;
    removed = ground arith;
    hidden = λ k. elim (dec k x.key) [
      | yes p ↦ if_pos (dec k x.key) p _ _
      | no n ↦ rw (if_neg (dec k x.key) n, if_neg (dec x.key k) (λ q. n (sym q)))
    ];
    apart = λ h f. ground arith;
    other = λ k f e. f.0 (sym e);
  }
  oldest zero m (x ∷ y ∷ s) e st d = absurd (omega arith)
  oldest (suc n) m (x ∷ []) e st d = absurd (omega arith)
  oldest (suc n) m (x ∷ y ∷ s) e st d =
      let t = oldest n m (y ∷ s) (omega arith) st.1 d.2 in
      record {
        cell = t.cell;
        is_back = t.is_back;
        entry = t.entry;
        removed = ground (arith, t.apart x.handle d.0, t.removed);
        hidden = λ k. elim (dec x.key k) [
          | yes p ↦
              if_neg (dec k t.cell.key) (λ q. t.other x.key d.1 (p ∙ q)) _ _
              ∙ if_pos (dec x.key k) p _ _
              ∙ sym (if_pos (dec x.key k) p _ _)
          | no q ↦
              ap (λ o. ite (dec k t.cell.key) none o) (if_neg (dec x.key k) q _ _)
              ∙ t.hidden k
              ∙ sym (if_neg (dec x.key k) q _ _)
        ];
        apart = λ h f. t.apart h f.1;
        other = λ k f. t.other k f.1;
      }

  -- What `evict_oldest` leaves of `n + 1` cells is the first `n` of them.
  pub evict_oldest-Holds :
      (c : LruCache K V) (s : List (Cell K V)) (n : ℕ)
      → Holds dec c s
      → length s ≡ suc n
      → (c' : LruCache K V) × (evict_oldest dec c ≡ some c')
        × Holds dec c' (take n s)
        × (c'.capacity ≡ c.capacity)
  unfolding evict_oldest
  evict_oldest-Holds c s n h e =
      let t = oldest n c.entries s e h.stored h.distinct in
      let at_back : back c.order ≡ some t.cell.handle = rw h.order_is t.is_back in
      (
        record c { order = remove t.cell.handle c.order; items = delete dec c.items t.cell.key },
        rw (at_back, t.entry, evict_oldest),
        record {
          order_is = rw h.order_is t.removed;
          indexed = λ k. rw (h.indexed k) (t.hidden k);
          stored = take-AreStored n c.entries s h.stored;
          below = take-AreBelow n c.fresh s h.below;
          distinct = take-AreDistinct n s h.distinct;
        },
        refl,
      )
