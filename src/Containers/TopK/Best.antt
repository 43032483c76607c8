-- ===== src/Containers/TopK/Best.antt =====
-- `TopK` over any pairs: it keeps the best of them.
use fraise.Prelude.{subst, ℕ, ◌<◌, ◌≡◌, refl, ap, sym, List, [], ◌∷◌, ◌++◌, Option, some, arith}
use fraise.Containers.Heap.{◌>>=◌}
use fraise.Containers.TopK.{Entry, Ranking, TopK, new_top_k, offer}
use mathlib.Core.List.{not-mem-nil}
use mathlib.Core.List.Perm
use mathlib.Core.List.{append-nil, perm_middle}
use fraise.Containers.TopK.Ranks.{IsRanking}
use fraise.Containers.TopK.Step.{Best, Held, offer-Held}

module _ {K P : Type 0} (rank : Ranking K P) where
  -- The pairs offered one after the other.
  unfoldable pub offer_all : List (Entry K P) → TopK K P → Option (TopK K P)
  offer_all [] t = some t
  offer_all (e ∷ es) t = offer rank e t >>= offer_all es

  module _ (r : IsRanking rank) (k : ℕ) (positive : 0 < k) where
    offer_all-Held :
        (es seen : List (Entry K P)) (t : TopK K P)
        → Held rank k seen t
        → (t' : TopK K P) × (offer_all es t ≡ some t') × Best rank k (es ++ seen) t'
    unfolding offer_all
    offer_all-Held [] seen t h = (t, refl, h.kept)
    offer_all-Held (e ∷ es) seen t h =
        let (t', one, h') = step t h in
        let (t'', more, b) = offer_all-Held es (e ∷ seen) t' h' in
        (
          t'',
          rw one more,
          record {
            bound = b.bound;
            fits = b.fits;
            dropped = b.dropped;
            all = Perm.trans b.all (perm_middle es seen);
            full = b.full;
            best = b.best;
          },
        )
      where
        step :
            (t : TopK K P)
            → Held rank k seen t
            → (t' : TopK K P) × (offer rank e t ≡ some t') × Held rank k (e ∷ seen) t'
        step t h =
            let same : (record { k = k; entries = t.entries }) ≡ t =
              ap (λ (n : ℕ). record { k = n; entries = t.entries }) (sym h.kept.bound) in
            subst
              (λ (x : TopK K P).
                Held rank k seen x
                → (t' : TopK K P) × (offer rank e x ≡ some t') × Held rank k (e ∷ seen) t')
              same (offer-Held rank r k positive e seen t.entries) h

    -- If scores and keys rank the pairs, a `TopK` of a positive `k` takes any pairs, offered one after
    -- the other, and keeps the best of them: the kept and the dropped are the offered, no dropped pair
    -- ranks above a kept one, at most `k` are kept, and none is dropped before `k` are.
    pub offer_all-Best :
        (es : List (Entry K P))
        → (t : TopK K P) × (offer_all es (new_top_k k) ≡ some t) × Best rank k es t
    unfolding new_top_k
    offer_all-Best es =
        let (t, run, b) =
          offer_all-Held es [] (record { k = k; entries = [] })
            (record {
              kept = record {
                bound = refl;
                fits = omega arith;
                dropped = [];
                all = Perm.refl [];
                full = λ _. refl;
                best = λ x y m n. absurd (not-mem-nil m);
              };
              heap = λ c p q. absurd (omega (arith, q));
            }) in
        (t, run, rw append-nil at b)
