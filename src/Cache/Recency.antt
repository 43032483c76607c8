-- ===== src/Cache/Recency.antt =====
-- The abstract cache: the entries, most recently used first, and nothing about how they are found.
use fraise.Prelude.{List, [], ◌∷◌, Option, none, some}
use mathlib.Core.Logic.{ite}

module _ {ℓ} {K V : Type ℓ} (dec : Discrete K) where
  unfoldable pub find : K → List (K × V) → Option V
  find k [] = none
  find k ((j, v) ∷ s) = ite (dec j k) (some v) (find k s)

  unfoldable pub drop_key : K → List (K × V) → List (K × V)
  drop_key k [] = []
  drop_key k ((j, v) ∷ s) = ite (dec j k) s ((j, v) ∷ drop_key k s)

  -- `k` with the value `v` is the most recently used entry.
  unfoldable pub touch : K → V → List (K × V) → List (K × V)
  touch k v s = (k, v) ∷ drop_key k s
