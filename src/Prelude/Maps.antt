-- ===== src/Prelude/Maps.antt =====
-- Go maps as functions into `Option`, with keys of decidable equality. A missing key is `none`.
use mathlib.Core.Logic.{ite}
use mathlib.Core.Option.{Option, none, some}

abbrev pub Map {ℓ κ} : Type ℓ → Type κ → Type (ℓ ⊔ κ)
Map K V = K → Option V

abbrev pub empty {ℓ κ} : {K : Type ℓ} {V : Type κ} → Map K V
empty k = none

module _ {ℓ κ} {K : Type ℓ} {V : Type κ} (dec : Discrete K) where
  -- `m[k] = v`
  abbrev pub update : Map K V → K → V → Map K V
  update m k v j = ite (dec j k) (some v) (m j)

  -- `delete(m, k)`
  abbrev pub delete : Map K V → K → Map K V
  delete m k j = ite (dec j k) none (m j)
