-- ===== src/Containers/Vector.antt =====
-- internal/containers/vector.go: `Vector`. Floating point is a parameter: its equality and its exact
-- hexadecimal form.
use fraise.Prelude.{Bool, true, ◌&&◌, List, [], ◌∷◌, ◌++◌, length, ℕ, ◌==◌}
use fraise.Prelude.Text.{Text}

-- What the code uses of a floating-point type.
pub record Float (P : Type 0) : Type 0 where
  pub equal : P → P → Bool
  pub hexadecimal : P → Text

pub record Vector (P : Type 0) : Type 0 where
  pub coordinates : List P

module _ {P : Type 0} where
  unfoldable pub dim : Vector P → ℕ
  dim v = length v.coordinates

  unfoldable pub is_empty : Vector P → Bool
  is_empty v = length v.coordinates == 0

module _ {P : Type 0} (float : Float P) where
  -- The loop of `Equal` on slices of one length.
  unfoldable pub coordinates_equal : List P → List P → Bool
  coordinates_equal (x ∷ a) (y ∷ b) = float.equal x y && coordinates_equal a b
  coordinates_equal _ _ = true

  unfoldable pub vector_equal : Vector P → Vector P → Bool
  vector_equal v other =
      length v.coordinates == length other.coordinates
      && coordinates_equal v.coordinates other.coordinates

  -- The text that `Hash` gives the hasher.
  unfoldable pub vector_material : List P → Text
  vector_material [] = []
  vector_material (x ∷ []) = float.hexadecimal x
  vector_material (x ∷ y ∷ a) = float.hexadecimal x ++ 0 ∷ vector_material (y ∷ a)
