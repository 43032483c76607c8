-- ===== src/Containers/TopK/Tests.antt =====
-- Runs of the bounded heap.
use fraise.Prelude.{
  ℕ, ◌<◌, ◌≡◌, ◌⊎◌, inl, inr, List, [], ◌∷◌, some, arith, ◌==◌, ltb, if◌then◌else◌,
}
use fraise.Prelude.Decimal.{ℤ, int_ltb}
use fraise.Containers.TopK.{Entry, Ranking, TopK, new_top_k}
use fraise.Containers.TopK.Kept.{RanksAbove}
use native.Mathlib.Decide.{dec_lt}
use fraise.Containers.TopK.Ranks.{IsRanking}
use fraise.Containers.TopK.Best.{offer_all, offer_all-Best}
use fraise.Containers.TopK.Step.{Best}

abbrev by_number : Ranking ℕ ℕ
by_number = record {
  same_score = λ a b. a == b;
  less_score = λ a b. ltb a b;
  compare_keys = λ a b. if ltb a b then ℤ.negsuc 0 else if a == b then ℤ.pos 0 else ℤ.pos 1;
}

abbrev best_two : TopK ℕ ℕ
best_two = record {
  k = 2;
  entries = (record { key = 1; score = 3 }) ∷ (record { key = 2; score = 8 }) ∷ [];
}

number_above :
    (a b : Entry ℕ ℕ)
    → RanksAbove by_number a b
    → (b.score < a.score) ⊎ ((a.score ≡ b.score) × (a.key < b.key))
unfolding int_ltb
number_above a b (RanksAbove.by_score h) = inl (ground (arith, h))
number_above a b (RanksAbove.by_key s h) = inr (ground (arith, s), ground (arith, h))

above_number :
    (a b : Entry ℕ ℕ)
    → (b.score < a.score) ⊎ ((a.score ≡ b.score) × (a.key < b.key))
    → RanksAbove by_number a b
unfolding int_ltb
above_number a b (inl h) = RanksAbove.by_score (ground (arith, h))
above_number a b (inr (s, h)) = RanksAbove.by_key (ground (arith, s)) (ground (arith, h))

by_number-IsRanking : IsRanking by_number
unfolding int_ltb
by_number-IsRanking = record {
  strict = λ a b h k. omega (arith, number_above a b h, number_above b a k);
  weak = λ a b c m n h. elim (number_above a c h) [
    | inl higher ↦ elim (dec_lt b.score a.score) [
      | yes p ↦ absurd (m (above_number a b (inl p)))
      | no q ↦ absurd (n (above_number b c (inl (omega (arith, higher, q)))))
    ]
    | inr (same, first) ↦ elim (dec_lt b.score a.score) [
      | yes p ↦ absurd (m (above_number a b (inl p)))
      | no q ↦ elim (dec_lt a.score b.score) [
        | yes p' ↦ absurd (n (above_number b c (inl (omega (arith, p', same)))))
        | no q' ↦ elim (dec_lt a.key b.key) [
          | yes l ↦ absurd (m (above_number a b (inr (omega (arith, q, q'), l))))
          | no l' ↦
              absurd
                (n (above_number b c (inr (omega (arith, q, q', same), omega (arith, l', first)))))
        ]
      ]
    ]
  ];
  apart = λ x y e. ground (arith, e);
  mirrored = λ x y. ground arith;
  flips = λ k l. ground arith;
}

abbrev four_pairs : List (Entry ℕ ℕ)
four_pairs =
    (record { key = 1; score = 3 })
    ∷ (record { key = 2; score = 8 })
    ∷ (record { key = 3; score = 5 })
    ∷ (record { key = 0; score = 5 })
    ∷ []

offer_all-Best_example :
    (t : TopK ℕ ℕ) × (offer_all by_number four_pairs (new_top_k 2) ≡ some t)
    × Best by_number 2 four_pairs t
offer_all-Best_example = offer_all-Best by_number by_number-IsRanking 2 (omega arith) four_pairs
