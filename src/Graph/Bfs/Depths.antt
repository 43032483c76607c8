-- ===== src/Graph/Bfs/Depths.antt =====
-- internal/graph/bfs.go: the depths, and the queue's order by them.
use fraise.Prelude.{
  ℕ, ◌+◌, ◌≤◌, ◌≡◌, ◌≢◌, ◌⊎◌, refl, ap, sym, ◌∙◌, Bool, true, false, ◌||◌, List, [], ◌∷◌, ◌++◌,
  none, some, ◌==◌, ==_iff, arith, Bool-cases, Option-cases, inl, inr, if◌then◌else◌,
}
use fraise.Graph.Bfs.{TraversalResult, is_visited, visit}

abbrev pub elem : ℕ → List ℕ → Bool
elem v [] = false
elem v (w ∷ ws) = v == w || elem v ws

abbrev pub Extends : TraversalResult → TraversalResult → Type 0
Extends r s = (v d : ℕ) → r.depth v ≡ some d → s.depth v ≡ some d

-- The queue's depths rise, from `b` on.
abbrev pub Rises : TraversalResult → ℕ → List ℕ → Type 0
Rises r b [] = Unit
Rises r b (u ∷ queue) = (d : ℕ) × (r.depth u ≡ some d) × (b ≤ d) × Rises r d queue

abbrev pub Below : TraversalResult → ℕ → Type 0
Below r m = (v d : ℕ) → r.depth v ≡ some d → d ≤ m

-- Every one of `vs` was visited, at depth `m` at most.
abbrev pub Covers : TraversalResult → ℕ → List ℕ → Type 0
Covers r m vs = (w : ℕ) → elem w vs ≡ true → (e : ℕ) × (r.depth w ≡ some e) × (e ≤ m)

unfoldable pub unvisited : List ℕ → TraversalResult → ℕ
unvisited [] r = 0
unvisited (v ∷ vs) r = (if is_visited r v then 0 else 1) + unvisited vs r

pub elem-append : (v : ℕ) (xs ys : List ℕ) → elem v (xs ++ ys) ≡ (elem v xs || elem v ys)
elem-append v [] ys = refl
elem-append v (x ∷ xs) ys = ground (arith, elem-append v xs ys)

pub is_visited-none : (r : TraversalResult) (v : ℕ) → is_visited r v ≡ false → r.depth v ≡ none
is_visited-none r v h = elim (Option-cases (r.depth v)) [
  | inl e ↦ e
  | inr (d, e) ↦ absurd (ground (arith, h, e))
]

pub is_visited-some :
    (r : TraversalResult) (v : ℕ) → is_visited r v ≡ true → (d : ℕ) × (r.depth v ≡ some d)
is_visited-some r v h = elim (Option-cases (r.depth v)) [
  | inl e ↦ absurd (ground (arith, h, e))
  | inr found ↦ found
]

pub some_inj : {A : Type 0} {a b : A} → some a ≡ some b → a ≡ b
some_inj e = cc

module _ (r : TraversalResult) (v u d : ℕ) where
  pub visit_self : (visit v u d r).depth v ≡ some d
  unfolding visit
  visit_self = let self : (v == v) ≡ true = ground arith in rw self refl

  pub visit-parent : (visit v u d r).parent v ≡ some u
  unfolding visit
  visit-parent = let self : (v == v) ≡ true = ground arith in rw self refl

  pub visit-Extends : r.depth v ≡ none → Extends r (visit v u d r)
  unfolding visit
  visit-Extends new w e h = elim (Bool-cases (w == v)) [
    | inl same ↦ absurd (none-ne-some (sym new ∙ ap r.depth (sym ((==_iff w v).0 same)) ∙ h))
    | inr other ↦ rw other h
  ]
    where
      none-ne-some : {A : Type 0} {a : A} → none ≢ some a
      none-ne-some e = cc

  pub visit_inv :
      (w e : ℕ) → (visit v u d r).depth w ≡ some e → ((w ≡ v) × (e ≡ d)) ⊎ (r.depth w ≡ some e)
  unfolding visit
  visit_inv w e h = elim (Bool-cases (w == v)) [
    | inl same ↦ inl ((==_iff w v).0 same, some_inj (sym (rw same at h)))
    | inr other ↦ inr (rw other at h)
  ]

  unvisited-visit_le : (vs : List ℕ) → unvisited vs (visit v u d r) ≤ unvisited vs r
  unfolding unvisited visit
  unvisited-visit_le [] = omega arith
  unvisited-visit_le (w ∷ vs) = ground (arith, unvisited-visit_le vs)

  pub unvisited-visit :
      (vs : List ℕ)
      → r.depth v ≡ none
      → elem v vs ≡ true
      → unvisited vs (visit v u d r) + 1 ≤ unvisited vs r
  unfolding unvisited visit
  unvisited-visit [] new e = absurd cc
  unvisited-visit (w ∷ vs) new e =
      let fewer = unvisited-visit_le vs in
      elim (Bool-cases (v == w)) [
        | inl same ↦
            let at : v ≡ w = (==_iff v w).0 same in
            let self : (w == v) ≡ true = ground (arith, at) in
            let fresh : r.depth w ≡ none = ap r.depth (sym at) ∙ new in
            ground (arith, self, fresh, fewer)
        | inr other ↦
            let rest = unvisited-visit vs new (ground (arith, e, other)) in
            let apart : (w == v) ≡ false = ground (arith, other) in ground (arith, rest, apart)
      ]

pub Rises-Extends :
    (r s : TraversalResult) (b : ℕ) (queue : List ℕ)
    → Extends r s
    → Rises r b queue
    → Rises s b queue
Rises-Extends r s b [] x h = tt
Rises-Extends r s b (u ∷ queue) x (d, e, l, h) = (d, x u d e, l, Rises-Extends r s d queue x h)

pub Rises-append :
    (r : TraversalResult) (b m : ℕ) (queue : List ℕ) (v : ℕ)
    → Rises r b queue
    → Below r m
    → b ≤ m
    → r.depth v ≡ some m
    → Rises r b (queue ++ v ∷ [])
Rises-append r b m [] v h l b' e = (m, e, b', tt)
Rises-append r b m (u ∷ queue) v (d, k, c, h) l b' e =
    (d, k, c, Rises-append r d m queue v h l (l u d k) e)

Rises-visited :
    (r : TraversalResult) (b : ℕ) (queue : List ℕ)
    → Rises r b queue
    → (w : ℕ) → elem w queue ≡ true
    → (d : ℕ) × (r.depth w ≡ some d)
Rises-visited r b [] h w e = absurd cc
Rises-visited r b (u ∷ queue) (d, k, _, h) w e = elim (Bool-cases (w == u)) [
  | inl same ↦ (d, ap r.depth ((==_iff w u).0 same) ∙ k)
  | inr other ↦ Rises-visited r d queue h w (ground (arith, e, other))
]

pub Covers-cons :
    (r : TraversalResult) (m v : ℕ) (vs : List ℕ)
    → Covers r m vs
    → (d : ℕ) → r.depth v ≡ some d
    → d ≤ m
    → Covers r m (v ∷ vs)
Covers-cons r m v vs c d k l w e = elim (Bool-cases (w == v)) [
  | inl same ↦ (d, ap r.depth ((==_iff w v).0 same) ∙ k, l)
  | inr other ↦ c w (ground (arith, e, other))
]
