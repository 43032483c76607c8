-- ===== src/Containers/BTree/Shape.antt =====
-- internal/containers/trees/btree.go: the shape of a B-tree of a height, and the values below a node.
use fraise.Prelude.{
  ℕ, zero, suc, ◌+◌, ◌≤◌, ◌≡◌, refl, ap, sym, ◌∙◌, subst, List, [], ◌∷◌, ◌++◌, arith, length,
  length-append, map,
}
use mathlib.Core.List.{map-append}
use fraise.Containers.BTree.{
  BTreeNode, to_list, of_list, values, children, make, max_values, min_values,
}
use fraise.Containers.BTree.Layout.{weave, before, after, weave_at, open_mid}

abbrev pub All : {A : Type 0} → (A → Type 0) → List A → Type 0
All P [] = Unit
All P (x ∷ xs) = P x × All P xs

module _ {A : Type 0} (P : A → Type 0) where
  pub All-append : (xs ys : List A) → All P xs → All P ys → All P (xs ++ ys)
  All-append [] ys h k = k
  All-append (x ∷ xs) ys (p, h) k = (p, All-append xs ys h k)

  pub All-append_left : (xs ys : List A) → All P (xs ++ ys) → All P xs
  All-append_left [] ys h = tt
  All-append_left (x ∷ xs) ys (p, h) = (p, All-append_left xs ys h)

  pub All-append_right : (xs ys : List A) → All P (xs ++ ys) → All P ys
  All-append_right [] ys h = h
  All-append_right (x ∷ xs) ys (p, h) = All-append_right xs ys h

  -- What stands at a position, changed.
  pub All-append_middle :
      (xs : List A) (x y : A) (ys : List A) → All P (xs ++ x ∷ ys) → P y → All P (xs ++ y ∷ ys)
  All-append_middle [] x y ys (_, h) p = (p, h)
  All-append_middle (z ∷ xs) x y ys (q, h) p = (q, All-append_middle xs x y ys h p)

module _ {T : Type 0} where
  pub to_list-of_list : (cs : List (BTreeNode T)) → to_list (of_list cs) ≡ cs
  to_list-of_list [] = refl
  to_list-of_list (c ∷ cs) = ap (◌∷◌ c) (to_list-of_list cs)

  -- The values below a node of height `h`, in the order of `Values`.
  abbrev pub flat : ℕ → BTreeNode T → List T
  flat zero n = values n
  flat (suc h) n = weave (values n) (map (flat h) (children n))

  -- Every node but the root holds between `minValues` and `maxValues` values.
  abbrev pub IsSized : ℕ → BTreeNode T → Type 0
  IsSized d c = (min_values d ≤ length (values c)) × (length (values c) ≤ max_values d)

  -- All the leaves lie `h` levels below the node, an inner node has one child more than it has values,
  -- and every node below it is sized.
  abbrev pub Shaped : ℕ → ℕ → BTreeNode T → Type 0
  Shaped d zero n = children n ≡ []
  Shaped d (suc h) n =
      (length (children n) ≡ length (values n) + 1)
      × All (λ c. Shaped d h c × IsSized d c) (children n)

  abbrev pub Good : ℕ → ℕ → BTreeNode T → Type 0
  Good d h c = Shaped d h c × IsSized d c

  pub length-map : (h : ℕ) (cs : List (BTreeNode T)) → length (map (flat h) cs) ≡ length cs
  length-map h [] = refl
  length-map h (c ∷ cs) = ap suc (length-map h cs)

  -- A node opened at the child `i`.
  pub record Opened (d h i : ℕ) (p : BTreeNode T) : Type 0 where
    pub vl : List T
    pub vr : List T
    pub cl : List (BTreeNode T)
    pub c : BTreeNode T
    pub cr : List (BTreeNode T)
    pub same_values : values p ≡ vl ++ vr
    pub same_children : children p ≡ cl ++ c ∷ cr
    pub at_value : length vl ≡ i
    pub at_child : length cl ≡ i
    pub rest : length vr ≡ length cr
    pub good : All (Good d h) (cl ++ c ∷ cr)

  module _ {d h i : ℕ} {p : BTreeNode T} where
    abbrev pub pre : Opened d h i p → List T
    pre k = before k.vl (map (flat h) k.cl)

    abbrev pub post : Opened d h i p → List T
    post k = after k.vr (map (flat h) k.cr)

  pub flat_at :
      (h : ℕ) (vl vr : List T) (cl : List (BTreeNode T)) (c : BTreeNode T) (cr : List (BTreeNode T))
      → length vl ≡ length cl
      → weave (vl ++ vr) (map (flat h) (cl ++ c ∷ cr))
        ≡ before vl (map (flat h) cl) ++ (flat h c ++ after vr (map (flat h) cr))
  flat_at h vl vr cl c cr e =
      ap (weave (vl ++ vr)) (map-append (flat h) cl (c ∷ cr))
      ∙ weave_at vl (map (flat h) cl) (flat h c) vr (map (flat h) cr) (e ∙ sym (length-map h cl))

  module _ (d h i : ℕ) (p : BTreeNode T) where
    pub flat-Opened : (k : Opened d h i p) → flat (suc h) p ≡ pre k ++ (flat h k.c ++ post k)
    flat-Opened k =
        ap (λ t. weave t (map (flat h) (children p))) k.same_values
        ∙ ap (λ t. weave (k.vl ++ k.vr) (map (flat h) t)) k.same_children
        ∙ flat_at h k.vl k.vr k.cl k.c k.cr (k.at_value ∙ sym k.at_child)

    pub Opened-Good : (k : Opened d h i p) → Good d h k.c
    Opened-Good k = (All-append_right (Good d h) k.cl (k.c ∷ k.cr) k.good).0

    pub Opened-Shaped : Opened d h i p → Shaped d (suc h) p
    Opened-Shaped k = (
      ap length k.same_children
          ∙ omega (
            arith,
            length-append k.cl (k.c ∷ k.cr),
            length-append k.vl k.vr,
            ap length k.same_values,
            k.at_value,
            k.at_child,
            k.rest,
          ),
      rw k.same_children k.good,
    )

    pub Shaped-Opened :
        Shaped d (suc h) p
        → (vl vr : List T) → values p ≡ vl ++ vr
        → length vl ≡ i
        → (k : Opened d h i p) × (k.vl ≡ vl) × (k.vr ≡ vr)
    Shaped-Opened (size, good) vl vr e n =
        let total : length (values p) ≡ i + length vr =
          ap length e ∙ omega (arith, length-append vl vr, n) in
        let (cl, c, cr, f, m) = open_mid (children p) i (omega (arith, size, total)) in
        (
          record {
            vl = vl;
            vr = vr;
            cl = cl;
            c = c;
            cr = cr;
            same_values = e;
            same_children = f;
            at_value = n;
            at_child = m;
            rest = omega (arith, size, total, ap length f, length-append cl (c ∷ cr), m);
            good = subst (All (Good d h)) f good;
          },
          refl,
          refl,
        )

  -- A node built around a child.
  abbrev pub opened_around :
      (d h i : ℕ) (vl vr : List T) (cl : List (BTreeNode T)) (c : BTreeNode T)
      (cr : List (BTreeNode T))
      → length vl ≡ i
      → length cl ≡ i
      → length vr ≡ length cr
      → All (Good d h) (cl ++ c ∷ cr)
      → Opened d h i (make (vl ++ vr) (cl ++ c ∷ cr))
  opened_around d h i vl vr cl c cr a b e g = record {
    vl = vl;
    vr = vr;
    cl = cl;
    c = c;
    cr = cr;
    same_values = refl;
    same_children = to_list-of_list (cl ++ c ∷ cr);
    at_value = a;
    at_child = b;
    rest = e;
    good = g;
  }
