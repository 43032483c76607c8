-- ===== src/Containers/BTree/Join.antt =====
-- internal/containers/trees/btree.go: two nodes of one height joined about a value, and a node divided
-- about one of its own.
use fraise.Prelude.{
  ℕ, zero, suc, ◌+◌, ◌≤◌, ◌≡◌, refl, ap, sym, ◌∙◌, subst, List, [], ◌∷◌, ◌++◌, arith, length,
  length-append, map, take, drop,
}
use mathlib.Core.List.{append_assoc}
use fraise.Containers.BTree.{BTreeNode, Nodes, to_list, of_list, values, children, make}
use fraise.Containers.BTree.Layout.{weave, open_at, take_at, drop_at}
use fraise.Containers.BTree.Shape.{
  to_list-of_list, All, All-append, All-append_left, All-append_right, flat, Shaped, Good,
}

module _ {T : Type 0} where
  of_list-to_list : (cs : Nodes T) → of_list (to_list cs) ≡ cs
  of_list-to_list Nodes.end = refl
  of_list-to_list (Nodes.cons c cs) = ap (Nodes.cons c) (of_list-to_list cs)

  pub make-values : (n : BTreeNode T) → make (values n) (children n) ≡ n
  make-values (BTreeNode.node vs cs) = ap (BTreeNode.node vs) (of_list-to_list cs)

  weave_middle :
      (h : ℕ) (a : List T) (m : T) (b : List T) (ka kb : List (BTreeNode T))
      → length ka ≡ length a + 1
      → length kb ≡ length b + 1
      → weave (a ++ m ∷ b) (map (flat h) (ka ++ kb))
        ≡ weave a (map (flat h) ka) ++ m ∷ weave b (map (flat h) kb)
  weave_middle h a m b [] kb p q = absurd (omega (arith, p))
  weave_middle h [] m b (k ∷ []) [] p q = absurd (omega (arith, q))
  weave_middle h [] m b (k ∷ []) (l ∷ kb) p q =
      sym (append_assoc (flat h k) [] (m ∷ weave b (map (flat h) (l ∷ kb))))
  weave_middle h [] m b (k ∷ j ∷ ka) kb p q = absurd (omega (arith, p))
  weave_middle h (v ∷ a) m b (k ∷ []) kb p q = absurd (omega (arith, p))
  weave_middle h (v ∷ a) m b (k ∷ j ∷ ka) kb p q =
      ap (λ t. flat h k ++ v ∷ t) (weave_middle h a m b (j ∷ ka) kb (omega (arith, p)) q)
      ∙ sym (
          append_assoc (flat h k) (v ∷ weave a (map (flat h) (j ∷ ka)))
            (m ∷ weave b (map (flat h) kb)))

  take_none : (k : ℕ) → to_list (of_list (take {A = BTreeNode T} k [])) ≡ []
  take_none zero = refl
  take_none (suc k) = refl

  drop_none : (k : ℕ) → to_list (of_list (drop {A = BTreeNode T} k [])) ≡ []
  drop_none zero = refl
  drop_none (suc k) = refl

  -- The parts before and after a node's own value.
  pub record Unjoined (d h : ℕ) (n : BTreeNode T) (a : List T) (m : T) (b : List T) (j : ℕ)
      : Type 0 where
    pub left : Shaped d h (make a (take j (children n)))
    pub right : Shaped d h (make b (drop j (children n)))
    pub whole :
        flat h n
        ≡ flat h (make a (take j (children n))) ++ m ∷ flat h (make b (drop j (children n)))

  pub unjoin :
      (d h : ℕ) (n : BTreeNode T) (a : List T) (m : T) (b : List T) (j : ℕ)
      → Shaped d h n
      → values n ≡ a ++ m ∷ b
      → (1 ≤ length (children n) → j ≡ length a + 1)
      → Unjoined d h n a m b j
  unjoin d zero n a m b j leaf e at = record {
    left = rw leaf (take_none j);
    right = rw leaf (drop_none j);
    whole = e;
  }
  unjoin d (suc h) n a m b j (count, good) e at =
      let at' : j ≡ length a + 1 = at (omega (arith, count)) in
      let size : length (values n) ≡ length a + suc (length b) =
        ap length e ∙ length-append a (m ∷ b) in
      let (ka, kb, f, na) = open_at (children n) j (omega (arith, count, size, at')) in
      let total : length (children n) ≡ length ka + length kb = ap length f ∙ length-append ka kb in
      let ca : take j (children n) ≡ ka = take_at (children n) ka kb j f na in
      let cb : drop j (children n) ≡ kb = drop_at (children n) ka kb j f na in
      let split : All (Good d h) (ka ++ kb) = subst (All (Good d h)) f good in
      record {
        left =
            rw (ca, to_list-of_list ka)
              (omega (arith, na, at'), All-append_left (Good d h) ka kb split);
        right =
            rw (cb, to_list-of_list kb)
              (omega (arith, total, count, size, na, at'), All-append_right (Good d h) ka kb split);
        whole =
            ap (λ t. weave t (map (flat h) (children n))) e
            ∙ ap (λ t. weave (a ++ m ∷ b) (map (flat h) t)) f
            ∙ weave_middle h a m b ka kb (omega (arith, na, at'))
                (omega (arith, total, count, size, na, at'))
            ∙ rw (ca, cb, to_list-of_list ka, to_list-of_list kb) refl;
      }

  pub record Joined (d h : ℕ) (a : BTreeNode T) (m : T) (b n : BTreeNode T) : Type 0 where
    pub shaped : Shaped d h n
    pub whole : flat h n ≡ flat h a ++ m ∷ flat h b

  pub join_lem :
      (d h : ℕ) (a : List T) (ka : List (BTreeNode T)) (m : T) (b : List T)
      (kb : List (BTreeNode T))
      → Shaped d h (make a ka)
      → Shaped d h (make b kb)
      → Joined d h (make a ka) m (make b kb) (make (a ++ m ∷ b) (ka ++ kb))
  join_lem d zero a ka m b kb s t =
      let ea : ka ≡ [] = sym (to_list-of_list ka) ∙ s in
      let eb : kb ≡ [] = sym (to_list-of_list kb) ∙ t in
      record { shaped = rw (ea, eb) refl; whole = refl }
  join_lem d (suc h) a ka m b kb (na, ga) (nb, gb) =
      let na' : length ka ≡ length a + 1 = ap length (sym (to_list-of_list ka)) ∙ na in
      let nb' : length kb ≡ length b + 1 = ap length (sym (to_list-of_list kb)) ∙ nb in
      record {
        shaped = rw (to_list-of_list (ka ++ kb)) (
          omega (arith, length-append ka kb, length-append a (m ∷ b), na', nb'),
          All-append (Good d h) ka kb (subst (All (Good d h)) (to_list-of_list ka) ga)
              (subst (All (Good d h)) (to_list-of_list kb) gb),
        );
        whole =
            rw (to_list-of_list (ka ++ kb), to_list-of_list ka, to_list-of_list kb)
              (weave_middle h a m b ka kb na' nb');
      }
