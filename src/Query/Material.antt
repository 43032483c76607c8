-- ===== src/Query/Material.antt =====
-- The text that a query hashes keeps its fields apart, whatever bytes its strings hold.
use fraise.Prelude.{
  ℕ, ◌+◌, ◌≡◌, ◌≢◌, refl, ap, sym, ◌∙◌, Bool, true, ◌&&◌, not, List, [], ◌∷◌, ◌++◌, Option, none,
  some, ◌==◌, length, arith,
}
use fraise.Prelude.Text.{Text, codes, all}
use fraise.Prelude.Fields.{field_unique, part_unique, cons_tail, cons_head, and_left, and_right}
use fraise.Prelude.Decimal.{
  ℤ, is_decimal, decimal, all-decimal, decimal_injective, itoa, itoa_injective,
}
use fraise.Containers.Vector.{Float}
use fraise.Containers.Time.{Clock, TimeValue}
use fraise.Query.Command.{
  Hasher, Recall, Remember, Query, write_strings, bound_hash, time_hash, vector_hash,
  recall_material, remember_material, material,
}
use mathlib.Core.List.{append_assoc, append_cancel_left, append-nil}

-- Neither of the two bytes that end a field.
abbrev pub is_plain : ℕ → Bool
is_plain c = not (c == b':') && not (c == b'|')

plain_of_decimal : (c : ℕ) → is_decimal c ≡ true → is_plain c ≡ true
plain_of_decimal c h = ground (arith, h)

all-plain : (s : Text) → all is_decimal s ≡ true → all is_plain s ≡ true
all-plain [] h = refl
all-plain (c ∷ s) h =
    rw (plain_of_decimal c (and_left (is_decimal c) (all is_decimal s) h))
      (all-plain s (and_right (is_decimal c) (all is_decimal s) h))

pub all-decimal_plain : (n : ℕ) → all is_plain (decimal n) ≡ true
all-decimal_plain n = all-plain (decimal n) (all-decimal n)

all-itoa : (n : ℤ) → all is_plain (itoa n) ≡ true
unfolding itoa
all-itoa (ℤ.pos n) = all-decimal_plain n
all-itoa (ℤ.negsuc n) = all-decimal_plain (n + 1)

write_strings-cons :
    (s : Text) (ss : List Text) (r : Text)
    → write_strings (s ∷ ss) ++ r ≡ decimal (length s) ++ b':' ∷ (s ++ (write_strings ss ++ r))
unfolding write_strings
write_strings-cons s ss r =
    append_assoc (decimal (length s)) (b':' ∷ (s ++ write_strings ss)) r
    ∙ ap (λ t. decimal (length s) ++ b':' ∷ t) (append_assoc s (write_strings ss) r)

-- A bar ends a list of strings whatever bytes they hold.
strings_unique :
    (ss ts : List Text) (r q : Text)
    → write_strings ss ++ b'|' ∷ r ≡ write_strings ts ++ b'|' ∷ q
    → (ss ≡ ts) × (r ≡ q)
unfolding write_strings
strings_unique [] [] r q e = (refl, cons_tail e)
strings_unique [] (t ∷ ts) r q e =
    let (_, wrong, _) =
      field_unique is_plain [] (decimal (length t)) b'|' b':' r
        (t ++ (write_strings ts ++ b'|' ∷ q)) refl (all-decimal_plain (length t)) refl refl
        (e ∙ write_strings-cons t ts (b'|' ∷ q)) in
    absurd (omega (arith, wrong))
strings_unique (s ∷ ss) [] r q e =
    let (_, wrong, _) =
      field_unique is_plain (decimal (length s)) [] b':' b'|' (s ++ (write_strings ss ++ b'|' ∷ r))
        q (all-decimal_plain (length s)) refl refl refl
        (sym (write_strings-cons s ss (b'|' ∷ r)) ∙ e) in
    absurd (omega (arith, wrong))
strings_unique (s ∷ ss) (t ∷ ts) r q e =
    let (count, _, left) =
      field_unique is_plain (decimal (length s)) (decimal (length t)) b':' b':'
        (s ++ (write_strings ss ++ b'|' ∷ r)) (t ++ (write_strings ts ++ b'|' ∷ q))
        (all-decimal_plain (length s)) (all-decimal_plain (length t)) refl refl
        (sym (write_strings-cons s ss (b'|' ∷ r)) ∙ e ∙ write_strings-cons t ts (b'|' ∷ q)) in
    let (same, others) =
      part_unique s t (write_strings ss ++ b'|' ∷ r) (write_strings ts ++ b'|' ∷ q)
        (decimal_injective (length s) (length t) count) left in
    let (rest, after) = strings_unique ss ts r q others in (cc, after)

one_text : {s t : Text} → s ∷ [] ≡ t ∷ [] → s ≡ t
one_text e = cc

field_end :
    (a b s t : Text)
    → all is_plain a ≡ true
    → all is_plain b ≡ true
    → a ++ b'|' ∷ s ≡ b ++ b'|' ∷ t
    → (a ≡ b) × (s ≡ t)
field_end a b s t ha hb e =
    let (u, _, v) = field_unique is_plain a b b'|' b'|' s t ha hb refl refl e in (u, v)

module _ {P Time K : Type 0} (clock : Clock Time) (float : Float P) (hasher : Hasher K) where
  -- The same in every field that `Recall.Hash` folds in.
  pub record SameRecall (r o : Recall P Time) : Type 0 where
    pub graph_id : r.context.graph_id ≡ o.context.graph_id
    pub keywords : r.keywords ≡ o.keywords
    pub entities : r.entities ≡ o.entities
    pub topics : r.topics ≡ o.topics
    pub depth : r.parameters.depth ≡ o.parameters.depth
    pub top : r.parameters.top ≡ o.parameters.top
    pub since :
        bound_hash clock hasher r.parameters.since ≡ bound_hash clock hasher o.parameters.since
    pub until :
        bound_hash clock hasher r.parameters.until ≡ bound_hash clock hasher o.parameters.until
    pub vector : vector_hash float hasher r.vector ≡ vector_hash float hasher o.vector

  pub record SameRemember (r o : Remember P) : Type 0 where
    pub graph_id : r.context.graph_id ≡ o.context.graph_id
    pub value : r.value ≡ o.value
    pub entities : r.entities ≡ o.entities
    pub topics : r.topics ≡ o.topics
    pub vector : vector_hash float hasher r.vector ≡ vector_hash float hasher o.vector

  -- Queries of one kind that are the same in every field that `Hash` folds in.
  pub data SameFields : Query P Time → Query P Time → Type 0 where
    recalls : (r o : Recall P Time) → SameRecall r o → SameFields (Query.recall r) (Query.recall o)
    remembers :
        (r o : Remember P) → SameRemember r o → SameFields (Query.remember r) (Query.remember o)

module _ {P Time K : Type 0} (clock : Clock Time) (float : Float P) (hasher : Hasher K)
    (plain : (k : K) → all is_plain (hasher.render k) ≡ true) where
  all-bound_hash : (b : Option (TimeValue Time)) → all is_plain (bound_hash clock hasher b) ≡ true
  unfolding bound_hash time_hash
  all-bound_hash none = refl
  all-bound_hash (some t) = plain _

  recall-SameRecall :
      (r o : Recall P Time)
      → recall_material clock float hasher r ≡ recall_material clock float hasher o
      → SameRecall clock float hasher r o
  unfolding recall_material
  recall-SameRecall r o e =
      let (g, e1) =
        field_end _ _ _ _ (all-decimal_plain r.context.graph_id)
          (all-decimal_plain o.context.graph_id) (append_cancel_left (codes "g=") _ _ e) in
      let (kw, e2) =
        strings_unique r.keywords o.keywords _ _ (append_cancel_left (codes "kw=") _ _ e1) in
      let (en, e3) =
        strings_unique r.entities o.entities _ _ (append_cancel_left (codes "en=") _ _ e2) in
      let (to, e4) =
        strings_unique r.topics o.topics _ _ (append_cancel_left (codes "to=") _ _ e3) in
      let (d, e5) =
        field_end _ _ _ _ (all-itoa r.parameters.depth) (all-itoa o.parameters.depth)
          (append_cancel_left (codes "d=") _ _ e4) in
      let (t, e6) =
        field_end _ _ _ _ (all-itoa r.parameters.top) (all-itoa o.parameters.top)
          (append_cancel_left (codes "t=") _ _ e5) in
      let (s, e7) =
        field_end _ _ _ _ (all-bound_hash r.parameters.since) (all-bound_hash o.parameters.since)
          (append_cancel_left (codes "s=") _ _ e6) in
      let (u, e8) =
        field_end _ _ _ _ (all-bound_hash r.parameters.until) (all-bound_hash o.parameters.until)
          (append_cancel_left (codes "u=") _ _ e7) in
      record {
        graph_id = decimal_injective _ _ g;
        keywords = kw;
        entities = en;
        topics = to;
        depth = itoa_injective _ _ d;
        top = itoa_injective _ _ t;
        since = s;
        until = u;
        vector =
            sym (append-nil (vector_hash float hasher r.vector))
            ∙ append_cancel_left (codes "vec=") _ _ e8
            ∙ append-nil (vector_hash float hasher o.vector);
      }

  remember-SameRemember :
      (r o : Remember P)
      → remember_material clock float hasher r ≡ remember_material clock float hasher o
      → SameRemember clock float hasher r o
  unfolding remember_material
  remember-SameRemember r o e =
      let (g, e1) =
        field_end _ _ _ _ (all-decimal_plain r.context.graph_id)
          (all-decimal_plain o.context.graph_id) (append_cancel_left (codes "g=") _ _ e) in
      let (v, e2) =
        strings_unique (r.value ∷ []) (o.value ∷ []) _ _ (append_cancel_left (codes "v=") _ _ e1) in
      let (en, e3) =
        strings_unique r.entities o.entities _ _ (append_cancel_left (codes "en=") _ _ e2) in
      let (to, e4) =
        strings_unique r.topics o.topics _ _ (append_cancel_left (codes "to=") _ _ e3) in
      record {
        graph_id = decimal_injective _ _ g;
        value = one_text v;
        entities = en;
        topics = to;
        vector =
            sym (append-nil (vector_hash float hasher r.vector))
            ∙ append_cancel_left (codes "vec=") _ _ e4
            ∙ append-nil (vector_hash float hasher o.vector);
      }

  kinds_apart :
      (r : Recall P Time) (o : Remember P)
      → recall_material clock float hasher r ≢ remember_material clock float hasher o
  unfolding recall_material remember_material
  kinds_apart r o e =
      let (g, e1) =
        field_end _ _ _ _ (all-decimal_plain r.context.graph_id)
          (all-decimal_plain o.context.graph_id) (append_cancel_left (codes "g=") _ _ e) in
      let wrong : b'k' ≡ b'v' = cons_head e1 in absurd (omega (arith, wrong))

  -- If the rendered keys are free of colons and bars, two queries that hash the same text are of one
  -- kind and the same in every field, whatever bytes their strings hold.
  pub material-SameFields :
      (q o : Query P Time)
      → material clock float hasher q ≡ material clock float hasher o
      → SameFields clock float hasher q o
  unfolding material
  material-SameFields (Query.recall r) (Query.recall o) e =
      SameFields.recalls r o (recall-SameRecall r o e)
  material-SameFields (Query.remember r) (Query.remember o) e =
      SameFields.remembers r o (remember-SameRemember r o e)
  material-SameFields (Query.recall r) (Query.remember o) e = absurd (kinds_apart r o e)
  material-SameFields (Query.remember r) (Query.recall o) e = absurd (kinds_apart o r (sym e))
