-- ===== src/Query/Equality.antt =====
-- Equal queries read alike: the check that confirms a hit of the plan cache.
use fraise.Prelude.{◌≡◌, refl, Bool, true, false, ◌&&◌, List, [], ◌∷◌, Option, none, some, ==_iff}
use fraise.Prelude.Text.{Text, text_eq, text_eq_iff}
use fraise.Prelude.Fields.{and_left, and_right}
use fraise.Prelude.Decimal.{int_eq_iff}
use fraise.Containers.Vector.{Float, vector_equal}
use fraise.Containers.Time.{Clock, TimeValue, time_equal, resolve}
use fraise.Query.Command.{Recall, texts_eq, bound_equal, parameters_equal, recall_equal, resolved}

both : (a b : Bool) → (a && b) ≡ true → (a ≡ true) × (b ≡ true)
both a b e = (and_left a b e, and_right a b e)

texts_eq_sound : (ss ts : List Text) → texts_eq ss ts ≡ true → ss ≡ ts
unfolding texts_eq
texts_eq_sound [] [] e = refl
texts_eq_sound [] (t ∷ ts) e = absurd cc
texts_eq_sound (s ∷ ss) [] e = absurd cc
texts_eq_sound (s ∷ ss) (t ∷ ts) e =
    let head : s ≡ t = (text_eq_iff s t).0 (and_left (text_eq s t) (texts_eq ss ts) e) in
    let rest = texts_eq_sound ss ts (and_right (text_eq s t) (texts_eq ss ts) e) in cc

-- Both without a bound, or both with the same instant.
abbrev pub same_bound : {Time : Type 0} → Clock Time → Option Time → Option Time → Bool
same_bound clock none none = true
same_bound clock (some t) (some u) = clock.same_instant t u
same_bound clock _ _ = false

module _ {Time : Type 0} (clock : Clock Time) where
  -- Two recalls that read the same graph for the same terms, within the same bounds, whenever run.
  pub record ReadsAlike {P : Type 0} (float : Float P) (r o : Recall P Time) : Type 0 where
    pub graph_id : o.context.graph_id ≡ r.context.graph_id
    pub keywords : o.keywords ≡ r.keywords
    pub entities : o.entities ≡ r.entities
    pub topics : o.topics ≡ r.topics
    pub top : o.parameters.top ≡ r.parameters.top
    pub depth : o.parameters.depth ≡ r.parameters.depth
    pub since :
        (now : Time)
        → same_bound clock
            (resolved clock r.parameters.since now)
            (resolved clock o.parameters.since now)
          ≡ true
    pub until :
        (now : Time)
        → same_bound clock
            (resolved clock r.parameters.until now)
            (resolved clock o.parameters.until now)
          ≡ true
    pub vector : vector_equal float o.vector r.vector ≡ true

module _ {Time : Type 0} (clock : Clock Time)
    (reflexive : (t : Time) → clock.same_instant t t ≡ true) where
  time_equal-resolve :
      (t u : TimeValue Time) (now : Time)
      → time_equal clock t u ≡ true
      → clock.same_instant (resolve clock u now) (resolve clock t now) ≡ true
  unfolding time_equal resolve
  time_equal-resolve (TimeValue.relative d) (TimeValue.relative o) now e =
      rw ((int_eq_iff o d).0 e) (reflexive _)
  time_equal-resolve (TimeValue.absolute t) (TimeValue.absolute u) now e = e
  time_equal-resolve (TimeValue.filter d t true) (TimeValue.filter o u true) now e = e
  time_equal-resolve (TimeValue.filter d t false) (TimeValue.filter o u false) now e =
      rw ((int_eq_iff o d).0 e) (reflexive _)
  time_equal-resolve (TimeValue.filter d t true) (TimeValue.filter o u false) now e = absurd cc
  time_equal-resolve (TimeValue.filter d t false) (TimeValue.filter o u true) now e = absurd cc
  time_equal-resolve (TimeValue.relative d) (TimeValue.absolute u) now e = absurd cc
  time_equal-resolve (TimeValue.relative d) (TimeValue.filter o u b) now e = absurd cc
  time_equal-resolve (TimeValue.absolute t) (TimeValue.relative o) now e = absurd cc
  time_equal-resolve (TimeValue.absolute t) (TimeValue.filter o u b) now e = absurd cc
  time_equal-resolve (TimeValue.filter d t true) (TimeValue.relative o) now e = absurd cc
  time_equal-resolve (TimeValue.filter d t true) (TimeValue.absolute u) now e = absurd cc
  time_equal-resolve (TimeValue.filter d t false) (TimeValue.relative o) now e = absurd cc
  time_equal-resolve (TimeValue.filter d t false) (TimeValue.absolute u) now e = absurd cc

  bound_equal-resolved :
      (b c : Option (TimeValue Time)) (now : Time)
      → bound_equal clock b c ≡ true
      → same_bound clock (resolved clock c now) (resolved clock b now) ≡ true
  unfolding bound_equal resolved
  bound_equal-resolved none none now e = refl
  bound_equal-resolved (some t) (some u) now e = time_equal-resolve t u now e
  bound_equal-resolved none (some u) now e = absurd cc
  bound_equal-resolved (some t) none now e = absurd cc

  -- Equal recalls read alike: the same graph, terms, anchors and limits, the same time window at
  -- every instant, and equal coordinates, if every instant is the same as itself.
  pub recall_equal-ReadsAlike :
      {P : Type 0} (float : Float P) (r o : Recall P Time)
      → recall_equal clock float r o ≡ true
      → ReadsAlike clock float r o
  unfolding recall_equal parameters_equal
  recall_equal-ReadsAlike float r o e =
      let (e5, vectors) = both _ _ e in
      let (e4, parameters) = both _ _ e5 in
      let (e3, topics) = both _ _ e4 in
      let (e2, entities) = both _ _ e3 in
      let (graph, keywords) = both _ _ e2 in
      let (p3, until) = both _ _ parameters in
      let (p2, since) = both _ _ p3 in
      let (top, depth) = both _ _ p2 in
      record {
        graph_id = (==_iff _ _).0 graph;
        keywords = texts_eq_sound _ _ keywords;
        entities = texts_eq_sound _ _ entities;
        topics = texts_eq_sound _ _ topics;
        top = (int_eq_iff _ _).0 top;
        depth = (int_eq_iff _ _).0 depth;
        since = λ now. bound_equal-resolved _ _ now since;
        until = λ now. bound_equal-resolved _ _ now until;
        vector = vectors;
      }
