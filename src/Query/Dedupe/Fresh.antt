-- ===== src/Query/Dedupe/Fresh.antt =====
-- What `dedupeStrings` keeps: each string once, at its first place.
use fraise.Prelude.{
  ◌≡◌, ◌≢◌, refl, ap, sym, ◌∙◌, Bool, true, false, ◌||◌, List, [], ◌∷◌, ◌++◌, none, some, leb,
  length, inl, inr, Bool-cases, Option-cases, arith,
}
use fraise.Prelude.Maps.{Map, empty, update}
use fraise.Prelude.Text.{Text, text_discrete, text_eq, text_eq_iff}
use fraise.Query.Command.{Recall, Remember, Query}
use fraise.Query.Dedupe.{dedupe_loop, dedupe_strings, dedupe, run_stages, stages, optimise}
use mathlib.Core.List.{append_assoc, append-nil}
use mathlib.Core.Logic.{if_pos, if_neg}

abbrev pub member : Text → List Text → Bool
member t [] = false
member t (s ∷ ss) = text_eq t s || member t ss

abbrev pub AreDistinct : List Text → Type 0
AreDistinct [] = Unit
AreDistinct (s ∷ ss) = (member s ss ≡ false) × AreDistinct ss

or_false : (a b : Bool) → (a || b) ≡ false → (a ≡ false) × (b ≡ false)
or_false false b e = (refl, e)
or_false true b e = absurd cc

true-ne-false : true ≢ false
true-ne-false e = cc

-- The strings that the loop adds.
fresh : Map Text Bool → List Text → List Text
fresh seen [] = []
fresh seen (s ∷ ss) = elim (seen s) [
  | some _ ↦ fresh seen ss
  | none ↦ s ∷ fresh (update text_discrete seen s true) ss
]

dedupe_loop-fresh :
    (seen : Map Text Bool) (out ss : List Text) → dedupe_loop seen out ss ≡ out ++ fresh seen ss
unfolding dedupe_loop fresh
dedupe_loop-fresh seen out [] = sym (append-nil out)
dedupe_loop-fresh seen out (s ∷ ss) = elim (Option-cases (seen s)) [
  | inl new ↦
      rw (new, dedupe_loop, fresh)
        (dedupe_loop-fresh (update text_discrete seen s true) (out ++ s ∷ []) ss
          ∙ append_assoc out (s ∷ []) (fresh (update text_discrete seen s true) ss))
  | inr (b, old) ↦ rw (old, dedupe_loop, fresh) (dedupe_loop-fresh seen out ss)
]

text_ne : (s t : Text) → s ≢ t → text_eq s t ≡ false
text_ne s t n = elim (Bool-cases (text_eq s t)) [
  | inl e ↦ absurd (n ((text_eq_iff s t).0 e))
  | inr e ↦ e
]

none-ne-some : {b : Bool} → none ≢ some b
none-ne-some e = cc

update_ne :
    (seen : Map Text Bool) (s t : Text) → t ≢ s → update text_discrete seen s true t ≡ seen t
update_ne seen s t n = if_neg (text_discrete t s) n _ _

update_same : (seen : Map Text Bool) (s : Text) → update text_discrete seen s true s ≡ some true
update_same seen s = if_pos (text_discrete s s) refl _ _

apart : (seen : Map Text Bool) (s t : Text) {b : Bool} → seen t ≡ some b → seen s ≡ none → t ≢ s
apart seen s t e n same = none-ne-some (sym n ∙ ap seen (sym same) ∙ e)

-- A string that was seen is not added again.
fresh_seen :
    (seen : Map Text Bool) (t : Text) (b : Bool) (ss : List Text)
    → seen t ≡ some b
    → member t (fresh seen ss) ≡ false
unfolding fresh
fresh_seen seen t b [] e = refl
fresh_seen seen t b (s ∷ ss) e = elim (Option-cases (seen s)) [
  | inl new ↦
      let ne = apart seen s t e new in
      rw (new, fresh)
        (rw (text_ne t s ne)
          (fresh_seen (update text_discrete seen s true) t b ss (update_ne seen s t ne ∙ e)))
  | inr (c, old) ↦ rw (old, fresh) (fresh_seen seen t b ss e)
]

-- Any other string is added if it is there.
fresh_member :
    (seen : Map Text Bool) (t : Text) (ss : List Text)
    → seen t ≡ none
    → member t (fresh seen ss) ≡ member t ss
unfolding fresh
fresh_member seen t [] e = refl
fresh_member seen t (s ∷ ss) e = elim (Option-cases (seen s)) [
  | inl new ↦ elim (text_discrete t s) [
    | yes p ↦ let same : text_eq t s ≡ true = (text_eq_iff t s).1 p in rw (new, fresh) (rw same)
    | no n ↦
        rw (new, fresh)
          (ap (λ b. text_eq t s || b)
            (fresh_member (update text_discrete seen s true) t ss (update_ne seen s t n ∙ e)))
  ]
  | inr (c, old) ↦
      rw (old, fresh, text_ne t s (λ p. apart seen t s old e (sym p))) (fresh_member seen t ss e)
]

fresh-AreDistinct : (seen : Map Text Bool) (ss : List Text) → AreDistinct (fresh seen ss)
unfolding fresh
fresh-AreDistinct seen [] = tt
fresh-AreDistinct seen (s ∷ ss) = elim (Option-cases (seen s)) [
  | inl new ↦
      let later = update text_discrete seen s true in
      rw (new, fresh) (fresh_seen later s true ss (update_same seen s), fresh-AreDistinct later ss)
  | inr (c, old) ↦ rw (old, fresh) (fresh-AreDistinct seen ss)
]

-- What comes later does not change what was kept.
fresh-append :
    (seen : Map Text Bool) (a b : List Text)
    → (r : List Text) × (fresh seen (a ++ b) ≡ fresh seen a ++ r)
unfolding fresh
fresh-append seen [] b = (fresh seen b, refl)
fresh-append seen (s ∷ a) b = elim (Option-cases (seen s)) [
  | inl new ↦
      let (r, e) = fresh-append (update text_discrete seen s true) a b in
      (r, rw (new, fresh) (ap (◌∷◌ s) e))
  | inr (c, old) ↦ let (r, e) = fresh-append seen a b in (r, rw (old, fresh) e)
]

dedupe_strings-fresh : (ss : List Text) → dedupe_strings ss ≡ fresh empty ss
unfolding dedupe_strings fresh
dedupe_strings-fresh [] = refl
dedupe_strings-fresh (s ∷ []) = refl
dedupe_strings-fresh (s ∷ t ∷ ss) =
    let long : leb (length (s ∷ t ∷ ss)) 1 ≡ false = ground arith in
    rw long (dedupe_loop-fresh empty [] (s ∷ t ∷ ss))

-- What is kept of `ss`: the same strings, each once, and, of a list that begins with `ss`, what is
-- kept of `ss` first.
pub record Deduped (ss : List Text) : Type 0 where
  pub distinct : AreDistinct (dedupe_strings ss)
  pub members : (t : Text) → member t (dedupe_strings ss) ≡ member t ss
  pub stable :
      (rest : List Text) → (r : List Text) × (dedupe_strings (ss ++ rest) ≡ dedupe_strings ss ++ r)

-- `dedupeStrings` keeps every string of its input and no other, each once; and whatever follows the
-- input leaves what was kept of it in front, in its order.
pub dedupe_strings-Deduped : (ss : List Text) → Deduped ss
dedupe_strings-Deduped ss = record {
  distinct = rw (dedupe_strings-fresh ss) (fresh-AreDistinct empty ss);
  members = λ t. rw (dedupe_strings-fresh ss) (fresh_member empty t ss refl);
  stable = λ rest.
      let (r, e) = fresh-append empty ss rest in
      (r, rw (dedupe_strings-fresh ss, dedupe_strings-fresh (ss ++ rest)) e);
}

-- `out` has the strings of `ss`, each once, and stands in front of what is kept of any list that
-- begins with `ss`.
pub record IsDeduped (ss out : List Text) : Type 0 where
  pub distinct : AreDistinct out
  pub members : (t : Text) → member t out ≡ member t ss
  pub stable : (rest : List Text) → (r : List Text) × (dedupe_strings (ss ++ rest) ≡ out ++ r)

-- The query that is run in place of `q`: one of its kind, with each list of strings deduped, and
-- with the other fields as they are.
pub data Optimised {P Time : Type 0} : Query P Time → Query P Time → Type 0 where
  deduped :
      {r r' : Recall P Time}
      → IsDeduped r.keywords r'.keywords
      → IsDeduped r.entities r'.entities
      → IsDeduped r.topics r'.topics
      → r'.vector ≡ r.vector
      → r'.parameters ≡ r.parameters
      → r'.context ≡ r.context
      → Optimised (Query.recall r) (Query.recall r')
  unchanged : {r : Remember P} → Optimised (Query.remember r) (Query.remember r)

dedupe_strings-IsDeduped : (ss : List Text) → IsDeduped ss (dedupe_strings ss)
dedupe_strings-IsDeduped ss =
    let d = dedupe_strings-Deduped ss in
    record { distinct = d.distinct; members = d.members; stable = d.stable }

-- The pipeline turns a recall into the one with its keywords, its entities and its topics deduped,
-- each list to the same strings, each once, which stay in front whatever follows the list, and with
-- every other field as it was; a remember it leaves as it is.
pub optimise-Optimised : {P Time : Type 0} (q : Query P Time) → Optimised q (optimise q)
unfolding optimise run_stages stages dedupe
optimise-Optimised (Query.recall r) =
    Optimised.deduped (dedupe_strings-IsDeduped r.keywords) (dedupe_strings-IsDeduped r.entities)
      (dedupe_strings-IsDeduped r.topics) refl refl refl
optimise-Optimised (Query.remember r) = Optimised.unchanged
