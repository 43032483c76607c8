-- ===== src/Query/Dedupe.antt =====
-- internal/query/optimisation: the `Dedupe` stage (dedupe.go) and the `Pipeline` (optimisation.go).
pub mod Fresh
use fraise.Prelude.{
  ℕ, Bool, true, List, [], ◌∷◌, ◌++◌, Option, none, some, if◌then◌else◌, leb, length,
}
use fraise.Prelude.Maps.{Map, empty, update}
use fraise.Prelude.Text.{Text, text_discrete}
use fraise.Query.Command.{Recall, Query}

-- The loop of `dedupeStrings`, with the strings seen and those kept so far.
unfoldable pub dedupe_loop : Map Text Bool → List Text → List Text → List Text
dedupe_loop seen out [] = out
dedupe_loop seen out (s ∷ ss) = elim (seen s) [
  | some _ ↦ dedupe_loop seen out ss
  | none ↦ dedupe_loop (update text_discrete seen s true) (out ++ s ∷ []) ss
]

unfoldable pub dedupe_strings : List Text → List Text
dedupe_strings ss = if leb (length ss) 1 then ss else dedupe_loop empty [] ss

module _ {P Time : Type 0} where
  unfoldable pub dedupe : Query P Time → Query P Time
  dedupe (Query.recall r) = Query.recall (record r {
    keywords = dedupe_strings r.keywords;
    entities = dedupe_strings r.entities;
    topics = dedupe_strings r.topics;
  })
  dedupe (Query.remember r) = Query.remember r

  -- `Pipeline.Optimise` over any stages.
  unfoldable pub run_stages : List (Query P Time → Query P Time) → Query P Time → Query P Time
  run_stages [] q = q
  run_stages (stage ∷ stages) q = run_stages stages (stage q)

  -- The stages of `NewPipeline`.
  unfoldable pub stages : List (Query P Time → Query P Time)
  stages = dedupe ∷ []

  unfoldable pub optimise : Query P Time → Query P Time
  optimise = run_stages stages
