-- ===== src/Containers/TopK.antt =====
-- internal/containers/topk.go: `TopK`, which keeps the best of the pairs offered in a heap with the
-- worst at the root. The order on scores and the comparator are parameters. An index out of range is
-- `none`, and so is a loop that would need more rounds than its fuel.
pub mod Kept
pub mod Order
pub mod Up
pub mod Down
pub mod Ranks
pub mod Step
pub mod Best
mod Tests
use fraise.Prelude.{
  ℕ, zero, suc, ◌+◌, ◌-◌, ◌*◌, ◌/◌, Bool, true, false, ◌&&◌, ◌||◌, List, [], ◌∷◌, ◌++◌, Option,
  none, some, ◌==◌, ltb, if◌then◌else◌, length, get_elem?, set,
}
use fraise.Prelude.Decimal.{ℤ, int_ltb}
use fraise.Containers.Array.{exchange}
use fraise.Containers.Heap.{parent, ◌>>=◌}

pub record Entry (K P : Type 0) : Type 0 where
  pub key : K
  pub score : P

-- `==` and `<` on scores, and the comparator of keys.
pub record Ranking (K P : Type 0) : Type 0 where
  pub same_score : P → P → Bool
  pub less_score : P → P → Bool
  pub compare_keys : K → K → ℤ

-- A `k` that is not positive is 0.
pub record TopK (K P : Type 0) : Type 0 where
  pub k : ℕ
  pub entries : List (Entry K P)

unfoldable pub new_top_k : {K P : Type 0} → ℕ → TopK K P
new_top_k k = record { k = k; entries = [] }

module _ {K P : Type 0} (rank : Ranking K P) where
  unfoldable pub worse : Entry K P → Entry K P → Bool
  worse a b =
      if rank.same_score a.score b.score
      then int_ltb (ℤ.pos 0) (rank.compare_keys a.key b.key)
      else rank.less_score a.score b.score

  unfoldable pub worse_than : List (Entry K P) → ℕ → ℕ → Option Bool
  worse_than entries i j = do a ← get_elem? entries i; b ← get_elem? entries j; some (worse a b)

  -- `t.entries[i], t.entries[j] = t.entries[j], t.entries[i]`
  unfoldable pub swap_entries : List (Entry K P) → ℕ → ℕ → Option (List (Entry K P))
  swap_entries entries i j = do
    a ← get_elem? entries i
    b ← get_elem? entries j
    some (exchange entries i j a b)

  unfoldable pub raise_entry : ℕ → ℕ → List (Entry K P) → Option (List (Entry K P))
  raise_entry zero index entries = none
  raise_entry (suc fuel) index entries =
      let rise = swap_entries entries index (parent index) >>= raise_entry fuel (parent index) in
      let step =
        worse_than entries index (parent index) >>= λ b. if b then rise else some entries in
      if ltb 0 index then step else some entries

  -- `if slot < n && t.worseThan(slot, worst) { worst = slot }`
  unfoldable pub worse_slot : List (Entry K P) → ℕ → ℕ → Option ℕ
  worse_slot entries slot worst =
      if ltb slot (length entries)
      then (do b ← worse_than entries slot worst; some (if b then slot else worst))
      else some worst

  unfoldable pub worst_of : List (Entry K P) → ℕ → Option ℕ
  worst_of entries index = do
    worst ← worse_slot entries (2 * index + 1) index
    worse_slot entries (2 * index + 2) worst

  unfoldable pub sink_entry : ℕ → ℕ → List (Entry K P) → Option (List (Entry K P))
  sink_entry zero index entries = none
  sink_entry (suc fuel) index entries = do
    worst ← worst_of entries index
    let sink = swap_entries entries index worst >>= sink_entry fuel worst
    if worst == index then some entries else sink

  -- `better` at the root, written as the code has it.
  unfoldable pub better : Entry K P → Entry K P → Bool
  better e root =
      rank.less_score root.score e.score
      || (rank.same_score e.score root.score
          && int_ltb (rank.compare_keys e.key root.key) (ℤ.pos 0))

  unfoldable pub offer : Entry K P → TopK K P → Option (TopK K P)
  offer e t =
      let grown = t.entries ++ e ∷ [] in
      let raised = (do
        entries ← raise_entry (length grown) (length grown - 1) grown
        some (record t { entries = entries })) in
      let replaced = (do
        entries ← sink_entry (length t.entries + 1) 0 (set t.entries 0 e)
        some (record t { entries = entries })) in
      if t.k == 0
      then some (record t { entries = grown })
      else if ltb (length t.entries) t.k
      then raised
      else (do root ← get_elem? t.entries 0; if better e root then replaced else some t)
