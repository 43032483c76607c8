-- ===== src/Cache/Tests.antt =====
-- Runs of the LRU cache.
use fraise.Prelude.{ℕ, ◌≡◌, ◌-◌, refl, ◌∙◌, sym, List, [], ◌∷◌, some, arith, length, take, subst}
use fraise.Prelude.Maps.{empty, update}
use fraise.Cache.Lru
use fraise.Cache.Lru.{LruCache, Result, put_new}
use fraise.Cache.Recency.{find, drop_key, touch}
use fraise.Cache.Cells.{handle_of}
use fraise.Cache.Methods.{Refines, used, get-Refines, put-Refines}
use fraise.Cache.Shrink.{is_some, Constructed, new-Constructed, delete_key-Refines, resize-Refines}
use native.Mathlib.Decide.{ℕ_discrete}

-- A cache of one entry, empty and then full.
abbrev vacant : LruCache ℕ ℕ
vacant = record { capacity = 1; items = empty; order = []; entries = empty; fresh = 0 }

abbrev full : LruCache ℕ ℕ
full = record {
  capacity = 1;
  items = update ℕ_discrete empty 7 0;
  order = 0 ∷ [];
  entries = update ℕ_discrete empty 0 (7, 70);
  fresh = 1;
}

abbrev held : List (ℕ × ℕ)
held = (7, 70) ∷ []

some_eq {ℓ} : {A : Type ℓ} {a b : A} → some a ≡ some b → a ≡ b
some_eq e = cc

vacant-Refines : Refines ℕ_discrete vacant []
unfolding handle_of
vacant-Refines = record {
  cells = [];
  holds = record { order_is = refl; indexed = λ k. refl; stored = tt; below = tt; distinct = tt };
  view_is = refl;
  positive = omega arith;
  bounded = omega arith;
}

put-full : Lru.put ℕ_discrete 7 70 vacant ≡ some full
unfolding Lru.put put_new
put-full = refl

full-Refines : Refines ℕ_discrete full ((7, 70) ∷ [])
unfolding touch drop_key
full-Refines =
    let (c, run, r, _) = put-Refines ℕ_discrete vacant [] vacant-Refines 7 70 in
    subst (λ c. Refines ℕ_discrete c ((7, 70) ∷ [])) (some_eq (sym run ∙ put-full)) r

get-Refines_example :
    (c' : LruCache ℕ ℕ) × (Lru.get ℕ_discrete 7 full ≡ some (find ℕ_discrete 7 held, c'))
    × Refines ℕ_discrete c' (used ℕ_discrete 7 held)
    × (c'.capacity ≡ 1)
get-Refines_example = get-Refines ℕ_discrete full held full-Refines 7

put-Refines_example :
    (c' : LruCache ℕ ℕ) × (Lru.put ℕ_discrete 8 80 full ≡ some c')
    × Refines ℕ_discrete c' (take 1 (touch ℕ_discrete 8 80 held))
    × (c'.capacity ≡ 1)
put-Refines_example = put-Refines ℕ_discrete full held full-Refines 8 80

new-Constructed_example : Constructed {V = ℕ} ℕ_discrete 3 (Lru.new 3)
new-Constructed_example = new-Constructed ℕ_discrete 3

delete_key-Refines_example :
    ((Lru.delete_key ℕ_discrete 7 full).0 ≡ is_some (find ℕ_discrete 7 held))
    × Refines ℕ_discrete (Lru.delete_key ℕ_discrete 7 full).1 (drop_key ℕ_discrete 7 held)
delete_key-Refines_example = delete_key-Refines ℕ_discrete full held full-Refines 7

resize-Refines_example :
    (c' : LruCache ℕ ℕ) × (Lru.resize ℕ_discrete 5 full ≡ some (Result.ok (length held - 5), c'))
    × Refines ℕ_discrete c' (take 5 held)
    × (c'.capacity ≡ 5)
resize-Refines_example = resize-Refines ℕ_discrete full held full-Refines 5 (omega arith)
