-- ===== src/Scheduler/Accounting.antt =====
-- The scheduler loses no stream that it accepted: over every interleaving, and once `Stop` returns.
use fraise.Prelude.{
  ℕ, zero, suc, ◌≤◌, ◌<◌, ◌≡◌, refl, ap, sym, subst, ◌∙◌, true, not, ◌&&◌, List, [], ◌∷◌, Option,
  none, some, ◌==◌, leb, ==_iff, arith, length, get_elem?, if◌then◌else◌, Bool-cases, inl, inr,
}
use mathlib.Core.List.{append-nil}
use fraise.Containers.Heap.{◌>>=◌}
use fraise.Scheduler.{
  Stream, Pool, Scheduler, Event, guard, all_exited, new_pool, idle_workers, send, act, sweep,
  put_pool, unpark, is_quiet, is_drained, step, run, start,
}
use fraise.Scheduler.Pools.{
  count, executing, ReturnIdle, IsAccounted, send-IsAccounted, sweep-IsAccounted, act-IsAccounted,
  executing-exited, some_inj, guard-some,
}

-- The workers that `Start` gives pool `i`.
abbrev pub crew_of : ℕ → ℕ → ℕ → ℕ
crew_of lanes workers i = if i == 0 then workers else if leb i lanes then 1 else 0

-- Of every queue: what it accepted is what was executed, is being executed or waits.
abbrev pub IsSound : ℕ → ℕ → ℕ → Scheduler → Type 0
IsSound size lanes workers x = (i : ℕ) → IsAccounted size (crew_of lanes workers i) (x.pools i)

pub bind-some :
    {A B : Type 0} (o : Option A) (f : A → Option B) (b : B)
    → (o >>= f) ≡ some b
    → (a : A) × (o ≡ some a) × (f a ≡ some b)
bind-some none f b e = absurd cc
bind-some (some a) f b e = (a, refl, e)

is_quiet-exited :
    (lanes i : ℕ) (x : Scheduler)
    → is_quiet lanes x ≡ true
    → i ≤ lanes
    → all_exited (x.pools i).workers ≡ true
unfolding is_quiet
is_quiet-exited zero i x q h = let at : i ≡ 0 = omega arith in rw at (ground (arith, q))
is_quiet-exited (suc lanes) i x q h = elim (Bool-cases (i == suc lanes)) [
  | inl e ↦ rw ((==_iff i (suc lanes)).0 e) (ground (arith, q))
  | inr n ↦ is_quiet-exited lanes i x (ground (arith, q)) (ground (arith, n, h))
]

is_drained-empty :
    (lanes i : ℕ) (x : Scheduler)
    → is_drained lanes x ≡ true
    → i ≤ lanes
    → length (x.pools i).buffer ≡ 0
unfolding is_drained
is_drained-empty zero i x q h = let at : i ≡ 0 = omega arith in rw at (ground (arith, q))
is_drained-empty (suc lanes) i x q h = elim (Bool-cases (i == suc lanes)) [
  | inl e ↦ rw ((==_iff i (suc lanes)).0 e) (ground (arith, q))
  | inr n ↦ is_drained-empty lanes i x (ground (arith, q)) (ground (arith, n, h))
]

module _ (size lanes workers : ℕ) (x : Scheduler) (g : IsSound size lanes workers x) where
  put_pool-IsSound :
      (y : Scheduler) (i : ℕ) (p : Pool)
      → y.pools ≡ x.pools
      → IsAccounted size (crew_of lanes workers i) p
      → IsSound size lanes workers (put_pool y i p)
  unfolding put_pool
  put_pool-IsSound y i p same h j = elim (Bool-cases (j == i)) [
    | inl e ↦ rw (e, (==_iff j i).0 e) h
    | inr n ↦ rw (n, same) (g j)
  ]

  step-IsSound :
      (e : Event) (y : Scheduler) → step size lanes e x ≡ some y → IsSound size lanes workers y
  unfolding step
  step-IsSound (Event.submit s) y e =
      let (_, same) = guard-some (not x.quit) _ e in subst (IsSound size lanes workers) same g
  step-IsSound (Event.enqueue k) y e =
      let ((i, s), _, e1) = bind-some (get_elem? x.parked k) _ y e in
      let (p, sent, e2) = bind-some (send size s (x.pools i)) _ y e1 in
      subst (IsSound size lanes workers) (some_inj e2)
        (put_pool-IsSound (unpark x k) i p refl (send-IsAccounted (x.pools i) (g i) s p sent))
  step-IsSound (Event.give_up k) y e =
      let (_, _, e1) = bind-some (get_elem? x.parked k) _ y e in
      subst (IsSound size lanes workers) (some_inj e1) g
  step-IsSound (Event.work i k a) y e =
      let (w, at, e1) = bind-some (get_elem? (x.pools i).workers k) _ y e in
      let (p, done, e2) = bind-some (act x.quit k (x.pools i) a w) _ y e1 in
      subst (IsSound size lanes workers) (some_inj e2)
        (put_pool-IsSound x i p refl (act-IsAccounted (x.pools i) (g i) k w at x.quit a p done))
  step-IsSound Event.stop y e =
      let (_, same) = guard-some (not x.quit) _ e in subst (IsSound size lanes workers) same g
  step-IsSound (Event.straggler i) y e =
      let (_, may, e1) = bind-some (guard (is_quiet lanes x && leb i lanes) x) _ y e in
      let (allowed, _) = guard-some (is_quiet lanes x && leb i lanes) x may in
      let (p, swept, e2) = bind-some (sweep (x.pools i) (x.pools i).buffer) _ y e1 in
      let exited = is_quiet-exited lanes i x (ground (arith, allowed)) (ground (arith, allowed)) in
      subst (IsSound size lanes workers) (some_inj e2) (
        put_pool-IsSound x i p refl
          (sweep-IsAccounted (x.pools i) (g i) exited (x.pools i).buffer p refl swept))
  step-IsSound Event.finish_stop y e =
      let (_, same) = guard-some (is_quiet lanes x && is_drained lanes x) _ e in
      subst (IsSound size lanes workers) same g

run-IsSound :
    (size lanes workers : ℕ) (es : List Event) (x y : Scheduler)
    → IsSound size lanes workers x
    → run size lanes es x ≡ some y
    → IsSound size lanes workers y
unfolding run
run-IsSound size lanes workers [] x y g e = subst (IsSound size lanes workers) (some_inj e) g
run-IsSound size lanes workers (v ∷ es) x y g e =
    let (z, first, rest) = bind-some (step size lanes v x) _ y e in
    run-IsSound size lanes workers es z y (step-IsSound size lanes workers x g v z first) rest

executing-idle_workers : (n : ℕ) → executing (idle_workers n) ≡ []
unfolding idle_workers
executing-idle_workers zero = refl
executing-idle_workers (suc n) = executing-idle_workers n

length-idle_workers : (n : ℕ) → length (idle_workers n) ≡ n
unfolding idle_workers
length-idle_workers zero = refl
length-idle_workers (suc n) = ap suc (length-idle_workers n)

idle_workers-ReturnIdle : (n : ℕ) → ReturnIdle (idle_workers n)
unfolding idle_workers
idle_workers-ReturnIdle zero = tt
idle_workers-ReturnIdle (suc n) = ((λ _. refl), idle_workers-ReturnIdle n)

new_pool-IsAccounted : (size n : ℕ) → IsAccounted size n (new_pool (idle_workers n))
new_pool-IsAccounted size n = record {
  bounded = omega arith;
  counted = λ id. ap (count id) (sym (executing-idle_workers n)) ∙ omega arith;
  ordered = λ _. rw (executing-idle_workers n) refl;
  idle = idle_workers-ReturnIdle n;
  staffed = length-idle_workers n;
}

start-IsSound : (size lanes workers : ℕ) → IsSound size lanes workers (start lanes workers)
unfolding start idle_workers
start-IsSound size lanes workers i = elim (Bool-cases (i == 0)) [
  | inl e ↦ rw e (new_pool-IsAccounted size workers)
  | inr n ↦ elim (Bool-cases (leb i lanes)) [
    | inl e ↦ rw (n, e) (new_pool-IsAccounted size 1)
    | inr m ↦ rw (n, m) (new_pool-IsAccounted size 0)
  ]
]

-- From `Start` on, however the calls of `Submit`, the workers and `Stop` interleave, every queue
-- holds no more than its size, keeps its workers, and has each accepted stream exactly once among
-- the executed, the executing and the waiting; a lane's writer executes them in the order in which
-- the lane accepted them, and a worker that has returned executes nothing.
pub run-start-IsSound :
    (size lanes workers : ℕ) (es : List Event) (x : Scheduler)
    → run size lanes es (start lanes workers) ≡ some x
    → IsSound size lanes workers x
run-start-IsSound size lanes workers es x e =
    run-IsSound size lanes workers es (start lanes workers) x (start-IsSound size lanes workers) e

-- When `Stop` returns, each queue has executed just the streams that it accepted, each as often as
-- it was accepted, and a lane in the order in which it accepted them.
pub finish_stop_complete :
    (size lanes workers : ℕ) (es : List Event) (x y : Scheduler)
    → run size lanes es (start lanes workers) ≡ some x
    → step size lanes Event.finish_stop x ≡ some y
    → (i : ℕ) → i ≤ lanes
    → ((id : ℕ) → count id (y.pools i).accepted ≡ count id (y.pools i).finished)
      × (0 < i → (y.pools i).accepted ≡ (y.pools i).finished)
unfolding step
finish_stop_complete size lanes workers es x y e f i h =
    let (free, same) = guard-some (is_quiet lanes x && is_drained lanes x) _ f in
    let g = run-start-IsSound size lanes workers es x e i in
    let idle =
      executing-exited (x.pools i).workers (is_quiet-exited lanes i x (ground (arith, free)) h)
        g.idle in
    let empty =
      length_zero (x.pools i).buffer (is_drained-empty lanes i x (ground (arith, free)) h) in
    subst
      (λ z.
        ((id : ℕ) → count id (z.pools i).accepted ≡ count id (z.pools i).finished)
        × (0 < i → (z.pools i).accepted ≡ (z.pools i).finished))
      same
      (
        (λ id. omega (arith, g.counted id, ap (count id) idle, ap (count id) empty)),
        (λ lane.
            g.ordered (ground (arith, lane)) ∙ rw (idle, empty) (append-nil (x.pools i).finished)),
      )
  where
    length_zero : (b : List Stream) → length b ≡ 0 → b ≡ []
    length_zero [] e = refl
    length_zero (s ∷ b) e = absurd (omega arith)
