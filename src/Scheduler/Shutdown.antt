-- ===== src/Scheduler/Shutdown.antt =====
-- `Stop` ends: once `quit` is closed, every step leaves less to do, and some step can be taken until
-- `Stop` returns.
use fraise.Prelude.{
  ℕ, zero, suc, ◌+◌, ◌*◌, ◌≤◌, ◌<◌, ◌≡◌, ◌≢◌, refl, ap, subst, Bool, true, false, not, ◌&&◌, List,
  [], ◌∷◌, ◌++◌, Option, none, some, ◌==◌, leb, ltb, ==_iff, arith, length, length-append,
  get_elem?, set, take, drop, if◌then◌else◌, Bool-cases, inl, inr,
}
use fraise.Scheduler.{
  Stream, Mode, Worker, Pool, Scheduler, Event, Action, guard, is_exited, is_idle, is_serving,
  is_draining, send, receive, complete, notice, leave, act, sweep, put_pool, unpark, is_quiet, step,
}
use fraise.Scheduler.Pools.{load, some_inj, guard-some}
use fraise.Scheduler.Accounting.{bind-some}

abbrev stage : Mode → ℕ
stage Mode.serving = 2
stage Mode.draining = 1
stage Mode.exited = 0

abbrev worker_work : Worker → ℕ
worker_work w = stage w.mode + length (load w.busy)

abbrev workers_work : List Worker → ℕ
workers_work [] = 0
workers_work (w ∷ ws) = worker_work w + workers_work ws

abbrev pool_work : Pool → ℕ
pool_work p = 2 * length p.buffer + workers_work p.workers

abbrev pools_work : ℕ → (ℕ → Pool) → ℕ
pools_work zero f = pool_work (f 0)
pools_work (suc lanes) f = pools_work lanes f + pool_work (f (suc lanes))

-- What is left to do at most: three steps for a parked call, two for a stream that waits, one for a
-- stream that is executed, and two for a worker that serves.
unfoldable pub work : ℕ → Scheduler → ℕ
work lanes x = 3 * length x.parked + pools_work lanes x.pools

workers_work-set :
    (ws : List Worker) (k : ℕ) (w w' : Worker)
    → get_elem? ws k ≡ some w
    → workers_work (set ws k w') + worker_work w ≡ workers_work ws + worker_work w'
workers_work-set [] k w w' e = absurd cc
workers_work-set (v ∷ ws) zero w w' e = omega (arith, ap worker_work (some_inj e))
workers_work-set (v ∷ ws) (suc k) w w' e = omega (arith, workers_work-set ws k w w' e)

module _ (k : ℕ) (p : Pool) (w : Worker) (at : get_elem? p.workers k ≡ some w) where
  act-work_lt :
      (quit : Bool) (a : Action) (p' : Pool)
      → act quit k p a w ≡ some p'
      → pool_work p' < pool_work p
  unfolding act receive complete notice leave
  act-work_lt quit Action.receives p' e = go p.buffer refl e
    where
      go : (b : List Stream) → p.buffer ≡ b → receive k w p b ≡ some p' → pool_work p' < pool_work p
      go [] b e = absurd cc
      go (s ∷ rest) b e =
          let w' = record w { busy = some s } in
          let (free, same) = guard-some (is_idle w && not (is_exited w.mode)) _ e in
          let idle : w.busy ≡ none = ground (arith, free) in
          subst (λ (z : Pool). pool_work z < pool_work p) same
            (omega (
              arith,
              workers_work-set p.workers k w w' at,
              ap length b,
              ap (λ (o : Option Stream). length (load o)) idle,
            ))
  act-work_lt quit Action.completes p' e = go w.busy refl e
    where
      go :
          (b : Option Stream) → w.busy ≡ b → complete k w p b ≡ some p' → pool_work p' < pool_work p
      go none b e = absurd cc
      go (some s) b e =
          let w' = record w { busy = none } in
          subst (λ (z : Pool). pool_work z < pool_work p) (some_inj e)
            (omega (
              arith,
              workers_work-set p.workers k w w' at,
              ap (λ (o : Option Stream). length (load o)) b,
            ))
  act-work_lt quit Action.notices p' e =
      let w' = record w { mode = Mode.draining } in
      let (free, same) = guard-some (quit && is_idle w && is_serving w.mode) _ e in
      let serving : stage w.mode ≡ 2 = ground (arith, free) in
      subst (λ (z : Pool). pool_work z < pool_work p) same
        (omega (arith, workers_work-set p.workers k w w' at, serving))
  act-work_lt quit Action.leaves p' e =
      let w' = record w { mode = Mode.exited } in
      let (free, same) = guard-some (length p.buffer == 0 && is_idle w && is_draining w.mode) _ e in
      let draining : stage w.mode ≡ 1 = ground (arith, free) in
      subst (λ (z : Pool). pool_work z < pool_work p) same
        (omega (arith, workers_work-set p.workers k w w' at, draining))

abbrev put_at : (ℕ → Pool) → ℕ → Pool → ℕ → Pool
put_at f i p j = if j == i then p else f j

pools_work-beyond :
    (lanes i : ℕ) (f : ℕ → Pool) (p : Pool)
    → lanes < i
    → pools_work lanes (put_at f i p) ≡ pools_work lanes f
pools_work-beyond zero i f p h = let other : (0 == i) ≡ false = ground (arith, h) in rw other refl
pools_work-beyond (suc lanes) i f p h =
    let other : (suc lanes == i) ≡ false = ground (arith, h) in
    rw (other, pools_work-beyond lanes i f p (omega arith)) refl

pools_work-put :
    (lanes i : ℕ) (f : ℕ → Pool) (p : Pool)
    → i ≤ lanes
    → pools_work lanes (put_at f i p) + pool_work (f i) ≡ pools_work lanes f + pool_work p
pools_work-put zero i f p h = let at : i ≡ 0 = omega arith in rw at (omega arith)
pools_work-put (suc lanes) i f p h = elim (Bool-cases (suc lanes == i)) [
  | inl e ↦
      let at : suc lanes ≡ i = (==_iff (suc lanes) i).0 e in
      let below = pools_work-beyond lanes i f p (omega arith) in
      rw e (omega (arith, below, ap (λ j. pool_work (f j)) at))
  | inr n ↦
      let below = pools_work-put lanes i f p (ground (arith, n, h)) in rw n (omega (arith, below))
]

length-unpark :
    {A : Type 0} (xs : List A) (k : ℕ) (a : A)
    → get_elem? xs k ≡ some a
    → length (take k xs ++ drop (suc k) xs) + 1 ≡ length xs
length-unpark [] k a e = absurd cc
length-unpark (x ∷ xs) zero a e = omega arith
length-unpark (x ∷ xs) (suc k) a e = omega (arith, length-unpark xs k a e)

-- A pool that has less to do.
module _ (lanes : ℕ) (x : Scheduler) (i : ℕ) (p : Pool) where
  put_pool-work_lt :
      i ≤ lanes → pool_work p < pool_work (x.pools i) → work lanes (put_pool x i p) < work lanes x
  unfolding work put_pool
  put_pool-work_lt h l = omega (arith, pools_work-put lanes i x.pools p h, l)

  enqueue-work_lt :
      (k : ℕ) (t : ℕ × Stream)
      → get_elem? x.parked k ≡ some t
      → pool_work p ≤ pool_work (x.pools i) + 2
      → work lanes (put_pool (unpark x k) i p) < work lanes x
  unfolding work put_pool
  enqueue-work_lt k t e l =
      let fewer = length-unpark x.parked k t e in
      elim (Bool-cases (leb i lanes)) [
        | inl h ↦ omega (arith, fewer, l, pools_work-put lanes i x.pools p (ground (arith, h)))
        | inr h ↦ omega (arith, fewer, pools_work-beyond lanes i x.pools p (ground (arith, h)))
      ]

send-work_le :
    (size : ℕ) (s : Stream) (p p' : Pool) → send size s p ≡ some p' → pool_work p' ≤ pool_work p + 2
unfolding send
send-work_le size s p p' e =
    let (_, same) = guard-some (ltb (length p.buffer) size) _ e in
    subst (λ (z : Pool). pool_work z ≤ pool_work p + 2) same
      (omega (arith, length-append p.buffer (s ∷ [])))

sweep-work_lt :
    (p p' : Pool) (b : List Stream)
    → p.buffer ≡ b
    → sweep p b ≡ some p'
    → pool_work p' < pool_work p
unfolding sweep
sweep-work_lt p p' [] b e = absurd cc
sweep-work_lt p p' (s ∷ rest) b e =
    subst (λ (z : Pool). pool_work z < pool_work p) (some_inj e) (omega (arith, ap length b))

-- Pools beyond the lanes have no workers.
abbrev pub IsBounded : ℕ → Scheduler → Type 0
IsBounded lanes x = (i : ℕ) → lanes < i → (x.pools i).workers ≡ []

module _ (size lanes : ℕ) (x : Scheduler) (b : IsBounded lanes x) (q : x.quit ≡ true) where
  give_up-work_lt :
      (k : ℕ) (t : ℕ × Stream)
      → get_elem? x.parked k ≡ some t
      → work lanes (unpark x k) < work lanes x
  unfolding work
  give_up-work_lt k t e = omega (arith, length-unpark x.parked k t e)

  within : (i k : ℕ) (w : Worker) → get_elem? (x.pools i).workers k ≡ some w → i ≤ lanes
  within i k w e = elim (Bool-cases (leb i lanes)) [
    | inl h ↦ ground (arith, h)
    | inr h ↦ let nobody = b i (ground (arith, h)) in absurd (ground (arith, rw nobody at e))
  ]

  -- Once `quit` is closed, every step but the last one of `Stop` leaves less to do.
  pub step-work_lt :
      (e : Event) (y : Scheduler)
      → step size lanes e x ≡ some y
      → e ≢ Event.finish_stop
      → work lanes y < work lanes x
  unfolding step
  step-work_lt (Event.submit s) y e n = absurd (ground (arith, q, guard-some (not x.quit) _ e))
  step-work_lt Event.stop y e n = absurd (ground (arith, q, guard-some (not x.quit) _ e))
  step-work_lt Event.finish_stop y e n = absurd (n refl)
  step-work_lt (Event.enqueue k) y e n =
      let ((i, s), at, e1) = bind-some (get_elem? x.parked k) _ y e in
      let (p, sent, e2) = bind-some (send size s (x.pools i)) _ y e1 in
      subst (λ z. work lanes z < work lanes x) (some_inj e2)
        (enqueue-work_lt lanes x i p k (i, s) at (send-work_le size s (x.pools i) p sent))
  step-work_lt (Event.give_up k) y e n =
      let (t, at, e1) = bind-some (get_elem? x.parked k) _ y e in
      subst (λ z. work lanes z < work lanes x) (some_inj e1) (give_up-work_lt k t at)
  step-work_lt (Event.work i k a) y e n =
      let (w, at, e1) = bind-some (get_elem? (x.pools i).workers k) _ y e in
      let (p, done, e2) = bind-some (act x.quit k (x.pools i) a w) _ y e1 in
      subst (λ z. work lanes z < work lanes x) (some_inj e2)
        (put_pool-work_lt lanes x i p (within i k w at)
          (act-work_lt k (x.pools i) w at x.quit a p done))
  step-work_lt (Event.straggler i) y e n =
      let (_, may, e1) = bind-some (guard (is_quiet lanes x && leb i lanes) x) _ y e in
      let (allowed, _) = guard-some (is_quiet lanes x && leb i lanes) x may in
      let (p, swept, e2) = bind-some (sweep (x.pools i) (x.pools i).buffer) _ y e1 in
      subst (λ z. work lanes z < work lanes x) (some_inj e2)
        (put_pool-work_lt lanes x i p (ground (arith, allowed))
          (sweep-work_lt (x.pools i) p (x.pools i).buffer refl swept))
