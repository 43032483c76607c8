-- ===== src/Scheduler/Progress.antt =====
-- Until `Stop` returns, some step can be taken.
use fraise.Prelude.{
  ℕ, zero, suc, ◌≤◌, ◌<◌, ◌≡◌, ◌≢◌, ◌⊎◌, refl, ◌∙◌, Bool, true, false, List, [], ◌∷◌, Option, none,
  some, ◌==◌, leb, arith, length, get_elem?, set, ◌++◌, Bool-cases, inl, inr,
}
use fraise.Scheduler.{
  Stream, Mode, Worker, Pool, Scheduler, Event, Action, all_exited, is_exited, receive, complete,
  notice, leave, act, sweep, put_pool, unpark, is_quiet, is_drained, step, run, start,
}
use fraise.Scheduler.Accounting.{IsSound, run-start-IsSound}
use fraise.Scheduler.Shutdown.{work, IsBounded, step-work_lt}

-- A worker that has not returned can act once `quit` is closed.
Active : Bool → ℕ → Pool → Worker → Type 0
Active quit k p w = (a : Action) × (p' : Pool) × (act quit k p a w ≡ some p')

serve-Active :
    (k : ℕ) (p : Pool) (w : Worker) → w.busy ≡ none → w.mode ≡ Mode.serving → Active true k p w
unfolding Active act notice
serve-Active k p w b m = (
  Action.notices,
  record p { workers = set p.workers k (record w { mode = Mode.draining }) },
  rw (b, m) refl,
)

busy-Active : (k : ℕ) (p : Pool) (w : Worker) (s : Stream) → w.busy ≡ some s → Active true k p w
unfolding Active act complete
busy-Active k p w s b = (
  Action.completes,
  record p {
    workers = set p.workers k (record w { busy = none });
    finished = p.finished ++ s ∷ [];
  },
  rw b refl,
)

drain-Active :
    (k : ℕ) (p : Pool) (w : Worker) → w.busy ≡ none → w.mode ≡ Mode.draining → Active true k p w
unfolding Active act receive leave
drain-Active k p w b m = go p.buffer refl
  where
    go : (l : List Stream) → p.buffer ≡ l → Active true k p w
    go [] e = (
      Action.leaves,
      record p { workers = set p.workers k (record w { mode = Mode.exited }) },
      rw (e, b, m) refl,
    )
    go (s ∷ rest) e = (
      Action.receives,
      record p { buffer = rest; workers = set p.workers k (record w { busy = some s }) },
      rw (e, b, m) refl,
    )

worker-Active : (k : ℕ) (p : Pool) (w : Worker) → is_exited w.mode ≡ false → Active true k p w
worker-Active k p w x = go w.busy w.mode refl refl
  where
    go : (o : Option Stream) (m : Mode) → w.busy ≡ o → w.mode ≡ m → Active true k p w
    go (some s) m b e = busy-Active k p w s b
    go none Mode.serving b e = serve-Active k p w b e
    go none Mode.draining b e = drain-Active k p w b e
    go none Mode.exited b e = absurd (ground (arith, x, e))

abbrev Unreturned : List Worker → Type 0
Unreturned ws = (k : ℕ) × (w : Worker) × (get_elem? ws k ≡ some w) × (is_exited w.mode ≡ false)

unreturned : (ws : List Worker) → (all_exited ws ≡ true) ⊎ Unreturned ws
unreturned [] = inl refl
unreturned (w ∷ ws) = elim (Bool-cases (is_exited w.mode)) [
  | inr live ↦ inr (0, w, refl, live)
  | inl e ↦ elim (unreturned ws) [
    | inl all ↦ inl (rw e all)
    | inr (k, v, at, live) ↦ inr (suc k, v, at, live)
  ]
]

quiet_or_live :
    (lanes : ℕ) (x : Scheduler)
    → x.quit ≡ true
    → x.parked ≡ []
    → (is_quiet lanes x ≡ true) ⊎ ((i : ℕ) × Unreturned (x.pools i).workers)
unfolding is_quiet
quiet_or_live zero x q e = elim (unreturned (x.pools 0).workers) [
  | inl all ↦ inl (rw (q, e) all)
  | inr u ↦ inr (0, u)
]
quiet_or_live (suc lanes) x q e = elim (quiet_or_live lanes x q e) [
  | inr u ↦ inr u
  | inl below ↦ elim (unreturned (x.pools (suc lanes)).workers) [
    | inl all ↦ inl (rw below all)
    | inr u ↦ inr (suc lanes, u)
  ]
]

Waiting : Pool → Type 0
Waiting p = (s : Stream) × (rest : List Stream) × (p.buffer ≡ s ∷ rest)

empty_or_Waiting : (p : Pool) → ((length p.buffer == 0) ≡ true) ⊎ Waiting p
unfolding Waiting
empty_or_Waiting p = go p.buffer refl
  where
    go : (b : List Stream) → p.buffer ≡ b → ((length p.buffer == 0) ≡ true) ⊎ Waiting p
    go [] e = inl (rw e refl)
    go (s ∷ rest) e = inr (s, rest, e)

drained_or_Waiting :
    (lanes : ℕ) (x : Scheduler)
    → (is_drained lanes x ≡ true) ⊎ ((i : ℕ) × (i ≤ lanes) × Waiting (x.pools i))
unfolding is_drained
drained_or_Waiting zero x = elim (empty_or_Waiting (x.pools 0)) [
  | inl e ↦ inl e
  | inr w ↦ inr (0, omega arith, w)
]
drained_or_Waiting (suc lanes) x = elim (drained_or_Waiting lanes x) [
  | inr (i, h, w) ↦ inr (i, omega (arith, h), w)
  | inl below ↦ elim (empty_or_Waiting (x.pools (suc lanes))) [
    | inl e ↦ inl (rw below e)
    | inr w ↦ inr (suc lanes, omega arith, w)
  ]
]

module _ (size lanes : ℕ) (x : Scheduler) (q : x.quit ≡ true) where
  -- A step other than the last, or the last one.
  Enabled : Type 0
  Enabled =
      ((e : Event) × (y : Scheduler) × (step size lanes e x ≡ some y) × (e ≢ Event.finish_stop))
      ⊎ ((y : Scheduler) × (step size lanes Event.finish_stop x ≡ some y) × (y.stopped ≡ true))

  give_up_enabled : (t : ℕ × Stream) (ts : List (ℕ × Stream)) → x.parked ≡ t ∷ ts → Enabled
  unfolding Enabled step
  give_up_enabled t ts e = inl (Event.give_up 0, unpark x 0, rw e refl, λ h. cc)

  work_enabled : (i : ℕ) → Unreturned (x.pools i).workers → Enabled
  unfolding Enabled step Active
  work_enabled i (k, w, at, live) =
      let (a, p, done) = worker-Active k (x.pools i) w live in
      inl (Event.work i k a, put_pool x i p, rw (at, q, done) refl, λ h. cc)

  straggler_enabled : (i : ℕ) → is_quiet lanes x ≡ true → i ≤ lanes → Waiting (x.pools i) → Enabled
  unfolding Enabled step sweep Waiting
  straggler_enabled i quiet h (s, rest, e) =
      let below : leb i lanes ≡ true = ground (arith, h) in
      inl (
        Event.straggler i,
        put_pool x i
            (record (x.pools i) { buffer = rest; finished = (x.pools i).finished ++ s ∷ [] }),
        rw (quiet, below, e) refl,
        λ h. cc,
      )

  finish_enabled : is_quiet lanes x ≡ true → is_drained lanes x ≡ true → Enabled
  unfolding Enabled step
  finish_enabled quiet drained = inr (record x { stopped = true }, rw (quiet, drained) refl, refl)

  enabled : Enabled
  enabled = go x.parked refl
    where
      go : (ts : List (ℕ × Stream)) → x.parked ≡ ts → Enabled
      go (t ∷ ts) e = give_up_enabled t ts e
      go [] e = elim (quiet_or_live lanes x q e) [
        | inr (i, u) ↦ work_enabled i u
        | inl quiet ↦ elim (drained_or_Waiting lanes x) [
          | inr (i, h, w) ↦ straggler_enabled i quiet h w
          | inl drained ↦ finish_enabled quiet drained
        ]
      ]

sound-IsBounded :
    (size lanes workers : ℕ) (x : Scheduler) → IsSound size lanes workers x → IsBounded lanes x
sound-IsBounded size lanes workers x g i h =
    no_one (x.pools i).workers ((g i).staffed ∙ ground (arith, h))
  where
    no_one : (ws : List Worker) → length ws ≡ 0 → ws ≡ []
    no_one [] e = refl
    no_one (w ∷ ws) e = absurd (omega arith)

-- Once `Stop` has closed `quit`, every further step of the scheduler but the last one of `Stop`
-- leaves less to do, so that no interleaving goes on for ever: a parked call counts three steps, a
-- waiting stream two, an executing one one, and a serving worker two.
pub stop_shrinks :
    (size lanes workers : ℕ) (es : List Event) (x y : Scheduler) (e : Event)
    → run size lanes es (start lanes workers) ≡ some x
    → x.quit ≡ true
    → step size lanes e x ≡ some y
    → e ≢ Event.finish_stop
    → work lanes y < work lanes x
stop_shrinks size lanes workers es x y e r q s n =
    step-work_lt size lanes x
      (sound-IsBounded size lanes workers x (run-start-IsSound size lanes workers es x r)) q e y s n

-- Once `Stop` has closed `quit`, the scheduler is never stuck: some step leaves less to do, or
-- `Stop` returns.
pub stop_progresses :
    (size lanes workers : ℕ) (es : List Event) (x : Scheduler)
    → run size lanes es (start lanes workers) ≡ some x
    → x.quit ≡ true
    → ((e : Event) × (y : Scheduler) × (step size lanes e x ≡ some y)
        × (work lanes y < work lanes x))
      ⊎ ((y : Scheduler) × (step size lanes Event.finish_stop x ≡ some y) × (y.stopped ≡ true))
unfolding Enabled
stop_progresses size lanes workers es x r q = elim (enabled size lanes x q) [
  | inr last ↦ inr last
  | inl (e, y, s, n) ↦ inl (e, y, s, stop_shrinks size lanes workers es x y e r q s n)
]
