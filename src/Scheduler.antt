-- ===== src/Scheduler.antt =====
-- pkg/scheduler/scheduler.go: the read queue, one lane per graph, their workers, and `Submit` and
-- `Stop` as the steps of a machine. Goroutines interleave freely: each step is what one of them does
-- between two operations on a channel. What a stream does once it is committed is a parameter.
pub mod Pools
pub mod Accounting
pub mod Shutdown
pub mod Progress
mod Tests
use fraise.Prelude.{
  ℕ, zero, suc, ◌+◌, Bool, true, false, not, ◌&&◌, List, [], ◌∷◌, ◌++◌, Option, none, some, ◌==◌,
  ltb, leb, length, get_elem?, set, take, drop, if◌then◌else◌,
}
use fraise.Containers.Heap.{◌>>=◌}

pub record Stream : Type 0 where
  pub id : ℕ
  pub graph : ℕ
  pub is_write : Bool

-- Where a worker's loop stands: in `select`, in `drain`, or past its return.
pub data Mode : Type 0 where
  serving draining exited : Mode

pub record Worker : Type 0 where
  pub mode : Mode
  pub busy : Option Stream

-- A channel with its workers, what was sent on it so far, and what was executed, both in order.
pub record Pool : Type 0 where
  pub buffer : List Stream
  pub workers : List Worker
  pub accepted : List Stream
  pub finished : List Stream

-- Pool 0 is the read queue and pool `i + 1` the lane of graph `i`. `parked` holds the calls of
-- `Submit` that `submits` counts, each with its queue. `stopped` is the end of `Stop`.
pub record Scheduler : Type 0 where
  pub quit : Bool
  pub stopped : Bool
  pub parked : List (ℕ × Stream)
  pub pools : ℕ → Pool

abbrev pub guard : {A : Type 0} → Bool → A → Option A
guard c a = if c then some a else none

abbrev pub is_exited : Mode → Bool
is_exited Mode.exited = true
is_exited _ = false

abbrev pub is_draining : Mode → Bool
is_draining Mode.draining = true
is_draining _ = false

abbrev pub is_serving : Mode → Bool
is_serving Mode.serving = true
is_serving _ = false

abbrev pub is_idle : Worker → Bool
is_idle w = elim (w.busy) [ none ↦ true | some s ↦ false ]

abbrev pub all_exited : List Worker → Bool
all_exited [] = true
all_exited (w ∷ ws) = is_exited w.mode && all_exited ws

-- `queue <- stream`, where the buffer has room.
unfoldable pub send : ℕ → Stream → Pool → Option Pool
send size s p =
    guard (ltb (length p.buffer) size)
      (record p { buffer = p.buffer ++ s ∷ []; accepted = p.accepted ++ s ∷ [] })

-- `stream := <-queue` of an idle worker `w`, which stands at `k`.
unfoldable pub receive : ℕ → Worker → Pool → List Stream → Option Pool
receive k w p [] = none
receive k w p (s ∷ rest) =
    guard (is_idle w && not (is_exited w.mode))
      (record p { buffer = rest; workers = set p.workers k (record w { busy = some s }) })

-- `execute` returns in the worker `w` at `k`, and the stream is finished.
unfoldable pub complete : ℕ → Worker → Pool → Option Stream → Option Pool
complete k w p none = none
complete k w p (some s) = some (record p {
  workers = set p.workers k (record w { busy = none });
  finished = p.finished ++ s ∷ [];
})

-- A worker that is not executing sees `quit` closed, and drains.
unfoldable pub notice : Bool → ℕ → Worker → Pool → Option Pool
notice quit k w p =
    guard (quit && is_idle w && is_serving w.mode)
      (record p { workers = set p.workers k (record w { mode = Mode.draining }) })

-- `drain` finds the buffer empty, and the worker returns.
unfoldable pub leave : ℕ → Worker → Pool → Option Pool
leave k w p =
    guard (length p.buffer == 0 && is_idle w && is_draining w.mode)
      (record p { workers = set p.workers k (record w { mode = Mode.exited }) })

-- One round of the `drain` in `Stop`, which executes a straggler.
unfoldable pub sweep : Pool → List Stream → Option Pool
sweep p [] = none
sweep p (s ∷ rest) = some (record p { buffer = rest; finished = p.finished ++ s ∷ [] })

-- What a worker does at a step.
pub data Action : Type 0 where
  receives completes notices leaves : Action

unfoldable pub act : Bool → ℕ → Pool → Action → Worker → Option Pool
unfolding receive complete notice leave
act quit k p Action.receives w = receive k w p p.buffer
act quit k p Action.completes w = complete k w p w.busy
act quit k p Action.notices w = notice quit k w p
act quit k p Action.leaves w = leave k w p

-- `Submit` up to its `select`, the three ways out of it, and the steps of the workers and of `Stop`.
-- A parked call gives up when `quit` is closed, its context ends or its timer fires.
pub data Event : Type 0 where
  submit : Stream → Event
  enqueue give_up : ℕ → Event
  work : ℕ → ℕ → Action → Event
  stop finish_stop : Event
  straggler : ℕ → Event

-- The queue of a stream, with `lanes` graphs.
unfoldable pub queue_of : ℕ → Stream → ℕ
queue_of lanes s = if s.is_write && ltb s.graph lanes then suc s.graph else 0

unfoldable pub put_pool : Scheduler → ℕ → Pool → Scheduler
put_pool x i p = record x { pools = λ j. if j == i then p else x.pools j }

-- `submits.Wait()` and `wg.Wait()` return.
unfoldable pub is_quiet : ℕ → Scheduler → Bool
is_quiet zero x = x.quit && length x.parked == 0 && all_exited (x.pools 0).workers
is_quiet (suc lanes) x = is_quiet lanes x && all_exited (x.pools (suc lanes)).workers

unfoldable pub is_drained : ℕ → Scheduler → Bool
is_drained zero x = length (x.pools 0).buffer == 0
is_drained (suc lanes) x = is_drained lanes x && length (x.pools (suc lanes)).buffer == 0

abbrev pub unpark : Scheduler → ℕ → Scheduler
unpark x k = record x { parked = take k x.parked ++ drop (suc k) x.parked }

module _ (size lanes : ℕ) where
  unfoldable pub step : Event → Scheduler → Option Scheduler
  unfolding send act sweep queue_of put_pool is_quiet is_drained
  step (Event.submit s) x =
      guard (not x.quit) (record x { parked = (queue_of lanes s, s) ∷ x.parked })
  step (Event.enqueue k) x = get_elem? x.parked k >>= λ (i, s).
      send size s (x.pools i) >>= λ p. some (put_pool (unpark x k) i p)
  step (Event.give_up k) x = get_elem? x.parked k >>= λ _. some (unpark x k)
  step (Event.work i k a) x = get_elem? (x.pools i).workers k >>= λ w.
      act x.quit k (x.pools i) a w >>= λ p. some (put_pool x i p)
  step Event.stop x = guard (not x.quit) (record x { quit = true })
  step (Event.straggler i) x = guard (is_quiet lanes x && leb i lanes) x >>= λ _.
      sweep (x.pools i) (x.pools i).buffer >>= λ p. some (put_pool x i p)
  step Event.finish_stop x =
      guard (is_quiet lanes x && is_drained lanes x) (record x { stopped = true })

  unfoldable pub run : List Event → Scheduler → Option Scheduler
  unfolding step
  run [] x = some x
  run (e ∷ es) x = step e x >>= run es

abbrev idle_worker : Worker
idle_worker = record { mode = Mode.serving; busy = none }

unfoldable pub idle_workers : ℕ → List Worker
idle_workers zero = []
idle_workers (suc n) = idle_worker ∷ idle_workers n

abbrev pub new_pool : List Worker → Pool
new_pool ws = record { buffer = []; workers = ws; accepted = []; finished = [] }

-- `Start`: `workers` on the read queue, and one writer on each lane.
unfoldable pub start : ℕ → ℕ → Scheduler
unfolding idle_workers
start lanes workers = record {
  quit = false;
  stopped = false;
  parked = [];
  pools = λ i.
      new_pool
        (if i == 0 then idle_workers workers else if leb i lanes then idle_workers 1 else []);
}
