-- ===== src/Scheduler/Tests.antt =====
-- Runs of the scheduler, with buffers of two, one graph and one read worker.
use fraise.Prelude.{
  ℕ, ◌≡◌, ◌≢◌, ◌<◌, ◌⊎◌, refl, true, false, List, [], ◌∷◌, ◌++◌, none, some, arith,
}
use fraise.Scheduler.{
  Stream, Scheduler, Event, Action, send, receive, complete, notice, leave, sweep, act, queue_of,
  put_pool, is_quiet, is_drained, step, run, idle_workers, start,
}
use fraise.Scheduler.Pools.{count}
use fraise.Scheduler.Accounting.{IsSound, run-start-IsSound, finish_stop_complete}
use fraise.Scheduler.Shutdown.{work}
use fraise.Scheduler.Progress.{stop_shrinks, stop_progresses}

scheduler : Unit {0}
unfolding send receive complete notice leave sweep act queue_of put_pool is_quiet is_drained step
    run idle_workers start
scheduler = tt

abbrev write : ℕ → Stream
write n = record { id = n; graph = 0; is_write = true }

abbrev read : Stream
read = record { id = 9; graph = 0; is_write = false }

-- Two writes are accepted, and one of them is executed; a read gives up; `Stop` begins.
abbrev opening : List Event
opening =
    Event.submit (write 1)
    ∷ Event.enqueue 0
    ∷ Event.submit (write 2)
    ∷ Event.enqueue 0
    ∷ Event.work 1 0 Action.receives
    ∷ Event.submit read
    ∷ Event.stop
    ∷ Event.give_up 0
    ∷ []

abbrev closing : List Event
closing =
    Event.work 1 0 Action.completes
    ∷ Event.work 1 0 Action.notices
    ∷ Event.work 1 0 Action.receives
    ∷ Event.work 1 0 Action.completes
    ∷ Event.work 1 0 Action.leaves
    ∷ Event.work 0 0 Action.notices
    ∷ Event.work 0 0 Action.leaves
    ∷ []

after : List Event → Scheduler → Scheduler
after es x = elim (run 2 1 es x) [ none ↦ x | some y ↦ y ]

abbrev opened : Scheduler
opened = after opening (start 1 1)

abbrev closed : Scheduler
closed = after closing opened

opening_runs : run 2 1 opening (start 1 1) ≡ some opened
unfolding scheduler after
opening_runs = refl

closed_in_order : (closed.pools 1).finished ≡ write 1 ∷ write 2 ∷ []
unfolding scheduler after
closed_in_order = refl

whole_runs : run 2 1 (opening ++ closing) (start 1 1) ≡ some closed
unfolding scheduler after
whole_runs = refl

abbrev stopped : Scheduler
stopped = record closed { stopped = true }

closed_stops : step 2 1 Event.finish_stop closed ≡ some stopped
unfolding scheduler after
closed_stops = refl

run-start-IsSound_example : IsSound 2 1 1 closed
run-start-IsSound_example = run-start-IsSound 2 1 1 (opening ++ closing) closed whole_runs

finish_stop_complete_example :
    ((id : ℕ) → count id (stopped.pools 1).accepted ≡ count id (stopped.pools 1).finished)
    × (0 < 1 → (stopped.pools 1).accepted ≡ (stopped.pools 1).finished)
finish_stop_complete_example =
    finish_stop_complete 2 1 1 (opening ++ closing) closed stopped whole_runs closed_stops 1
      (omega arith)

opened_quits : opened.quit ≡ true
unfolding scheduler after
opened_quits = refl

abbrev turned : Scheduler
turned = after (Event.work 0 0 Action.notices ∷ []) opened

opened_turns : step 2 1 (Event.work 0 0 Action.notices) opened ≡ some turned
unfolding scheduler after
opened_turns = refl

notices-ne-finish : Event.work 0 0 Action.notices ≢ Event.finish_stop
notices-ne-finish e = cc

stop_shrinks_example : work 1 turned < work 1 opened
stop_shrinks_example =
    stop_shrinks 2 1 1 opening opened turned (Event.work 0 0 Action.notices) opening_runs
      opened_quits opened_turns notices-ne-finish

stop_progresses_example :
    ((e : Event) × (y : Scheduler) × (step 2 1 e opened ≡ some y) × (work 1 y < work 1 opened))
    ⊎ ((y : Scheduler) × (step 2 1 Event.finish_stop opened ≡ some y) × (y.stopped ≡ true))
stop_progresses_example = stop_progresses 2 1 1 opening opened opening_runs opened_quits
