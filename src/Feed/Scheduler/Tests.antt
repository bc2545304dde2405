-- ===== src/Feed/Scheduler/Tests.antt =====
-- Runs of the scheduler of feed/scheduler.go: five items, two of them urgent.
use mathlib.Core.List.{Perm}
use quicrtc.Prelude.{
  ℕ, ◌≡◌, refl, List, true, false, length, [], ◌∷◌, Option, none, some, map, arith,
}
use quicrtc.Feed.Scheduler.Heap.{
  WorkEntry, before, less, swap, pop_last, child, up, down, heap_push, heap_pop,
}
use quicrtc.Feed.Scheduler.Heap.Order.{Gives, Gives-some}
use quicrtc.Feed.Scheduler.Heap.Laws.{Popped, heap_pop-Popped}
use quicrtc.Feed.Scheduler.{
  WorkItem, Scheduler, new_scheduler, submit, start, close, watch, take_item, perform, Event, step,
  run_events,
}
use quicrtc.Feed.Scheduler.Laws.{accepted, numbered, IsScheduler}
use quicrtc.Feed.Scheduler.Runs.{run_events-new_scheduler}
use quicrtc.Feed.Scheduler.Drain.{worker_rounds, Drained, worker_rounds-Drained}

abbrev item : ℕ → ℕ → WorkItem
item priority work = record { priority = priority; work = work }

abbrev calls : List Event
calls =
    Event.starting
    ∷ Event.submitting (item 5 10)
    ∷ Event.submitting (item 2 11)
    ∷ Event.taking
    ∷ Event.submitting (item 5 12)
    ∷ Event.submitting (item 2 13)
    ∷ Event.submitting (item 0 14)
    ∷ Event.closing
    ∷ Event.watching false
    ∷ Event.submitting (item 0 15)
    ∷ []

works : Option Scheduler → List ℕ
works none = []
works (some s) = map (λ (x : WorkEntry). x.work) s.ran

reached : Option Scheduler
reached = run_events calls new_scheduler

abbrev entry : ℕ → ℕ → ℕ → WorkEntry
entry priority seq work = record { priority = priority; seq = seq; work = work }

abbrev state : Scheduler
state = record {
  items = entry 0 5 14 ∷ entry 2 4 13 ∷ entry 5 1 10 ∷ entry 5 3 12 ∷ [];
  seq = 5;
  closed = true;
  started = true;
  shutdown = true;
  submitted = 5;
  completed = 0;
  high_prio_runs = 0;
  low_prio_runs = 0;
  running = some (entry 2 2 11);
  exited = false;
  ran = [];
}

calls-state : run_events calls new_scheduler ≡ some state
unfolding run_events step new_scheduler submit start close watch take_item heap_push heap_pop up
    down less swap pop_last child before
calls-state = refl

in_order :
    works (run_events (Event.performing ∷ worker_rounds 4) state) ≡ 11 ∷ 14 ∷ 13 ∷ 10 ∷ 12 ∷ []
unfolding works run_events step take_item perform heap_pop down less swap pop_last child before
in_order = refl

run_events-new_scheduler_example :
    Gives (IsScheduler (accepted calls new_scheduler)) (run_events calls new_scheduler)
run_events-new_scheduler_example = run_events-new_scheduler calls

worker_rounds-Drained_example :
    Gives
      (λ s'. Drained state s' × Perm s'.ran (numbered 0 (accepted calls new_scheduler)))
      (run_events (Event.performing ∷ worker_rounds (length state.items)) state)
worker_rounds-Drained_example = worker_rounds-Drained calls state calls-state refl refl refl

state-IsScheduler : IsScheduler (accepted calls new_scheduler) state
state-IsScheduler = Gives-some (rw calls-state at (run_events-new_scheduler calls))

heap_pop-Popped_example : Gives (Popped state.items) (heap_pop state.items)
heap_pop-Popped_example = heap_pop-Popped state.items state-IsScheduler.queue (omega arith)
