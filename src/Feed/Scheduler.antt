-- ===== src/Feed/Scheduler.antt =====
-- The priority scheduler of feed/scheduler.go. What its goroutines do comes as a list of events: a
-- call of Submit, Start or Close, the watcher's wakening, the worker's section under the lock, and
-- the worker's call of do with what surrounds it. Signals of the condition variable have no part in
-- it: a worker that has nothing to do is an event that changes nothing.
pub mod Heap
pub mod Laws
pub mod Runs
pub mod Drain
mod Tests
use quicrtc.Prelude.{
  ℕ, ◌+◌, ◌%◌, ◌^◌, List, Bool, true, false, not, ◌&&◌, ◌||◌, ◌==◌, leb, if◌then◌else◌, length, [],
  ◌∷◌, ◌++◌, Option, none, some,
}
use quicrtc.Feed.Scheduler.Heap.{WorkEntry, ◌>>=◌, heap_push, heap_pop}

pub record WorkItem : Type 0 where
  pub priority : ℕ
  pub work : ℕ

-- SchedulerPriorityHighThreshold
abbrev pub priority_high_threshold : ℕ
priority_high_threshold = 2

-- A counter or seq, a uint64.
abbrev pub next_u64 : ℕ → ℕ
next_u64 n = (n + 1) % 2 ^ 64

-- `shutdown` says whether the channel is closed. `running` is the worker's item between the lock and
-- the end of do, `exited` says that run has returned, and `ran` lists the items whose do was called.
pub record Scheduler : Type 0 where
  pub items : List WorkEntry
  pub seq : ℕ
  pub closed : Bool
  pub started : Bool
  pub shutdown : Bool
  pub submitted : ℕ
  pub completed : ℕ
  pub high_prio_runs : ℕ
  pub low_prio_runs : ℕ
  pub running : Option WorkEntry
  pub exited : Bool
  pub ran : List WorkEntry

-- NewScheduler
unfoldable pub new_scheduler : Scheduler
new_scheduler = record {
  items = [];
  seq = 0;
  closed = false;
  started = false;
  shutdown = false;
  submitted = 0;
  completed = 0;
  high_prio_runs = 0;
  low_prio_runs = 0;
  running = none;
  exited = false;
  ran = [];
}

-- Submit, and what it returns.
unfoldable pub submit : WorkItem → Scheduler → Option (Scheduler × Bool)
submit item s =
    let entry : WorkEntry = record {
      priority = item.priority;
      seq = next_u64 s.seq;
      work = item.work;
    } in
    if s.closed
    then some (s, false)
    else (heap_push s.items entry >>= λ items.
        some (
          record s { submitted = next_u64 s.submitted; seq = next_u64 s.seq; items = items },
          true,
        ))

-- Start; the goroutines that it launches are the events below.
unfoldable pub start : Scheduler → Scheduler
start s = if s.started then s else record s { started = true }

-- Close
unfoldable pub close : Scheduler → Scheduler
close s = if s.shutdown then s else record s { shutdown = true }

-- The watcher that run launches, when ctx is done or the channel is closed.
unfoldable pub watch : Bool → Scheduler → Scheduler
watch ctx_done s = if s.started && (ctx_done || s.shutdown) then record s { closed = true } else s

-- The worker's section under the lock: wait, return, or take an item. It is there only if it has
-- been started, has not returned and has no item in hand.
unfoldable pub take_item : Scheduler → Option Scheduler
take_item s =
    let popped = heap_pop s.items >>= λ (item, items).
    let s' : Scheduler = record s { items = items; running = some item } in some s' in
    elim s.running [
      | some item ↦ some s
      | none ↦
          if not s.started || s.exited
          then some s
          else if length s.items == 0
          then some (if s.closed then record s { exited = true } else s)
          else popped
    ]

-- The rest of the worker's round.
unfoldable pub perform : Scheduler → Scheduler
perform s = elim s.running [
  | none ↦ s
  | some item ↦
      let high = leb item.priority priority_high_threshold in
      record s {
        high_prio_runs = if high then next_u64 s.high_prio_runs else s.high_prio_runs;
        low_prio_runs = if high then s.low_prio_runs else next_u64 s.low_prio_runs;
        ran = s.ran ++ item ∷ [];
        completed = next_u64 s.completed;
        running = none;
      }
]

pub data Event : Type 0 where
  submitting : WorkItem → Event
  starting closing : Event
  watching : Bool → Event
  taking performing : Event

unfoldable pub step : Event → Scheduler → Option Scheduler
step (Event.submitting item) s = submit item s >>= λ (s', accepted). some s'
step Event.starting s = some (start s)
step Event.closing s = some (close s)
step (Event.watching ctx_done) s = some (watch ctx_done s)
step Event.taking s = take_item s
step Event.performing s = some (perform s)

unfoldable pub run_events : List Event → Scheduler → Option Scheduler
run_events [] s = some s
run_events (e ∷ es) s = step e s >>= λ s'. run_events es s'
