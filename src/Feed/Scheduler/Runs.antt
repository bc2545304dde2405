-- ===== src/Feed/Scheduler/Runs.antt =====
-- Runs of the scheduler of feed/scheduler.go, under any interleaving.
use mathlib.Core.List.{Perm}
use quicrtc.Prelude.{
  ◌+◌, ◌≡◌, refl, sym, ◌∙◌, subst, ◌⊎◌, inl, inr, List, Bool, true, ◌&&◌, ◌||◌, leb, if◌then◌else◌,
  length, length-append, append_assoc, Bool-cases, Option-cases, [], ◌∷◌, ◌++◌, append-nil, Option,
  none, some, arith,
}
use quicrtc.Feed.Scheduler.Heap.{WorkEntry}
use quicrtc.Feed.Scheduler.Heap.Order.{Gives, gives, Gives-value}
use quicrtc.Feed.Scheduler.{
  WorkItem, Scheduler, new_scheduler, start, close, watch, perform, Event, step, run_events,
  next_u64, priority_high_threshold,
}
use quicrtc.Feed.Scheduler.Laws.{
  accepted, accepted_by, numbered, in_hand, IsScheduler, Next, new_scheduler-IsScheduler,
  submit-Next, take-Next,
}

pub perform-idle : (s : Scheduler) → s.running ≡ none → perform s ≡ s
unfolding perform
perform-idle s idle = ground (arith, idle)

-- The state after do has returned.
abbrev pub done : WorkEntry → Scheduler → Scheduler
done item s =
    let high = leb item.priority priority_high_threshold in
    record s {
      high_prio_runs = if high then next_u64 s.high_prio_runs else s.high_prio_runs;
      low_prio_runs = if high then s.low_prio_runs else next_u64 s.low_prio_runs;
      ran = s.ran ++ item ∷ [];
      completed = next_u64 s.completed;
      running = none;
    }

pub perform-done :
    (s : Scheduler) (item : WorkEntry) → s.running ≡ some item → perform s ≡ done item s
unfolding perform
perform-done s item busy = ground (arith, busy)

done-IsScheduler :
    (acc : List WorkItem) (s : Scheduler) (item : WorkEntry)
    → IsScheduler acc s
    → s.running ≡ some item
    → IsScheduler acc (done item s)
done-IsScheduler acc s item v busy =
    let size : length (s.ran ++ item ∷ []) ≡ length s.ran + 1 = length-append s.ran (item ∷ []) in
    record {
      queue = v.queue;
      kept =
          subst (λ t. Perm t (numbered 0 acc)) (sym (append_assoc s.ran (item ∷ []) s.items))
            (subst
              (λ (r : Option WorkEntry). Perm (s.ran ++ (in_hand r ++ s.items)) (numbered 0 acc))
              busy v.kept);
      seq_counts = v.seq_counts;
      submitted_counts = v.submitted_counts;
      completed_counts = omega (arith, size, v.completed_counts);
      runs_count = elim (Bool-cases (leb item.priority priority_high_threshold)) [
        | inl high ↦ rw (high, size) (omega (arith, v.runs_count))
        | inr low ↦ rw (low, size) (omega (arith, v.runs_count))
      ];
      finished = elim v.finished [ inl e ↦ inl e | inr e ↦ absurd (cc (e.1, busy)) ];
    }

pub perform-IsScheduler :
    (acc : List WorkItem) (s : Scheduler) → IsScheduler acc s → IsScheduler acc (perform s)
perform-IsScheduler acc s v = elim (Option-cases s.running) [
  | inl idle ↦ rw (perform-idle s idle) v
  | inr (item, busy) ↦ rw (perform-done s item busy) (done-IsScheduler acc s item v busy)
]

-- A state that differs in its flags only, and is closed if the other was.
flags-IsScheduler :
    (acc : List WorkItem) (s : Scheduler) (started shutdown closed : Bool)
    → IsScheduler acc s
    → (closed ≡ true) ⊎ (closed ≡ s.closed)
    → IsScheduler acc (record s { started = started; shutdown = shutdown; closed = closed })
flags-IsScheduler acc s started shutdown closed v stays = record {
  queue = v.queue;
  kept = v.kept;
  seq_counts = v.seq_counts;
  submitted_counts = v.submitted_counts;
  completed_counts = v.completed_counts;
  runs_count = v.runs_count;
  finished = elim v.finished [
    | inl e ↦ inl e
    | inr (e, idle, shut) ↦ inr (e, idle, elim stays [ inl h ↦ h | inr h ↦ h ∙ shut ])
  ];
}

start-IsScheduler :
    (acc : List WorkItem) (s : Scheduler) → IsScheduler acc s → IsScheduler acc (start s)
unfolding start
start-IsScheduler acc s v = elim (Bool-cases s.started) [
  | inl old ↦ let e : start s ≡ s = ground (arith, old) in subst (IsScheduler acc) (sym e) v
  | inr new ↦
      let e : start s ≡ record s { started = true } = ground (arith, new) in
      subst (IsScheduler acc) (sym e)
        (flags-IsScheduler acc s true s.shutdown s.closed v (inr refl))
]

close-IsScheduler :
    (acc : List WorkItem) (s : Scheduler) → IsScheduler acc s → IsScheduler acc (close s)
unfolding close
close-IsScheduler acc s v = elim (Bool-cases s.shutdown) [
  | inl old ↦ let e : close s ≡ s = ground (arith, old) in subst (IsScheduler acc) (sym e) v
  | inr new ↦
      let e : close s ≡ record s { shutdown = true } = ground (arith, new) in
      subst (IsScheduler acc) (sym e) (flags-IsScheduler acc s s.started true s.closed v (inr refl))
]

watch-IsScheduler :
    (acc : List WorkItem) (b : Bool) (s : Scheduler)
    → IsScheduler acc s
    → IsScheduler acc (watch b s)
unfolding watch
watch-IsScheduler acc b s v = elim (Bool-cases (s.started && (b || s.shutdown))) [
  | inr sleeps ↦ let e : watch b s ≡ s = ground (arith, sleeps) in subst (IsScheduler acc) (sym e) v
  | inl wakes ↦
      let e : watch b s ≡ record s { closed = true } = ground (arith, wakes) in
      subst (IsScheduler acc) (sym e)
        (flags-IsScheduler acc s s.started s.shutdown true v (inl refl))
]

step-Next : (acc : List WorkItem) (e : Event) (s : Scheduler) → IsScheduler acc s → Next acc e s
unfolding step
step-Next acc (Event.submitting item) s v = submit-Next acc s item v
step-Next acc Event.starting s v = rw (append-nil acc) (gives (start-IsScheduler acc s v))
step-Next acc Event.closing s v = rw (append-nil acc) (gives (close-IsScheduler acc s v))
step-Next acc (Event.watching b) s v = rw (append-nil acc) (gives (watch-IsScheduler acc b s v))
step-Next acc Event.taking s v = rw (append-nil acc) (take-Next acc s v)
step-Next acc Event.performing s v = rw (append-nil acc) (gives (perform-IsScheduler acc s v))

pub run_events-IsScheduler :
    (acc : List WorkItem) (es : List Event) (s : Scheduler)
    → IsScheduler acc s
    → Gives (IsScheduler (acc ++ accepted es s)) (run_events es s)
unfolding run_events
run_events-IsScheduler acc [] s v = gives (subst (λ a. IsScheduler a s) (sym (append-nil acc)) v)
run_events-IsScheduler acc (e ∷ es) s v =
    let (s', moved, v') = Gives-value (step-Next acc e s v) in
    rw (run_events, moved, ← append_assoc acc (accepted_by e s) (accepted es s'))
      (run_events-IsScheduler (acc ++ accepted_by e s) es s' v')

-- Whatever the interleaving of calls of Submit, Start and Close with the watcher and the worker, the
-- scheduler does not panic, and loses and repeats nothing: the items that Submit accepted, numbered
-- in that order, are those that have run, the one in the worker's hand and those in the queue, each
-- once. The queue stays a heap, Submitted and Completed count the accepted items and those run, so
-- do the two priority counters together, modulo 2^64, and the worker returns only when the scheduler
-- is closed and nothing is left.
pub run_events-new_scheduler :
    (es : List Event)
    → Gives (IsScheduler (accepted es new_scheduler)) (run_events es new_scheduler)
run_events-new_scheduler es = run_events-IsScheduler [] es new_scheduler new_scheduler-IsScheduler
