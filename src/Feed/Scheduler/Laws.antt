-- ===== src/Feed/Scheduler/Laws.antt =====
-- Runs of the scheduler of feed/scheduler.go, under any interleaving.
use mathlib.Core.List.{Perm, perm_middle}
use mathlib.Core.List.Perm
use quicrtc.Prelude.{
  ℕ, suc, ◌+◌, ◌%◌, ◌^◌, ◌<◌, ◌≡◌, refl, sym, subst, ◌⊎◌, inl, inr, List, true, false, not, ◌||◌,
  ◌==◌, if◌then◌else◌, length, length-append, append_one-Perm, Bool-cases, Option-cases, List-cases,
  [], ◌∷◌, ◌++◌, append-nil, Option, none, some, arith,
}
use quicrtc.Feed.Scheduler.Heap.{WorkEntry, heap_push, heap_pop}
use quicrtc.Feed.Scheduler.Heap.Order.{Gives, gives, Gives-value}
use quicrtc.Feed.Scheduler.Heap.Laws.{
  IsQueue, nil-IsQueue, Pushed, heap_push-Pushed, Popped, heap_pop-Popped,
}
use quicrtc.Feed.Scheduler.{
  WorkItem, Scheduler, new_scheduler, submit, take_item, Event, step, next_u64,
}

-- The items that Submit accepts in a run: those that come before the scheduler is marked closed.
abbrev pub accepted_by : Event → Scheduler → List WorkItem
accepted_by (Event.submitting item) s = if s.closed then [] else item ∷ []
accepted_by e s = []

abbrev pub accepted : List Event → Scheduler → List WorkItem
accepted [] s = []
accepted (e ∷ es) s = accepted_by e s ++ (elim (step e s) [ none ↦ [] | some s' ↦ accepted es s' ])

abbrev numbered_entry : ℕ → WorkItem → WorkEntry
numbered_entry k x = record { priority = x.priority; seq = (k + 1) % 2 ^ 64; work = x.work }

-- The entries of the accepted items: the k-th has the seq k, a uint64.
abbrev pub numbered : ℕ → List WorkItem → List WorkEntry
numbered k [] = []
numbered k (x ∷ xs) = numbered_entry k x ∷ numbered (k + 1) xs

numbered-append :
    (k : ℕ) (xs : List WorkItem) (x : WorkItem)
    → numbered k (xs ++ x ∷ []) ≡ numbered k xs ++ numbered_entry (k + length xs) x ∷ []
numbered-append k [] x = ground arith
numbered-append k (y ∷ xs) x =
    let e : k + 1 + length xs ≡ k + suc (length xs) = omega arith in
    rw (numbered-append (k + 1) xs x, e)

numbered_last :
    (xs : List WorkItem) (x : WorkItem)
    → numbered 0 (xs ++ x ∷ []) ≡ numbered 0 xs ++ numbered_entry (length xs) x ∷ []
numbered_last xs x =
    let e : 0 + length xs ≡ length xs = omega arith in rw (numbered-append 0 xs x, e)

abbrev pub in_hand : Option WorkEntry → List WorkEntry
in_hand none = []
in_hand (some x) = x ∷ []

-- The state after `acc` has been accepted: the queue is in order, each entry accepted is run, in
-- hand or in the queue, once, and the counters count.
pub record IsScheduler (acc : List WorkItem) (s : Scheduler) : Type 0 where
  pub queue : IsQueue s.items
  pub kept : Perm (s.ran ++ (in_hand s.running ++ s.items)) (numbered 0 acc)
  pub seq_counts : s.seq ≡ length acc % 2 ^ 64
  pub submitted_counts : s.submitted ≡ length acc % 2 ^ 64
  pub completed_counts : s.completed ≡ length s.ran % 2 ^ 64
  pub runs_count : (s.high_prio_runs + s.low_prio_runs) % 2 ^ 64 ≡ length s.ran % 2 ^ 64
  pub finished : (s.exited ≡ false) ⊎ ((s.items ≡ []) × (s.running ≡ none) × (s.closed ≡ true))

pub new_scheduler-IsScheduler : IsScheduler [] new_scheduler
unfolding new_scheduler
new_scheduler-IsScheduler = record {
  queue = nil-IsQueue;
  kept = Perm.nil;
  seq_counts = omega arith;
  submitted_counts = omega arith;
  completed_counts = omega arith;
  runs_count = omega arith;
  finished = inl refl;
}

kept-push :
    (ran hand items items' acc : List WorkEntry) (x : WorkEntry)
    → Perm (ran ++ (hand ++ items)) acc
    → Perm items' (x ∷ items)
    → Perm (ran ++ (hand ++ items')) (acc ++ x ∷ [])
kept-push ran hand items items' acc x p q =
    let inner = Perm.trans (Perm.append_left hand q) (perm_middle {a = x} hand items) in
    let outer = Perm.trans (Perm.append_left ran inner) (perm_middle {a = x} ran (hand ++ items)) in
    Perm.trans outer (Perm.trans (Perm.cons x p) (Perm.symm (append_one-Perm acc x)))

abbrev entry_of : WorkItem → Scheduler → WorkEntry
entry_of item s = record { priority = item.priority; seq = next_u64 s.seq; work = item.work }

submitted-IsScheduler :
    (acc : List WorkItem) (s : Scheduler) (item : WorkItem) (items : List WorkEntry)
    → IsScheduler acc s
    → s.closed ≡ false
    → Pushed s.items (entry_of item s) items
    → IsScheduler
        (acc ++ item ∷ [])
        (record s { submitted = next_u64 s.submitted; seq = next_u64 s.seq; items = items })
submitted-IsScheduler acc s item items v open_ p =
    let size : length (acc ++ item ∷ []) ≡ suc (length acc) =
      omega (arith, length-append acc (item ∷ [])) in
    let e : next_u64 s.seq ≡ (length acc + 1) % 2 ^ 64 = omega (arith, v.seq_counts) in
    record {
      queue = p.queue;
      kept =
          subst (λ t. Perm (s.ran ++ (in_hand s.running ++ items)) t) (sym (numbered_last acc item))
            (kept-push s.ran (in_hand s.running) s.items items (numbered 0 acc)
              (numbered_entry (length acc) item) v.kept
              (subst (λ n. Perm items (record (entry_of item s) { seq = n } ∷ s.items)) e p.same));
      seq_counts = omega (arith, size, v.seq_counts);
      submitted_counts = omega (arith, size, v.submitted_counts);
      completed_counts = v.completed_counts;
      runs_count = v.runs_count;
      finished = elim v.finished [ inl e ↦ inl e | inr e ↦ absurd (cc (e.2, open_)) ];
    }

-- What a step makes of the state.
abbrev pub Next : List WorkItem → Event → Scheduler → Type 0
Next acc e s = Gives (IsScheduler (acc ++ accepted_by e s)) (step e s)

submit-refused :
    (item : WorkItem) (s : Scheduler) → s.closed ≡ true → submit item s ≡ some (s, false)
unfolding submit
submit-refused item s shut = ground (arith, shut)

submit-pushed :
    (item : WorkItem) (s : Scheduler) (items : List WorkEntry)
    → s.closed ≡ false
    → heap_push s.items (entry_of item s) ≡ some items
    → submit item s
      ≡ some
          (record s { submitted = next_u64 s.submitted; seq = next_u64 s.seq; items = items }, true)
unfolding submit
submit-pushed item s items open_ pushed = ground (arith, open_, pushed)

pub submit-Next :
    (acc : List WorkItem) (s : Scheduler) (item : WorkItem)
    → IsScheduler acc s
    → Next acc (Event.submitting item) s
unfolding step
submit-Next acc s item v = elim (Bool-cases s.closed) [
  | inl shut ↦
      let none_new : accepted_by (Event.submitting item) s ≡ [] = ground (arith, shut) in
      rw (submit-refused item s shut, none_new)
        (gives (subst (λ a. IsScheduler a s) (sym (append-nil acc)) v))
  | inr open_ ↦
      let (items, pushed, p) =
        Gives-value (heap_push-Pushed s.items (entry_of item s) v.queue (omega arith)) in
      let one_new : accepted_by (Event.submitting item) s ≡ item ∷ [] = ground (arith, open_) in
      rw (submit-pushed item s items open_ pushed, one_new)
        (gives (submitted-IsScheduler acc s item items v open_ p))
]

take-waits : (s : Scheduler) → (not s.started || s.exited) ≡ true → take_item s ≡ some s
unfolding take_item
take-waits s away = ground (arith, away)

pub take-busy : (s : Scheduler) (item : WorkEntry) → s.running ≡ some item → take_item s ≡ some s
unfolding take_item
take-busy s item busy = ground (arith, busy)

pub take-ends :
    (s : Scheduler)
    → s.running ≡ none
    → (not s.started || s.exited) ≡ false
    → s.items ≡ []
    → take_item s ≡ some (if s.closed then record s { exited = true } else s)
unfolding take_item
take-ends s idle there empty =
    let zero_left : (length s.items == 0) ≡ true = ground (arith, empty) in
    ground (arith, idle, there, zero_left)

pub take-pops :
    (s : Scheduler) (item : WorkEntry) (items : List WorkEntry)
    → s.running ≡ none
    → (not s.started || s.exited) ≡ false
    → 0 < length s.items
    → heap_pop s.items ≡ some (item, items)
    → take_item s ≡ some (record s { items = items; running = some item })
unfolding take_item
take-pops s item items idle there some_left e =
    let more : (length s.items == 0) ≡ false = ground (arith, some_left) in
    ground (arith, idle, there, more, e)

exited-IsScheduler :
    (acc : List WorkItem) (s : Scheduler)
    → IsScheduler acc s
    → s.items ≡ []
    → s.running ≡ none
    → IsScheduler acc (if s.closed then record s { exited = true } else s)
exited-IsScheduler acc s v empty idle = elim (Bool-cases s.closed) [
  | inr open_ ↦
      let e : (if s.closed then record s { exited = true } else s) ≡ s = ground (arith, open_) in
      subst (IsScheduler acc) (sym e) v
  | inl shut ↦
      let e : (if s.closed then record s { exited = true } else s) ≡ record s { exited = true } =
        ground (arith, shut) in
      subst (IsScheduler acc) (sym e) record {
        queue = v.queue;
        kept = v.kept;
        seq_counts = v.seq_counts;
        submitted_counts = v.submitted_counts;
        completed_counts = v.completed_counts;
        runs_count = v.runs_count;
        finished = inr (empty, idle, shut);
      }
]

take_head :
    (acc : List WorkItem) (s : Scheduler) (item : WorkEntry) (items : List WorkEntry)
    → IsScheduler acc s
    → s.running ≡ none
    → s.exited ≡ false
    → Popped s.items (item, items)
    → IsScheduler acc (record s { items = items; running = some item })
take_head acc s item items v idle working p = record {
  queue = p.queue;
  kept = Perm.trans (Perm.append_left s.ran p.same) (
      subst (λ (r : Option WorkEntry). Perm (s.ran ++ (in_hand r ++ s.items)) (numbered 0 acc)) idle
        v.kept);
  seq_counts = v.seq_counts;
  submitted_counts = v.submitted_counts;
  completed_counts = v.completed_counts;
  runs_count = v.runs_count;
  finished = inl working;
}

pub take-Next :
    (acc : List WorkItem) (s : Scheduler)
    → IsScheduler acc s
    → Gives (IsScheduler acc) (take_item s)
take-Next acc s v = elim (Option-cases s.running) [
  | inr (item, busy) ↦ rw (take-busy s item busy) (gives v)
  | inl idle ↦ elim (Bool-cases (not s.started || s.exited)) [
    | inl away ↦ rw (take-waits s away) (gives v)
    | inr there ↦ elim (List-cases s.items) [
      | inl empty ↦
          rw (take-ends s idle there empty) (gives (exited-IsScheduler acc s v empty idle))
      | inr (x, xs, more) ↦
          let pos : 0 < length s.items = ground (arith, more) in
          let ((item, items), e, p) = Gives-value (heap_pop-Popped s.items v.queue pos) in
          rw (take-pops s item items idle there pos e)
            (gives (take_head acc s item items v idle (ground (arith, there)) p))
    ]
  ]
]
