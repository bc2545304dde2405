-- ===== src/Feed/Scheduler/Drain.antt =====
-- What the worker of feed/scheduler.go does once the scheduler is closed.
use mathlib.Core.Bool.{Bool-set}
use mathlib.Core.List.{Perm}
use mathlib.Core.List.Perm
use quicrtc.Prelude.{
  ℕ, zero, suc, ◌<◌, ◌≡◌, refl, sym, ap, ◌∙◌, inl, inr, List, true, false, not, ◌||◌, if◌then◌else◌,
  length, nil_of_length, append_assoc, append-nil, All, All-Perm, Option-cases, [], ◌∷◌, ◌++◌,
  Option, none, some, some-injective, subst, arith,
}
use quicrtc.Feed.Scheduler.Heap.{WorkEntry, before, heap_pop}
use quicrtc.Feed.Scheduler.Heap.Order.{Gives, gives, Gives-value}
use quicrtc.Feed.Scheduler.Heap.Laws.{IsQueue, heap_pop-Popped}
use quicrtc.Feed.Scheduler.{WorkItem, Scheduler, new_scheduler, perform, Event, step, run_events}
use quicrtc.Feed.Scheduler.Laws.{accepted, numbered, in_hand, IsScheduler, take-ends, take-pops}
use quicrtc.Feed.Scheduler.Runs.{perform-idle, done, perform-done, run_events-new_scheduler}

-- No entry is before one that comes earlier: lower priority numbers first, and the entries of one
-- priority by their seq.
abbrev pub InOrder : List WorkEntry → Type 0
InOrder [] = Unit
InOrder (x ∷ xs) = All (λ y. before y x ≡ false) xs × InOrder xs

-- The worker, left to itself, for so many items: it takes and runs each, and looks once more.
abbrev pub worker_rounds : ℕ → List Event
worker_rounds zero = Event.taking ∷ []
worker_rounds (suc n) = Event.taking ∷ Event.performing ∷ worker_rounds n

-- The worker has returned, after it ran what was in its hand and then the queue, in order.
pub record Drained (s s' : Scheduler) : Type 0 where
  pub rest : List WorkEntry
  pub ran_all : s'.ran ≡ s.ran ++ (in_hand s.running ++ rest)
  pub sorted : InOrder rest
  pub same : Perm rest s.items
  pub emptied : (s'.items ≡ []) × (s'.running ≡ none)
  pub over : s'.exited ≡ true

-- The worker is between two items, and the scheduler is closed.
record Closing (s : Scheduler) : Type 0 where
  queue : IsQueue s.items
  idle : s.running ≡ none
  there : (not s.started || s.exited) ≡ false
  shut : s.closed ≡ true

last_look :
    (s : Scheduler)
    → Closing s
    → s.items ≡ []
    → run_events (worker_rounds 0) s ≡ some (record s { exited = true })
unfolding run_events step
last_look s c empty =
    let e : (if s.closed then record s { exited = true } else s) ≡ record s { exited = true } =
      ground (arith, c.shut) in
    rw (take-ends s c.idle c.there empty, e) refl

-- The state after an item has been taken and run.
abbrev after : Scheduler → WorkEntry → List WorkEntry → Scheduler
after s item items = done item (record s { items = items; running = some item })

one_round :
    (s : Scheduler) (n : ℕ) (item : WorkEntry) (items : List WorkEntry)
    → Closing s
    → 0 < length s.items
    → heap_pop s.items ≡ some (item, items)
    → run_events (worker_rounds (suc n)) s ≡ run_events (worker_rounds n) (after s item items)
unfolding run_events step
one_round s n item items c pos e =
    let taken : Scheduler = record s { items = items; running = some item } in
    let p : perform taken ≡ after s item items = perform-done taken item refl in
    rw (take-pops s item items c.idle c.there pos e, p) refl

drain :
    (n : ℕ) (s : Scheduler)
    → length s.items ≡ n
    → Closing s
    → Gives (Drained s) (run_events (worker_rounds n) s)
drain zero s size c =
    let empty = nil_of_length s.items size in
    rw (last_look s c empty) (
      gives record {
        rest = [];
        ran_all = rw c.idle (sym (append-nil s.ran));
        sorted = tt;
        same = rw empty Perm.nil;
        emptied = (empty, c.idle);
        over = refl;
      })
drain (suc n) s size c =
    let pos : 0 < length s.items = omega (arith, size) in
    let ((item, items), e, p) = Gives-value (heap_pop-Popped s.items c.queue pos) in
    let next = after s item items in
    let closing : Closing next = record {
      queue = p.queue;
      idle = refl;
      there = c.there;
      shut = c.shut;
    } in
    let (end, ran, d) = Gives-value (drain n next (omega (arith, size, p.size)) closing) in
    let taken = Perm.trans (Perm.cons item d.same) p.same in
    let sorted =
      All-Perm (λ y. before y item ≡ false) (λ y. Bool-set _ _) d.rest items d.same p.first in
    rw (one_round s n item items c pos e, ran)
      (gives record {
        rest = item ∷ d.rest;
        ran_all =
            d.ran_all
            ∙ append_assoc s.ran (item ∷ []) d.rest
            ∙ ap (λ (r : Option WorkEntry). s.ran ++ (in_hand r ++ (item ∷ d.rest))) (sym c.idle);
        sorted = (sorted, d.sorted);
        same = taken;
        emptied = d.emptied;
        over = d.over;
      })

-- The worker finishes what is in its hand, if there is something.
finish-Drained :
    (acc : List WorkItem) (s : Scheduler)
    → IsScheduler acc s
    → s.started ≡ true
    → s.closed ≡ true
    → s.exited ≡ false
    → Gives (Drained s) (run_events (Event.performing ∷ worker_rounds (length s.items)) s)
unfolding run_events step
finish-Drained acc s v started shut working = elim (Option-cases s.running) [
  | inl idle ↦
      let e = perform-idle s idle in
      let c : Closing s = record {
        queue = v.queue;
        idle = idle;
        there = ground (arith, started, working);
        shut = shut;
      } in
      rw (run_events, e) (drain (length s.items) s refl c)
  | inr (item, busy) ↦
      let next = done item s in
      let c : Closing next = record {
        queue = v.queue;
        idle = refl;
        there = ground (arith, started, working);
        shut = shut;
      } in
      let (end, ran, d) = Gives-value (drain (length s.items) next refl c) in
      rw (run_events, perform-done s item busy, ran)
        (gives record {
          rest = d.rest;
          ran_all =
              d.ran_all
              ∙ append_assoc s.ran (item ∷ []) d.rest
              ∙ ap (λ (r : Option WorkEntry). s.ran ++ (in_hand r ++ d.rest)) (sym busy);
          sorted = d.sorted;
          same = d.same;
          emptied = d.emptied;
          over = d.over;
        })
]

-- Once the scheduler is started and marked closed, whatever happened before, the worker left to
-- itself returns: after what is in its hand it runs every queued item in order, the lower priority
-- numbers first and the items of one priority as they were accepted (up to 2^64 of them). Then no
-- item that Submit ever accepted has been left out or run twice.
pub worker_rounds-Drained :
    (es : List Event) (s : Scheduler)
    → run_events es new_scheduler ≡ some s
    → s.started ≡ true
    → s.closed ≡ true
    → s.exited ≡ false
    → Gives
        (λ s'. Drained s s' × Perm s'.ran (numbered 0 (accepted es new_scheduler)))
        (run_events (Event.performing ∷ worker_rounds (length s.items)) s)
worker_rounds-Drained es s reached started shut working =
    let acc = accepted es new_scheduler in
    let (s₁, e, v₁) = Gives-value (run_events-new_scheduler es) in
    let v : IsScheduler acc s =
      subst (IsScheduler acc) (some-injective s₁ s (sym e ∙ reached)) v₁ in
    let (s', ran, d) = Gives-value (finish-Drained acc s v started shut working) in
    let all = Perm.append_left s.ran (Perm.append_left (in_hand s.running) d.same) in
    rw ran (gives (d, subst (λ r. Perm r (numbered 0 acc)) (sym d.ran_all) (Perm.trans all v.kept)))
