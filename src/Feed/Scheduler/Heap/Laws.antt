-- ===== src/Feed/Scheduler/Heap/Laws.antt =====
-- heap.Push and heap.Pop on workHeap (feed/scheduler.go).
use mathlib.Core.List.{Perm}
use mathlib.Core.List.Perm
use mathlib.Core.Bool.{Bool-set}
use quicrtc.Prelude.{
  ℕ, suc, ◌-◌, ◌<◌, ◌≡◌, sym, ◌∙◌, subst, List, false, length, take, length-take, length-append,
  All, All-Perm, append_one-Perm, [], ◌∷◌, arith,
}
use quicrtc.Feed.Scheduler.Heap.{WorkEntry, before, heap_push, heap_pop}
use quicrtc.Feed.Scheduler.Heap.Slots.{
  slot, exchange, length-exchange, swap-exchange, slot-exchange, exchange-Perm, slot-take,
  take-slot, pop_last-slot,
}
use quicrtc.Feed.Scheduler.Heap.Order.{
  Fits, AllFit, before-rank, above, IsHeap, Settled, Gives, gives, Gives-value, root_least,
}
use quicrtc.Feed.Scheduler.Heap.Up.{heap_push-Settled}
use quicrtc.Feed.Scheduler.Heap.Down.{Sinking, down-Settled}

-- What the scheduler's items always are: in heap order, with each seq a uint64.
pub record IsQueue (h : List WorkEntry) : Type 0 where
  pub heap : IsHeap (length h) h
  pub fit : AllFit h

pub nil-IsQueue : IsQueue []
nil-IsQueue = record { heap = λ c p q. absurd (omega arith); fit = λ i p. absurd (omega arith) }

All-slot {κ} :
    (P : WorkEntry → Type κ) (h : List WorkEntry)
    → ((i : ℕ) → i < length h → P (slot h i))
    → All P h
unfolding slot
All-slot P [] f = tt
All-slot P (x ∷ h) f = (f 0 (omega arith), All-slot P h (λ i p. f (suc i) (omega arith)))

-- A queue with the entry, and no other change.
pub record Pushed (h : List WorkEntry) (x : WorkEntry) (g : List WorkEntry) : Type 0 where
  pub queue : IsQueue g
  pub same : Perm g (x ∷ h)
  pub size : length g ≡ suc (length h)

pub heap_push-Pushed :
    (h : List WorkEntry) (x : WorkEntry) → IsQueue h → Fits x → Gives (Pushed h x) (heap_push h x)
heap_push-Pushed h x v p =
    let (g, e, s) = Gives-value (heap_push-Settled h x v.heap v.fit p) in
    rw e (
      gives record {
        queue = record { heap = subst (λ n. IsHeap n g) (sym s.size) s.heap; fit = s.fit };
        same = Perm.trans s.same (append_one-Perm h x);
        size = omega (arith, s.size, length-append h (x ∷ []));
      })

-- An entry that no other is before, and a queue of the others.
pub record Popped (h : List WorkEntry) (r : WorkEntry × List WorkEntry) : Type 0 where
  pub queue : IsQueue r.1
  pub same : Perm (r.0 ∷ r.1) h
  pub first : All (λ x. before x r.0 ≡ false) r.1
  pub fits : Fits r.0
  pub size : length h ≡ suc (length r.1)

module _ (h : List WorkEntry) (n : ℕ) (size : length h ≡ suc n) (v : IsQueue h) where
  abbrev cut : List WorkEntry
  cut = exchange h 0 n

  cut-Sinking : Sinking n cut 0
  cut-Sinking =
      let same = length-exchange h 0 n in
      let at = slot-exchange h 0 n (omega arith) (omega arith) in
      record {
        bound = omega arith;
        fit = λ i p. ground (arith, at i, v.fit i, v.fit 0, v.fit n);
        others = λ c p q r. ground (arith, at c, at (above c), v.heap c p);
        across = λ c p q r s. absurd (omega arith);
      }

  popped : (g : List WorkEntry) → Settled n cut g → Popped h (slot g n, take n g)
  popped g s =
      let long : length g ≡ suc n = s.size ∙ length-exchange h 0 n ∙ size in
      let short : length (take n g) ≡ n = omega (arith, length-take n g) in
      let least : slot g n ≡ slot h 0 =
        ground (arith, s.rest n, slot-exchange h 0 n (omega arith) (omega arith) n) in
      let at = slot-take n g in
      let fits : Fits (slot g n) = s.fit n (omega arith) in
      let perm : Perm (slot g n ∷ take n g) g =
        subst (λ t. Perm (slot g n ∷ take n g) t) (take-slot n g long)
          (Perm.symm (append_one-Perm (take n g) (slot g n))) in
      let whole =
        Perm.trans perm (Perm.trans s.same (exchange-Perm h 0 n (omega arith) (omega arith))) in
      let root : (i : ℕ) → i < length h → before (slot h i) (slot g n) ≡ false = λ i p.
        rw (before-rank (slot h i) (slot g n) (v.fit i p) fits)
          (ground (arith, least, root_least (length h) h i v.heap p)) in
      record {
        queue = record {
          heap = λ c p q. ground (arith, short, at c, at (above c), s.heap c p);
          fit = λ i p. ground (arith, short, at i, s.fit i);
        };
        same = whole;
        first =
            (All-Perm (λ x. before x (slot g n) ≡ false) (λ x. Bool-set _ _) (slot g n ∷ take n g) h
              whole (All-slot (λ x. before x (slot g n) ≡ false) h root)).1;
        fits = fits;
        size = omega arith;
      }

-- From a queue that is a heap, with entries of which the fields fit, heap.Pop takes without a panic
-- an entry that no other is before: the lowest priority number, and of these the first accepted. The
-- others are left, each once, and they are a heap again.
pub heap_pop-Popped :
    (h : List WorkEntry) → IsQueue h → 0 < length h → Gives (Popped h) (heap_pop h)
unfolding heap_pop
heap_pop-Popped h v p =
    let n = length h - 1 in
    let size : length h ≡ suc n = omega arith in
    let (g, e, s) =
      Gives-value
        (down-Settled (length h) n (exchange h 0 n) 0 (omega arith) p (cut-Sinking h n size v)) in
    rw
      (
        heap_pop,
        swap-exchange h 0 n p (omega arith),
        e,
        pop_last-slot g n (s.size ∙ length-exchange h 0 n ∙ size),
      )
      (gives (popped h n size v g s))
