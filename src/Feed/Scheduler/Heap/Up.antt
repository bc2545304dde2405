-- ===== src/Feed/Scheduler/Heap/Up.antt =====
-- The loop of heap.Push, which feed/scheduler.go calls from Submit.
use mathlib.Core.List.Perm
use quicrtc.Prelude.{
  ℕ, zero, suc, ◌≤◌, ◌<◌, ◌≡◌, refl, ◌∙◌, ◌≢◌, inl, inr, List, false, ltb, ◌==◌, length, Bool-cases,
  arith, some, sym, ltb→lt, lt→ltb, subst, length-append, [], ◌∷◌, ◌++◌,
}
use quicrtc.Feed.Scheduler.Heap.{WorkEntry, up, heap_push, ◌>>=◌}
use quicrtc.Feed.Scheduler.Heap.Slots.{
  slot, exchange, length-exchange, swap-exchange, slot-exchange, exchange-Perm, slot-append,
  slot-append_last,
}
use quicrtc.Feed.Scheduler.Heap.Order.{
  Fits, AllFit, rank_at, less-rank, above, IsHeap, Settled, Gives, gives, Gives-value,
}

-- All is in order but for the entry at j and the one above it.
record Rising (h : List WorkEntry) (j : ℕ) : Type 0 where
  inside : j < length h
  fit : AllFit h
  others : (c : ℕ) → 0 < c → c < length h → c ≢ j → rank_at h (above c) ≤ rank_at h c
  across : (c : ℕ) → 0 < c → c < length h → above c ≡ j → 0 < j → rank_at h (above j) ≤ rank_at h c

rise :
    (h : List WorkEntry) (j : ℕ)
    → Rising h j
    → 0 < j
    → rank_at h j < rank_at h (above j)
    → Rising (exchange h (above j) j) (above j)
rise h j v pos low =
    let same = length-exchange h (above j) j in
    let top : above j < length h = omega (arith, v.inside) in
    let at = slot-exchange h (above j) j top v.inside in
    record {
      inside = omega (arith, same);
      fit = λ i p. ground (arith, at i, same, v.fit i, v.fit j v.inside, v.fit (above j) top);
      others = λ c p q r. ground (arith, same, at c, at (above c), v.others c p, v.across c p);
      across = λ c p q r s. ground (
        arith,
        same,
        at c,
        at (above (above j)),
        v.others c p,
        v.others (above j) s,
        v.across c p,
      );
    }

Settled-after :
    (h : List WorkEntry) (i j : ℕ) (p : i < length h) (q : j < length h) (g : List WorkEntry)
    → Settled (length h) (exchange h i j) g
    → Settled (length h) h g
Settled-after h i j p q g s = record {
  heap = s.heap;
  same = Perm.trans s.same (exchange-Perm h i j p q);
  size = s.size ∙ length-exchange h i j;
  fit = s.fit;
  rest = λ k r. ground (arith, s.rest k r, slot-exchange h i j p q k);
}

settle : (h : List WorkEntry) (j : ℕ) → Rising h j → IsHeap (length h) h → Settled (length h) h h
settle h j v k = record { heap = k; same = Perm.rfl; size = refl; fit = v.fit; rest = λ i p. refl }

up-root : (fuel : ℕ) (h : List WorkEntry) (j : ℕ) → above j ≡ j → up (suc fuel) h j ≡ some h
unfolding up
up-root fuel h j e = ground (arith, e)

up-moves :
    (fuel : ℕ) (h : List WorkEntry) (j : ℕ)
    → Rising h j
    → 0 < j
    → rank_at h j < rank_at h (above j)
    → up (suc fuel) h j ≡ up fuel (exchange h (above j) j) (above j)
unfolding up
up-moves fuel h j v pos low =
    let top : above j < length h = omega (arith, v.inside) in
    let inner : (above j == j) ≡ false = ground (arith, pos) in
    rw (
      up,
      inner,
      less-rank h j (above j) v.fit v.inside top,
      lt→ltb _ _ low,
      swap-exchange h (above j) j top v.inside,
    )

up-stays :
    (fuel : ℕ) (h : List WorkEntry) (j : ℕ)
    → Rising h j
    → 0 < j
    → rank_at h (above j) ≤ rank_at h j
    → up (suc fuel) h j ≡ some h
unfolding up
up-stays fuel h j v pos high =
    let top : above j < length h = omega (arith, v.inside) in
    let inner : (above j == j) ≡ false = ground (arith, pos) in
    let no_swap : ltb (rank_at h j) (rank_at h (above j)) ≡ false = ground (arith, high) in
    rw (up, inner, less-rank h j (above j) v.fit v.inside top, no_swap, ◌>>=◌)

up-Settled :
    (fuel : ℕ) (h : List WorkEntry) (j : ℕ)
    → j < fuel
    → Rising h j
    → Gives (Settled (length h) h) (up fuel h j)
up-Settled zero h j f v = absurd (omega arith)
up-Settled (suc fuel) h j f v = elim (Bool-cases (ltb 0 j)) [
  | inr root ↦
      rw (up-root fuel h j (ground (arith, root)))
        (gives (settle h j v (λ c p q. v.others c p q (ground (arith, root)))))
  | inl inner ↦
      let pos : 0 < j = ground (arith, inner) in
      let top : above j < length h = omega (arith, v.inside) in
      elim (Bool-cases (ltb (rank_at h j) (rank_at h (above j)))) [
        | inl low ↦
            let lower : rank_at h j < rank_at h (above j) = ltb→lt _ _ low in
            let g = exchange h (above j) j in
            let same : length g ≡ length h = length-exchange h (above j) j in
            let (a, e, s) =
              Gives-value (up-Settled fuel g (above j) (omega arith) (rise h j v pos lower)) in
            rw (up-moves fuel h j v pos lower, e)
              (gives
                (Settled-after h (above j) j top v.inside a (subst (λ n. Settled n g a) same s)))
        | inr high ↦
            let higher : rank_at h (above j) ≤ rank_at h j = ground (arith, high) in
            rw (up-stays fuel h j v pos higher)
              (gives (settle h j v (λ c p q. ground (arith, v.others c p q))))
      ]
]

-- heap.Push returns a heap of one entry more.
pub heap_push-Settled :
    (h : List WorkEntry) (x : WorkEntry)
    → IsHeap (length h) h
    → AllFit h
    → Fits x
    → Gives (Settled (length (h ++ x ∷ [])) (h ++ x ∷ [])) (heap_push h x)
unfolding heap_push
heap_push-Settled h x v fit new =
    let size : length (h ++ x ∷ []) ≡ suc (length h) = omega (arith, length-append h (x ∷ [])) in
    let old = slot-append h (x ∷ []) in
    let last = slot-append_last h x in
    up-Settled (suc (length h)) (h ++ x ∷ []) (length h) (omega arith) record {
      inside = omega (arith, size);
      fit = λ i p. elim (Bool-cases (ltb i (length h))) [
        | inl q ↦ ground (arith, old i, fit i, q)
        | inr q ↦ subst (λ k. Fits (slot (h ++ x ∷ []) k)) (sym (at_end i p q)) (rw last new)
      ];
      others = λ c p q r. ground (arith, size, old c, old (above c), v c p);
      across = λ c p q r s. absurd (omega (arith, size));
    }
  where
    at_end : (i : ℕ) → i < length (h ++ x ∷ []) → ltb i (length h) ≡ false → i ≡ length h
    at_end i p q = ground (arith, length-append h (x ∷ []))
